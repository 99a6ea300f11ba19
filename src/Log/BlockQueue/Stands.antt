-- ===== src/Log/BlockQueue/Stands.antt =====
-- When the ring of a queue stands for a bounded queue.
use kv.Prelude.{
  get_elem?-set, get_elem?-set_ne, get_elem?-append_left, get_elem?-append_length, ℕ, suc, ◌-◌, ◌≤◌,
  ◌<◌, ◌≡◌, ap, sym, ◌∙◌, subst, false, some, List, [], ◌∷◌, ◌++◌, ltb, length, length-set,
  length-append, get_elem?, set, arith, inl, inr, Bool-cases,
}
use kv.Prelude.Int.{pos}
use kv.Log.BlockQueue.{BlockQueue, item, next_index, take_front}
use kv.Log.BlockQueue.Ring.{
  position, position_in, position_ne, position_next, position-suc, next_index-pos,
}
use kv.Log.BlockQueue.Bounded.{Bounded}

module _ {ℓ} {A : Type ℓ} where
  -- The items of the array from the front on are those of the queue.
  pub record Stands (q : BlockQueue A) (b : Bounded A) : Type ℓ where
    pub first : ℕ
    pub first_in : first < q.m_max_size
    pub array : length q.m_array ≡ q.m_max_size
    pub fits : q.m_size ≤ q.m_max_size
    pub sizes : length b.items ≡ q.m_size
    pub capacities : b.capacity ≡ q.m_max_size
    pub both_closed : b.closed ≡ q.m_closed
    pub front_at : next_index q.m_front q.m_max_size ≡ first
    pub back_at : next_index q.m_back q.m_max_size ≡ position q.m_max_size first q.m_size
    pub last_at : (n : ℕ) → q.m_size ≡ suc n → q.m_back ≡ pos (position q.m_max_size first n)
    pub holds :
        (i : ℕ)
        → i < q.m_size
        → get_elem? q.m_array (position q.m_max_size first i) ≡ get_elem? b.items i

  module _ (q : BlockQueue A) (b : Bounded A) (h : Stands q b) where
    abbrev place : ℕ → ℕ
    place i = position q.m_max_size h.first i

    module _ (x : A) (below : q.m_size < q.m_max_size) where
      abbrev pub index : ℕ
      index = next_index q.m_back q.m_max_size

      index_in : index < q.m_max_size
      unfolding index
      index_in =
          subst (λ i. i < q.m_max_size) (sym h.back_at)
            (position_in q.m_max_size h.first q.m_size h.first_in h.fits)

      abbrev pub stored : BlockQueue A
      stored = record q {
        m_back = pos index;
        m_array = set q.m_array index x;
        m_size = suc q.m_size;
      }

      stored-holds :
          (i : ℕ)
          → i < suc q.m_size
          → get_elem? (set q.m_array index x) (place i) ≡ get_elem? (b.items ++ x ∷ []) i
      stored-holds i le = elim (Bool-cases (ltb i q.m_size)) [
        | inl old ↦
            get_elem?-set_ne q.m_array index (place i) x (λ e.
              position_ne q.m_max_size h.first q.m_size i h.first_in (ground arith) below
                (sym h.back_at ∙ e))
            ∙ h.holds i (ground arith)
            ∙ sym (get_elem?-append_left b.items (x ∷ []) i (ground (arith, h.sizes)))
        | inr new ↦
            ap (λ k. get_elem? (set q.m_array index x) (place k)) (last_one new)
            ∙ ap (get_elem? (set q.m_array index x)) (sym h.back_at)
            ∙ get_elem?-set q.m_array index x (omega (arith, index_in, h.array))
            ∙ sym (get_elem?-append_length b.items x)
            ∙ ap (get_elem? (b.items ++ x ∷ [])) (h.sizes ∙ sym (last_one new))
      ]
        where
          last_one : ltb i q.m_size ≡ false → i ≡ q.m_size
          last_one new = ground arith

      pub stored-Stands : Stands stored (record b { items = b.items ++ x ∷ [] })
      stored-Stands = record {
        first = h.first;
        first_in = h.first_in;
        array = length-set q.m_array index x ∙ h.array;
        fits = below;
        sizes = length-append b.items (x ∷ []) ∙ omega (arith, h.sizes);
        capacities = h.capacities;
        both_closed = h.both_closed;
        front_at = h.front_at;
        back_at =
            next_index-pos index q.m_max_size index_in
            ∙ ap (λ i. position q.m_max_size i 1) h.back_at
            ∙ position-suc q.m_max_size h.first q.m_size h.first_in below;
        last_at = λ n e. ap pos (h.back_at ∙ ap place (omega (arith, e)));
        holds = stored-holds;
      }

    -- What the queue is after its first item is taken.
    module _ (x : A) (l : List A) (starts : b.items ≡ x ∷ l) where
      pub size_suc : q.m_size ≡ suc (length l)
      size_suc = sym h.sizes ∙ ap length starts

      abbrev pub rest : BlockQueue A
      rest = record q { m_front = pos (next_index q.m_front q.m_max_size); m_size = q.m_size - 1 }

      rest-holds :
          (i : ℕ)
          → i < q.m_size - 1
          → get_elem? q.m_array (position q.m_max_size (place 1) i) ≡ get_elem? l i
      rest-holds i less =
          ap (get_elem? q.m_array)
            (position_next q.m_max_size h.first i h.first_in (omega (arith, h.fits)))
          ∙ h.holds (suc i) (omega arith)
          ∙ ap (λ m. get_elem? m (suc i)) starts

      pub rest-Stands : Stands rest (record b { items = l })
      rest-Stands = record {
        first = place 1;
        first_in = position_in q.m_max_size h.first 1 h.first_in (omega (arith, h.first_in));
        array = h.array;
        fits = omega (arith, h.fits);
        sizes = omega (arith, size_suc);
        capacities = h.capacities;
        both_closed = h.both_closed;
        front_at =
            ap (λ i. next_index (pos i) q.m_max_size) h.front_at
            ∙ next_index-pos h.first q.m_max_size h.first_in;
        back_at =
            h.back_at
            ∙ ap place (omega (arith, size_suc))
            ∙ sym (
                position_next q.m_max_size h.first (q.m_size - 1) h.first_in
                  (omega (arith, size_suc, h.fits)));
        last_at = λ n e.
            h.last_at (suc n) (omega (arith, e))
            ∙ ap pos
                (sym (position_next q.m_max_size h.first n h.first_in (omega (arith, e, h.fits))));
        holds = rest-holds;
      }

      pub front_item : get_elem? q.m_array (next_index q.m_front q.m_max_size) ≡ some x
      front_item =
          ap (get_elem? q.m_array) (h.front_at ∙ start)
          ∙ h.holds 0 (omega (arith, size_suc))
          ∙ ap (λ m. get_elem? m 0) starts
        where
          start : h.first ≡ position q.m_max_size h.first 0
          start = ground (arith, h.first_in)

      pub take_front-rest : take_front q ≡ (rest, item (some x))
      unfolding take_front
      take_front-rest = ap (λ y. (rest, item y)) front_item
