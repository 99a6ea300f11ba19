-- ===== src/Log/BlockQueue/Refinement.antt =====
-- The ring of `block_queue` is a bounded queue.
use kv.Prelude.{
  List-cases, ℕ, zero, suc, ◌<◌, ◌≡◌, refl, ap, sym, ◌∙◌, subst, true, false, some, List, [], ◌∷◌,
  ◌++◌, if◌then◌else◌, leb, is_empty, length, get_elem?, arith, inl, inr, Bool-cases, ap₂,
}
use kv.Prelude.Int.{pos, negsuc}
use kv.Log.BlockQueue.{
  BlockQueue, Popped, waits, nothing, item, next_index, blanks, block_queue, clear, close, full,
  empty, front, back, push, take_front, pop, pop_for,
}
use kv.Log.BlockQueue.Ring.{position, next_index-start}
use kv.Log.BlockQueue.Bounded.{
  Operation, push_item, pop_item, pop_in_time, clear_items, close_queue, see_front, see_back,
  full_now, empty_now, count_items, Reply, says, popped, shows, counts, Bounded, first_of, last_of,
  last_of-cons, promised, performed, results,
}
use kv.Log.BlockQueue.Stands.{
  Stands, stored, stored-Stands, size_suc, rest, rest-Stands, front_item, take_front-rest,
}

module _ {ℓ} {A : Type ℓ} where
  -- A call leads to queues that stand for one another again, with the same result.
  abbrev pub Agrees : BlockQueue A × Reply A → Bounded A × Reply A → Type ℓ
  Agrees (q, r) (b, r') = Stands q b × (r ≡ r')

  agree :
      (p : BlockQueue A × Reply A) (p' : Bounded A × Reply A) (q : BlockQueue A) (b : Bounded A)
      (r : Reply A)
      → p ≡ (q, r)
      → p' ≡ (b, r)
      → Stands q b
      → Agrees p p'
  agree p p' q b r e e' h =
      subst (λ p. Agrees p p') (sym e) (subst (λ p'. Agrees (q, r) p') (sym e') (h, refl))

  module _ (q : BlockQueue A) (b : Bounded A) (h : Stands q b) where
    leb_sizes : leb b.capacity (length b.items) ≡ leb q.m_max_size q.m_size
    leb_sizes = ap₂ leb h.capacities h.sizes

    no_size : b.items ≡ [] → q.m_size ≡ 0
    no_size e = sym h.sizes ∙ ap length e

    push-Agrees : (x : A) → Agrees (performed (push_item x) q) (promised (push_item x) b)
    unfolding push
    push-Agrees x = elim (Bool-cases q.m_closed) [
      | inl shut ↦ agree _ _ q b (says false) (rw shut refl) (rw (h.both_closed, shut) refl) h
      | inr still ↦ elim (Bool-cases (leb q.m_max_size q.m_size)) [
        | inl no_room ↦
            agree _ _ q b (says false) (rw (still, no_room) refl)
              (rw (h.both_closed, still, leb_sizes, no_room) refl) h
        | inr room ↦
            agree _ _ (stored q b h x (ground arith)) (record b { items = b.items ++ x ∷ [] })
              (says true) (rw (still, room) refl) (rw (h.both_closed, still, leb_sizes, room) refl)
              (stored-Stands q b h x (ground arith))
      ]
    ]

    pop_some : (n : ℕ) → q.m_size ≡ suc n → pop q ≡ take_front q
    unfolding pop
    pop_some n e = rw e refl

    pop_for-some : (n : ℕ) → q.m_size ≡ suc n → pop_for q ≡ take_front q
    unfolding pop_for
    pop_for-some n e = rw e refl

    pop-Agrees : Agrees (performed pop_item q) (promised pop_item b)
    unfolding pop
    pop-Agrees = elim (List-cases b.items) [
      | inl e ↦
          agree _ _ q b (popped (if q.m_closed then nothing else waits)) (rw (no_size e) refl)
            (rw (e, h.both_closed) refl) h
      | inr (x, l, e) ↦
          agree _ _ (rest q b h x l e) (record b { items = l }) (popped (item (some x)))
            (ap (λ (r : BlockQueue A × Popped A). (r.0, popped r.1))
              (pop_some (length l) (size_suc q b h x l e) ∙ take_front-rest q b h x l e))
            (rw e refl) (rest-Stands q b h x l e)
    ]

    pop_for-Agrees : Agrees (performed pop_in_time q) (promised pop_in_time b)
    unfolding pop_for
    pop_for-Agrees = elim (List-cases b.items) [
      | inl e ↦
          agree _ _ q b (popped nothing) (rw (no_size e) refl)
            (rw e (elim (Bool-cases b.closed) [ inl c ↦ rw c refl | inr c ↦ rw c refl ])) h
      | inr (x, l, e) ↦
          agree _ _ (rest q b h x l e) (record b { items = l }) (popped (item (some x)))
            (ap (λ (r : BlockQueue A × Popped A). (r.0, popped r.1))
              (pop_for-some (length l) (size_suc q b h x l e) ∙ take_front-rest q b h x l e))
            (rw e refl) (rest-Stands q b h x l e)
    ]

    clear-Stands : Stands (clear q) (record b { items = [] })
    unfolding clear
    clear-Stands = record {
      first = 0;
      first_in = some_room;
      array = h.array;
      fits = omega arith;
      sizes = refl;
      capacities = h.capacities;
      both_closed = h.both_closed;
      front_at = next_index-start q.m_max_size some_room;
      back_at = next_index-start q.m_max_size some_room ∙ ground (arith, some_room);
      last_at = λ n e. absurd (omega (arith, e));
      holds = λ i less. absurd (omega (arith, less));
    }
      where
        some_room : 0 < q.m_max_size
        some_room = omega (arith, h.first_in)

    close-Stands : Stands (close q) (record b { closed = true })
    unfolding close
    close-Stands = record {
      first = h.first;
      first_in = h.first_in;
      array = h.array;
      fits = h.fits;
      sizes = h.sizes;
      capacities = h.capacities;
      both_closed = refl;
      front_at = h.front_at;
      back_at = h.back_at;
      last_at = h.last_at;
      holds = h.holds;
    }

    front-first_of : front q ≡ first_of b.items
    unfolding front
    front-first_of = elim (List-cases b.items) [
      | inl e ↦ rw (no_size e, e) refl
      | inr (x, l, e) ↦
          some_front (length l) (size_suc q b h x l e)
          ∙ ap some (front_item q b h x l e)
          ∙ sym (ap first_of e)
    ]
      where
        some_front :
            (n : ℕ)
            → q.m_size ≡ suc n
            → front q ≡ some (get_elem? q.m_array (next_index q.m_front q.m_max_size))
        some_front n e = rw e refl

    back-last_of : back q ≡ last_of b.items
    unfolding back
    back-last_of = elim (List-cases b.items) [
      | inl e ↦ rw (no_size e, e) refl
      | inr (x, l, e) ↦
          some_back (length l) (size_suc q b h x l e)
          ∙ ap some (
              h.holds (length l) (omega (arith, size_suc q b h x l e))
              ∙ ap (λ m. get_elem? m (length l)) e)
          ∙ sym (ap last_of e ∙ last_of-cons x l)
    ]
      where
        some_back :
            (n : ℕ)
            → q.m_size ≡ suc n
            → back q ≡ some (get_elem? q.m_array (position q.m_max_size h.first n))
        some_back n e = rw (e, h.last_at n e) refl

    empty-items : empty q ≡ is_empty b.items
    unfolding empty
    empty-items = elim (List-cases b.items) [
      | inl e ↦ rw (no_size e, e) refl
      | inr (x, l, e) ↦ rw (size_suc q b h x l e, e) refl
    ]

  performed-promised :
      (o : Operation A) (q : BlockQueue A) (b : Bounded A)
      → Stands q b
      → Agrees (performed o q) (promised o b)
  performed-promised (push_item x) q b h = push-Agrees q b h x
  performed-promised pop_item q b h = pop-Agrees q b h
  performed-promised pop_in_time q b h = pop_for-Agrees q b h
  performed-promised clear_items q b h = (clear-Stands q b h, refl)
  performed-promised close_queue q b h = (close-Stands q b h, refl)
  performed-promised see_front q b h = (h, ap shows (front-first_of q b h))
  performed-promised see_back q b h = (h, ap shows (back-last_of q b h))
  performed-promised full_now q b h = (h, unfold full in ap says (sym (leb_sizes q b h)))
  performed-promised empty_now q b h = (h, ap says (empty-items q b h))
  performed-promised count_items q b h = (h, ap counts (sym h.sizes))

  results-same :
      (os : List (Operation A)) (q : BlockQueue A) (b : Bounded A)
      → Stands q b
      → results performed os q ≡ results promised os b
  results-same [] q b h = refl
  results-same (o ∷ os) q b h =
      let (h', e) = performed-promised o q b h in
      ap₂ ◌∷◌ e (results-same os (performed o q).0 (promised o b).0 h')

  length-blanks : (n : ℕ) (blank : A) → length (blanks n blank) ≡ n
  unfolding blanks
  length-blanks zero blank = refl
  length-blanks (suc n) blank = ap suc (length-blanks n blank)

  start-Stands :
      (blank : A) (n : ℕ)
      → Stands
          (record {
            m_array = blanks (suc n) blank;
            m_size = 0;
            m_max_size = suc n;
            m_front = negsuc 0;
            m_back = negsuc 0;
            m_closed = false;
          })
          (record { items = []; capacity = suc n; closed = false })
  start-Stands blank n = record {
    first = 0;
    first_in = omega arith;
    array = length-blanks (suc n) blank;
    fits = omega arith;
    sizes = refl;
    capacities = refl;
    both_closed = refl;
    front_at = next_index-start (suc n) (omega arith);
    back_at = next_index-start (suc n) (omega arith) ∙ ground arith;
    last_at = λ m e. absurd (omega (arith, e));
    holds = λ i less. absurd (omega (arith, less));
  }

  -- Whatever the threads call and in whichever order, a queue that the constructor made for at least one
  -- item gives them what a bounded queue of so many items would: items come out in the order in which
  -- they went in, a push is refused exactly when it is full or closed, and a pop waits exactly when it
  -- is empty and not closed.
  pub results-block_queue :
      (blank : A) (n : ℕ) (os : List (Operation A))
      → (q : BlockQueue A) × (block_queue blank (pos (suc n)) ≡ some q)
        × (results performed os q
            ≡ results promised os (record { items = []; capacity = suc n; closed = false }))
  unfolding block_queue
  results-block_queue blank n os = (_, refl, results-same os _ _ (start-Stands blank n))
