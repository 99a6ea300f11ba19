-- ===== src/Storage/Memory/Capacity.antt =====
-- `enforce_capacity_locked` keeps the invariant, ends with room, and drops the least recently used.
use kv.Prelude.{
  ℕ, zero, suc, ◌+◌, ◌≤◌, ◌<◌, ◌≡◌, ◌≢◌, refl, false, none, some, List, [], ◌∷◌, ◌++◌, Bytes, inl,
  inr, Bool-cases, Option-cases, arith, bytes_beq_iff, nat_beq_iff, bytes_eq, nat_eq, ap, sym, ◌∙◌,
  subst, keep, length, length-append, take, take-append_le, take_of_length-le, ltb, ◌&&◌, beq_refl,
}
use kv.Prelude.Int.{ℤ}
use kv.Prelude.Assoc.{find, without, find-head, find-without, length-without, Distinct}
use kv.Storage.Memory.{
  Entry, MemoryStore, back, pop_back, shrink, evict_expired_locked, enforce_capacity_locked,
}
use kv.Storage.Memory.Linked.{Linked, Linked-erase, length-Linked}
use kv.Storage.Memory.View.{Content, content, view_of, view, AgreeBut, OnlyNode}
use kv.Storage.Memory.Moves.{only_node}
use kv.Storage.Memory.Eviction.{alive, evict_expired_locked-Linked, evict_expired_locked-view}

-- At most `max` entries of a recency list, where 0 stands for no bound.
abbrev pub capped {ℓ} : {A : Type ℓ} → ℕ → List A → List A
capped zero l = l
capped (suc n) l = take (suc n) l

find-back :
    (lru : List (ℕ × Bytes)) (i : ℕ) (k : Bytes)
    → Distinct lru
    → back lru ≡ some (i, k)
    → find i lru ≡ some k
unfolding back find
find-back [] i k d h = cc
find-back ((n, j) ∷ []) i k d h = ground (arith, beq_refl i)
find-back ((n, j) ∷ y ∷ r) i k (d, ds) h =
    ground (arith, find-back (y ∷ r) i k ds h, nat_beq_iff n i)

pop_back-eq-without :
    (lru : List (ℕ × Bytes)) (i : ℕ) (k : Bytes)
    → Distinct lru
    → back lru ≡ some (i, k)
    → pop_back lru ≡ without i lru
unfolding back pop_back without
pop_back-eq-without [] i k d h = cc
pop_back-eq-without ((n, j) ∷ []) i k d h = ground (arith, beq_refl i)
pop_back-eq-without ((n, j) ∷ y ∷ r) i k (d, ds) h =
    ground
      (arith, pop_back-eq-without (y ∷ r) i k ds h, find-back (y ∷ r) i k ds h, nat_beq_iff n i)

-- The view ends with the key of the last node.
view_of-pop_back :
    (m' m : List (Bytes × Entry)) (lru : List (ℕ × Bytes)) (i : ℕ) (k : Bytes) (e : Entry)
    → Distinct lru
    → back lru ≡ some (i, k)
    → OnlyNode i k lru
    → AgreeBut k m' m
    → find k m ≡ some e
    → view_of m lru ≡ view_of m' (pop_back lru) ++ (k, content e) ∷ []
unfolding back pop_back view_of
view_of-pop_back m' m [] i k e d h only agree at = cc
view_of-pop_back m' m ((n, j) ∷ []) i k e d h only agree at = ground arith
view_of-pop_back m' m ((n, j) ∷ y ∷ r) i k e (d, ds) h only agree at = ground (
  arith,
  view_of-pop_back m' m (y ∷ r) i k e ds h rest agree at,
  find-back (y ∷ r) i k ds h,
  only n j (find-head n j (y ∷ r)),
  agree j,
)
  where
    rest : OnlyNode i k (y ∷ r)
    rest o p q = only o p (unfold find in ground (arith, nat_beq_iff n o))

length-view_of :
    (m : List (Bytes × Entry)) (lru : List (ℕ × Bytes))
    → Distinct lru
    → ((i : ℕ) (k : Bytes) → find i lru ≡ some k → find k m ≢ none)
    → length (view_of m lru) ≡ length lru
unfolding view_of
length-view_of m [] d h = refl
length-view_of m ((i, k) ∷ lru) (d, ds) h =
    ground (arith, length-view_of m lru ds rest, h i k (find-head i k lru))
  where
    rest : (n : ℕ) (j : Bytes) → find n lru ≡ some j → find j m ≢ none
    rest n j p = h n j (unfold find in ground (arith, nat_beq_iff i n))

back-eq-none : (lru : List (ℕ × Bytes)) → back lru ≡ none → lru ≡ []
unfolding back
back-eq-none [] h = refl
back-eq-none (x ∷ []) h = cc
back-eq-none (x ∷ y ∷ r) h = cc (back-eq-none (y ∷ r) h)

-- The view, the map and the list have one length.
pub length-view :
    {m : List (Bytes × Entry)} {lru : List (ℕ × Bytes)} {next : ℕ}
    → Linked m lru next
    → length (view_of m lru) ≡ length m
length-view {m} {lru} h =
    length-view_of m lru h.nodes_distinct (λ i k p q. let (e, there, _) = h.key_of_node i k p in cc)
    ∙ sym (length-Linked m lru h)

-- A round of the loop on a state with an entry too many.
module _ (s : MemoryStore) (h : Linked s.m_data s.m_lru s.next_node) (i : ℕ) (k : Bytes)
    (last : back s.m_lru ≡ some (i, k)) where
  abbrev popped : MemoryStore
  popped = record s { m_lru = pop_back s.m_lru; m_data = without k s.m_data }

  last_entry : (e : Entry) × (find k s.m_data ≡ some e) × (e.lru_it ≡ i)
  last_entry = h.key_of_node i k (find-back s.m_lru i k h.nodes_distinct last)

  popped-Linked : Linked popped.m_data popped.m_lru popped.next_node
  popped-Linked =
      let (e, there, ptr) = last_entry in
      subst (λ l. Linked (without k s.m_data) l s.next_node)
        (ap (λ n. without n s.m_lru) ptr
          ∙ sym (pop_back-eq-without s.m_lru i k h.nodes_distinct last))
        (Linked-erase h k e there)

  popped-view : (x : Bytes × Content) × (view s ≡ view popped ++ x ∷ [])
  popped-view =
      let (e, there, ptr) = last_entry in
      (
        (k, content e),
        view_of-pop_back popped.m_data s.m_data s.m_lru i k e h.nodes_distinct last
            (subst (λ n. OnlyNode n k s.m_lru) ptr (only_node h k e there))
            (λ j ne. ground (arith, find-without k j s.m_data, bytes_beq_iff k j)) there,
      )

  popped-capped :
      (max : ℕ) → 0 < max → max < length s.m_data → capped max (view popped) ≡ capped max (view s)
  popped-capped zero pos lt = absurd (omega arith)
  popped-capped (suc n) pos lt =
      let (x, split) = popped-view in
      rw split (
        sym (
          take-append_le (suc n) (view popped) (x ∷ [])
            (omega (arith, length-view h, length-append (view popped) (x ∷ []), ap length split))))

  popped-length : length popped.m_data + 1 ≡ length s.m_data
  popped-length =
      let (e, there, ptr) = last_entry in length-without k e s.m_data h.keys_distinct there

shrink-Linked :
    (fuel : ℕ) (s : MemoryStore)
    → Linked s.m_data s.m_lru s.next_node
    → Linked (shrink fuel s).m_data (shrink fuel s).m_lru (shrink fuel s).next_node
unfolding shrink
shrink-Linked zero s h = h
shrink-Linked (suc fuel) s h =
    elim (Bool-cases (ltb 0 s.m_max_keys && ltb s.m_max_keys (length s.m_data))) [
      | inr room ↦ rw (room, shrink) h
      | inl over ↦ elim (Option-cases (back s.m_lru)) [
        | inl e ↦ rw (over, e, shrink) h
        | inr ((i, k), e) ↦
            rw (over, e, shrink) (shrink-Linked fuel (popped s h i k e) (popped-Linked s h i k e))
      ]
    ]

capped_of_room {ℓ} :
    {A : Type ℓ} (max : ℕ) (l : List A)
    → (ltb 0 max && ltb max (length l)) ≡ false
    → capped max l ≡ l
capped_of_room zero l h = refl
capped_of_room (suc n) l h = take_of_length-le (suc n) l (ground arith)

shrink-view :
    (fuel : ℕ) (s : MemoryStore)
    → Linked s.m_data s.m_lru s.next_node
    → length s.m_data ≤ fuel
    → view (shrink fuel s) ≡ capped s.m_max_keys (view s)
unfolding shrink
shrink-view zero s h enough =
    sym (capped_of_room s.m_max_keys (view s) (ground (arith, length-view h)))
shrink-view (suc fuel) s h enough =
    elim (Bool-cases (ltb 0 s.m_max_keys && ltb s.m_max_keys (length s.m_data))) [
      | inr room ↦
          rw (room, shrink) (sym (capped_of_room s.m_max_keys (view s) (rw (length-view h) room)))
      | inl over ↦ elim (Option-cases (back s.m_lru)) [
        | inl e ↦
            let empty : length s.m_data ≡ 0 =
              length-Linked s.m_data s.m_lru h ∙ ap length (back-eq-none s.m_lru e) in
            absurd (ground arith)
        | inr ((i, k), e) ↦
            rw (over, e, shrink)
              (shrink-view fuel (popped s h i k e) (popped-Linked s h i k e)
                  (omega (arith, popped-length s h i k e))
                ∙ popped-capped s h i k e s.m_max_keys (ground arith) (ground arith))
      ]
    ]

shrink-max_keys : (fuel : ℕ) (s : MemoryStore) → (shrink fuel s).m_max_keys ≡ s.m_max_keys
unfolding shrink
shrink-max_keys zero s = refl
shrink-max_keys (suc fuel) s = elim (Option-cases (back s.m_lru)) [
  | inl e ↦ ground arith
  | inr ((i, k), e) ↦ ground (
    arith,
    shrink-max_keys fuel (record s { m_lru = pop_back s.m_lru; m_data = without k s.m_data }),
  )
]

module _ (now : ℤ) (s : MemoryStore) (h : Linked s.m_data s.m_lru s.next_node) where
  pub enforce_capacity_locked-Linked :
      Linked
        (enforce_capacity_locked now s).m_data
        (enforce_capacity_locked now s).m_lru
        (enforce_capacity_locked now s).next_node
  unfolding enforce_capacity_locked evict_expired_locked
  enforce_capacity_locked-Linked =
      shrink-Linked _ (evict_expired_locked now s) (evict_expired_locked-Linked now s h)

  -- What stays is the newest of what has not expired.
  pub enforce_capacity_locked-view :
      view (enforce_capacity_locked now s) ≡ capped s.m_max_keys (keep (alive now) (view s))
  unfolding enforce_capacity_locked evict_expired_locked
  enforce_capacity_locked-view =
      let h' = evict_expired_locked-Linked now s h in
      let s' = evict_expired_locked now s in
      shrink-view (length s'.m_lru) s' h' (omega (arith, length-Linked s'.m_data s'.m_lru h'))
      ∙ ap (capped s.m_max_keys) (evict_expired_locked-view now s h)

  pub enforce_capacity_locked-max_keys : (enforce_capacity_locked now s).m_max_keys ≡ s.m_max_keys
  unfolding enforce_capacity_locked evict_expired_locked
  enforce_capacity_locked-max_keys = shrink-max_keys _ (evict_expired_locked now s)
