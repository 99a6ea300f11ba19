-- ===== src/Storage/Memory/Reading.antt =====
-- What is read back after a write.
use kv.Prelude.{
  ℕ, zero, suc, ◌≡◌, ◌≢◌, refl, true, false, Option, none, some, List, [], ◌∷◌, Bytes, keep, inl,
  inr, Bool-cases, Option-cases, arith, is_empty, if◌then◌else◌, bytes_eq, nat_eq, ap, ◌∙◌, sym,
  bytes_beq_iff, beq_refl,
}
use kv.Prelude.Int.{ℤ, ◌≤ℤ◌}
use kv.Prelude.Assoc.{find, without, find-without, Distinct, without-Distinct}
use kv.Storage.Memory.{MemoryStore, get, put_with_expire_at, del, expired, erase_entry}
use kv.Storage.Memory.View.{Content, view, find-view}
use kv.Storage.Memory.Moves.{view-Distinct}
use kv.Storage.Memory.Eviction.{dead, alive}
use kv.Storage.Memory.Capacity.{capped}
use kv.Storage.Memory.Refinement.{IsValid, put-Stands}

-- What a read at `now` makes of an entry.
abbrev pub readable : ℤ → Option Content → Option Bytes
readable now none = none
readable now (some (v, x)) = if dead now (v, x) then none else some v

pub get-readable :
    (now : ℤ) (k : Bytes) (s : MemoryStore)
    → IsValid s
    → (get now k s).1 ≡ readable now (find k (view s))
unfolding get expired
get-readable now k s h = elim (Option-cases (find k s.m_data)) [
  | inl e ↦ rw (find-view h k) (ground arith)
  | inr (e, at) ↦ rw (find-view h k) (ground arith)
]

-- The newest entry stays, if its deadline has not passed.
find-settled_head :
    (now : ℤ) (k : Bytes) (d : Content) (l : List (Bytes × Content)) (n : ℕ)
    → dead now d ≡ false
    → find k (capped n (keep (alive now) ((k, d) ∷ l))) ≡ some d
unfolding keep find
find-settled_head now k d l zero live = ground (arith, beq_refl k)
find-settled_head now k d l (suc n) live = ground (arith, beq_refl k)

-- A value that is put under a key that is not empty is read back until its deadline passes, whatever
-- the bound on the keys.
pub get-put :
    (now now' : ℤ) (k v : Bytes) (x : ℤ) (s : MemoryStore)
    → IsValid s
    → is_empty k ≡ false
    → dead now (v, x) ≡ false
    → dead now' (v, x) ≡ false
    → (get now' k (put_with_expire_at now k v x s).0).1 ≡ some v
get-put now now' k v x s h ne live live' =
    let stands = put-Stands s h now k v x ne in
    get-readable now' k (put_with_expire_at now k v x s).0 stands.valid
    ∙ ap (λ l. readable now' (find k l)) stands.entries
    ∙ ap (readable now') (find-settled_head now k (v, x) (without k (view s)) s.m_max_keys live)
    ∙ ground arith

pub find-keep :
    (now : ℤ) (k : Bytes) (l : List (Bytes × Content))
    → Distinct l
    → find k (keep (alive now) l)
      ≡ elim (find k l) [ none ↦ none | some d ↦ if dead now d then none else some d ]
unfolding keep find
find-keep now k [] d = refl
find-keep now k ((j, c) ∷ l) (d, ds) = ground (arith, find-keep now k l ds, bytes_beq_iff j k)

pub dead_mono : (now now' : ℤ) (d : Content) → now ≤ℤ now' → dead now d ≡ true → dead now' d ≡ true
dead_mono now now' d le h = ground arith

pub readable-keep :
    (now now' : ℤ) (k : Bytes) (l : List (Bytes × Content))
    → Distinct l
    → now ≤ℤ now'
    → readable now' (find k (keep (alive now) l)) ≡ readable now' (find k l)
readable-keep now now' k l d le = elim (Option-cases (find k l)) [
  | inl e ↦ ground (arith, find-keep now k l d)
  | inr (c, e) ↦ ground (arith, find-keep now k l d, dead_mono now now' c le)
]

-- With no bound on the keys, a put changes nothing that is read later under another key.
pub get-put_ne :
    (now now' : ℤ) (k j v : Bytes) (x : ℤ) (s : MemoryStore)
    → IsValid s
    → s.m_max_keys ≡ 0
    → k ≢ j
    → now ≤ℤ now'
    → (get now' j (put_with_expire_at now k v x s).0).1 ≡ (get now' j s).1
get-put_ne now now' k j v x s h unbounded ne le = elim (Bool-cases (is_empty k)) [
  | inl e ↦ unfold put_with_expire_at in rw e
  | inr e ↦
      let stands = put-Stands s h now k v x e in
      let l : List (Bytes × Content) = (k, (v, x)) ∷ without k (view s) in
      let stands' = stands.entries ∙ ap (λ n. capped n (keep (alive now) l)) unbounded in
      get-readable now' j (put_with_expire_at now k v x s).0 stands.valid
      ∙ ap (λ l. readable now' (find j l)) stands'
      ∙ readable-keep now now' j ((k, (v, x)) ∷ without k (view s)) (fronted-Distinct) le
      ∙ ap (readable now') other
      ∙ sym (get-readable now' j s h)
]
  where
    fronted-Distinct : Distinct ⦃e = bytes_eq⦄ ((k, (v, x)) ∷ without k (view s))
    fronted-Distinct = (
      ground (arith, find-without k k (view s), beq_refl k),
      without-Distinct k (view s) (view-Distinct h),
    )

    other : find j ((k, (v, x)) ∷ without k (view s)) ≡ find j (view s)
    other = unfold find in ground (arith, find-without k j (view s), bytes_beq_iff k j)

-- A deleted key is not read back, whether or not it was there.
pub get-del : (now : ℤ) (k : Bytes) (s : MemoryStore) → (get now k (del k s).0).1 ≡ none
unfolding get del erase_entry
get-del now k s = ground (arith, find-without k k s.m_data, beq_refl k)
