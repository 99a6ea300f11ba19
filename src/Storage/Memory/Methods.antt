-- ===== src/Storage/Memory/Methods.antt =====
-- Each method of `MemoryStore` beside what `Recency` says of it.
use kv.Prelude.{
  ◌≡◌, refl, true, inl, inr, Bool-cases, is_empty, subst, Bytes, List, [], ◌∷◌, length, keep, ap,
  ap₂, ◌∙◌, sym, bytes_eq, arith,
}
use kv.Prelude.Int.{ℤ, pos, leb_ℤ}
use kv.Prelude.Assoc.{find, Distinct}
use kv.Storage.Memory.{
  Entry, MemoryStore, StoreEntry, ttl_to_expire_at_ms, evict_expired_locked, entries_of, values_of,
  load_entries,
}
use kv.Storage.Memory
use kv.Storage.Memory.Linked.{Linked-empty}
use kv.Storage.Memory.View.{view, view_of, found, find-view}
use kv.Storage.Memory.Eviction.{alive}
use kv.Storage.Memory.Capacity.{length-view}
use kv.Storage.Memory.Recency.{
  abstract_of, Call, put, put_with_expire_at, put_ttl, get, del, exists, expire_at, expire, ttl,
  set_max_keys, size, snapshot_entries, replace_with_snapshot, snapshot, clear, done, contents,
  values, contents_of, values_in, value_at, pairs, KeysNotEmpty, named, all_named, IsProper,
  with_reply, run, run_spec,
}
use kv.Storage.Memory.Refinement.{
  IsValid, Meets, if-Meets, self-Stands, enforced-Stands, evicted-Stands, put-Meets, get-Meets,
  del-Meets, exists-Meets, expire_at-Meets, ttl-Meets, size-Meets,
}
use kv.Storage.Memory.Loading.{load_entries-Loaded, find-pairs, replace_with_snapshot-Stands}

length-entries_of : (m : List (Bytes × Entry)) → length (entries_of m) ≡ length m
unfolding entries_of
length-entries_of [] = refl
length-entries_of (_ ∷ m) = ground (arith, length-entries_of m)

length-values_of : (m : List (Bytes × Entry)) → length (values_of m) ≡ length m
unfolding values_of
length-values_of [] = refl
length-values_of (_ ∷ m) = ground (arith, length-values_of m)

find-values_of :
    (k : Bytes) (m : List (Bytes × Entry)) → find k (values_of m) ≡ value_at (found (find k m))
unfolding values_of find
find-values_of k [] = refl
find-values_of k ((j, e) ∷ m) = ground (arith, find-values_of k m)

module _ (s : MemoryStore) (h : IsValid s) (now : ℤ) where
  -- What is left in the map, by its number of keys and by each of them.
  length-left : length (evict_expired_locked now s).m_data ≡ length (keep (alive now) (view s))
  length-left =
      let stands = evicted-Stands s h now in
      sym (length-view stands.valid) ∙ ap length stands.entries

  find-left :
      (k : Bytes)
      → found (find k (evict_expired_locked now s).m_data) ≡ find k (keep (alive now) (view s))
  find-left k =
      let stands = evicted-Stands s h now in
      sym (find-view stands.valid k) ∙ ap (find k) stands.entries

  snapshot_entries-Meets :
      Meets
        (with_reply contents_of (Memory.snapshot_entries now s))
        (run_spec (snapshot_entries now) (abstract_of s))
  unfolding Memory.snapshot_entries run_spec
  snapshot_entries-Meets =
      let m = (evict_expired_locked now s).m_data in
      (
        evicted-Stands s h now,
        ap₂ contents (length-entries_of m ∙ length-left) (λ i k. (find-pairs k m ∙ find-left k) i),
      )

  snapshot-Meets :
      Meets (with_reply values_in (Memory.snapshot now s)) (run_spec (snapshot now) (abstract_of s))
  unfolding Memory.snapshot run_spec
  snapshot-Meets =
      let m = (evict_expired_locked now s).m_data in
      (
        evicted-Stands s h now,
        ap₂ values (length-values_of m ∙ length-left)
            (λ i k. (find-values_of k m ∙ ap value_at (find-left k)) i),
      )

-- The loop of `replace_with_snapshot` takes the entries before the first empty key.
load_entries-named :
    (xs : List StoreEntry) (s : MemoryStore)
    → load_entries xs s ≡ ((load_entries (named xs) s).0, all_named xs)
unfolding load_entries
load_entries-named [] s = refl
load_entries-named (x ∷ xs) s = elim (Bool-cases (is_empty x.key)) [
  | inl e ↦ rw (e, load_entries) refl
  | inr e ↦ rw (e, load_entries, e) (load_entries-named xs _)
]

named-KeysNotEmpty : (xs : List StoreEntry) → KeysNotEmpty (named xs)
named-KeysNotEmpty [] = tt
named-KeysNotEmpty (x ∷ xs) = elim (Bool-cases (is_empty x.key)) [
  | inl e ↦ rw e tt
  | inr e ↦ rw e (e, named-KeysNotEmpty xs)
]

named-eq : (xs : List StoreEntry) → all_named xs ≡ true → named xs ≡ xs
named-eq [] h = refl
named-eq (x ∷ xs) h = elim (Bool-cases (is_empty x.key)) [
  | inl e ↦ absurd (ground arith)
  | inr e ↦ rw e (ap (◌∷◌ x) (named-eq xs (ground arith)))
]

replace_with_snapshot-Meets :
    (now : ℤ) (xs : List StoreEntry) (s : MemoryStore)
    → Distinct (pairs (named xs))
    → Meets
        (with_reply done (Memory.replace_with_snapshot now xs s))
        (run_spec (replace_with_snapshot now xs) (abstract_of s))
unfolding Memory.replace_with_snapshot Memory.clear run_spec find view_of
replace_with_snapshot-Meets now xs s distinct = elim (Bool-cases (all_named xs)) [
  | inl all ↦
      let (finished, stands) =
        replace_with_snapshot-Stands now xs s
          (subst KeysNotEmpty (named-eq xs all) (named-KeysNotEmpty xs))
          (subst (λ l. Distinct (pairs l)) (named-eq xs all) distinct) in
      rw (all, run_spec, named-eq xs all) (stands, ap done finished)
  | inr stopped ↦
      let loaded =
        load_entries-Loaded (named xs) (Memory.clear s) (Linked-empty s.next_node)
          (named-KeysNotEmpty xs) distinct (λ k c p. refl) in
      rw (load_entries-named xs (Memory.clear s), stopped, Memory.replace_with_snapshot, run_spec)
        (
          record { valid = loaded.valid; entries = loaded.entries; max_keys = loaded.max_keys },
          refl,
        )
]

-- Every method of the memory store, on every branch, keeps the map and the list of recent use in step,
-- and its effect and its reply are those of a list of keys with their values and deadlines, the most
-- recently used first, that knows no map. What replace_with_snapshot is given has distinct keys, up to
-- the first that is empty; what the two snapshots return is compared by its number of keys and by what
-- each key has in it.
pub run-Meets :
    (c : Call) (s : MemoryStore)
    → IsValid s
    → IsProper c
    → Meets (run c s) (run_spec c (abstract_of s))
unfolding run run_spec Memory.put Memory.put_ttl Memory.expire Memory.set_max_keys Memory.clear
run-Meets (put now k v) s h proper = put-Meets s h now k v (pos 0)
run-Meets (put_with_expire_at now k v x) s h proper = put-Meets s h now k v x
run-Meets (put_ttl now now' k v n) s h proper =
    if-Meets done (leb_ℤ n (pos 0)) _ _ _ _ (λ _. (self-Stands s h, refl))
      (λ _. put-Meets s h now' k v (ttl_to_expire_at_ms now n))
run-Meets (get now k) s h proper = get-Meets s h now k
run-Meets (del k) s h proper = del-Meets s h k
run-Meets (exists now k) s h proper = exists-Meets s h now k
run-Meets (expire_at now k x) s h proper = expire_at-Meets s h now k x
run-Meets (expire now now' k n) s h proper =
    if-Meets done (leb_ℤ n (pos 0)) _ _ _ _ (λ _. (self-Stands s h, refl))
      (λ _. expire_at-Meets s h now' k (ttl_to_expire_at_ms now n))
run-Meets (ttl now k) s h proper = ttl-Meets s h now k
run-Meets (set_max_keys now n) s h proper =
    let resized = record s { m_max_keys = n } in
    (enforced-Stands now resized (abstract_of resized) (self-Stands resized h), refl)
run-Meets (size now) s h proper = size-Meets s h now
run-Meets (snapshot_entries now) s h proper = snapshot_entries-Meets s h now
run-Meets (replace_with_snapshot now xs) s h distinct =
    replace_with_snapshot-Meets now xs s distinct
run-Meets (snapshot now) s h proper = snapshot-Meets s h now
run-Meets clear s h proper = (
  record { valid = Linked-empty s.next_node; entries = unfold view_of in refl; max_keys = refl },
  refl,
)
