-- ===== src/Storage/Memory/Loading.antt =====
-- `snapshot_entries` and `replace_with_snapshot`: the state as a list of entries, and back.
use kv.Prelude.{
  ℕ, suc, ◌≡◌, refl, Bool, true, Option, none, some, List, [], ◌∷◌, Bytes, ap, keep, arith,
  bytes_eq, bytes_beq, nat_eq, ◌∙◌, sym, bytes_beq_iff, subst,
}
use kv.Prelude.Int.{ℤ, ◌≤ℤ◌}
use kv.Prelude.Assoc.{find, insert, find-insert, Distinct, without_absent, find-head}
use kv.Storage.Memory.{
  Entry, StoreEntry, MemoryStore, get, snapshot_entries, replace_with_snapshot, load_entries,
  entries_of, clear, evict_expired_locked,
}
use kv.Storage.Memory.Linked.{Linked-fresh, Linked-empty}
use kv.Storage.Memory.View.{Content, view, view_of, found, find-view}
use kv.Storage.Memory.Moves.{view-fresh, view-Distinct}
use kv.Storage.Memory.Eviction.{alive}
use kv.Storage.Memory.Capacity.{capped}
use kv.Storage.Memory.Recency.{settled, pairs, push_all, KeysNotEmpty}
use kv.Storage.Memory.Refinement.{IsValid, Stands, enforced-Stands, evicted-Stands}
use kv.Storage.Memory.Reading.{readable, get-readable, readable-keep, find-keep}

-- What the loop leaves: `true`, and the entries in front of what was there.
pub record Loaded (r : MemoryStore × Bool) (max : ℕ) (l : List (Bytes × Content)) : Type 0 where
  pub valid : IsValid r.0
  pub entries : view r.0 ≡ l
  pub max_keys : r.0.m_max_keys ≡ max
  pub finished : r.1 ≡ true

pub load_entries-Loaded :
    (xs : List StoreEntry) (s : MemoryStore)
    → IsValid s
    → KeysNotEmpty xs
    → Distinct (pairs xs)
    → ((k : Bytes) (c : Content) → find k (pairs xs) ≡ some c → find k s.m_data ≡ none)
    → Loaded (load_entries xs s) s.m_max_keys (push_all (pairs xs) (view s))
unfolding load_entries
load_entries-Loaded [] s h _ _ _ = record {
  valid = h;
  entries = refl;
  max_keys = refl;
  finished = refl;
}
load_entries-Loaded (x ∷ xs) s h (ne, nes) (d, ds) new =
    rw (ne, load_entries)
      (subst (λ l. Loaded (load_entries xs pushed) s.m_max_keys (push_all (pairs xs) l)) in_front
        (load_entries-Loaded xs pushed (Linked-fresh h x.key x.value x.expire_at_ms absent) nes ds
          still_new))
  where
    absent : find x.key s.m_data ≡ none
    absent = new x.key (x.value, x.expire_at_ms) (find-head x.key _ (pairs xs))

    entry : Entry
    entry = record { value = x.value; expire_at_ms = x.expire_at_ms; lru_it = s.next_node }

    pushed : MemoryStore
    pushed = record s {
      m_lru = (s.next_node, x.key) ∷ s.m_lru;
      m_data = insert x.key entry s.m_data;
      next_node = suc s.next_node;
    }

    in_front : view pushed ≡ (x.key, (x.value, x.expire_at_ms)) ∷ view s
    in_front =
        view-fresh h x.key entry s.next_node absent
        ∙ ap (◌∷◌ (x.key, (x.value, x.expire_at_ms)))
            (without_absent x.key (view s) (find-view h x.key ∙ ap found absent))

    still_new : (k : Bytes) (c : Content) → find k (pairs xs) ≡ some c → find k pushed.m_data ≡ none
    still_new k c p = ground (
      arith,
      find-insert x.key k entry s.m_data,
      bytes_beq_iff x.key k,
      new k c (unfold find in ground (arith, bytes_beq_iff x.key k)),
    )

-- Entries with distinct keys, none empty, replace the whole state: the last one is the newest, and
-- what has expired or does not fit is dropped.
pub replace_with_snapshot-Stands :
    (now : ℤ) (xs : List StoreEntry) (s : MemoryStore)
    → KeysNotEmpty xs
    → Distinct (pairs xs)
    → ((replace_with_snapshot now xs s).1 ≡ true)
      × Stands
          (replace_with_snapshot now xs s).0
          (settled now (record { entries = push_all (pairs xs) []; max_keys = s.m_max_keys }))
unfolding replace_with_snapshot find view_of
replace_with_snapshot-Stands now xs s nes ds =
    let loaded =
      load_entries-Loaded xs (clear s) (Linked-empty s.next_node) nes ds (λ k c p. refl) in
    rw (loaded.finished, replace_with_snapshot)
      (
        refl,
        enforced-Stands now _ _
            (record { valid = loaded.valid; entries = loaded.entries; max_keys = loaded.max_keys }),
      )

find-push_all :
    (k : Bytes) (xs l : List (Bytes × Content))
    → Distinct xs
    → find k (push_all xs l) ≡ elim (find k xs) [ none ↦ find k l | some c ↦ some c ]
find-push_all k [] l d = unfold find in refl
find-push_all k ((j, c) ∷ xs) l (d, ds) = find-push_all k xs ((j, c) ∷ l) ds ∙ step
  where
    step :
        elim (find k xs) [ none ↦ find k ((j, c) ∷ l) | some x ↦ some x ]
        ≡ elim (find k ((j, c) ∷ xs)) [ none ↦ find k l | some x ↦ some x ]
    step = unfold find in ground (arith, bytes_beq_iff j k)

push_all-Distinct :
    (xs l : List (Bytes × Content))
    → Distinct xs
    → Distinct l
    → ((k : Bytes) (c : Content) → find k xs ≡ some c → find k l ≡ none)
    → Distinct (push_all xs l)
push_all-Distinct [] l d dl apart = dl
push_all-Distinct ((j, c) ∷ xs) l (d, ds) dl apart =
    push_all-Distinct xs ((j, c) ∷ l) ds (apart j c (find-head j c xs), dl) still
  where
    still : (k : Bytes) (x : Content) → find k xs ≡ some x → find k ((j, c) ∷ l) ≡ none
    still k x p = unfold find in ground (arith, bytes_beq_iff j k, apart k x (find-cons k x p))
      where
        find-cons : (k : Bytes) (x : Content) → find k xs ≡ some x → find k ((j, c) ∷ xs) ≡ some x
        find-cons k x p = unfold find in ground (arith, bytes_beq_iff j k)

pub find-pairs :
    (k : Bytes) (m : List (Bytes × Entry)) → find k (pairs (entries_of m)) ≡ found (find k m)
unfolding entries_of find
find-pairs k [] = refl
find-pairs k ((j, e) ∷ m) = ground (arith, find-pairs k m)

pub pairs-Distinct : (m : List (Bytes × Entry)) → Distinct m → Distinct (pairs (entries_of m))
unfolding entries_of
pairs-Distinct [] d = tt
pairs-Distinct ((j, e) ∷ m) (d, ds) = (find-pairs j m ∙ ap found d, pairs-Distinct m ds)

pub entries_of-KeysNotEmpty :
    (m : List (Bytes × Entry)) → find {K = Bytes} [] m ≡ none → KeysNotEmpty (entries_of m)
unfolding entries_of find bytes_beq
entries_of-KeysNotEmpty [] h = tt
entries_of-KeysNotEmpty (([], e) ∷ m) h = absurd (cc)
entries_of-KeysNotEmpty ((b ∷ j, e) ∷ m) h = (refl, entries_of-KeysNotEmpty m h)

pub none_of_found : (o : Option Entry) → found o ≡ none → o ≡ none
none_of_found none h = refl
none_of_found (some e) h = cc

-- The entries that `snapshot_entries` takes of a valid state without an empty key.
module _ (now : ℤ) (s : MemoryStore) (h : IsValid s)
    (named : find {K = Bytes} [] s.m_data ≡ none) where
  abbrev taken : MemoryStore
  taken = evict_expired_locked now s

  taken-Stands :
      Stands taken (record { entries = keep (alive now) (view s); max_keys = s.m_max_keys })
  taken-Stands = evicted-Stands s h now

  find-taken : (k : Bytes) → found (find k taken.m_data) ≡ find k (keep (alive now) (view s))
  find-taken k = sym (find-view taken-Stands.valid k) ∙ ap (find k) taken-Stands.entries

  taken_named : KeysNotEmpty (entries_of taken.m_data)
  taken_named =
      entries_of-KeysNotEmpty taken.m_data
        (none_of_found (find [] taken.m_data) (find-taken [] ∙ no_empty))
    where
      no_empty : find {K = Bytes} [] (keep (alive now) (view s)) ≡ none
      no_empty = ground (arith, find-keep now [] (view s) (view-Distinct h), find-view h [], named)

  taken-Distinct : Distinct (pairs (entries_of taken.m_data))
  taken-Distinct = pairs-Distinct taken.m_data taken-Stands.valid.keys_distinct

  find-pushed :
      (k : Bytes)
      → find k (push_all (pairs (entries_of taken.m_data)) []) ≡ find k (keep (alive now) (view s))
  find-pushed k =
      find-push_all k (pairs (entries_of taken.m_data)) [] taken-Distinct
      ∙ unfold find in ground (arith, find-pairs k taken.m_data, find-taken k)

-- A state carried over as entries reads the same: the entries of `s`, taken at `now`, replace the
-- state of a store `t` without a bound at a later `now'`, and every read after that returns what `s`
-- would have returned. The state `s` is valid and has no empty key.
pub get-replace-snapshot :
    (now now' now'' : ℤ) (k : Bytes) (s t : MemoryStore)
    → IsValid s
    → find {K = Bytes} [] s.m_data ≡ none
    → t.m_max_keys ≡ 0
    → now ≤ℤ now'
    → now' ≤ℤ now''
    → (get now'' k (replace_with_snapshot now' (snapshot_entries now s).1 t).0).1
      ≡ (get now'' k s).1
unfolding snapshot_entries
get-replace-snapshot now now' now'' k s t h named unbounded le le' =
    get-readable now'' k (replace_with_snapshot now' es t).0 replaced.valid
    ∙ ap (λ l. readable now'' (find k l)) replaced.entries
    ∙ ap (λ n. readable now'' (find k (capped n (keep (alive now') pushed)))) unbounded
    ∙ readable-keep now' now'' k pushed
        (push_all-Distinct (pairs es) [] (taken-Distinct now s h named) tt
          (λ j c p. unfold find in refl))
        le'
    ∙ ap (readable now'') (find-pushed now s h named k)
    ∙ readable-keep now now'' k (view s) (view-Distinct h) (omega arith)
    ∙ sym (get-readable now'' k s h)
  where
    es : List StoreEntry
    es = entries_of (taken now s h named).m_data

    pushed : List (Bytes × Content)
    pushed = push_all (pairs es) []

    replaced :
        Stands
          (replace_with_snapshot now' es t).0
          (settled now' (record { entries = pushed; max_keys = t.m_max_keys }))
    replaced =
        (replace_with_snapshot-Stands now' es t (taken_named now s h named)
          (taken-Distinct now s h named)).1
