-- ===== src/Storage/Memory.antt =====
-- src/storage/memory_store.{h,cpp}: the map and the recency list of `MemoryStore`.
-- A node of `m_lru` has an identity, and an iterator is the identity of its node, so a stale
-- iterator would be one that `find` misses. `next_node` is the identity of the next node that
-- `push_front` makes. Each call of `now_ms` is an argument.
pub mod Linked
pub mod View
pub mod Moves
pub mod Eviction
pub mod Capacity
pub mod Recency
pub mod Refinement
pub mod Methods
pub mod Histories
pub mod Reading
pub mod Loading
use kv.Prelude.{
  ℕ, zero, suc, ◌+◌, ◌/◌, Bool, true, false, ◌&&◌, Option, none, some, List, [], ◌∷◌, Bytes, length,
  is_empty, ltb, if◌then◌else◌, ◌==◌, ◌*◌, bytes_eq, nat_eq,
}
use kv.Prelude.Int.{ℤ, pos, negsuc, ◌+ℤ◌, ◌-ℤ◌, ltb_ℤ, leb_ℤ, eqb_ℤ, pos_part}
use kv.Prelude.Assoc.{find, insert, without}

pub record StoreEntry : Type 0 where
  pub key : Bytes
  pub value : Bytes
  pub expire_at_ms : ℤ

pub record Entry : Type 0 where
  pub value : Bytes
  pub expire_at_ms : ℤ
  pub lru_it : ℕ

pub record MemoryStore : Type 0 where
  pub m_data : List (Bytes × Entry)
  pub m_lru : List (ℕ × Bytes)
  pub next_node : ℕ
  pub m_max_keys : ℕ

-- A store as it is constructed.
abbrev pub fresh : MemoryStore
fresh = record { m_data = []; m_lru = []; next_node = 0; m_max_keys = 0 }

unfoldable pub ttl_to_expire_at_ms : ℤ → ℤ → ℤ
unfolding ◌+ℤ◌
ttl_to_expire_at_ms now ttl_seconds = elim ttl_seconds [
  | pos n ↦ now +ℤ pos (n * 1000)
  | negsuc n ↦ now -ℤ pos (suc n * 1000)
]

unfoldable pub expired : Entry → ℤ → Bool
expired entry now = ltb_ℤ (pos 0) entry.expire_at_ms && leb_ℤ entry.expire_at_ms now

unfoldable pub touch_locked : Bytes → MemoryStore → MemoryStore
touch_locked key s = elim (find key s.m_data) [
  | none ↦ s
  | some e ↦ record s {
    m_lru = (s.next_node, key) ∷ without e.lru_it s.m_lru;
    m_data = insert key (record e { lru_it = s.next_node }) s.m_data;
    next_node = suc s.next_node;
  }
]

-- The loop of `evict_expired_locked` from an iterator on: what is left of the map and the list.
unfoldable pub evict_from :
    ℤ → List (Bytes × Entry) → List (ℕ × Bytes) → List (Bytes × Entry) × List (ℕ × Bytes)
evict_from now [] lru = ([], lru)
evict_from now ((k, e) ∷ m) lru = elim (expired e now) [
  | true ↦ evict_from now m (without e.lru_it lru)
  | false ↦ let (m', lru') = evict_from now m lru in ((k, e) ∷ m', lru')
]

unfoldable pub evict_expired_locked : ℤ → MemoryStore → MemoryStore
evict_expired_locked now s =
    let (m', lru') = evict_from now s.m_data s.m_lru in record s { m_data = m'; m_lru = lru' }

-- m_lru.back()
unfoldable pub back : List (ℕ × Bytes) → Option (ℕ × Bytes)
back [] = none
back (x ∷ []) = some x
back (x ∷ y ∷ r) = back (y ∷ r)

unfoldable pub pop_back : List (ℕ × Bytes) → List (ℕ × Bytes)
pop_back [] = []
pop_back (x ∷ []) = []
pop_back (x ∷ y ∷ r) = x ∷ pop_back (y ∷ r)

-- The `while` of `enforce_capacity_locked`; each round takes a node off the list, so the length of
-- the list is fuel enough.
unfoldable pub shrink : ℕ → MemoryStore → MemoryStore
shrink zero s = s
shrink (suc fuel) s = elim (ltb 0 s.m_max_keys && ltb s.m_max_keys (length s.m_data)) [
  | false ↦ s
  | true ↦ elim (back s.m_lru) [
    | none ↦ s
    | some (i, key) ↦
        shrink fuel (record s { m_lru = pop_back s.m_lru; m_data = without key s.m_data })
  ]
]

unfoldable pub enforce_capacity_locked : ℤ → MemoryStore → MemoryStore
enforce_capacity_locked now s = let s' = evict_expired_locked now s in shrink (length s'.m_lru) s'

-- The branches of `put_with_expire_at` on `m_data.find(key)`.
unfoldable pub put_entry : Bytes → Bytes → ℤ → MemoryStore → MemoryStore
put_entry key value expire_at_ms s = elim (find key s.m_data) [
  | some e ↦ touch_locked key (record s {
    m_data = insert key (record e { value = value; expire_at_ms = expire_at_ms }) s.m_data;
  })
  | none ↦ record s {
    m_lru = (s.next_node, key) ∷ s.m_lru;
    m_data =
        insert key (record { value = value; expire_at_ms = expire_at_ms; lru_it = s.next_node })
          s.m_data;
    next_node = suc s.next_node;
  }
]

unfoldable pub put_with_expire_at : ℤ → Bytes → Bytes → ℤ → MemoryStore → MemoryStore × Bool
put_with_expire_at now key value expire_at_ms s =
    if is_empty key
    then (s, false)
    else (enforce_capacity_locked now (put_entry key value expire_at_ms s), true)

unfoldable pub put : ℤ → Bytes → Bytes → MemoryStore → MemoryStore × Bool
put now key value s = put_with_expire_at now key value (pos 0) s

-- The clock is read for the deadline, then once more.
unfoldable pub put_ttl : ℤ → ℤ → Bytes → Bytes → ℤ → MemoryStore → MemoryStore × Bool
put_ttl now now' key value ttl_seconds s =
    if leb_ℤ ttl_seconds (pos 0)
    then (s, false)
    else put_with_expire_at now' key value (ttl_to_expire_at_ms now ttl_seconds) s

-- `m_lru.erase(it->second.lru_it); m_data.erase(it);` where `it` is the entry of `key`.
unfoldable pub erase_entry : Bytes → Entry → MemoryStore → MemoryStore
erase_entry key e s = record s { m_lru = without e.lru_it s.m_lru; m_data = without key s.m_data }

unfoldable pub get : ℤ → Bytes → MemoryStore → MemoryStore × Option Bytes
get now key s = elim (find key s.m_data) [
  | none ↦ (s, none)
  | some e ↦
      if expired e now then (erase_entry key e s, none) else (touch_locked key s, some e.value)
]

unfoldable pub del : Bytes → MemoryStore → MemoryStore × Bool
del key s = elim (find key s.m_data) [ none ↦ (s, false) | some e ↦ (erase_entry key e s, true) ]

abbrev pub has_value {ℓ} : {A : Type ℓ} → Option A → Bool
has_value none = false
has_value (some a) = true

unfoldable pub exists : ℤ → Bytes → MemoryStore → MemoryStore × Bool
exists now key s = let (s', found) = get now key s in (s', has_value found)

unfoldable pub expire_at : ℤ → Bytes → ℤ → MemoryStore → MemoryStore × Bool
expire_at now key expire_at_ms s = elim (find key s.m_data) [
  | none ↦ (s, false)
  | some e ↦ if expired e now then (erase_entry key e s, false) else (
    touch_locked key
        (record s { m_data = insert key (record e { expire_at_ms = expire_at_ms }) s.m_data }),
    true,
  )
]

unfoldable pub expire : ℤ → ℤ → Bytes → ℤ → MemoryStore → MemoryStore × Bool
expire now now' key ttl_seconds s =
    if leb_ℤ ttl_seconds (pos 0)
    then (s, false)
    else expire_at now' key (ttl_to_expire_at_ms now ttl_seconds) s

-- `remaining_ms <= 0 ? -2 : (remaining_ms + 999) / 1000`
unfoldable pub remaining_seconds : ℤ → ℤ
remaining_seconds remaining_ms =
    if leb_ℤ remaining_ms (pos 0) then negsuc 1 else pos ((pos_part remaining_ms + 999) / 1000)

unfoldable pub ttl : ℤ → Bytes → MemoryStore → MemoryStore × ℤ
unfolding remaining_seconds
ttl now key s = elim (find key s.m_data) [
  | none ↦ (s, negsuc 1)
  | some e ↦
      if expired e now
      then (erase_entry key e s, negsuc 1)
      else if eqb_ℤ e.expire_at_ms (pos 0)
      then (s, negsuc 0)
      else (s, remaining_seconds (e.expire_at_ms -ℤ now))
]

unfoldable pub set_max_keys : ℤ → ℕ → MemoryStore → MemoryStore
set_max_keys now max_keys s = enforce_capacity_locked now (record s { m_max_keys = max_keys })

unfoldable pub size : ℤ → MemoryStore → MemoryStore × ℕ
size now s = let s' = evict_expired_locked now s in (s', length s'.m_data)

unfoldable pub entries_of : List (Bytes × Entry) → List StoreEntry
entries_of [] = []
entries_of ((k, e) ∷ m) =
    record { key = k; value = e.value; expire_at_ms = e.expire_at_ms } ∷ entries_of m

unfoldable pub snapshot_entries : ℤ → MemoryStore → MemoryStore × List StoreEntry
snapshot_entries now s = let s' = evict_expired_locked now s in (s', entries_of s'.m_data)

unfoldable pub values_of : List (Bytes × Entry) → List (Bytes × Bytes)
values_of [] = []
values_of ((k, e) ∷ m) = (k, e.value) ∷ values_of m

unfoldable pub snapshot : ℤ → MemoryStore → MemoryStore × List (Bytes × Bytes)
snapshot now s = let s' = evict_expired_locked now s in (s', values_of s'.m_data)

unfoldable pub clear : MemoryStore → MemoryStore
clear s = record s { m_data = []; m_lru = [] }

-- The loop of `replace_with_snapshot`; `false` is its early return.
unfoldable pub load_entries : List StoreEntry → MemoryStore → MemoryStore × Bool
load_entries [] s = (s, true)
load_entries (x ∷ xs) s = elim (is_empty x.key) [
  | true ↦ (s, false)
  | false ↦ load_entries xs (record s {
    m_lru = (s.next_node, x.key) ∷ s.m_lru;
    m_data =
        insert x.key
          (record { value = x.value; expire_at_ms = x.expire_at_ms; lru_it = s.next_node })
          s.m_data;
    next_node = suc s.next_node;
  })
]

unfoldable pub replace_with_snapshot : ℤ → List StoreEntry → MemoryStore → MemoryStore × Bool
unfolding clear
replace_with_snapshot now entries s =
    let (s', loaded) = load_entries entries (clear s) in
    if loaded then (enforce_capacity_locked now s', true) else (s', false)
