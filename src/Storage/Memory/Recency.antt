-- ===== src/Storage/Memory/Recency.antt =====
-- What `MemoryStore` promises, with no map and no iterator: a list of keys with their values and
-- deadlines, the most recently used first, and a bound on its length.
use kv.Prelude.{
  ℕ, Bool, true, false, Option, none, some, List, [], ◌∷◌, Bytes, length, keep, is_empty,
  if◌then◌else◌, bytes_eq, ◌≡◌,
}
use kv.Prelude.Int.{ℤ, pos, negsuc, ◌-ℤ◌, leb_ℤ, eqb_ℤ}
use kv.Prelude.Assoc.{find, without, Distinct}
use kv.Storage.Memory
use kv.Storage.Memory.{MemoryStore, StoreEntry, ttl_to_expire_at_ms, remaining_seconds}
use kv.Storage.Memory.View.{Content, view}
use kv.Storage.Memory.Eviction.{dead, alive}
use kv.Storage.Memory.Capacity.{capped}

pub record Cache : Type 0 where
  pub entries : List (Bytes × Content)
  pub max_keys : ℕ

-- What a store amounts to.
abbrev pub abstract_of : MemoryStore → Cache
abstract_of s = record { entries = view s; max_keys = s.m_max_keys }

-- A call of a public method, with the readings of the clock that it takes.
pub data Call : Type 0 where
  put : ℤ → Bytes → Bytes → Call
  put_with_expire_at : ℤ → Bytes → Bytes → ℤ → Call
  put_ttl : ℤ → ℤ → Bytes → Bytes → ℤ → Call
  get : ℤ → Bytes → Call
  del : Bytes → Call
  exists : ℤ → Bytes → Call
  expire_at : ℤ → Bytes → ℤ → Call
  expire : ℤ → ℤ → Bytes → ℤ → Call
  ttl : ℤ → Bytes → Call
  set_max_keys : ℤ → ℕ → Call
  size : ℤ → Call
  snapshot_entries : ℤ → Call
  replace_with_snapshot : ℤ → List StoreEntry → Call
  snapshot : ℤ → Call
  clear : Call

pub data Reply : Type 0 where
  done : Bool → Reply
  value : Option Bytes → Reply
  seconds : ℤ → Reply
  count : ℕ → Reply
  -- how many keys an answer has, and what each of them has in it, in no order
  contents : ℕ → (Bytes → Option Content) → Reply
  values : ℕ → (Bytes → Option Bytes) → Reply
  nothing : Reply

abbrev pub pairs : List StoreEntry → List (Bytes × Content)
pairs [] = []
pairs (x ∷ xs) = (x.key, (x.value, x.expire_at_ms)) ∷ pairs xs

-- The entries put before a list one after the other.
abbrev pub push_all {ℓ} : {A : Type ℓ} → List A → List A → List A
push_all [] l = l
push_all (x ∷ xs) l = push_all xs (x ∷ l)

abbrev pub KeysNotEmpty : List StoreEntry → Type 0
KeysNotEmpty [] = Unit
KeysNotEmpty (x ∷ xs) = (is_empty x.key ≡ false) × KeysNotEmpty xs

-- The entries before the first one with an empty key, and whether that is all of them.
abbrev pub named : List StoreEntry → List StoreEntry
named [] = []
named (x ∷ xs) = if is_empty x.key then [] else x ∷ named xs

abbrev pub all_named : List StoreEntry → Bool
all_named [] = true
all_named (x ∷ xs) = if is_empty x.key then false else all_named xs

-- What `replace_with_snapshot` is given has distinct keys, up to the first that is empty.
abbrev pub IsProper : Call → Type 0
IsProper (replace_with_snapshot now xs) = Distinct (pairs (named xs))
IsProper _ = Unit

-- and no key is empty.
abbrev pub IsNamed : Call → Type 0
IsNamed (replace_with_snapshot now xs) = all_named xs ≡ true
IsNamed _ = Unit

abbrev pub contents_of : List StoreEntry → Reply
contents_of xs = contents (length xs) (λ k. find k (pairs xs))

abbrev pub values_in : List (Bytes × Bytes) → Reply
values_in xs = values (length xs) (λ k. find k xs)

abbrev pub value_at : Option Content → Option Bytes
value_at none = none
value_at (some (v, x)) = some v

abbrev pub with_reply {ℓ} : {A : Type ℓ} → (A → Reply) → MemoryStore × A → MemoryStore × Reply
with_reply f (s, a) = (s, f a)

unfoldable pub run : Call → MemoryStore → MemoryStore × Reply
run (put now k v) s = with_reply done (Memory.put now k v s)
run (put_with_expire_at now k v x) s = with_reply done (Memory.put_with_expire_at now k v x s)
run (put_ttl now now' k v n) s = with_reply done (Memory.put_ttl now now' k v n s)
run (get now k) s = with_reply value (Memory.get now k s)
run (del k) s = with_reply done (Memory.del k s)
run (exists now k) s = with_reply done (Memory.exists now k s)
run (expire_at now k x) s = with_reply done (Memory.expire_at now k x s)
run (expire now now' k n) s = with_reply done (Memory.expire now now' k n s)
run (ttl now k) s = with_reply seconds (Memory.ttl now k s)
run (set_max_keys now n) s = (Memory.set_max_keys now n s, nothing)
run (size now) s = with_reply count (Memory.size now s)
run (snapshot_entries now) s = with_reply contents_of (Memory.snapshot_entries now s)
run (replace_with_snapshot now xs) s = with_reply done (Memory.replace_with_snapshot now xs s)
run (snapshot now) s = with_reply values_in (Memory.snapshot now s)
run clear s = (Memory.clear s, nothing)

-- Drops what has expired, then what does not fit.
abbrev pub settled : ℤ → Cache → Cache
settled now c = record c { entries = capped c.max_keys (keep (alive now) c.entries) }

abbrev pub dropped : Bytes → Cache → Cache
dropped k c = record c { entries = without k c.entries }

abbrev pub fronted : Bytes → Content → Cache → Cache
fronted k d c = record c { entries = (k, d) ∷ without k c.entries }

abbrev pub put_spec : ℤ → Bytes → Bytes → ℤ → Cache → Cache × Reply
put_spec now k v x c =
    if is_empty k then (c, done false) else (settled now (fronted k (v, x) c), done true)

abbrev pub expire_spec : ℤ → Bytes → ℤ → Cache → Cache × Reply
expire_spec now k x c = elim (find k c.entries) [
  | none ↦ (c, done false)
  | some (v, old) ↦
      if dead now (v, old) then (dropped k c, done false) else (fronted k (v, x) c, done true)
]

abbrev pub ttl_spec : ℤ → Bytes → Cache → Cache × Reply
ttl_spec now k c = elim (find k c.entries) [
  | none ↦ (c, seconds (negsuc 1))
  | some (v, x) ↦
      if dead now (v, x)
      then (dropped k c, seconds (negsuc 1))
      else if eqb_ℤ x (pos 0)
      then (c, seconds (negsuc 0))
      else (c, seconds (remaining_seconds (x -ℤ now)))
]

-- A read: the reply for a missing key, and that for a value.
abbrev pub read_spec : ℤ → Bytes → Reply → (Bytes → Reply) → Cache → Cache × Reply
read_spec now k miss hit c = elim (find k c.entries) [
  | none ↦ (c, miss)
  | some (v, x) ↦ if dead now (v, x) then (dropped k c, miss) else (fronted k (v, x) c, hit v)
]

unfoldable pub run_spec : Call → Cache → Cache × Reply
run_spec (put now k v) c = put_spec now k v (pos 0) c
run_spec (put_with_expire_at now k v x) c = put_spec now k v x c
run_spec (put_ttl now now' k v n) c =
    if leb_ℤ n (pos 0) then (c, done false) else put_spec now' k v (ttl_to_expire_at_ms now n) c
run_spec (get now k) c = read_spec now k (value none) (λ v. value (some v)) c
run_spec (del k) c = elim (find k c.entries) [
  | none ↦ (c, done false)
  | some _ ↦ (dropped k c, done true)
]
run_spec (exists now k) c = read_spec now k (done false) (λ v. done true) c
run_spec (expire_at now k x) c = expire_spec now k x c
run_spec (expire now now' k n) c =
    if leb_ℤ n (pos 0) then (c, done false) else expire_spec now' k (ttl_to_expire_at_ms now n) c
run_spec (ttl now k) c = ttl_spec now k c
run_spec (set_max_keys now n) c = (settled now (record c { max_keys = n }), nothing)
run_spec (size now) c =
    let l = keep (alive now) c.entries in (record c { entries = l }, count (length l))
run_spec (snapshot_entries now) c =
    let l = keep (alive now) c.entries in
    (record c { entries = l }, contents (length l) (λ k. find k l))
run_spec (replace_with_snapshot now xs) c =
    let replaced : Cache = record c { entries = push_all (pairs (named xs)) [] } in
    if all_named xs then (settled now replaced, done true) else (replaced, done false)
run_spec (snapshot now) c =
    let l = keep (alive now) c.entries in
    (record c { entries = l }, values (length l) (λ k. value_at (find k l)))
run_spec clear c = (record c { entries = [] }, nothing)
