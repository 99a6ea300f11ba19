-- ===== src/Storage/Memory/Histories.antt =====
-- Calls of the methods of `MemoryStore`, one after another.
use kv.Prelude.{
  ℕ, zero, suc, ◌≤◌, ◌≡◌, refl, some, List, [], ◌∷◌, Bytes, length, keep, inl, inr, ◌⊎◌, Bool-cases,
  Option-cases, arith, is_empty, bytes_eq, nat_eq, length-take, length-keep-le, subst,
}
use kv.Prelude.Int.{ℤ, pos, leb_ℤ}
use kv.Prelude.Assoc.{find, Distinct, length-without, length-without-le}
use kv.Storage.Memory.{MemoryStore, fresh, ttl_to_expire_at_ms}
use kv.Storage.Memory.Linked.{Linked-empty}
use kv.Storage.Memory.View.{Content, view, view_of}
use kv.Storage.Memory.Moves.{view-Distinct}
use kv.Storage.Memory.Eviction.{dead, alive}
use kv.Storage.Memory.Capacity.{capped, length-view}
use kv.Storage.Memory.Recency.{
  Cache, abstract_of, Call, put, put_with_expire_at, put_ttl, get, del, exists, expire_at, expire,
  ttl, set_max_keys, size, snapshot_entries, replace_with_snapshot, snapshot, clear, IsProper,
  IsNamed, named, pairs, push_all, Reply, run, run_spec, settled, dropped, fronted, put_spec,
  read_spec, expire_spec, ttl_spec,
}
use kv.Storage.Memory.Refinement.{IsValid, Stands}
use kv.Storage.Memory.Methods.{run-Meets}

-- The state after the calls, in their order.
unfoldable pub after : List Call → MemoryStore → MemoryStore
after [] s = s
after (c ∷ cs) s = after cs (run c s).0

unfoldable pub after_spec : List Call → Cache → Cache
after_spec [] c = c
after_spec (x ∷ xs) c = after_spec xs (run_spec x c).0

-- Of every replace_with_snapshot among the calls: the keys it is given are distinct, up to the first
-- that is empty, and for `AreNamed` none is empty.
abbrev pub AreProper : List Call → Type 0
AreProper [] = Unit
AreProper (c ∷ cs) = IsProper c × AreProper cs

abbrev pub AreNamed : List Call → Type 0
AreNamed [] = Unit
AreNamed (c ∷ cs) = IsNamed c × AreNamed cs

Stands-abstract : (s : MemoryStore) (c : Cache) → Stands s c → abstract_of s ≡ c
Stands-abstract s c h = ground (arith, h.entries, h.max_keys)

-- After any calls of any methods on a valid memory store, the store is valid and stands for what the
-- list of recent use computes from the same calls, if what every replace_with_snapshot among them is
-- given has distinct keys, up to the first that is empty.
pub after-Stands :
    (cs : List Call) (s : MemoryStore)
    → IsValid s
    → AreProper cs
    → Stands (after cs s) (after_spec cs (abstract_of s))
unfolding after after_spec
after-Stands [] s h _ = record { valid = h; entries = refl; max_keys = refl }
after-Stands (c ∷ cs) s h (proper, ps) =
    let (stands, _) = run-Meets c s h proper in
    subst (λ a. Stands (after cs (run c s).0) (after_spec cs a)) (Stands-abstract _ _ stands)
      (after-Stands cs (run c s).0 stands.valid ps)

-- The bound is respected, where there is one.
abbrev pub Fits : ℕ → ℕ → Type 0
Fits max n = (max ≡ 0) ⊎ (n ≤ max)

settled-Fits : (now : ℤ) (c : Cache) → Fits c.max_keys (length (settled now c).entries)
settled-Fits now c = capped-Fits c.max_keys (keep (alive now) c.entries)
  where
    capped-Fits : (n : ℕ) (l : List (Bytes × Content)) → Fits n (length (capped n l))
    capped-Fits zero l = inl refl
    capped-Fits (suc n) l = inr (omega (arith, length-take (suc n) l))

module _ (c : Cache) (d : Distinct c.entries) (h : Fits c.max_keys (length c.entries)) where
  dropped-Fits : (k : Bytes) → Fits c.max_keys (length (dropped k c).entries)
  dropped-Fits k = ground (arith, length-without-le k c.entries)

  fronted-Fits :
      (k : Bytes) (x y : Content)
      → find k c.entries ≡ some y
      → Fits c.max_keys (length (fronted k x c).entries)
  fronted-Fits k x y at = ground (arith, length-without k y c.entries d at)

  expire_spec-Fits :
      (now : ℤ) (k : Bytes) (x : ℤ)
      → Fits (expire_spec now k x c).0.max_keys (length (expire_spec now k x c).0.entries)
  expire_spec-Fits now k x = elim (Option-cases (find k c.entries)) [
    | inl e ↦ rw (e, expire_spec) h
    | inr ((v, y), e) ↦ elim (Bool-cases (dead now (v, y))) [
      | inl old ↦ rw (e, old, expire_spec) (dropped-Fits k)
      | inr live ↦ rw (e, live, expire_spec) (fronted-Fits k (v, x) (v, y) e)
    ]
  ]

  read_spec-Fits :
      (now : ℤ) (k : Bytes) (miss : Reply) (hit : Bytes → Reply)
      → Fits (read_spec now k miss hit c).0.max_keys (length (read_spec now k miss hit c).0.entries)
  read_spec-Fits now k miss hit = elim (Option-cases (find k c.entries)) [
    | inl e ↦ rw (e, read_spec) h
    | inr ((v, y), e) ↦ elim (Bool-cases (dead now (v, y))) [
      | inl old ↦ rw (e, old, read_spec) (dropped-Fits k)
      | inr live ↦ rw (e, live, read_spec) (fronted-Fits k (v, y) (v, y) e)
    ]
  ]

  ttl_spec-Fits :
      (now : ℤ) (k : Bytes)
      → Fits (ttl_spec now k c).0.max_keys (length (ttl_spec now k c).0.entries)
  ttl_spec-Fits now k = elim (Option-cases (find k c.entries)) [
    | inl e ↦ rw (e, ttl_spec) h
    | inr ((v, y), e) ↦ ground (arith, dropped-Fits k)
  ]

  put_spec-Fits :
      (now : ℤ) (k v : Bytes) (x : ℤ)
      → Fits (put_spec now k v x c).0.max_keys (length (put_spec now k v x c).0.entries)
  put_spec-Fits now k v x = elim (Bool-cases (is_empty k)) [
    | inl e ↦ rw e h
    | inr e ↦ rw e (settled-Fits now (fronted k (v, x) c))
  ]

  run_spec-Fits :
      (x : Call) → IsNamed x → Fits (run_spec x c).0.max_keys (length (run_spec x c).0.entries)
  unfolding run_spec
  run_spec-Fits (put now k v) all = put_spec-Fits now k v (pos 0)
  run_spec-Fits (put_with_expire_at now k v x) all = put_spec-Fits now k v x
  run_spec-Fits (put_ttl now now' k v n) all = elim (Bool-cases (leb_ℤ n (pos 0))) [
    | inl e ↦ rw e h
    | inr e ↦ rw e (put_spec-Fits now' k v (ttl_to_expire_at_ms now n))
  ]
  run_spec-Fits (get now k) all = read_spec-Fits now k _ _
  run_spec-Fits (del k) all = elim (Option-cases (find k c.entries)) [
    | inl e ↦ rw (e, run_spec) h
    | inr (y, e) ↦ rw (e, run_spec) (dropped-Fits k)
  ]
  run_spec-Fits (exists now k) all = read_spec-Fits now k _ _
  run_spec-Fits (expire_at now k x) all = expire_spec-Fits now k x
  run_spec-Fits (expire now now' k n) all = elim (Bool-cases (leb_ℤ n (pos 0))) [
    | inl e ↦ rw e h
    | inr e ↦ rw e (expire_spec-Fits now' k (ttl_to_expire_at_ms now n))
  ]
  run_spec-Fits (ttl now k) all = ttl_spec-Fits now k
  run_spec-Fits (set_max_keys now n) all = settled-Fits now (record c { max_keys = n })
  run_spec-Fits (size now) all = ground (arith, length-keep-le (alive now) c.entries)
  run_spec-Fits (snapshot_entries now) all = ground (arith, length-keep-le (alive now) c.entries)
  run_spec-Fits (replace_with_snapshot now xs) all =
      rw (all, run_spec) (settled-Fits now (record c { entries = push_all (pairs (named xs)) [] }))
  run_spec-Fits (snapshot now) all = ground (arith, length-keep-le (alive now) c.entries)
  run_spec-Fits clear all = ground arith

run-Fits :
    (x : Call) (s : MemoryStore)
    → IsValid s
    → IsProper x
    → IsNamed x
    → Fits s.m_max_keys (length (view s))
    → Fits (run x s).0.m_max_keys (length (view (run x s).0))
run-Fits x s h proper all fits =
    let (stands, _) = run-Meets x s h proper in
    rw (stands.max_keys, stands.entries)
      (run_spec-Fits (abstract_of s) (view-Distinct h) fits x all)

after-Fits :
    (xs : List Call) (s : MemoryStore)
    → IsValid s
    → AreProper xs
    → AreNamed xs
    → Fits s.m_max_keys (length (view s))
    → Fits (after xs s).m_max_keys (length (after xs s).m_data)
unfolding after
after-Fits [] s h _ _ fits = rw (← length-view h) fits
after-Fits (x ∷ xs) s h (proper, ps) (all, alls) fits =
    after-Fits xs (run x s).0 (run-Meets x s h proper).0.valid ps alls
      (run-Fits x s h proper all fits)

pub fresh-IsValid : IsValid fresh
fresh-IsValid = Linked-empty 0

-- After any calls of any methods on a store that began empty, the map holds at most `m_max_keys` keys,
-- unless that is 0, if what every replace_with_snapshot among the calls is given has distinct keys, none
-- of them empty.
pub capacity_respected :
    (xs : List Call)
    → AreProper xs
    → AreNamed xs
    → Fits (after xs fresh).m_max_keys (length (after xs fresh).m_data)
unfolding view_of
capacity_respected xs ps alls = after-Fits xs fresh fresh-IsValid ps alls (inl refl)
