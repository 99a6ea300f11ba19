-- ===== src/Storage/Persistent/Calm.antt =====
-- The memory store while no deadline passes: its contents change as a function of the key alone,
-- whatever the clock shows.
use kv.Prelude.{
  ◌≡◌, refl, false, Option, none, some, List, [], ◌∷◌, Bytes, keep, inl, inr, Bool-cases,
  Option-cases, arith, is_empty, if◌then◌else◌, bytes_eq, bytes_beq_iff, beq_refl, ◌==◌, ◌∙◌, sym,
  ap, bytes_beq,
}
use kv.Prelude.Int.{ℤ, ◌≤ℤ◌}
use kv.Prelude.Assoc.{find, without, find-without, Distinct, without-Distinct}
use kv.Text.Decimal.{InRange}
use kv.Storage.Memory
use kv.Storage.Memory.{MemoryStore, evict_expired_locked}
use kv.Storage.Memory.View.{Content, view}
use kv.Storage.Memory.Moves.{view-Distinct}
use kv.Storage.Memory.Eviction.{dead, alive}
use kv.Storage.Memory.Capacity.{capped}
use kv.Storage.Memory.Recency
use kv.Storage.Memory.Recency.{
  Cache, abstract_of, settled, fronted, dropped, expire_spec, run_spec, Reply, done,
}
use kv.Storage.Memory.Refinement.{
  IsValid, Stands, put-Stands, expire_at-Meets, del-Meets, evicted-Stands,
}
use kv.Storage.Memory.Reading.{find-keep, dead_mono}
use kv.Storage.Wal.{finished, apply_parsed}
use kv.Storage.Wal.Records.{Entry, put, expire, del, asks}
use kv.Storage.Persistent.{memory_kv}

-- The value and the deadline under a key, expired or not.
abbrev pub held : MemoryStore → Bytes → Option Content
held s j = find j (view s)

-- The deadline does not pass before the time `h`, and is a 64-bit number.
abbrev pub Lasts : ℤ → Content → Type 0
Lasts h c = (dead h c ≡ false) × InRange c.1

-- A store with no bound on its keys that holds nothing which expires before `h`.
pub record Calm (h : ℤ) (s : MemoryStore) : Type 0 where
  pub valid : IsValid s
  pub unbounded : s.m_max_keys ≡ 0
  pub lasting : (j : Bytes) (c : Content) → held s j ≡ some c → Lasts h c
  pub named : held s [] ≡ none

-- What an entry of the log does to the contents under a key.
abbrev pub effect : Entry → Bytes → Option Content → Option Content
effect (put k v x) j c = if k == j then some (v, x) else c
effect (expire k x) j c = if k == j then elim c [ none ↦ none | some (v, old) ↦ some (v, x) ] else c
effect (del k) j c = if k == j then none else c

-- The entry's deadline does not pass before `h`, and the key of a put is not empty.
abbrev pub IsCalm : ℤ → Entry → Type 0
IsCalm h (put k v x) = (is_empty k ≡ false) × Lasts h (v, x)
IsCalm h (expire k x) = Lasts h ([], x)
IsCalm h (del k) = Unit

-- The store `t` is calm and holds `f`.
pub record Holds (h : ℤ) (t : MemoryStore) (f : Bytes → Option Content) : Type 0 where
  pub calm : Calm h t
  pub contents : (j : Bytes) → held t j ≡ f j

-- A cache that is calm stands for a store that is calm.
Stands-Holds :
    (h : ℤ) (t : MemoryStore) (c : Cache) (f : Bytes → Option Content)
    → Stands t c
    → c.max_keys ≡ 0
    → ((j : Bytes) → find j c.entries ≡ f j)
    → ((j : Bytes) (d : Content) → f j ≡ some d → Lasts h d)
    → f [] ≡ none
    → Holds h t f
Stands-Holds h t c f stands unbounded same lasting named = record {
  calm = record {
    valid = stands.valid;
    unbounded = stands.max_keys ∙ unbounded;
    lasting = λ j d p. lasting j d (sym (same' j) ∙ p);
    named = same' [] ∙ named;
  };
  contents = same';
}
  where
    same' : (j : Bytes) → held t j ≡ f j
    same' j = ap (find j) stands.entries ∙ same j

module _ (h now : ℤ) (le : now ≤ℤ h) where
  Lasts-now : (d : Content) → Lasts h d → dead now d ≡ false
  Lasts-now d (live, _) = elim (Bool-cases (dead now d)) [
    | inl old ↦ cc (dead_mono now h d le old)
    | inr e ↦ e
  ]

  -- Nothing that lasts is evicted.
  find-keep_lasting :
      (j : Bytes) (l : List (Bytes × Content))
      → Distinct l
      → ((d : Content) → find j l ≡ some d → Lasts h d)
      → find j (keep (alive now) l) ≡ find j l
  find-keep_lasting j l d lasting = elim (Option-cases (find j l)) [
    | inl e ↦ ground (arith, find-keep now j l d)
    | inr (c, e) ↦ ground (arith, find-keep now j l d, Lasts-now c (lasting c e))
  ]

  module _ (s : MemoryStore) (calm : Calm h s) where
    effect-lasting :
        (e : Entry)
        → IsCalm h e
        → (j : Bytes) (d : Content) → effect e j (held s j) ≡ some d
        → Lasts h d
    effect-lasting (put k v x) (ne, lasts) j d p = ground (arith, calm.lasting j d)
    effect-lasting (expire k x) lasts j d p = elim (Option-cases (held s j)) [
      | inl e ↦ ground (arith, calm.lasting j d)
      | inr (c, e) ↦ elim (Bool-cases (k == j)) [
        | inl same ↦ ground (arith)
        | inr other ↦ ground (arith, calm.lasting j d)
      ]
    ]
    effect-lasting (del k) _ j d p = ground (arith, calm.lasting j d)

    effect-named : (e : Entry) → IsCalm h e → effect e [] (held s []) ≡ none
    unfolding bytes_beq
    effect-named (put [] v x) (ne, _) = absurd (cc)
    effect-named (put (b ∷ k) v x) c = calm.named
    effect-named (expire [] x) c = rw calm.named refl
    effect-named (expire (b ∷ k) x) c = calm.named
    effect-named (del []) c = refl
    effect-named (del (b ∷ k)) c = calm.named

    -- The store after the entry.
    abbrev pub applied : Entry → MemoryStore
    applied (put k v x) = (Memory.put_with_expire_at now k v x s).0
    applied (expire k x) = (Memory.expire_at now k x s).0
    applied (del k) = (Memory.del k s).0

    pub applied-finished :
        (e : Entry) → IsCalm h e → apply_parsed memory_kv now (asks e) s ≡ finished (applied e)
    unfolding apply_parsed Memory.put_with_expire_at
    applied-finished (put k v x) (ne, _) = ground arith
    applied-finished (expire k x) _ = refl
    applied-finished (del k) _ = refl

    find-fronted :
        (k j : Bytes) (d : Content)
        → find j ((k, d) ∷ without k (view s)) ≡ (if k == j then some d else held s j)
    unfolding find
    find-fronted k j d = ground (arith, find-without k j (view s))

    fronted-Distinct : (k : Bytes) (d : Content) → Distinct ((k, d) ∷ without k (view s))
    fronted-Distinct k d = (
      ground (arith, find-without k k (view s), beq_refl k),
      without-Distinct k (view s) (view-Distinct calm.valid),
    )

    put-Holds :
        (k v : Bytes) (x : ℤ)
        → IsCalm h (put k v x)
        → Holds h (applied (put k v x)) (λ j. effect (put k v x) j (held s j))
    put-Holds k v x (ne, lasts) =
        Stands-Holds h (applied (put k v x)) _ _ (put-Stands s calm.valid now k v x ne)
          calm.unbounded
          (λ j.
            ap (λ n. find j (capped n (keep (alive now) l))) calm.unbounded
            ∙ find-keep_lasting j l (fronted-Distinct k (v, x)) (λ d p.
              effect-lasting (put k v x) (ne, lasts) j d (sym (find-fronted k j (v, x)) ∙ p))
            ∙ find-fronted k j (v, x))
          (effect-lasting (put k v x) (ne, lasts)) (effect-named (put k v x) (ne, lasts))
      where
        l : List (Bytes × Content)
        l = (k, (v, x)) ∷ without k (view s)

    expire_spec-held :
        (k : Bytes) (x : ℤ)
        → ((expire_spec now k x (abstract_of s)).0.max_keys ≡ 0)
          × ((j : Bytes)
              → find j (expire_spec now k x (abstract_of s)).0.entries
                ≡ effect (expire k x) j (held s j))
    expire_spec-held k x = elim (Option-cases (held s k)) [
      | inl e ↦ rw (e, expire_spec) (calm.unbounded, λ j. ground (arith, bytes_beq_iff k j))
      | inr ((v, y), e) ↦
          rw (e, Lasts-now (v, y) (calm.lasting k (v, y) e), expire_spec)
            (calm.unbounded, λ j. ground (arith, find-fronted k j (v, x), bytes_beq_iff k j))
    ]

    del_spec-held :
        (k : Bytes)
        → ((run_spec (Recency.del k) (abstract_of s)).0.max_keys ≡ 0)
          × ((j : Bytes)
              → find j (run_spec (Recency.del k) (abstract_of s)).0.entries
                ≡ effect (del k) j (held s j))
    unfolding run_spec
    del_spec-held k = elim (Option-cases (held s k)) [
      | inl e ↦ rw (e, run_spec) (calm.unbounded, λ j. ground (arith, bytes_beq_iff k j))
      | inr (y, e) ↦
          rw (e, run_spec) (calm.unbounded, λ j. ground (arith, find-without k j (view s)))
    ]

    expire-Holds :
        (k : Bytes) (x : ℤ)
        → IsCalm h (expire k x)
        → Holds h (applied (expire k x)) (λ j. effect (expire k x) j (held s j))
    expire-Holds k x lasts =
        Stands-Holds h (applied (expire k x)) _ _ (expire_at-Meets s calm.valid now k x).0
          (expire_spec-held k x).0 (expire_spec-held k x).1 (effect-lasting (expire k x) lasts)
          (effect-named (expire k x) lasts)

    del-Holds : (k : Bytes) → Holds h (applied (del k)) (λ j. effect (del k) j (held s j))
    del-Holds k =
        Stands-Holds h (applied (del k)) _ _ (del-Meets s calm.valid k).0 (del_spec-held k).0
          (del_spec-held k).1 (effect-lasting (del k) tt) (effect-named (del k) tt)

    pub applied-Holds : (e : Entry) → IsCalm h e → Holds h (applied e) (λ j. effect e j (held s j))
    applied-Holds (put k v x) c = put-Holds k v x c
    applied-Holds (expire k x) c = expire-Holds k x c
    applied-Holds (del k) c = del-Holds k

    -- Nothing is evicted by `snapshot_entries`.
    pub evicted-Holds : Holds h (evict_expired_locked now s) (held s)
    evicted-Holds =
        Stands-Holds h (evict_expired_locked now s) _ (held s) (evicted-Stands s calm.valid now)
          calm.unbounded
          (λ j. find-keep_lasting j (view s) (view-Distinct calm.valid) (calm.lasting j))
          calm.lasting calm.named
