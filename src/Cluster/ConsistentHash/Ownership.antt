-- ===== src/Cluster/ConsistentHash/Ownership.antt =====
-- Who owns a key: one of the nodes, and a node that joins takes keys to itself only.
use kv.Prelude.{
  ℕ, zero, suc, ◌≡◌, ◌≢◌, refl, false, Option, none, some, List, [], ◌∷◌, ◌++◌, Bytes, inl, inr,
  Bool-cases, Option-cases, ◌⊎◌, arith, ltb, nat_eq, sym, ◌∙◌,
}
use kv.Cluster.ConsistentHash.{
  ClusterNode, Ring, emplace, lower_bound, begin, empty, add_vnodes, add_nodes, build, owner_for,
}
use mathlib.Core.List.{Memᴰ}
use mathlib.Core.Option.{some-injective}
use mathlib.Core.List.Memᴰ

-- The owner did not change, or is `n` now.
abbrev Moved : ClusterNode → Option ClusterNode → Option ClusterNode → Type 0
Moved n after before = (after ≡ before) ⊎ (after ≡ some n)

lower_bound-emplace :
    (h k : ℕ) (n : ClusterNode) (r : Ring)
    → Moved n (lower_bound h (emplace k n r)) (lower_bound h r)
unfolding lower_bound emplace
lower_bound-emplace h k n [] = ground arith
lower_bound-emplace h k n ((j, m) ∷ r) = ground (arith, lower_bound-emplace h k n r)

lower_bound-emplace-some :
    (h k : ℕ) (n m : ClusterNode) (r : Ring)
    → lower_bound h r ≡ some m
    → lower_bound h (emplace k n r) ≢ none
unfolding lower_bound emplace
lower_bound-emplace-some h k n m [] = ground arith
lower_bound-emplace-some h k n m ((j, o) ∷ r) = ground (arith, lower_bound-emplace-some h k n m r)

begin-emplace : (k : ℕ) (n : ClusterNode) (r : Ring) → Moved n (begin (emplace k n r)) (begin r)
unfolding emplace
begin-emplace k n [] = ground arith
begin-emplace k n ((j, m) ∷ r) = ground arith

owner_at : ℕ → Ring → Option ClusterNode
unfolding lower_bound
owner_at h r = elim (lower_bound h r) [ none ↦ begin r | some n ↦ some n ]

Moved-trans :
    (n : ClusterNode) (a b c : Option ClusterNode) → Moved n c b → Moved n b a → Moved n c a
Moved-trans n a b c (inl p) (inl q) = inl (p ∙ q)
Moved-trans n a b c (inl p) (inr q) = inr (p ∙ q)
Moved-trans n a b c (inr p) _ = inr p

owner_at-emplace :
    (h k : ℕ) (n : ClusterNode) (r : Ring) → Moved n (owner_at h (emplace k n r)) (owner_at h r)
unfolding owner_at
owner_at-emplace h k n r = elim (Option-cases (lower_bound h r)) [
  | inl e ↦ ground (arith, lower_bound-emplace h k n r, begin-emplace k n r)
  | inr (m, e) ↦ ground (arith, lower_bound-emplace h k n r, lower_bound-emplace-some h k n m r e)
]

-- An owner that is not there is one of a ring without entries.
Holders : Ring → List ClusterNode → Type 0
Holders [] ns = Unit
Holders ((k, n) ∷ r) ns = Memᴰ n ns × Holders r ns

module _ (ns : List ClusterNode) where
  emplace-Holders :
      (k : ℕ) (n : ClusterNode) (r : Ring) → Memᴰ n ns → Holders r ns → Holders (emplace k n r) ns
  unfolding emplace Holders
  emplace-Holders k n [] m h = (m, tt)
  emplace-Holders k n ((j, o) ∷ r) m (m', h) = ground (arith, emplace-Holders k n r m h)

  begin-Holders : (r : Ring) (o : ClusterNode) → Holders r ns → begin r ≡ some o → Memᴰ o ns
  unfolding Holders
  begin-Holders [] o h e = cc
  begin-Holders ((j, m) ∷ r) o (mem, _) e = Memᴰ.cast (some-injective o m (sym e)) mem

  lower_bound-Holders :
      (h : ℕ) (r : Ring) (o : ClusterNode) → Holders r ns → lower_bound h r ≡ some o → Memᴰ o ns
  unfolding Holders lower_bound
  lower_bound-Holders h [] o holders e = cc
  lower_bound-Holders h ((j, m) ∷ r) o (mem, holders) e = elim (Bool-cases (ltb j h)) [
    | inl less ↦ lower_bound-Holders h r o holders (rw less at e)
    | inr e' ↦ Memᴰ.cast (some-injective o m (sym (rw e' at e))) mem
  ]

  owner_at-Holders :
      (h : ℕ) (r : Ring) (o : ClusterNode) → Holders r ns → owner_at h r ≡ some o → Memᴰ o ns
  unfolding owner_at
  owner_at-Holders h r o holders e = elim (Option-cases (lower_bound h r)) [
    | inl p ↦ begin-Holders r o holders (rw (p, owner_at) at e)
    | inr (m, p) ↦ lower_bound-Holders h r o holders (p ∙ (rw (p, owner_at) at e))
  ]

module _ (hasher : Bytes → ℕ) where
  owner_for-owner_at : (key : Bytes) (r : Ring) → owner_for hasher key r ≡ owner_at (hasher key) r
  unfolding owner_for owner_at lower_bound
  owner_for-owner_at key [] = refl
  owner_for-owner_at key ((j, m) ∷ r) = refl

  owner_at-add_vnodes :
      (h i left : ℕ) (n : ClusterNode) (r : Ring)
      → Moved n (owner_at h (add_vnodes hasher n i left r)) (owner_at h r)
  unfolding add_vnodes
  owner_at-add_vnodes h i zero n r = inl refl
  owner_at-add_vnodes h i (suc left) n r =
      Moved-trans n _ _ _ (owner_at-add_vnodes h (suc i) left n _) (owner_at-emplace h _ n r)

  add_nodes-append :
      (v : ℕ) (ns : List ClusterNode) (n : ClusterNode) (r : Ring)
      → add_nodes hasher v (ns ++ n ∷ []) r ≡ add_vnodes hasher n 0 v (add_nodes hasher v ns r)
  unfolding add_nodes
  add_nodes-append v [] n r = refl
  add_nodes-append v (m ∷ ns) n r = add_nodes-append v ns n _

  -- A node that joins at the end of the list takes keys to itself only: the owner of every key is
  -- as before, or is the new node, whatever the hash function and however the hashes collide.
  pub owner_for-join :
      (v : ℕ) (ns : List ClusterNode) (n : ClusterNode) (key : Bytes)
      → (owner_for hasher key (build hasher (ns ++ n ∷ []) v)
          ≡ owner_for hasher key (build hasher ns v))
        ⊎ (owner_for hasher key (build hasher (ns ++ n ∷ []) v) ≡ some n)
  unfolding build
  owner_for-join v ns n key =
      rw
        (
          owner_for-owner_at key (add_nodes hasher v (ns ++ n ∷ []) []),
          owner_for-owner_at key (add_nodes hasher v ns []),
          add_nodes-append v ns n [],
        )
        (owner_at-add_vnodes (hasher key) 0 v n (add_nodes hasher v ns []))

  module _ (all : List ClusterNode) where
    add_vnodes-Holders :
        (i left : ℕ) (n : ClusterNode) (r : Ring)
        → Memᴰ n all
        → Holders r all
        → Holders (add_vnodes hasher n i left r) all
    unfolding add_vnodes
    add_vnodes-Holders i zero n r mem h = h
    add_vnodes-Holders i (suc left) n r mem h =
        add_vnodes-Holders (suc i) left n _ mem (emplace-Holders all _ n r mem h)

    add_nodes-Holders :
        (v : ℕ) (ns : List ClusterNode) (r : Ring)
        → ((m : ClusterNode) → Memᴰ m ns → Memᴰ m all)
        → Holders r all
        → Holders (add_nodes hasher v ns r) all
    unfolding add_nodes
    add_nodes-Holders v [] r among h = h
    add_nodes-Holders v (n ∷ ns) r among h =
        add_nodes-Holders v ns _ (λ m mem. among m (Memᴰ.tail mem))
          (add_vnodes-Holders 0 v n r (among n (Memᴰ.head refl)) h)

  emplace_some : (k : ℕ) (n : ClusterNode) (r : Ring) → empty (emplace k n r) ≡ false
  unfolding emplace
  emplace_some k n [] = refl
  emplace_some k n ((j, m) ∷ r) = ground arith

  add_vnodes_some :
      (i left : ℕ) (n : ClusterNode) (r : Ring)
      → empty r ≡ false
      → empty (add_vnodes hasher n i left r) ≡ false
  unfolding add_vnodes
  add_vnodes_some i zero n r h = h
  add_vnodes_some i (suc left) n r h = add_vnodes_some (suc i) left n _ (emplace_some _ n r)

  add_nodes_some :
      (v : ℕ) (ns : List ClusterNode) (r : Ring)
      → empty r ≡ false
      → empty (add_nodes hasher v ns r) ≡ false
  unfolding add_nodes
  add_nodes_some v [] r h = h
  add_nodes_some v (n ∷ ns) r h = add_nodes_some v ns _ (add_vnodes_some 0 v n r h)

  build_some :
      (v : ℕ) (n : ClusterNode) (ns : List ClusterNode)
      → empty (build hasher (n ∷ ns) (suc v)) ≡ false
  unfolding build add_nodes add_vnodes
  build_some v n ns = add_nodes_some (suc v) ns _ (add_vnodes_some 1 v n _ (emplace_some _ n []))

  owned :
      (key : Bytes) (r : Ring)
      → empty r ≡ false
      → (o : ClusterNode) × (owner_for hasher key r ≡ some o)
  unfolding owner_for
  owned key [] h = cc
  owned key ((j, m) ∷ r) h = elim (Option-cases (lower_bound (hasher key) ((j, m) ∷ r))) [
    | inl e ↦ (m, rw (e, owner_for) refl)
    | inr (o, e) ↦ (o, rw (e, owner_for) refl)
  ]

  -- Every key has an owner, and it is one of the nodes, if there is a node and a virtual node.
  pub owner_for-build :
      (v : ℕ) (n : ClusterNode) (ns : List ClusterNode) (key : Bytes)
      → (o : ClusterNode) × (owner_for hasher key (build hasher (n ∷ ns) (suc v)) ≡ some o)
        × Memᴰ o (n ∷ ns)
  unfolding build Holders
  owner_for-build v n ns key =
      let (o, e) = owned key _ (build_some v n ns) in
      (
        o,
        e,
        owner_at-Holders (n ∷ ns) (hasher key) (build hasher (n ∷ ns) (suc v)) o
            (add_nodes-Holders (n ∷ ns) (suc v) (n ∷ ns) [] (λ m mem. mem) tt)
            (sym (owner_for-owner_at key _) ∙ e),
      )
