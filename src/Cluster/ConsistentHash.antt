-- ===== src/Cluster/ConsistentHash.antt =====
-- src/cluster/consistent_hash.{h,cpp} and src/cluster/node.h: the ring as the pairs of the
-- `std::map`, in the order of their keys.
pub mod Ownership
use kv.Prelude.{
  ℕ, zero, suc, Bool, true, false, Option, none, some, List, [], ◌∷◌, ◌++◌, Bytes, codes, is_empty,
  if◌then◌else◌, ltb, ◌==◌, nat_eq,
}
use kv.Prelude.Int.{ℤ}
use kv.Text.Decimal.{print_nat}

pub record ClusterNode : Type 0 where
  pub id : Bytes
  pub host : Bytes
  pub port : ℤ

abbrev pub Ring : Type 0
Ring = List (ℕ × ClusterNode)

-- `std::map::emplace`: an entry that is there stays.
unfoldable pub emplace : ℕ → ClusterNode → Ring → Ring
emplace k n [] = (k, n) ∷ []
emplace k n ((j, m) ∷ r) =
    let rest = emplace k n r in
    if ltb k j then (k, n) ∷ (j, m) ∷ r else if k == j then (j, m) ∷ r else (j, m) ∷ rest

-- `std::map::lower_bound`: the first entry whose key is not less.
unfoldable pub lower_bound : ℕ → Ring → Option ClusterNode
lower_bound h [] = none
lower_bound h ((j, m) ∷ r) = let rest = lower_bound h r in if ltb j h then rest else some m

abbrev pub begin : Ring → Option ClusterNode
begin [] = none
begin ((j, m) ∷ r) = some m

abbrev pub empty : Ring → Bool
empty r = is_empty r

-- `std::hash<std::string>`, whose values the standard library chooses.
module _ (hasher : Bytes → ℕ) where
  abbrev pub vnode_key : ClusterNode → ℕ → Bytes
  vnode_key n i = n.id ++ codes "#" ++ print_nat i

  -- The inner loop of `build`, from `i` on, with so many turns left.
  unfoldable pub add_vnodes : ClusterNode → ℕ → ℕ → Ring → Ring
  add_vnodes n i zero r = r
  add_vnodes n i (suc left) r = add_vnodes n (suc i) left (emplace (hasher (vnode_key n i)) n r)

  unfoldable pub add_nodes : ℕ → List ClusterNode → Ring → Ring
  unfolding add_vnodes
  add_nodes virtual_nodes [] r = r
  add_nodes virtual_nodes (n ∷ ns) r = add_nodes virtual_nodes ns (add_vnodes n 0 virtual_nodes r)

  unfoldable pub build : List ClusterNode → ℕ → Ring
  unfolding add_nodes
  build nodes virtual_nodes = add_nodes virtual_nodes nodes []

  unfoldable pub owner_for : Bytes → Ring → Option ClusterNode
  unfolding lower_bound
  owner_for key r =
      if empty r
      then none
      else elim (lower_bound (hasher key) r) [ none ↦ begin r | some n ↦ some n ]
