-- ===== src/Cluster/Router/Placement.antt =====
-- src/cluster/router.cpp: who owns a key, and who holds copies of it.
use kv.Prelude.{
  ℕ, zero, suc, ◌+◌, ◌-◌, ◌%◌, Bool, true, false, not, ◌||◌, Option, none, some, List, [], ◌∷◌,
  ◌++◌, Bytes, if◌then◌else◌, ◌==◌, bytes_eq, nat_eq, length, keep, get_elem?, ltb, leb, min,
}
use kv.Prelude.Int.{ℤ, pos, negsuc, leb_ℤ}
use kv.Cluster.ConsistentHash
use kv.Cluster.ConsistentHash.{ClusterNode}
use kv.Cluster.Router.{ClusterRouter, raft_enabled, refresh_health_if_needed}

-- `operator<` of two strings.
unfoldable pub bytes_ltb : Bytes → Bytes → Bool
bytes_ltb _ [] = false
bytes_ltb [] (y ∷ ys) = true
bytes_ltb (x ∷ xs) (y ∷ ys) =
    let rest = bytes_ltb xs ys in if ltb x y then true else if x == y then rest else false

-- `std::sort` by the identifiers; nodes with the same one keep their order here.
unfoldable pub insert_by_id : ClusterNode → List ClusterNode → List ClusterNode
unfolding bytes_ltb
insert_by_id n [] = n ∷ []
insert_by_id n (m ∷ ms) =
    let rest = insert_by_id n ms in if bytes_ltb m.id n.id then m ∷ rest else n ∷ m ∷ ms

unfoldable pub sort_by_id : List ClusterNode → List ClusterNode
unfolding insert_by_id
sort_by_id [] = []
sort_by_id (n ∷ ns) = insert_by_id n (sort_by_id ns)

-- `std::find_if` for an identifier, as an index.
unfoldable pub index_of : Bytes → List ClusterNode → Option ℕ
index_of id [] = none
index_of id (n ∷ ns) =
    let rest = index_of id ns in
    if n.id == id then some 0 else elim rest [ none ↦ none | some i ↦ some (suc i) ]

-- The loop of `replicas_for`, with so many offsets left; `replicas` is what was pushed.
unfoldable pub collect_replicas :
    Bytes → List ClusterNode → ℕ → ℕ → ℕ → ℕ → List ClusterNode → List ClusterNode
collect_replicas local_id sorted owner_index target offset zero replicas = replicas
collect_replicas local_id sorted owner_index target offset (suc left) replicas =
    let node = get_elem? sorted ((owner_index + offset) % length sorted) in
    let pushed : List ClusterNode = elim node [
      | none ↦ replicas
      | some n ↦ if n.id == local_id then replicas else replicas ++ n ∷ []
    ] in
    let rest = collect_replicas local_id sorted owner_index target (suc offset) left pushed in
    if ltb (length replicas) target then rest else replicas

-- `static_cast<size_t>(m_replication_factor - 1)`, where the factor is more than 1.
abbrev pub copies : ℤ → ℕ
copies (pos n) = n - 1
copies (negsuc n) = 0

unfoldable pub replicas_after : Bytes → ℤ → List ClusterNode → Option ClusterNode → List ClusterNode
unfolding sort_by_id index_of collect_replicas
replicas_after local_id replication_factor alive owner =
    let sorted = sort_by_id alive in
    if leb (length alive) 1 then [] else elim owner [
      | none ↦ []
      | some o ↦ elim (index_of o.id sorted) [
        | none ↦ []
        | some owner_index ↦
            collect_replicas local_id sorted owner_index
              (min (copies replication_factor) (length sorted - 1)) 1 (length sorted - 1) []
      ]
    ]

module _ (hasher : Bytes → ℕ) (now : ℤ) (ping : ClusterNode → Bool) where
  unfoldable pub owner_for : Bytes → ClusterRouter → ClusterRouter × Option ClusterNode
  owner_for key r =
      let r' = refresh_health_if_needed hasher now ping r in
      if not r.m_enabled then (r, none) else (r', ConsistentHash.owner_for hasher key r'.m_hash)

  unfoldable pub is_local_owner : Bytes → ClusterRouter → ClusterRouter × Bool
  unfolding owner_for
  is_local_owner key r =
      let (r', owner) = owner_for key r in
      (r', elim owner [ none ↦ true | some o ↦ o.id == r.m_local_id ])

  unfoldable pub replicas_for : Bytes → ClusterRouter → ClusterRouter × List ClusterNode
  unfolding replicas_after
  replicas_for key r =
      let r' = refresh_health_if_needed hasher now ping r in
      if not r.m_enabled || leb_ℤ r.m_replication_factor (pos 1) then (r, []) else (
        r',
        replicas_after r.m_local_id r.m_replication_factor r'.m_alive_nodes
            (ConsistentHash.owner_for hasher key r'.m_hash),
      )

  unfoldable pub alive_nodes : ClusterRouter → ClusterRouter × List ClusterNode
  alive_nodes r =
      let r' = refresh_health_if_needed hasher now ping r in
      if not r.m_enabled then (r, []) else (r', r'.m_alive_nodes)

  unfoldable pub raft_followers : ClusterRouter → ClusterRouter × List ClusterNode
  raft_followers r =
      let r' = refresh_health_if_needed hasher now ping r in
      if not (raft_enabled r)
      then (r, [])
      else (r', keep (λ n. not (n.id == r.m_local_id)) r'.m_alive_nodes)
