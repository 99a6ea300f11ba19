-- ===== src/Cluster/Router/Replicas.antt =====
-- The replicas of a key are other nodes that are alive, no more than the replication factor asks for.
use kv.Prelude.{ℕ, ◌≡◌, false, Option, List, Bytes, ◌==◌, bytes_eq}
use kv.Text.Lacks.{All}
use kv.Cluster.ConsistentHash.{ClusterNode}

module _ (P : ClusterNode → Type 0) (local_id : Bytes) (sorted : List ClusterNode)
    (all : All P sorted) (owner target : ℕ) where
  abbrev IsOther : ClusterNode → Type 0
  IsOther n = P n × ((n.id == local_id) ≡ false)
