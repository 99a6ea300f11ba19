-- ===== src/Server/Replicate/Majority.antt =====
-- `replicate_raft_write`: who has acknowledged an entry when it is committed.
use kv.Prelude.{arith, ℕ, ◌≡◌, Bool, Option, none, some, List, [], Bytes, arith}
use kv.Protocol.{Request}
use kv.Cluster.ConsistentHash.{ClusterNode}
use kv.Cluster.Router.{ClusterRouter}
use kv.Server.{KvServer, RaftLog, Turn}
use kv.Server.Store.{StoreMethods}
use kv.Server.Replicate.{Round, replicate_all, append_own, followers_of, replicate_raft_write}

-- Two routers of the same cluster.
abbrev Alike : ClusterRouter → ClusterRouter → Type 0
Alike q r =
    (q.m_enabled ≡ r.m_enabled)
    × (q.m_raft_enabled ≡ r.m_raft_enabled)
    × (q.m_all_nodes ≡ r.m_all_nodes)

module _ {S : Type 0} (methods : StoreMethods S) (forward : ℕ → ClusterNode → Bytes → Bytes)
    (hasher : Bytes → ℕ) (t : Turn) (ping : ClusterNode → Bool) (turns : ℕ) (request : Request)
    (s : KvServer S) where
  -- The leader with the entry in its log, and its followers.
  abbrev pub with_entry : KvServer S × Round
  with_entry = append_own t request s

  abbrev pub asked : KvServer S × List ClusterNode
  asked = followers_of hasher t ping with_entry.0

  call : Option (KvServer S × Bytes × List ClusterNode × Bytes)
  call = replicate_raft_write methods forward hasher t ping turns request s

  to_followers : Option (KvServer S × ℕ × ℕ)
  to_followers = replicate_all methods forward turns with_entry.1 asked.1 0 1 asked.0

  abbrev raft_or : RaftLog → Option (KvServer S × Bytes × List ClusterNode × Bytes) → RaftLog
  raft_or r none = r
  raft_or r (some (s', reply, told, message)) = s'.raft

  abbrev told_or : Option (KvServer S × Bytes × List ClusterNode × Bytes) → List ClusterNode
  told_or none = []
  told_or (some (s', reply, told, message)) = told

  abbrev reply_or : Option (KvServer S × Bytes × List ClusterNode × Bytes) → Bytes
  reply_or none = []
  reply_or (some (s', reply, told, message)) = reply
