-- ===== src/Server/Metrics.antt =====
-- src/app/kv_server.cpp: `record_request_metrics` and `metrics_response`.
use kv.Prelude.{
  ℕ, suc, ◌-◌, ◌*◌, ◌/◌, Bool, none, some, List, [], ◌∷◌, ◌++◌, Bytes, codes, if◌then◌else◌, ltb,
  length, drop, get_elem?,
}
use kv.Prelude.Int.{ℤ, pos, leb_ℤ}
use kv.Text.Decimal.{print}
use kv.Cluster.ConsistentHash.{ClusterNode}
use kv.Cluster.Router.{raft_enabled, role_name}
use kv.Cluster.Router.Placement.{alive_nodes}
use kv.Server.{KvServer, Turn, raft_last_log_index_locked, with_router, with_store}
use kv.Server.Store.{StoreMethods}

-- `kMaxRecentLatencies`
abbrev pub recent : ℕ
recent = 4096

-- The last so many of the latencies.
unfoldable pub keep_recent : List ℤ → List ℤ
keep_recent latencies =
    if ltb recent (length latencies) then drop (length latencies - recent) latencies else latencies

module _ {S : Type 0} where
  unfoldable pub record_request_metrics : ℤ → Bool → KvServer S → KvServer S
  unfolding keep_recent
  record_request_metrics latency_us failed s = record s {
    m_requests_total = suc s.m_requests_total;
    m_failed_requests_total =
        if failed then suc s.m_failed_requests_total else s.m_failed_requests_total;
    m_recent_latencies_us = keep_recent (s.m_recent_latencies_us ++ latency_us ∷ []);
  }

-- `std::sort` of numbers.
unfoldable pub insert_number : ℤ → List ℤ → List ℤ
insert_number z [] = z ∷ []
insert_number z (w ∷ ws) =
    let rest = insert_number z ws in if leb_ℤ z w then z ∷ w ∷ ws else w ∷ rest

unfoldable pub sort_numbers : List ℤ → List ℤ
unfolding insert_number
sort_numbers [] = []
sort_numbers (z ∷ zs) = insert_number z (sort_numbers zs)

-- `percentile`, of so many in a hundred; the product of floating-point numbers is cut to this index, for
-- 95 and 99 and the numbers of latencies that are kept.
unfoldable pub percentile : ℕ → List ℤ → ℤ
percentile hundredths latencies =
    elim (get_elem? latencies ((length latencies - 1) * hundredths / 100)) [
      | none ↦ pos 0
      | some latency ↦ latency
    ]

unfoldable pub stat_lines : List (Bytes × Bytes) → Bytes
stat_lines [] = []
stat_lines ((name, value) ∷ stats) = name ++ b' ' ∷ (value ++ b'\n' ∷ stat_lines stats)

abbrev pub number : ℕ → Bytes
number n = print (pos n)

module _ {S : Type 0} where
  -- The lines, with the nodes that are alive and the keys of the store.
  unfoldable pub stats : Turn → ℕ → ℕ → KvServer S → List (Bytes × Bytes)
  unfolding sort_numbers percentile role_name
  stats t alive keys s =
      let latencies = sort_numbers s.m_recent_latencies_us in
      (codes "tinykv_node_id", s.m_router.m_local_id)
      ∷ (
        codes "tinykv_raft_role",
        if raft_enabled s.m_router then role_name s.m_router else codes "standalone",
      )
      ∷ (codes "tinykv_raft_term", print s.m_router.m_current_term)
      ∷ (codes "tinykv_raft_leader", s.m_router.m_leader_id)
      ∷ (codes "tinykv_raft_commit_index", print s.raft.m_raft_commit_index)
      ∷ (codes "tinykv_raft_last_applied", print s.raft.m_raft_last_applied)
      ∷ (codes "tinykv_raft_log_size", number (length s.raft.m_raft_log))
      ∷ (codes "tinykv_raft_last_log_index", print (raft_last_log_index_locked s.raft))
      ∷ (codes "tinykv_raft_snapshot_last_included_index", print s.raft.m_raft_last_included_index)
      ∷ (codes "tinykv_raft_snapshot_last_included_term", print s.raft.m_raft_last_included_term)
      ∷ (codes "tinykv_raft_election_count", print s.m_router.m_election_count)
      ∷ (codes "tinykv_raft_replication_failure_count", number s.m_replication_failures_total)
      ∷ (codes "tinykv_alive_nodes", number alive)
      ∷ (codes "tinykv_store_keys", number keys)
      ∷ (codes "tinykv_requests_total", number s.m_requests_total)
      ∷ (codes "tinykv_failed_requests_total", number s.m_failed_requests_total)
      ∷ (codes "tinykv_qps", number (t.per_second s.m_requests_total))
      ∷ (codes "tinykv_latency_p95_us", print (percentile 95 latencies))
      ∷ (codes "tinykv_latency_p99_us", print (percentile 99 latencies))
      ∷ []

module _ {S : Type 0} (methods : StoreMethods S) (hasher : Bytes → ℕ) where
  unfoldable pub metrics_response : Turn → (ClusterNode → Bool) → KvServer S → KvServer S × Bytes
  unfolding stats stat_lines
  metrics_response t ping s =
      let (s', nodes) = with_router (alive_nodes hasher t.moment.now ping) s in
      let alive = if s.m_router.m_enabled then length nodes else 1 in
      let (s'', keys) = with_store methods.size s' in (s'', stat_lines (stats t alive keys s))
