-- ===== src/Examples/ServerRuns.antt =====
-- The replicated log at concrete inputs.
use kv.Prelude.{ℕ, ◌≡◌, refl, true, none, some, List, [], ◌∷◌, codes, arith, bytes_beq}
use kv.Prelude.Int.{pos}
use kv.Text.Words.{IsWord, has_no_space, IsWord-literal}
use kv.Protocol.{
  Request, raft_append_entries, CommandType, put_command, del_command, expire_command,
}
use kv.Protocol.Requests.{received}
use kv.Storage.Memory.{fresh}
use kv.Server.{
  RaftLogEntry, RaftLog, KvServer, Turn, raft_term_at_locked, last_entry,
  raft_last_log_index_locked,
}
use kv.Server.Store.{Timed, memory_methods}
use kv.Server.Codec.{
  type_of_op, op_name, entries_text, encode_raft_append_batch, decode_raft_entries_payload,
}
use kv.Server.Codec.Entries.{IsEntry}
use kv.Server.Codec.Messages.{received-encode_raft_append_batch}
use kv.Server.Files.{state_text, load_raft_state}
use kv.Server.Files.Restart.{IsOrdered, load_raft_state-files}
use kv.Server.Apply.{apply_committed_raft_entries_locked, compact_raft_log_if_needed_locked}
use kv.Server.Apply.Order.{run_entries}
use kv.Server.Apply.Committed.{apply_committed-run_entries}
use kv.Server.Apply.Compaction.{raft_term_at-compact}
use kv.Server.Append.{append_batch}
use kv.Server.Append.Merge.{merge, append_batch-merge}
use kv.Server.Contiguity.{IsContiguous}
use kv.Examples.ClusterRuns.{node_1, node_2, router}

abbrev entry : ℕ → ℕ → CommandType → RaftLogEntry
entry index term type = record {
  index = pos index;
  term = pos term;
  type = type;
  key = codes "k";
  value = codes "v";
  ttl_seconds = pos 60;
}

abbrev pub e1 : RaftLogEntry
e1 = entry 1 1 put_command

abbrev e2 : RaftLogEntry
e2 = entry 2 1 del_command

abbrev e2' : RaftLogEntry
e2' = entry 2 2 put_command

abbrev e3 : RaftLogEntry
e3 = entry 3 2 expire_command

abbrev pub log_of : List RaftLogEntry → ℕ → ℕ → RaftLog
log_of entries applied commit = record {
  m_raft_log = entries;
  m_raft_commit_index = pos commit;
  m_raft_last_applied = pos applied;
  m_raft_last_included_index = pos 0;
  m_raft_last_included_term = pos 0;
}

abbrev pub turn : Turn
turn = record {
  moment = record { now = pos 10; jitter = 0; opened = true };
  log_opens = true;
  state_opens = true;
  per_second = λ n. n;
}

abbrev pub server : RaftLog → KvServer Timed
server r = record {
  raft = r;
  m_raft_snapshot_threshold = pos 1;
  m_raft_log_file = codes "raft.log";
  m_raft_state_file = codes "raft.state";
  log_file = none;
  state_file = none;
  m_router = record router { m_alive_nodes = node_1 ∷ node_2 ∷ []; m_last_health_check = pos 10 };
  m_store = record { store = fresh; clock = λ n. pos n; reads = 0 };
  m_replication_failures_total = 0;
  m_requests_total = 0;
  m_failed_requests_total = 0;
  m_recent_latencies_us = [];
}

-- The second entry of the log is of an older term.
append_batch-merge_example :
    append_batch (pos 2) (e2' ∷ e3 ∷ []) (log_of (e1 ∷ e2 ∷ []) 0 0)
    ≡ (log_of (e1 ∷ merge (e2 ∷ []) (e2' ∷ e3 ∷ [])) 0 0, true)
append_batch-merge_example =
    append_batch-merge (e2' ∷ e3 ∷ []) (log_of (e1 ∷ e2 ∷ []) 0 0) 0 (e1 ∷ []) (e2 ∷ []) refl refl
      (refl, (refl, tt)) (refl, tt) (refl, (refl, tt))

apply_committed-run_entries_example :
    ((apply_committed_raft_entries_locked memory_methods turn
        (server (log_of (e1 ∷ e2 ∷ e3 ∷ []) 1 2))).m_store
      ≡ run_entries memory_methods (e2 ∷ []) (server (log_of (e1 ∷ e2 ∷ e3 ∷ []) 1 2)).m_store)
    × ((apply_committed_raft_entries_locked memory_methods turn
          (server (log_of (e1 ∷ e2 ∷ e3 ∷ []) 1 2))).raft.m_raft_last_applied
        ≡ pos 2)
apply_committed-run_entries_example =
    apply_committed-run_entries memory_methods turn (server (log_of (e1 ∷ e2 ∷ e3 ∷ []) 1 2)) 0
      (e1 ∷ []) (e2 ∷ []) (e3 ∷ []) refl refl (refl, (refl, (refl, tt))) refl refl

abbrev contiguous : IsContiguous (log_of (e1 ∷ e2 ∷ e3 ∷ []) 2 2)
contiguous = record { base = 0; at_base = refl; follows = (refl, (refl, (refl, tt))) }

raft_term_at-compact_example :
    raft_term_at_locked
      (pos 3)
      (compact_raft_log_if_needed_locked turn (server (log_of (e1 ∷ e2 ∷ e3 ∷ []) 2 2))).raft
    ≡ raft_term_at_locked (pos 3) (log_of (e1 ∷ e2 ∷ e3 ∷ []) 2 2)
raft_term_at-compact_example =
    raft_term_at-compact turn (server (log_of (e1 ∷ e2 ∷ e3 ∷ []) 2 2)) contiguous 3 (omega arith)

e1-IsEntry : IsEntry e1
unfolding type_of_op op_name bytes_beq
e1-IsEntry = record {
  index_fits = refl;
  term_fits = refl;
  ttl_fits = refl;
  is_write = refl;
  key_bytes = omega arith;
  value_bytes = omega arith;
}

load_raft_state-files_example :
    load_raft_state (some (entries_text (e1 ∷ []))) (some (state_text (log_of (e1 ∷ []) 0 1)))
    ≡ (log_of (e1 ∷ []) 0 1, true)
load_raft_state-files_example = load_raft_state-files (log_of (e1 ∷ []) 0 1) ordered (record {
  commit_fits = refl;
  applied_fits = refl;
  included_fits = refl;
  included_term_fits = refl;
  are_entries = (e1-IsEntry, tt);
})
  where
    ordered : IsOrdered (log_of (e1 ∷ []) 0 1)
    ordered = record {
      included-applied = omega arith;
      applied-commit = omega arith;
      commit-last = unfold raft_last_log_index_locked last_entry in omega arith;
    }

n1-IsWord : IsWord (codes "n1")
unfolding has_no_space
n1-IsWord = IsWord-literal (codes "n1") refl refl

received-encode_raft_append_batch_example :
    (request : Request) × (received
        (λ n. true)
        (encode_raft_append_batch (codes "n1") (pos 4) (e1 ∷ []) (pos 0) (pos 0) (pos 0))
      ≡ some request)
    × (request.type ≡ raft_append_entries)
    × (decode_raft_entries_payload request.snapshot_payload ≡ e1 ∷ [])
    × (request.entry_count ≡ pos 1)
    × (request.term ≡ pos 1)
    × (request.node_id ≡ codes "n1")
    × (request.prev_log_index ≡ pos 0)
    × (request.prev_log_term ≡ pos 0)
    × (request.leader_commit ≡ pos 0)
received-encode_raft_append_batch_example =
    received-encode_raft_append_batch 1 0 0 0 (codes "n1") (e1 ∷ []) (omega arith) (omega arith)
      (omega arith) (omega arith) (omega arith) n1-IsWord (e1-IsEntry, tt) (λ n. true) (pos 4)
      (unfold last_entry in refl)
