-- ===== src/Server.antt =====
-- src/app/kv_server.{h,cpp}: the replicated log of a `KVServer`, its files, and what it answers.
pub mod Store
pub mod Indices
pub mod Codec
pub mod Files
pub mod Apply
pub mod Append
pub mod Responses
pub mod Replicate
pub mod Contiguity
pub mod Metrics
pub mod Execute
pub mod Start
pub mod Dispatch
use kv.Prelude.{
  ℕ, suc, ◌+◌, Bool, true, false, not, ◌&&◌, ◌||◌, Option, none, some, List, [], ◌∷◌, ◌++◌, Bytes,
  codes, is_empty, if◌then◌else◌, leb, length, take, get_elem?,
}
use kv.Prelude.Int.{ℤ, pos, negsuc, ◌+ℤ◌, ◌-ℤ◌, ltb_ℤ, leb_ℤ, eqb_ℤ, pos_part}
use kv.Protocol.{CommandType}
use kv.Cluster.Router.{ClusterRouter, Moment, update_log_info}

pub record RaftLogEntry : Type 0 where
  pub index : ℤ
  pub term : ℤ
  pub type : CommandType
  pub key : Bytes
  pub value : Bytes
  pub ttl_seconds : ℤ

-- The members that the mutex of the log guards.
pub record RaftLog : Type 0 where
  pub m_raft_log : List RaftLogEntry
  pub m_raft_commit_index : ℤ
  pub m_raft_last_applied : ℤ
  pub m_raft_last_included_index : ℤ
  pub m_raft_last_included_term : ℤ

-- `log_file` and `state_file` are what the two files hold, if they are there.
pub record KvServer (S : Type 0) : Type 0 where
  pub raft : RaftLog
  pub m_raft_snapshot_threshold : ℤ
  pub m_raft_log_file : Bytes
  pub m_raft_state_file : Bytes
  pub log_file : Option Bytes
  pub state_file : Option Bytes
  pub m_router : ClusterRouter
  pub m_store : S
  pub m_replication_failures_total : ℕ
  pub m_requests_total : ℕ
  pub m_failed_requests_total : ℕ
  pub m_recent_latencies_us : List ℤ

-- What the environment answers to a call: the clock and the file of terms, as the router takes them,
-- whether the two files of the log open, and what the floating-point division of a count by the seconds
-- since the start gives. What is written to an open file is written whole.
pub record Turn : Type 0 where
  pub moment : Moment
  pub log_opens : Bool
  pub state_opens : Bool
  pub per_second : ℕ → ℕ

unfoldable pub last_entry : List RaftLogEntry → Option RaftLogEntry
last_entry [] = none
last_entry (e ∷ []) = some e
last_entry (e ∷ e' ∷ es) = last_entry (e' ∷ es)

unfoldable pub raft_last_log_index_locked : RaftLog → ℤ
raft_last_log_index_locked r = elim (last_entry r.m_raft_log) [
  | none ↦ r.m_raft_last_included_index
  | some e ↦ e.index
]

unfoldable pub raft_last_log_term_locked : RaftLog → ℤ
raft_last_log_term_locked r = elim (last_entry r.m_raft_log) [
  | none ↦ r.m_raft_last_included_term
  | some e ↦ e.term
]

-- `none` is the offset -1.
unfoldable pub raft_log_offset_locked : ℤ → RaftLog → Option ℕ
raft_log_offset_locked index r =
    let offset = index -ℤ r.m_raft_last_included_index -ℤ pos 1 in
    if ltb_ℤ offset (pos 0) || leb (length r.m_raft_log) (pos_part offset)
    then none
    else some (pos_part offset)

-- `m_raft_log[offset]`, for an offset in range.
unfoldable pub entry_at : ℤ → RaftLog → Option RaftLogEntry
entry_at index r = elim (raft_log_offset_locked index r) [
  | none ↦ none
  | some offset ↦ get_elem? r.m_raft_log offset
]

unfoldable pub raft_term_at_locked : ℤ → RaftLog → ℤ
raft_term_at_locked index r =
    if leb_ℤ index (pos 0)
    then pos 0
    else if eqb_ℤ index r.m_raft_last_included_index
    then r.m_raft_last_included_term
    else elim (entry_at index r) [ none ↦ negsuc 0 | some e ↦ e.term ]

-- `m_raft_log.erase(m_raft_log.begin() + offset, m_raft_log.end())`, if the index is in the log.
unfoldable pub erase_from : ℤ → RaftLog → RaftLog
erase_from index r = elim (raft_log_offset_locked index r) [
  | none ↦ r
  | some offset ↦ record r { m_raft_log = take offset r.m_raft_log }
]

unfoldable pub push_entry : RaftLogEntry → RaftLog → RaftLog
push_entry e r = record r { m_raft_log = r.m_raft_log ++ e ∷ [] }

module _ {S : Type 0} where
  -- `m_router.update_log_info(raft_last_log_index_locked(), raft_last_log_term_locked())`
  unfoldable pub report_log : KvServer S → KvServer S
  unfolding raft_last_log_index_locked raft_last_log_term_locked update_log_info
  report_log s = record s {
    m_router =
        update_log_info (raft_last_log_index_locked s.raft) (raft_last_log_term_locked s.raft)
          s.m_router;
  }

-- A method of the router, and one of the store, as the server calls them.
abbrev pub with_router {ℓ} :
    {S : Type 0} {A : Type ℓ} → (ClusterRouter → ClusterRouter × A) → KvServer S → KvServer S × A
with_router method s = let (router, a) = method s.m_router in (record s { m_router = router }, a)

abbrev pub with_store {ℓ} : {S : Type 0} {A : Type ℓ} → (S → S × A) → KvServer S → KvServer S × A
with_store method s = let (store, a) = method s.m_store in (record s { m_store = store }, a)
