-- ===== src/Server/Apply.antt =====
-- src/app/kv_server.cpp: `apply_committed_raft_entries_locked` and `compact_raft_log_if_needed_locked`.
pub mod Order
pub mod Compaction
pub mod Committed
use kv.Prelude.{
  ℕ, zero, suc, Bool, true, false, not, Option, none, some, List, [], ◌∷◌, if◌then◌else◌, keep,
  length,
}
use kv.Prelude.Int.{ℤ, pos, ◌+ℤ◌, ◌-ℤ◌, ltb_ℤ, leb_ℤ}
use kv.Protocol.{put_command, del_command, expire_command}
use kv.Server.{RaftLogEntry, RaftLog, KvServer, Turn, entry_at, raft_term_at_locked, report_log}
use kv.Server.Store.{StoreMethods}
use kv.Server.Files.{persist_raft_locked, persist_raft_state_locked}

-- The next entry that is committed and not yet applied, if it is in the log.
unfoldable pub next_committed : RaftLog → Option RaftLogEntry
next_committed r =
    if ltb_ℤ r.m_raft_last_applied r.m_raft_commit_index
    then entry_at (r.m_raft_last_applied +ℤ pos 1) r
    else none

-- The log without the entries up to an index.
unfoldable pub compacted : ℤ → ℤ → RaftLog → RaftLog
compacted index term r = record r {
  m_raft_log = keep (λ (e : RaftLogEntry). not (leb_ℤ e.index index)) r.m_raft_log;
  m_raft_last_included_index = index;
  m_raft_last_included_term = term;
}

-- What has been applied is at least the snapshot.
abbrev pub caught_up : RaftLog → RaftLog
caught_up r =
    if ltb_ℤ r.m_raft_last_applied r.m_raft_last_included_index
    then record r { m_raft_last_applied = r.m_raft_last_included_index }
    else r

module _ {S : Type 0} where
  unfoldable pub compact_raft_log_if_needed_locked : Turn → KvServer S → KvServer S
  compact_raft_log_if_needed_locked t s =
      let compact_to = s.raft.m_raft_last_applied in
      let compact_term = raft_term_at_locked compact_to s.raft in
      let included = s.raft.m_raft_last_included_index in
      if leb_ℤ compact_to included
      then s
      else if ltb_ℤ (compact_to -ℤ included) s.m_raft_snapshot_threshold
      then s
      else if ltb_ℤ compact_term (pos 0)
      then s
      else report_log
          (persist_raft_locked t (record s { raft = compacted compact_to compact_term s.raft })).0

module _ {S : Type 0} (methods : StoreMethods S) where
  unfoldable pub apply_raft_entry_locked : RaftLogEntry → S → S × Bool
  apply_raft_entry_locked e s = elim e.type [
    | put_command ↦
        if ltb_ℤ (pos 0) e.ttl_seconds
        then methods.put_ttl e.key e.value e.ttl_seconds s
        else methods.put e.key e.value s
    | del_command ↦ ((methods.del e.key s).0, true)
    | expire_command ↦ ((methods.expire e.key e.ttl_seconds s).0, true)
    | _ ↦ (s, false)
  ]

  -- The loop, of so many turns at most; a turn takes an entry of the log, so its length is enough as long
  -- as the entries of the log carry consecutive indices.
  unfoldable pub apply_entries : ℕ → RaftLog → S → RaftLog × S
  apply_entries zero r s = (r, s)
  apply_entries (suc turns) r s = elim (next_committed r) [
    | none ↦ (r, s)
    | some e ↦
        apply_entries turns (record r { m_raft_last_applied = e.index })
          (apply_raft_entry_locked e s).0
  ]

  unfoldable pub apply_committed_raft_entries_locked : Turn → KvServer S → KvServer S
  apply_committed_raft_entries_locked t s =
      let (r, store) = apply_entries (length s.raft.m_raft_log) (caught_up s.raft) s.m_store in
      (persist_raft_state_locked t
        (compact_raft_log_if_needed_locked t (record s { raft = r; m_store = store }))).0
