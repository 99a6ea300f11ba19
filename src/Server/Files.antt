-- ===== src/Server/Files.antt =====
-- src/app/kv_server.cpp: the files of the log and of its indices, and the start of a server on them.
pub mod Restart
use kv.Prelude.{
  ℕ, Bool, true, false, Option, none, some, List, [], ◌∷◌, ◌++◌, Bytes, codes, is_empty,
  if◌then◌else◌, ◌==◌, bytes_eq,
}
use kv.Prelude.Int.{ℤ, pos, ltb_ℤ, min_ℤ, max_ℤ}
use kv.Text.Decimal.{print, scan_signed}
use kv.Text.Words.{words, fits_int, failed_int}
use kv.Text.Split.{lines}
use kv.Server.{RaftLog, KvServer, Turn, raft_last_log_index_locked}
use kv.Server.Codec.{entries_text, field, read_entries}

-- What `persist_raft_state_locked` writes.
unfoldable pub state_text : RaftLog → Bytes
state_text r =
    codes "commit_index"
    ++ b' '
      ∷ (print r.m_raft_commit_index
          ++ b'\n'
            ∷ (codes "last_applied"
                ++ b' '
                  ∷ (print r.m_raft_last_applied
                      ++ b'\n'
                        ∷ (codes "last_included_index"
                            ++ b' '
                              ∷ (print r.m_raft_last_included_index
                                  ++ b'\n'
                                    ∷ (codes "last_included_term"
                                        ++ b' '
                                          ∷ (print r.m_raft_last_included_term ++ b'\n' ∷ [])))))))

module _ {S : Type 0} where
  unfoldable pub persist_raft_state_locked : Turn → KvServer S → KvServer S × Bool
  unfolding state_text
  persist_raft_state_locked t s =
      if is_empty s.m_raft_state_file
      then (s, true)
      else if t.state_opens
      then (record s { state_file = some (state_text s.raft) }, true)
      else (s, false)

  unfoldable pub persist_raft_log_locked : Turn → KvServer S → KvServer S × Bool
  unfolding entries_text
  persist_raft_log_locked t s =
      if is_empty s.m_raft_log_file
      then (s, true)
      else if t.log_opens
      then (record s { log_file = some (entries_text s.raft.m_raft_log) }, true)
      else (s, false)

  unfoldable pub persist_raft_locked : Turn → KvServer S → KvServer S × Bool
  unfolding persist_raft_log_locked persist_raft_state_locked
  persist_raft_locked t s =
      let (s', written) = persist_raft_log_locked t s in
      if written then persist_raft_state_locked t s' else (s', false)

-- `state >> member` for the member that the key names, if it names one.
abbrev pub set_index : Bytes → ℤ → RaftLog → Option RaftLog
set_index key z r =
    if key == codes "commit_index"
    then some (record r { m_raft_commit_index = z })
    else if key == codes "last_applied"
    then some (record r { m_raft_last_applied = z })
    else if key == codes "last_included_index"
    then some (record r { m_raft_last_included_index = z })
    else if key == codes "last_included_term"
    then some (record r { m_raft_last_included_term = z })
    else none

abbrev pub set_or_keep : Bytes → ℤ → RaftLog → RaftLog
set_or_keep key z r = elim (set_index key z r) [ none ↦ r | some r' ↦ r' ]

-- The loop of `load_raft_state` on the words of the file. A number may end before its word does, and
-- then the rest of the word is the next key; a number that fails ends the loop.
unfoldable mutual
  pub load_index : Bytes → List Bytes → RaftLog → RaftLog
  load_index key [] r = r
  load_index key (w ∷ ws) r =
      let other = load_index w ws r in
      let numbered : RaftLog = elim (scan_signed w) [
        | none ↦ set_or_keep key (failed_int w) r
        | some (z, rest) ↦
            let next = load_indices ws (set_or_keep key z r) in
            let again = load_index rest ws (set_or_keep key z r) in
            if fits_int z
            then (if is_empty rest then next else again)
            else set_or_keep key (failed_int w) r
      ] in
      elim (set_index key (pos 0) r) [ none ↦ other | some r' ↦ numbered ]

  pub load_indices : List Bytes → RaftLog → RaftLog
  load_indices [] r = r
  load_indices (w ∷ ws) r = load_index w ws r

abbrev pub cleared : RaftLog
cleared = record {
  m_raft_log = [];
  m_raft_commit_index = pos 0;
  m_raft_last_applied = pos 0;
  m_raft_last_included_index = pos 0;
  m_raft_last_included_term = pos 0;
}

-- The block that reads the file of the indices.
unfoldable pub load_state_file : Option Bytes → RaftLog
unfolding load_indices
load_state_file file =
    let r : RaftLog = elim file [
      | none ↦ cleared
      | some text ↦ load_indices (words text) cleared
    ] in
    record r { m_raft_last_applied = min_ℤ r.m_raft_last_applied r.m_raft_commit_index }

-- What is done after the last line of the log.
unfoldable pub clamp_indices : RaftLog → RaftLog
clamp_indices r =
    let commit =
      max_ℤ r.m_raft_last_included_index
        (min_ℤ r.m_raft_commit_index (raft_last_log_index_locked r)) in
    record r {
      m_raft_commit_index = commit;
      m_raft_last_applied = max_ℤ r.m_raft_last_included_index (min_ℤ r.m_raft_last_applied commit);
    }

unfoldable pub load_raft_state : Option Bytes → Option Bytes → RaftLog × Bool
unfolding load_state_file read_entries clamp_indices
load_raft_state log_file state_file =
    let r = load_state_file state_file in
    elim log_file [
      | none ↦ (r, true)
      | some text ↦
          let (es, ok) = read_entries (lines text) in
          let r' : RaftLog = record r { m_raft_log = es } in
          if ok then (clamp_indices r', true) else (r', false)
    ]
