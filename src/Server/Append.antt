-- ===== src/Server/Append.antt =====
-- src/app/kv_server.cpp: `handle_raft_append_entries`, and the snapshot that a leader installs.
pub mod Merge
use kv.Prelude.{
  ℕ, Bool, true, false, not, ◌&&◌, ◌||◌, Option, none, some, List, [], ◌∷◌, ◌++◌, Bytes, codes,
  is_empty, if◌then◌else◌, ◌==◌, bytes_eq, length, take, ◌>>=◌,
}
use kv.Prelude.Int.{ℤ, pos, negsuc, ◌+ℤ◌, ◌-ℤ◌, ltb_ℤ, leb_ℤ, eqb_ℤ, min_ℤ, max_ℤ}
use kv.Text.Decimal.{print}
use kv.Text.Split.{lines}
use kv.Text.Words.{words, read_long}
use kv.Protocol.{Request}
use kv.Protocol.Hex.{decode_hex}
use kv.Storage.Memory.{StoreEntry}
use kv.Cluster.Router.Election.{flag, handle_append_entries}
use kv.Server.{
  RaftLogEntry, RaftLog, KvServer, Turn, raft_last_log_index_locked, raft_term_at_locked,
  erase_from, push_entry, report_log, with_store,
}
use kv.Server.Store.{StoreMethods}
use kv.Server.Responses.{starts_with}
use kv.Server.Codec.{type_of_op, decode_raft_entries_payload, field, read_word}
use kv.Server.Files.{persist_raft_locked, persist_raft_log_locked}
use kv.Server.Apply.{apply_committed_raft_entries_locked, compacted}

-- `text.find(part) != npos`.
unfoldable pub contains : Bytes → Bytes → Bool
contains part [] = is_empty part
contains part (c ∷ s) = let later = contains part s in starts_with part (c ∷ s) || later

unfoldable pub raft_reply : ℤ → Bool → ℤ → Bytes
raft_reply term success index =
    field (codes "RAFT_APPEND")
      (field (print term) (field (flag success) (print index ++ codes "\n")))

unfoldable pub snapshot_reply : ℤ → Bool → Bytes
snapshot_reply term success =
    field (codes "RAFT_SNAPSHOT") (field (print term) (flag success ++ codes "\n"))

-- There is an entry at the index, and it is of another term.
abbrev pub conflicts : ℤ → ℤ → RaftLog → Bool
conflicts index term r =
    let existing = raft_term_at_locked index r in
    not (eqb_ℤ existing (negsuc 0)) && not (eqb_ℤ existing term)

abbrev pub cut_conflict : ℤ → ℤ → RaftLog → RaftLog
cut_conflict index term r = if conflicts index term r then erase_from index r else r

abbrev pub is_next : ℤ → RaftLog → Bool
is_next index r = eqb_ℤ index (raft_last_log_index_locked r +ℤ pos 1)

-- A turn of the loop over the entries of a batch, after its two tests.
unfoldable pub place_entry : RaftLogEntry → RaftLog → RaftLog
place_entry e r =
    let r' = cut_conflict e.index e.term r in if is_next e.index r' then push_entry e r' else r'

-- The loop; `false` is its early return.
unfoldable pub append_batch : ℤ → List RaftLogEntry → RaftLog → RaftLog × Bool
append_batch expected_index [] r = (r, true)
append_batch expected_index (e ∷ es) r =
    let next = append_batch (expected_index +ℤ pos 1) es (place_entry e r) in
    if not (eqb_ℤ e.index expected_index)
    then (r, false)
    else if ltb_ℤ (raft_last_log_index_locked r +ℤ pos 1) e.index
    then (r, false)
    else next

-- The entry before those that are sent is of another term: it is erased, and what was applied or
-- committed from there on counts no more.
unfoldable pub drop_from : ℤ → RaftLog → RaftLog
drop_from prev r =
    let before = λ (index : ℤ). (if leb_ℤ prev index then prev -ℤ pos 1 else index) in
    record (erase_from prev r) {
      m_raft_commit_index = before r.m_raft_commit_index;
      m_raft_last_applied = before r.m_raft_last_applied;
    }

-- The entry that a request with one entry holds.
abbrev pub single_entry : Request → Option RaftLogEntry
single_entry request = do
  type ← type_of_op request.raft_op
  some (record {
    index = request.log_index;
    term = request.log_term;
    type = type;
    key = request.key;
    value = request.value;
    ttl_seconds = request.ttl_seconds;
  })

module _ {S : Type 0} where
  abbrev pub reply_with : Bool → ℤ → KvServer S → Bytes
  reply_with success index s = raft_reply s.m_router.m_current_term success index

  -- `false`, with the last index.
  abbrev pub refuse : KvServer S → KvServer S × Bytes
  refuse s = (s, reply_with false (raft_last_log_index_locked s.raft) s)

  unfoldable pub append_single : Turn → Request → KvServer S → KvServer S
  append_single t request s =
      let s' : KvServer S =
        (if conflicts request.log_index request.log_term s.raft
          then (persist_raft_locked t (record s { raft = erase_from request.log_index s.raft })).0
          else s) in
      if not (is_next request.log_index s'.raft) then s' else elim (single_entry request) [
        | none ↦ s'
        | some e ↦
            report_log (persist_raft_log_locked t (record s' { raft = push_entry e s'.raft })).0
      ]

-- A line of a snapshot that is not empty.
unfoldable pub read_store_entry : Bytes → Option StoreEntry
read_store_entry line = do
  (key_hex, ws) ← read_word (words line)
  (value_hex, ws') ← read_word ws
  (expire_at_ms, _) ← read_long ws'
  key ← decode_hex key_hex
  value ← decode_hex value_hex
  some (record { key = key; value = value; expire_at_ms = expire_at_ms })

-- The loop of `install_snapshot_payload`; a line that is not an entry ends it.
unfoldable pub read_store_entries : List Bytes → Option (List StoreEntry)
read_store_entries [] = some []
read_store_entries (line ∷ rest) =
    let es = read_store_entries rest in
    if is_empty line then es else (do e ← read_store_entry line; es' ← es; some (e ∷ es'))

-- The indices and the log once the snapshot is in the store.
abbrev pub installed : Request → RaftLog → RaftLog
installed request r = record (compacted request.last_log_index request.last_log_term r) {
  m_raft_commit_index = max_ℤ r.m_raft_commit_index request.last_log_index;
  m_raft_last_applied = max_ℤ r.m_raft_last_applied request.last_log_index;
}

module _ {S : Type 0} (methods : StoreMethods S) where
  -- The end of the handler: the commit index follows the leader's.
  unfoldable pub follow_commit : Turn → Request → KvServer S → KvServer S × Bytes
  follow_commit t request s =
      let commit = min_ℤ request.leader_commit (raft_last_log_index_locked s.raft) in
      let s' : KvServer S =
        (if ltb_ℤ s.raft.m_raft_commit_index request.leader_commit
          then apply_committed_raft_entries_locked methods t
              (record s { raft = record s.raft { m_raft_commit_index = commit } })
          else s) in
      (s', reply_with true (raft_last_log_index_locked s'.raft) s')

  unfoldable pub take_batch : Turn → Request → KvServer S → KvServer S × Bytes
  take_batch t request s =
      let entries = decode_raft_entries_payload request.snapshot_payload in
      let (r, ok) = append_batch (request.prev_log_index +ℤ pos 1) entries s.raft in
      if not (eqb_ℤ (pos (length entries)) request.entry_count)
      then refuse s
      else if not ok
      then refuse (record s { raft = r })
      else follow_commit t request
          (report_log (persist_raft_log_locked t (record s { raft = r })).0)

  -- The handler from where it holds the mutex of the log.
  unfoldable pub append_locked : Turn → Request → KvServer S → KvServer S × Bytes
  append_locked t request s =
      let prev = request.prev_log_index in
      let last = raft_last_log_index_locked s.raft in
      if ltb_ℤ prev s.raft.m_raft_last_included_index
      then (s, reply_with false s.raft.m_raft_last_included_index s)
      else if ltb_ℤ last prev
      then (s, reply_with false last s)
      else if ltb_ℤ (pos 0) prev
          && not (eqb_ℤ (raft_term_at_locked prev s.raft) request.prev_log_term)
      then refuse (report_log (persist_raft_locked t (record s { raft = drop_from prev s.raft })).0)
      else if ltb_ℤ (pos 0) request.entry_count
      then take_batch t request s
      else if ltb_ℤ (pos 0) request.log_index
      then (if ltb_ℤ (last +ℤ pos 1) request.log_index
          then refuse s
          else follow_commit t request (append_single t request s))
      else follow_commit t request s

  unfoldable pub handle_raft_append_entries :
      (Bytes → ℕ) → Turn → Request → KvServer S → KvServer S × Bytes
  unfolding contains
  handle_raft_append_entries hasher t request s =
      let (router, heartbeat) =
        handle_append_entries hasher t.moment request.term request.node_id s.m_router in
      let s' : KvServer S = record s { m_router = router } in
      if not (starts_with (codes "RAFT_APPEND ") heartbeat) || contains (codes " 0") heartbeat
      then refuse s'
      else append_locked t request s'

  unfoldable pub install_snapshot_payload : Bytes → S → S × Bool
  install_snapshot_payload payload s = elim (read_store_entries (lines payload)) [
    | none ↦ (s, false)
    | some entries ↦ methods.replace_with_snapshot entries s
  ]

  -- The branch of `process_request_line` for a snapshot of the leader: the heartbeat and the first
  -- section that holds the mutex of the log, with the answer if there is one already,
  unfoldable pub admit_snapshot :
      (Bytes → ℕ) → Turn → Request → KvServer S → KvServer S × Option Bytes
  admit_snapshot hasher t request s =
      let (router, heartbeat) =
        handle_append_entries hasher t.moment request.term request.node_id s.m_router in
      let answer = λ (success : Bool). snapshot_reply router.m_current_term success in
      (
        record s { m_router = router },
        if contains (codes " 0") heartbeat
            then some (answer false)
            else if leb_ℤ request.last_log_index s.raft.m_raft_last_included_index
            then some (answer true)
            else none,
      )

  -- and the second section, after the payload is in the store and the mutex was free in between.
  unfoldable pub set_base : Turn → Request → KvServer S → KvServer S
  set_base t request s =
      report_log (persist_raft_locked t (record s { raft = installed request s.raft })).0

  -- The whole branch, where no other thread comes between its sections.
  unfoldable pub handle_install_snapshot :
      (Bytes → ℕ) → Turn → Request → KvServer S → KvServer S × Bytes
  unfolding admit_snapshot set_base
  handle_install_snapshot hasher t request s =
      let (admitted, early) = admit_snapshot hasher t request s in
      let (stored, ok) = with_store (install_snapshot_payload request.snapshot_payload) admitted in
      let based = set_base t request stored in
      elim early [
        | some reply ↦ (admitted, reply)
        | none ↦
            if ok
            then (based, snapshot_reply based.m_router.m_current_term true)
            else (stored, snapshot_reply stored.m_router.m_current_term false)
      ]
