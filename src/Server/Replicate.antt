-- ===== src/Server/Replicate.antt =====
-- src/app/kv_server.cpp: `replicate_raft_write`. `forward` is what a follower responds to the message
-- of a number; no other call comes between the sections that hold the mutex.
pub mod Quorum
pub mod Kept
pub mod Commits
pub mod Majority
pub mod Ends
use kv.Prelude.{
  ℕ, zero, suc, ◌+◌, Bool, true, false, not, ◌&&◌, ◌||◌, Option, none, some, List, [], ◌∷◌, ◌++◌,
  Bytes, codes, if◌then◌else◌, ◌==◌, bytes_eq, ltb, leb, length, get_elem?, keep, is_empty, ◌>>=◌,
}
use kv.Prelude.Int.{ℤ, pos, ◌+ℤ◌, ◌-ℤ◌, ltb_ℤ, leb_ℤ, eqb_ℤ, pos_part}
use kv.Protocol.{Request, CommandType, put_command}
use kv.Cluster.ConsistentHash.{ClusterNode}
use kv.Cluster.Router.Placement.{raft_followers}
use kv.Cluster.Router.{ClusterRouter, raft_enabled, majority_size}
use kv.Server.{
  RaftLogEntry, RaftLog, KvServer, Turn, raft_last_log_index_locked, raft_last_log_term_locked,
  push_entry, report_log, with_router,
}
use kv.Server.Store.{StoreMethods}
use kv.Server.Codec.{
  encode_raft_append_batch, encode_raft_commit, encode_raft_snapshot, parse_raft_append_response,
  parse_raft_snapshot_response,
}
use kv.Server.Files.{persist_raft_log_locked}
use kv.Server.Apply.{apply_committed_raft_entries_locked}
use kv.Server.Responses.{resp_simple, resp_error, resp_integer, text_response, in_protocol}

-- What a write takes of the log before it gives up the mutex.
pub record Round : Type 0 where
  pub entry : RaftLogEntry
  pub log_snapshot : List RaftLogEntry
  pub commit_snapshot : ℤ
  pub snapshot_index : ℤ
  pub snapshot_term : ℤ

-- How a turn of the loop over one follower ends.
pub data Attempt : Type 0 where
  goes_on : ℤ → Attempt
  replicated : Attempt
  fails : Attempt

-- The entries from an offset on, so many of them; `none` means that they are not all there.
unfoldable pub entries_from : ℕ → ℕ → List RaftLogEntry → Option (List RaftLogEntry)
entries_from zero offset log = some []
entries_from (suc n) offset log = do
  e ← get_elem? log offset
  es ← entries_from n (suc offset) log
  some (e ∷ es)

-- The term of the entry before those to send; `none` is an offset out of range.
unfoldable pub prev_term_of : ℤ → Round → Option ℤ
prev_term_of prev_index round =
    if eqb_ℤ prev_index round.snapshot_index
    then some round.snapshot_term
    else if ltb_ℤ round.snapshot_index prev_index
    then (do
      e ← get_elem? round.log_snapshot (pos_part (prev_index -ℤ round.snapshot_index -ℤ pos 1))
      some e.term)
    else some (pos 0)

abbrev pub entries_to_send : ℤ → Round → List RaftLogEntry
entries_to_send next_index round =
    elim (entries_from (pos_part (round.entry.index -ℤ next_index +ℤ pos 1))
      (pos_part (next_index -ℤ round.snapshot_index -ℤ pos 1)) round.log_snapshot) [
        | none ↦ []
        | some es ↦ es
      ]

-- What a response to a snapshot leads to.
unfoldable pub after_snapshot : Round → Bytes → Attempt
after_snapshot round response = elim (parse_raft_snapshot_response response) [
  | none ↦ fails
  | some (response_term, success) ↦
      if ltb_ℤ round.entry.term response_term || not success
      then fails
      else goes_on (round.snapshot_index +ℤ pos 1)
]

-- What a response to a batch from `next_index` on leads to.
unfoldable pub after_batch : Round → ℤ → Bytes → Attempt
after_batch round next_index response = elim (parse_raft_append_response response) [
  | none ↦ fails
  | some (response_term, success, match_index) ↦
      if ltb_ℤ round.entry.term response_term
      then fails
      else if success
      then (if leb_ℤ round.entry.index match_index
          then replicated
          else goes_on (match_index +ℤ pos 1))
      else if ltb_ℤ match_index (next_index -ℤ pos 1)
      then goes_on (match_index +ℤ pos 1)
      else fails
]

module _ {S : Type 0} where
  -- `m_replication_failures_total.fetch_add(1)`
  abbrev pub count_failure : KvServer S → KvServer S
  count_failure s = record s { m_replication_failures_total = suc s.m_replication_failures_total }

  abbrev pub counted : Attempt → KvServer S → KvServer S × Attempt
  counted fails s = (count_failure s, fails)
  counted a s = (s, a)

  -- The batch that is sent from `next_index` on, if there is one.
  unfoldable pub batch_message : Round → ℤ → KvServer S → Option Bytes
  batch_message round next_index s = elim (prev_term_of (next_index -ℤ pos 1) round) [
    | none ↦ none
    | some prev_term ↦
        let to_send = entries_to_send next_index round in
        if is_empty to_send
        then none
        else some (
            encode_raft_append_batch s.m_router.m_local_id s.m_router.m_current_term to_send
              (next_index -ℤ pos 1) prev_term round.commit_snapshot)
  ]

  -- The first section: the entry goes into the log of the leader.
  unfoldable pub append_own : Turn → Request → KvServer S → KvServer S × Round
  append_own t request s =
      let entry : RaftLogEntry = record {
        index = raft_last_log_index_locked s.raft +ℤ pos 1;
        term = s.m_router.m_current_term;
        type = request.type;
        key = request.key;
        value = request.value;
        ttl_seconds = request.ttl_seconds;
      } in
      let s' : KvServer S =
        report_log (persist_raft_log_locked t (record s { raft = push_entry entry s.raft })).0 in
      (
        s',
        record {
          entry = entry;
          log_snapshot = s'.raft.m_raft_log;
          commit_snapshot = s'.raft.m_raft_commit_index;
          snapshot_index = s'.raft.m_raft_last_included_index;
          snapshot_term = s'.raft.m_raft_last_included_term;
        },
      )

  -- `m_router.raft_followers()`
  abbrev pub followers_of :
      (Bytes → ℕ) → Turn → (ClusterNode → Bool) → KvServer S → KvServer S × List ClusterNode
  followers_of hasher t ping s = with_router (raft_followers hasher t.moment.now ping) s

  abbrev pub no_quorum : Request → KvServer S → KvServer S × Bytes
  no_quorum request s = (
    count_failure s,
    in_protocol request.protocol (resp_error (codes "ERROR raft_no_quorum"))
        (text_response (codes "ERROR raft_no_quorum")),
  )

abbrev pub write_reply : Request → Bytes
write_reply request =
    in_protocol request.protocol
      (elim request.type [ put_command ↦ resp_simple (codes "OK") | _ ↦ resp_integer (pos 1) ])
      (text_response (codes "OK"))

module _ {S : Type 0} where
  -- The message that every follower gets at the end.
  abbrev pub commit_message : Round → KvServer S → Bytes
  commit_message round s =
      encode_raft_commit s.m_router.m_local_id round.entry.term s.raft.m_raft_commit_index
        (raft_last_log_index_locked s.raft) (raft_last_log_term_locked s.raft)

module _ {S : Type 0} (methods : StoreMethods S) where
  -- The section that a majority leads to.
  unfoldable pub commit_entry : Turn → Round → KvServer S → KvServer S
  commit_entry t round s =
      if ltb_ℤ s.raft.m_raft_commit_index round.entry.index
      then apply_committed_raft_entries_locked methods t
          (record s { raft = record s.raft { m_raft_commit_index = round.entry.index } })
      else s

module _ {S : Type 0} (methods : StoreMethods S) (forward : ℕ → ClusterNode → Bytes → Bytes) where
  -- A turn of the loop over one follower, with the message of the number `n`.
  unfoldable pub attempt : Round → ClusterNode → ℕ → ℤ → KvServer S → KvServer S × Attempt
  attempt round follower n next_index s =
      let (store, entries) = methods.snapshot_entries s.m_store in
      let snapshot = encode_raft_snapshot s.m_router.m_local_id round.entry.term s.raft entries in
      if leb_ℤ next_index round.snapshot_index
      then counted (after_snapshot round (forward n follower snapshot))
          (record s { m_store = store })
      else elim (batch_message round next_index s) [
        | none ↦ counted fails s
        | some message ↦ counted (after_batch round next_index (forward n follower message)) s
      ]

  -- The loop over one follower, of so many turns at most; `none` means that they were not enough.
  -- The result has the number of the next message and whether the entry is replicated.
  unfoldable pub replicate_to :
      ℕ → Round → ClusterNode → ℕ → ℤ → KvServer S → Option (KvServer S × ℕ × Bool)
  replicate_to zero round follower n next_index s = none
  replicate_to (suc turns) round follower n next_index s =
      elim (leb_ℤ next_index round.entry.index && ltb_ℤ (pos 0) next_index) [
        | false ↦ some (s, n, false)
        | true ↦
            let (s', a) = attempt round follower n next_index s in
            elim a [
              | goes_on next ↦ replicate_to turns round follower (suc n) next s'
              | replicated ↦ some (s', suc n, true)
              | fails ↦ some (s', suc n, false)
            ]
      ]

  -- The loop over the followers, with the acknowledgements so far.
  unfoldable pub replicate_all :
      ℕ → Round → List ClusterNode → ℕ → ℕ → KvServer S → Option (KvServer S × ℕ × ℕ)
  replicate_all turns round [] n acks s = some (s, n, acks)
  replicate_all turns round (f ∷ fs) n acks s = do
    (s', n', done) ← replicate_to turns round f n round.entry.index s
    replicate_all turns round fs n' (if done then suc acks else acks) s'

  -- The response to the client, and the commit messages with their receivers.
  unfoldable pub replicate_raft_write :
      (Bytes → ℕ)
      → Turn
      → (ClusterNode → Bool)
      → ℕ
      → Request
      → KvServer S
      → Option (KvServer S × Bytes × List ClusterNode × Bytes)
  replicate_raft_write hasher t ping turns request s = do
    let (s1, round) = append_own t request s
    let (s2, followers) = followers_of hasher t ping s1
    (s3, n, acks) ← replicate_all turns round followers 0 1 s2
    let s4 = commit_entry methods t round s3
    let (s5, told) = followers_of hasher t ping s4
    let (refused, error) = no_quorum request s3
    some (
        if ltb acks (majority_size s3.m_router)
        then (refused, error, [], [])
        else (s5, write_reply request, told, commit_message round s4))
