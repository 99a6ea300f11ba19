-- ===== src/Cluster/Router/Election.antt =====
-- src/cluster/router.cpp: votes, heartbeats and elections. A response of a peer is an argument; each
-- definition that changes the state is one critical section, and other calls may come between two.
use kv.Prelude.{
  ℕ, suc, Bool, true, false, not, ◌&&◌, ◌||◌, Option, none, some, List, [], ◌∷◌, ◌++◌, Bytes, codes,
  is_empty, if◌then◌else◌, ◌==◌, bytes_eq, keep, leb,
}
use kv.Prelude.Int.{ℤ, pos, ◌+ℤ◌, ◌-ℤ◌, ltb_ℤ, leb_ℤ, eqb_ℤ}
use kv.Text.Decimal.{print}
use kv.Text.Words.{words, read_int}
use kv.Cluster.ConsistentHash.{ClusterNode}
use kv.Cluster.Router.{
  ClusterRouter, Moment, follower, candidate, leader, is_leader_role, is_candidate_role,
  raft_enabled, majority_size, persist_raft_meta_locked, election_timeout_ms,
}

abbrev pub flag : Bool → Bytes
flag b = if b then codes "1" else codes "0"

unfoldable pub vote_reply : ℤ → Bool → Bytes
vote_reply term granted =
    codes "RAFT_VOTE" ++ b' ' ∷ (print term ++ b' ' ∷ (flag granted ++ b'\n' ∷ []))

unfoldable pub append_reply : ℤ → Bool → Bytes
append_reply term success =
    codes "RAFT_APPEND" ++ b' ' ∷ (print term ++ b' ' ∷ (flag success ++ b'\n' ∷ []))

-- `input >> tag >> term >> value` of a response, for the tag.
unfoldable pub parse_response : Bytes → Bytes → Option (ℤ × Bool)
parse_response expected response = elim (words response) [
  | [] ↦ none
  | tag ∷ ws ↦ elim (read_int ws) [
    | none ↦ none
    | some (term, ws') ↦ elim (read_int ws') [
      | none ↦ none
      | some (value, _) ↦ if tag == expected then some (term, eqb_ℤ value (pos 1)) else none
    ]
  ]
]

unfoldable pub parse_vote_response : Bytes → Option (ℤ × Bool)
unfolding parse_response
parse_vote_response response = parse_response (codes "RAFT_VOTE") response

unfoldable pub parse_append_response : Bytes → Option (ℤ × Bool)
unfolding parse_response
parse_append_response response = parse_response (codes "RAFT_APPEND") response

abbrev pub log_is_up_to_date : ℤ → ℤ → ClusterRouter → Bool
log_is_up_to_date last_log_index last_log_term r =
    ltb_ℤ r.m_last_log_term last_log_term
    || (eqb_ℤ last_log_term r.m_last_log_term && leb_ℤ r.m_last_log_index last_log_index)

-- What is done on a term that is greater than the current one.
unfoldable pub enter_term : Moment → ℤ → ClusterRouter → ClusterRouter
enter_term m term r =
    persist_raft_meta_locked m
      (record r { m_current_term = term; m_role = follower; m_voted_for = []; m_leader_id = [] })

-- What a turn of the loop over the peers ends with.
pub data Progress : Type 0 where
  goes_on : ℕ → Progress
  stepped_down : Progress
  won : Progress

module _ (hasher : Bytes → ℕ) where
  unfoldable pub cast_vote : Moment → Bytes → ClusterRouter → ClusterRouter
  cast_vote m candidate_id r = persist_raft_meta_locked m (record r {
    m_voted_for = candidate_id;
    m_role = follower;
    m_last_heartbeat = m.now;
    m_election_timeout_ms = election_timeout_ms hasher m r;
  })

  unfoldable pub handle_request_vote :
      Moment → ℤ → Bytes → ℤ → ℤ → ClusterRouter → ClusterRouter × Bytes
  unfolding enter_term cast_vote
  handle_request_vote m term candidate_id last_log_index last_log_term r =
      let entered = if ltb_ℤ r.m_current_term term then enter_term m term r else r in
      let granted =
        log_is_up_to_date last_log_index last_log_term entered
        && (is_empty entered.m_voted_for || (entered.m_voted_for == candidate_id)) in
      if ltb_ℤ term r.m_current_term
      then (r, vote_reply r.m_current_term false)
      else if granted
      then (cast_vote m candidate_id entered, vote_reply entered.m_current_term true)
      else (entered, vote_reply entered.m_current_term false)

  unfoldable pub handle_append_entries : Moment → ℤ → Bytes → ClusterRouter → ClusterRouter × Bytes
  handle_append_entries m term leader_id r =
      let entered =
        if ltb_ℤ r.m_current_term term
        then persist_raft_meta_locked m (record r { m_current_term = term; m_voted_for = [] })
        else r in
      if ltb_ℤ term r.m_current_term then (r, append_reply r.m_current_term false) else (
        record entered {
          m_role = follower;
          m_leader_id = leader_id;
          m_last_heartbeat = m.now;
          m_election_timeout_ms = election_timeout_ms hasher m entered;
        },
        append_reply entered.m_current_term true,
      )

  -- The peers that an election and a heartbeat go to.
  abbrev pub peers_to_ask : ClusterRouter → List ClusterNode
  peers_to_ask r =
      keep (λ n. not ((n.id == r.m_local_id) || eqb_ℤ n.port r.m_local_node.port)) r.m_all_nodes

  -- The first critical section of `start_election`; the term of the election is the new one.
  unfoldable pub begin_election : Moment → ClusterRouter → ClusterRouter
  begin_election m r = persist_raft_meta_locked m (record r {
    m_role = candidate;
    m_current_term = r.m_current_term +ℤ pos 1;
    m_election_count = r.m_election_count +ℤ pos 1;
    m_voted_for = r.m_local_id;
    m_leader_id = [];
    m_last_heartbeat = m.now;
    m_election_timeout_ms = election_timeout_ms hasher m r;
  })

  unfoldable pub vote_request : ℤ → ClusterRouter → Bytes
  vote_request term r =
      codes "RAFT_REQUEST_VOTE"
      ++ b' '
        ∷ (print term
            ++ b' '
              ∷ (r.m_local_id
                  ++ b' '
                    ∷ (print r.m_last_log_index ++ b' ' ∷ (print r.m_last_log_term ++ b'\n' ∷ []))))

  -- The section that a greater term in a response leads to, in an election and in a heartbeat.
  unfoldable pub step_down : Moment → ℤ → ClusterRouter → ClusterRouter
  unfolding enter_term
  step_down m response_term r =
      if ltb_ℤ r.m_current_term response_term then enter_term m response_term r else r

  -- The section that enough votes lead to.
  unfoldable pub win : Moment → ℤ → ClusterRouter → ClusterRouter
  win m term r =
      if is_candidate_role r.m_role && eqb_ℤ r.m_current_term term
      then record r { m_role = leader; m_leader_id = r.m_local_id; m_last_heartbeat = m.now }
      else r

  -- A turn of the loop of `start_election`: the response of a peer is counted.
  unfoldable pub count_response : Moment → ℤ → ℕ → Bytes → ClusterRouter → ClusterRouter × Progress
  unfolding step_down win
  count_response m term votes response r =
      let counted = λ (votes : ℕ).
        (if leb (majority_size r) votes then (win m term r, won) else (r, goes_on votes)) in
      elim (parse_vote_response response) [
        | none ↦ counted votes
        | some (response_term, granted) ↦
            if ltb_ℤ term response_term
            then (step_down m response_term r, stepped_down)
            else counted (if granted then suc votes else votes)
      ]

  -- The loop of `start_election` where no other call comes between; `forward` is what the peers
  -- respond. The third part of the result says whether the heartbeats are sent at the end.
  unfoldable pub collect_votes :
      Moment
      → (ClusterNode → Bytes → Bytes)
      → Bytes
      → ℤ
      → ℕ
      → List ClusterNode
      → ClusterRouter
      → ClusterRouter × Bool
  unfolding count_response
  collect_votes m forward request term votes [] r = (r, false)
  collect_votes m forward request term votes (n ∷ ns) r =
      let (r', progress) = count_response m term votes (forward n request) r in
      elim progress [
        | goes_on votes' ↦ collect_votes m forward request term votes' ns r'
        | stepped_down ↦ (r', false)
        | won ↦ (r', true)
      ]

  -- The first section of `send_heartbeats`: the term to send, if this node is the leader.
  unfoldable pub begin_heartbeats : ClusterRouter → ClusterRouter × Option ℤ
  begin_heartbeats r =
      if is_leader_role r.m_role
      then (record r { m_leader_id = r.m_local_id }, some r.m_current_term)
      else (r, none)

  unfoldable pub heartbeat : ℤ → ClusterRouter → Bytes
  heartbeat term r =
      codes "RAFT_APPEND_ENTRIES" ++ b' ' ∷ (print term ++ b' ' ∷ (r.m_local_id ++ b'\n' ∷ []))

  -- The loop of `send_heartbeats`.
  unfoldable pub heartbeat_peers :
      Moment
      → (ClusterNode → Bytes → Bytes)
      → Bytes
      → ℤ
      → List ClusterNode
      → ClusterRouter
      → ClusterRouter
  unfolding step_down
  heartbeat_peers m forward request term [] r = r
  heartbeat_peers m forward request term (n ∷ ns) r =
      let rest = heartbeat_peers m forward request term ns r in
      elim (parse_append_response (forward n request)) [
        | none ↦ rest
        | some (response_term, _) ↦
            if ltb_ℤ term response_term then step_down m response_term r else rest
      ]

  unfoldable pub send_heartbeats :
      Moment → (ClusterNode → Bytes → Bytes) → ClusterRouter → ClusterRouter
  unfolding begin_heartbeats heartbeat_peers
  send_heartbeats m forward r =
      let (r', sending) = begin_heartbeats r in
      elim sending [
        | none ↦ r'
        | some term ↦ heartbeat_peers m forward (heartbeat term r') term (peers_to_ask r') r'
      ]

  unfoldable pub start_election :
      Moment → (ClusterNode → Bytes → Bytes) → ClusterRouter → ClusterRouter
  unfolding begin_election collect_votes send_heartbeats
  start_election m forward r =
      let begun = begin_election m r in
      let (r', elected) =
        collect_votes m forward (vote_request begun.m_current_term begun) begun.m_current_term 1
          (peers_to_ask begun) begun in
      if elected then send_heartbeats m forward r' else r'

  -- A turn of `raft_loop` after its sleep; `last_sent` is `last_heartbeat_sent`.
  unfoldable pub raft_tick :
      Moment → (ClusterNode → Bytes → Bytes) → ℤ → ClusterRouter → ClusterRouter × ℤ
  unfolding start_election send_heartbeats
  raft_tick m forward last_sent r =
      if not (raft_enabled r)
      then (r, last_sent)
      else if is_leader_role r.m_role
      then (if leb_ℤ (pos 300) (m.now -ℤ last_sent)
          then (send_heartbeats m forward r, m.now)
          else (r, last_sent))
      else if leb_ℤ r.m_election_timeout_ms (m.now -ℤ r.m_last_heartbeat)
      then (start_election m forward r, m.now)
      else (r, last_sent)
