-- ===== src/Examples/ClusterRuns.antt =====
-- The ring of hashes and the router at concrete inputs.
use kv.Prelude.{
  ◌*◌, ◌<◌, ℕ, ◌≡◌, ◌+◌, ◌⊎◌, inl, refl, Bool, true, false, Option, none, some, List, [], ◌∷◌,
  Bytes, codes, arith, length, bytes_eq, bytes_beq, keep, sym, ap, ◌∙◌,
}
use kv.Prelude.Int.{ℤ, pos, ◌+ℤ◌, ltb_ℤ}
use kv.Text.Decimal.{is_space}
use kv.Cluster.ConsistentHash
use kv.Cluster.ConsistentHash.{ClusterNode, build}
use kv.Cluster.ConsistentHash.Ownership.{owner_for-join, owner_for-build}
use kv.Cluster.Router.{
  ClusterRouter, Moment, follower, candidate, leader, meta_text, persist_raft_meta_locked,
  update_log_info,
}
use kv.Cluster.Router.Meta.{IsName}
use kv.Cluster.Router.Replies.{parse-replies}
use kv.Cluster.Router.Election.{
  vote_reply, append_reply, parse_vote_response, parse_append_response, peers_to_ask,
  start_election, begin_election, handle_request_vote, handle_append_entries, enter_term, cast_vote,
}
use kv.Cluster.Router.Votes.{Sound, Later}
use kv.Cluster.Router.OneVote.{Step, step, steps, Grants, one_vote_per_term, steps-Kept}
use kv.Cluster.Router.Majority.{
  granted_by, NoneGreater, begun, asked, counting, election-majority, election-leader,
  start_election-alone,
}
use mathlib.Core.List.{Memᴰ}

abbrev pub hash : Bytes → ℕ
hash s = length s

abbrev pub node_1 : ClusterNode
node_1 = record { id = codes "n1"; host = codes "h1"; port = pos 9006 }

abbrev pub node_2 : ClusterNode
node_2 = record { id = codes "n22"; host = codes "h2"; port = pos 9007 }

abbrev pub node_3 : ClusterNode
node_3 = record { id = codes "n333"; host = codes "h3"; port = pos 9008 }

owner_for-join_example :
    (ConsistentHash.owner_for hash (codes "k") (build hash (node_1 ∷ node_2 ∷ []) 4)
      ≡ ConsistentHash.owner_for hash (codes "k") (build hash (node_1 ∷ []) 4))
    ⊎ (ConsistentHash.owner_for hash (codes "k") (build hash (node_1 ∷ node_2 ∷ []) 4)
        ≡ some node_2)
owner_for-join_example = owner_for-join hash 4 (node_1 ∷ []) node_2 (codes "k")

owner_for-build_example :
    (o : ClusterNode) × (ConsistentHash.owner_for hash
        (codes "key")
        (build hash (node_1 ∷ node_2 ∷ []) 4)
      ≡ some o)
    × Memᴰ o (node_1 ∷ node_2 ∷ [])
owner_for-build_example = owner_for-build hash 3 node_1 (node_2 ∷ []) (codes "key")

parse-replies_example :
    (parse_vote_response (vote_reply (pos 12) true) ≡ some (pos 12, true))
    × (parse_append_response (append_reply (pos 12) true) ≡ some (pos 12, true))
parse-replies_example = parse-replies (pos 12) true refl

name : IsName (codes "n1")
unfolding is_space bytes_beq
name = ((refl, (refl, tt)), refl, refl)

-- Three nodes with three ports.
abbrev pub router : ClusterRouter
router = record {
  m_enabled = true;
  m_local_id = codes "n1";
  m_replication_factor = pos 2;
  m_health_check_interval_ms = pos 1000;
  m_raft_enabled = true;
  m_leader_id = [];
  m_stopping = false;
  m_all_nodes = node_1 ∷ node_2 ∷ node_3 ∷ [];
  m_local_node = node_1;
  m_hash = [];
  m_alive_nodes = [];
  m_last_health_check = pos 0;
  m_role = follower;
  m_current_term = pos 4;
  m_election_count = pos 0;
  m_voted_for = [];
  m_last_log_index = pos 0;
  m_last_log_term = pos 0;
  m_raft_meta_file = codes "raft.meta";
  m_last_heartbeat = pos 0;
  m_election_timeout_ms = pos 1000;
  meta = some (meta_text (pos 4) []);
}

router-Sound : Sound router
router-Sound = record {
  saved = inl refl;
  fits = refl;
  vote = inl refl;
  local = name;
  has_file = refl;
}

abbrev moment : Moment
moment = record { now = pos 5000; jitter = 17; opened = true }

IsName-22 : IsName (codes "n22")
unfolding is_space bytes_beq
IsName-22 = ((refl, (refl, (refl, tt))), refl, refl)

abbrev between : List Step
between = Step.append_entries moment (pos 5) (codes "n22") ∷ Step.log_info (pos 1) (pos 5) ∷ []

abbrev after_vote : ClusterRouter
after_vote = step hash (Step.request_vote moment (pos 5) (codes "n22") (pos 3) (pos 4)) router

first_vote : Grants hash moment (pos 5) (codes "n22") (pos 3) (pos 4) router
unfolding handle_request_vote enter_term cast_vote persist_raft_meta_locked
first_vote = refl

second_vote :
    Grants hash moment (pos 5) (codes "n22") (pos 9) (pos 5) (steps hash between after_vote)
unfolding step steps handle_request_vote handle_append_entries enter_term cast_vote
    persist_raft_meta_locked update_log_info bytes_beq
second_vote = refl

one_vote_per_term_example : codes "n22" ≡ codes "n22"
one_vote_per_term_example =
    one_vote_per_term hash moment moment (pos 5) (codes "n22") (codes "n22") (pos 3) (pos 4) (pos 9)
      (pos 5) between router router-Sound (refl, refl, IsName-22) ((refl, refl), (tt, tt))
      (refl, refl, IsName-22) first_vote second_vote

steps-Kept_example : Sound (steps hash between router) × Later router (steps hash between router)
steps-Kept_example = steps-Kept hash between router ((refl, refl), (tt, tt)) router-Sound

-- The peers respond with their vote for the term 5.
abbrev forward : ClusterNode → Bytes → Bytes
forward n request = vote_reply (pos 5) true

peers : peers_to_ask hash router ≡ node_2 ∷ node_3 ∷ []
unfolding keep bytes_beq
peers = refl

heard :
    (request : Bytes) (n : ClusterNode)
    → parse_vote_response (forward n request) ≡ some (pos 5, true)
heard request n = (parse-replies (pos 5) true refl).0

begun_term : (begun hash moment forward router).m_current_term ≡ pos 5
unfolding begin_election persist_raft_meta_locked ◌+ℤ◌
begun_term = refl

none_greater :
    NoneGreater forward
      (asked hash moment forward router)
      (begun hash moment forward router).m_current_term
      (node_2 ∷ node_3 ∷ [])
none_greater = (no_more node_2, (no_more node_3, tt))
  where
    no_more :
        (n : ClusterNode) (t : ℤ) (g : Bool)
        → parse_vote_response (forward n (asked hash moment forward router)) ≡ some (t, g)
        → ltb_ℤ (begun hash moment forward router).m_current_term t ≡ false
    no_more n t g e = rw begun_term (below (sym (heard (asked hash moment forward router) n) ∙ e))
      where
        below :
            ◌≡◌ {A = Option (ℤ × Bool)} (some (pos 5, true)) (some (t, g)) → ltb_ℤ (pos 5) t ≡ false
        below e = ap (λ o. elim o [ none ↦ true | some (z, _) ↦ ltb_ℤ (pos 5) z ]) (sym e)

enough :
    length router.m_all_nodes
    < 2
      * (1
          + granted_by forward
              (asked hash moment forward router)
              (begun hash moment forward router).m_current_term
              (node_2 ∷ node_3 ∷ []))
enough =
    rw
      (
        granted_by,
        heard (asked hash moment forward router) node_2,
        heard (asked hash moment forward router) node_3,
      )
      (omega arith)

election-leader_example :
    ((counting hash moment forward router).1 ≡ true)
    × ((counting hash moment forward router).0.m_role ≡ leader)
    × ((counting hash moment forward router).0.m_current_term
        ≡ (begun hash moment forward router).m_current_term)
election-leader_example =
    election-leader hash moment forward router node_2 (node_3 ∷ []) refl peers none_greater enough

elected : (counting hash moment forward router).1 ≡ true
elected =
    (election-leader hash moment forward router node_2 (node_3 ∷ []) refl peers none_greater
      enough).0

election-majority_example :
    length router.m_all_nodes
    < 2
      * (1
          + granted_by forward
              (asked hash moment forward router)
              (begun hash moment forward router).m_current_term
              (peers_to_ask hash (begun hash moment forward router)))
election-majority_example = election-majority hash moment forward router refl elected

-- Two nodes on two hosts, with one port.
abbrev same_port : ClusterRouter
same_port = record router {
  m_all_nodes = node_1 ∷ record { id = codes "n2"; host = codes "h2"; port = pos 9006 } ∷ [];
}

no_peers : peers_to_ask hash same_port ≡ []
unfolding keep bytes_beq
no_peers = refl

start_election-alone_example : (start_election hash moment forward same_port).m_role ≡ candidate
start_election-alone_example = start_election-alone hash moment forward same_port no_peers
