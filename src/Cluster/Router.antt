-- ===== src/Cluster/Router.antt =====
-- src/cluster/router.{h,cpp}: the state of a `ClusterRouter`, its accessors, its file of terms and
-- votes, and `init`. The clock, the random part of a timeout and whether the file opens are
-- arguments; a lock is held for the whole of each definition that changes the state.
pub mod Placement
pub mod Meta
pub mod Replies
pub mod Votes
pub mod OneVote
pub mod Majority
pub mod Replicas
pub mod Election
use kv.Prelude.{
  ℕ, zero, suc, ◌+◌, ◌/◌, ◌%◌, Bool, true, false, not, ◌&&◌, ◌||◌, Option, none, some, List, [],
  ◌∷◌, ◌++◌, Bytes, codes, is_empty, if◌then◌else◌, ◌==◌, bytes_eq, length, keep,
}
use kv.Prelude.Int.{ℤ, pos, negsuc, ◌-ℤ◌, ltb_ℤ, eqb_ℤ}
use kv.Text.Decimal.{print, scan_signed}
use kv.Text.Words.{words, fits_int, failed_int}
use kv.Config.{ServerConfig, ClusterPeerConfig}
use kv.Cluster.ConsistentHash.{ClusterNode, Ring, build, empty}

pub data RaftRole : Type 0 where
  follower candidate leader : RaftRole

abbrev pub is_leader_role : RaftRole → Bool
is_leader_role leader = true
is_leader_role _ = false

abbrev pub is_candidate_role : RaftRole → Bool
is_candidate_role candidate = true
is_candidate_role _ = false

-- The members, without the thread. `meta` is the file `m_raft_meta_file`, if it is there.
pub record ClusterRouter : Type 0 where
  pub m_enabled : Bool
  pub m_local_id : Bytes
  pub m_replication_factor : ℤ
  pub m_health_check_interval_ms : ℤ
  pub m_raft_enabled : Bool
  pub m_leader_id : Bytes
  pub m_stopping : Bool
  pub m_all_nodes : List ClusterNode
  pub m_local_node : ClusterNode
  pub m_hash : Ring
  pub m_alive_nodes : List ClusterNode
  pub m_last_health_check : ℤ
  pub m_role : RaftRole
  pub m_current_term : ℤ
  pub m_election_count : ℤ
  pub m_voted_for : Bytes
  pub m_last_log_index : ℤ
  pub m_last_log_term : ℤ
  pub m_raft_meta_file : Bytes
  pub m_last_heartbeat : ℤ
  pub m_election_timeout_ms : ℤ
  pub meta : Option Bytes

-- The environment of a method: the clock, `jitter(rng)`, and whether the file of terms opens.
pub record Moment : Type 0 where
  pub now : ℤ
  pub jitter : ℕ
  pub opened : Bool

abbrev pub raft_enabled : ClusterRouter → Bool
raft_enabled r = r.m_enabled && r.m_raft_enabled

unfoldable pub is_leader : ClusterRouter → Bool
is_leader r = if not (raft_enabled r) then true else is_leader_role r.m_role

unfoldable pub role_name : ClusterRouter → Bytes
role_name r = elim r.m_role [
  | leader ↦ codes "leader"
  | candidate ↦ codes "candidate"
  | follower ↦ codes "follower"
]

unfoldable pub update_log_info : ℤ → ℤ → ClusterRouter → ClusterRouter
update_log_info last_log_index last_log_term r = record r {
  m_last_log_index = last_log_index;
  m_last_log_term = last_log_term;
}

unfoldable pub stop : ClusterRouter → ClusterRouter
stop r = record r { m_stopping = true }

unfoldable pub find_node : Bytes → List ClusterNode → Option ClusterNode
find_node id [] = none
find_node id (n ∷ ns) = let rest = find_node id ns in if n.id == id then some n else rest

unfoldable pub leader_node : ClusterRouter → Option ClusterNode
unfolding find_node
leader_node r =
    if not (raft_enabled r)
    then none
    else if is_empty r.m_leader_id
    then none
    else find_node r.m_leader_id r.m_all_nodes

unfoldable pub majority_size : ClusterRouter → ℕ
majority_size r = if not (raft_enabled r) then 1 else length r.m_all_nodes / 2 + 1

-- What `persist_raft_meta_locked` writes.
unfoldable pub meta_text : ℤ → Bytes → Bytes
meta_text term voted_for =
    codes "term"
    ++ b' '
      ∷ (print term
          ++ b'\n'
            ∷ (codes "voted_for"
                ++ b' ' ∷ ((if is_empty voted_for then codes "-" else voted_for) ++ b'\n' ∷ [])))

unfoldable pub persist_raft_meta_locked : Moment → ClusterRouter → ClusterRouter
persist_raft_meta_locked m r =
    if is_empty r.m_raft_meta_file
    then r
    else if m.opened
    then record r { meta = some (meta_text r.m_current_term r.m_voted_for) }
    else r

abbrev pub vote_of : Bytes → Bytes
vote_of word = if word == codes "-" then [] else word

-- The loop of `load_raft_meta_locked` on the words of the file.
unfoldable mutual
  pub load_key : Bytes → List Bytes → ℤ × Bytes → ℤ × Bytes
  load_key key [] (term, voted_for) =
      (term, if key == codes "voted_for" then vote_of voted_for else voted_for)
  load_key key (w ∷ ws) (term, voted_for) =
      let other = load_key w ws (term, voted_for) in
      let voted = load_words ws (term, vote_of w) in
      let numbered : ℤ × Bytes = elim (scan_signed w) [
        | none ↦ (failed_int w, voted_for)
        | some (z, rest) ↦
            let next = load_words ws (z, voted_for) in
            let again = load_key rest ws (z, voted_for) in
            if fits_int z
            then (if is_empty rest then next else again)
            else (failed_int w, voted_for)
      ] in
      if key == codes "term" then numbered else if key == codes "voted_for" then voted else other

  pub load_words : List Bytes → ℤ × Bytes → ℤ × Bytes
  load_words [] meta = meta
  load_words (w ∷ ws) meta = load_key w ws meta

unfoldable pub load_raft_meta_locked : ClusterRouter → ClusterRouter
unfolding load_words load_key
load_raft_meta_locked r = elim r.meta [
  | none ↦ record r { m_current_term = pos 0; m_voted_for = [] }
  | some text ↦
      let (term, voted_for) = load_words (words text) (r.m_current_term, r.m_voted_for) in
      record r { m_current_term = term; m_voted_for = voted_for }
]

unfoldable pub is_local_endpoint : ClusterNode → ServerConfig → Bool
is_local_endpoint n c =
    eqb_ℤ n.port c.node.port
    && ((n.host == c.node.host) || (n.host == codes "127.0.0.1") || (n.host == codes "localhost"))

abbrev pub peers_of : List ClusterPeerConfig → List ClusterNode
peers_of [] = []
peers_of (p ∷ ps) = record { id = p.id; host = p.host; port = p.port } ∷ peers_of ps

-- The first node that is this one.
unfoldable pub find_local : ServerConfig → List ClusterNode → Option ClusterNode
unfolding is_local_endpoint
find_local c [] = none
find_local c (n ∷ ns) =
    let rest = find_local c ns in
    if (n.id == c.node.id) || is_local_endpoint n c then some n else rest

module _ (hasher : Bytes → ℕ) where
  unfoldable pub election_timeout_ms : Moment → ClusterRouter → ℤ
  election_timeout_ms m r = pos (900 + hasher r.m_local_id % 300 + m.jitter)

  unfoldable pub rebuild_hash_locked : List ClusterNode → ClusterRouter → ClusterRouter
  rebuild_hash_locked alive r = record r { m_alive_nodes = alive; m_hash = build hasher alive 64 }

  -- The pings of `refresh_health_if_needed` are answered by `ping`.
  abbrev pub answers : (ClusterNode → Bool) → ClusterRouter → ClusterNode → Bool
  answers ping r n = (n.id == r.m_local_id) || eqb_ℤ n.port r.m_local_node.port || ping n

  abbrev pub or_local : ClusterNode → List ClusterNode → List ClusterNode
  or_local local [] = local ∷ []
  or_local local (n ∷ ns) = n ∷ ns

  unfoldable pub refresh_health_if_needed : ℤ → (ClusterNode → Bool) → ClusterRouter → ClusterRouter
  unfolding rebuild_hash_locked
  refresh_health_if_needed now ping r =
      if not r.m_enabled
      then r
      else if ltb_ℤ (now -ℤ r.m_last_health_check) r.m_health_check_interval_ms
      then r
      else rebuild_hash_locked (or_local r.m_local_node (keep (answers ping r) r.m_all_nodes))
          (record r { m_last_health_check = now })

  -- The members that `init` sets first.
  unfoldable pub configured : ServerConfig → ClusterRouter → ClusterRouter
  configured c r = record r {
    m_enabled = c.cluster.enabled;
    m_local_id = c.node.id;
    m_replication_factor = c.cluster.replication_factor;
    m_health_check_interval_ms = c.cluster.health_check_interval_ms;
    m_raft_enabled = c.cluster.consistency == codes "raft";
    m_leader_id = c.cluster.leader_id;
    m_local_node = record { id = c.node.id; host = codes "127.0.0.1"; port = c.node.port };
  }

  -- The peers, with this node among them.
  unfoldable pub placed : ServerConfig → ClusterRouter → ClusterRouter
  unfolding find_local
  placed c r =
      let peers = peers_of c.cluster.peers in
      elim (find_local c peers) [
        | some n ↦ record r {
          m_all_nodes = peers;
          m_local_node = record { id = c.node.id; host = n.host; port = n.port };
        }
        | none ↦ record r { m_all_nodes = peers ++ r.m_local_node ∷ [] }
      ]

  -- The critical section of `init`.
  unfoldable pub started : Moment → ServerConfig → ClusterRouter → ClusterRouter
  unfolding load_raft_meta_locked election_timeout_ms rebuild_hash_locked
  started m c r =
      let loaded = load_raft_meta_locked (record (rebuild_hash_locked (r.m_local_node ∷ []) r) {
        m_last_health_check = m.now -ℤ r.m_health_check_interval_ms;
        m_role = follower;
        m_raft_meta_file = c.node.data_dir ++ codes "/raft.meta";
      }) in
      record loaded {
        m_leader_id = if loaded.m_raft_enabled then [] else loaded.m_leader_id;
        m_last_heartbeat = m.now;
        m_election_timeout_ms = election_timeout_ms m loaded;
      }

  -- `init`; `meta` of `r` is the file in the data directory. The raft thread is not started here.
  unfoldable pub init :
      Moment → (ClusterNode → Bool) → ServerConfig → ClusterRouter → ClusterRouter × Bool
  unfolding configured placed started refresh_health_if_needed
  init m ping c r =
      let ready = refresh_health_if_needed m.now ping (started m c (placed c (configured c r))) in
      if not c.cluster.enabled then (configured c r, true) else (
        record ready { m_stopping = ready.m_stopping && not ready.m_raft_enabled },
        not (empty ready.m_hash),
      )
