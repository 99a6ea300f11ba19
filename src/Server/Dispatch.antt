-- ===== src/Server/Dispatch.antt =====
-- src/app/kv_server.cpp: `process_request_line` and the loop of `process_client_lines`.
pub mod ReadWrite
use kv.Prelude.{
  ℕ, zero, suc, Bool, true, false, not, ◌&&◌, ◌||◌, Option, none, some, List, [], ◌∷◌, ◌++◌, Bytes,
  codes, is_empty, if◌then◌else◌, ◌==◌, bytes_eq,
}
use kv.Prelude.Int.{ℤ, pos, ltb_ℤ, leb_ℤ}
use kv.Text.Decimal.{print}
use kv.Protocol.{
  Request, CommandType, ProtocolType, text_protocol, resp_protocol, ping_command, put_command,
  get_command, del_command, exists_command, expire_command, ttl_command, replica_put, replica_get,
  replica_del, replica_expire, raft_put, raft_del, raft_expire, raft_request_vote,
  raft_append_entries, raft_status, raft_install_snapshot, metrics_command,
}
use kv.Protocol.Requests.{parse_request, replica_put_line, replica_expire_line, replica_del_line}
use kv.Cluster.ConsistentHash.{ClusterNode}
use kv.Cluster.Router.{raft_enabled, is_leader, leader_node, role_name}
use kv.Cluster.Router.Election.{handle_request_vote, handle_append_entries}
use kv.Cluster.Router.Placement.{owner_for, is_local_owner, replicas_for, alive_nodes}
use kv.Server.{KvServer, Turn, raft_last_log_index_locked, with_router, with_store}
use kv.Server.Store.{StoreMethods}
use kv.Server.Responses.{
  starts_with, resp_simple, resp_error, resp_integer, resp_bulk, text_response, strip_line_end,
  parse_text_value, is_client_write, should_route, in_protocol,
}
use kv.Server.Append.{handle_raft_append_entries, handle_install_snapshot}
use kv.Server.Replicate.{replicate_raft_write}
use kv.Server.Metrics.{record_request_metrics, metrics_response}
use kv.Server.Execute.{Outcome, throws, unfinished, answers, Call, failure, to_each, execute}

-- What a client is told of the response of another node.
unfoldable pub relayed : ProtocolType → Bytes → Bytes
relayed text_protocol response = response
relayed resp_protocol response =
    if starts_with (codes "ERROR ") response then resp_error (strip_line_end response) else response

module _ {S : Type 0} where
  unfoldable pub status_reply : KvServer S → Bytes
  unfolding text_response role_name
  status_reply s = text_response (
      codes "RAFT_STATUS node="
      ++ s.m_router.m_local_id
      ++ codes " role="
      ++ role_name s.m_router
      ++ codes " term="
      ++ print s.m_router.m_current_term
      ++ codes " leader="
      ++ s.m_router.m_leader_id
      ++ codes " commit="
      ++ print s.raft.m_raft_commit_index
      ++ codes " applied="
      ++ print s.raft.m_raft_last_applied
      ++ codes " last_log="
      ++ print (raft_last_log_index_locked s.raft))

module _ {S : Type 0} (hasher : Bytes → ℕ) (call : Call) where
  -- A follower hands the line to the leader.
  unfoldable pub to_leader : Bytes → Request → KvServer S → Bytes
  to_leader line request s = elim (leader_node s.m_router) [
    | none ↦ failure request.protocol (codes "ERROR leader_unavailable")
    | some leader ↦ relayed request.protocol (call.forward 0 leader line)
  ]

  -- A node that does not own the key hands the line to the owner.
  unfoldable pub to_owner : Bytes → Request → KvServer S → KvServer S × Bytes
  to_owner line request s =
      let (s', owner) =
        with_router (owner_for hasher call.turn.moment.now call.ping request.key) s in
      (
        s',
        elim owner [
          | none ↦ failure request.protocol (codes "ERROR route_unavailable")
          | some o ↦ relayed request.protocol (call.forward 0 o line)
        ],
      )

module _ {S : Type 0} (methods : StoreMethods S) (hasher : Bytes → ℕ) (call : Call) where
  -- A command of a client or a replica: the leader replicates a write, a follower and a node that does
  -- not own the key hand the line on, and what is left is done here.
  unfoldable pub route : Bytes → Request → KvServer S → Outcome S
  unfolding execute to_leader to_owner
  route line request s =
      let routed = should_route request.type s.m_router in
      let (s', owned) =
        with_router (is_local_owner hasher call.turn.moment.now call.ping request.key) s in
      let (s'', response) = to_owner hasher call line request s' in
      if raft_enabled s.m_router && routed && not (is_leader s.m_router)
      then answers s (to_leader hasher call line request s) []
      else if raft_enabled s.m_router && is_client_write request.type && is_leader s.m_router
      then elim (replicate_raft_write methods call.forward hasher call.turn call.ping call.turns
          request s) [
            | none ↦ unfinished
            | some (written, reply, told, message) ↦
                answers written reply (to_each (message ∷ []) told)
          ]
      else if not (raft_enabled s.m_router) && routed
      then (if not owned then answers s'' response [] else execute methods hasher call request s')
      else execute methods hasher call request s

  -- A request that was read: those of the other nodes of the cluster are answered first.
  unfoldable pub process_request : Bytes → Request → KvServer S → Outcome S
  unfolding route
  process_request line request s = elim request.type [
    | raft_request_vote ↦
        let (s', reply) =
          with_router
            (handle_request_vote hasher call.turn.moment request.term request.node_id
              request.last_log_index request.last_log_term)
            s in
        answers s' reply []
    | raft_append_entries ↦
        let (s', reply) = handle_raft_append_entries methods hasher call.turn request s in
        let (s'', heartbeat) =
          with_router (handle_append_entries hasher call.turn.moment request.term request.node_id)
            s in
        if leb_ℤ (pos 0) request.log_index then answers s' reply [] else answers s'' heartbeat []
    | raft_install_snapshot ↦
        let (s', reply) = handle_install_snapshot methods hasher call.turn request s in
        answers s' reply []
    | raft_status ↦ answers s (status_reply s) []
    | metrics_command ↦
        let (s', reply) = metrics_response methods hasher call.turn call.ping s in
        answers s' reply []
    | _ ↦ route line request s
  ]

  unfoldable pub process_request_line : (ℕ → Bool) → Bytes → KvServer S → Outcome S
  unfolding process_request
  process_request_line reserves line s = elim (parse_request reserves line) [
    | none ↦ throws
    | some request ↦
        if is_empty request.error
        then process_request line request s
        else answers s (failure request.protocol request.error) []
  ]

abbrev pub failed_response : Bytes → Bool
failed_response response =
    starts_with (codes "ERROR") response
    || starts_with (codes "-ERR") response
    || starts_with (codes "-ERROR") response

module _ {S : Type 0} (methods : StoreMethods S) (hasher : Bytes → ℕ) (reserves : ℕ → Bool) where
  -- What follows a line, with the answer to it.
  abbrev pub then_later : Bytes → List (ClusterNode × Bytes) → Outcome S → Outcome S
  then_later response sent throws = throws
  then_later response sent unfinished = unfinished
  then_later response sent (answers s responses later) =
      answers s (response ++ responses) (sent ++ later)

  -- The loop of `process_client_lines`, with the environment of each line; the answer is the response to
  -- all of them.
  unfoldable pub process_lines : List (Call × Bytes) → KvServer S → Outcome S
  unfolding process_request_line record_request_metrics
  process_lines [] s = answers s [] []
  process_lines ((call, line) ∷ rest) s =
      elim (process_request_line methods hasher call reserves line s) [
        | throws ↦ throws
        | unfinished ↦ unfinished
        | answers s' response sent ↦ then_later response sent (
            process_lines rest
              (record_request_metrics call.latency_us (failed_response response) s'))
      ]
