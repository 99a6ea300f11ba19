-- ===== src/Server/Execute.antt =====
-- src/app/kv_server.cpp: the last `switch` of `process_request_line`, which does a command on this node.
use kv.Prelude.{
  ℕ, suc, Bool, true, false, not, ◌&&◌, Option, none, some, List, [], ◌∷◌, ◌++◌, Bytes, codes,
  if◌then◌else◌, ◌==◌, bytes_eq,
}
use kv.Prelude.Int.{ℤ, pos, ltb_ℤ}
use kv.Text.Decimal.{print}
use kv.Protocol.{
  Request, ProtocolType, ping_command, put_command, get_command, del_command, exists_command,
  expire_command, ttl_command, replica_put, replica_get, replica_del, replica_expire, raft_put,
  raft_del, raft_expire,
}
use kv.Protocol.Requests.{replica_put_line, replica_expire_line, replica_del_line}
use kv.Cluster.ConsistentHash.{ClusterNode}
use kv.Cluster.Router.{raft_enabled}
use kv.Cluster.Router.Placement.{owner_for, replicas_for, alive_nodes}
use kv.Server.{KvServer, Turn, with_router, with_store}
use kv.Server.Store.{StoreMethods}
use kv.Server.Responses.{
  resp_simple, resp_error, resp_integer, resp_bulk, text_response, parse_text_value, in_protocol,
}

-- How a request ends: `throws` is an exception of the parser, `unfinished` that the turns were not
-- enough, and an answer has the messages whose responses are not read, with their receivers.
pub data Outcome (S : Type 0) : Type 0 where
  throws : Outcome S
  unfinished : Outcome S
  answers : KvServer S → Bytes → List (ClusterNode × Bytes) → Outcome S

-- What the environment does while a line is processed: what the peers respond to the message of a
-- number and to a ping, the turns that a follower's loop is given, and the time that it takes.
pub record Call : Type 0 where
  pub turn : Turn
  pub forward : ℕ → ClusterNode → Bytes → Bytes
  pub ping : ClusterNode → Bool
  pub turns : ℕ
  pub latency_us : ℤ

-- One text in either protocol.
abbrev pub failure : ProtocolType → Bytes → Bytes
failure p message = in_protocol p (resp_error message) (text_response message)

abbrev pub is_some {ℓ} : {A : Type ℓ} → Option A → Bool
is_some none = false
is_some (some a) = true

-- `removed ? 1 : 0` in RESP, and one of two words in text.
abbrev pub yes_or_no : ProtocolType → Bytes → Bytes → Bool → Bytes
yes_or_no p if_yes if_no true = in_protocol p (resp_integer (pos 1)) (text_response if_yes)
yes_or_no p if_yes if_no false = in_protocol p (resp_integer (pos 0)) (text_response if_no)

abbrev pub put_reply : ProtocolType → Bool → Bytes
put_reply p true = in_protocol p (resp_simple (codes "OK")) (text_response (codes "OK"))
put_reply p false =
    in_protocol p (resp_error (codes "ERR put_failed")) (text_response (codes "ERROR put_failed"))

abbrev pub get_reply : ProtocolType → Option Bytes → Bytes
get_reply p none = in_protocol p (resp_bulk none) (text_response (codes "NOT_FOUND"))
get_reply p (some value) =
    in_protocol p (resp_bulk (some value)) (text_response (codes "VALUE " ++ value))

abbrev pub ttl_reply : ProtocolType → ℤ → Bytes
ttl_reply p ttl = in_protocol p (resp_integer ttl) (text_response (codes "TTL " ++ print ttl))

-- The commands that an owner sends a replica for a put.
abbrev pub put_lines : Request → List Bytes
put_lines request =
    if ltb_ℤ (pos 0) request.ttl_seconds
    then replica_put_line request.key request.value
      ∷ replica_expire_line request.key request.ttl_seconds
      ∷ []
    else replica_put_line request.key request.value ∷ []

abbrev pub to_node : ClusterNode → List Bytes → List (ClusterNode × Bytes)
to_node node [] = []
to_node node (line ∷ lines) = (node, line) ∷ to_node node lines

unfoldable pub to_each : List Bytes → List ClusterNode → List (ClusterNode × Bytes)
to_each lines [] = []
to_each lines (node ∷ nodes) = to_node node lines ++ to_each lines nodes

module _ {S : Type 0} (hasher : Bytes → ℕ) (call : Call) where
  -- The loop of a GET over the other nodes, from the message of a number on.
  unfoldable pub ask_nodes : Bytes → List ClusterNode → ℕ → KvServer S → KvServer S × Option Bytes
  ask_nodes key [] n s = (s, none)
  ask_nodes key (node ∷ nodes) n s =
      let (s', owner) = with_router (owner_for hasher call.turn.moment.now call.ping key) s in
      let owns : Bool = elim owner [ none ↦ false | some o ↦ node.id == o.id ] in
      let skipped = ask_nodes key nodes n s' in
      let later = ask_nodes key nodes (suc n) s' in
      let message = codes "REPL_GET " ++ key ++ codes "\n" in
      if owns then skipped else elim (parse_text_value (call.forward n node message)) [
        | none ↦ later
        | some value ↦ (s', some value)
      ]

  -- The messages to the replicas of a key, if the command is one that they get.
  unfoldable pub copy_to_replicas :
      Bool → Bytes → List Bytes → KvServer S → KvServer S × List (ClusterNode × Bytes)
  copy_to_replicas changed key lines s =
      let (s', replicas) = with_router (replicas_for hasher call.turn.moment.now call.ping key) s in
      if changed && s.m_router.m_enabled && not (raft_enabled s.m_router)
      then (s', to_each lines replicas)
      else (s, [])

module _ {S : Type 0} (methods : StoreMethods S) (hasher : Bytes → ℕ) (call : Call) where
  -- The cases of the last `switch`; `own` is true for a command of a client, which the node's replicas
  -- get too, and false for one of another node.
  unfoldable pub execute_put : Bool → Request → KvServer S → Outcome S
  execute_put own request s =
      let (s', ok) =
        with_store
          (if ltb_ℤ (pos 0) request.ttl_seconds
            then methods.put_ttl request.key request.value request.ttl_seconds
            else methods.put request.key request.value)
          s in
      let (s'', sent) =
        copy_to_replicas hasher call (ok && own) request.key (put_lines request) s' in
      answers s'' (put_reply request.protocol ok) sent

  unfoldable pub execute_get : Bool → Request → KvServer S → Outcome S
  execute_get own request s =
      let (s', value) = with_store (methods.get request.key) s in
      let (s'', nodes) = with_router (alive_nodes hasher call.turn.moment.now call.ping) s' in
      let (asked, found) = ask_nodes hasher call request.key nodes 0 s'' in
      if not (is_some value) && own && s.m_router.m_enabled
      then answers asked (get_reply request.protocol found) []
      else answers s' (get_reply request.protocol value) []

  unfoldable pub execute_del : Bool → Request → KvServer S → Outcome S
  execute_del own request s =
      let (s', removed) = with_store (methods.del request.key) s in
      let (s'', sent) =
        copy_to_replicas hasher call own request.key (replica_del_line request.key ∷ []) s' in
      answers s'' (yes_or_no request.protocol (codes "OK") (codes "NOT_FOUND") removed) sent

  unfoldable pub execute_expire : Bool → Request → KvServer S → Outcome S
  execute_expire own request s =
      let (s', updated) = with_store (methods.expire request.key request.ttl_seconds) s in
      let (s'', sent) =
        copy_to_replicas hasher call (updated && own) request.key
          (replica_expire_line request.key request.ttl_seconds ∷ []) s' in
      answers s'' (yes_or_no request.protocol (codes "OK") (codes "NOT_FOUND") updated) sent

  unfoldable pub execute_exists : Request → KvServer S → Outcome S
  execute_exists request s =
      let (s', exists) = with_store (methods.exists request.key) s in
      answers s' (yes_or_no request.protocol (codes "TRUE") (codes "FALSE") exists) []

  unfoldable pub execute_ttl : Request → KvServer S → Outcome S
  execute_ttl request s =
      let (s', ttl) = with_store (methods.ttl request.key) s in
      answers s' (ttl_reply request.protocol ttl) []

  abbrev pub ping_reply : ProtocolType → Bytes
  ping_reply p = in_protocol p (resp_simple (codes "PONG")) (text_response (codes "PONG"))

  unfoldable pub execute : Request → KvServer S → Outcome S
  unfolding execute_put execute_get execute_del execute_expire execute_exists execute_ttl
  execute request s = elim request.type [
    | ping_command ↦ answers s (ping_reply request.protocol) []
    | put_command ↦ execute_put true request s
    | replica_put ↦ execute_put false request s
    | raft_put ↦ execute_put false request s
    | get_command ↦ execute_get true request s
    | replica_get ↦ execute_get false request s
    | del_command ↦ execute_del true request s
    | replica_del ↦ execute_del false request s
    | raft_del ↦ execute_del false request s
    | exists_command ↦ execute_exists request s
    | expire_command ↦ execute_expire true request s
    | replica_expire ↦ execute_expire false request s
    | raft_expire ↦ execute_expire false request s
    | ttl_command ↦ execute_ttl request s
    | _ ↦ answers s [] []
  ]
