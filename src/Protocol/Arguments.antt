-- ===== src/Protocol/Arguments.antt =====
-- `parse_args` of src/protocol/kv_protocol.cpp.
use kv.Prelude.{
  not, ◌||◌, Option, none, some, List, [], ◌∷◌, Bytes, codes, is_empty, if◌then◌else◌, ◌==◌,
  bytes_eq, ◌>>=◌,
}
use kv.Prelude.Int.{ℤ, pos, ltb_ℤ, leb_ℤ}
use kv.Protocol.{
  Request, ProtocolType, CommandType, request_of, error_request, upper, parse_long, to_int,
  ping_command, put_command, get_command, del_command, exists_command, expire_command, ttl_command,
  replica_put, replica_get, replica_del, replica_expire, raft_put, raft_del, raft_expire,
  raft_request_vote, raft_append_entries, raft_status, raft_install_snapshot, metrics_command,
}
use kv.Protocol.Hex.{decode_hex}

-- `!parse_long(text, n) || n < 0` is an error.
abbrev pub natural_long : Bytes → Option ℤ
natural_long text = elim (parse_long text) [
  | none ↦ none
  | some n ↦ if ltb_ℤ n (pos 0) then none else some n
]

-- `!parse_long(text, ttl) || ttl <= 0` is an error.
abbrev pub ttl_long : Bytes → Option ℤ
ttl_long text = elim (parse_long text) [
  | none ↦ none
  | some n ↦ if leb_ℤ n (pos 0) then none else some n
]

-- `args` are those after the command.
module _ (p : ProtocolType) where
  abbrev pub no_arguments : Bytes → CommandType → List Bytes → Request
  no_arguments usage type args = if is_empty args then request_of p type else error_request usage p

  abbrev pub one_key : Bytes → CommandType → List Bytes → Request
  one_key usage type (key ∷ []) =
      if is_empty key then error_request usage p else record (request_of p type) { key = key }
  one_key usage type _ = error_request usage p

  abbrev pub set_usage : Request
  set_usage = error_request (codes "ERROR usage: SET <key> <value> [EX seconds]") p

  unfoldable pub parse_put_args : CommandType → List Bytes → Request
  parse_put_args type (key ∷ value ∷ []) =
      if is_empty key || is_empty value
      then set_usage
      else record (request_of p type) { key = key; value = value }
  parse_put_args type (key ∷ value ∷ ex ∷ seconds ∷ []) =
      if not (upper ex == codes "EX") || is_empty key || is_empty value
      then set_usage
      else elim (ttl_long seconds) [
        | none ↦ error_request (codes "ERROR invalid_ttl") p
        | some ttl ↦ record (request_of p type) {
          key = key;
          value = value;
          ttl_seconds = to_int ttl;
        }
      ]
  parse_put_args type _ = set_usage

  unfoldable pub parse_expire_args : CommandType → List Bytes → Request
  parse_expire_args type (key ∷ seconds ∷ []) =
      if is_empty key
      then error_request (codes "ERROR usage: EXPIRE <key> <seconds>") p
      else elim (ttl_long seconds) [
        | none ↦ error_request (codes "ERROR invalid_ttl") p
        | some ttl ↦ record (request_of p type) { key = key; ttl_seconds = to_int ttl }
      ]
  parse_expire_args type _ = error_request (codes "ERROR usage: EXPIRE <key> <seconds>") p

  unfoldable pub parse_vote_args : List Bytes → Request
  parse_vote_args (term ∷ id ∷ []) = elim (natural_long term) [
    | none ↦ error_request (codes "ERROR invalid_term") p
    | some t ↦ record (request_of p raft_request_vote) { term = to_int t; node_id = id }
  ]
  parse_vote_args (term ∷ id ∷ index ∷ last_term ∷ []) = elim (natural_long term) [
    | none ↦ error_request (codes "ERROR invalid_term") p
    | some t ↦ elim (natural_long index) [
      | none ↦ error_request (codes "ERROR invalid_raft_vote_log") p
      | some i ↦ elim (natural_long last_term) [
        | none ↦ error_request (codes "ERROR invalid_raft_vote_log") p
        | some lt ↦ record (request_of p raft_request_vote) {
          term = to_int t;
          node_id = id;
          last_log_index = to_int i;
          last_log_term = to_int lt;
        }
      ]
    ]
  ]
  parse_vote_args _ =
      error_request
        (codes
          "ERROR usage: RAFT_REQUEST_VOTE <term> <candidate_id> [last_log_index last_log_term]")
        p

  -- The request for a result that may be missing, or the error.
  abbrev pub or_error : Bytes → Option Request → Request
  or_error message none = error_request message p
  or_error message (some r) = r

  -- The batch form, after the term and the leader; a payload that is not hexadecimal is told apart.
  unfoldable pub parse_batch : Request → Bytes → Bytes → Bytes → Bytes → Bytes → Request
  parse_batch r prev_index prev_term leader_commit entry_count payload_hex =
      or_error (codes "ERROR invalid_raft_append") (do
        pi ← natural_long prev_index
        pt ← natural_long prev_term
        lc ← natural_long leader_commit
        n ← natural_long entry_count
        some (
            or_error (codes "ERROR invalid_raft_hex") (do
              payload ← decode_hex payload_hex
              some (record r {
                prev_log_index = to_int pi;
                prev_log_term = to_int pt;
                leader_commit = to_int lc;
                entry_count = to_int n;
                snapshot_payload = payload;
                log_index = pos 0;
              }))))

  -- The form with one entry.
  unfoldable pub parse_single :
      Request → Bytes → Bytes → Bytes → Bytes → Bytes → Bytes → Bytes → Bytes → Bytes → Request
  parse_single r prev_index prev_term leader_commit index entry_term op key_hex seconds value_hex =
      or_error (codes "ERROR invalid_raft_append") (do
        pi ← natural_long prev_index
        pt ← natural_long prev_term
        lc ← natural_long leader_commit
        i ← natural_long index
        et ← natural_long entry_term
        ttl ← natural_long seconds
        some (
            or_error (codes "ERROR invalid_raft_hex") (do
              key ← decode_hex key_hex
              value ← decode_hex value_hex
              some (record r {
                prev_log_index = to_int pi;
                prev_log_term = to_int pt;
                leader_commit = to_int lc;
                log_index = to_int i;
                log_term = to_int et;
                raft_op = upper op;
                key = key;
                value = value;
                ttl_seconds = to_int ttl;
              }))))

  abbrev pub append_of : ℤ → Bytes → Request
  append_of t id = record (request_of p raft_append_entries) { term = to_int t; node_id = id }

  unfoldable pub parse_append_args : List Bytes → Request
  unfolding parse_batch parse_single
  parse_append_args (term ∷ id ∷ []) = elim (natural_long term) [
    | none ↦ error_request (codes "ERROR invalid_term") p
    | some t ↦ append_of t id
  ]
  parse_append_args (term ∷ id ∷ pi ∷ pt ∷ lc ∷ n ∷ payload ∷ []) = elim (natural_long term) [
    | none ↦ error_request (codes "ERROR invalid_term") p
    | some t ↦ parse_batch (append_of t id) pi pt lc n payload
  ]
  parse_append_args (term ∷ id ∷ pi ∷ pt ∷ lc ∷ i ∷ et ∷ op ∷ key ∷ ttl ∷ value ∷ []) =
      elim (natural_long term) [
        | none ↦ error_request (codes "ERROR invalid_term") p
        | some t ↦ parse_single (append_of t id) pi pt lc i et op key ttl value
      ]
  parse_append_args _ =
      error_request
        (codes
          "ERROR usage: RAFT_APPEND_ENTRIES <term> <leader_id> [prev_index prev_term leader_commit entry_count payload_hex]")
        p

  unfoldable pub parse_install_args : List Bytes → Request
  parse_install_args (term ∷ id ∷ index ∷ last_term ∷ payload_hex ∷ []) =
      or_error (codes "ERROR invalid_snapshot_header") (do
        t ← natural_long term
        i ← natural_long index
        lt ← natural_long last_term
        some (
            or_error (codes "ERROR invalid_raft_hex") (do
              payload ← decode_hex payload_hex
              some (record (request_of p raft_install_snapshot) {
                term = to_int t;
                node_id = id;
                last_log_index = to_int i;
                last_log_term = to_int lt;
                snapshot_payload = payload;
              }))))
  parse_install_args _ =
      error_request
        (codes
          "ERROR usage: RAFT_INSTALL_SNAPSHOT <term> <leader_id> <last_index> <last_term> <payload_hex>")
        p

  -- The tests on the command, in their order.
  unfoldable pub parse_command : Bytes → List Bytes → Request
  unfolding parse_put_args parse_expire_args parse_vote_args parse_append_args parse_install_args
  parse_command command args =
      if command == codes "PING"
      then no_arguments (codes "ERROR usage: PING") ping_command args
      else if (command == codes "PUT") || (command == codes "SET")
      then parse_put_args put_command args
      else if command == codes "REPL_PUT"
      then parse_put_args replica_put args
      else if command == codes "RAFT_PUT"
      then parse_put_args raft_put args
      else if command == codes "GET"
      then one_key (codes "ERROR usage: GET <key>") get_command args
      else if command == codes "REPL_GET"
      then one_key (codes "ERROR usage: REPL_GET <key>") replica_get args
      else if command == codes "DEL"
      then one_key (codes "ERROR usage: DEL <key>") del_command args
      else if command == codes "REPL_DEL"
      then one_key (codes "ERROR usage: DEL <key>") replica_del args
      else if command == codes "RAFT_DEL"
      then one_key (codes "ERROR usage: DEL <key>") raft_del args
      else if command == codes "EXISTS"
      then one_key (codes "ERROR usage: EXISTS <key>") exists_command args
      else if command == codes "EXPIRE"
      then parse_expire_args expire_command args
      else if command == codes "REPL_EXPIRE"
      then parse_expire_args replica_expire args
      else if command == codes "RAFT_EXPIRE"
      then parse_expire_args raft_expire args
      else if command == codes "TTL"
      then one_key (codes "ERROR usage: TTL <key>") ttl_command args
      else if command == codes "RAFT_REQUEST_VOTE"
      then parse_vote_args args
      else if command == codes "RAFT_APPEND_ENTRIES"
      then parse_append_args args
      else if command == codes "RAFT_INSTALL_SNAPSHOT"
      then parse_install_args args
      else if command == codes "RAFT_STATUS"
      then no_arguments (codes "ERROR usage: RAFT_STATUS") raft_status args
      else if command == codes "METRICS"
      then no_arguments (codes "ERROR usage: METRICS") metrics_command args
      else error_request (codes "ERROR unknown_command") p

  unfoldable pub parse_args : List Bytes → Request
  unfolding parse_command upper
  parse_args [] = error_request (codes "ERROR empty_command") p
  parse_args (command ∷ args) = parse_command (upper command) args
