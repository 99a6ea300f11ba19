-- ===== src/Protocol.antt =====
-- src/protocol/request.h and response.h, and what the parsers share: src/protocol/kv_protocol.cpp.
pub mod Hex
pub mod Arguments
pub mod Resp
pub mod Requests
use kv.Prelude.{
  ℕ, suc, ◌+◌, ◌-◌, ◌%◌, ◌^◌, Bool, true, false, ◌||◌, ◌&&◌, Option, none, some, List, [], ◌∷◌,
  Bytes, is_empty, if◌then◌else◌, ltb, leb,
}
use kv.Prelude.Int.{ℤ, pos, negsuc, ltb_ℤ}
use kv.Text.Decimal.{stoll, is_space}

pub data CommandType : Type 0 where
  ping_command put_command get_command del_command exists_command expire_command ttl_command :
      CommandType
  replica_put replica_get replica_del replica_expire : CommandType
  raft_put raft_del raft_expire : CommandType
  raft_request_vote raft_append_entries raft_status raft_install_snapshot : CommandType
  metrics_command unknown_command : CommandType

pub data ProtocolType : Type 0 where
  text_protocol resp_protocol : ProtocolType

pub record Request : Type 0 where
  pub type : CommandType
  pub protocol : ProtocolType
  pub key : Bytes
  pub value : Bytes
  pub ttl_seconds : ℤ
  pub term : ℤ
  pub node_id : Bytes
  pub prev_log_index : ℤ
  pub prev_log_term : ℤ
  pub leader_commit : ℤ
  pub log_index : ℤ
  pub log_term : ℤ
  pub raft_op : Bytes
  pub last_log_index : ℤ
  pub last_log_term : ℤ
  pub entry_count : ℤ
  pub snapshot_payload : Bytes
  pub error : Bytes

-- `Request request; request.protocol = protocol; request.type = type;`
abbrev pub request_of : ProtocolType → CommandType → Request
request_of protocol type = record {
  type = type;
  protocol = protocol;
  key = [];
  value = [];
  ttl_seconds = pos 0;
  term = pos 0;
  node_id = [];
  prev_log_index = pos 0;
  prev_log_term = pos 0;
  leader_commit = pos 0;
  log_index = negsuc 0;
  log_term = pos 0;
  raft_op = [];
  last_log_index = pos 0;
  last_log_term = pos 0;
  entry_count = pos 0;
  snapshot_payload = [];
  error = [];
}

abbrev pub error_request : Bytes → ProtocolType → Request
error_request message protocol = record (request_of protocol unknown_command) { error = message }

-- `toupper` in the C locale.
unfoldable pub upper : Bytes → Bytes
upper [] = []
upper (c ∷ s) = (if leb b'a' c && leb c b'z' then c - 32 else c) ∷ upper s

unfoldable pub skip_space : Bytes → Bytes
skip_space [] = []
skip_space (c ∷ s) = let rest = skip_space s in if is_space c then rest else c ∷ s

-- The text without the white space at its end.
unfoldable pub drop_space : Bytes → Bytes
drop_space [] = []
drop_space (c ∷ s) = let rest = drop_space s in if is_empty rest && is_space c then [] else c ∷ rest

unfoldable pub trim : Bytes → Bytes
unfolding skip_space drop_space
trim value = drop_space (skip_space value)

-- The whole text is a `long`.
unfoldable pub parse_long : Bytes → Option ℤ
parse_long text = elim (stoll text) [
  | none ↦ none
  | some (n, rest) ↦ if is_empty rest then some n else none
]

-- `static_cast<int>` of a `long`.
unfoldable pub to_int : ℤ → ℤ
to_int (pos n) =
    let low = n % 2 ^ 32 in if ltb low (2 ^ 31) then pos low else negsuc (2 ^ 32 - low - 1)
to_int (negsuc n) =
    let low = 2 ^ 32 - 1 - n % 2 ^ 32 in
    if ltb low (2 ^ 31) then pos low else negsuc (2 ^ 32 - low - 1)
