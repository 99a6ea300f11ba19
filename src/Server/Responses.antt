-- ===== src/Server/Responses.antt =====
-- src/app/kv_server.cpp: the responses in both protocols, and what is read from a response.
use kv.Prelude.{
  Bool, true, false, ◌&&◌, ◌||◌, Option, none, some, [], ◌∷◌, ◌++◌, Bytes, codes, is_empty,
  if◌then◌else◌, ◌==◌, nat_eq, bytes_eq, length, take, drop,
}
use kv.Prelude.Int.{ℤ, pos}
use kv.Text.Decimal.{print}
use kv.Protocol.{
  CommandType, ProtocolType, resp_protocol, text_protocol, put_command, get_command, del_command,
  exists_command, expire_command, ttl_command,
}
use kv.Protocol.Requests.{encode_response}
use kv.Cluster.Router.{ClusterRouter}

abbrev pub starts_with : Bytes → Bytes → Bool
starts_with prefix text = take (length prefix) text == prefix

unfoldable pub resp_simple : Bytes → Bytes
resp_simple value = codes "+" ++ value ++ codes "\r\n"

unfoldable pub resp_error : Bytes → Bytes
resp_error value =
    let message =
      if starts_with (codes "ERROR ") value then codes "ERR " ++ drop 6 value else value in
    codes "-" ++ message ++ codes "\r\n"

unfoldable pub resp_integer : ℤ → Bytes
resp_integer value = codes ":" ++ print value ++ codes "\r\n"

unfoldable pub resp_bulk : Option Bytes → Bytes
resp_bulk none = codes "$-1\r\n"
resp_bulk (some value) =
    b'$' ∷ (print (pos (length value)) ++ (codes "\r\n" ++ (value ++ codes "\r\n")))

unfoldable pub text_response : Bytes → Bytes
unfolding encode_response
text_response value = encode_response value

-- The text without the line ends at its end.
unfoldable pub strip_line_end : Bytes → Bytes
strip_line_end [] = []
strip_line_end (c ∷ s) =
    let rest = strip_line_end s in
    if is_empty rest && ((c == b'\n') || (c == b'\r')) then [] else c ∷ rest

unfoldable pub parse_text_value : Bytes → Option Bytes
unfolding strip_line_end
parse_text_value response =
    if starts_with (codes "VALUE ") response then some (strip_line_end (drop 6 response)) else none

unfoldable pub is_client_write : CommandType → Bool
is_client_write put_command = true
is_client_write del_command = true
is_client_write expire_command = true
is_client_write _ = false

abbrev pub is_routed : CommandType → Bool
is_routed put_command = true
is_routed get_command = true
is_routed del_command = true
is_routed exists_command = true
is_routed expire_command = true
is_routed ttl_command = true
is_routed _ = false

-- `ClusterRouter::should_route`.
unfoldable pub should_route : CommandType → ClusterRouter → Bool
should_route type r = r.m_enabled && is_routed type

-- One answer in RESP, another in text.
abbrev pub in_protocol : ProtocolType → Bytes → Bytes → Bytes
in_protocol resp_protocol resp text = resp
in_protocol text_protocol resp text = text
