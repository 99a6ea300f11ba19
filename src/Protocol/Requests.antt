-- ===== src/Protocol/Requests.antt =====
-- `parse_request` and `encode_response` of src/protocol/kv_protocol.cpp, and the commands that an
-- owner sends to its replicas, of src/app/kv_server.cpp.
pub mod Lines
pub mod Forwarding
use kv.Prelude.{
  ℕ, Bool, true, false, ◌||◌, Option, none, some, List, [], ◌∷◌, ◌++◌, Bytes, codes, is_empty,
  if◌then◌else◌, ◌==◌, nat_eq, bytes_eq, ◌>>=◌,
}
use kv.Prelude.Int.{ℤ}
use kv.Text.Decimal.{is_space, print}
use kv.Text.Words.{words}
use kv.Protocol.{Request, text_protocol, error_request, upper, trim, skip_space}
use kv.Protocol.Arguments.{parse_args}
use kv.Protocol.Resp.{parse_resp_request, extract_request_frame}

-- The text up to its first white space, and from there on.
unfoldable pub next_word : Bytes → Bytes × Bytes
next_word [] = ([], [])
next_word (c ∷ s) =
    let (word, rest) = next_word s in if is_space c then ([], c ∷ s) else (c ∷ word, rest)

-- `std::getline`.
unfoldable pub next_line : Bytes → Bytes
next_line [] = []
next_line (c ∷ s) = let rest = next_line s in if c == b'\n' then [] else c ∷ rest

abbrev pub keeps_spaces : Bytes → Bool
keeps_spaces command =
    (command == codes "PUT") || (command == codes "REPL_PUT") || (command == codes "RAFT_PUT")

-- The key and the rest of the line of a PUT.
unfoldable pub parse_put_text : Bytes → Bytes → Request
unfolding next_word next_line skip_space trim
parse_put_text command text =
    let (key, rest) = next_word (skip_space text) in
    let value = trim (next_line rest) in
    if is_empty key || is_empty value
    then error_request (codes "ERROR usage: PUT <key> <value>") text_protocol
    else parse_args text_protocol (command ∷ key ∷ value ∷ [])

unfoldable pub parse_text_request : Bytes → Request
unfolding parse_put_text next_word trim upper
parse_text_request line =
    let normalized = trim line in
    let (first, rest) = next_word normalized in
    let command = upper first in
    if is_empty normalized
    then error_request [] text_protocol
    else if keeps_spaces command
    then parse_put_text command rest
    else parse_args text_protocol (command ∷ words rest)

unfoldable pub parse_request : (ℕ → Bool) → Bytes → Option Request
unfolding parse_text_request
parse_request reserves [] = some (parse_text_request [])
parse_request reserves (c ∷ s) =
    if c == b'*' then parse_resp_request reserves (c ∷ s) else some (parse_text_request (c ∷ s))

unfoldable pub encode_response : Bytes → Bytes
encode_response text = if is_empty text then [] else text ++ codes "\n"

-- What an owner sends to a replica for a put, an expire and a del.
unfoldable pub replica_put_line : Bytes → Bytes → Bytes
replica_put_line key value = codes "REPL_PUT " ++ key ++ b' ' ∷ (value ++ codes "\n")

unfoldable pub replica_expire_line : Bytes → ℤ → Bytes
replica_expire_line key ttl_seconds =
    codes "REPL_EXPIRE " ++ key ++ b' ' ∷ (print ttl_seconds ++ codes "\n")

unfoldable pub replica_del_line : Bytes → Bytes
replica_del_line key = codes "REPL_DEL " ++ key ++ codes "\n"

-- The request that the peer reads from what was sent.
abbrev pub received : (ℕ → Bool) → Bytes → Option Request
received reserves sent = do
  (frame, pending) ← extract_request_frame sent
  parse_request reserves frame
