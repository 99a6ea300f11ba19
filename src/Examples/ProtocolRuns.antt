-- ===== src/Examples/ProtocolRuns.antt =====
-- The request protocol at concrete inputs.
use kv.Prelude.{ℕ, ◌≡◌, refl, Bool, true, some, List, [], ◌∷◌, ◌++◌, Bytes, codes, arith}
use kv.Prelude.Int.{pos}
use kv.Protocol.{
  request_of, resp_protocol, text_protocol, replica_put, replica_expire, skip_space, drop_space,
}
use kv.Protocol.Arguments.{parse_args}
use kv.Protocol.Hex.{decode_hex, hex_encode, decode_hex-hex_encode}
use kv.Protocol.Resp.{parse_resp_request, extract_request_frame}
use kv.Protocol.Resp.Frames.{
  request_before, parse_resp_request-request, extract_request_frame-request,
}
use kv.Protocol.Requests.{received, replica_put_line, replica_expire_line}
use kv.Protocol.Requests.Forwarding.{
  IsPlain, received-replica_put_line, received-replica_expire_line, received-replica_put_line_split,
}
use kv.Text.Decimal.{is_space}
use kv.Text.Words.{NoSpace}

abbrev set_args : List Bytes
set_args = codes "a b" ∷ codes "1\r\n2" ∷ []

abbrev any_count : ℕ → Bool
any_count n = true

abbrev word : Bytes
word = codes "k"

abbrev phrase : Bytes
phrase = codes "x y"

decode_hex-hex_encode_example :
    decode_hex (hex_encode (0 ∷ 10 ∷ 255 ∷ [])) ≡ some (0 ∷ 10 ∷ 255 ∷ [])
decode_hex-hex_encode_example =
    decode_hex-hex_encode (0 ∷ 10 ∷ 255 ∷ []) (omega arith, (omega arith, (omega arith, tt)))

parse_resp_request-request_example :
    parse_resp_request any_count (request_before (codes "SET" ∷ set_args) [])
    ≡ some (parse_args resp_protocol (codes "SET" ∷ set_args))
parse_resp_request-request_example =
    parse_resp_request-request any_count (codes "SET") set_args refl (omega arith)
      (omega arith, (omega arith, (omega arith, tt)))

extract_request_frame-request_example :
    extract_request_frame (request_before (codes "SET" ∷ set_args) [] ++ codes "PING\n")
    ≡ some (request_before (codes "SET" ∷ set_args) [], codes "PING\n")
extract_request_frame-request_example =
    extract_request_frame-request (codes "SET") set_args (codes "PING\n") (omega arith)
      (omega arith, (omega arith, (omega arith, tt)))

word-NoSpace : NoSpace word
word-NoSpace = (unfold is_space in refl, tt)

phrase-IsPlain : IsPlain phrase
phrase-IsPlain = record {
  not_empty = refl;
  one_line = (omega arith, (omega arith, (omega arith, tt)));
  no_space_first = unfold skip_space is_space in refl;
  no_space_last = unfold drop_space is_space in refl;
}

received-replica_put_line_example :
    received any_count (replica_put_line word phrase)
    ≡ some (record (request_of text_protocol replica_put) { key = word; value = phrase })
received-replica_put_line_example =
    received-replica_put_line any_count word phrase word-NoSpace refl phrase-IsPlain

received-replica_expire_line_example :
    received any_count (replica_expire_line word (pos 60))
    ≡ some (record (request_of text_protocol replica_expire) { key = word; ttl_seconds = pos 60 })
received-replica_expire_line_example =
    received-replica_expire_line any_count word 59 word-NoSpace refl (omega arith)

received-replica_put_line_split_example :
    received any_count (replica_put_line (codes "k x") (codes "y"))
    ≡ some (record (request_of text_protocol replica_put) { key = word; value = phrase })
received-replica_put_line_split_example =
    received-replica_put_line_split any_count word (codes "x") (codes "y") word-NoSpace refl
      phrase-IsPlain
