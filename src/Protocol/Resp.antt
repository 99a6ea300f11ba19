-- ===== src/Protocol/Resp.antt =====
-- The RESP protocol: `read_crlf_line` and `parse_resp_request` of src/protocol/kv_protocol.cpp, and
-- `resp_frame_size` and `extract_request_frame` of src/app/kv_server.cpp. A position in a text is the
-- text that follows it.
pub mod Frames
use kv.Prelude.{
  ℕ, zero, suc, ◌+◌, ◌-◌, ◌<◌, ◌≤◌, Bool, true, false, not, ◌&&◌, ◌||◌, Option, none, some, List,
  [], ◌∷◌, ◌++◌, Bytes, codes, is_empty, if◌then◌else◌, ltb, leb, ◌==◌, nat_eq, bytes_eq, length,
  take, drop,
}
use kv.Prelude.Int.{ℤ, pos, negsuc, pos_part, ltb_ℤ, leb_ℤ}
use kv.Protocol.{Request, resp_protocol, error_request, parse_long}
use kv.Protocol.Arguments.{parse_args}

-- The line up to the first "\r\n", and what follows that.
unfoldable pub read_crlf_line : Bytes → Option (Bytes × Bytes)
read_crlf_line [] = none
read_crlf_line (c ∷ []) = none
read_crlf_line (c ∷ d ∷ s) = elim (read_crlf_line (d ∷ s)) [
  | none ↦ if (c == b'\r') && (d == b'\n') then some ([], s) else none
  | some (line, rest) ↦ if (c == b'\r') && (d == b'\n') then some ([], s) else some (c ∷ line, rest)
]

-- The number of a line that starts with the byte.
unfoldable pub header_number : ℕ → Bytes → Option ℤ
header_number tag [] = none
header_number tag (c ∷ text) = if c == tag then parse_long text else none

abbrev pub starts_crlf : Bytes → Bool
starts_crlf s = take 2 s == codes "\r\n"

-- What a turn of a loop over the arguments finds: an argument and what follows it, an end of the
-- buffer, a malformed header and what follows it, or a malformed end.
pub data Bulk : Type 0 where
  bulk : Bytes → Bytes → Bulk
  incomplete : Bulk
  bad_header : Bytes → Bulk
  bad_end : Bulk

-- `line.empty() || line[0] != '$'`, the length, and the end of the argument.
unfoldable pub read_bulk : Bytes → Bulk
unfolding read_crlf_line header_number
read_bulk s = elim (read_crlf_line s) [
  | none ↦ incomplete
  | some (line, rest) ↦ elim (header_number b'$' line) [
    | none ↦ bad_header rest
    | some n ↦
        if ltb_ℤ n (pos 0)
        then bad_header rest
        else if ltb (length rest) (pos_part n + 2)
        then incomplete
        else if starts_crlf (drop (pos_part n) rest)
        then bulk (take (pos_part n) rest) (drop 2 (drop (pos_part n) rest))
        else bad_end
  ]
]

-- The loop of `parse_resp_request`, with so many turns left.
unfoldable pub read_args : ℕ → Bytes → Option (List Bytes × Bytes)
unfolding read_bulk
read_args zero s = some ([], s)
read_args (suc n) s = elim (read_bulk s) [
  | bulk arg rest ↦ elim (read_args n rest) [
    | none ↦ none
    | some (args, rest') ↦ some (arg ∷ args, rest')
  ]
  | incomplete ↦ none
  | bad_header rest ↦ none
  | bad_end ↦ none
]

abbrev pub invalid_resp : Request
invalid_resp = error_request (codes "ERROR invalid_resp") resp_protocol

abbrev pub finish_resp : Option (List Bytes × Bytes) → Request
finish_resp none = invalid_resp
finish_resp (some (args, rest)) =
    if is_empty rest then parse_args resp_protocol args else invalid_resp

-- `parse_resp_request`; `reserves` says which counts `std::vector::reserve` accepts, and a result that
-- is missing is its exception.
unfoldable pub parse_resp_request : (ℕ → Bool) → Bytes → Option Request
unfolding read_crlf_line header_number read_args
parse_resp_request reserves frame = elim (read_crlf_line frame) [
  | none ↦ some invalid_resp
  | some (line, rest) ↦ elim (header_number b'*' line) [
    | none ↦ some invalid_resp
    | some n ↦
        if leb_ℤ n (pos 0)
        then some invalid_resp
        else if reserves (pos_part n)
        then some (finish_resp (read_args (pos_part n) rest))
        else none
  ]
]

-- What follows the frame at the start of the buffer, and whether the frame is malformed; a missing
-- result means that the frame is not complete.
unfoldable pub frame_args : ℕ → Bytes → Option (Bytes × Bool)
unfolding read_bulk
frame_args zero s = some (s, false)
frame_args (suc n) s = elim (read_bulk s) [
  | bulk arg rest ↦ frame_args n rest
  | incomplete ↦ none
  | bad_header rest ↦ some (rest, true)
  | bad_end ↦ some (s, true)
]

unfoldable pub resp_frame : Bytes → Option (Bytes × Bool)
unfolding read_crlf_line header_number frame_args
resp_frame buffer = elim (read_crlf_line buffer) [
  | none ↦ none
  | some (line, rest) ↦ elim (header_number b'*' line) [
    | none ↦ some (rest, true)
    | some n ↦ if leb_ℤ n (pos 0) then some (rest, true) else frame_args (pos_part n) rest
  ]
]

-- The line up to the first newline, and what follows it.
unfoldable pub cut_line : Bytes → Option (Bytes × Bytes)
cut_line [] = none
cut_line (c ∷ s) =
    let rest = cut_line s in
    if c == b'\n'
    then some ([], s)
    else elim rest [ none ↦ none | some (line, after) ↦ some (c ∷ line, after) ]

-- `extract_request_frame`: the frame and what stays pending.
unfoldable pub extract_request_frame : Bytes → Option (Bytes × Bytes)
unfolding resp_frame cut_line
extract_request_frame [] = none
extract_request_frame (c ∷ s) =
    if not (c == b'*') then cut_line (c ∷ s) else elim (resp_frame (c ∷ s)) [
      | none ↦ none
      | some (rest, malformed) ↦
          let size = length (c ∷ s) - length rest in
          let frame_size = if malformed && (size == 0) then length (c ∷ s) else size in
          some (take frame_size (c ∷ s), drop frame_size (c ∷ s))
    ]
