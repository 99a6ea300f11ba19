-- ===== src/Protocol/Resp/Frames.antt =====
-- A RESP request is read as its arguments, and is cut off what follows it in the buffer.
use kv.Prelude.{
  ℕ, suc, ◌+◌, ◌-◌, ◌^◌, ◌<◌, ◌≡◌, ◌≢◌, refl, Bool, true, false, Option, none, some, List, [], ◌∷◌,
  ◌++◌, Bytes, ltb, nat_eq, bytes_eq, length, arith, append_assoc, length-append,
  take-append_length, drop-append_length, ap, sym, ◌∙◌, bytes_beq,
}
use kv.Prelude.Int.{ℤ, pos, ltb_ℤ, leb_ℤ}
use kv.Text.Lacks.{All}
use kv.Text.Decimal.{print, All-print}
use kv.Storage.Wal.Records.{stoll-print_all}
use kv.Protocol.{resp_protocol, parse_long}
use kv.Protocol.Arguments.{parse_args}
use kv.Protocol.Resp.{
  read_crlf_line, header_number, read_bulk, bulk, read_args, parse_resp_request, frame_args,
  resp_frame, extract_request_frame,
}

abbrev pub crlf : Bytes → Bytes
crlf rest = b'\r' ∷ b'\n' ∷ rest

-- An argument before a text.
abbrev pub bulk_before : Bytes → Bytes → Bytes
bulk_before arg rest = b'$' ∷ (print (pos (length arg)) ++ crlf (arg ++ crlf rest))

abbrev pub bulks_before : List Bytes → Bytes → Bytes
bulks_before [] rest = rest
bulks_before (arg ∷ args) rest = bulk_before arg (bulks_before args rest)

-- A request with these arguments, before a text.
abbrev pub request_before : List Bytes → Bytes → Bytes
request_before args rest = b'*' ∷ (print (pos (length args)) ++ crlf (bulks_before args rest))

read_crlf_line-line :
    (l rest : Bytes) → All (λ c. c ≢ b'\r') l → read_crlf_line (l ++ crlf rest) ≡ some (l, rest)
unfolding read_crlf_line
read_crlf_line-line [] rest h = at_once (read_crlf_line (b'\n' ∷ rest))
  where
    at_once :
        (o : Option (Bytes × Bytes))
        → elim o as (λ _. Option (Bytes × Bytes)) [
          | none ↦ some ([], rest)
          | some (line, after) ↦ some ([], rest)
        ]
          ≡ some ([], rest)
    at_once none = refl
    at_once (some p) = refl
read_crlf_line-line (c ∷ []) rest (ne, _) = ground (arith, read_crlf_line-line [] rest tt)
read_crlf_line-line (c ∷ d ∷ l) rest (ne, h) = ground (arith, read_crlf_line-line (d ∷ l) rest h)

print-NoReturn : (z : ℤ) → All (λ c. c ≢ b'\r') (print z)
print-NoReturn z = All-print (λ c. c ≢ b'\r') (λ d h. omega arith) (omega arith) z

pub parse_long-print : (n : ℕ) → n < 2 ^ 63 → parse_long (print (pos n)) ≡ some (pos n)
unfolding parse_long
parse_long-print n h = rw (stoll-print_all (pos n) h, parse_long) refl

pub not_negative : (n : ℕ) → ltb_ℤ (pos n) (pos 0) ≡ false
not_negative n = ground arith

pub more_than_zero : (n : ℕ) → leb_ℤ (pos (suc n)) (pos 0) ≡ false
more_than_zero n = ground arith

read_bulk-bulk :
    (arg rest : Bytes) → length arg < 2 ^ 63 → read_bulk (bulk_before arg rest) ≡ bulk arg rest
unfolding read_bulk header_number bytes_beq
read_bulk-bulk arg rest h =
    rw
      (
        read_bulk,
        read_crlf_line-line (b'$' ∷ print (pos (length arg))) (arg ++ crlf rest)
            (omega arith, print-NoReturn (pos (length arg))),
        header_number,
        parse_long-print (length arg) h,
        not_negative (length arg),
        enough,
        drop-append_length arg (crlf rest),
        take-append_length arg (crlf rest),
      )
      refl
  where
    enough : ltb (length (arg ++ crlf rest)) (length arg + 2) ≡ false
    enough = ground (arith, length-append arg (crlf rest))

abbrev pub AllShort : List Bytes → Type 0
AllShort = All (λ arg. length arg < 2 ^ 63)

read_args-bulks :
    (args : List Bytes) (rest : Bytes)
    → AllShort args
    → read_args (length args) (bulks_before args rest) ≡ some (args, rest)
unfolding read_args
read_args-bulks [] rest _ = refl
read_args-bulks (arg ∷ args) rest (h, hs) =
    rw (read_args, read_bulk-bulk arg (bulks_before args rest) h, read_args-bulks args rest hs) refl

frame_args-bulks :
    (args : List Bytes) (rest : Bytes)
    → AllShort args
    → frame_args (length args) (bulks_before args rest) ≡ some (rest, false)
unfolding frame_args
frame_args-bulks [] rest _ = refl
frame_args-bulks (arg ∷ args) rest (h, hs) =
    rw (frame_args, read_bulk-bulk arg (bulks_before args rest) h) (frame_args-bulks args rest hs)

-- The parser reads a request of RESP as its arguments, whatever bytes they hold; there is an argument,
-- their number and lengths are 64-bit numbers, and the vector can reserve room for so many.
pub parse_resp_request-request :
    (reserves : ℕ → Bool) (arg : Bytes) (args : List Bytes)
    → reserves (length (arg ∷ args)) ≡ true
    → length (arg ∷ args) < 2 ^ 63
    → AllShort (arg ∷ args)
    → parse_resp_request reserves (request_before (arg ∷ args) [])
      ≡ some (parse_args resp_protocol (arg ∷ args))
unfolding parse_resp_request header_number
parse_resp_request-request reserves arg args room h hs =
    rw
      (
        parse_resp_request,
        read_crlf_line-line (b'*' ∷ print (pos (length (arg ∷ args))))
            (bulks_before (arg ∷ args) [])
            (omega arith, print-NoReturn (pos (length (arg ∷ args)))),
        header_number,
        parse_long-print (length (arg ∷ args)) h,
        more_than_zero (length args),
        room,
        read_args-bulks (arg ∷ args) [] hs,
      )
      refl

resp_frame-request :
    (arg : Bytes) (args : List Bytes) (rest : Bytes)
    → length (arg ∷ args) < 2 ^ 63
    → AllShort (arg ∷ args)
    → resp_frame (request_before (arg ∷ args) rest) ≡ some (rest, false)
unfolding resp_frame header_number
resp_frame-request arg args rest h hs =
    rw
      (
        resp_frame,
        read_crlf_line-line (b'*' ∷ print (pos (length (arg ∷ args))))
            (bulks_before (arg ∷ args) rest)
            (omega arith, print-NoReturn (pos (length (arg ∷ args)))),
        header_number,
        parse_long-print (length (arg ∷ args)) h,
        more_than_zero (length args),
      )
      (frame_args-bulks (arg ∷ args) rest hs)

bulk_before-append : (arg a b : Bytes) → bulk_before arg (a ++ b) ≡ bulk_before arg a ++ b
bulk_before-append arg a b =
    ap (λ l. b'$' ∷ (print (pos (length arg)) ++ crlf l)) (sym (append_assoc arg (crlf a) b))
    ∙ ap (λ l. b'$' ∷ l) (sym (append_assoc (print (pos (length arg))) (crlf (arg ++ crlf a)) b))

bulks_before-append :
    (args : List Bytes) (rest : Bytes) → bulks_before args rest ≡ bulks_before args [] ++ rest
bulks_before-append [] rest = refl
bulks_before-append (arg ∷ args) rest =
    ap (bulk_before arg) (bulks_before-append args rest)
    ∙ bulk_before-append arg (bulks_before args []) rest

request_before-append :
    (args : List Bytes) (rest : Bytes) → request_before args rest ≡ request_before args [] ++ rest
request_before-append args rest =
    ap (λ l. b'*' ∷ (print (pos (length args)) ++ crlf l)) (bulks_before-append args rest)
    ∙ ap (λ l. b'*' ∷ l)
        (sym (append_assoc (print (pos (length args))) (crlf (bulks_before args [])) rest))

-- The frame is what stands before the text that follows it.
cut_frame :
    (frame rest : Bytes)
    → resp_frame (b'*' ∷ (frame ++ rest)) ≡ some (rest, false)
    → extract_request_frame (b'*' ∷ (frame ++ rest)) ≡ some (b'*' ∷ frame, rest)
unfolding extract_request_frame
cut_frame frame rest h =
    rw
      (
        extract_request_frame,
        h,
        size,
        take-append_length (b'*' ∷ frame) rest,
        drop-append_length (b'*' ∷ frame) rest,
      )
      refl
  where
    size : length (b'*' ∷ (frame ++ rest)) - length rest ≡ length (b'*' ∷ frame)
    size = ground (arith, length-append frame rest)

-- A request of RESP at the start of the buffer is the next frame, whatever bytes its arguments hold,
-- and all that follows it stays pending; there is an argument, and their number and lengths are
-- 64-bit numbers.
pub extract_request_frame-request :
    (arg : Bytes) (args : List Bytes) (rest : Bytes)
    → length (arg ∷ args) < 2 ^ 63
    → AllShort (arg ∷ args)
    → extract_request_frame (request_before (arg ∷ args) [] ++ rest)
      ≡ some (request_before (arg ∷ args) [], rest)
extract_request_frame-request arg args rest h hs =
    cut_frame (print (pos (length (arg ∷ args))) ++ crlf (bulks_before (arg ∷ args) [])) rest (
      ap resp_frame (sym (request_before-append (arg ∷ args) rest))
      ∙ resp_frame-request arg args rest h hs)
