-- ===== src/Server/Codec/Messages.antt =====
-- What a follower reads of the message of a leader, and the leader of the response.
use kv.Prelude.{
  ℕ, ◌<◌, ◌^◌, ◌/◌, ◌%◌, ◌≡◌, refl, Bool, true, some, List, [], ◌∷◌, ◌++◌, Bytes, codes, bytes_eq,
  bytes_beq, length, arith, ap, ◌∙◌, ◌>>=◌,
}
use kv.Prelude.Int.{ℤ, pos}
use kv.Text.Lacks.{All-append}
use kv.Text.Decimal.{print, All-print}
use kv.Text.Words.{
  words, words-lined, lined, IsWord, has_no_space, IsWord-literal, fits_int, read_int-print,
}
use kv.Protocol.{
  Request, CommandType, request_of, text_protocol, raft_append_entries, upper, put_command,
  del_command, expire_command,
}
use kv.Protocol.Arguments.{parse_args, parse_append_args, parse_batch, or_error, natural_long}
use kv.Protocol.Hex.{hex_encode, hex_pairs, hex_digit, decode_hex-hex_encode, AreBytes}
use kv.Protocol.Resp.Frames.{parse_long-print, not_negative}
use kv.Protocol.Requests.{received}
use kv.Protocol.Requests.Lines.{received-lined}
use kv.Protocol.Requests.Forwarding.{to_int-small}
use kv.Cluster.Router.Election.{flag}
use kv.Cluster.Router.Replies.{flag-NoSpace, read_int-flag, eqb-flag}
use kv.Server.{RaftLogEntry}
use kv.Server.Codec.{
  op_name, entry_text, entries_text, batch_term, encode_raft_append_batch, read_word,
  parse_raft_append_response, decode_raft_entries_payload,
}
use kv.Server.Codec.Entries.{
  AreEntries, IsEntry, hex_encode-IsWord, print-IsWord, decode_raft_entries_payload-entries_text,
}
use kv.Server.Append.{raft_reply}

-- The text of entries is made of bytes.
IsByte : ℕ → Type 0
IsByte c = c < 256

print-AreBytes : (z : ℤ) → AreBytes (print z)
print-AreBytes z = All-print (λ c. c < 256) (λ d h. omega arith) (omega arith) z

hex_pairs-AreBytes : (value : Bytes) → AreBytes value → AreBytes (hex_pairs value)
unfolding hex_pairs
hex_pairs-AreBytes [] h = tt
hex_pairs-AreBytes (c ∷ value) (b, h) =
    (digit (c / 16) (omega arith), (digit (c % 16) (omega arith), hex_pairs-AreBytes value h))
  where
    digit : (d : ℕ) → d < 16 → hex_digit d < 256
    digit d h = unfold hex_digit in ground arith

hex_encode-AreBytes : (value : Bytes) → AreBytes value → AreBytes (hex_encode value)
unfolding hex_encode
hex_encode-AreBytes [] h = (omega arith, tt)
hex_encode-AreBytes (c ∷ value) h = hex_pairs-AreBytes (c ∷ value) h

op_name-AreBytes : (type : CommandType) → AreBytes (op_name type)
unfolding op_name
op_name-AreBytes put_command = omega arith
op_name-AreBytes del_command = omega arith
op_name-AreBytes expire_command = omega arith
op_name-AreBytes _ = omega arith

field-AreBytes : (a b : Bytes) → AreBytes a → AreBytes b → AreBytes (a ++ b' ' ∷ b)
field-AreBytes a b ha hb = All-append (λ c. c < 256) a (b' ' ∷ b) ha (omega arith, hb)

entry_text-AreBytes : (e : RaftLogEntry) → IsEntry e → AreBytes (entry_text e)
unfolding entry_text
entry_text-AreBytes e h = field-AreBytes (print e.index) _ (print-AreBytes e.index) (
    field-AreBytes (print e.term) _ (print-AreBytes e.term) (
      field-AreBytes (op_name e.type) _ (op_name-AreBytes e.type) (
        field-AreBytes (hex_encode e.key) _ (hex_encode-AreBytes e.key h.key_bytes) (
          field-AreBytes (print e.ttl_seconds) _ (print-AreBytes e.ttl_seconds)
            (hex_encode-AreBytes e.value h.value_bytes)))))

entries_text-AreBytes : (es : List RaftLogEntry) → AreEntries es → AreBytes (entries_text es)
unfolding entries_text
entries_text-AreBytes [] h = tt
entries_text-AreBytes (e ∷ es) (h, hs) =
    All-append (λ c. c < 256) (entry_text e) (b'\n' ∷ entries_text es) (entry_text-AreBytes e h)
      (omega arith, entries_text-AreBytes es hs)

-- The request that a batch of entries is.
abbrev batch_request : ℕ → Bytes → ℕ → ℕ → ℕ → List RaftLogEntry → Request
batch_request term local_id prev_index prev_term leader_commit entries =
    record (request_of text_protocol raft_append_entries) {
      term = pos term;
      node_id = local_id;
      prev_log_index = pos prev_index;
      prev_log_term = pos prev_term;
      leader_commit = pos leader_commit;
      log_index = pos 0;
      entry_count = pos (length entries);
      snapshot_payload = entries_text entries;
    }

parse_args-append :
    (args : List Bytes)
    → parse_args text_protocol (upper (codes "RAFT_APPEND_ENTRIES") ∷ args)
      ≡ parse_append_args text_protocol args
unfolding parse_args upper bytes_beq
parse_args-append args = refl

module _ (term prev_index prev_term leader_commit : ℕ) (local_id : Bytes)
    (entries : List RaftLogEntry) (term_fits : term < 2 ^ 31) (prev_fits : prev_index < 2 ^ 31)
    (prev_term_fits : prev_term < 2 ^ 31) (commit_fits : leader_commit < 2 ^ 31)
    (count_fits : length entries < 2 ^ 31) (is_word : IsWord local_id)
    (h : AreEntries entries) where
  batch_args : List Bytes
  batch_args =
      print (pos term)
      ∷ local_id
      ∷ print (pos prev_index)
      ∷ print (pos prev_term)
      ∷ print (pos leader_commit)
      ∷ print (pos (length entries))
      ∷ hex_encode (entries_text entries)
      ∷ []

  parse_append_args-batch :
      parse_append_args text_protocol batch_args
      ≡ batch_request term local_id prev_index prev_term leader_commit entries
  unfolding parse_append_args batch_args
  parse_append_args-batch =
      rw
        (
          parse_append_args,
          parse_long-print term (omega (arith, term_fits)),
          not_negative term,
          parse_batch,
          or_error,
          ◌>>=◌,
          natural_long,
          parse_long-print prev_index (omega (arith, prev_fits)),
          not_negative prev_index,
          parse_long-print prev_term (omega (arith, prev_term_fits)),
          not_negative prev_term,
          parse_long-print leader_commit (omega (arith, commit_fits)),
          not_negative leader_commit,
          parse_long-print (length entries) (omega (arith, count_fits)),
          not_negative (length entries),
          decode_hex-hex_encode (entries_text entries) (entries_text-AreBytes entries h),
          to_int-small term term_fits,
          to_int-small prev_index prev_fits,
          to_int-small prev_term prev_term_fits,
          to_int-small leader_commit commit_fits,
          to_int-small (length entries) count_fits,
        )
        refl

  -- The request that a follower reads.
  received_batch :
      (reserves : ℕ → Bool) (current_term : ℤ)
      → batch_term current_term entries ≡ pos term
      → received reserves (
          encode_raft_append_batch local_id current_term entries
            (pos prev_index)
            (pos prev_term)
            (pos leader_commit))
        ≡ some (batch_request term local_id prev_index prev_term leader_commit entries)
  unfolding encode_raft_append_batch batch_args has_no_space upper bytes_beq
  received_batch reserves current_term sent =
      ap (λ z. received reserves (message z)) sent
      ∙ received-lined reserves (codes "AFT_APPEND_ENTRIES") (print (pos term))
          (local_id
            ∷ print (pos prev_index)
            ∷ print (pos prev_term)
            ∷ print (pos leader_commit)
            ∷ print (pos (length entries))
            ∷ hex_encode (entries_text entries)
            ∷ [])
          (
            IsWord-literal (codes "RAFT_APPEND_ENTRIES") refl refl,
            (
              print-IsWord (pos term),
              (
                is_word,
                (
                  print-IsWord (pos prev_index),
                  (
                    print-IsWord (pos prev_term),
                    (
                      print-IsWord (pos leader_commit),
                      (
                        print-IsWord (pos (length entries)),
                        (
                          hex_encode-IsWord (entries_text entries)
                              (entries_text-AreBytes entries h),
                          tt,
                        ),
                      ),
                    ),
                  ),
                ),
              ),
            ),
          )
          refl
      ∙ ap some (parse_args-append batch_args ∙ parse_append_args-batch)
    where
      message : ℤ → Bytes
      message z = lined (
          codes "RAFT_APPEND_ENTRIES"
          ∷ print z
          ∷ local_id
          ∷ print (pos prev_index)
          ∷ print (pos prev_term)
          ∷ print (pos leader_commit)
          ∷ print (pos (length entries))
          ∷ hex_encode (entries_text entries)
          ∷ [])

  -- A follower reads what the leader sends as a batch, and decodes its payload to the entries that the
  -- leader sent, in their order; their count, the identifier of the leader, and the indices and the term
  -- that go with them are those of the leader, and the term of the batch is that of its last entry, or
  -- else the leader's. The numbers are of type int and not negative, the leader's identifier is a word,
  -- and the entries have the types of the program.
  pub received-encode_raft_append_batch :
      (reserves : ℕ → Bool) (current_term : ℤ)
      → batch_term current_term entries ≡ pos term
      → (request : Request) × (received reserves (
            encode_raft_append_batch local_id current_term entries
              (pos prev_index)
              (pos prev_term)
              (pos leader_commit))
          ≡ some request)
        × (request.type ≡ raft_append_entries)
        × (decode_raft_entries_payload request.snapshot_payload ≡ entries)
        × (request.entry_count ≡ pos (length entries))
        × (request.term ≡ pos term)
        × (request.node_id ≡ local_id)
        × (request.prev_log_index ≡ pos prev_index)
        × (request.prev_log_term ≡ pos prev_term)
        × (request.leader_commit ≡ pos leader_commit)
  received-encode_raft_append_batch reserves current_term sent = (
    batch_request term local_id prev_index prev_term leader_commit entries,
    received_batch reserves current_term sent,
    refl,
    decode_raft_entries_payload-entries_text entries h,
    refl,
    refl,
    refl,
    refl,
    refl,
    refl,
  )

words-raft_reply :
    (term index : ℤ) (b : Bool)
    → words (raft_reply term b index) ≡ codes "RAFT_APPEND" ∷ print term ∷ flag b ∷ print index ∷ []
unfolding raft_reply has_no_space
words-raft_reply term index b =
    words-lined (codes "RAFT_APPEND" ∷ print term ∷ flag b ∷ print index ∷ []) (
      IsWord-literal (codes "RAFT_APPEND") refl refl,
      (print-IsWord term, (flag-NoSpace b, (print-IsWord index, tt))),
    )

-- The leader reads the term, the answer and the index that the follower responded with, for every term
-- and index of type int.
pub parse_raft_append_response-raft_reply :
    (term index : ℤ) (b : Bool)
    → fits_int term ≡ true
    → fits_int index ≡ true
    → parse_raft_append_response (raft_reply term b index) ≡ some (term, b, index)
unfolding parse_raft_append_response read_word bytes_beq
parse_raft_append_response-raft_reply term index b term_fits index_fits =
    rw
      (
        words-raft_reply term index b,
        ◌>>=◌,
        read_int-print term (flag b ∷ print index ∷ []) term_fits,
        read_int-flag b (print index ∷ []),
        read_int-print index [] index_fits,
      )
      (ap (λ b. some (term, b, index)) (eqb-flag b))
