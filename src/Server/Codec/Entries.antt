-- ===== src/Server/Codec/Entries.antt =====
-- The entries of a log are read back as they were written.
use kv.Prelude.{
  ◌≡◌, refl, true, false, some, List, [], ◌∷◌, ◌++◌, Bytes, is_empty, arith, ap, ◌<◌, ℕ, ◌/◌, ◌%◌,
}
use kv.Prelude.Int.{ℤ}
use kv.Text.Lacks.{All, Lacks}
use kv.Text.Decimal.{print, is_space, print_not_empty}
use kv.Text.Words.{words, words-spaced, spaced-Lacks, IsWord, NoSpace, fits_int, read_int-print}
use kv.Text.Split.{lines, lines-newline}
use kv.Cluster.Router.Meta.{print-NoSpace}
use kv.Protocol.{CommandType, put_command, del_command, expire_command}
use kv.Protocol.Hex.{hex_encode, hex_pairs, hex_digit, decode_hex-hex_encode, AreBytes}
use kv.Server.{RaftLogEntry}
use kv.Server.Codec.{
  op_name, type_of_op, entry_text, entries_text, read_word, read_entry, read_entries,
  decode_raft_entries_payload,
}

-- The operations that the log holds.
abbrev pub IsWrite : CommandType → Type 0
IsWrite type = type_of_op (op_name type) ≡ some type

-- What a `RaftLogEntry` of the program holds.
pub record IsEntry (e : RaftLogEntry) : Type 0 where
  pub index_fits : fits_int e.index ≡ true
  pub term_fits : fits_int e.term ≡ true
  pub ttl_fits : fits_int e.ttl_seconds ≡ true
  pub is_write : IsWrite e.type
  pub key_bytes : AreBytes e.key
  pub value_bytes : AreBytes e.value

hex_digit-NoSpace : (d : ℕ) → d < 16 → is_space (hex_digit d) ≡ false
unfolding hex_digit is_space
hex_digit-NoSpace d h = ground arith

hex_pairs-NoSpace : (value : Bytes) → AreBytes value → NoSpace (hex_pairs value)
unfolding hex_pairs
hex_pairs-NoSpace [] h = tt
hex_pairs-NoSpace (c ∷ value) (b, h) = (
  hex_digit-NoSpace (c / 16) (omega arith),
  (hex_digit-NoSpace (c % 16) (omega arith), hex_pairs-NoSpace value h),
)

pub hex_encode-IsWord : (value : Bytes) → AreBytes value → IsWord (hex_encode value)
unfolding hex_encode is_space
hex_encode-IsWord [] h = ((refl, tt), refl)
hex_encode-IsWord (c ∷ value) h = unfold hex_pairs in (hex_pairs-NoSpace (c ∷ value) h, refl)

pub print-IsWord : (z : ℤ) → IsWord (print z)
print-IsWord z = (print-NoSpace z, print_not_empty z)

op_name-IsWord : (type : CommandType) → IsWrite type → IsWord (op_name type)
unfolding op_name is_space
op_name-IsWord put_command h = ((refl, (refl, (refl, tt))), refl)
op_name-IsWord del_command h = ((refl, (refl, (refl, tt))), refl)
op_name-IsWord expire_command h = ((refl, (refl, (refl, (refl, (refl, (refl, tt)))))), refl)
op_name-IsWord _ h = ((refl, (refl, (refl, (refl, (refl, (refl, (refl, tt))))))), refl)

abbrev entry_words : RaftLogEntry → List Bytes
entry_words e =
    print e.index
    ∷ print e.term
    ∷ op_name e.type
    ∷ hex_encode e.key
    ∷ print e.ttl_seconds
    ∷ hex_encode e.value
    ∷ []

entry_words-IsWord : (e : RaftLogEntry) → IsEntry e → All IsWord (entry_words e)
entry_words-IsWord e h = (
  print-IsWord e.index,
  (
    print-IsWord e.term,
    (
      op_name-IsWord e.type h.is_write,
      (
        hex_encode-IsWord e.key h.key_bytes,
        (print-IsWord e.ttl_seconds, (hex_encode-IsWord e.value h.value_bytes, tt)),
      ),
    ),
  ),
)

words-entry_text : (e : RaftLogEntry) → IsEntry e → words (entry_text e) ≡ entry_words e
unfolding entry_text
words-entry_text e h = words-spaced (entry_words e) (entry_words-IsWord e h)

pub read_entry-entry_text : (e : RaftLogEntry) → IsEntry e → read_entry (entry_text e) ≡ some e
unfolding read_entry read_word
read_entry-entry_text e h =
    rw
      (
        read_entry,
        words-entry_text e h,
        read_int-print e.index _ h.index_fits,
        read_int-print e.term _ h.term_fits,
        read_int-print e.ttl_seconds _ h.ttl_fits,
        decode_hex-hex_encode e.key h.key_bytes,
        decode_hex-hex_encode e.value h.value_bytes,
        h.is_write,
      )
      refl

entry_text-Lacks : (e : RaftLogEntry) → IsEntry e → Lacks b'\n' (entry_text e)
unfolding entry_text
entry_text-Lacks e h = spaced-Lacks (entry_words e) (entry_words-IsWord e h)

not_empty-append : (a b : Bytes) → is_empty a ≡ false → is_empty (a ++ b) ≡ false
not_empty-append [] b h = cc
not_empty-append (c ∷ a) b h = refl

entry_text_not_empty : (e : RaftLogEntry) → is_empty (entry_text e) ≡ false
unfolding entry_text
entry_text_not_empty e = not_empty-append (print e.index) _ (print_not_empty e.index)

abbrev pub AreEntries : List RaftLogEntry → Type 0
AreEntries = All IsEntry

pub read_entries-entries_text :
    (es : List RaftLogEntry) → AreEntries es → read_entries (lines (entries_text es)) ≡ (es, true)
unfolding read_entries entries_text
read_entries-entries_text [] h = unfold lines in refl
read_entries-entries_text (e ∷ es) (h, hs) =
    rw
      (
        lines-newline (entry_text e) (entries_text es) (entry_text-Lacks e h),
        entry_text_not_empty e,
        read_entry-entry_text e h,
      )
      (ap (λ p. (e ∷ p.0, p.1)) (read_entries-entries_text es hs))

-- A follower decodes the payload to the entries that the leader encoded, in their order; an entry has
-- numbers of type int, a key and a value of bytes, and one of the operations of the log.
pub decode_raft_entries_payload-entries_text :
    (es : List RaftLogEntry) → AreEntries es → decode_raft_entries_payload (entries_text es) ≡ es
unfolding decode_raft_entries_payload
decode_raft_entries_payload-entries_text es h = rw (read_entries-entries_text es h) refl
