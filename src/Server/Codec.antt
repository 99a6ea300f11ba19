-- ===== src/Server/Codec.antt =====
-- src/app/kv_server.cpp: the lines of the log, as the file and the messages hold them, the messages that
-- a leader sends, and what it reads from the responses.
pub mod Entries
pub mod Messages
use kv.Prelude.{
  ℕ, Bool, true, false, Option, none, some, List, [], ◌∷◌, ◌++◌, Bytes, codes, is_empty,
  if◌then◌else◌, ◌==◌, bytes_eq, length, ◌>>=◌,
}
use kv.Prelude.Int.{ℤ, pos, eqb_ℤ}
use kv.Text.Decimal.{print}
use kv.Text.Words.{words, read_int}
use kv.Text.Split.{lines}
use kv.Protocol.{CommandType, put_command, del_command, expire_command}
use kv.Protocol.Hex.{hex_encode, decode_hex}
use kv.Storage.Memory.{StoreEntry}
use kv.Server.{RaftLogEntry, RaftLog, last_entry}

unfoldable pub op_name : CommandType → Bytes
op_name put_command = codes "PUT"
op_name del_command = codes "DEL"
op_name expire_command = codes "EXPIRE"
op_name _ = codes "UNKNOWN"

-- `none` is `CommandType::Unknown`.
unfoldable pub type_of_op : Bytes → Option CommandType
type_of_op op =
    if op == codes "PUT"
    then some put_command
    else if op == codes "DEL"
    then some del_command
    else if op == codes "EXPIRE"
    then some expire_command
    else none

-- A field, a space, and what follows.
abbrev pub field : Bytes → Bytes → Bytes
field text rest = text ++ b' ' ∷ rest

-- The line without its newline.
unfoldable pub entry_text : RaftLogEntry → Bytes
unfolding op_name
entry_text e = field (print e.index) (
    field (print e.term) (
      field (op_name e.type)
        (field (hex_encode e.key) (field (print e.ttl_seconds) (hex_encode e.value)))))

unfoldable pub entries_text : List RaftLogEntry → Bytes
unfolding entry_text
entries_text [] = []
entries_text (e ∷ es) = entry_text e ++ b'\n' ∷ entries_text es

-- `input >> word`.
unfoldable pub read_word : List Bytes → Option (Bytes × List Bytes)
read_word [] = none
read_word (w ∷ ws) = some (w, ws)

-- A line that is not empty.
unfoldable pub read_entry : Bytes → Option RaftLogEntry
unfolding read_word type_of_op
read_entry line = do
  (index, ws) ← read_int (words line)
  (term, ws') ← read_int ws
  (op, ws'') ← read_word ws'
  (key_hex, ws''') ← read_word ws''
  (ttl, ws'''') ← read_int ws'''
  (value_hex, _) ← read_word ws''''
  key ← decode_hex key_hex
  value ← decode_hex value_hex
  type ← type_of_op op
  some (record {
    index = index;
    term = term;
    type = type;
    key = key;
    value = value;
    ttl_seconds = ttl;
  })

-- The loop over the lines: the entries so far, and whether it came to the end.
unfoldable pub read_entries : List Bytes → List RaftLogEntry × Bool
unfolding read_entry
read_entries [] = ([], true)
read_entries (line ∷ rest) =
    let (es, ok) = read_entries rest in
    if is_empty line
    then (es, ok)
    else elim (read_entry line) [ none ↦ ([], false) | some e ↦ (e ∷ es, ok) ]

unfoldable pub decode_raft_entries_payload : Bytes → List RaftLogEntry
unfolding read_entries
decode_raft_entries_payload payload =
    let (es, ok) = read_entries (lines payload) in if ok then es else []

-- The head of the messages of the log: `term`, this node, and the entry before those that are sent.
abbrev pub append_head : ℤ → Bytes → ℤ → ℤ → ℤ → Bytes → Bytes
append_head term local_id prev_index prev_term leader_commit rest =
    field (codes "RAFT_APPEND_ENTRIES") (
      field (print term) (
        field local_id
          (field (print prev_index) (field (print prev_term) (field (print leader_commit) rest)))))

abbrev pub batch_term : ℤ → List RaftLogEntry → ℤ
batch_term current_term entries = elim (last_entry entries) [
  | none ↦ current_term
  | some e ↦ e.term
]

-- `encode_raft_append_batch`; `local_id` and `current_term` are the router's.
unfoldable pub encode_raft_append_batch : Bytes → ℤ → List RaftLogEntry → ℤ → ℤ → ℤ → Bytes
unfolding entries_text
encode_raft_append_batch local_id current_term entries prev_index prev_term leader_commit =
    append_head (batch_term current_term entries) local_id prev_index prev_term leader_commit
      (field (print (pos (length entries))) (hex_encode (entries_text entries) ++ codes "\n"))

unfoldable pub encode_raft_commit : Bytes → ℤ → ℤ → ℤ → ℤ → Bytes
encode_raft_commit local_id term leader_commit prev_index prev_term =
    append_head term local_id prev_index prev_term leader_commit
      (field (codes "0") (hex_encode [] ++ codes "\n"))

unfoldable pub snapshot_line : StoreEntry → Bytes
snapshot_line e = field (hex_encode e.key) (field (hex_encode e.value) (print e.expire_at_ms))

-- `encode_snapshot_payload`, of the entries of the store.
unfoldable pub encode_snapshot_payload : List StoreEntry → Bytes
unfolding snapshot_line
encode_snapshot_payload [] = []
encode_snapshot_payload (e ∷ es) = snapshot_line e ++ b'\n' ∷ encode_snapshot_payload es

unfoldable pub encode_raft_snapshot : Bytes → ℤ → RaftLog → List StoreEntry → Bytes
unfolding encode_snapshot_payload
encode_raft_snapshot local_id term r entries = field (codes "RAFT_INSTALL_SNAPSHOT") (
    field (print term) (
      field local_id (
        field (print r.m_raft_last_included_index) (
          field (print r.m_raft_last_included_term)
            (hex_encode (encode_snapshot_payload entries) ++ codes "\n")))))

-- The term, whether the entries were taken, and the last index of the follower.
unfoldable pub parse_raft_append_response : Bytes → Option (ℤ × Bool × ℤ)
unfolding read_word
parse_raft_append_response response = do
  (tag, ws) ← read_word (words response)
  (term, ws') ← read_int ws
  (success, ws'') ← read_int ws'
  (match_index, _) ← read_int ws''
  if tag == codes "RAFT_APPEND" then some (term, eqb_ℤ success (pos 1), match_index) else none

unfoldable pub parse_raft_snapshot_response : Bytes → Option (ℤ × Bool)
unfolding read_word
parse_raft_snapshot_response response = do
  (tag, ws) ← read_word (words response)
  (term, ws') ← read_int ws
  (success, _) ← read_int ws'
  if tag == codes "RAFT_SNAPSHOT" then some (term, eqb_ℤ success (pos 1)) else none
