-- ===== src/Storage/Wal.antt =====
-- src/storage/wal.{h,cpp}: the write-ahead log as the contents of its file.
pub mod Records
use kv.Prelude.{
  ℕ, take, zero, suc, Bool, true, false, ◌&&◌, ◌||◌, Option, none, some, List, [], ◌∷◌, ◌++◌, Bytes,
  codes, length, if◌then◌else◌, ◌==◌, nat_eq, bytes_eq,
}
use kv.Prelude.Int.{ℤ, pos}
use kv.Text.Split.{split_tab, lines}
use kv.Text.Decimal.{print, stoll}
use kv.Storage.Escape.{escape, unescape}

-- The log's file, and whether the stream to it is open. A write is flushed at once.
pub record WriteAheadLog : Type 0 where
  pub contents : Bytes
  pub is_open : Bool

-- What the stream does with a line: it is written, or the stream fails when so many of its bytes
-- have reached the file.
pub data Write : Type 0 where
  complete : Write
  broken : ℕ → Write

-- `m_out << … << '\n'; m_out.flush(); return static_cast<bool>(m_out);`
unfoldable pub append_line : Write → Bytes → WriteAheadLog → WriteAheadLog × Bool
append_line complete line w =
    if w.is_open
    then (record w { contents = w.contents ++ (line ++ b'\n' ∷ []) }, true)
    else (w, false)
append_line (broken n) line w =
    if w.is_open
    then (record w { contents = w.contents ++ take n (line ++ b'\n' ∷ []) }, false)
    else (w, false)

unfoldable pub put_line : Bytes → Bytes → ℤ → Bytes
put_line key value expire_at_ms =
    codes "PUT" ++ b'\t' ∷ (escape key ++ b'\t' ∷ (escape value ++ b'\t' ∷ print expire_at_ms))

unfoldable pub expire_line : Bytes → ℤ → Bytes
expire_line key expire_at_ms = codes "EXPIRE" ++ b'\t' ∷ (escape key ++ b'\t' ∷ print expire_at_ms)

unfoldable pub del_line : Bytes → Bytes
del_line key = codes "DEL" ++ b'\t' ∷ escape key

unfoldable pub append_put : Write → Bytes → Bytes → ℤ → WriteAheadLog → WriteAheadLog × Bool
unfolding append_line
append_put wr key value expire_at_ms w = append_line wr (put_line key value expire_at_ms) w

unfoldable pub append_expire : Write → Bytes → ℤ → WriteAheadLog → WriteAheadLog × Bool
unfolding append_line
append_expire wr key expire_at_ms w = append_line wr (expire_line key expire_at_ms) w

unfoldable pub append_del : Write → Bytes → WriteAheadLog → WriteAheadLog × Bool
unfolding append_line
append_del wr key w = append_line wr (del_line key) w

-- `reset`: the results of the two `open` calls are arguments.
unfoldable pub reset : Bool → Bool → WriteAheadLog → WriteAheadLog × Bool
reset truncated reopened w =
    if truncated
    then (record { contents = []; is_open = reopened }, reopened)
    else (record w { is_open = false }, false)

-- The virtual methods of `KVStore` that a log or a snapshot calls.
pub record KvStore (S : Type 0) : Type 0 where
  pub put_with_expire_at : ℤ → Bytes → Bytes → ℤ → S → S × Bool
  pub expire_at : ℤ → Bytes → ℤ → S → S × Bool
  pub del : Bytes → S → S × Bool

-- How `replay` and `load` end: with `true`, with `false`, or with an exception of `std::stoll`.
pub data Outcome (S : Type 0) : Type 0 where
  finished failed threw : S → Outcome S

-- What a line of the log asks for.
pub data Parsed : Type 0 where
  puts : Bytes → Bytes → ℤ → Parsed
  expires : Bytes → ℤ → Parsed
  deletes : Bytes → Parsed
  skips malformed throws : Parsed

abbrev pub stoll_value : Bytes → Option ℤ
stoll_value text = elim (stoll text) [ none ↦ none | some (n, rest) ↦ some n ]

unfoldable pub parse_put : Bytes → Bytes → Option Bytes → Parsed
parse_put key_text value_text expire_text = elim (unescape key_text) [
  | none ↦ malformed
  | some key ↦ elim (unescape value_text) [
    | none ↦ malformed
    | some value ↦ elim expire_text [
      | none ↦ puts key value (pos 0)
      | some text ↦ elim (stoll_value text) [ none ↦ throws | some x ↦ puts key value x ]
    ]
  ]
]

unfoldable pub parse_expire : Bytes → Bytes → Parsed
parse_expire key_text expire_text = elim (unescape key_text) [
  | none ↦ malformed
  | some key ↦ elim (stoll_value expire_text) [ none ↦ throws | some x ↦ expires key x ]
]

unfoldable pub parse_del : Bytes → Parsed
parse_del key_text = elim (unescape key_text) [ none ↦ malformed | some key ↦ deletes key ]

-- The branches on `parts[0]` and `parts.size()`.
unfoldable pub parse_parts : List Bytes → Parsed
unfolding parse_put parse_expire parse_del
parse_parts [] = skips
parse_parts (tag ∷ key ∷ []) = if tag == codes "DEL" then parse_del key else malformed
parse_parts (tag ∷ key ∷ x ∷ []) =
    if tag == codes "PUT"
    then parse_put key x none
    else if tag == codes "EXPIRE"
    then parse_expire key x
    else malformed
parse_parts (tag ∷ key ∷ value ∷ x ∷ []) =
    if tag == codes "PUT" then parse_put key value (some x) else malformed
parse_parts _ = malformed

module _ {S : Type 0} (store : KvStore S) where
  open store use {put_with_expire_at, expire_at, del}

  -- What the loop does with a line, before it goes on.
  unfoldable pub apply_parsed : ℤ → Parsed → S → Outcome S
  apply_parsed now (puts key value x) s =
      let (s', ok) = put_with_expire_at now key value x s in if ok then finished s' else failed s'
  apply_parsed now (expires key x) s = finished (expire_at now key x s).0
  apply_parsed now (deletes key) s = finished (del key s).0
  apply_parsed now skips s = finished s
  apply_parsed now malformed s = failed s
  apply_parsed now throws s = threw s

  -- The loop over the lines; the clock is read once for each line.
  unfoldable pub replay_lines : (ℕ → ℤ) → ℕ → List Bytes → S → Outcome S
  replay_lines clock n [] s = finished s
  replay_lines clock n (line ∷ rest) s =
      elim (apply_parsed (clock n) (parse_parts (split_tab line)) s) [
        | finished s' ↦ replay_lines clock (suc n) rest s'
        | failed s' ↦ failed s'
        | threw s' ↦ threw s'
      ]

  -- A file that is not there is an empty log.
  unfoldable pub replay : (ℕ → ℤ) → Option Bytes → S → Outcome S
  unfolding replay_lines apply_parsed
  replay clock none s = finished s
  replay clock (some contents) s = replay_lines clock 0 (lines contents) s
