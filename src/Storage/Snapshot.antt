-- ===== src/Storage/Snapshot.antt =====
-- src/storage/snapshot.{h,cpp}: a snapshot as the contents of its file.
pub mod RoundTrip
use kv.Prelude.{
  ℕ, suc, Bool, true, false, not, ◌&&◌, ◌||◌, Option, none, some, List, [], ◌∷◌, ◌++◌, Bytes, codes,
  is_empty, if◌then◌else◌, ◌==◌, bytes_eq,
}
use kv.Prelude.Int.{ℤ, pos}
use kv.Text.Split.{split_tab, lines}
use kv.Text.Decimal.{print}
use kv.Storage.Escape.{escape, unescape}
use kv.Storage.Memory.{StoreEntry}
use kv.Storage.Wal.{KvStore, Outcome, finished, failed, threw, stoll_value}

-- `m_path`, and the file at that path, if there is one.
pub record SnapshotFile : Type 0 where
  pub m_path : Bytes
  pub file : Option Bytes

unfoldable pub set_path : Bytes → SnapshotFile → SnapshotFile
set_path path f = record f { m_path = path }

-- What the file system answers to the calls of one `save`.
pub record SaveIo : Type 0 where
  pub directory_made : Bool
  pub tmp_opened : Bool
  pub written : Bool
  pub renamed : Bool
  pub removed : Bool
  pub renamed_again : Bool

abbrev pub header_v1 : Bytes
header_v1 = codes "TINYKV_SNAPSHOT_V1"

abbrev pub header_v2 : Bytes
header_v2 = codes "TINYKV_SNAPSHOT_V2"

unfoldable pub entry_line : StoreEntry → Bytes
entry_line e = escape e.key ++ b'\t' ∷ (escape e.value ++ b'\t' ∷ print e.expire_at_ms)

unfoldable pub body_of : List StoreEntry → Bytes
body_of [] = []
body_of (e ∷ es) = entry_line e ++ b'\n' ∷ body_of es

unfoldable pub contents_of : List StoreEntry → Bytes
contents_of es = header_v2 ++ b'\n' ∷ body_of es

-- Once the temporary file is complete: rename it over the snapshot; if that fails, remove the
-- snapshot and try once more.
unfoldable pub install : SaveIo → List StoreEntry → SnapshotFile → SnapshotFile × Bool
install io entries f =
    if io.renamed
    then (record f { file = some (contents_of entries) }, true)
    else if io.renamed_again
    then (record f { file = some (contents_of entries) }, true)
    else (record f { file = if io.removed then none else f.file }, false)

unfoldable pub save : SaveIo → List StoreEntry → SnapshotFile → SnapshotFile × Bool
unfolding install
save io entries f =
    if is_empty f.m_path
    then (f, false)
    else if not io.directory_made
    then (f, false)
    else if not io.tmp_opened
    then (f, false)
    else if not io.written
    then (f, false)
    else install io entries f

-- `v2 ? std::stoll(parts[2]) : 0`
abbrev pub deadline_of : Option Bytes → Option ℤ
deadline_of none = some (pos 0)
deadline_of (some text) = stoll_value text

module _ {S : Type 0} (store : KvStore S) where
  open store use {put_with_expire_at}

  -- A line of a snapshot whose fields are the key, the value and the text of the deadline; a
  -- version 1 line has no deadline.
  unfoldable pub load_fields : ℤ → Bytes → Bytes → Option Bytes → S → Outcome S
  load_fields now key_text value_text expire_text s = elim (unescape key_text) [
    | none ↦ failed s
    | some key ↦ elim (unescape value_text) [
      | none ↦ failed s
      | some value ↦ elim (deadline_of expire_text) [
        | none ↦ threw s
        | some x ↦
            let (s', ok) = put_with_expire_at now key value x s in
            if ok then finished s' else failed s'
      ]
    ]
  ]

  -- The test on `parts.size()`; `v2` is the version.
  unfoldable pub load_parts : Bool → ℤ → List Bytes → S → Outcome S
  unfolding load_fields
  load_parts false now (key ∷ value ∷ []) s = load_fields now key value none s
  load_parts true now (key ∷ value ∷ x ∷ []) s = load_fields now key value (some x) s
  load_parts _ now parts s = failed s

  unfoldable pub load_lines : Bool → (ℕ → ℤ) → ℕ → List Bytes → S → Outcome S
  load_lines v2 clock n [] s = finished s
  load_lines v2 clock n (line ∷ rest) s = elim (load_parts v2 (clock n) (split_tab line) s) [
    | finished s' ↦ load_lines v2 clock (suc n) rest s'
    | failed s' ↦ failed s'
    | threw s' ↦ threw s'
  ]

  unfoldable pub load_header : (ℕ → ℤ) → List Bytes → S → Outcome S
  unfolding load_lines load_parts
  load_header clock [] s = failed s
  load_header clock (line ∷ rest) s =
      if line == header_v2
      then load_lines true clock 0 rest s
      else if line == header_v1
      then load_lines false clock 0 rest s
      else failed s

  -- An empty path or a file that is not there loads nothing.
  unfoldable pub load : (ℕ → ℤ) → SnapshotFile → S → Outcome S
  unfolding load_header
  load clock f s =
      if is_empty f.m_path
      then finished s
      else elim f.file [ none ↦ finished s | some contents ↦ load_header clock (lines contents) s ]
