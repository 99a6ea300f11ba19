-- ===== src/Storage/Snapshot/RoundTrip.antt =====
-- What `save` writes is what `load` reads.
use kv.Prelude.{
  ℕ, suc, ◌≡◌, refl, true, false, some, List, [], ◌∷◌, ◌++◌, bytes_beq, arith, ap, ◌∙◌,
  if◌then◌else◌, is_empty,
}
use kv.Prelude.Int.{ℤ}
use kv.Text.Lacks.{Lacks, All}
use kv.Text.Split.{split_tab, lines, cut-sep, cut-last, lines-newline}
use kv.Text.Decimal.{print, InRange}
use kv.Storage.Escape.{escape, unescape-escape, escape-Lacks}
use kv.Storage.Memory.{StoreEntry}
use kv.Storage.Wal.{KvStore, Outcome, finished, failed}
use kv.Storage.Wal.Records.{stoll-print_all, print-Lacks, joined, joined-Lacks}
use kv.Storage.Snapshot.{
  SnapshotFile, SaveIo, save, load, load_header, load_lines, load_parts, load_fields, entry_line,
  body_of, contents_of, header_v2,
}

split-entry_line :
    (e : StoreEntry)
    → split_tab (entry_line e) ≡ escape e.key ∷ escape e.value ∷ print e.expire_at_ms ∷ []
unfolding split_tab entry_line
split-entry_line e =
    cut-sep b'\t' (escape e.key) (escape e.value ++ b'\t' ∷ print e.expire_at_ms) []
      (escape-Lacks e.key).0
    ∙ ap (◌∷◌ (escape e.key)) (
        cut-sep b'\t' (escape e.value) (print e.expire_at_ms) [] (escape-Lacks e.value).0
        ∙ ap (◌∷◌ (escape e.value))
            (cut-last b'\t' (print e.expire_at_ms) [] (print-Lacks e.expire_at_ms).0))

entry_line-Lacks : (e : StoreEntry) → Lacks b'\n' (entry_line e)
unfolding entry_line
entry_line-Lacks e =
    joined-Lacks (escape e.key) (joined (escape e.value) (print e.expire_at_ms))
      (escape-Lacks e.key).1
      (joined-Lacks (escape e.value) (print e.expire_at_ms) (escape-Lacks e.value).1
        (print-Lacks e.expire_at_ms).1)

save-file :
    (io : SaveIo) (es : List StoreEntry) (f : SnapshotFile)
    → (save io es f).1 ≡ true
    → (is_empty (save io es f).0.m_path ≡ false) × ((save io es f).0.file ≡ some (contents_of es))
unfolding save
save-file io es f h = ground arith

abbrev pub IsWide : StoreEntry → Type 0
IsWide e = InRange e.expire_at_ms

module _ {S : Type 0} (store : KvStore S) where
  open store use {put_with_expire_at}

  -- The entries put one after the other, up to the first that is refused.
  abbrev pub put_all : (ℕ → ℤ) → ℕ → List StoreEntry → S → Outcome S
  put_all clock n [] s = finished s
  put_all clock n (e ∷ es) s =
      let (s', ok) = put_with_expire_at (clock n) e.key e.value e.expire_at_ms s in
      let rest = put_all clock (suc n) es s' in if ok then rest else failed s'

  fields_of :
      (clock : ℕ → ℤ) (n : ℕ) (e : StoreEntry) (s : S)
      → IsWide e
      → load_fields store (clock n) (escape e.key) (escape e.value) (some (print e.expire_at_ms)) s
        ≡ (let (s', ok) = put_with_expire_at (clock n) e.key e.value e.expire_at_ms s in
            if ok then finished s' else failed s')
  unfolding load_fields
  fields_of clock n e s w = rw (
    load_fields,
    unescape-escape e.key,
    unescape-escape e.value,
    stoll-print_all e.expire_at_ms w,
  )

  load_lines-body_of :
      (clock : ℕ → ℤ) (n : ℕ) (es : List StoreEntry) (s : S)
      → All IsWide es
      → load_lines store true clock n (lines (body_of es)) s ≡ put_all clock n es s
  unfolding load_lines load_parts body_of
  load_lines-body_of clock n [] s h = unfold lines in refl
  load_lines-body_of clock n (e ∷ es) s (w, ws) =
      rw
        (
          lines-newline (entry_line e) (body_of es) (entry_line-Lacks e),
          load_lines,
          split-entry_line e,
        )
        (rw (fields_of clock n e s w) (
          ground (
            arith,
            load_lines-body_of clock (suc n) es
                (put_with_expire_at (clock n) e.key e.value e.expire_at_ms s).0 ws,
          )))

  load_header-contents_of :
      (clock : ℕ → ℤ) (es : List StoreEntry) (s : S)
      → All IsWide es
      → load_header store clock (lines (contents_of es)) s ≡ put_all clock 0 es s
  unfolding load_header contents_of bytes_beq
  load_header-contents_of clock es s h =
      rw (lines-newline header_v2 (body_of es) (omega arith)) (load_lines-body_of clock 0 es s h)

  pub load-contents_of :
      (clock : ℕ → ℤ) (es : List StoreEntry) (f : SnapshotFile) (s : S)
      → All IsWide es
      → is_empty f.m_path ≡ false
      → f.file ≡ some (contents_of es)
      → load store clock f s ≡ put_all clock 0 es s
  unfolding load
  load-contents_of clock es f s h path contents =
      rw (path, contents, load) (load_header-contents_of clock es s h)

  -- A snapshot that was saved is loaded as its entries, put in their order, whatever bytes their
  -- keys and values hold and whether it took one renaming or two; all deadlines are 64-bit numbers.
  pub load-save :
      (clock : ℕ → ℤ) (io : SaveIo) (es : List StoreEntry) (f : SnapshotFile) (s : S)
      → All IsWide es
      → (save io es f).1 ≡ true
      → load store clock (save io es f).0 s ≡ put_all clock 0 es s
  load-save clock io es f s h saved =
      let (path, contents) = save-file io es f saved in
      load-contents_of clock es (save io es f).0 s h path contents
