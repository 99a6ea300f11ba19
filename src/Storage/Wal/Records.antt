-- ===== src/Storage/Wal/Records.antt =====
-- What is written to the log is what is read back.
use kv.Prelude.{
  ℕ, suc, ◌≡◌, ◌≢◌, refl, some, List, [], ◌∷◌, ◌++◌, Bytes, codes, bytes_beq, arith, append-nil, ap,
  ◌∙◌, sym,
}
use kv.Prelude.Int.{ℤ}
use kv.Text.Lacks.{Lacks, All, All-append}
use kv.Text.Split.{split_tab, lines, cut-sep, cut-last, lines-newline}
use kv.Text.Decimal.{print, stoll, InRange, stoll-print, All-print}
use kv.Storage.Escape.{escape, unescape-escape, escape-Lacks}
use kv.Storage.Wal.{
  Parsed, puts, expires, deletes, parse_parts, put_line, expire_line, del_line, KvStore, Outcome,
  finished, failed, threw, apply_parsed, replay_lines, replay,
}

-- A call of an `append_…` method.
pub data Entry : Type 0 where
  put : Bytes → Bytes → ℤ → Entry
  expire : Bytes → ℤ → Entry
  del : Bytes → Entry

abbrev pub line_of : Entry → Bytes
line_of (put k v x) = put_line k v x
line_of (expire k x) = expire_line k x
line_of (del k) = del_line k

abbrev pub asks : Entry → Parsed
asks (put k v x) = puts k v x
asks (expire k x) = expires k x
asks (del k) = deletes k

-- The deadline is a `long long`.
abbrev pub IsWide : Entry → Type 0
IsWide (put k v x) = InRange x
IsWide (expire k x) = InRange x
IsWide (del k) = Unit

pub print-Lacks : (x : ℤ) → Lacks b'\t' (print x) × Lacks b'\n' (print x)
print-Lacks x = (
  All-print (λ c. c ≢ b'\t') (λ d h. omega arith) (omega arith) x,
  All-print (λ c. c ≢ b'\n') (λ d h. omega arith) (omega arith) x,
)

pub stoll-print_all : (x : ℤ) → InRange x → stoll (print x) ≡ some (x, [])
stoll-print_all x h = ap stoll (sym (append-nil (print x))) ∙ stoll-print x [] h refl

split-put_line :
    (k v : Bytes) (x : ℤ)
    → split_tab (put_line k v x) ≡ codes "PUT" ∷ escape k ∷ escape v ∷ print x ∷ []
unfolding split_tab put_line
split-put_line k v x =
    cut-sep b'\t' (codes "PUT") (escape k ++ b'\t' ∷ (escape v ++ b'\t' ∷ print x)) [] (omega arith)
    ∙ ap (◌∷◌ (codes "PUT")) (
        cut-sep b'\t' (escape k) (escape v ++ b'\t' ∷ print x) [] (escape-Lacks k).0
        ∙ ap (◌∷◌ (escape k)) (
            cut-sep b'\t' (escape v) (print x) [] (escape-Lacks v).0
            ∙ ap (◌∷◌ (escape v)) (cut-last b'\t' (print x) [] (print-Lacks x).0)))

split-expire_line :
    (k : Bytes) (x : ℤ) → split_tab (expire_line k x) ≡ codes "EXPIRE" ∷ escape k ∷ print x ∷ []
unfolding split_tab expire_line
split-expire_line k x =
    cut-sep b'\t' (codes "EXPIRE") (escape k ++ b'\t' ∷ print x) [] (omega arith)
    ∙ ap (◌∷◌ (codes "EXPIRE")) (
        cut-sep b'\t' (escape k) (print x) [] (escape-Lacks k).0
        ∙ ap (◌∷◌ (escape k)) (cut-last b'\t' (print x) [] (print-Lacks x).0))

split-del_line : (k : Bytes) → split_tab (del_line k) ≡ codes "DEL" ∷ escape k ∷ []
unfolding split_tab del_line
split-del_line k =
    cut-sep b'\t' (codes "DEL") (escape k) [] (omega arith)
    ∙ ap (◌∷◌ (codes "DEL")) (cut-last b'\t' (escape k) [] (escape-Lacks k).0)

-- The line that is appended for an entry is parsed as that entry.
pub parse-line_of : (e : Entry) → IsWide e → parse_parts (split_tab (line_of e)) ≡ asks e
unfolding parse_parts bytes_beq
parse-line_of (put k v x) h =
    rw (split-put_line k v x)
      (ground (arith, unescape-escape k, unescape-escape v, stoll-print_all x h))
parse-line_of (expire k x) h =
    rw (split-expire_line k x) (ground (arith, unescape-escape k, stoll-print_all x h))
parse-line_of (del k) h = rw (split-del_line k) (ground (arith, unescape-escape k))

abbrev pub joined : Bytes → Bytes → Bytes
joined a b = a ++ b'\t' ∷ b

pub joined-Lacks : (a b : Bytes) → Lacks b'\n' a → Lacks b'\n' b → Lacks b'\n' (joined a b)
joined-Lacks a b h h' = All-append (λ c. c ≢ b'\n') a (b'\t' ∷ b) h (omega arith, h')

line_of-Lacks : (e : Entry) → Lacks b'\n' (line_of e)
unfolding put_line expire_line del_line
line_of-Lacks (put k v x) =
    joined-Lacks (codes "PUT") (joined (escape k) (joined (escape v) (print x))) (omega arith) (
      joined-Lacks (escape k) (joined (escape v) (print x)) (escape-Lacks k).1
        (joined-Lacks (escape v) (print x) (escape-Lacks v).1 (print-Lacks x).1))
line_of-Lacks (expire k x) =
    joined-Lacks (codes "EXPIRE") (joined (escape k) (print x)) (omega arith)
      (joined-Lacks (escape k) (print x) (escape-Lacks k).1 (print-Lacks x).1)
line_of-Lacks (del k) = joined-Lacks (codes "DEL") (escape k) (omega arith) (escape-Lacks k).1

-- The file after the entries have been appended to an empty log, in their order.
abbrev pub file_of : List Entry → Bytes
file_of [] = []
file_of (e ∷ es) = line_of e ++ b'\n' ∷ file_of es

-- The entries applied one after the other, up to the first that fails.
module _ {S : Type 0} (store : KvStore S) where
  abbrev pub apply_entries : (ℕ → ℤ) → ℕ → List Entry → S → Outcome S
  apply_entries clock n [] s = finished s
  apply_entries clock n (e ∷ es) s = elim (apply_parsed store (clock n) (asks e) s) [
    | finished s' ↦ apply_entries clock (suc n) es s'
    | failed s' ↦ failed s'
    | threw s' ↦ threw s'
  ]

  replay_lines-file_of :
      (clock : ℕ → ℤ) (n : ℕ) (es : List Entry) (s : S)
      → All IsWide es
      → replay_lines store clock n (lines (file_of es)) s ≡ apply_entries clock n es s
  unfolding replay_lines
  replay_lines-file_of clock n [] s h = unfold lines in refl
  replay_lines-file_of clock n (e ∷ es) s (w, ws) =
      rw (lines-newline (line_of e) (file_of es) (line_of-Lacks e), replay_lines, parse-line_of e w)
        (next (apply_parsed store (clock n) (asks e) s)
          λ s'. replay_lines-file_of clock (suc n) es s' ws)
    where
      next :
          (o : Outcome S)
          → ((s' : S)
              → replay_lines store clock (suc n) (lines (file_of es)) s'
                ≡ apply_entries clock (suc n) es s')
          → elim o [
            | finished s' ↦ replay_lines store clock (suc n) (lines (file_of es)) s'
            | failed s' ↦ failed s'
            | threw s' ↦ threw s'
          ]
            ≡ elim o [
              | finished s' ↦ apply_entries clock (suc n) es s'
              | failed s' ↦ failed s'
              | threw s' ↦ threw s'
            ]
      next (finished s') ih = ih s'
      next (failed s') ih = refl
      next (threw s') ih = refl

  pub replay-file_of :
      (clock : ℕ → ℤ) (es : List Entry) (s : S)
      → All IsWide es
      → replay store clock (some (file_of es)) s ≡ apply_entries clock 0 es s
  unfolding replay
  replay-file_of clock es s h = replay_lines-file_of clock 0 es s h
