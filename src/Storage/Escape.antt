-- ===== src/Storage/Escape.antt =====
-- `escape` and `unescape` of src/storage/wal.cpp; src/storage/snapshot.cpp has the same two.
use kv.Prelude.{
  ℕ, ◌≡◌, refl, Bool, true, false, Option, none, some, [], ◌∷◌, ◌++◌, Bytes, if◌then◌else◌, ◌==◌,
  nat_eq, arith, ◌>>=◌,
}
use kv.Text.Lacks.{Lacks, All-append}

-- What one round of `escape` appends.
unfoldable pub escape_char : ℕ → Bytes
escape_char ch =
    if ch == b'\\'
    then b'\\' ∷ b'\\' ∷ []
    else if ch == b'\t'
    then b'\\' ∷ b't' ∷ []
    else if ch == b'\n'
    then b'\\' ∷ b'n' ∷ []
    else if ch == b'\r'
    then b'\\' ∷ b'r' ∷ []
    else ch ∷ []

unfoldable pub escape : Bytes → Bytes
unfolding escape_char
escape [] = []
escape (ch ∷ s) = escape_char ch ++ escape s

-- The byte that a backslash and this one stand for.
unfoldable pub unescape_char : ℕ → Option ℕ
unescape_char ch =
    if ch == b'\\'
    then some b'\\'
    else if ch == b't'
    then some b'\t'
    else if ch == b'n'
    then some b'\n'
    else if ch == b'r'
    then some b'\r'
    else none

-- The loop of `unescape`; the test says whether the byte before was a backslash.
unfoldable pub unescape_from : Bool → Bytes → Option Bytes
unescape_from true [] = none
unescape_from true (ch ∷ s) = do
  plain ← unescape_char ch
  out ← unescape_from false s
  some (plain ∷ out)
unescape_from false [] = some []
unescape_from false (ch ∷ s) = elim (ch == b'\\') [
  | true ↦ unescape_from true s
  | false ↦ do out ← unescape_from false s; some (ch ∷ out)
]

unfoldable pub unescape : Bytes → Option Bytes
unfolding unescape_from unescape_char
unescape value = unescape_from false value

unescape_from-escape_char :
    (c : ℕ) (rest : Bytes)
    → unescape_from false (escape_char c ++ rest)
      ≡ (unescape_from false rest >>= λ out. some (c ∷ out))
unfolding escape_char unescape_from unescape_char
unescape_from-escape_char c rest = ground arith

-- `unescape` undoes `escape`, for every text.
pub unescape-escape : (value : Bytes) → unescape (escape value) ≡ some value
unfolding unescape escape
unescape-escape [] = refl
unescape-escape (c ∷ s) = ground (arith, unescape_from-escape_char c (escape s), unescape-escape s)

escape_char-Lacks : (c : ℕ) → Lacks b'\t' (escape_char c) × Lacks b'\n' (escape_char c)
unfolding escape_char
escape_char-Lacks c = ground arith

-- Escaped text holds no tab and no newline.
pub escape-Lacks : (value : Bytes) → Lacks b'\t' (escape value) × Lacks b'\n' (escape value)
unfolding escape
escape-Lacks [] = (tt, tt)
escape-Lacks (c ∷ s) =
    let (t, n) = escape_char-Lacks c in
    let (ts, ns) = escape-Lacks s in
    (All-append _ (escape_char c) (escape s) t ts, All-append _ (escape_char c) (escape s) n ns)
