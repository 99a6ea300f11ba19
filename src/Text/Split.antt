-- ===== src/Text/Split.antt =====
-- Lines and fields: `std::getline` over a whole stream, and the `split_tab` of src/storage/wal.cpp
-- and src/storage/snapshot.cpp.
use kv.Prelude.{
  ℕ, ◌≡◌, true, false, List, [], ◌∷◌, ◌++◌, Bytes, is_empty, if◌then◌else◌, ◌==◌, nat_eq, arith,
  append_assoc, append-nil,
}
use kv.Text.Lacks.{Lacks}

-- The parts between separators, the last part included; `current` is the part being read.
unfoldable pub cut : ℕ → Bytes → Bytes → List Bytes
cut sep current [] = current ∷ []
cut sep current (ch ∷ s) = elim (ch == sep) [
  | true ↦ current ∷ cut sep [] s
  | false ↦ cut sep (current ++ ch ∷ []) s
]

unfoldable pub split_tab : Bytes → List Bytes
unfolding cut
split_tab line = cut b'\t' [] line

-- `while (std::getline(in, line))`: a last line with no newline counts, unless it is empty.
unfoldable pub lines_from : Bytes → Bytes → List Bytes
lines_from current [] = if is_empty current then [] else current ∷ []
lines_from current (ch ∷ s) = elim (ch == b'\n') [
  | true ↦ current ∷ lines_from [] s
  | false ↦ lines_from (current ++ ch ∷ []) s
]

unfoldable pub lines : Bytes → List Bytes
unfolding lines_from
lines s = lines_from [] s

module _ (sep : ℕ) where
  pub cut-sep :
      (p rest current : Bytes)
      → Lacks sep p
      → cut sep current (p ++ sep ∷ rest) ≡ (current ++ p) ∷ cut sep [] rest
  unfolding cut
  cut-sep [] rest current h = ground (arith, append-nil current)
  cut-sep (c ∷ p) rest current (ne, h) =
      ground (arith, cut-sep p rest (current ++ c ∷ []) h, append_assoc current (c ∷ []) p)

  pub cut-last : (p current : Bytes) → Lacks sep p → cut sep current p ≡ (current ++ p) ∷ []
  unfolding cut
  cut-last [] current h = ground (arith, append-nil current)
  cut-last (c ∷ p) current (ne, h) =
      ground (arith, cut-last p (current ++ c ∷ []) h, append_assoc current (c ∷ []) p)

lines_from-newline :
    (p rest current : Bytes)
    → Lacks b'\n' p
    → lines_from current (p ++ b'\n' ∷ rest) ≡ (current ++ p) ∷ lines_from [] rest
unfolding lines_from
lines_from-newline [] rest current h = ground (arith, append-nil current)
lines_from-newline (c ∷ p) rest current (ne, h) =
    ground (arith, lines_from-newline p rest (current ++ c ∷ []) h, append_assoc current (c ∷ []) p)

-- A line that is written with its newline is read back as the first line.
pub lines-newline : (p rest : Bytes) → Lacks b'\n' p → lines (p ++ b'\n' ∷ rest) ≡ p ∷ lines rest
unfolding lines
lines-newline p rest h = lines_from-newline p rest [] h
