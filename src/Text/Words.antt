-- ===== src/Text/Words.antt =====
-- `operator>>` of a stream, for words and for integers of type `int`.
use kv.Prelude.{
  ℕ, ◌≡◌, ◌≢◌, ◌^◌, ◌-◌, refl, Bool, true, false, not, ◌&&◌, Option, none, some, List, [], ◌∷◌,
  ◌++◌, Bytes, is_empty, if◌then◌else◌, ◌==◌, nat_eq, arith, append_assoc, append-nil, ap, ◌∙◌, sym,
}
use kv.Prelude.Int.{ℤ, pos, negsuc, leb_ℤ}
use kv.Text.Lacks.{All, All-append, Lacks}
use kv.Text.Decimal.{is_space, scan_signed, starts_digit, print, scan_signed-print, InRange}

-- The words between white space; `current` is the word being read.
unfoldable pub words_from : Bytes → Bytes → List Bytes
words_from current [] = if is_empty current then [] else current ∷ []
words_from current (c ∷ s) =
    let next = words_from [] s in
    let longer = words_from (current ++ c ∷ []) s in
    if is_space c then (if is_empty current then next else current ∷ next) else longer

unfoldable pub words : Bytes → List Bytes
unfolding words_from
words s = words_from [] s

abbrev pub NoSpace : Bytes → Type 0
NoSpace = All (λ c. is_space c ≡ false)

words_from-space :
    (w : Bytes) (c : ℕ) (rest current : Bytes)
    → NoSpace w
    → is_space c ≡ true
    → is_empty (current ++ w) ≡ false
    → words_from current (w ++ c ∷ rest) ≡ (current ++ w) ∷ words_from [] rest
unfolding words_from
words_from-space [] c rest current _ e ne =
    ground (arith, append-nil current, ap is_empty (append-nil current))
words_from-space (d ∷ w) c rest current (e', h) e ne =
    rw (e', words_from)
      (words_from-space w c rest (current ++ d ∷ []) h e
          (ap is_empty (append_assoc current (d ∷ []) w) ∙ ne)
        ∙ ap (λ l. l ∷ words_from [] rest) (append_assoc current (d ∷ []) w))

-- A word that is written before white space is read back as the first word.
pub words-space :
    (w : Bytes) (c : ℕ) (rest : Bytes)
    → NoSpace w
    → is_space c ≡ true
    → is_empty w ≡ false
    → words (w ++ c ∷ rest) ≡ w ∷ words rest
unfolding words
words-space w c rest h e ne = words_from-space w c rest [] h e ne

pub words_from-word :
    (w current : Bytes)
    → NoSpace w
    → is_empty (current ++ w) ≡ false
    → words_from current w ≡ (current ++ w) ∷ []
unfolding words_from
words_from-word [] current h ne =
    ground (arith, append-nil current, ap is_empty (append-nil current))
words_from-word (c ∷ w) current (e, h) ne =
    rw (e, words_from)
      (words_from-word w (current ++ c ∷ []) h (ap is_empty (append_assoc current (c ∷ []) w) ∙ ne)
        ∙ ap (λ l. l ∷ []) (append_assoc current (c ∷ []) w))

abbrev pub IsWord : Bytes → Type 0
IsWord w = NoSpace w × (is_empty w ≡ false)

-- To decide by computation that a literal is a word.
unfoldable pub has_no_space : Bytes → Bool
unfolding is_space
has_no_space [] = true
has_no_space (c ∷ w) = not (is_space c) && has_no_space w

has_no_space-NoSpace : (w : Bytes) → has_no_space w ≡ true → NoSpace w
unfolding has_no_space
has_no_space-NoSpace [] h = tt
has_no_space-NoSpace (c ∷ w) h = (ground arith, has_no_space-NoSpace w (ground arith))

pub IsWord-literal : (w : Bytes) → has_no_space w ≡ true → is_empty w ≡ false → IsWord w
IsWord-literal w h ne = (has_no_space-NoSpace w h, ne)

-- Words with a space between each two.
abbrev pub spaced : List Bytes → Bytes
spaced [] = []
spaced (w ∷ []) = w
spaced (w ∷ w' ∷ ws) = w ++ b' ' ∷ spaced (w' ∷ ws)

pub words-spaced : (ws : List Bytes) → All IsWord ws → words (spaced ws) ≡ ws
unfolding words is_space
words-spaced [] h = unfold words_from in refl
words-spaced (w ∷ []) ((h, ne), _) = words_from-word w [] h ne
words-spaced (w ∷ w' ∷ ws) ((h, ne), hs) =
    words-space w b' ' (spaced (w' ∷ ws)) h refl ne ∙ ap (◌∷◌ w) (words-spaced (w' ∷ ws) hs)

pub space_newline : (l : Bytes) → NoSpace l → Lacks b'\n' l
space_newline [] h = tt
space_newline (c ∷ l) (e, h) = (unfold is_space in ground arith, space_newline l h)

-- Words and spaces make no newline.
pub spaced-Lacks : (ws : List Bytes) → All IsWord ws → Lacks b'\n' (spaced ws)
spaced-Lacks [] h = tt
spaced-Lacks (w ∷ []) ((h, _), _) = space_newline w h
spaced-Lacks (w ∷ w' ∷ ws) ((h, _), hs) =
    All-append (λ c. c ≢ b'\n') w (b' ' ∷ spaced (w' ∷ ws)) (space_newline w h)
      (omega arith, spaced-Lacks (w' ∷ ws) hs)

-- A line of words.
abbrev pub lined : List Bytes → Bytes
lined [] = b'\n' ∷ []
lined (w ∷ []) = w ++ b'\n' ∷ []
lined (w ∷ w' ∷ ws) = w ++ b' ' ∷ lined (w' ∷ ws)

pub lined-eq-spaced : (ws : List Bytes) → lined ws ≡ spaced ws ++ b'\n' ∷ []
lined-eq-spaced [] = refl
lined-eq-spaced (w ∷ []) = refl
lined-eq-spaced (w ∷ w' ∷ ws) =
    ap (λ l. w ++ b' ' ∷ l) (lined-eq-spaced (w' ∷ ws))
    ∙ sym (append_assoc w (b' ' ∷ spaced (w' ∷ ws)) (b'\n' ∷ []))

pub words-lined : (ws : List Bytes) → All IsWord ws → words (lined ws) ≡ ws
words-lined [] h = unfold words words_from is_space in refl
words-lined (w ∷ []) ((h, ne), _) =
    words-space w b'\n' [] h (unfold is_space in refl) ne
    ∙ ap (◌∷◌ w) (unfold words words_from in refl)
words-lined (w ∷ w' ∷ ws) ((h, ne), hs) =
    words-space w b' ' (lined (w' ∷ ws)) h (unfold is_space in refl) ne
    ∙ ap (◌∷◌ w) (words-lined (w' ∷ ws) hs)

abbrev pub int_max : ℤ
int_max = pos (2 ^ 31 - 1)

abbrev pub int_min : ℤ
int_min = negsuc (2 ^ 31 - 1)

abbrev pub fits_int : ℤ → Bool
fits_int z = leb_ℤ int_min z && leb_ℤ z int_max

-- `in >> n` on the words that are left: the number, and what is left then. The number may end
-- before its word does.
unfoldable pub read_int : List Bytes → Option (ℤ × List Bytes)
read_int [] = none
read_int (w ∷ ws) = elim (scan_signed w) [
  | none ↦ none
  | some (z, rest) ↦ if fits_int z then some (z, if is_empty rest then ws else rest ∷ ws) else none
]

-- `in >> n` for a `long long`.
unfoldable pub read_long : List Bytes → Option (ℤ × List Bytes)
read_long [] = none
read_long (w ∷ ws) = elim (scan_signed w) [
  | none ↦ none
  | some (z, rest) ↦
      if leb_ℤ (negsuc (2 ^ 63 - 1)) z && leb_ℤ z (pos (2 ^ 63 - 1))
      then some (z, if is_empty rest then ws else rest ∷ ws)
      else none
]

-- What a failed `in >> n` stores: the nearest `int` where the number is too large, else 0.
unfoldable pub failed_int : Bytes → ℤ
failed_int [] = pos 0
failed_int (c ∷ s) =
    if c == b'-'
    then (if starts_digit s then int_min else pos 0)
    else if c == b'+'
    then (if starts_digit s then int_max else pos 0)
    else if starts_digit (c ∷ s)
    then int_max
    else pos 0

pub fits_int-InRange : (z : ℤ) → fits_int z ≡ true → InRange z
fits_int-InRange (pos n) h = ground arith
fits_int-InRange (negsuc n) h = ground arith

pub read_int-print :
    (z : ℤ) (ws : List Bytes) → fits_int z ≡ true → read_int (print z ∷ ws) ≡ some (z, ws)
unfolding read_int
read_int-print z ws h =
    rw (sym (append-nil (print z)), scan_signed-print z [] (fits_int-InRange z h) refl, read_int)
      (ground arith)

pub read_int-fits : (ws ws' : List Bytes) (z : ℤ) → read_int ws ≡ some (z, ws') → fits_int z ≡ true
unfolding read_int
read_int-fits [] ws' z h = cc
read_int-fits (w ∷ ws) ws' z h = ground arith
