-- ===== src/Text/Decimal.antt =====
-- Decimal numbers: `operator<<` and `std::to_string` of an integer, `std::stol` and `std::stoll`
-- (both 64 bits wide here).
use Prim.Native.Nat.{zero, suc}
use mathlib.Core.Logic.{dite}
use mathlib.Core.WellFounded.{Acc, WellFounded}
use native.Mathlib.Decide.{dec_lt}
use kv.Prelude.{
  ℕ, ◌+◌, ◌-◌, ◌*◌, ◌/◌, ◌%◌, ◌^◌, ◌<◌, ◌≤◌, ◌≡◌, refl, Bool, true, false, ◌&&◌, ◌||◌, [], ◌∷◌,
  ◌++◌, Bytes, if◌then◌else◌, leb, ◌==◌, nat_eq, Option, none, some, arith, ◌∙◌, ap, inl, inr,
  nat_beq_cases, is_empty,
}
use kv.Prelude.Int.{ℤ, pos, negsuc}
use kv.Text.Lacks.{All}

Acc-bounded : (k n : ℕ) → n < k → Acc ◌<◌ n
Acc-bounded zero n h = absurd (omega arith)
Acc-bounded (suc k) n h = Acc.intro n λ m lt. Acc-bounded k m (omega arith)

pub less_wf : WellFounded ◌<◌
unfolding Acc-bounded
less_wf = record { apply = λ n. Acc-bounded (suc n) n (omega arith) }

quotient_lt : {n : ℕ} → 0 < n → n / 10 < n
quotient_lt h = omega arith

-- The digits of a positive number, put before `out`.
put_digits : (n : ℕ) → Acc ◌<◌ n → Bytes → Bytes
put_digits n (Acc.intro _ below) out =
    dite (dec_lt 0 n)
      (λ h. put_digits (n / 10) (below (n / 10) (quotient_lt h)) ((b'0' + n % 10) ∷ out)) (λ _. out)

unfoldable pub print_nat : ℕ → Bytes
unfolding put_digits less_wf dec_lt quotient_lt
print_nat n = if n == 0 then b'0' ∷ [] else put_digits n (less_wf.apply n) []

unfoldable pub print : ℤ → Bytes
unfolding print_nat
print (pos n) = print_nat n
print (negsuc n) = b'-' ∷ print_nat (suc n)

-- `isspace` in the C locale.
unfoldable pub is_space : ℕ → Bool
is_space c = c == b' ' || (leb 9 c && leb c 13)

abbrev pub is_digit : ℕ → Bool
is_digit c = leb b'0' c && leb c b'9'

-- The value of the leading digits, and what follows them.
unfoldable pub scan_digits : ℕ → Bytes → ℕ × Bytes
scan_digits acc [] = (acc, [])
scan_digits acc (c ∷ s) = elim (is_digit c) [
  | true ↦ scan_digits (acc * 10 + (c - b'0')) s
  | false ↦ (acc, c ∷ s)
]

unfoldable pub skip_spaces : Bytes → Bytes
skip_spaces [] = []
skip_spaces (c ∷ s) = elim (is_space c) [ true ↦ skip_spaces s | false ↦ c ∷ s ]

abbrev pub starts_digit : Bytes → Bool
starts_digit [] = false
starts_digit (c ∷ s) = is_digit c

-- The number at the start of a text and what follows it; `none` where there is no digit
-- (`std::invalid_argument`) or the number is out of range (`std::out_of_range`).
unfoldable pub scan_unsigned : ℕ → Bytes → Option (ℕ × Bytes)
scan_unsigned limit s =
    let (n, rest) = scan_digits 0 s in
    if starts_digit s && leb n limit then some (n, rest) else none

abbrev pub negated : ℕ → ℤ
negated zero = pos zero
negated (suc n) = negsuc n

unfoldable pub scan_signed : Bytes → Option (ℤ × Bytes)
scan_signed [] = none
scan_signed (c ∷ s) =
    if c == b'-'
    then elim (scan_unsigned (2 ^ 63) s) [ none ↦ none | some (n, rest) ↦ some (negated n, rest) ]
    else if c == b'+'
    then elim (scan_unsigned (2 ^ 63 - 1) s) [ none ↦ none | some (n, rest) ↦ some (pos n, rest) ]
    else elim (scan_unsigned (2 ^ 63 - 1) (c ∷ s)) [
      | none ↦ none
      | some (n, rest) ↦ some (pos n, rest)
    ]

-- `std::stoll(s, &parsed)`: the value, and the text from `parsed` on.
unfoldable pub stoll : Bytes → Option (ℤ × Bytes)
unfolding scan_signed scan_unsigned scan_digits skip_spaces is_space
stoll s = scan_signed (skip_spaces s)

put_digits-append :
    (n : ℕ) (w : Acc ◌<◌ n) (out rest : Bytes)
    → put_digits n w out ++ rest ≡ put_digits n w (out ++ rest)
unfolding put_digits
put_digits-append n (Acc.intro _ below) out rest = grind (
  arith,
  λ (p : n / 10 < n). put_digits-append (n / 10) (below (n / 10) p) ((b'0' + n % 10) ∷ out) rest,
)

scan_digit :
    (n : ℕ) (out : Bytes) → scan_digits (n / 10) ((b'0' + n % 10) ∷ out) ≡ scan_digits n out
unfolding scan_digits
scan_digit n out = ground (arith)

-- Reading the digits of `n` before `out` is reading on with the value `n`.
scan-put_digits :
    (n : ℕ) (w : Acc ◌<◌ n) (out : Bytes) → scan_digits 0 (put_digits n w out) ≡ scan_digits n out
unfolding put_digits
scan-put_digits n (Acc.intro _ below) out = grind (
  arith,
  λ (p : n / 10 < n). scan-put_digits (n / 10) (below (n / 10) p) ((b'0' + n % 10) ∷ out),
  scan_digit n out,
)

-- What is printed of a positive number starts with a digit.
starts_digit-put_digits :
    (n : ℕ) (w : Acc ◌<◌ n) (out : Bytes)
    → starts_digit out ≡ true
    → starts_digit (put_digits n w out) ≡ true
unfolding put_digits
starts_digit-put_digits n (Acc.intro _ below) out h = grind (
  arith,
  λ (p : n / 10 < n). starts_digit-put_digits (n / 10) (below (n / 10) p) ((b'0' + n % 10) ∷ out),
)

All-put_digits {ℓ} :
    (P : ℕ → Type ℓ) (digit : (d : ℕ) → d < 10 → P (b'0' + d)) (n : ℕ) (w : Acc ◌<◌ n) (out : Bytes)
    → All P out
    → All P (put_digits n w out)
unfolding put_digits
All-put_digits P digit n (Acc.intro _ below) out h =
    elim (dec_lt 0 n)
      as (λ d. All P (
        dite d (λ h. put_digits (n / 10) (below (n / 10) (quotient_lt h)) ((b'0' + n % 10) ∷ out))
          (λ _. out))) [
            | yes lt ↦
                All-put_digits P digit (n / 10) (below (n / 10) (quotient_lt lt))
                  ((b'0' + n % 10) ∷ out) (digit (n % 10) (omega arith), h)
            | no _ ↦ h
          ]

starts_digit-put_digits_pos :
    (n : ℕ) (w : Acc ◌<◌ n) (out : Bytes) → 0 < n → starts_digit (put_digits n w out) ≡ true
unfolding put_digits
starts_digit-put_digits_pos n (Acc.intro _ below) out h = grind (
  arith,
  λ (p : n / 10 < n).
      starts_digit-put_digits (n / 10) (below (n / 10) p) ((b'0' + n % 10) ∷ out) (ground arith),
)

scan_digits_stop :
    (n : ℕ) (rest : Bytes) → starts_digit rest ≡ false → scan_digits n rest ≡ (n, rest)
unfolding scan_digits
scan_digits_stop n [] h = refl
scan_digits_stop n (c ∷ s) h = ground arith

-- The printed digits of `n` before a text that does not go on with a digit.
module _ (n : ℕ) (rest : Bytes) (stop : starts_digit rest ≡ false) where
  scan_digits-print_nat : scan_digits 0 (print_nat n ++ rest) ≡ (n, rest)
  unfolding print_nat
  scan_digits-print_nat = elim (nat_beq_cases n 0) [
    | inl e ↦ rw e (unfold scan_digits in scan_digits_stop 0 rest stop)
    | inr e ↦ rw e (
        ap (scan_digits 0) (put_digits-append n (less_wf.apply n) [] rest)
        ∙ scan-put_digits n (less_wf.apply n) rest
        ∙ scan_digits_stop n rest stop)
  ]

  starts_digit-print_nat : starts_digit (print_nat n ++ rest) ≡ true
  unfolding print_nat
  starts_digit-print_nat = elim (nat_beq_cases n 0) [
    | inl e ↦ rw e
    | inr e ↦
        rw (e, put_digits-append n (less_wf.apply n) [] rest)
          (starts_digit-put_digits_pos n (less_wf.apply n) rest (ground arith))
  ]

  scan_unsigned-print_nat :
      (limit : ℕ) → n ≤ limit → scan_unsigned limit (print_nat n ++ rest) ≡ some (n, rest)
  unfolding scan_unsigned
  scan_unsigned-print_nat limit h = ground (arith, scan_digits-print_nat, starts_digit-print_nat)

-- The values of `long` and `long long`.
abbrev pub InRange : ℤ → Type 0
InRange (pos n) = n < 2 ^ 63
InRange (negsuc n) = n < 2 ^ 63

scan_signed_digit :
    (s : Bytes)
    → starts_digit s ≡ true
    → scan_signed s
      ≡ elim (scan_unsigned (2 ^ 63 - 1) s) [ none ↦ none | some (n, rest) ↦ some (pos n, rest) ]
unfolding scan_signed
scan_signed_digit [] h = cc
scan_signed_digit (c ∷ s) h = ground arith

pub scan_signed-print :
    (z : ℤ) (rest : Bytes)
    → InRange z
    → starts_digit rest ≡ false
    → scan_signed (print z ++ rest) ≡ some (z, rest)
unfolding print
scan_signed-print (pos n) rest h stop = ground (
  arith,
  scan_signed_digit (print_nat n ++ rest) (starts_digit-print_nat n rest stop),
  scan_unsigned-print_nat n rest stop (2 ^ 63 - 1) (omega arith),
)
scan_signed-print (negsuc n) rest h stop =
    unfold scan_signed in
    ground (arith, scan_unsigned-print_nat (suc n) rest stop (2 ^ 63) (omega arith))

skip_spaces_digit : (s : Bytes) → starts_digit s ≡ true → skip_spaces s ≡ s
unfolding skip_spaces is_space
skip_spaces_digit [] h = cc
skip_spaces_digit (c ∷ s) h = ground arith

skip_spaces-print :
    (z : ℤ) (rest : Bytes)
    → starts_digit rest ≡ false
    → skip_spaces (print z ++ rest) ≡ print z ++ rest
unfolding print
skip_spaces-print (pos n) rest stop =
    skip_spaces_digit (print_nat n ++ rest) (starts_digit-print_nat n rest stop)
skip_spaces-print (negsuc n) rest stop = unfold skip_spaces is_space in refl

-- A 64-bit number that is printed before a text which does not go on with a digit is read back, and
-- what follows it is left.
pub stoll-print :
    (z : ℤ) (rest : Bytes)
    → InRange z
    → starts_digit rest ≡ false
    → stoll (print z ++ rest) ≡ some (z, rest)
unfolding stoll
stoll-print z rest h stop =
    ap scan_signed (skip_spaces-print z rest stop) ∙ scan_signed-print z rest h stop

All-print_nat {ℓ} :
    (P : ℕ → Type ℓ) (digit : (d : ℕ) → d < 10 → P (b'0' + d)) (n : ℕ) → All P (print_nat n)
unfolding print_nat
All-print_nat P digit n = elim (nat_beq_cases n 0) [
  | inl e ↦ rw e (digit 0 (omega arith), tt)
  | inr e ↦ rw e (All-put_digits P digit n (less_wf.apply n) [] tt)
]

-- A printed number has only digits and a minus sign.
pub All-print {ℓ} :
    (P : ℕ → Type ℓ) → ((d : ℕ) → d < 10 → P (b'0' + d)) → P b'-' → (z : ℤ) → All P (print z)
unfolding print
All-print P digit minus (pos n) = All-print_nat P digit n
All-print P digit minus (negsuc n) = (minus, All-print_nat P digit (suc n))

pub print_not_empty : (z : ℤ) → is_empty (print z) ≡ false
unfolding print
print_not_empty (pos n) = nonempty (print_nat n) (starts_digit-print_nat n [] refl)
  where
    nonempty : (s : Bytes) → starts_digit (s ++ []) ≡ true → is_empty s ≡ false
    nonempty [] h = cc
    nonempty (c ∷ s) h = refl
print_not_empty (negsuc n) = refl
