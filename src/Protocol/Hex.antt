-- ===== src/Protocol/Hex.antt =====
-- `hex_value` and `decode_hex` of src/protocol/kv_protocol.cpp, and `hex_encode` of
-- src/app/kv_server.cpp.
use kv.Prelude.{
  ℕ, ◌+◌, ◌-◌, ◌*◌, ◌/◌, ◌%◌, ◌<◌, ◌≡◌, refl, false, ◌&&◌, Option, none, some, [], ◌∷◌, Bytes,
  codes, is_empty, if◌then◌else◌, ltb, leb, ◌==◌, bytes_eq, bytes_beq, ◌>>=◌, arith,
}
use kv.Text.Lacks.{All}

unfoldable pub hex_value : ℕ → Option ℕ
hex_value ch =
    if leb b'0' ch && leb ch b'9'
    then some (ch - b'0')
    else if leb b'a' ch && leb ch b'f'
    then some (ch - b'a' + 10)
    else if leb b'A' ch && leb ch b'F'
    then some (ch - b'A' + 10)
    else none

-- The loop of `decode_hex`; an odd number of digits fails, as the test before the loop has it.
unfoldable pub decode_pairs : Bytes → Option Bytes
decode_pairs [] = some []
decode_pairs (x ∷ []) = none
decode_pairs (x ∷ y ∷ s) = do
  high ← hex_value x
  low ← hex_value y
  rest ← decode_pairs s
  some ((high * 16 + low) ∷ rest)

unfoldable pub decode_hex : Bytes → Option Bytes
unfolding decode_pairs hex_value
decode_hex encoded = if encoded == codes "-" then some [] else decode_pairs encoded

-- A digit as `std::hex` prints it.
unfoldable pub hex_digit : ℕ → ℕ
hex_digit d = if ltb d 10 then b'0' + d else b'a' + (d - 10)

unfoldable pub hex_pairs : Bytes → Bytes
unfolding hex_digit
hex_pairs [] = []
hex_pairs (c ∷ s) = hex_digit (c / 16) ∷ hex_digit (c % 16) ∷ hex_pairs s

unfoldable pub hex_encode : Bytes → Bytes
unfolding hex_pairs
hex_encode value = if is_empty value then codes "-" else hex_pairs value

hex_value-hex_digit : (d : ℕ) → d < 16 → hex_value (hex_digit d) ≡ some d
unfolding hex_value hex_digit
hex_value-hex_digit d h = ground arith

abbrev pub AreBytes : Bytes → Type 0
AreBytes = All (λ c. c < 256)

decode_pairs-hex_pairs :
    (value : Bytes) → AreBytes value → decode_pairs (hex_pairs value) ≡ some value
unfolding decode_pairs hex_pairs
decode_pairs-hex_pairs [] h = refl
decode_pairs-hex_pairs (c ∷ s) (b, h) = ground (
  arith,
  hex_value-hex_digit (c / 16) (omega arith),
  hex_value-hex_digit (c % 16) (omega arith),
  decode_pairs-hex_pairs s h,
)

not_dash : (a b : ℕ) (s : Bytes) → bytes_beq (a ∷ b ∷ s) (codes "-") ≡ false
unfolding bytes_beq
not_dash a b s = ground arith

-- A payload is decoded to the bytes that were encoded, the empty one included.
pub decode_hex-hex_encode :
    (value : Bytes) → AreBytes value → decode_hex (hex_encode value) ≡ some value
unfolding decode_hex hex_encode hex_pairs
decode_hex-hex_encode [] h = unfold bytes_beq in refl
decode_hex-hex_encode (c ∷ s) h =
    rw (not_dash (hex_digit (c / 16)) (hex_digit (c % 16)) (hex_pairs s))
      (decode_pairs-hex_pairs (c ∷ s) h)
