-- ===== src/Server/UserRegistry/Hex.antt =====
-- Passwords survive their hexadecimal form.
use mpcc.Common.{
  ℕ, ◌+◌, ◌*◌, ◌/◌, ◌%◌, ◌<◌, ◌≡◌, refl, ap₂, ◌∙◌, ◌≢◌, [], ◌∷◌, Bytes, IsByteString, Lacks, arith,
  some, false, nat_eq,
}
use mpcc.Common.Scan.{is_space}
use mpcc.Server.UserRegistry.{hex_digit, to_hex, hex_value, extract_byte, from_hex}

hex_value-hex_digit : (d : ℕ) → d < 16 → hex_value (hex_digit d) ≡ some d
unfolding hex_value hex_digit
hex_value-hex_digit d h = ground arith

is_space-hex_digit : (d : ℕ) → d < 16 → is_space (hex_digit d) ≡ false
unfolding is_space hex_digit
is_space-hex_digit d h = ground arith

plus-hex_digit : (d : ℕ) → d < 16 → nat_eq (hex_digit d) b'+' ≡ false
unfolding hex_digit
plus-hex_digit d h = ground arith

minus-hex_digit : (d : ℕ) → d < 16 → nat_eq (hex_digit d) b'-' ≡ false
unfolding hex_digit
minus-hex_digit d h = ground arith

newline-hex_digit : (d : ℕ) → d < 16 → hex_digit d ≢ b'\n'
unfolding hex_digit
newline-hex_digit d h = ground arith

extract_byte-hex_digit :
    (a b : ℕ) → a < 16 → b < 16 → extract_byte (hex_digit a) (hex_digit b) ≡ a * 16 + b
unfolding extract_byte
extract_byte-hex_digit a b ha hb =
    rw
      (
        is_space-hex_digit a ha,
        plus-hex_digit a ha,
        minus-hex_digit a ha,
        hex_value-hex_digit a ha,
        hex_value-hex_digit b hb,
      )
      refl

-- Decoding the hexadecimal form of a byte string gives the byte string back.
pub from_hex-to_hex : (s : Bytes) → IsByteString s → from_hex (to_hex s) ≡ s
unfolding from_hex to_hex
from_hex-to_hex [] h = refl
from_hex-to_hex (c ∷ s) (hc, hs) =
    ap₂ ◌∷◌ (extract_byte-hex_digit (c / 16) (c % 16) (omega arith) (omega arith) ∙ omega arith)
      (from_hex-to_hex s hs)

-- The stored form never ends a line early.
pub to_hex-Lacks : (s : Bytes) → IsByteString s → Lacks b'\n' (to_hex s)
unfolding to_hex
to_hex-Lacks [] h = tt
to_hex-Lacks (c ∷ s) (hc, hs) = (
  newline-hex_digit (c / 16) (omega arith),
  (newline-hex_digit (c % 16) (omega arith), to_hex-Lacks s hs),
)
