-- ===== src/Common/Scan.antt =====
-- Reading words and numbers as the C++ library does in the C locale.
use Prim.Native.Nat.{ℕ, zero, suc, ◌+◌, ◌-◌, ◌*◌, ◌/◌, ◌%◌, ◌^◌}
use mathlib.Core.Bool.{Bool, true, false, not, ◌&&◌, ◌||◌}
use mathlib.Core.Option.{Option, none, some}
use mathlib.Core.List.{[], ◌∷◌}
use mpcc.Common.Tests.{nat_eq, ltb, leb, if◌then◌else◌}
use mpcc.Common.Text.{Bytes}

pub data ℤ : Type 0 where
  pos negsuc : ℕ → ℤ

-- std::isspace
unfoldable pub is_space : ℕ → Bool
is_space c = nat_eq c b' ' || (leb 9 c && leb c 13)

unfoldable pub is_digit : ℕ → Bool
is_digit c = leb b'0' c && leb c b'9'

-- std::isalnum
unfoldable pub is_alnum : ℕ → Bool
unfolding is_digit
is_alnum c = is_digit c || ((leb b'A' c && leb c b'Z') || (leb b'a' c && leb c b'z'))

unfoldable pub skip_spaces : Bytes → Bytes
unfolding is_space
skip_spaces [] = []
skip_spaces (c ∷ s) = if is_space c then skip_spaces s else c ∷ s

-- The text up to the first white space, and from there on.
unfoldable pub cut_word : Bytes → Bytes × Bytes
unfolding is_space
cut_word [] = ([], [])
cut_word (c ∷ s) =
    let (word, rest) = cut_word s in if is_space c then ([], c ∷ s) else (c ∷ word, rest)

-- stream >> word: the word, and what the stream still holds.
unfoldable pub read_word : Bytes → Bytes × Bytes
unfolding skip_spaces cut_word
read_word s = cut_word (skip_spaces s)

-- The digits in front, behind some that have the value `n`.
unfoldable pub digits_value : ℕ → Bytes → ℕ
unfolding is_digit
digits_value n [] = n
digits_value n (c ∷ s) = if is_digit c then digits_value (10 * n + (c - b'0')) s else n

abbrev pub negate : ℕ → ℤ
negate zero = pos 0
negate (suc n) = negsuc n

-- `none` where std::stoi throws: no digit, or a value that is no int.
unfoldable pub digits_int : Bool → Bytes → Option ℤ
unfolding digits_value
digits_int minus [] = none
digits_int minus (c ∷ s) =
    let n = digits_value 0 (c ∷ s) in
    if not (is_digit c)
    then none
    else if minus
    then (if leb n (2 ^ 31) then some (negate n) else none)
    else if ltb n (2 ^ 31)
    then some (pos n)
    else none

unfoldable pub signed_int : Bytes → Option ℤ
unfolding digits_int
signed_int [] = none
signed_int (c ∷ s) =
    if nat_eq c b'-'
    then digits_int true s
    else if nat_eq c b'+'
    then digits_int false s
    else digits_int false (c ∷ s)

-- std::stoi
unfoldable pub stoi : Bytes → Option ℤ
unfolding signed_int
stoi s = signed_int (skip_spaces s)

-- The decimal digits of a number in front of a text; an int has at most ten.
unfoldable pub digits_onto : ℕ → ℕ → Bytes → Bytes
digits_onto zero n text = text
digits_onto (suc places) n text =
    let shown = (b'0' + n % 10) ∷ text in
    let rest = digits_onto places (n / 10) shown in if nat_eq (n / 10) 0 then shown else rest

-- stream << n for an int.
unfoldable pub show_int : ℤ → Bytes
unfolding digits_onto
show_int (pos n) = digits_onto 10 n []
show_int (negsuc n) = b'-' ∷ digits_onto 10 (suc n) []

-- static_cast<uint16_t>(port)
unfoldable pub to_uint16 : ℤ → ℕ
to_uint16 (pos n) = n % 2 ^ 16
to_uint16 (negsuc n) = 2 ^ 16 - 1 - n % 2 ^ 16
