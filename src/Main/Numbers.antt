-- ===== src/Main/Numbers.antt =====
-- A number that is written on a command line is read back.
use mpcc.Common.{
  ℕ, zero, suc, ◌+◌, ◌-◌, ◌*◌, ◌/◌, ◌%◌, ◌^◌, ◌<◌, ◌≡◌, refl, sym, ap, ◌∙◌, Bool, true, false,
  Option, none, some, [], ◌∷◌, Bytes, arith, nat_eq, ltb, leb, Bool-cases, inl, inr, if◌then◌else◌,
}
use mpcc.Common.Scan.{
  ℤ, pos, negsuc, stoi, is_digit, is_space, skip_spaces, digits_value, digits_int, signed_int,
  digits_onto, show_int, negate,
}

is_digit-digit : (d : ℕ) → d < 10 → is_digit (b'0' + d) ≡ true
unfolding is_digit
is_digit-digit d h = ground (arith, h)

digits_value-digit :
    (m d : ℕ) (text : Bytes)
    → d < 10
    → digits_value m ((b'0' + d) ∷ text) ≡ digits_value (10 * m + d) text
unfolding digits_value
digits_value-digit m d text h =
    rw (is_digit-digit d h) (ap (λ x. digits_value x text) (omega arith))

rem_lt : (n : ℕ) → n % 10 < 10
rem_lt n = omega arith

-- Reading the digits that were written gives the number.
digits_value-digits_onto :
    (places n : ℕ) (text : Bytes)
    → n < 10 ^ places
    → digits_value 0 (digits_onto places n text) ≡ digits_value n text
unfolding digits_onto
digits_value-digits_onto zero n text h = ap (λ m. digits_value m text) (omega (arith, h))
digits_value-digits_onto (suc places) n text h = elim (Bool-cases (nat_eq (n / 10) 0)) [
  | inl last ↦ rw last (
      digits_value-digit 0 (n % 10) text (rem_lt n)
      ∙ ap (λ m. digits_value m text) (ground (arith, last)))
  | inr more ↦ rw more (
      digits_value-digits_onto places (n / 10) ((b'0' + n % 10) ∷ text) (below n places h)
      ∙ digits_value-digit (n / 10) (n % 10) text (rem_lt n)
      ∙ ap (λ m. digits_value m text) (omega arith))
]
  where
    below : (n places : ℕ) → n < 10 ^ suc places → n / 10 < 10 ^ places
    below n places h = omega (arith, h)

-- A text that begins with a digit.
record Digits (s : Bytes) : Type 0 where
  first : ℕ
  rest : Bytes
  cut : s ≡ first ∷ rest
  digit : is_digit first ≡ true

digits_onto-Digits : (places n : ℕ) (s : Bytes) → Digits s → Digits (digits_onto places n s)
unfolding digits_onto
digits_onto-Digits zero n s h = h
digits_onto-Digits (suc places) n s h = elim (Bool-cases (nat_eq (n / 10) 0)) [
  | inl last ↦ rw last shown
  | inr more ↦ rw more (digits_onto-Digits places (n / 10) ((b'0' + n % 10) ∷ s) shown)
]
  where
    shown : Digits ((b'0' + n % 10) ∷ s)
    shown = record {
      first = b'0' + n % 10;
      rest = s;
      cut = refl;
      digit = is_digit-digit (n % 10) (rem_lt n);
    }

written-Digits : (n : ℕ) → Digits (digits_onto 10 n [])
unfolding digits_onto
written-Digits n = elim (Bool-cases (nat_eq (n / 10) 0)) [
  | inl last ↦ rw last shown
  | inr more ↦ rw more (digits_onto-Digits 9 (n / 10) ((b'0' + n % 10) ∷ []) shown)
]
  where
    shown : Digits ((b'0' + n % 10) ∷ [])
    shown = record {
      first = b'0' + n % 10;
      rest = [];
      cut = refl;
      digit = is_digit-digit (n % 10) (rem_lt n);
    }

digit_is_no_sign :
    (c : ℕ)
    → is_digit c ≡ true
    → (is_space c ≡ false) × (nat_eq c b'-' ≡ false) × (nat_eq c b'+' ≡ false)
unfolding is_digit is_space
digit_is_no_sign c h = (ground (arith, h), ground (arith, h), ground (arith, h))

stoi-unsigned : (s : Bytes) → Digits s → stoi s ≡ digits_int false s
unfolding stoi skip_spaces signed_int
stoi-unsigned s h =
    let (no_space, no_minus, no_plus) = digit_is_no_sign h.first h.digit in
    ap stoi_of h.cut ∙ rw (no_space, no_minus, no_plus) refl ∙ ap (digits_int false) (sym h.cut)
  where
    stoi_of : Bytes → Option ℤ
    stoi_of s = signed_int (skip_spaces s)

digits_value-cons :
    (m c : ℕ) (s : Bytes)
    → is_digit c ≡ true
    → digits_value m (c ∷ s) ≡ digits_value (10 * m + (c - b'0')) s
unfolding digits_value
digits_value-cons m c s h = rw h refl

-- What the digits of a number are read as.
digits_int-written :
    (minus : Bool) (n : ℕ)
    → n < 10 ^ 10
    → digits_int minus (digits_onto 10 n []) ≡ (
        if minus
        then (if leb n (2 ^ 31) then some (negate n) else none)
        else if ltb n (2 ^ 31)
        then some (pos n)
        else none)
unfolding digits_int
digits_int-written minus n h =
    let d = written-Digits n in
    let value : digits_value 0 (d.first ∷ d.rest) ≡ n =
      ap (digits_value 0) (sym d.cut) ∙ digits_value-digits_onto 10 n [] h in
    let after_first : digits_value (10 * 0 + (d.first - b'0')) d.rest ≡ n =
      sym (digits_value-cons 0 d.first d.rest d.digit) ∙ value in
    ap (digits_int minus) d.cut ∙ rw (d.digit, after_first) refl

stoi-minus : (s : Bytes) → stoi (b'-' ∷ s) ≡ digits_int true s
unfolding stoi skip_spaces signed_int is_space
stoi-minus s = refl

-- The values of an int.
abbrev pub IsInt : ℤ → Type 0
IsInt (pos n) = n < 2 ^ 31
IsInt (negsuc n) = n < 2 ^ 31

-- std::stoi reads what the stream operator writes.
pub stoi-show_int : (z : ℤ) → IsInt z → stoi (show_int z) ≡ some z
unfolding show_int
stoi-show_int (pos n) h =
    stoi-unsigned (digits_onto 10 n []) (written-Digits n)
    ∙ digits_int-written false n (omega (arith, h))
    ∙ ground (arith, h)
stoi-show_int (negsuc n) h =
    stoi-minus (digits_onto 10 (suc n) [])
    ∙ digits_int-written true (suc n) (omega (arith, h))
    ∙ ground (arith, h)
