-- ===== src/Common/Text.antt =====
-- std::string as a list of bytes, and the operations of std::string that the program uses.
use Prim.Native.Nat.{ℕ, suc, ◌<◌}
use Prim.Native.Char.{code}
use Prim.Native.String.{String}
use mathlib.Core.Path.{◌≡◌, refl, ap}
use mathlib.Core.Logic.{◌↔◌, ◌≢◌, ◌⊎◌, inl, inr}
use mathlib.Core.Bool.{Bool, true, false, ◌&&◌}
use mathlib.Core.Option
use mathlib.Core.Option.{Option, none, some}
use mathlib.Core.List.{List, [], ◌∷◌, ◌++◌}
use native.Mathlib.Omega.{arith}
use native.Mathlib.Decide.{ℕ_discrete}
use mpcc.Common.Tests.{nat_eq, if◌then◌else◌}
use mpcc.Common.Lists.{All, length, take, drop}

abbrev pub Bytes : Type 0
Bytes = List ℕ

-- The code points of a literal: its bytes, since the program's literals are ASCII.
abbrev pub codes : String → Bytes
codes String.[] = []
codes (String.◌∷◌ c s) = code c ∷ codes s

-- operator== of std::string.
infix 50 ◌==◌
unfoldable pub ◌==◌ : Bytes → Bytes → Bool
[] == [] = true
[] == (y ∷ ys) = false
(x ∷ xs) == [] = false
(x ∷ xs) == (y ∷ ys) = nat_eq x y && (xs == ys)

pub ==_iff : (a b : Bytes) → ((a == b) ≡ true) ↔ (a ≡ b)
unfolding ◌==◌
==_iff [] [] = ground arith
==_iff [] (y ∷ ys) = ground arith
==_iff (x ∷ xs) [] = ground arith
==_iff (x ∷ xs) (y ∷ ys) = ground (arith, ==_iff xs ys)

pub eq_refl : (a : Bytes) → (a == a) ≡ true
eq_refl a = (==_iff a a).1 refl

-- Every byte differs from `c`.
abbrev pub Lacks : ℕ → Bytes → Type 0
Lacks c = All (λ x. x ≢ c)

-- Every element is the value of an `unsigned char`.
abbrev pub IsByteString : Bytes → Type 0
IsByteString = All (λ x. x < 256)

-- s.empty()
abbrev pub is_empty : Bytes → Bool
is_empty [] = true
is_empty (c ∷ s) = false

-- s.find(c): the index of the first `c`; `none` stands for npos.
unfoldable pub find : Bytes → ℕ → Option ℕ
find [] c = none
find (x ∷ s) c = if nat_eq x c then some 0 else Option.map suc (find s c)

-- s.substr(0, i) and s.substr(i + 1), for an `i` that `find` returned.
abbrev pub before : Bytes → ℕ → Bytes
before s i = take i s

abbrev pub after : Bytes → ℕ → Bytes
after s i = drop (suc i) s

-- What `find` says: no occurrence, or the text cut at the first one.
pub find-cases :
    (s : Bytes) (c : ℕ)
    → ((find s c ≡ none) × Lacks c s)
      ⊎ ((i : ℕ) × (find s c ≡ some i) × Lacks c (before s i) × (s ≡ before s i ++ c ∷ after s i))
unfolding find
find-cases [] c = inl (refl, tt)
find-cases (x ∷ s) c = elim (ℕ_discrete x c) [
  | yes e ↦ inr (0, ground arith, tt, ap (λ (y : ℕ). y ∷ s) e)
  | no ne ↦ elim (find-cases s c) [
    | inl (e, lacks) ↦ inl (ground arith, (ne, lacks))
    | inr (i, e, lacks, cut) ↦ inr (suc i, ground arith, (ne, lacks), ap (◌∷◌ x) cut)
  ]
]

-- A text that starts with a part free of `c`, then `c`, is cut there.
pub find-append : (a b : Bytes) (c : ℕ) → Lacks c a → find (a ++ c ∷ b) c ≡ some (length a)
unfolding find
find-append [] b c h = ground arith
find-append (x ∷ a) b c (hx, ha) = ground (arith, find-append a b c ha)

pub find-none : (s : Bytes) (c : ℕ) → Lacks c s → find s c ≡ none
unfolding find
find-none [] c h = refl
find-none (x ∷ s) c (hx, hs) = ground (arith, find-none s c hs)

pub before-append : (a : Bytes) (c : ℕ) (b : Bytes) → before (a ++ c ∷ b) (length a) ≡ a
before-append [] c b = refl
before-append (x ∷ a) c b = ap (◌∷◌ x) (before-append a c b)

pub after-append : (a : Bytes) (c : ℕ) (b : Bytes) → after (a ++ c ∷ b) (length a) ≡ b
after-append [] c b = refl
after-append (x ∷ a) c b = after-append a c b
