-- ===== src/Common/NatSets.antt =====
-- Lists of numbers read as sets: membership, removal, no repetition.
use Prim.Native.Nat.{ℕ}
use mathlib.Core.Path.{◌≡◌, refl, ap, subst}
use mathlib.Core.Bool.{Bool, true, false, not, ◌&&◌, ◌||◌}
use mathlib.Core.Logic.{◌≢◌}
use mathlib.Core.List.{List, [], ◌∷◌, ◌++◌}
use native.Mathlib.Omega.{arith}
use native.Mathlib.Decide.{ℕ_discrete}
use mpcc.Common.Tests.{nat_eq}
use mpcc.Common.Lists.{filter_by, All}

unfoldable pub contains : List ℕ → ℕ → Bool
contains [] a = false
contains (x ∷ xs) a = nat_eq x a || contains xs a

abbrev pub NoDup : List ℕ → Type 0
NoDup [] = Unit
NoDup (x ∷ xs) = (contains xs x ≡ false) × NoDup xs

-- All elements but `a`, in order.
unfoldable pub without : List ℕ → ℕ → List ℕ
unfolding filter_by
without xs a = filter_by (λ x. not (nat_eq x a)) xs

pub contains-append :
    (xs ys : List ℕ) (a : ℕ) → contains (xs ++ ys) a ≡ (contains xs a || contains ys a)
unfolding contains
contains-append [] ys a = refl
contains-append (x ∷ xs) ys a = ground (arith, contains-append xs ys a)

pub contains-filter_by :
    (p : ℕ → Bool) (xs : List ℕ) (a : ℕ) → contains (filter_by p xs) a ≡ (contains xs a && p a)
unfolding contains filter_by
contains-filter_by p [] a = refl
contains-filter_by p (x ∷ xs) a = elim (ℕ_discrete x a) [
  | yes e ↦ ground (arith, contains-filter_by p xs a, ap p e)
  | no ne ↦ ground (arith, contains-filter_by p xs a)
]

pub NoDup-filter_by : (p : ℕ → Bool) (xs : List ℕ) → NoDup xs → NoDup (filter_by p xs)
unfolding filter_by
NoDup-filter_by p [] h = tt
NoDup-filter_by p (x ∷ xs) (new, rest) =
    ground (arith, contains-filter_by p xs x, NoDup-filter_by p xs rest)

-- A predicate on the elements, read at one of them.
pub All-contains {κ} :
    (P : ℕ → Type κ) (xs : List ℕ) (a : ℕ) → All P xs → contains xs a ≡ true → P a
unfolding contains
All-contains P [] a h m = cc
All-contains P (x ∷ xs) a (here, there) m = elim (ℕ_discrete x a) [
  | yes e ↦ subst P e here
  | no ne ↦ All-contains P xs a there (ground arith)
]

pub contains-without :
    (xs : List ℕ) (a b : ℕ) → contains (without xs a) b ≡ (contains xs b && not (nat_eq b a))
unfolding without
contains-without xs a b = contains-filter_by (λ x. not (nat_eq x a)) xs b

pub NoDup-without : (xs : List ℕ) (a : ℕ) → NoDup xs → NoDup (without xs a)
unfolding without
NoDup-without xs a = NoDup-filter_by (λ x. not (nat_eq x a)) xs

-- A predicate that holds at every element holds all along the list.
pub All-intro {κ} :
    (P : ℕ → Type κ) (xs : List ℕ) → ((a : ℕ) → contains xs a ≡ true → P a) → All P xs
unfolding contains
All-intro P [] h = tt
All-intro P (x ∷ xs) h = (h x (ground arith), All-intro P xs (λ a m. h a (ground (arith, m))))

module _ (x : ℕ) (xs : List ℕ) where
  pub contains-cons_eq : (a : ℕ) → x ≡ a → contains (x ∷ xs) a ≡ true
  unfolding contains
  contains-cons_eq a e = ground arith

  pub contains-cons_ne : (a : ℕ) → x ≢ a → contains (x ∷ xs) a ≡ contains xs a
  unfolding contains
  contains-cons_ne a ne = ground arith

  pub contains-tail : (a : ℕ) → contains xs a ≡ true → contains (x ∷ xs) a ≡ true
  unfolding contains
  contains-tail a m = ground arith

pub contains-nil : (a : ℕ) → contains [] a ≡ false
unfolding contains
contains-nil a = refl

pub filter_by_congr :
    (f g : ℕ → Bool) (xs : List ℕ)
    → ((a : ℕ) → contains xs a ≡ true → f a ≡ g a)
    → filter_by f xs ≡ filter_by g xs
unfolding filter_by
filter_by_congr f g [] h = refl
filter_by_congr f g (x ∷ xs) h = rw (
  h x (contains-cons_eq x xs x refl),
  filter_by_congr f g xs (λ a m. h a (contains-tail x xs a m)),
)

pub contains-one : (a b : ℕ) → contains (a ∷ []) b ≡ nat_eq a b
unfolding contains
contains-one a b = ground arith

pub contains-snoc :
    (xs : List ℕ) (a b : ℕ) → contains (xs ++ a ∷ []) b ≡ (contains xs b || nat_eq a b)
unfolding contains
contains-snoc [] a b = ground arith
contains-snoc (x ∷ xs) a b = ground (arith, contains-snoc xs a b)

pub NoDup-snoc : (xs : List ℕ) (a : ℕ) → NoDup xs → contains xs a ≡ false → NoDup (xs ++ a ∷ [])
unfolding contains
NoDup-snoc [] a h new = (refl, tt)
NoDup-snoc (x ∷ xs) a (fresh, h) new = ground (arith, NoDup-snoc xs a h, contains-snoc xs a x)
