-- ===== src/Common/Dict.antt =====
-- std::unordered_map with strings for keys, as an association list. Its order stands for one of the
-- orders in which the map may be iterated.
use mathlib.Core.Path.{◌≡◌, refl}
use mathlib.Core.Option.{Option, none, some}
use mathlib.Core.List.{List, [], ◌∷◌}
use native.Mathlib.Omega.{arith}
use mpcc.Common.Tests.{if◌then◌else◌}
use mpcc.Common.Text.{Bytes, ◌==◌, ==_iff}

abbrev pub Dict {ℓ} : Type ℓ → Type ℓ
Dict V = List (Bytes × V)

module _ {ℓ} {V : Type ℓ} where
  -- m.find(name)
  unfoldable pub lookup : Bytes → Dict V → Option V
  lookup name [] = none
  lookup name ((key, value) ∷ rest) = if key == name then some value else lookup name rest

  -- m[name] = value
  unfoldable pub insert : Bytes → V → Dict V → Dict V
  insert name value [] = (name, value) ∷ []
  insert name value ((key, old) ∷ rest) =
      if key == name then (name, value) ∷ rest else (key, old) ∷ insert name value rest

  -- m.erase(name)
  unfoldable pub erase : Bytes → Dict V → Dict V
  erase name [] = []
  erase name ((key, value) ∷ rest) =
      let kept = erase name rest in if key == name then kept else (key, value) ∷ kept

  pub lookup-insert :
      (name other : Bytes) (value : V) (dict : Dict V)
      → lookup other (insert name value dict)
        ≡ (if name == other then some value else lookup other dict)
  unfolding insert lookup
  lookup-insert name other value ((key, old) ∷ rest) = ground (
    arith,
    lookup-insert name other value rest,
    ==_iff key name,
    ==_iff key other,
    ==_iff name other,
  )
  lookup-insert name other value [] = refl

  pub lookup-erase :
      (name other : Bytes) (dict : Dict V)
      → lookup other (erase name dict) ≡ (if name == other then none else lookup other dict)
  unfolding erase lookup
  lookup-erase name other ((key, old) ∷ rest) =
      ground
        (arith, lookup-erase name other rest, ==_iff key name, ==_iff key other, ==_iff name other)
  lookup-erase name other [] = ground arith

  -- No key stands twice.
  abbrev pub DistinctKeys : Dict V → Type ℓ
  DistinctKeys [] = Unit
  DistinctKeys ((k, v) ∷ m) = (lookup k m ≡ none) × DistinctKeys m

  pub DistinctKeys-insert :
      (k : Bytes) (v : V) (m : Dict V) → DistinctKeys m → DistinctKeys (insert k v m)
  unfolding insert
  DistinctKeys-insert k v [] d = (unfold lookup in refl, tt)
  DistinctKeys-insert k v ((j, w) ∷ m) (new, d) =
      ground (arith, ==_iff k j, ==_iff j k, lookup-insert k j v m, DistinctKeys-insert k v m d)

  pub DistinctKeys-erase : (k : Bytes) (m : Dict V) → DistinctKeys m → DistinctKeys (erase k m)
  unfolding erase
  DistinctKeys-erase k [] d = tt
  DistinctKeys-erase k ((j, v) ∷ m) (new, d) =
      ground (arith, lookup-erase k j m, DistinctKeys-erase k m d)
