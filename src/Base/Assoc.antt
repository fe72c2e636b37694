-- ===== src/Base/Assoc.antt =====
-- Maps from texts, as association lists.
use mathlib.Core.Path.{◌≡◌, refl}
use mathlib.Core.Bool.{not}
use mathlib.Core.Option.{Option, none, some}
use mathlib.Core.List.{List, [], ◌∷◌}
use native.Mathlib.Omega.{arith}
use certheim.Base.Equality.{if◌then◌else◌, nat_eq, option_eq, ◌==◌}
use certheim.Base.Lists.{filter}
use certheim.Base.Strings.{Text, text_eq}

module _ {ℓ} {V : Type ℓ} where
  abbrev pub lookup : Text → List (Text × V) → Option V
  lookup key [] = none
  lookup key ((k, v) ∷ rows) = let rest = lookup key rows in if k == key then some v else rest

  abbrev pub put : Text → V → List (Text × V) → List (Text × V)
  put key value [] = (key, value) ∷ []
  put key value ((k, v) ∷ rows) =
      let rest = put key value rows in if k == key then (k, value) ∷ rows else (k, v) ∷ rest

  abbrev pub erase : Text → List (Text × V) → List (Text × V)
  erase key rows = filter (λ r. not (r.0 == key)) rows

  pub lookup-put :
      (key : Text) (value : V) (k : Text) (rows : List (Text × V))
      → lookup k (put key value rows) ≡ (if key == k then some value else lookup k rows)
  lookup-put key value k [] = refl
  lookup-put key value k (r ∷ rows) = ground (arith, lookup-put key value k rows)

  pub lookup-erase :
      (key k : Text) (rows : List (Text × V))
      → lookup k (erase key rows) ≡ (if key == k then none else lookup k rows)
  lookup-erase key k [] = ground arith
  lookup-erase key k (r ∷ rows) = ground (arith, lookup-erase key k rows)
