-- ===== src/Base/Sets.antt =====
-- Python's `set`, as a list without repeats; its order is not observed.
use mathlib.Core.Path.{◌≡◌, refl, sym, ◌∙◌}
use mathlib.Core.Bool.{◌&&◌, Bool, true, false, ◌||◌, not}
use mathlib.Core.List.{List, [], ◌∷◌, ◌++◌, append-nil, append_assoc}
use native.Mathlib.Omega.{arith}
use certheim.Base.Equality.{Eq, contains, if◌then◌else◌, nat_eq, option_eq, ◌==◌}
use certheim.Base.Lists.{all, filter}

module _ {ℓ} {A : Type ℓ} ⦃e : Eq A⦄ where
  -- `s.add(x)`
  abbrev pub add : A → List A → List A
  add x s = if contains s x then s else s ++ x ∷ []

  -- `s | set(xs)`
  abbrev pub union : List A → List A → List A
  union s [] = s
  union s (x ∷ xs) = union (add x s) xs

  -- `set(xs)`
  abbrev pub to_set : List A → List A
  to_set xs = union [] xs

  -- `xs <= s`
  abbrev pub subset : List A → List A → Bool
  subset xs s = all (contains s) xs

  -- `xs - s`
  abbrev pub difference : List A → List A → List A
  difference xs s = filter (λ x. not (contains s x)) xs

  abbrev pub IsSetList : List A → Type 0
  IsSetList [] = Unit
  IsSetList (x ∷ xs) = (contains xs x ≡ false) × IsSetList xs

  pub contains-append :
      (s t : List A) (x : A) → contains (s ++ t) x ≡ (contains s x || contains t x)
  contains-append [] t x = refl
  contains-append (y ∷ s) t x = ground (arith, contains-append s t x)

  pub contains-add : (s : List A) (x y : A) → contains (add x s) y ≡ (contains s y || y == x)
  contains-add s x y = ground (arith, contains-append s (x ∷ []) y)

  pub contains-union :
      (s xs : List A) (y : A) → contains (union s xs) y ≡ (contains s y || contains xs y)
  contains-union s [] y = ground arith
  contains-union s (x ∷ xs) y = ground (arith, contains-union (add x s) xs y, contains-add s x y)

  -- A union with what is there changes nothing.
  pub union-subset : (s xs : List A) → subset xs s ≡ true → union s xs ≡ s
  union-subset s [] h = refl
  union-subset s (x ∷ xs) h = ground (arith, union-subset s xs)

  IsSetList-append_one :
      (s : List A) (x : A) → contains s x ≡ false → IsSetList s → IsSetList (s ++ x ∷ [])
  IsSetList-append_one [] x h u = (refl, tt)
  IsSetList-append_one (y ∷ s) x h u =
      ground (arith, IsSetList-append_one s x, contains-append s (x ∷ []) y)

  pub IsSetList-add : (s : List A) (x : A) → IsSetList s → IsSetList (add x s)
  IsSetList-add s x u = ground (arith, IsSetList-append_one s x)

  -- A union of sets has no repeats.
  pub IsSetList-union : (s xs : List A) → IsSetList s → IsSetList (union s xs)
  IsSetList-union s [] u = u
  IsSetList-union s (x ∷ xs) u = IsSetList-union (add x s) xs (IsSetList-add s x u)

  pub contains-to_set : (xs : List A) (y : A) → contains (to_set xs) y ≡ contains xs y
  contains-to_set xs y = contains-union [] xs y

  pub IsSetList-to_set : (xs : List A) → IsSetList (to_set xs)
  IsSetList-to_set xs = IsSetList-union [] xs tt

  pub contains-filter :
      (p : A → Bool) (xs : List A) (y : A) → contains (filter p xs) y ≡ (contains xs y && p y)
  contains-filter p [] y = refl
  contains-filter p (x ∷ xs) y = ground (arith, contains-filter p xs y)

  pub subset-contains :
      (xs s : List A) (y : A) → subset xs s ≡ true → contains xs y ≡ true → contains s y ≡ true
  subset-contains [] s y h k = cc
  subset-contains (x ∷ xs) s y h k = ground (arith, subset-contains xs s y)

  -- none of `xs` is in `s`
  abbrev IsApart : List A → List A → Type 0
  IsApart s [] = Unit
  IsApart s (x ∷ xs) = (contains s x ≡ false) × IsApart s xs

  IsApart-append_one :
      (s xs : List A) (x : A) → IsApart s xs → contains xs x ≡ false → IsApart (s ++ x ∷ []) xs
  IsApart-append_one s [] x a h = tt
  IsApart-append_one s (y ∷ xs) x a h =
      ground (arith, contains-append s (x ∷ []) y, IsApart-append_one s xs x a.1)

  union_apart : (s xs : List A) → IsSetList xs → IsApart s xs → union s xs ≡ s ++ xs
  union_apart s [] u a = sym (append-nil s)
  union_apart s (x ∷ xs) u a = rw a.0 (
      union_apart (s ++ x ∷ []) xs u.1 (IsApart-append_one s xs x a.1 u.0)
      ∙ append_assoc s (x ∷ []) xs)

  IsApart-nil : (xs : List A) → IsApart [] xs
  IsApart-nil [] = tt
  IsApart-nil (x ∷ xs) = (refl, IsApart-nil xs)

  -- A set is its own set.
  pub to_set-IsSetList : (xs : List A) → IsSetList xs → to_set xs ≡ xs
  to_set-IsSetList xs u = union_apart [] xs u (IsApart-nil xs)

module _ {ℓ} {A : Type ℓ} ⦃e : Eq A⦄ where
  pub subset_of_contains :
      (xs s : List A) → ((x : A) → contains xs x ≡ true → contains s x ≡ true) → subset xs s ≡ true
  subset_of_contains [] s h = refl
  subset_of_contains (x ∷ xs) s h =
      ground (arith, h x, subset_of_contains xs s (λ y k. h y (ground arith)))
