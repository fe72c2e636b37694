-- ===== src/Accounts/Names/Free.antt =====
-- Theorems on derive_username (backend/app.py).
use mathlib.Core.List.{append-nil}
use certheim.Accounts.Names.Numbers.{free_number-free}
use certheim.Store.{User, status_eq}
use certheim.Base.{
  Bool, Bool-cases, List, Text, [], all, any, arith, contains, contains-append, false, filter,
  if◌then◌else◌, inl, inr, is_digit, is_empty, is_lower, join, length, lit, lower, lower_char,
  nat_eq, not, option_eq, refl, some, starts_with, strip, suc, take, text_eq, true, zero, ℕ, ◌++◌,
  ◌+◌, ◌==◌, ◌||◌, ◌∷◌, ◌≡◌,
}
use certheim.Accounts.Names.{
  base_username, derive_username, like_prefix, local_name, local_prefix, normalize_name_part,
  print_nat, row_like, taken_names, username_of,
}

-- a character of a base name or of the prefix of local accounts
is_plain : ℕ → Bool
unfolding nat_eq is_lower is_digit
is_plain c = is_lower c || is_digit c || c == b'.' || c == b':'

plain-filter : (xs : Text) → all is_plain (filter (λ c. is_lower c || is_digit c) xs) ≡ true
unfolding is_plain
plain-filter [] = refl
plain-filter (c ∷ xs) = ground (arith, plain-filter xs)

plain-take : (n : ℕ) (xs : Text) → all is_plain xs ≡ true → all is_plain (take n xs) ≡ true
plain-take zero xs h = refl
plain-take (suc n) [] h = refl
plain-take (suc n) (c ∷ xs) h = ground (arith, plain-take n xs)

plain-append :
    (xs ys : Text)
    → all is_plain xs ≡ true
    → all is_plain ys ≡ true
    → all is_plain (xs ++ ys) ≡ true
plain-append [] ys h k = k
plain-append (c ∷ xs) ys h k = ground (arith, plain-append xs ys)

IsBase : Text → Type 0
IsBase s = (all is_plain s ≡ true) × (is_empty s ≡ false)

cut-IsBase : (s : Text) → all is_plain s ≡ true → is_empty s ≡ false → IsBase (take 60 s)
unfolding IsBase
cut-IsBase [] h k = absurd (ground arith)
cut-IsBase (c ∷ s) h k = (plain-take 60 (c ∷ s) h, refl)

join-IsBase :
    (f l : Text)
    → all is_plain f ≡ true
    → all is_plain l ≡ true
    → IsBase (
        take 60 (
          let parts = filter (λ p. not (is_empty p)) (f ∷ l ∷ []) in
          if is_empty parts then lit "user" else join (lit ".") parts))
unfolding join is_plain
join-IsBase [] [] h k = cut-IsBase (lit "user") refl refl
join-IsBase [] (c ∷ l) h k = cut-IsBase (c ∷ l) k refl
join-IsBase (c ∷ f) [] h k = cut-IsBase (c ∷ f) h refl
join-IsBase (c ∷ f) (d ∷ l) h k =
    cut-IsBase (((c ∷ f) ++ lit ".") ++ (d ∷ l))
      (plain-append ((c ∷ f) ++ lit ".") (d ∷ l) (plain-append (c ∷ f) (lit ".") h refl) k) refl

base_username-IsBase : (first last : Text) → IsBase (base_username first last)
unfolding base_username normalize_name_part
base_username-IsBase first last =
    join-IsBase (normalize_name_part first) (normalize_name_part last)
      (plain-filter (lower (strip first))) (plain-filter (lower (strip last)))

like_prefix-append :
    (base s : Text) → all is_plain base ≡ true → like_prefix base (base ++ s) ≡ true
unfolding like_prefix starts_with lower lower_char is_plain is_lower is_digit nat_eq
like_prefix-append [] s h = refl
like_prefix-append (c ∷ base) s h = ground (arith, like_prefix-append base s)

-- the row has the name, as its username or in its dn
abbrev pub occupies : Text → User → Bool
occupies name u = u.username == some name || u.dn == local_prefix ++ name

not_empty-append : (base s : Text) → is_empty base ≡ false → is_empty (base ++ s) ≡ false
not_empty-append [] s h = absurd (ground arith)
not_empty-append (c ∷ base) s h = refl

named-row :
    (base s : Text) (u : User)
    → IsBase base
    → u.username ≡ some (base ++ s)
    → (row_like base u ≡ true)
      × (contains (username_of u.username ++ local_name u.dn) (base ++ s) ≡ true)
unfolding IsBase text_eq
named-row base s u is e = (
  rw (e, like_prefix-append base s is.0) refl,
  rw (e, not_empty-append base s is.1) (ground arith),
)

local-row :
    (base s : Text) (u : User)
    → IsBase base
    → u.dn ≡ local_prefix ++ (base ++ s)
    → (row_like base u ≡ true)
      × (contains (username_of u.username ++ local_name u.dn) (base ++ s) ≡ true)
unfolding IsBase text_eq local_name starts_with nat_eq is_plain is_lower is_digit
local-row base s u is e = (
  rw (e, like_prefix-append (local_prefix ++ base) s is.0) (ground arith),
  rw e (ground (arith, contains-append (username_of u.username) ((base ++ s) ∷ []) (base ++ s))),
)

taken_names-occupied :
    (base s : Text) (users : List User)
    → IsBase base
    → contains (taken_names base users) (base ++ s) ≡ false
    → any (occupies (base ++ s)) users ≡ false
unfolding taken_names text_eq
taken_names-occupied base s [] is h = refl
taken_names-occupied base s (u ∷ us) is h =
    let own = username_of u.username ++ local_name u.dn in
    elim (Bool-cases (u.username == some (base ++ s))) [
      | inl named ↦ absurd (
          ground (
            arith,
            named-row base s u is (ground arith),
            contains-append own (taken_names base us) (base ++ s),
          ))
      | inr other ↦ elim (Bool-cases (u.dn == local_prefix ++ (base ++ s))) [
        | inl here ↦ absurd (
            ground (
              arith,
              local-row base s u is (ground arith),
              contains-append own (taken_names base us) (base ++ s),
            ))
        | inr there ↦ ground (
          arith,
          taken_names-occupied base s us is,
          contains-append own (taken_names base us) (base ++ s),
        )
      ]
    ]

-- For any names a username is derived, and no row of the users table has it, neither as its username
-- nor in its dn.
pub derive_username-free :
    (first last : Text) (users : List User)
    → (name : Text) × (derive_username first last users ≡ some name)
      × (any (occupies name) users ≡ false)
unfolding derive_username
derive_username-free first last users =
    let base = base_username first last in
    let taken = taken_names base users in
    let is = base_username-IsBase first last in
    elim (Bool-cases (contains taken base)) [
      | inr free ↦ (
        base,
        rw free refl,
        rw⁻¹ (append-nil base) (taken_names-occupied base [] users is (rw (append-nil base) free)),
      )
      | inl used ↦
          let (n, found, free) =
            free_number-free (length taken + 1) base taken taken 2 (omega arith) (λ m later h. h) in
          (
            base ++ print_nat n,
            rw (used, found) refl,
            taken_names-occupied base (print_nat n) users is free,
          )
    ]
