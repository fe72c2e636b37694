-- ===== src/Accounts/Names.antt =====
-- Usernames derived from a person's names (backend/app.py, _normalize_name_part and
-- derive_username). Letter case is that of ASCII.
pub mod Numbers
pub mod Free
use certheim.Base.{
  Bool, List, Option, Text, [], contains, drop, false, filter, if◌then◌else◌, is_digit, is_empty,
  is_lower, join, length, lit, lower, ltb, nat_eq, none, not, option_eq, some, starts_with, strip,
  suc, take, text_eq, zero, ℕ, ◌%◌, ◌++◌, ◌+◌, ◌/◌, ◌||◌, ◌∷◌,
}
use certheim.Store.{User, status_eq}

-- `_normalize_name_part`
unfoldable pub normalize_name_part : Text → Text
unfolding strip lower is_lower is_digit
normalize_name_part s = filter (λ c. is_lower c || is_digit c) (lower (strip s))

-- the parts that are not empty, joined by a dot, or "user", and room left for a number
unfoldable pub base_username : Text → Text → Text
unfolding normalize_name_part join
base_username first last =
    let parts =
      filter (λ p. not (is_empty p)) (normalize_name_part first ∷ normalize_name_part last ∷ []) in
    take 60 (if is_empty parts then lit "user" else join (lit ".") parts)

-- `str(n)`: the last digit after those of the tenth; `n + 1` rounds are enough
unfoldable pub digits : ℕ → ℕ → Text
digits zero n = []
digits (suc fuel) n =
    let rest = digits fuel (n / 10) in
    if ltb n 10 then (b'0' + n) ∷ [] else rest ++ (b'0' + n % 10) ∷ []

unfoldable pub print_nat : ℕ → Text
unfolding digits
print_nat n = digits (n + 1) n

-- `x LIKE base || '%'`, which ignores letter case
unfoldable pub like_prefix : Text → Text → Bool
unfolding lower starts_with
like_prefix base s = starts_with (lower s) base

abbrev pub local_prefix : Text
local_prefix = lit "local:"

abbrev username_like : Text → Option Text → Bool
username_like base none = false
username_like base (some name) = like_prefix base name

-- the rows that may hold the name; equality to the base is a case of the prefix
abbrev pub row_like : Text → User → Bool
row_like base u = username_like base u.username || like_prefix (local_prefix ++ base) u.dn

abbrev username_of : Option Text → List Text
username_of none = []
username_of (some name) = if is_empty name then [] else name ∷ []

-- `dn[len("local:"):]`, of a dn that starts so
unfoldable pub local_name : Text → List Text
unfolding starts_with
local_name dn = if starts_with dn local_prefix then drop 6 dn ∷ [] else []

-- the names that are taken
unfoldable pub taken_names : Text → List User → List Text
unfolding like_prefix local_name
taken_names base [] = []
taken_names base (u ∷ us) =
    let rest = taken_names base us in
    if row_like base u then username_of u.username ++ local_name u.dn ++ rest else rest

-- the loop over the numbers from `n`
unfoldable pub free_number : ℕ → Text → List Text → ℕ → Option ℕ
unfolding text_eq print_nat
free_number zero base taken n = none
free_number (suc fuel) base taken n =
    let rest = free_number fuel base taken (n + 1) in
    if contains taken (base ++ print_nat n) then rest else some n

-- `derive_username`: one round more than names are taken
unfoldable pub derive_username : Text → Text → List User → Option Text
unfolding text_eq free_number
derive_username first last users =
    let base = base_username first last in
    let taken = taken_names base users in
    if not (contains taken base)
    then some base
    else elim (free_number (length taken + 1) base taken 2) [
      | none ↦ none
      | some n ↦ some (base ++ print_nat n)
    ]
