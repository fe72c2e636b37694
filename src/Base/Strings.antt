-- ===== src/Base/Strings.antt =====
-- Python's `str` as the list of its code points, with the methods that the program calls.
use Prim.Native.Nat.{ℕ, zero, suc, ◌+◌, ◌-◌}
use certheim.Base.Lists.{length}
use Prim.Native.Char.{code}
use Prim.Native.String.{String}
use mathlib.Core.Bool.{Bool, true, false, ◌&&◌, ◌||◌}
use mathlib.Core.List.{List, [], ◌∷◌, ◌++◌, map, reverse}
use native.Mathlib.Decide.{ℕ_discrete}
use certheim.Base.Equality.{Eq, if◌then◌else◌, nat_eq, option_eq, ◌==◌}
use certheim.Base.Numbers.{leb}

abbrev pub Text : Type 0
Text = List ℕ

-- The code points of a literal.
abbrev pub lit : String → Text
lit String.[] = []
lit (String.◌∷◌ c s) = code c ∷ lit s

Text-discrete : Discrete Text
unfolding ℕ_discrete
Text-discrete = hlevel ℕ_discrete

instance unfoldable pub text_eq : Eq Text
unfolding Text-discrete
text_eq = record { dec = Text-discrete }

-- `c.isspace()`
unfoldable pub is_space : ℕ → Bool
unfolding nat_eq
is_space c =
    (leb 9 c && leb c 13)
    || (leb 28 c && leb c 32)
    || (c == 0x85)
    || (c == 0xa0)
    || (c == 0x1680)
    || (leb 0x2000 c && leb c 0x200a)
    || (leb 0x2028 c && leb c 0x2029)
    || (c == 0x202f)
    || (c == 0x205f)
    || (c == 0x3000)

-- `s.lstrip(chars)`, for the set of characters that `drop?` accepts
unfoldable pub lstrip : (ℕ → Bool) → Text → Text
lstrip drop? [] = []
lstrip drop? (c ∷ s) = let rest = lstrip drop? s in if drop? c then rest else c ∷ s

-- `s.rstrip(chars)`
unfoldable pub rstrip : (ℕ → Bool) → Text → Text
unfolding lstrip
rstrip drop? s = reverse (lstrip drop? (reverse s))

-- `s.strip()`
unfoldable pub strip : Text → Text
unfolding rstrip lstrip is_space
strip s = rstrip is_space (lstrip is_space s)

unfoldable pub lower_char : ℕ → ℕ
lower_char c = if leb b'A' c && leb c b'Z' then c + 32 else c

-- `s.lower()`, on the ASCII letters
unfoldable pub lower : Text → Text
unfolding lower_char
lower s = map lower_char s

unfoldable pub is_digit : ℕ → Bool
is_digit c = leb b'0' c && leb c b'9'

unfoldable pub is_lower : ℕ → Bool
is_lower c = leb b'a' c && leb c b'z'

unfoldable pub is_upper : ℕ → Bool
is_upper c = leb b'A' c && leb c b'Z'

-- adds a character to the first of the pieces
abbrev pub push_first : ℕ → List Text → List Text
push_first c [] = (c ∷ []) ∷ []
push_first c (p ∷ ps) = (c ∷ p) ∷ ps

-- `s.split(c)`
unfoldable pub split_on : ℕ → Text → List Text
unfolding nat_eq
split_on sep [] = [] ∷ []
split_on sep (c ∷ s) = let ps = split_on sep s in if c == sep then [] ∷ ps else push_first c ps

-- `sep.join(pieces)`
unfoldable pub join : Text → List Text → Text
join sep [] = []
join sep (p ∷ []) = p
join sep (p ∷ q ∷ ps) = p ++ sep ++ join sep (q ∷ ps)

-- `s.startswith(prefix)`
unfoldable pub starts_with : Text → Text → Bool
unfolding nat_eq
starts_with s [] = true
starts_with [] (p ∷ ps) = false
starts_with (c ∷ s) (p ∷ ps) = c == p && starts_with s ps

-- `needle in s`
unfoldable pub has_infix : Text → Text → Bool
unfolding starts_with
has_infix needle [] = starts_with [] needle
has_infix needle (c ∷ s) = starts_with (c ∷ s) needle || has_infix needle s

-- a text without one final newline, before which the `$` of a pattern matches too
unfoldable pub chomp : Text → Text
unfolding nat_eq
chomp [] = []
chomp (c ∷ []) = if c == 10 then [] else c ∷ []
chomp (c ∷ d ∷ s) = c ∷ chomp (d ∷ s)

-- the text after a skip, with each match replaced
unfoldable replace_from : Text → Text → ℕ → Text → Text
unfolding starts_with
replace_from old new n [] = []
replace_from old new (suc n) (c ∷ s) = replace_from old new n s
replace_from old new zero (c ∷ s) =
    let match = replace_from old new (length old - 1) s in
    let rest = replace_from old new 0 s in
    if starts_with (c ∷ s) old then new ++ match else c ∷ rest

-- `s.replace(old, new)`, for an `old` that is not empty
unfoldable pub replace : Text → Text → Text → Text
unfolding replace_from
replace old new s = replace_from old new 0 s
