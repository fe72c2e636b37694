-- ===== src/Base/Int.antt =====
-- Python's `int`, over the native numbers.
use Prim.Native.Nat.{ℕ, suc, ◌+◌, ◌-◌, ◌*◌, ◌≤◌}
use mathlib.Core.Bool.{Bool, ◌&&◌}
use mathlib.Core.Option
use mathlib.Core.Option.{Option, none, some}
use mathlib.Core.List.{[], ◌∷◌}
use certheim.Base.Equality.{if◌then◌else◌}
use certheim.Base.Numbers.{leb}
use certheim.Base.Strings.{Text, is_digit, strip}

-- `negsuc n` is -(n + 1)
pub data ℤ : Type 0 where
  pos : ℕ → ℤ
  negsuc : ℕ → ℤ

abbrev pub pos_part : ℤ → ℕ
pos_part (pos n) = n
pos_part (negsuc n) = 0

abbrev pub neg_part : ℤ → ℕ
neg_part (pos n) = 0
neg_part (negsuc n) = suc n

infix 50 ◌≤ℤ◌
abbrev pub ◌≤ℤ◌ : ℤ → ℤ → Type 0
a ≤ℤ b = pos_part a + neg_part b ≤ pos_part b + neg_part a

abbrev pub leb_ℤ : ℤ → ℤ → Bool
leb_ℤ a b = leb (pos_part a + neg_part b) (pos_part b + neg_part a)

abbrev pub max_ℤ : ℤ → ℤ → ℤ
max_ℤ a b = if leb_ℤ b a then a else b

abbrev pub min_ℤ : ℤ → ℤ → ℤ
min_ℤ a b = if leb_ℤ b a then b else a

abbrev pub negate : ℕ → ℤ
negate n = elim n [ ℕ.zero ↦ pos 0 | ℕ.suc m ↦ negsuc m ]

-- the digits of a numeral after its first, an underscore allowed between two digits
numeral_rest : ℕ → Text → Option ℕ
unfolding is_digit
numeral_rest n [] = some n
numeral_rest n (c ∷ []) = if is_digit c then some (n * 10 + (c - 48)) else none
numeral_rest n (c ∷ d ∷ s) =
    let plain = numeral_rest (n * 10 + (c - 48)) (d ∷ s) in
    let joined = numeral_rest (n * 10 + (d - 48)) s in
    if is_digit c then plain else if leb 95 c && leb c 95 && is_digit d then joined else none

numeral : Text → Option ℕ
unfolding numeral_rest is_digit
numeral [] = none
numeral (c ∷ s) = if is_digit c then numeral_rest (c - 48) s else none

signed : Text → Option ℤ
unfolding numeral
signed [] = none
signed (c ∷ s) =
    if leb b'-' c && leb c b'-'
    then Option.map negate (numeral s)
    else if leb b'+' c && leb c b'+'
    then Option.map pos (numeral s)
    else Option.map pos (numeral (c ∷ s))

-- `int(s)` of a text in ASCII; `none` is the ValueError
unfoldable pub parse_int : Text → Option ℤ
unfolding signed strip
parse_int s = signed (strip s)
