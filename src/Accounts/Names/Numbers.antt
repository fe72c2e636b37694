-- ===== src/Accounts/Names/Numbers.antt =====
-- Lemmas on the numbers that derive_username appends (backend/app.py).
use certheim.Store.{status_eq}
use certheim.Base.{
  Bool-cases, List, Text, [], arith, contains, false, filter, inl, inr, length, ltb, nat_eq, not,
  option_eq, refl, some, suc, sym, text_eq, true, zero, ℕ, ◌%◌, ◌&&◌, ◌*◌, ◌++◌, ◌+◌, ◌-◌, ◌/◌, ◌<◌,
  ◌==◌, ◌∙◌, ◌∷◌, ◌≡◌, ◌≤◌,
}
use certheim.Accounts.Names.{digits, free_number, print_nat}

-- the number that a text of digits spells, from what was read before
abbrev value_from : ℕ → Text → ℕ
value_from a [] = a
value_from a (c ∷ s) = value_from (a * 10 + (c - b'0')) s

value_from-append_one :
    (a c : ℕ) (s : Text) → value_from a (s ++ c ∷ []) ≡ value_from a s * 10 + (c - b'0')
value_from-append_one a c [] = refl
value_from-append_one a c (d ∷ s) = value_from-append_one (a * 10 + (d - b'0')) c s

value_digits : (fuel n : ℕ) → n < fuel → value_from 0 (digits fuel n) ≡ n
unfolding digits
value_digits zero n h = absurd (omega (arith, h))
value_digits (suc fuel) n h = elim (Bool-cases (ltb n 10)) [
  | inl small ↦ rw (small) (ground arith)
  | inr large ↦
      let m = n / 10 in
      let less : m < fuel = ground arith in
      rw (large, value_from-append_one 0 (b'0' + n % 10) (digits fuel m), value_digits fuel m less)
        (ground arith)
]

pub print_nat_inj : (m n : ℕ) → print_nat m ≡ print_nat n → m ≡ n
unfolding print_nat
print_nat_inj m n h =
    let p : m ≡ value_from 0 (digits (n + 1) n) =
      rw⁻¹ h (sym (value_digits (m + 1) m (omega arith))) in
    p ∙ value_digits (n + 1) n (omega arith)

abbrev without : Text → List Text → List Text
without x xs = filter (λ y. not (x == y)) xs

contains-without :
    (x y : Text) (xs : List Text) → contains (without x xs) y ≡ (not (x == y) && contains xs y)
unfolding text_eq
contains-without x y [] = ground arith
contains-without x y (z ∷ xs) = ground (arith, contains-without x y xs)

length-without_le : (x : Text) (xs : List Text) → length (without x xs) ≤ length xs
length-without_le x [] = omega arith
length-without_le x (z ∷ xs) = ground (arith, length-without_le x xs)

length-without :
    (x : Text) (xs : List Text) → contains xs x ≡ true → length (without x xs) < length xs
unfolding text_eq
length-without x [] h = absurd (ground arith)
length-without x (z ∷ xs) h = ground (arith, length-without x xs, length-without_le x xs)

append-inj : (base s t : Text) → base ++ s ≡ base ++ t → s ≡ t
append-inj [] s t h = h
append-inj (c ∷ base) s t h = append-inj base s t (ground arith)

names_differ :
    (base : Text) (n m : ℕ) → n + 1 ≤ m → (base ++ print_nat n == base ++ print_nat m) ≡ false
unfolding text_eq
names_differ base n m later = elim (Bool-cases (base ++ print_nat n == base ++ print_nat m)) [
  | inr apart ↦ apart
  | inl same ↦
      let e : base ++ print_nat n ≡ base ++ print_nat m = ground arith in
      absurd
        (omega (arith, later, print_nat_inj n m (append-inj base (print_nat n) (print_nat m) e)))
]

still_left :
    (base : Text) (left : List Text) (n m : ℕ)
    → n + 1 ≤ m
    → contains left (base ++ print_nat m) ≡ true
    → contains (without (base ++ print_nat n) left) (base ++ print_nat m) ≡ true
still_left base left n m later h =
    rw
      (
        contains-without (base ++ print_nat n) (base ++ print_nat m) left,
        names_differ base n m later,
        h,
      )
      refl

-- Among more rounds than there are taken names, one finds a free number. `left` holds the taken
-- names that rounds from `n` on can still meet.
pub free_number-free :
    (fuel : ℕ) (base : Text) (taken left : List Text) (n : ℕ)
    → length left < fuel
    → ((m : ℕ)
        → n ≤ m
        → contains taken (base ++ print_nat m) ≡ true
        → contains left (base ++ print_nat m) ≡ true)
    → (k : ℕ) × (free_number fuel base taken n ≡ some k)
      × (contains taken (base ++ print_nat k) ≡ false)
unfolding free_number
free_number-free zero base taken left n h seen = absurd (omega (arith, h))
free_number-free (suc fuel) base taken left n h seen =
    elim (Bool-cases (contains taken (base ++ print_nat n))) [
      | inr free ↦ (n, rw free refl, free)
      | inl used ↦
          let shorter = length-without (base ++ print_nat n) left (seen n (omega arith) used) in
          let (k, found, free) =
            free_number-free fuel base taken (without (base ++ print_nat n) left) (n + 1)
              (omega (arith, shorter, h))
              (λ m later again.
                still_left base left n m later (seen m (omega (arith, later)) again)) in
          (k, rw used found, free)
    ]
