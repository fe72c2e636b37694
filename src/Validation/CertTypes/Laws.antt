-- ===== src/Validation/CertTypes/Laws.antt =====
-- Theorems on _normalize_cert_types (backend/app.py).
use certheim.Base.{
  Bool, Bool-cases, IsSetList, IsSetList-add, List, Option-cases, Text, [], add, any, arith,
  contains, false, find, inl, inr, is_empty, length, lit, map, nat_eq, none, option_eq, refl,
  split_on, subset, subset-contains, subset_of_contains, subst, text_eq, true, ◌&&◌, ◌++◌, ◌==◌,
  ◌||◌, ◌∙◌, ◌∷◌, ◌≡◌, ◌≢◌, ◌≤◌, ◌⊎◌,
}
use certheim.Validation.CertTypes.{
  Types, TypesField, cert_types_allowed, clean, collect_types, exclusive_cert_types, finish_types,
  insert_sorted, no_types, normalize_cert_types, other_types, rejected, sorted, types, types_list,
  types_text, unspecified,
}

-- An accepted list: some types, all known, none twice, and an exclusive one only alone.
pub record IsCanonical (ts : List Text) : Type 0 where
  pub some_type : is_empty ts ≡ false
  pub known : subset ts cert_types_allowed ≡ true
  pub no_repeats : IsSetList ts
  pub exclusive : (length ts ≤ 1) ⊎ (any (contains exclusive_cert_types) ts ≡ false)

contains-insert_sorted :
    (x y : Text) (ts : List Text) → contains (insert_sorted x ts) y ≡ (y == x || contains ts y)
unfolding insert_sorted
contains-insert_sorted x y [] = ground arith
contains-insert_sorted x y (t ∷ ts) = ground (arith, contains-insert_sorted x y ts)

IsSetList-insert_sorted :
    (x : Text) (ts : List Text)
    → contains ts x ≡ false
    → IsSetList ts
    → IsSetList (insert_sorted x ts)
unfolding insert_sorted
IsSetList-insert_sorted x [] h u = (refl, tt)
IsSetList-insert_sorted x (t ∷ ts) h u =
    ground (arith, contains-insert_sorted x t ts, IsSetList-insert_sorted x ts)

any-insert_sorted :
    (p : Text → Bool) (x : Text) (ts : List Text) → any p (insert_sorted x ts) ≡ (p x || any p ts)
unfolding insert_sorted
any-insert_sorted p x [] = refl
any-insert_sorted p x (t ∷ ts) = ground (arith, any-insert_sorted p x ts)

contains-sorted : (ts : List Text) (y : Text) → contains (sorted ts) y ≡ contains ts y
unfolding sorted
contains-sorted [] y = refl
contains-sorted (t ∷ ts) y =
    ground (arith, contains-insert_sorted t y (sorted ts), contains-sorted ts y)

IsSetList-sorted : (ts : List Text) → IsSetList ts → IsSetList (sorted ts)
unfolding sorted
IsSetList-sorted [] u = tt
IsSetList-sorted (t ∷ ts) u =
    IsSetList-insert_sorted t (sorted ts) (ground (arith, contains-sorted ts t))
      (IsSetList-sorted ts u.1)

any-sorted : (p : Text → Bool) (ts : List Text) → any p (sorted ts) ≡ any p ts
unfolding sorted
any-sorted p [] = refl
any-sorted p (t ∷ ts) = ground (arith, any-insert_sorted p t (sorted ts), any-sorted p ts)

find-none-any : (p : Text → Bool) (ts : List Text) → find p ts ≡ none → any p ts ≡ false
find-none-any p [] h = refl
find-none-any p (t ∷ ts) h = ground (arith, find-none-any p ts)

subset-append_one :
    (ts : List Text) (t : Text) (s : List Text)
    → subset (ts ++ t ∷ []) s ≡ (subset ts s && contains s t)
subset-append_one [] t s = ground arith
subset-append_one (u ∷ ts) t s = ground (arith, subset-append_one ts t s)

-- what the loop keeps of the types so far
abbrev IsGood : List Text → Type 0
IsGood ts = (subset ts cert_types_allowed ≡ true) × IsSetList ts

add-IsGood :
    (ts : List Text) (t : Text)
    → contains cert_types_allowed t ≡ true
    → IsGood ts
    → IsGood (add t ts)
add-IsGood ts t h good =
    (ground (arith, subset-append_one ts t cert_types_allowed), IsSetList-add ts t good.1)

collect_types-IsGood :
    (ps out ts : List Text) → collect_types ps out ≡ types ts → IsGood out → IsGood ts
unfolding collect_types
collect_types-IsGood [] out ts h good = let e : out ≡ ts = ground arith in subst IsGood e good
collect_types-IsGood (p ∷ ps) out ts h good = elim (Bool-cases (is_empty p)) [
  | inl blank ↦ collect_types-IsGood ps out ts (ground arith) good
  | inr some_text ↦ elim (Bool-cases (p == lit "server-client")) [
    | inl alias ↦
        collect_types-IsGood ps (add (lit "web") (add (lit "client") out)) ts (ground arith) (
          add-IsGood (add (lit "client") out) (lit "web") refl
            (add-IsGood out (lit "client") refl good))
    | inr other ↦ elim (Bool-cases (contains cert_types_allowed p)) [
      | inl allowed ↦
          collect_types-IsGood ps (add p out) ts (ground arith) (add-IsGood out p allowed good)
      | inr unknown ↦ absurd (ground arith)
    ]
  ]
]

insert_sorted-some : (x : Text) (ts : List Text) → is_empty (insert_sorted x ts) ≡ false
unfolding insert_sorted
insert_sorted-some x [] = refl
insert_sorted-some x (t ∷ ts) = ground arith

sorted-some : (t : Text) (ts : List Text) → is_empty (sorted (t ∷ ts)) ≡ false
unfolding sorted insert_sorted
sorted-some t ts = insert_sorted-some t (sorted ts)

subset-sorted : (ts s : List Text) → subset ts s ≡ true → subset (sorted ts) s ≡ true
subset-sorted ts s h =
    subset_of_contains (sorted ts) s
      (λ y k. subset-contains ts s y h (ground (arith, contains-sorted ts y)))

sorted-IsCanonical :
    (ts : List Text)
    → is_empty ts ≡ false
    → IsGood ts
    → find (contains exclusive_cert_types) ts ≡ none
    → IsCanonical (sorted ts)
sorted-IsCanonical [] h good e = absurd (ground arith)
sorted-IsCanonical (t ∷ ts) h good e = record {
  some_type = sorted-some t ts;
  known = subset-sorted (t ∷ ts) cert_types_allowed good.0;
  no_repeats = IsSetList-sorted (t ∷ ts) good.1;
  exclusive = inr (
      any-sorted (contains exclusive_cert_types) (t ∷ ts)
      ∙ find-none-any (contains exclusive_cert_types) (t ∷ ts) e);
}

finish_types-IsCanonical :
    (out ts : List Text) → finish_types (types out) ≡ types ts → IsGood out → IsCanonical ts
unfolding finish_types
finish_types-IsCanonical [] ts h good = absurd (ground arith)
finish_types-IsCanonical (t ∷ []) ts h good =
    let e : t ∷ [] ≡ ts = ground arith in
    subst IsCanonical e (record {
      some_type = refl;
      known = good.0;
      no_repeats = good.1;
      exclusive = inl (omega arith);
    })
finish_types-IsCanonical (t ∷ u ∷ us) ts h good =
    elim (Option-cases (find (contains exclusive_cert_types) (t ∷ u ∷ us))) [
      | inr (bad, found) ↦ absurd (ground arith)
      | inl none_found ↦
          let e : sorted (t ∷ u ∷ us) ≡ ts = ground arith in
          subst IsCanonical e (sorted-IsCanonical (t ∷ u ∷ us) refl good none_found)
    ]

Types-cases :
    (x : Types)
    → ((out : List Text) × (x ≡ types out)) ⊎ ((ts : List Text) → finish_types x ≢ types ts)
unfolding finish_types
Types-cases unspecified = inr (λ ts e. ground arith)
Types-cases (types out) = inl (out, refl)
Types-cases (rejected m) = inr (λ ts e. ground arith)

finish_collected-IsCanonical :
    (ps ts : List Text) → finish_types (collect_types ps []) ≡ types ts → IsCanonical ts
finish_collected-IsCanonical ps ts h = elim (Types-cases (collect_types ps [])) [
  | inr other ↦ absurd (other ts h)
  | inl (out, e) ↦
      finish_types-IsCanonical out ts (rw e at h) (collect_types-IsGood ps [] out e (refl, tt))
]

-- The certificate types that the normalization accepts are canonical: at least one, all known, none
-- twice, and an exclusive type only alone.
pub normalize_cert_types-IsCanonical :
    (field : TypesField) (ts : List Text) → normalize_cert_types field ≡ types ts → IsCanonical ts
unfolding normalize_cert_types
normalize_cert_types-IsCanonical no_types ts h = absurd (ground arith)
normalize_cert_types-IsCanonical other_types ts h = absurd (ground arith)
normalize_cert_types-IsCanonical (types_text s) ts h =
    finish_collected-IsCanonical (map clean (split_on b',' s)) ts h
normalize_cert_types-IsCanonical (types_list ps) ts h =
    finish_collected-IsCanonical (map clean ps) ts h
