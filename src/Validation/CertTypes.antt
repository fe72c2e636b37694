-- ===== src/Validation/CertTypes.antt =====
-- _normalize_cert_types (backend/app.py) and the constants that it reads.
pub mod Laws
use certheim.Base.{
  Bool, List, Text, [], add, contains, false, find, if◌then◌else◌, is_empty, lit, lower, ltb, map,
  nat_eq, none, not, option_eq, some, split_on, strip, text_eq, true, ◌++◌, ◌==◌, ◌∷◌,
}

abbrev pub cert_types_allowed : List Text
cert_types_allowed =
    lit "web"
    ∷ lit "client"
    ∷ lit "email"
    ∷ lit "codesign"
    ∷ lit "ipsec"
    ∷ lit "ocsp"
    ∷ lit "timestamp"
    ∷ lit "8021x"
    ∷ []

abbrev pub exclusive_cert_types : List Text
exclusive_cert_types = lit "codesign" ∷ lit "ocsp" ∷ lit "timestamp" ∷ []

abbrev pub key_algos_allowed : List Text
key_algos_allowed =
    lit "rsa2048" ∷ lit "rsa3072" ∷ lit "rsa4096" ∷ lit "ecdsa256" ∷ lit "ecdsa384" ∷ []

-- the `cert_type` of a request body
pub data TypesField : Type 0 where
  no_types other_types : TypesField
  types_text : Text → TypesField
  types_list : List Text → TypesField

pub data Types : Type 0 where
  -- no type was given, so that the caller's default holds
  unspecified : Types
  types : List Text → Types
  rejected : Text → Types

-- the loop over the parts: the types so far, or the part that is unknown
unfoldable pub collect_types : List Text → List Text → Types
unfolding text_eq
collect_types [] out = types out
collect_types (p ∷ ps) out =
    let skip = collect_types ps out in
    let alias = collect_types ps (add (lit "web") (add (lit "client") out)) in
    let more = collect_types ps (add p out) in
    if is_empty p
    then skip
    else if p == lit "server-client"
    then alias
    else if not (contains cert_types_allowed p)
    then rejected (lit "unknown cert type: " ++ p)
    else more

-- Python's order of texts
unfoldable pub text_le : Text → Text → Bool
unfolding nat_eq
text_le [] t = true
text_le (a ∷ s) [] = false
text_le (a ∷ s) (b ∷ t) = if a == b then text_le s t else ltb a b

unfoldable pub insert_sorted : Text → List Text → List Text
unfolding text_le
insert_sorted x [] = x ∷ []
insert_sorted x (y ∷ ys) = if text_le x y then x ∷ y ∷ ys else y ∷ insert_sorted x ys

unfoldable pub sorted : List Text → List Text
unfolding insert_sorted
sorted [] = []
sorted (x ∷ xs) = insert_sorted x (sorted xs)

-- the checks after the loop, and the canonical order
unfoldable pub finish_types : Types → Types
unfolding text_eq sorted
finish_types (types []) = unspecified
finish_types (types (t ∷ [])) = types (t ∷ [])
finish_types (types (t ∷ u ∷ ts)) = elim (find (contains exclusive_cert_types) (t ∷ u ∷ ts)) [
  | none ↦ types (sorted (t ∷ u ∷ ts))
  | some bad ↦ rejected (lit "type '" ++ bad ++ lit "' cannot be combined with other types")
]
finish_types other = other

clean : Text → Text
unfolding strip lower
clean p = lower (strip p)

-- `_normalize_cert_types`; the text that the source returns joins the list by commas
unfoldable pub normalize_cert_types : TypesField → Types
unfolding finish_types collect_types split_on clean
normalize_cert_types no_types = unspecified
normalize_cert_types other_types = rejected (lit "cert_type must be a string or array")
normalize_cert_types (types_text s) = finish_types (collect_types (map clean (split_on b',' s)) [])
normalize_cert_types (types_list ps) = finish_types (collect_types (map clean ps) [])
