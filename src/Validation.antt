-- ===== src/Validation.antt =====
-- The checks of request fields (backend/app.py): HOSTNAME_RE, EMAIL_RE with _validate_email, and
-- _normalize_cert_types. Letter case is that of ASCII.
pub mod CertTypes
use certheim.Base.{
  Bool, List, Option, Text, [], all, arith, chomp, contains, false, if◌then◌else◌, inl, inr,
  is_digit, is_empty, is_lower, is_upper, join, leb, length, lit, ltb, nat_eq, none, not, option_eq,
  refl, some, split_on, strip, text_eq, true, ℕ, ◌&&◌, ◌==◌, ◌||◌, ◌∷◌, ◌≡◌, ◌≤◌, ◌⊎◌,
}

pub is_letter : ℕ → Bool
unfolding is_lower is_upper
is_letter c = is_lower c || is_upper c

unfoldable pub is_alnum : ℕ → Bool
unfolding is_letter is_digit
is_alnum c = is_letter c || is_digit c

host_char : ℕ → Bool
unfolding is_alnum nat_eq
host_char c = is_alnum c || c == b'.' || c == b'_' || c == b'-'

-- the pattern of HOSTNAME_RE without its anchors
host_body : Text → Bool
unfolding is_alnum host_char
host_body [] = false
host_body (c ∷ s) = is_alnum c && leb (length s) 253 && all host_char s

-- `HOSTNAME_RE.match(s)`
unfoldable pub is_hostname : Text → Bool
unfolding host_body chomp
is_hostname s = host_body (chomp s)

local_char : ℕ → Bool
unfolding is_alnum nat_eq
local_char c = is_alnum c || contains (lit "._%+-") c

domain_char : ℕ → Bool
unfolding is_alnum nat_eq
domain_char c = is_alnum c || c == b'.' || c == b'-'

-- the labels before the top-level one, and the top-level label
split_last : List Text → Option (List Text × Text)
split_last [] = none
split_last (l ∷ []) = some ([], l)
split_last (l ∷ m ∷ ls) = elim (split_last (m ∷ ls)) [
  | none ↦ none
  | some (front, top) ↦ some (l ∷ front, top)
]

-- `[A-Za-z0-9.-]+\.[A-Za-z]{2,}`
unfoldable pub mail_domain : Text → Bool
unfolding split_on split_last join domain_char is_letter
mail_domain s = elim (split_last (split_on b'.' s)) [
  | none ↦ false
  | some (front, top) ↦
      not (is_empty (join (lit ".") front))
      && all domain_char s
      && leb 2 (length top)
      && all is_letter top
]

mail_parts : List Text → Bool
unfolding mail_domain local_char
mail_parts (local ∷ domain ∷ []) =
    not (is_empty local) && all local_char local && mail_domain domain
mail_parts _ = false

-- `EMAIL_RE.match(s)`
unfoldable pub is_email : Text → Bool
unfolding mail_parts chomp split_on
is_email s = mail_parts (split_on b'@' (chomp s))

-- a field of a JSON body that should be text: missing or null, another type, or text
pub data TextField : Type 0 where
  no_text other_type : TextField
  text : Text → TextField

pub data Checked (A : Type 0) : Type 0 where
  valid : A → Checked A
  invalid : Text → Checked A

pub Checked-cases :
    {A : Type 0} (x : Checked A)
    → ((v : A) × (x ≡ valid v)) ⊎ ((message : Text) × (x ≡ invalid message))
Checked-cases (valid v) = inl (v, refl)
Checked-cases (invalid message) = inr (message, refl)

-- `_validate_email`
unfoldable pub validate_email : TextField → Checked (Option Text)
unfolding strip
validate_email no_text = valid none
validate_email other_type = invalid (lit "email must be a string")
validate_email (text raw) =
    let addr = strip raw in
    if is_empty addr
    then valid none
    else if ltb 254 (length addr)
    then invalid (lit "email too long")
    else if not (is_email addr)
    then invalid (lit "invalid email format")
    else valid (some addr)

-- An accepted address is stripped text of the right form, at most 254 characters long.
validate_email-is_email :
    (field : TextField) (addr : Text)
    → validate_email field ≡ valid (some addr)
    → (is_email addr ≡ true) × (length addr ≤ 254)
unfolding validate_email
validate_email-is_email no_text addr h = ground arith
validate_email-is_email other_type addr h = ground arith
validate_email-is_email (text raw) addr h = ground arith
