-- ===== src/Accounts/Passwords.antt =====
-- Stored passwords and the password policy (backend/app.py, hash_password to
-- password_policy_errors). PBKDF2 and Base64 are parameters.
use mathlib.Core.List.{append_assoc}
use certheim.Base.{
  Bool, List, Option, Text, [], any, arith, contains, false, if◌then◌else◌, is_digit, is_lower,
  is_upper, join, length, lit, ltb, nat_eq, not, option_eq, parse_int, pos, refl, some, split_on,
  text_eq, ℕ, ℤ, ◌&&◌, ◌++◌, ◌==◌, ◌||◌, ◌∷◌, ◌≡◌,
}

pub record Kdf : Type 0 where
  pub pbkdf2 : Text → Text → ℕ → Text
  pub b64encode : Text → Text
  pub b64decode : Text → Option Text

abbrev pub iterations : ℕ
iterations = 600000

abbrev pub algorithm : Text
algorithm = lit "pbkdf2_sha256"

-- `hash_password`, with the salt that was drawn
unfoldable pub hash_password : Kdf → Text → Text → Text
unfolding join
hash_password kdf salt password = join (lit "$") (
    algorithm
    ∷ lit "600000"
    ∷ kdf.b64encode salt
    ∷ kdf.b64encode (kdf.pbkdf2 password salt iterations)
    ∷ [])

-- the check of the decoded parts
abbrev check_parts : Kdf → Text → Option ℤ → Option Text → Option Text → Bool
check_parts kdf password (some (pos n)) (some salt) (some expected) =
    kdf.pbkdf2 password salt n == expected
check_parts kdf password _ _ _ = false

abbrev check_split : Kdf → Text → List Text → Bool
check_split kdf password (algo ∷ iters ∷ b64salt ∷ b64dk ∷ []) =
    algo == algorithm
    && check_parts kdf password (parse_int iters) (kdf.b64decode b64salt) (kdf.b64decode b64dk)
check_split kdf password _ = false

-- `verify_password`; every exception is a refusal
unfoldable pub verify_password : Kdf → Text → Text → Bool
unfolding text_eq split_on
verify_password kdf password stored = check_split kdf password (split_on b'$' stored)

-- `password_policy_errors`
unfoldable pub password_policy_errors : Text → List Text
unfolding is_upper is_lower is_digit
password_policy_errors pw =
    (if ltb (length pw) 15 then lit "at least 15 characters" ∷ [] else [])
    ++ ((if any is_upper pw then [] else lit "an uppercase letter" ∷ [])
        ++ ((if any is_lower pw then [] else lit "a lowercase letter" ∷ [])
            ++ ((if any is_digit pw then [] else lit "a digit" ∷ [])
                ++ (if any (λ c. not (is_upper c || is_lower c || is_digit c)) pw
                    then []
                    else lit "a special character" ∷ []))))

split_on-append :
    (sep : ℕ) (s rest : Text)
    → contains s sep ≡ false
    → split_on sep (s ++ sep ∷ rest) ≡ s ∷ split_on sep rest
unfolding split_on nat_eq
split_on-append sep [] rest h = ground arith
split_on-append sep (c ∷ s) rest h = ground (arith, split_on-append sep s rest)

split_on_whole : (sep : ℕ) (s : Text) → contains s sep ≡ false → split_on sep s ≡ s ∷ []
unfolding split_on nat_eq
split_on_whole sep [] h = refl
split_on_whole sep (c ∷ s) h = ground (arith, split_on_whole sep s)

split_two :
    (s t : Text)
    → contains s b'$' ≡ false
    → contains t b'$' ≡ false
    → split_on b'$' ((s ++ lit "$") ++ t) ≡ s ∷ t ∷ []
split_two s t h k =
    rw (append_assoc s (lit "$") t, split_on-append b'$' s t h, split_on_whole b'$' t k) refl

split-hash_password :
    (kdf : Kdf) (salt password : Text)
    → ((t : Text) → contains (kdf.b64encode t) b'$' ≡ false)
    → split_on b'$' (hash_password kdf salt password)
      ≡ algorithm
        ∷ lit "600000"
        ∷ kdf.b64encode salt
        ∷ kdf.b64encode (kdf.pbkdf2 password salt iterations)
        ∷ []
unfolding hash_password split_on nat_eq join
split-hash_password kdf salt password plain =
    rw
      (split_two (kdf.b64encode salt) (kdf.b64encode (kdf.pbkdf2 password salt iterations))
        (plain salt) (plain (kdf.pbkdf2 password salt iterations)))
      refl

iterations_text : parse_int (lit "600000") ≡ some (pos iterations)
unfolding parse_int
iterations_text = refl

-- Where Base64 decodes what it encodes, into texts without a dollar sign, a password is accepted
-- against the stored form of another exactly when PBKDF2 gives both the same key under the stored
-- salt; so the password itself is accepted.
pub verify-hash_password :
    (kdf : Kdf) (salt password guess : Text)
    → ((t : Text) → kdf.b64decode (kdf.b64encode t) ≡ some t)
    → ((t : Text) → contains (kdf.b64encode t) b'$' ≡ false)
    → verify_password kdf guess (hash_password kdf salt password)
      ≡ (kdf.pbkdf2 guess salt iterations == kdf.pbkdf2 password salt iterations)
unfolding verify_password text_eq
verify-hash_password kdf salt password guess decodes plain =
    rw
      (
        split-hash_password kdf salt password plain,
        iterations_text,
        decodes salt,
        decodes (kdf.pbkdf2 password salt iterations),
      )
      refl
