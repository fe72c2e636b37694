-- ===== src/Accounts/Register.antt =====
-- auth_register (backend/routes_auth.py), with NAME_RE and parse_trusted_domains (backend/app.py).
-- The token and the salt that a request draws are arguments.
pub mod Laws
pub mod Keeps
use certheim.Base.{
  Bool, List, Option, Text, [], all, chomp, contains, false, if◌then◌else◌, is_empty, is_lower,
  is_space, is_upper, join, leb, length, lit, lower, lstrip, nat_eq, none, not, option_eq,
  push_first, some, split_on, strip, suc, take, text_eq, zero, ℕ, ◌&&◌, ◌++◌, ◌==◌, ◌||◌, ◌∷◌,
}
use certheim.Store.{Reply, User, World, error, log_event, ok, status_eq}
use certheim.Accounts.Sessions.{AuthEnv, create_local_session, insert_user}
use certheim.Accounts.Identity.{auth_mode, or_null, via_eq}
use certheim.Accounts.Passwords.{hash_password, password_policy_errors}
use certheim.Accounts.Names.{derive_username, local_prefix, normalize_name_part}
use certheim.Validation.{is_email}
use certheim.Settings.{setting_or}

-- a character after the first of a name
abbrev is_name_tail : ℕ → Bool
unfolding nat_eq is_lower is_upper
is_name_tail c = is_lower c || is_upper c || c == b' ' || c == b'.' || c == 39 || c == b'-'

abbrev first_letter : Text → Bool
first_letter [] = false
first_letter (c ∷ s) = (is_lower c || is_upper c) && all is_name_tail s && leb (length s) 63

-- `NAME_RE.match(s)`
unfoldable pub is_person_name : Text → Bool
unfolding chomp is_name_tail is_lower is_upper
is_person_name s = first_letter (chomp s)

-- `re.split(r"[\s,;]+", s)`, whose empty pieces are dropped later
unfoldable pub split_domains : Text → List Text
unfolding is_space nat_eq
split_domains [] = [] ∷ []
split_domains (c ∷ s) =
    let ps = split_domains s in
    if is_space c || c == b',' || c == b';' then [] ∷ ps else push_first c ps

unfoldable collect_domains : List Text → List Text → List Text
unfolding text_eq strip lstrip nat_eq
collect_domains [] out = out
collect_domains (p ∷ ps) out =
    let part = lstrip (λ c. c == b'@') (strip p) in
    let out' = if is_empty part || contains out part then out else out ++ part ∷ [] in
    collect_domains ps out'

-- `parse_trusted_domains`
unfoldable pub parse_trusted_domains : Text → List Text
unfolding collect_domains split_domains lower strip
parse_trusted_domains raw = collect_domains (split_domains (lower (strip raw))) []

-- `email.rsplit("@", 1)[-1]`
unfoldable pub after_last_at : List Text → Text
after_last_at [] = []
after_last_at (p ∷ []) = p
after_last_at (p ∷ q ∷ ps) = after_last_at (q ∷ ps)

pub record Registration : Type 0 where
  pub first_name : Text
  pub last_name : Text
  pub email : Text
  pub password : Text

-- What an account that was registered got.
pub record Registered : Type 0 where
  pub username : Text
  pub status : Text

-- the rights of a new account: the first of all is the admin, if that is switched on
abbrev makes_admin : AuthEnv → World → Bool
makes_admin e w = e.bootstrap_first_admin && is_empty w.users

abbrev needs_approval : AuthEnv → World → Bool
needs_approval e w =
    not (makes_admin e w) && setting_or (lit "require_admin_approval") [] w == lit "1"

abbrev pub registered_user : AuthEnv → ℕ → Registration → Text → Text → World → User
registered_user e now g pwhash username w = record {
  dn = local_prefix ++ username;
  cn = take 128 (strip (g.first_name ++ b' ' ∷ g.last_name));
  email = some g.email;
  is_admin = makes_admin e w;
  is_active = not (needs_approval e w);
  username = some username;
  password_hash = some pwhash;
  auth_status = if needs_approval e w then lit "pending" else lit "active";
  failed_attempts = 0;
  locked_until = 0;
  first_name = or_null g.first_name;
  last_name = or_null g.last_name;
  last_seen_at = now;
}

-- one try: nothing where the row is refused
unfoldable pub try_register : AuthEnv → ℕ → Registration → Text → World → Option (World × User)
unfolding insert_user strip text_eq
try_register e now g pwhash w = elim (derive_username g.first_name g.last_name w.users) [
  | none ↦ none
  | some username ↦ elim (insert_user (registered_user e now g pwhash username w) w) [
    | none ↦ none
    | some w' ↦ some (w', registered_user e now g pwhash username w)
  ]
]

-- the tries
unfoldable pub register_tries :
    ℕ → AuthEnv → ℕ → Registration → Text → World → Option (World × User)
unfolding try_register
register_tries zero e now g pwhash w = none
register_tries (suc n) e now g pwhash w =
    let rest = register_tries n e now g pwhash w in
    elim (try_register e now g pwhash w) [ none ↦ rest | some p ↦ some p ]

abbrev name_or_blank : Option Text → Text
name_or_blank none = []
name_or_blank (some s) = s

abbrev pub answer_of : User → Registered
answer_of u = record { username = name_or_blank u.username; status = u.auth_status }

-- the session of an account that needs no approval
unfoldable pub finish_register :
    AuthEnv → ℕ → Text → Option (World × User) → World → World × Reply Registered
unfolding text_eq
finish_register e now token none w = (
  log_event "register" "error_collision" [] w,
  error 503 (lit "could not assign a username, please retry"),
)
finish_register e now token (some (w', u)) w =
    let done = log_event "register" "ok" [] w' in
    if u.auth_status == lit "pending"
    then (done, ok (answer_of u))
    else (create_local_session e now token u.dn done, ok (answer_of u))

-- the fields of the request, as they are checked
abbrev pub cleaned : Registration → Registration
cleaned g = record {
  first_name = strip g.first_name;
  last_name = strip g.last_name;
  email = lower (strip g.email);
  password = g.password;
}

-- the first check that refuses, with its answer
unfoldable pub registration_refusal : Registration → World → Option (ℕ × Text)
unfolding strip lower is_person_name text_eq
registration_refusal g w =
    let domains = parse_trusted_domains (setting_or (lit "trusted_email_domain") [] w) in
    if not (is_person_name g.first_name && is_person_name g.last_name)
    then some (400, lit "enter a valid first and last name")
    else if is_empty (normalize_name_part g.first_name)
        || is_empty (normalize_name_part g.last_name)
    then some (400, lit "name must contain letters")
    else if not (is_email g.email)
    then some (400, lit "valid email required")
    else if not (is_empty domains) && not (contains domains (after_last_at (split_on b'@' g.email)))
    then some (403, lit "email must be at one of the trusted domains")
    else if not (is_empty (password_policy_errors g.password))
    then some (400, lit "password needs " ++ join (lit ", ") (password_policy_errors g.password))
    else none

-- self-registration is open, or there is no account yet
abbrev pub registration_open : World → Bool
registration_open w = setting_or (lit "allow_registration") [] w == lit "1" || is_empty w.users

-- `auth_register`
unfoldable pub auth_register :
    AuthEnv → ℕ → Text → Text → Registration → World → World × Reply Registered
unfolding finish_register register_tries registration_refusal text_eq strip lower
auth_register e now token salt g w =
    let (w', mode) = auth_mode e w in
    if not (mode == lit "local")
    then (w', error 403 (lit "registration not available"))
    else if not (registration_open w')
    then (w', error 403 (lit "self-registration is disabled"))
    else elim (registration_refusal (cleaned g) w') [
      | some (code, message) ↦ (w', error code message)
      | none ↦
          finish_register e now token
            (register_tries 5 e now (cleaned g) (hash_password e.kdf salt g.password) w') w'
    ]
