-- ===== src/Accounts/Login.antt =====
-- auth_login and auth_logout (backend/routes_auth.py). The tokens that a request draws are
-- arguments.
pub mod Lockout
pub mod Laws
use certheim.Base.{
  Bool, Option, Text, [], find, if◌then◌else◌, is_empty, leb, lit, ltb, nat_eq, none, not,
  option_eq, some, strip, text_eq, ℕ, ◌+◌, ◌==◌, ◌||◌,
}
use certheim.Store.{Reply, User, World, error, log_event, ok, status_eq}
use certheim.Accounts.Sessions.{
  AuthEnv, create_local_session, destroy_local_session, row_with_dn, update_users,
}
use certheim.Accounts.Identity.{auth_mode, via_eq}
use certheim.Accounts.Passwords.{verify_password}

abbrev pub row_with_username : Text → User → Bool
row_with_username name u = u.username == some name

abbrev pub lockout_threshold : ℕ
lockout_threshold = 5

abbrev pub lockout_seconds : ℕ
lockout_seconds = 900

abbrev pub set_failed : ℕ → ℕ → User → User
set_failed attempts locked_until u = record u {
  failed_attempts = attempts;
  locked_until = locked_until;
}

abbrev pub set_entered : ℕ → User → User
set_entered now u = record u { failed_attempts = 0; locked_until = 0; last_seen_at = now }

-- a wrong password
abbrev pub count_failure : ℕ → User → World → World
count_failure now u w = log_event "login" "deny_badpass" [] (
    update_users (row_with_dn u.dn)
      (set_failed (u.failed_attempts + 1)
        (if leb lockout_threshold (u.failed_attempts + 1) then now + lockout_seconds else 0))
      w)

-- the right one
abbrev enter : AuthEnv → ℕ → Text → User → World → World
enter e now token u w =
    log_event "login" "ok" []
      (create_local_session e now token u.dn (update_users (row_with_dn u.dn) (set_entered now) w))

-- the part after the row has been found
unfoldable pub login_row : AuthEnv → ℕ → Text → Text → Text → User → World → World × Reply Text
unfolding text_eq
login_row e now token password stored u w =
    if ltb now u.locked_until
    then (
      log_event "login" "deny_locked" [] w,
      error 429 (lit "account temporarily locked - try again later"),
    )
    else if u.auth_status == lit "pending"
    then (w, error 403 (lit "account awaiting administrator approval"))
    else if not u.is_active
    then (w, error 403 (lit "account disabled"))
    else if not (verify_password e.kdf password stored)
    then (count_failure now u w, error 401 (lit "invalid credentials"))
    else (enter e now token u w, ok token)

abbrev pub hash_of : Option User → Option Text
hash_of none = none
hash_of (some u) = elim u.password_hash [
  | none ↦ none
  | some stored ↦ if is_empty stored then none else some stored
]

abbrev pub unknown_user : World → World × Reply Text
unknown_user w = (log_event "login" "deny_unknown_user" [] w, error 401 (lit "invalid credentials"))

abbrev pub login_found : AuthEnv → ℕ → Text → Text → Option User → World → World × Reply Text
login_found e now token password none w = unknown_user w
login_found e now token password (some u) w = elim (hash_of (some u)) [
  | none ↦ unknown_user w
  | some stored ↦ login_row e now token password stored u w
]

-- `auth_login`: the token of the new session
unfoldable pub auth_login : AuthEnv → ℕ → Text → Text → Text → World → World × Reply Text
unfolding login_row strip text_eq
auth_login e now token username password w =
    let name = strip username in
    let (w', mode) = auth_mode e w in
    if mode == lit "mtls"
    then (w', error 403 (lit "this host uses CAC authentication"))
    else if is_empty name || is_empty password
    then (w', error 400 (lit "username and password required"))
    else login_found e now token password (find (row_with_username name) w'.users) w'

-- `auth_logout`
abbrev pub auth_logout : Text → World → World
auth_logout token w = destroy_local_session token w
