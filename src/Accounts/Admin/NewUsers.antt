-- ===== src/Accounts/Admin/NewUsers.antt =====
-- Passwords and accounts that an admin makes (admin_set_password and admin_create_user of
-- backend/routes_admin.py). Salts, and the password that is generated where none is given, are
-- arguments.
use certheim.Base.{
  Bool, Option, Text, [], if◌then◌else◌, is_empty, join, length, lit, ltb, nat_eq, none, not,
  option_eq, some, strip, take, text_eq, true, ℕ, ◌&&◌, ◌++◌, ◌==◌, ◌||◌, ◌∷◌,
}
use certheim.Store.{Reply, User, World, error, log_event, ok, status_eq}
use certheim.Accounts.Sessions.{AuthEnv, insert_user, row_with_dn, update_users, user_by_dn}
use certheim.Accounts.Identity.{auth_mode, cn_from_dn, via_eq}
use certheim.Accounts.Passwords.{hash_password, password_policy_errors}
use certheim.Accounts.Names.{derive_username, local_prefix}
use certheim.Accounts.Register.{is_person_name}
use certheim.Validation.{TextField, invalid, valid, validate_email}
use certheim.Accounts.Admin.{text_or_blank}

abbrev pub set_password : Text → User → User
set_password pwhash u = record u {
  password_hash = some pwhash;
  failed_attempts = 0;
  locked_until = 0;
}

-- `admin_set_password`
unfoldable pub admin_set_password : AuthEnv → Text → Text → Text → World → World × Reply Unit
unfolding strip text_eq
admin_set_password e salt dn password w =
    let target = strip dn in
    if is_empty target
    then (w, error 400 (lit "dn required"))
    else if not (is_empty (password_policy_errors password))
    then (w, error 400 (lit "password needs " ++ join (lit ", ") (password_policy_errors password)))
    else elim (user_by_dn target w) [
      | none ↦ (w, error 404 (lit "user not found"))
      | some u ↦
          if is_empty (text_or_blank u.username)
          then (w, error 400 (lit "set the user's first/last name first so a username exists"))
          else (
            log_event "admin_set_password" "ok" [] (
                update_users (row_with_dn target) (set_password (hash_password e.kdf salt password))
                  w),
            ok tt,
          )
    ]

-- The fields of a new user.
pub record NewUser : Type 0 where
  pub dn : Text
  pub is_admin : Bool
  pub first_name : Text
  pub last_name : Text
  pub email : TextField
  pub password : Text

-- the row of a local account
abbrev pub local_user : NewUser → ℕ → Option Text → Text → Text → User
local_user n now email pwhash username = record {
  dn = local_prefix ++ username;
  cn = take 128 (strip (strip n.first_name ++ b' ' ∷ strip n.last_name));
  email = email;
  is_admin = n.is_admin;
  is_active = true;
  username = some username;
  password_hash = some pwhash;
  auth_status = lit "active";
  failed_attempts = 0;
  locked_until = 0;
  first_name = some (strip n.first_name);
  last_name = some (strip n.last_name);
  last_seen_at = now;
}

-- the row of a certificate's owner, made ahead
abbrev pub cac_user : NewUser → ℕ → Option Text → User
cac_user n now email = record {
  dn = strip n.dn;
  cn = cn_from_dn (strip n.dn);
  email = email;
  is_admin = n.is_admin;
  is_active = true;
  username = none;
  password_hash = none;
  auth_status = lit "active";
  failed_attempts = 0;
  locked_until = 0;
  first_name = none;
  last_name = none;
  last_seen_at = now;
}

-- the insert and its answer
unfoldable pub store_user : User → Text → World → World × Reply Unit
unfolding insert_user
store_user u message w = elim (insert_user u w) [
  | none ↦ (w, error 409 message)
  | some w' ↦ (log_event "admin_user_create" "ok" [] w', ok tt)
]

unfoldable pub create_local :
    AuthEnv → ℕ → Text → NewUser → Option Text → Text → World → World × Reply Unit
unfolding store_user strip
create_local e now salt n email password w =
    if not (is_empty (password_policy_errors password))
    then (w, error 400 (lit "password needs " ++ join (lit ", ") (password_policy_errors password)))
    else elim (derive_username (strip n.first_name) (strip n.last_name) w.users) [
      | none ↦ (w, error 500 [])
      | some username ↦
          store_user (local_user n now email (hash_password e.kdf salt password) username)
            (lit "a user with that name already exists") w
    ]

abbrev pub given_email : TextField → Reply (Option Text)
given_email field = elim (validate_email field) [
  | invalid message ↦ error 400 (lit "email: " ++ message)
  | valid e ↦ ok e
]

-- `admin_create_user`; `generated` stands in for a password that is not given
unfoldable pub admin_create_user : AuthEnv → ℕ → Text → Text → NewUser → World → World × Reply Unit
unfolding create_local strip is_person_name text_eq
admin_create_user e now salt generated n w =
    let (w', mode) = auth_mode e w in
    let password = if is_empty (strip n.password) then generated else strip n.password in
    if mode == lit "local"
    then (if not (is_person_name (strip n.first_name) && is_person_name (strip n.last_name))
        then (w', error 400 (lit "a valid first and last name are required"))
        else elim (given_email n.email) [
          | error code message ↦ (w', error code message)
          | ok email ↦ create_local e now salt n email password w'
        ])
    else if is_empty (strip n.dn) || ltb 512 (length (strip n.dn))
    then (w', error 400 (lit "invalid dn"))
    else elim (given_email n.email) [
      | error code message ↦ (w', error code message)
      | ok email ↦ store_user (cac_user n now email) (lit "user already exists") w'
    ]
