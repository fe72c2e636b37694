-- ===== src/Tests/Accounts.antt =====
-- Runs of logins, registrations and the user administration, and the theorems at concrete inputs.
use certheim.Accounts.AuthSettings.{AuthChanges, admin_set_auth_settings, written}
use certheim.Accounts.AuthSettings.Laws.{IsModeChange, IsMtlsChange, auth_settings-IsGated}
use certheim.Accounts.Register.{
  Registration, answer_of, auth_register, cleaned, parse_trusted_domains, registered_user,
  registration_refusal,
}
use certheim.Settings.{get_setting, set_setting}
use certheim.Validation.{is_email, text}
use certheim.Accounts.Names.{normalize_name_part}
use certheim.Accounts.Names.Free.{occupies}
use certheim.Accounts.Admin.{admin_delete_user, delete_found}
use certheim.Accounts.Identity.{
  Visit, auth_mode, load_or_create, require_auth, resolve_identity, via_eq,
}
use certheim.Accounts.Admin.Rows.{HasAdmin}
use certheim.Accounts.Login.{row_with_username}
use certheim.Base.{
  List, Option, Text, [], any, ap, arith, contains, false, find, join, lit, map, nat_eq, none,
  option_eq, parse_int, refl, some, split_on, starts_with, strip, text_eq, true, ◌++◌, ◌+◌, ◌-◌,
  ◌==◌, ◌∷◌, ◌≡◌, ◌≤◌,
}
use certheim.Store.{Session, User, World, error, ok, status_eq}
use certheim.Tests.Fixtures.{admin, test_deploy, test_world}
use certheim.Accounts.Sessions.{AuthEnv, has_token, session_user_dn}
use certheim.Accounts.Passwords.{
  Kdf, hash_password, password_policy_errors, verify-hash_password, verify_password,
}
use certheim.Accounts.Login.Lockout.{attempts, lockout_bounds_tries}
use certheim.Accounts.Register.Laws.{register-succeeds}
use certheim.Accounts.History.{
  AccountStep, manage, remove, run_accounts, run_accounts-HasAdmin, visit,
}
use certheim.Accounts.Identity.Laws.{require_auth-session}
use certheim.Accounts.Deleted.{deleted_user_returns}

-- a reversible stand-in for the password functions: an encoded text has each character plus 100
abbrev test_kdf : Kdf
test_kdf = record {
  pbkdf2 = λ password salt n. password;
  b64encode = λ t. map (λ c. c + 100) t;
  b64decode = λ t. some (map (λ c. c - 100) t);
}

decodes : (t : Text) → test_kdf.b64decode (test_kdf.b64encode t) ≡ some t
decodes [] = refl
decodes (c ∷ t) =
    let same : c + 100 - 100 ≡ c = omega arith in
    rw same (ap (λ (o : Option Text). elim o [ none ↦ none | some s ↦ some (c ∷ s) ]) (decodes t))

plain : (t : Text) → contains (test_kdf.b64encode t) b'$' ≡ false
unfolding nat_eq
plain [] = refl
plain (c ∷ t) = ground (arith, plain t)

verify-hash_password_example :
    verify_password test_kdf (lit "guess") (hash_password test_kdf (lit "salt") (lit "secret"))
    ≡ (lit "guess" == lit "secret")
verify-hash_password_example =
    verify-hash_password test_kdf (lit "salt") (lit "secret") (lit "guess") decodes plain

abbrev test_env : AuthEnv
test_env = record {
  bootstrap_first_admin = true;
  default_mode = lit "local";
  cac_available = false;
  session_ttl = 28800;
  kdf = test_kdf;
}

abbrev root_user : User
root_user = record {
  dn = lit "root";
  cn = lit "root";
  email = none;
  is_admin = true;
  is_active = true;
  username = none;
  password_hash = none;
  auth_status = lit "active";
  failed_attempts = 0;
  locked_until = 0;
  first_name = none;
  last_name = none;
  last_seen_at = 0;
}

abbrev eve_hash : Text
eve_hash = hash_password test_kdf (lit "s") (lit "secret")

abbrev eve_user : User
eve_user = record root_user {
  dn = lit "local:eve.adams";
  is_admin = false;
  username = some (lit "eve.adams");
  password_hash = some eve_hash;
}

abbrev eve_session : Session
eve_session = record { token = lit "T"; user_dn = lit "local:eve.adams"; expires_at = 9000 }

abbrev local_world : World
local_world = record test_world {
  users = root_user ∷ eve_user ∷ [];
  settings = (lit "auth_mode", lit "local") ∷ (lit "allow_registration", lit "1") ∷ [];
  sessions = eve_session ∷ [];
}

lockout_bounds_tries_example :
    (v : User) × (find
        (row_with_username (strip (lit "eve.adams")))
        (attempts test_env
          (lit "N")
          (lit "eve.adams")
          ((10, lit "a") ∷ (11, lit "b") ∷ (12, lit "c") ∷ [])
          local_world).users
      ≡ some v)
    × (v.failed_attempts ≤ 5)
unfolding strip text_eq option_eq verify_password hash_password join split_on nat_eq parse_int
lockout_bounds_tries_example =
    lockout_bounds_tries test_env 0 (lit "N") (lit "eve.adams") eve_hash
      ((10, lit "a") ∷ (11, lit "b") ∷ (12, lit "c") ∷ []) eve_user local_world refl refl refl
      (
        (omega arith, omega arith, refl),
        ((omega arith, omega arith, refl), ((omega arith, omega arith, refl), tt)),
      )

abbrev adam : Registration
adam = record {
  first_name = lit "Eve";
  last_name = lit "Adams";
  email = lit "eve@example.org";
  password = lit "Correct-Horse-42-x";
}

register-succeeds_example :
    (name : Text) × (any (occupies name) (auth_mode test_env local_world).0.users ≡ false)
    × ((auth_register test_env 50 (lit "N") (lit "s") adam local_world).1
        ≡ ok (
            answer_of (
              registered_user test_env 50
                (cleaned adam)
                (hash_password test_kdf (lit "s") (lit "Correct-Horse-42-x"))
                name
                (auth_mode test_env local_world).0)))
    × ((auth_register test_env 50 (lit "N") (lit "s") adam local_world).0.users
        ≡ (auth_mode test_env local_world).0.users
          ++ registered_user test_env 50
              (cleaned adam)
              (hash_password test_kdf (lit "s") (lit "Correct-Horse-42-x"))
              name
              (auth_mode test_env local_world).0
            ∷ [])
unfolding auth_mode get_setting text_eq registration_refusal normalize_name_part is_email
    parse_trusted_domains password_policy_errors
register-succeeds_example =
    register-succeeds test_env 50 (lit "N") (lit "s") adam local_world refl refl refl

abbrev test_visit : Visit
test_visit = record {
  client_dn = [];
  client_verify = [];
  remote_addr = lit "10.0.0.1";
  token = lit "T";
  now = 60;
  changes = false;
  requested_with = [];
}

abbrev account_steps : List AccountStep
account_steps =
    manage admin (remove (lit "local:eve.adams") false)
    ∷ visit test_visit
    ∷ manage admin (remove (lit "root") false)
    ∷ []

run_accounts-HasAdmin_example : HasAdmin (run_accounts test_env account_steps local_world)
run_accounts-HasAdmin_example = run_accounts-HasAdmin test_env account_steps local_world refl

require_auth-session_example :
    (s : Session) × (find (has_token (lit "T")) local_world.sessions ≡ some s)
    × (60 ≤ s.expires_at)
    × (eve_user.dn ≡ s.user_dn)
    × (eve_user.is_active ≡ true)
unfolding require_auth resolve_identity auth_mode session_user_dn get_setting load_or_create text_eq
    via_eq strip
require_auth-session_example =
    require_auth-session test_env test_visit local_world eve_user refl refl

deleted_user_returns_example :
    (u : User) × ((require_auth test_env test_visit
        (admin_delete_user admin (lit "local:eve.adams") false local_world).0).1
      ≡ some u)
    × (u.dn ≡ strip (lit "local:eve.adams"))
    × (u.is_active ≡ true)
unfolding get_setting text_eq strip starts_with nat_eq admin_delete_user delete_found
deleted_user_returns_example =
    deleted_user_returns test_env admin (lit "local:eve.adams") false test_visit local_world
      eve_session refl refl refl refl refl refl refl

-- a change to local mode, with a domain that is no domain
abbrev half_wrong : AuthChanges
half_wrong = record {
  auth_mode = some (text (lit "local"));
  confirm_mtls = false;
  mtls_mode = some (lit "off");
  mtls_ca_bundle_path = [];
  trusted_domains = some (written (lit "example.org; nowhere"));
  require_admin_approval = some true;
  allow_registration = none;
  login_banner = none;
  custom_title = none;
  custom_text = none;
}

-- The change is refused for its domains after its modes are stored.
half_wrong-stored :
    ((admin_set_auth_settings test_deploy half_wrong test_world).1
      ≡ error 400 (lit "invalid domain(s)"))
    × (get_setting (lit "auth_mode") (admin_set_auth_settings test_deploy half_wrong test_world).0
        ≡ some (lit "local"))
    × (get_setting
          (lit "require_admin_approval")
          (admin_set_auth_settings test_deploy half_wrong test_world).0
        ≡ some (lit "0"))
unfolding admin_set_auth_settings get_setting set_setting
half_wrong-stored = (refl, refl, refl)

auth_settings-IsGated_example :
    IsModeChange test_deploy false
      (get_setting (lit "auth_mode") test_world)
      (get_setting (lit "auth_mode") (admin_set_auth_settings test_deploy half_wrong test_world).0)
    × IsMtlsChange test_deploy (get_setting (lit "mtls_mode") test_world) (
        get_setting (lit "mtls_mode") (admin_set_auth_settings test_deploy half_wrong test_world).0)
auth_settings-IsGated_example = auth_settings-IsGated test_deploy half_wrong test_world
