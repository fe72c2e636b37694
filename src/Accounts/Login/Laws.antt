-- ===== src/Accounts/Login/Laws.antt =====
-- Lemmas on the users table under auth_login (backend/routes_auth.py).
use certheim.Accounts.Passwords.{verify_password}
use certheim.Settings.{set_setting}
use certheim.Accounts.Admin.Rows.{HasAdmin, any-update_keep, is_active_admin}
use certheim.Base.{
  Bool, Option, Option-cases, Text, arith, if-either, if◌then◌else◌, inl, inr, is_empty, leb, lit,
  ltb, nat_eq, none, not, option_eq, some, strip, text_eq, true, ℕ, ◌+◌, ◌==◌, ◌||◌, ◌≡◌,
}
use certheim.Store.{Reply, User, World, status_eq}
use certheim.Accounts.Sessions.{AuthEnv, row_with_dn, update_users}
use certheim.Accounts.Login.{
  auth_login, hash_of, lockout_seconds, lockout_threshold, login_found, login_row, set_entered,
  set_failed,
}
use certheim.Accounts.Identity.{auth_mode, via_eq}

-- a change of rows that leaves the rights alone
pub HasAdmin-update :
    (q : User → Bool) (f : User → User) (w : World)
    → ((u : User) → is_active_admin u ≡ true → is_active_admin (f u) ≡ true)
    → HasAdmin w
    → HasAdmin (update_users q f w)
HasAdmin-update q f w keep h = any-update_keep is_active_admin q f (λ u hit. keep u) w.users h

pub HasAdmin-auth_mode : (e : AuthEnv) (w : World) → HasAdmin w → HasAdmin (auth_mode e w).0
unfolding auth_mode set_setting
HasAdmin-auth_mode e w h = ground arith

HasAdmin-login_row :
    (e : AuthEnv) (now : ℕ) (token password stored : Text) (u : User) (w : World)
    → HasAdmin w
    → HasAdmin (login_row e now token password stored u w).0
unfolding login_row
HasAdmin-login_row e now token password stored u w h =
    let P = λ (x : World × Reply Text). HasAdmin x.0 in
    if-either P (ltb now u.locked_until) _ _ h (
      if-either P (u.auth_status == lit "pending") _ _ h (
        if-either P (not u.is_active) _ _ h (
          if-either P (not (verify_password e.kdf password stored)) _ _
            (HasAdmin-update (row_with_dn u.dn)
              (set_failed (u.failed_attempts + 1) (
                if leb lockout_threshold (u.failed_attempts + 1) then now + lockout_seconds else 0))
              w (λ v own. own) h)
            (HasAdmin-update (row_with_dn u.dn) (set_entered now) w (λ v own. own) h))))

HasAdmin-login_found :
    (e : AuthEnv) (now : ℕ) (token password : Text) (o : Option User) (w : World)
    → HasAdmin w
    → HasAdmin (login_found e now token password o w).0
HasAdmin-login_found e now token password none w h = h
HasAdmin-login_found e now token password (some u) w h = elim (Option-cases (hash_of (some u))) [
  | inl blank ↦ rw (blank, login_found) h
  | inr (stored, given) ↦
      rw (given, login_found) (HasAdmin-login_row e now token password stored u w h)
]

pub HasAdmin-login :
    (e : AuthEnv) (now : ℕ) (token username password : Text) (w : World)
    → HasAdmin w
    → HasAdmin (auth_login e now token username password w).0
unfolding auth_login
HasAdmin-login e now token username password w h =
    let P = λ (x : World × Reply Text). HasAdmin x.0 in
    let h' = HasAdmin-auth_mode e w h in
    if-either P ((auth_mode e w).1 == lit "mtls") _ _ h' (
      if-either P (is_empty (strip username) || is_empty password) _ _ h'
        (HasAdmin-login_found e now token password _ (auth_mode e w).0 h'))
