-- ===== src/Accounts/History.antt =====
-- Sequences of the requests that change the users table.
use certheim.Accounts.Admin.Create.{
  admin_approve_user-Owns, admin_create_user-Owns, admin_set_password-Owns,
}
use certheim.Accounts.Admin.Keeps.{admin_delete_user-Owns, admin_update_user-Owns}
use certheim.Accounts.Admin.Rows.{HasAdmin, Owns, any-found, any-own, is_active_admin}
use certheim.Accounts.Login.Laws.{HasAdmin-login}
use certheim.Accounts.Register.Keeps.{HasAdmin-register, HasAdmin-visit}
use certheim.Base.{
  Bool, Bool-cases, List, Option, Option-cases, Text, [], arith, false, if◌then◌else◌, inl, inr,
  none, some, true, ℕ, ◌∷◌, ◌≡◌,
}
use certheim.Store.{Request, User, World}
use certheim.Accounts.Admin.NewUsers.{NewUser, admin_create_user, admin_set_password}
use certheim.Accounts.Sessions.{AuthEnv, user_by_dn}
use certheim.Accounts.Admin.{UserChanges, admin_approve_user, admin_delete_user, admin_update_user}
use certheim.Accounts.Login.{auth_login}
use certheim.Accounts.Register.{Registration, auth_register}
use certheim.Accounts.Identity.{Visit, require_auth}

-- A request of an admin on the users.
pub data Manage : Type 0 where
  update : UserChanges → Manage
  set_user_password : Text → Text → Text → Manage
  create : ℕ → Text → Text → NewUser → Manage
  remove : Text → Bool → Manage
  approve : Text → Manage

abbrev pub apply : AuthEnv → Request → Manage → World → World
apply e r (update c) w = (admin_update_user r c w).0
apply e r (set_user_password salt dn password) w = (admin_set_password e salt dn password w).0
apply e r (create now salt generated n) w = (admin_create_user e now salt generated n w).0
apply e r (remove dn purge) w = (admin_delete_user r dn purge w).0
apply e r (approve dn) w = (admin_approve_user dn w).0

abbrev admin_or_not : Option User → Bool
admin_or_not none = false
admin_or_not (some u) = is_active_admin u

-- A request that changes users: an admin's, a login, a registration, or a visit that makes a row.
pub data AccountStep : Type 0 where
  manage : Request → Manage → AccountStep
  login : ℕ → Text → Text → Text → AccountStep
  register : ℕ → Text → Text → Registration → AccountStep
  visit : Visit → AccountStep

-- one request; an admin's passes the gate only where its row is an active admin's
abbrev pub account_step : AuthEnv → AccountStep → World → World
account_step e (manage r m) w = if admin_or_not (user_by_dn r.dn w) then apply e r m w else w
account_step e (login now token username password) w =
    (auth_login e now token username password w).0
account_step e (register now token salt g) w = (auth_register e now token salt g w).0
account_step e (visit v) w = (require_auth e v w).0

abbrev pub run_accounts : AuthEnv → List AccountStep → World → World
run_accounts e [] w = w
run_accounts e (s ∷ steps) w = run_accounts e steps (account_step e s w)

apply-Owns :
    (e : AuthEnv) (r : Request) (m : Manage) (w : World) → Owns r.dn w → Owns r.dn (apply e r m w)
apply-Owns e r (update c) w h = admin_update_user-Owns r c w h
apply-Owns e r (set_user_password salt dn password) w h =
    admin_set_password-Owns e r.dn salt dn password w h
apply-Owns e r (create now salt generated n) w h =
    admin_create_user-Owns e now salt generated n r.dn w h
apply-Owns e r (remove dn purge) w h = admin_delete_user-Owns r dn purge w h
apply-Owns e r (approve dn) w h = admin_approve_user-Owns r.dn dn w h

gate-Owns : (dn : Text) (w : World) → admin_or_not (user_by_dn dn w) ≡ true → Owns dn w
gate-Owns dn w h = elim (Option-cases (user_by_dn dn w)) [
  | inl missing ↦ absurd (ground arith)
  | inr (u, found) ↦ any-found dn u w.users found (rw found at h)
]

HasAdmin-manage :
    (e : AuthEnv) (r : Request) (m : Manage) (w : World)
    → HasAdmin w
    → HasAdmin (account_step e (manage r m) w)
HasAdmin-manage e r m w h = elim (Bool-cases (admin_or_not (user_by_dn r.dn w))) [
  | inl admin ↦
      rw admin (any-own r.dn (apply e r m w).users (apply-Owns e r m w (gate-Owns r.dn w admin)))
  | inr other ↦ rw other h
]

-- No sequence of requests on the users by active admins, of logins, registrations and visits, in any
-- order and by anyone, leaves an installation that has an active admin without one.
pub run_accounts-HasAdmin :
    (e : AuthEnv) (steps : List AccountStep) (w : World)
    → HasAdmin w
    → HasAdmin (run_accounts e steps w)
run_accounts-HasAdmin e [] w h = h
run_accounts-HasAdmin e (manage r m ∷ steps) w h =
    run_accounts-HasAdmin e steps (account_step e (manage r m) w) (HasAdmin-manage e r m w h)
run_accounts-HasAdmin e (login now token username password ∷ steps) w h =
    run_accounts-HasAdmin e steps (account_step e (login now token username password) w)
      (HasAdmin-login e now token username password w h)
run_accounts-HasAdmin e (register now token salt g ∷ steps) w h =
    run_accounts-HasAdmin e steps (account_step e (register now token salt g) w)
      (HasAdmin-register e now token salt g w h)
run_accounts-HasAdmin e (visit v ∷ steps) w h =
    run_accounts-HasAdmin e steps (account_step e (visit v) w) (HasAdmin-visit e v w h)
