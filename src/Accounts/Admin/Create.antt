-- ===== src/Accounts/Admin/Create.antt =====
-- Lemmas on admins for the requests that make or approve users (backend/routes_admin.py).
use certheim.Accounts.Names.{derive_username}
use certheim.Accounts.Register.{is_person_name}
use certheim.Settings.{set_setting}
use certheim.Accounts.Passwords.{hash_password, password_policy_errors}
use certheim.Accounts.Identity.{auth_mode, via_eq}
use certheim.Base.{
  Bool, Option, Option-cases, Text, [], arith, if-either, inl, inr, is_empty, length, lit, ltb,
  nat_eq, not, option_eq, strip, text_eq, true, ℕ, ◌&&◌, ◌==◌, ◌||◌, ◌∷◌, ◌≡◌,
}
use certheim.Store.{Reply, Reply-cases, User, World, status_eq}
use certheim.Accounts.Admin.NewUsers.{
  NewUser, admin_create_user, admin_set_password, cac_user, create_local, given_email, local_user,
  set_password, store_user,
}
use certheim.Accounts.Sessions.{AuthEnv, insert_user, row_with_dn, update_users, user_by_dn}
use certheim.Accounts.Admin.Rows.{Owns, any-append_keep, any-update_keep, is_own_admin}
use certheim.Accounts.Admin.{admin_approve_user, set_approved, text_or_blank}

-- A change of rows that leaves dn and rights alone.
update_plain-Owns :
    (dn : Text) (q : User → Bool) (f : User → User) (w : World)
    → ((u : User) → is_own_admin dn u ≡ true → is_own_admin dn (f u) ≡ true)
    → Owns dn w
    → Owns dn (update_users q f w)
update_plain-Owns dn q f w keep h =
    any-update_keep (is_own_admin dn) q f (λ u hit. keep u) w.users h

pub admin_set_password-Owns :
    (e : AuthEnv) (me salt dn password : Text) (w : World)
    → Owns me w
    → Owns me (admin_set_password e salt dn password w).0
unfolding admin_set_password
admin_set_password-Owns e me salt dn password w h =
    if-either (λ (x : World × Reply Unit). Owns me x.0) (is_empty (strip dn)) _ _ h
      (if-either (λ (x : World × Reply Unit). Owns me x.0)
        (not (is_empty (password_policy_errors password))) _ _ h
        (elim (Option-cases (user_by_dn (strip dn) w)) [
          | inl missing ↦ rw missing h
          | inr (u, found) ↦ rw found (
              if-either (λ (x : World × Reply Unit). Owns me x.0)
                (is_empty (text_or_blank u.username)) _ _ h
                (update_plain-Owns me (row_with_dn (strip dn))
                  (set_password (hash_password e.kdf salt password)) w (λ v own. own) h))
        ]))

pub admin_approve_user-Owns :
    (me dn : Text) (w : World) → Owns me w → Owns me (admin_approve_user dn w).0
unfolding admin_approve_user
admin_approve_user-Owns me dn w h = elim (Option-cases (user_by_dn dn w)) [
  | inl missing ↦ rw (missing, admin_approve_user) h
  | inr (u, found) ↦
      rw (found, admin_approve_user)
        (update_plain-Owns me (row_with_dn dn) set_approved w (λ v own. ground arith) h)
]

Owns-auth_mode : (e : AuthEnv) (me : Text) (w : World) → Owns me w → Owns me (auth_mode e w).0
unfolding auth_mode set_setting
Owns-auth_mode e me w h = ground arith

store_user-Owns :
    (u : User) (message me : Text) (w : World) → Owns me w → Owns me (store_user u message w).0
unfolding store_user insert_user
store_user-Owns u message me w h =
    ground (arith, any-append_keep (is_own_admin me) w.users (u ∷ []) h)

create_local-Owns :
    (e : AuthEnv) (now : ℕ) (salt : Text) (n : NewUser) (email : Option Text) (password me : Text)
    (w : World)
    → Owns me w
    → Owns me (create_local e now salt n email password w).0
unfolding create_local
create_local-Owns e now salt n email password me w h =
    if-either (λ (x : World × Reply Unit). Owns me x.0)
      (not (is_empty (password_policy_errors password))) _ _ h
      (elim (Option-cases (derive_username (strip n.first_name) (strip n.last_name) w.users)) [
        | inl stuck ↦ rw stuck h
        | inr (name, derived) ↦ rw derived (
            store_user-Owns (local_user n now email (hash_password e.kdf salt password) name)
              (lit "a user with that name already exists") me w h)
      ])

pub admin_create_user-Owns :
    (e : AuthEnv) (now : ℕ) (salt generated : Text) (n : NewUser) (me : Text) (w : World)
    → Owns me w
    → Owns me (admin_create_user e now salt generated n w).0
unfolding admin_create_user
admin_create_user-Owns e now salt generated n me w h =
    let w' = (auth_mode e w).0 in
    let h' = Owns-auth_mode e me w h in
    let P = λ (x : World × Reply Unit). Owns me x.0 in
    if-either P ((auth_mode e w).1 == lit "local") _ _
      (if-either P (not (is_person_name (strip n.first_name) && is_person_name (strip n.last_name)))
        _ _ h'
        (elim (Reply-cases (given_email n.email)) [
          | inr (code, message, bad) ↦ rw bad h'
          | inl (email, good) ↦ rw good (create_local-Owns e now salt n email _ me w' h')
        ]))
      (if-either P (is_empty (strip n.dn) || ltb 512 (length (strip n.dn))) _ _ h'
        (elim (Reply-cases (given_email n.email)) [
          | inr (code, message, bad) ↦ rw bad h'
          | inl (email, good) ↦
              rw good (store_user-Owns (cac_user n now email) (lit "user already exists") me w' h')
        ]))
