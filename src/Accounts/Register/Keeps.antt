-- ===== src/Accounts/Register/Keeps.antt =====
-- Lemmas on admins for auth_register and _upsert_user (backend/routes_auth.py, backend/app.py).
use certheim.Accounts.Names.{derive_username}
use certheim.Accounts.Passwords.{hash_password}
use certheim.Accounts.Admin.Rows.{HasAdmin, any-append_keep, is_active_admin}
use certheim.Accounts.Login.Laws.{HasAdmin-auth_mode, HasAdmin-update}
use certheim.Base.{
  Option, Option-cases, Text, [], ap, arith, if-either, inl, inr, is_empty, lit, nat_eq, none, not,
  option_eq, some, subst, suc, text_eq, zero, ℕ, ◌&&◌, ◌++◌, ◌==◌, ◌∙◌, ◌∷◌, ◌≡◌,
}
use certheim.Store.{Reply, User, World, status_eq}
use certheim.Accounts.Sessions.{AuthEnv, insert_user, row_with_dn, session_user_dn, user_by_dn}
use certheim.Accounts.Register.Laws.{finish-some}
use certheim.Accounts.Register.{
  Registered, Registration, auth_register, cleaned, finish_register, register_tries,
  registered_user, registration_open, registration_refusal, try_register,
}
use certheim.Accounts.Identity.{
  Via, Visit, auth_mode, cn_from_dn, gate_user, load_or_create, new_visitor, require_auth,
  resolve_identity, upsert_user, via_eq,
}

users-insert_user :
    (u : User) (w w' : World) → insert_user u w ≡ some w' → w'.users ≡ w.users ++ u ∷ []
unfolding insert_user
users-insert_user u w w' made = ground arith

HasAdmin-insert : (u : User) (w w' : World) → insert_user u w ≡ some w' → HasAdmin w → HasAdmin w'
HasAdmin-insert u w w' made h =
    rw (users-insert_user u w w' made) (any-append_keep is_active_admin w.users (u ∷ []) h)

HasAdmin-try :
    (e : AuthEnv) (now : ℕ) (g : Registration) (pwhash : Text) (w w' : World) (u : User)
    → try_register e now g pwhash w ≡ some (w', u)
    → HasAdmin w
    → HasAdmin w'
unfolding try_register
HasAdmin-try e now g pwhash w w' u made h =
    elim (Option-cases (derive_username g.first_name g.last_name w.users)) [
      | inl stuck ↦ absurd (ground arith)
      | inr (name, derived) ↦
          elim (Option-cases (insert_user (registered_user e now g pwhash name w) w)) [
            | inl taken ↦ absurd (ground arith)
            | inr (w2, stored) ↦
                let same : w2 ≡ w' = ground arith in
                subst HasAdmin same
                  (HasAdmin-insert (registered_user e now g pwhash name w) w w2 stored h)
          ]
    ]

HasAdmin-tries :
    (n : ℕ) (e : AuthEnv) (now : ℕ) (g : Registration) (pwhash : Text) (w w' : World) (u : User)
    → register_tries n e now g pwhash w ≡ some (w', u)
    → HasAdmin w
    → HasAdmin w'
unfolding register_tries
HasAdmin-tries zero e now g pwhash w w' u made h = absurd (ground arith)
HasAdmin-tries (suc n) e now g pwhash w w' u made h =
    elim (Option-cases (try_register e now g pwhash w)) [
      | inl lost ↦ HasAdmin-tries n e now g pwhash w w' u (ground arith) h
      | inr (p, done) ↦
          let same : p ≡ (w', u) = ground arith in
          HasAdmin-try e now g pwhash w w' u (done ∙ ap some same) h
    ]

pub HasAdmin-register :
    (e : AuthEnv) (now : ℕ) (token salt : Text) (g : Registration) (w : World)
    → HasAdmin w
    → HasAdmin (auth_register e now token salt g w).0
unfolding auth_register
HasAdmin-register e now token salt g w h =
    let P = λ (x : World × Reply Registered). HasAdmin x.0 in
    let w' = (auth_mode e w).0 in
    let h' = HasAdmin-auth_mode e w h in
    let pwhash = hash_password e.kdf salt g.password in
    if-either P (not ((auth_mode e w).1 == lit "local")) _ _ h' (
      if-either P (not (registration_open w')) _ _ h'
        (elim (Option-cases (registration_refusal (cleaned g) w')) [
          | inr ((code, message), bad) ↦ rw bad h'
          | inl clean ↦
              rw clean (elim (Option-cases (register_tries 5 e now (cleaned g) pwhash w')) [
                | inl none_left ↦ rw (none_left, finish_register) h'
                | inr ((w2, u), done) ↦
                    rw (done, (finish-some e now token w' w2 u).1)
                      (HasAdmin-tries 5 e now (cleaned g) pwhash w' w2 u done h')
              ])
        ]))

HasAdmin-resolve :
    (e : AuthEnv) (v : Visit) (w : World) → HasAdmin w → HasAdmin (resolve_identity e v w).0
unfolding resolve_identity session_user_dn
HasAdmin-resolve e v w h = ground (arith, HasAdmin-auth_mode e w h)

HasAdmin-upsert :
    (e : AuthEnv) (dn : Text) (now : ℕ) (w : World)
    → HasAdmin w
    → HasAdmin (upsert_user e dn now w).0
unfolding upsert_user
HasAdmin-upsert e dn now w h =
    if-either (λ (x : World × Option User). HasAdmin x.0) (is_empty dn) _ _ h
      (elim (Option-cases (user_by_dn dn w)) [
        | inr (u, found) ↦ rw found (
            HasAdmin-update (row_with_dn dn)
              (λ (v : User). record v { last_seen_at = now; cn = cn_from_dn dn }) w (λ v own. own)
              h)
        | inl missing ↦ rw missing (elim (Option-cases (insert_user (new_visitor e dn now w) w)) [
          | inl taken ↦ rw taken h
          | inr (w', made) ↦ rw made (
              if-either HasAdmin (new_visitor e dn now w).is_admin _ _
                (HasAdmin-insert (new_visitor e dn now w) w w' made h)
                (HasAdmin-insert (new_visitor e dn now w) w w' made h))
        ])
      ])

HasAdmin-load :
    (e : AuthEnv) (dn : Text) (now : ℕ) (w : World)
    → HasAdmin w
    → HasAdmin (load_or_create e dn now w).0
unfolding load_or_create
HasAdmin-load e dn now w h = elim (Option-cases (user_by_dn dn w)) [
  | inr (u, found) ↦ rw (found, load_or_create) h
  | inl missing ↦ rw (missing, load_or_create) (HasAdmin-upsert e dn now w h)
]

HasAdmin-gate : (p : World × Option User) → HasAdmin p.0 → HasAdmin (gate_user p).0
HasAdmin-gate (w, none) h = h
HasAdmin-gate (w, some u) h =
    if-either (λ (x : World × Option User). HasAdmin x.0) u.is_active _ _ h h

pub HasAdmin-visit :
    (e : AuthEnv) (v : Visit) (w : World) → HasAdmin w → HasAdmin (require_auth e v w).0
unfolding require_auth
HasAdmin-visit e v w h =
    let w' = (resolve_identity e v w).0 in
    let h'' = HasAdmin-auth_mode e w' (HasAdmin-resolve e v w h) in
    let id = (resolve_identity e v w).1 in
    if-either (λ (x : World × Option User). HasAdmin x.0)
      ((auth_mode e w').1 == lit "local" && not (id.via == Via.local)) _ _ h''
      (HasAdmin-gate (load_or_create e id.dn v.now (auth_mode e w').0)
        (HasAdmin-load e id.dn v.now (auth_mode e w').0 h''))
