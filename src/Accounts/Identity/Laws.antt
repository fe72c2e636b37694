-- ===== src/Accounts/Identity/Laws.antt =====
-- Theorems on the gate of the handlers (backend/app.py, require_auth).
use certheim.Base.{
  Bool-cases, List, Option, Option-cases, Text, [], ap, arith, find, if◌then◌else◌, inl, inr,
  is_empty, lit, nat_eq, none, not, option_eq, refl, some, subst, text_eq, true, ℕ, ◌==◌, ◌∙◌, ◌∷◌,
  ◌≡◌, ◌≤◌,
}
use certheim.Store.{Session, User, World, log_event, status_eq}
use certheim.Settings.{setting_or, setting_or-same}
use certheim.Accounts.Sessions.{
  AuthEnv, has_token, insert_user, row_with_dn, session_user_dn, update_users, user_by_dn,
}
use certheim.Accounts.Identity.{
  Identity, Via, Visit, auth_mode, cn_from_dn, gate_user, load_or_create, local_or_unknown,
  log_visitor, new_visitor, require_auth, resolve_identity, upsert_user, via_eq,
}

abbrev pub IsLocal : World → Type 0
IsLocal w = setting_or (lit "auth_mode") [] w ≡ lit "local"

auth_mode-stored : (e : AuthEnv) (w : World) → IsLocal w → auth_mode e w ≡ (w, lit "local")
unfolding auth_mode
auth_mode-stored e w h = rw h refl

-- the session that a token names
session-found :
    (now : ℕ) (token dn : Text) (w : World)
    → (session_user_dn now token w).1 ≡ some dn
    → (s : Session) × (find (has_token token) w.sessions ≡ some s)
      × (now ≤ s.expires_at)
      × (dn ≡ s.user_dn)
unfolding session_user_dn
session-found now token dn w h = elim (Option-cases (find (has_token token) w.sessions)) [
  | inl missing ↦ absurd (ground arith)
  | inr (s, found) ↦ (s, found, ground arith, ground arith)
]

find-row_with_dn :
    (dn : Text) (us : List User) (u : User) → find (row_with_dn dn) us ≡ some u → u.dn ≡ dn
find-row_with_dn dn [] u h = absurd (ground arith)
find-row_with_dn dn (v ∷ us) u h = elim (Bool-cases (row_with_dn dn v)) [
  | inl hit ↦
      let same : v ≡ u = ground arith in
      let named : v.dn ≡ dn = ground arith in subst (λ (x : User). x.dn ≡ dn) same named
  | inr miss ↦ find-row_with_dn dn us u (ground arith)
]

settings-session :
    (now : ℕ) (token : Text) (w : World) → (session_user_dn now token w).0.settings ≡ w.settings
unfolding session_user_dn
settings-session now token w = ground arith

IsLocal-session :
    (now : ℕ) (token : Text) (w : World) → IsLocal w → IsLocal (session_user_dn now token w).0
IsLocal-session now token w h =
    setting_or-same (lit "auth_mode") [] w (session_user_dn now token w).0
      (settings-session now token w)
    ∙ h

local_or_unknown-local :
    (v : Visit) (p : World × Option Text)
    → ((local_or_unknown v p).1.via == Via.local) ≡ true
    → (p.1 ≡ some (local_or_unknown v p).1.dn)
unfolding via_eq
local_or_unknown-local v (w, none) h = absurd (ground arith)
local_or_unknown-local v (w, some dn) h = ground arith

world-local_or_unknown : (v : Visit) (p : World × Option Text) → (local_or_unknown v p).0 ≡ p.0
world-local_or_unknown v (w, none) = refl
world-local_or_unknown v (w, some dn) = refl

resolve-local :
    (e : AuthEnv) (v : Visit) (w : World)
    → IsLocal w
    → resolve_identity e v w ≡ local_or_unknown v (session_user_dn v.now v.token w)
unfolding resolve_identity text_eq
resolve-local e v w h = rw (auth_mode-stored e w h, resolve_identity) refl

-- the gate in local mode, from what the session lookup gave
abbrev pub local_gate : AuthEnv → Visit → World × Identity → World × Option User
local_gate e v (w, id) =
    if not (id.via == Via.local)
    then (log_event "require_auth" "deny_unauth" [] w, none)
    else gate_user (load_or_create e id.dn v.now w)

pub require_auth-local :
    (e : AuthEnv) (v : Visit) (w : World)
    → IsLocal w
    → require_auth e v w ≡ local_gate e v (local_or_unknown v (session_user_dn v.now v.token w))
unfolding require_auth text_eq
require_auth-local e v w h =
    let p = session_user_dn v.now v.token w in
    let kept = IsLocal-session v.now v.token w h in
    rw
      (resolve-local e v w h, require_auth, world-local_or_unknown v p, auth_mode-stored e p.0 kept)
      refl

dn-upsert_user :
    (e : AuthEnv) (dn : Text) (now : ℕ) (w : World) (u : User)
    → (upsert_user e dn now w).1 ≡ some u
    → u.dn ≡ dn
unfolding upsert_user
dn-upsert_user e dn now w u h = elim (Bool-cases (is_empty dn)) [
  | inl blank ↦ absurd (ground arith)
  | inr filled ↦ elim (Option-cases (user_by_dn dn w)) [
    | inr (old, found) ↦
        let w' =
          update_users (row_with_dn dn)
            (λ (v : User). record v { last_seen_at = now; cn = cn_from_dn dn }) w in
        find-row_with_dn dn w'.users u (ground arith)
    | inl missing ↦ elim (Option-cases (insert_user (new_visitor e dn now w) w)) [
      | inl taken ↦ absurd (ground arith)
      | inr (w', made) ↦
          let w2 = log_visitor (new_visitor e dn now w) w' in
          find-row_with_dn dn w2.users u (ground arith)
    ]
  ]
]

dn-load_or_create :
    (e : AuthEnv) (dn : Text) (now : ℕ) (w : World) (u : User)
    → (load_or_create e dn now w).1 ≡ some u
    → u.dn ≡ dn
unfolding load_or_create
dn-load_or_create e dn now w u h = elim (Option-cases (user_by_dn dn w)) [
  | inl missing ↦ dn-upsert_user e dn now w u (ground arith)
  | inr (v, found) ↦ find-row_with_dn dn w.users u (ground arith)
]

gate_user-some :
    (p : World × Option User) (u : User)
    → (gate_user p).1 ≡ some u
    → (p.1 ≡ some u) × (u.is_active ≡ true)
gate_user-some (w, none) u h = absurd (ground arith)
gate_user-some (w, some v) u h = elim (Bool-cases v.is_active) [
  | inr off ↦ absurd (ground arith)
  | inl on ↦
      let same : v ≡ u = ground arith in
      (ap some same, subst (λ (x : User). x.is_active ≡ true) same on)
]

-- In local mode a request passes the gate only with the token of a stored session that has not run
-- out, and as an active user with that session's dn.
pub require_auth-session :
    (e : AuthEnv) (v : Visit) (w : World) (u : User)
    → IsLocal w
    → (require_auth e v w).1 ≡ some u
    → (s : Session) × (find (has_token v.token) w.sessions ≡ some s)
      × (v.now ≤ s.expires_at)
      × (u.dn ≡ s.user_dn)
      × (u.is_active ≡ true)
unfolding via_eq
require_auth-session e v w u is_local h =
    let p = session_user_dn v.now v.token w in
    let q = local_or_unknown v p in
    let passed : (local_gate e v q).1 ≡ some u = rw⁻¹ (require_auth-local e v w is_local) h in
    elim (Bool-cases (q.1.via == Via.local)) [
      | inr other ↦ absurd (ground arith)
      | inl mine ↦
          let through : (gate_user (load_or_create e q.1.dn v.now q.0)).1 ≡ some u = ground arith in
          let (loaded, active) = gate_user-some (load_or_create e q.1.dn v.now q.0) u through in
          let (s, found, live, named) =
            session-found v.now v.token q.1.dn w (local_or_unknown-local v p mine) in
          (s, found, live, dn-load_or_create e q.1.dn v.now q.0 u loaded ∙ named, active)
    ]
