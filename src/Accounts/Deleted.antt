-- ===== src/Accounts/Deleted.antt =====
-- Theorems on deleted users: admin_delete_user (backend/routes_admin.py) with require_auth
-- (backend/app.py).
use certheim.Settings.{setting_or-same}
use certheim.Accounts.Identity.Laws.{IsLocal, require_auth-local}
use certheim.Accounts.Names.{local_prefix}
use certheim.Base.{
  Bool, List, Option, Option-cases, Text, [], any, ap, arith, count, false, filter, find,
  if◌then◌else◌, inl, inr, is_empty, leb, length, lit, ltb, nat_eq, none, not, option_eq, refl,
  some, starts_with, strip, subst, text_eq, true, ℕ, ◌&&◌, ◌++◌, ◌==◌, ◌||◌, ◌∙◌, ◌∷◌, ◌≡◌,
}
use certheim.Store.{Reply, Request, Session, User, World, error, log_event, ok, status_eq}
use certheim.Accounts.Sessions.{
  AuthEnv, has_token, insert_user, row_with_dn, session_user_dn, user_by_dn,
}
use certheim.Accounts.Identity.{
  Via, Visit, gate_user, is_synthetic, load_or_create, local_or_unknown, new_visitor, require_auth,
  upsert_user, via_eq, visiting_user,
}
use certheim.Accounts.Admin.{admin_delete_user, delete_found, is_admin_row, remove_user}

find-removed :
    (dn : Text) (us : List User)
    → find (row_with_dn dn) (filter (λ u. not (row_with_dn dn u)) us) ≡ none
find-removed dn [] = refl
find-removed dn (u ∷ us) = ground (arith, find-removed dn us)

find-append_new :
    (u : User) (us : List User)
    → find (row_with_dn u.dn) us ≡ none
    → find (row_with_dn u.dn) (us ++ u ∷ []) ≡ some u
find-append_new u [] h = ground arith
find-append_new u (v ∷ us) h = ground (arith, find-append_new u us)

not_taken_dn :
    (dn : Text) (us : List User)
    → find (row_with_dn dn) us ≡ none
    → any (λ v. v.dn == dn || false) us ≡ false
not_taken_dn dn [] h = refl
not_taken_dn dn (v ∷ us) h = ground (arith, not_taken_dn dn us)

-- the row that a local account's visit makes
abbrev returned_user : AuthEnv → Text → ℕ → World → User
returned_user e dn now w =
    visiting_user dn now (e.bootstrap_first_admin && is_empty w.users) [] [] none

new_visitor-local :
    (e : AuthEnv) (dn : Text) (now : ℕ) (w : World)
    → starts_with dn local_prefix ≡ true
    → new_visitor e dn now w ≡ returned_user e dn now w
unfolding new_visitor
new_visitor-local e dn now w h =
    let synthetic : is_synthetic dn ≡ true = ground arith in rw synthetic refl

insert-returned :
    (e : AuthEnv) (dn : Text) (now : ℕ) (w : World)
    → user_by_dn dn w ≡ none
    → insert_user (returned_user e dn now w) w
      ≡ some (record w { users = w.users ++ returned_user e dn now w ∷ [] })
unfolding insert_user
insert-returned e dn now w missing = rw (not_taken_dn dn w.users missing, insert_user) refl

not_blank : (dn : Text) → starts_with dn local_prefix ≡ true → is_empty dn ≡ false
unfolding starts_with
not_blank [] h = absurd (ground arith)
not_blank (c ∷ dn) h = refl

session-live :
    (now : ℕ) (token : Text) (w : World) (s : Session)
    → is_empty token ≡ false
    → find (has_token token) w.sessions ≡ some s
    → ltb s.expires_at now ≡ false
    → session_user_dn now token w ≡ (w, some s.user_dn)
unfolding session_user_dn
session-live now token w s filled found live = rw (filled, session_user_dn, found, live) refl

gate_user-active :
    (p : World × Option User) (u : User)
    → p.1 ≡ some u
    → u.is_active ≡ true
    → (gate_user p).1 ≡ some u
gate_user-active (w, none) u h active = absurd (ground arith)
gate_user-active (w, some v) u h active =
    let same : u ≡ v = ground arith in
    let on : v.is_active ≡ true = subst (λ (x : User). x.is_active ≡ true) same active in
    ground arith

upsert-new :
    (e : AuthEnv) (dn : Text) (now : ℕ) (w : World)
    → starts_with dn local_prefix ≡ true
    → is_empty dn ≡ false
    → user_by_dn dn w ≡ none
    → (load_or_create e dn now w).1 ≡ some (returned_user e dn now w)
unfolding load_or_create upsert_user
upsert-new e dn now w h filled missing =
    let u = returned_user e dn now w in
    let grown : World = record w { users = w.users ++ u ∷ [] } in
    rw
      (
        missing,
        load_or_create,
        filled,
        upsert_user,
        missing,
        new_visitor-local e dn now w h,
        insert-returned e dn now w missing,
      )
      (find-append_new u w.users missing)

if-ok :
    (b : Bool) (w : World) (code : ℕ) (message : Text) (q : World × Reply Unit)
    → (if b then (w, error code message) else q).1 ≡ ok tt
    → (if b then (w, error code message) else q) ≡ q
if-ok true w code message q h = absurd (ground arith)
if-ok false w code message q h = refl

delete_found-ok :
    (dn : Text) (purge : Bool) (w : World)
    → (delete_found dn purge w).1 ≡ ok tt
    → (delete_found dn purge w).0 ≡ log_event "admin_user_delete" "ok" [] (remove_user dn purge w)
unfolding delete_found
delete_found-ok dn purge w h = elim (Option-cases (user_by_dn dn w)) [
  | inl missing ↦ absurd (ground arith)
  | inr (u, found) ↦
      rw (found, delete_found)
        (ap (λ (p : World × Reply Unit). p.0)
          (if-ok (u.is_admin && leb (count is_admin_row w.users) 1) w 400
            (lit "cannot delete the last admin")
            (log_event "admin_user_delete" "ok" [] (remove_user dn purge w), ok tt)
            (rw (found, delete_found) at h)))
]

removed_at :
    (r : Request) (dn : Text) (purge : Bool) (w : World)
    → (admin_delete_user r dn purge w).1 ≡ ok tt
    → (admin_delete_user r dn purge w).0
      ≡ log_event "admin_user_delete" "ok" [] (remove_user (strip dn) purge w)
unfolding admin_delete_user
removed_at r dn purge w h =
    let target = strip dn in
    let found = delete_found target purge w in
    let own =
      if target == r.dn then (w, error 400 (lit "cannot delete your own account")) else found in
    let first = if-ok (is_empty target || ltb 512 (length target)) w 400 (lit "invalid dn") own h in
    let second =
      if-ok (target == r.dn) w 400 (lit "cannot delete your own account") found (rw first at h) in
    ap (λ (p : World × Reply Unit). p.0) (first ∙ second)
    ∙ delete_found-ok target purge w (rw (first ∙ second) at h)

-- The deletion of a local user leaves its sessions: in local mode, a request with the token of a
-- session of the deleted account that has not run out passes the gate right after the deletion, as
-- an active user that the gate makes anew under the deleted dn.
pub deleted_user_returns :
    (e : AuthEnv) (r : Request) (dn : Text) (purge : Bool) (v : Visit) (w : World) (s : Session)
    → IsLocal w
    → is_empty v.token ≡ false
    → find (has_token v.token) w.sessions ≡ some s
    → ltb s.expires_at v.now ≡ false
    → s.user_dn ≡ strip dn
    → starts_with (strip dn) local_prefix ≡ true
    → (admin_delete_user r dn purge w).1 ≡ ok tt
    → (u : User) × ((require_auth e v (admin_delete_user r dn purge w).0).1 ≡ some u)
      × (u.dn ≡ strip dn)
      × (u.is_active ≡ true)
unfolding via_eq
deleted_user_returns e r dn purge v w s mode token found live named account done =
    let gone = strip dn in
    let w1 = log_event "admin_user_delete" "ok" [] (remove_user gone purge w) in
    let mode1 : IsLocal w1 = setting_or-same (lit "auth_mode") [] w w1 refl ∙ mode in
    let user = session_user_dn v.now v.token w1 in
    let at_gate : local_or_unknown v user ≡ (w1, record { dn = gone; via = Via.local }) =
      rw (session-live v.now v.token w1 s token found live, named, not_blank gone account) refl in
    let loaded =
      upsert-new e gone v.now w1 account (not_blank gone account) (find-removed gone w.users) in
    (
      returned_user e gone v.now w1,
      rw (removed_at r dn purge w done, require_auth-local e v w1 mode1, at_gate)
          (gate_user-active (load_or_create e gone v.now w1) (returned_user e gone v.now w1) loaded
            refl),
      refl,
      refl,
    )
