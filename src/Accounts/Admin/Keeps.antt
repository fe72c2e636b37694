-- ===== src/Accounts/Admin/Keeps.antt =====
-- Lemmas on admins for admin_update_user and admin_delete_user (backend/routes_admin.py).
use certheim.Accounts.Identity.{via_eq}
use certheim.Base.{
  Bool, Bool-cases, List, Option, Option-cases, Text, [], arith, count, false, if-either,
  if◌then◌else◌, inl, inr, is_empty, leb, length, lit, ltb, nat_eq, none, not, option_eq, refl,
  some, strip, sym, text_eq, true, ℕ, ◌&&◌, ◌==◌, ◌||◌, ◌∙◌, ◌≡◌,
}
use certheim.Store.{Reply, Request, User, World, error, log_event, ok, status_eq}
use certheim.Accounts.Sessions.{row_with_dn, update_users, user_by_dn}
use certheim.Accounts.Admin.Rows.{Owns, any-filter_keep, any-update_keep, is_own_admin}
use certheim.Accounts.Admin.{
  UserChanges, admin_delete_user, admin_update_user, assign_groups, change_refusal, changed_user,
  changed_username, delete_found, is_admin_row, remove_user, says_no, unknown_group,
}

own_change :
    (r : Request) (c : UserChanges)
    → change_refusal r c ≡ none
    → ((strip c.dn == r.dn && says_no c.is_admin) ≡ false)
      × ((strip c.dn == r.dn && says_no c.is_active) ≡ false)
unfolding change_refusal
own_change r c clean = (ground arith, ground arith)

changed_user-is_own :
    (r : Request) (c : UserChanges) (name : Option Text)
    → change_refusal r c ≡ none
    → (u : User) → row_with_dn (strip c.dn) u ≡ true
    → is_own_admin r.dn u ≡ true
    → is_own_admin r.dn (changed_user c name u) ≡ true
changed_user-is_own r c name clean u hit own =
    let target : u.dn ≡ strip c.dn = ground arith in
    let mine : u.dn ≡ r.dn = ground arith in
    let same : strip c.dn ≡ r.dn = sym target ∙ mine in ground (arith, own_change r c clean)

users-assign_groups :
    (dn : Text) (ids : Option (List ℕ)) (w : World) → (assign_groups dn ids w).users ≡ w.users
unfolding assign_groups
users-assign_groups dn none w = refl
users-assign_groups dn (some ids) w = refl

pub admin_update_user-Owns :
    (r : Request) (c : UserChanges) (w : World)
    → Owns r.dn w
    → Owns r.dn (admin_update_user r c w).0
unfolding admin_update_user
admin_update_user-Owns r c w h = elim (Option-cases (change_refusal r c)) [
  | inr (answer, refused) ↦ rw (refused, admin_update_user) h
  | inl clean ↦ elim (Option-cases (user_by_dn (strip c.dn) w)) [
    | inl missing ↦ rw (clean, admin_update_user, missing) h
    | inr (u, found) ↦
        rw (clean, admin_update_user, found)
          (if-either (λ (x : World × Reply Unit). Owns r.dn x.0) (unknown_group c.group_ids w)
            (w, error 400 (lit "group does not exist"))
            (
              log_event "admin_user_update" "ok" [] (
                  assign_groups (strip c.dn) c.group_ids (
                    update_users (row_with_dn (strip c.dn))
                      (changed_user c (changed_username c u w)) w)),
              ok tt,
            )
            h
            (rw
              (users-assign_groups (strip c.dn) c.group_ids (
                update_users (row_with_dn (strip c.dn)) (changed_user c (changed_username c u w))
                  w))
              (any-update_keep (is_own_admin r.dn) (row_with_dn (strip c.dn))
                (changed_user c (changed_username c u w))
                (changed_user-is_own r c (changed_username c u w) clean) w.users h)))
  ]
]

remove_user-Owns :
    (r : Request) (dn : Text) (purge : Bool) (w : World)
    → (dn == r.dn) ≡ false
    → Owns r.dn w
    → Owns r.dn (remove_user dn purge w)
remove_user-Owns r dn purge w other h =
    any-filter_keep (is_own_admin r.dn) (λ u. not (row_with_dn dn u))
      (λ u own. let mine : u.dn ≡ r.dn = ground arith in ground arith) w.users h

delete_found-Owns :
    (r : Request) (dn : Text) (purge : Bool) (w : World)
    → (dn == r.dn) ≡ false
    → Owns r.dn w
    → Owns r.dn (delete_found dn purge w).0
unfolding delete_found
delete_found-Owns r dn purge w other h = elim (Option-cases (user_by_dn dn w)) [
  | inl missing ↦ rw (missing, delete_found) h
  | inr (u, found) ↦
      rw (found, delete_found)
        (if-either (λ (x : World × Reply Unit). Owns r.dn x.0)
          (u.is_admin && leb (count is_admin_row w.users) 1)
          (w, error 400 (lit "cannot delete the last admin"))
          (log_event "admin_user_delete" "ok" [] (remove_user dn purge w), ok tt) h
          (remove_user-Owns r dn purge w other h))
]

pub admin_delete_user-Owns :
    (r : Request) (dn : Text) (purge : Bool) (w : World)
    → Owns r.dn w
    → Owns r.dn (admin_delete_user r dn purge w).0
unfolding admin_delete_user
admin_delete_user-Owns r dn purge w h =
    if-either (λ (x : World × Reply Unit). Owns r.dn x.0)
      (is_empty (strip dn) || ltb 512 (length (strip dn))) (w, error 400 (lit "invalid dn"))
      (if strip dn == r.dn
        then (w, error 400 (lit "cannot delete your own account"))
        else delete_found (strip dn) purge w)
      h
      (elim (Bool-cases (strip dn == r.dn)) [
        | inl mine ↦ rw mine h
        | inr other ↦ rw other (delete_found-Owns r (strip dn) purge w other h)
      ])
