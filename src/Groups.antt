-- ===== src/Groups.antt =====
-- Membership and ownership of groups (backend/routes_groups.py; _group_role and
-- _is_group_owner_or_admin of backend/app.py). The time of a membership is left out.
pub mod Members
pub mod Owners
use certheim.Base.{
  Bool, Option, Text, [], any, count, false, filter, find, if◌then◌else◌, is_empty, is_zero, leb,
  lit, lower, nat_eq, none, not, option_eq, some, strip, text_eq, true, update_where, ℕ, ◌&&◌, ◌++◌,
  ◌==◌, ◌||◌, ◌∷◌,
}
use certheim.Store.{
  Membership, Reply, Request, Role, User, World, error, group_by_id, log_event, member, ok, owner,
  status_eq,
}
use certheim.Validation.{is_email}

-- the rows of a person in a group: the primary key of user_groups
abbrev pub in_group : Text → ℕ → Membership → Bool
in_group dn group_id m = m.user_dn == dn && m.group_id == group_id

abbrev pub is_owner_role : Role → Bool
is_owner_role Role.owner = true
is_owner_role Role.member = false

-- `_group_role`
unfoldable pub group_role : Text → ℕ → World → Option Role
unfolding text_eq nat_eq
group_role dn group_id w =
    if is_empty dn || is_zero group_id
    then none
    else elim (find (in_group dn group_id) w.members) [ none ↦ none | some m ↦ some m.role ]

abbrev pub is_owner : Option Role → Bool
is_owner none = false
is_owner (some role) = is_owner_role role

-- `_is_group_owner_or_admin`
abbrev pub is_group_owner_or_admin : Request → ℕ → World → Bool
is_group_owner_or_admin r group_id w = r.is_admin || is_owner (group_role r.dn group_id w)

-- the rows that `WHERE group_id = ? AND role = 'owner'` counts
abbrev pub owns : ℕ → Membership → Bool
owns group_id m = m.group_id == group_id && is_owner_role m.role

abbrev pub set_role : Role → Membership → Membership
set_role role m = record m { role = role }

-- the `role` of the request body
abbrev pub role_of_text : Text → Option Role
role_of_text s =
    if s == lit "member"
    then some Role.member
    else if s == lit "owner"
    then some Role.owner
    else none

-- UPDATE user_groups SET role = ? WHERE group_id = ? AND user_dn = ?
abbrev pub update_role : Text → ℕ → Role → World → World
update_role dn group_id role w = record w {
  members = update_where (in_group dn group_id) (set_role role) w.members;
}

unfoldable pub admin_set_member_role : ℕ → Text → Text → World → World × Reply Unit
unfolding strip text_eq nat_eq
admin_set_member_role group_id dn role w = elim (role_of_text (strip role)) [
  | none ↦ (w, error 400 (lit "role must be 'member' or 'owner'"))
  | some new_role ↦
      if is_zero (count (in_group (strip dn) group_id) w.members)
      then (w, error 404 (lit "not a member of that group"))
      else (
        log_event "group_member_role" "ok" [] (update_role (strip dn) group_id new_role w),
        ok tt,
      )
]

-- `WHERE LOWER(email) = ? AND is_active = 1`
abbrev pub has_email : Text → User → Bool
has_email email u = u.is_active && elim u.email [ none ↦ false | some e ↦ lower e == email ]

unfoldable pub group_owner_add_member : Request → ℕ → Text → World → World × Reply Unit
unfolding strip lower text_eq nat_eq
group_owner_add_member r group_id raw w = elim (group_by_id group_id w) [
  | none ↦ (w, error 404 (lit "group not found"))
  | some group ↦
      let email = lower (strip raw) in
      if not (is_group_owner_or_admin r group_id w)
      then (
        log_event "group_add_member" "deny_not_owner" [] w,
        error 403 (lit "only the group owner or an admin can add members"),
      )
      else if is_empty email || not (is_email email)
      then (w, error 400 (lit "a valid member email is required"))
      else elim (find (has_email email) w.users) [
        | none ↦ (w, error 404 (lit "no active user with that email"))
        | some u ↦
            if any (in_group u.dn group_id) w.members
            then (w, error 409 (lit "already a member"))
            else (
              log_event "group_add_member" "ok" [] (record w {
                members =
                    w.members
                    ++ record { user_dn = u.dn; group_id = group_id; role = Role.member } ∷ [];
              }),
              ok tt,
            )
      ]
]

-- DELETE FROM user_groups WHERE user_dn = ? AND group_id = ?
abbrev pub delete_member : Text → ℕ → World → World
delete_member dn group_id w = record w {
  members = filter (λ m. not (in_group dn group_id m)) w.members;
}

-- the rules of removal: the complaint, if any
unfoldable pub removal_refusal : Request → ℕ → Text → Role → World → Option (ℕ × Text)
unfolding text_eq nat_eq
removal_refusal r group_id dn target_role w =
    if dn == r.dn
    then (if is_owner_role target_role && not r.is_admin && leb (count (owns group_id) w.members) 1
        then some (400, lit "you are the only owner")
        else none)
    else if not (is_group_owner_or_admin r group_id w)
    then some (403, lit "only the group owner or an admin can remove other members")
    else if is_owner_role target_role && not r.is_admin
    then some (403, lit "only an admin can remove a group owner")
    else none

unfoldable pub group_owner_remove_member : Request → ℕ → Text → World → World × Reply Unit
unfolding strip text_eq
group_owner_remove_member r group_id raw w = elim (group_by_id group_id w) [
  | none ↦ (w, error 404 (lit "group not found"))
  | some group ↦
      let dn = strip raw in
      if is_empty dn then (w, error 400 (lit "dn required")) else elim (group_role dn group_id w) [
        | none ↦ (w, error 404 (lit "not a member"))
        | some target_role ↦ elim (removal_refusal r group_id dn target_role w) [
          | some (code, message) ↦ (w, error code message)
          | none ↦ (log_event "group_remove_member" "ok" [] (delete_member dn group_id w), ok tt)
        ]
      ]
]

abbrev pub same_role : Role → Role → Bool
same_role Role.member Role.member = true
same_role Role.owner Role.owner = true
same_role _ _ = false

-- the change of a member's role, checked
unfoldable pub change_role : ℕ → Text → Role → Role → World → World × Reply Unit
unfolding nat_eq
change_role group_id dn role target_role w =
    if same_role target_role role
    then (w, ok tt)
    else if is_owner_role target_role && leb (count (owns group_id) w.members) 1
    then (w, error 400 (lit "a group must have at least one owner"))
    else (log_event "group_set_role" "ok" [] (update_role dn group_id role w), ok tt)

unfoldable pub group_owner_set_member_role : Request → ℕ → Text → Text → World → World × Reply Unit
unfolding strip text_eq change_role
group_owner_set_member_role r group_id raw raw_role w = elim (group_by_id group_id w) [
  | none ↦ (w, error 404 (lit "group not found"))
  | some group ↦
      let dn = strip raw in
      if not (is_group_owner_or_admin r group_id w)
      then (
        log_event "group_set_role" "deny_not_owner" [] w,
        error 403 (lit "only the group owner or an admin can change roles"),
      )
      else elim (role_of_text (strip raw_role)) [
        | none ↦ (w, error 400 (lit "role must be 'member' or 'owner'"))
        | some role ↦
            if is_empty dn
            then (w, error 400 (lit "dn required"))
            else elim (group_role dn group_id w) [
              | none ↦ (w, error 404 (lit "not a member of that group"))
              | some target_role ↦ change_role group_id dn role target_role w
            ]
      ]
]
