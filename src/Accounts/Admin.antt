-- ===== src/Accounts/Admin.antt =====
-- The administration of users (admin_update_user to admin_delete_user of backend/routes_admin.py,
-- admin_approve_user of backend/routes_auth.py). The column notes is checked and not kept. New
-- accounts and passwords are in Accounts/Admin/NewUsers.
pub mod NewUsers
pub mod Rows
pub mod Keeps
pub mod Create
use certheim.Base.{
  Bool, List, Option, Text, [], all, any, chomp, contains, count, drop, false, filter,
  if◌then◌else◌, is_digit, is_empty, join, leb, length, lit, ltb, map, nat_eq, none, not, option_eq,
  some, starts_with, strip, take, text_eq, to_set, true, ℕ, ◌&&◌, ◌++◌, ◌==◌, ◌||◌, ◌∷◌,
}
use certheim.Store.{
  Reply, Request, Role, Template, User, World, error, log_event, member, ok, owner, status_eq,
}
use certheim.Accounts.Sessions.{row_with_dn, update_users, user_by_dn}
use certheim.Accounts.Identity.{or_null, via_eq}
use certheim.Accounts.Names.{derive_username, normalize_name_part}
use certheim.Validation.{TextField, invalid, no_text, other_type, text, valid, validate_email}
use certheim.Groups.{in_group}

-- The fields of a change; each may be missing.
pub record UserChanges : Type 0 where
  pub dn : Text
  pub is_admin : Option Bool
  pub is_active : Option Bool
  pub email : Option TextField
  pub notes : Option TextField
  pub first_name : Option Text
  pub last_name : Option Text
  pub group_ids : Option (List ℕ)

abbrev pub says_no : Option Bool → Bool
says_no none = false
says_no (some b) = not b

abbrev is_given : {A : Type 0} → Option A → Bool
is_given none = false
is_given (some a) = true

-- an address that is refused
unfoldable bad_email : Option TextField → Bool
bad_email none = false
bad_email (some field) = elim (validate_email field) [ invalid _ ↦ true | valid _ ↦ false ]

unfoldable bad_notes : Option TextField → Bool
bad_notes none = false
bad_notes (some no_text) = false
bad_notes (some other_type) = true
bad_notes (some (text s)) = ltb 4096 (length s)

abbrev no_fields : UserChanges → Bool
no_fields c = not (
    is_given c.is_admin
    || is_given c.is_active
    || is_given c.email
    || is_given c.notes
    || is_given c.first_name
    || is_given c.last_name
    || is_given c.group_ids)

-- the checks before the table is read
unfoldable pub change_refusal : Request → UserChanges → Option (ℕ × Text)
unfolding bad_email bad_notes text_eq strip
change_refusal r c =
    let target = strip c.dn in
    if is_empty target || ltb 512 (length target)
    then some (400, lit "invalid dn")
    else if target == r.dn && says_no c.is_admin
    then some (400, lit "cannot remove your own admin status")
    else if target == r.dn && says_no c.is_active
    then some (400, lit "cannot deactivate yourself")
    else if bad_email c.email
    then some (400, lit "email")
    else if bad_notes c.notes
    then some (400, lit "notes")
    else if no_fields c
    then some (400, lit "no fields to update")
    else none

abbrev flag_or : Bool → Option Bool → Bool
flag_or old none = old
flag_or old (some b) = b

unfoldable pub email_or : Option Text → Option TextField → Option Text
email_or old none = old
email_or old (some field) = elim (validate_email field) [ invalid _ ↦ old | valid e ↦ e ]

abbrev pub text_or_blank : Option Text → Text
text_or_blank none = []
text_or_blank (some s) = s

-- a name of the change, cut, or the row's
unfoldable pub new_name : Option Text → Option Text → Text
unfolding strip
new_name old none = text_or_blank old
new_name old (some s) = take 64 (strip s)

abbrev name_or : Option Text → Option Text → Option Text
name_or old none = old
name_or old (some s) = or_null (new_name old (some s))

-- `re.match(base + r"\d*$", username)`
unfoldable pub is_numbered : Text → Text → Bool
unfolding starts_with is_digit chomp
is_numbered base name = starts_with name base && all is_digit (chomp (drop (length base) name))

-- the username after a change of names
unfoldable pub changed_username : UserChanges → User → World → Option Text
unfolding is_numbered normalize_name_part join
changed_username c u w =
    let first = new_name u.first_name c.first_name in
    let last = new_name u.last_name c.last_name in
    let parts =
      filter (λ p. not (is_empty p)) (normalize_name_part first ∷ normalize_name_part last ∷ []) in
    let current = text_or_blank u.username in
    if not (is_given c.first_name || is_given c.last_name) || is_empty parts
    then u.username
    else if not (is_empty current) && is_numbered (join (lit ".") parts) current
    then u.username
    else derive_username first last w.users

-- the row after the change
abbrev pub changed_user : UserChanges → Option Text → User → User
changed_user c username u = record u {
  is_admin = flag_or u.is_admin c.is_admin;
  is_active = flag_or u.is_active c.is_active;
  email = email_or u.email c.email;
  first_name = name_or u.first_name c.first_name;
  last_name = name_or u.last_name c.last_name;
  username = username;
}

abbrev is_member_role : Role → Bool
is_member_role Role.member = true
is_member_role Role.owner = false

-- The memberships that are kept, and those that are new: the ids are a set, so each is added once.
unfoldable pub assign_groups : Text → Option (List ℕ) → World → World
unfolding text_eq nat_eq
assign_groups dn none w = w
assign_groups dn (some ids) w =
    let kept =
      filter (λ m. not (m.user_dn == dn && is_member_role m.role && not (contains ids m.group_id)))
        w.members in
    let fresh = filter (λ n. not (any (in_group dn n) w.members)) (to_set ids) in
    record w {
      members = kept ++ map (λ n. record { user_dn = dn; group_id = n; role = Role.member }) fresh;
    }

-- a group of the change that is not there
unfoldable pub unknown_group : Option (List ℕ) → World → Bool
unfolding nat_eq
unknown_group none w = false
unknown_group (some ids) w = any (λ n. not (any (λ g. g.id == n) w.groups)) ids

-- `admin_update_user`
unfoldable pub admin_update_user : Request → UserChanges → World → World × Reply Unit
unfolding change_refusal unknown_group text_eq strip email_or
admin_update_user r c w = elim (change_refusal r c) [
  | some (code, message) ↦ (w, error code message)
  | none ↦ elim (user_by_dn (strip c.dn) w) [
    | none ↦ (w, error 404 (lit "user not found"))
    | some u ↦
        if unknown_group c.group_ids w then (w, error 400 (lit "group does not exist")) else (
          log_event "admin_user_update" "ok" [] (
              assign_groups (strip c.dn) c.group_ids (
                update_users (row_with_dn (strip c.dn)) (changed_user c (changed_username c u w))
                  w)),
          ok tt,
        )
  ]
]

abbrev pub is_admin_row : User → Bool
is_admin_row u = u.is_admin

abbrev drop_owner : Text → Template → Template
drop_owner dn t = if t.owner_dn == some dn then record t { owner_dn = none } else t

-- the user's row and memberships removed, and the templates' owner where that is asked for
abbrev pub remove_user : Text → Bool → World → World
remove_user dn purge w = record w {
  users = filter (λ u. not (row_with_dn dn u)) w.users;
  members = filter (λ m. not (m.user_dn == dn)) w.members;
  templates = if purge then map (drop_owner dn) w.templates else w.templates;
}

-- the part after the checks of the request
unfoldable pub delete_found : Text → Bool → World → World × Reply Unit
unfolding text_eq
delete_found dn purge w = elim (user_by_dn dn w) [
  | none ↦ (w, error 404 (lit "user not found"))
  | some u ↦
      if u.is_admin && leb (count is_admin_row w.users) 1
      then (w, error 400 (lit "cannot delete the last admin"))
      else (log_event "admin_user_delete" "ok" [] (remove_user dn purge w), ok tt)
]

-- `admin_delete_user`
unfoldable pub admin_delete_user : Request → Text → Bool → World → World × Reply Unit
unfolding delete_found strip text_eq
admin_delete_user r dn purge w =
    let target = strip dn in
    if is_empty target || ltb 512 (length target)
    then (w, error 400 (lit "invalid dn"))
    else if target == r.dn
    then (w, error 400 (lit "cannot delete your own account"))
    else delete_found target purge w

abbrev pub set_approved : User → User
set_approved u = record u { auth_status = lit "active"; is_active = true }

-- `admin_approve_user`
unfoldable pub admin_approve_user : Text → World → World × Reply Unit
unfolding text_eq
admin_approve_user dn w = elim (user_by_dn dn w) [
  | none ↦ (w, error 404 (lit "user not found"))
  | some u ↦
      (log_event "admin_user_approve" "ok" [] (update_users (row_with_dn dn) set_approved w), ok tt)
]
