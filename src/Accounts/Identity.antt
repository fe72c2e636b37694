-- ===== src/Accounts/Identity.antt =====
-- Who a request comes from and the gates before the handlers (backend/app.py, parse_dod_cn,
-- auth_mode, resolve_identity, require_auth to _upsert_user). The column cn and the time stamps of a
-- row are kept as far as they are read.
pub mod Laws
use certheim.Base.{
  Bool, Eq, List, Option, Text, [], all, drop, false, filter, if◌then◌else◌, is_digit, is_empty,
  is_lower, is_upper, lit, lower, nat_eq, none, not, option_eq, some, split_on, starts_with, strip,
  text_eq, true, ℕ, ◌&&◌, ◌++◌, ◌+◌, ◌-◌, ◌==◌, ◌||◌, ◌∷◌,
}
use certheim.Store.{User, World, log_event, status_eq}
use certheim.Settings.{set_setting, setting_or}
use certheim.Accounts.Names.{derive_username, local_prefix}
use certheim.Accounts.Sessions.{
  AuthEnv, insert_user, row_with_dn, session_user_dn, update_users, user_by_dn,
}

-- What a request brings before it is authenticated.
pub record Visit : Type 0 where
  pub client_dn : Text
  pub client_verify : Text
  pub remote_addr : Text
  pub token : Text
  pub now : ℕ
  pub changes : Bool
  pub requested_with : Text

-- How the identity was found.
pub data Via : Type 0 where
  cac local unverified : Via

Via-discrete : Discrete Via
Via-discrete = hlevel

instance unfoldable pub via_eq : Eq Via
unfolding Via-discrete
via_eq = record { dec = Via-discrete }

pub record Identity : Type 0 where
  pub dn : Text
  pub via : Via

-- the mode that the first call chooses
unfoldable pub first_mode : AuthEnv → World → Text
unfolding strip lower text_eq
first_mode e w =
    let mode = lower (strip e.default_mode) in
    if is_empty w.users
    then (if mode == lit "local" || mode == lit "mtls" then mode else lit "mtls")
    else lit "mtls"

-- `auth_mode`: the first call stores what it chooses
unfoldable pub auth_mode : AuthEnv → World → World × Text
auth_mode e w =
    let mode = setting_or (lit "auth_mode") [] w in
    if not (is_empty mode)
    then (w, mode)
    else (set_setting (lit "auth_mode") (first_mode e w) w, first_mode e w)

abbrev pub unknown_caller : Visit → Identity
unknown_caller v = record { dn = lit "ip:" ++ v.remote_addr; via = unverified }

abbrev pub presents_cert : Visit → Bool
presents_cert v = strip v.client_verify == lit "SUCCESS" && not (is_empty (strip v.client_dn))

-- `local_identity`, or the address
abbrev pub local_or_unknown : Visit → World × Option Text → World × Identity
local_or_unknown v (w, none) = (w, unknown_caller v)
local_or_unknown v (w, some dn) =
    (w, if is_empty dn then unknown_caller v else record { dn = dn; via = local })

-- `resolve_identity`
unfoldable pub resolve_identity : AuthEnv → Visit → World → World × Identity
unfolding strip text_eq
resolve_identity e v w =
    let (w', mode) = auth_mode e w in
    if mode == lit "mtls"
    then (
      w',
      if presents_cert v then record { dn = strip v.client_dn; via = cac } else unknown_caller v,
    )
    else local_or_unknown v (session_user_dn v.now v.token w')

-- the text after the first `CN=`, or none
unfoldable pub after_cn_tag : Text → Option Text
unfolding starts_with
after_cn_tag [] = none
after_cn_tag (c ∷ s) =
    let rest = after_cn_tag s in
    if starts_with (c ∷ s) (lit "CN=") then some (drop 3 (c ∷ s)) else rest

-- `s.split(",", 1)[0]`
unfoldable pub until_comma : Text → Text
unfolding nat_eq
until_comma [] = []
until_comma (c ∷ s) = let rest = until_comma s in if c == b',' then [] else c ∷ rest

-- `_cn_from_dn`
unfoldable pub cn_from_dn : Text → Text
unfolding strip
cn_from_dn dn = elim (after_cn_tag dn) [ none ↦ dn | some s ↦ strip (until_comma s) ]

-- `s.title()`, on the ASCII letters
unfoldable pub title_from : Bool → Text → Text
unfolding is_lower is_upper
title_from inside [] = []
title_from inside (c ∷ s) =
    let up = if is_lower c then c - 32 else c in
    let down = if is_upper c then c + 32 else c in
    (if inside then down else up) ∷ title_from (is_lower c || is_upper c) s

-- the CN part of a dn that has one, where `_cn_from_dn` gave the dn itself
unfoldable pub cn_part : List Text → Text
unfolding strip lower starts_with
cn_part [] = []
cn_part (p ∷ ps) =
    let rest = cn_part ps in
    if starts_with (lower (strip p)) (lit "cn=") then drop 3 (strip p) else rest

-- the last piece dropped where it is a number
unfoldable pub drop_edipi : List Text → List Text
unfolding is_digit
drop_edipi [] = []
drop_edipi (t ∷ []) = if all is_digit t then [] else t ∷ []
drop_edipi (t ∷ u ∷ ts) = t ∷ drop_edipi (u ∷ ts)

abbrev names_of : List Text → Text × Text
names_of [] = ([], [])
names_of (t ∷ []) = ([], title_from false t)
names_of (t ∷ u ∷ ts) = (title_from false u, title_from false t)

-- `parse_dod_cn`: first and last name
unfoldable pub parse_dod_cn : Text → Text × Text
unfolding text_eq title_from split_on
parse_dod_cn dn =
    let cn = cn_from_dn dn in
    let cn' = if is_empty cn || cn == dn then cn_part (split_on b',' dn) else cn in
    names_of (drop_edipi (filter (λ t. not (is_empty t)) (split_on b'.' cn')))

abbrev pub or_null : Text → Option Text
or_null s = if is_empty s then none else some s

-- the new row of an identity that has none
abbrev pub visiting_user : Text → ℕ → Bool → Text → Text → Option Text → User
visiting_user dn now is_admin first last username = record {
  dn = dn;
  cn = cn_from_dn dn;
  email = none;
  is_admin = is_admin;
  is_active = true;
  username = username;
  password_hash = none;
  auth_status = lit "active";
  failed_attempts = 0;
  locked_until = 0;
  first_name = or_null first;
  last_name = or_null last;
  last_seen_at = now;
}

-- an address or a local account, which has no names in its dn
abbrev pub is_synthetic : Text → Bool
is_synthetic dn = starts_with dn (lit "ip:") || starts_with dn local_prefix

unfoldable pub new_visitor : AuthEnv → Text → ℕ → World → User
unfolding starts_with
new_visitor e dn now w =
    let admin = e.bootstrap_first_admin && is_empty w.users in
    let (first, last) = if is_synthetic dn then ([], []) else parse_dod_cn dn in
    visiting_user dn now admin first last
      (if is_empty first && is_empty last then none else derive_username first last w.users)

abbrev pub log_visitor : User → World → World
log_visitor u w =
    let w' = log_event "user_created" "ok" [] w in
    if u.is_admin then log_event "admin_bootstrap" "ok" [] w' else w'

-- `_upsert_user`
unfoldable pub upsert_user : AuthEnv → Text → ℕ → World → World × Option User
unfolding text_eq
upsert_user e dn now w = if is_empty dn then (w, none) else elim (user_by_dn dn w) [
  | some u ↦
      let w' =
        update_users (row_with_dn dn)
          (λ (v : User). record v { last_seen_at = now; cn = cn_from_dn dn }) w in
      (w', user_by_dn dn w')
  | none ↦ elim (insert_user (new_visitor e dn now w) w) [
    | none ↦ (w, none)
    | some w' ↦ (log_visitor (new_visitor e dn now w) w', user_by_dn dn w')
  ]
]

-- `g.user` after `_setup`, and the row that the gate makes where there is none
unfoldable pub load_or_create : AuthEnv → Text → ℕ → World → World × Option User
unfolding upsert_user
load_or_create e dn now w = elim (user_by_dn dn w) [
  | some u ↦ (w, some u)
  | none ↦ upsert_user e dn now w
]

abbrev pub gate_user : World × Option User → World × Option User
gate_user (w, none) = (log_event "require_auth" "deny_inactive" [] w, none)
gate_user (w, some u) =
    if u.is_active then (w, some u) else (log_event "require_auth" "deny_inactive" [] w, none)

-- `_setup` and `require_auth`: the caller's row, or a 403
unfoldable pub require_auth : AuthEnv → Visit → World → World × Option User
unfolding text_eq via_eq
require_auth e v w =
    let (w', identity) = resolve_identity e v w in
    let (w'', mode) = auth_mode e w' in
    if mode == lit "local" && not (identity.via == local)
    then (log_event "require_auth" "deny_unauth" [] w'', none)
    else gate_user (load_or_create e identity.dn v.now w'')

abbrev gate_admin : World × Option User → World × Option User
gate_admin (w, none) = (w, none)
gate_admin (w, some u) =
    if u.is_admin then (w, some u) else (log_event "require_admin" "deny_not_admin" [] w, none)

-- `require_admin`
unfoldable pub require_admin : AuthEnv → Visit → World → World × Option User
unfolding require_auth
require_admin e v w = gate_admin (require_auth e v w)

-- `require_csrf`, for a method that changes state
unfoldable pub require_csrf : Visit → Bool
unfolding text_eq
require_csrf v = not v.changes || v.requested_with == lit "certheim"
