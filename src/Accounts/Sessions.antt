-- ===== src/Accounts/Sessions.antt =====
-- The users table's queries and the sessions of local accounts (backend/app.py,
-- create_local_session to destroy_local_session).
use certheim.Accounts.Passwords.{Kdf}
use certheim.Base.{
  Bool, Option, Text, [], any, false, filter, find, if◌then◌else◌, is_empty, ltb, nat_eq, none, not,
  option_eq, some, text_eq, update_where, ℕ, ◌++◌, ◌+◌, ◌==◌, ◌||◌, ◌∷◌,
}
use certheim.Store.{Session, User, World, status_eq}

-- What the installation fixes: the switch for the first admin, the install-time mode, whether client
-- certificates are licensed, how long a session lasts, and the password functions.
pub record AuthEnv : Type 0 where
  pub bootstrap_first_admin : Bool
  pub default_mode : Text
  pub cac_available : Bool
  pub session_ttl : ℕ
  pub kdf : Kdf

abbrev pub row_with_dn : Text → User → Bool
row_with_dn dn u = u.dn == dn

abbrev pub user_by_dn : Text → World → Option User
user_by_dn dn w = find (row_with_dn dn) w.users

abbrev pub update_users : (User → Bool) → (User → User) → World → World
update_users p f w = record w { users = update_where p f w.users }

abbrev pub same_username : Option Text → User → Bool
same_username none u = false
same_username (some name) u = u.username == some name

-- the new row is refused where its dn or its username is taken
unfoldable pub insert_user : User → World → Option World
unfolding text_eq
insert_user u w =
    if any (λ v. v.dn == u.dn || same_username u.username v) w.users
    then none
    else some (record w { users = w.users ++ u ∷ [] })

-- `create_local_session`, with the token that was drawn
abbrev pub create_local_session : AuthEnv → ℕ → Text → Text → World → World
create_local_session e now token user_dn w = record w {
  sessions =
      record { token = token; user_dn = user_dn; expires_at = now + e.session_ttl } ∷ w.sessions;
}

abbrev pub has_token : Text → Session → Bool
has_token token s = s.token == token

abbrev pub drop_token : Text → World → World
drop_token token w = record w { sessions = filter (λ s. not (has_token token s)) w.sessions }

-- `session_user_dn`: a session that has run out is deleted
unfoldable pub session_user_dn : ℕ → Text → World → World × Option Text
unfolding text_eq
session_user_dn now token w =
    if is_empty token then (w, none) else elim (find (has_token token) w.sessions) [
      | none ↦ (w, none)
      | some s ↦ if ltb s.expires_at now then (drop_token token w, none) else (w, some s.user_dn)
    ]

-- `destroy_local_session`
unfoldable pub destroy_local_session : Text → World → World
unfolding text_eq
destroy_local_session token w = if is_empty token then w else drop_token token w
