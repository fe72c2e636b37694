-- ===== src/Accounts/Register/Laws.antt =====
-- Theorems on auth_register (backend/routes_auth.py).
use certheim.Accounts.Passwords.{hash_password}
use certheim.Accounts.Names.{local_prefix}
use certheim.Accounts.Identity.{auth_mode, via_eq}
use certheim.Base.{
  List, Text, [], any, arith, false, lit, nat_eq, none, option_eq, refl, some, text_eq, true, ℕ,
  ◌++◌, ◌==◌, ◌||◌, ◌∷◌, ◌≡◌,
}
use certheim.Store.{User, World, ok, status_eq}
use certheim.Accounts.Names.Free.{derive_username-free, occupies}
use certheim.Accounts.Sessions.{AuthEnv, insert_user, same_username}
use certheim.Accounts.Register.{
  Registration, answer_of, auth_register, cleaned, finish_register, register_tries, registered_user,
  registration_open, registration_refusal, try_register,
}

not_taken :
    (u : User) (name : Text) (us : List User)
    → u.dn ≡ local_prefix ++ name
    → u.username ≡ some name
    → any (occupies name) us ≡ false
    → any (λ v. v.dn == u.dn || same_username u.username v) us ≡ false
not_taken u name [] dn username free = refl
not_taken u name (v ∷ us) dn username free =
    let rest = not_taken u name us dn username (ground arith) in
    rw rest (rw (dn, username) (ground arith))

free-inserts :
    (u : User) (name : Text) (w : World)
    → u.dn ≡ local_prefix ++ name
    → u.username ≡ some name
    → any (occupies name) w.users ≡ false
    → insert_user u w ≡ some (record w { users = w.users ++ u ∷ [] })
unfolding insert_user
free-inserts u name w dn username free =
    rw (not_taken u name w.users dn username free, insert_user) refl

-- the new row, under a name that no row has
try_register-finds :
    (e : AuthEnv) (now : ℕ) (g : Registration) (pwhash : Text) (w : World)
    → (name : Text) × (any (occupies name) w.users ≡ false)
      × (try_register e now g pwhash w
          ≡ some (
            record w { users = w.users ++ registered_user e now g pwhash name w ∷ [] },
            registered_user e now g pwhash name w,
          ))
unfolding try_register
try_register-finds e now g pwhash w =
    let (name, derived, free) = derive_username-free g.first_name g.last_name w.users in
    let u = registered_user e now g pwhash name w in
    (name, free, rw (derived, try_register, free-inserts u name w refl refl free) refl)

first_try :
    (e : AuthEnv) (now : ℕ) (g : Registration) (pwhash : Text) (w : World) (p : World × User)
    → try_register e now g pwhash w ≡ some p
    → register_tries 5 e now g pwhash w ≡ some p
unfolding register_tries
first_try e now g pwhash w p tried = rw (tried, register_tries) refl

pub finish-some :
    (e : AuthEnv) (now : ℕ) (token : Text) (w w' : World) (u : User)
    → ((finish_register e now token (some (w', u)) w).1 ≡ ok (answer_of u))
      × ((finish_register e now token (some (w', u)) w).0.users ≡ w'.users)
unfolding finish_register
finish-some e now token w w' u = (ground arith, ground arith)

-- Where the mode is local and registration is open, a registration that passes every check is
-- answered with an account, the first try giving it: its row is added under a username that no row
-- has, neither as its username nor in its dn.
pub register-succeeds :
    (e : AuthEnv) (now : ℕ) (token salt : Text) (g : Registration) (w : World)
    → (auth_mode e w).1 ≡ lit "local"
    → registration_open (auth_mode e w).0 ≡ true
    → registration_refusal (cleaned g) (auth_mode e w).0 ≡ none
    → (name : Text) × (any (occupies name) (auth_mode e w).0.users ≡ false)
      × ((auth_register e now token salt g w).1
          ≡ ok (
              answer_of (
                registered_user e now
                  (cleaned g)
                  (hash_password e.kdf salt g.password)
                  name
                  (auth_mode e w).0)))
      × ((auth_register e now token salt g w).0.users
          ≡ (auth_mode e w).0.users
            ++ registered_user e now
                (cleaned g)
                (hash_password e.kdf salt g.password)
                name
                (auth_mode e w).0
              ∷ [])
unfolding auth_register
register-succeeds e now token salt g w mode open_now clean =
    let w' = (auth_mode e w).0 in
    let (name, free, tried) =
      try_register-finds e now (cleaned g) (hash_password e.kdf salt g.password) w' in
    let u = registered_user e now (cleaned g) (hash_password e.kdf salt g.password) name w' in
    let grown : World = record w' { users = w'.users ++ u ∷ [] } in
    let first =
      first_try e now (cleaned g) (hash_password e.kdf salt g.password) w' (grown, u) tried in
    let ends = finish-some e now token w' grown u in
    (
      name,
      free,
      rw (mode, auth_register, open_now, clean, first) ends.0,
      rw (mode, auth_register, open_now, clean, first) ends.1,
    )
