-- ===== src/Accounts/Login/Lockout.antt =====
-- Theorems on the lockout of auth_login (backend/routes_auth.py).
use certheim.Accounts.Passwords.{verify_password}
use certheim.Settings.{set_setting}
use certheim.Base.{
  All, Bool, Bool-cases, List, Text, [], arith, false, find, if-either, if◌then◌else◌, inl, inr,
  is_empty, leb, lit, ltb, nat_eq, option_eq, refl, some, strip, text_eq, true, update_where, ℕ,
  ◌+◌, ◌<◌, ◌==◌, ◌||◌, ◌∷◌, ◌≡◌, ◌≤◌,
}
use certheim.Store.{Reply, User, World, error, status_eq}
use certheim.Accounts.Sessions.{AuthEnv, row_with_dn}
use certheim.Accounts.Identity.{auth_mode, via_eq}
use certheim.Accounts.Login.{
  auth_login, count_failure, lockout_seconds, lockout_threshold, login_found, login_row,
  row_with_username, set_failed, unknown_user,
}

users-auth_mode : (e : AuthEnv) (w : World) → (auth_mode e w).0.users ≡ w.users
unfolding auth_mode set_setting
users-auth_mode e w = ground arith

find-update_other :
    (p q : User → Bool) (f : User → User) (u : User)
    → ((x : User) → p (f x) ≡ p x)
    → q u ≡ true
    → (us : List User) → find p us ≡ some u
    → find p (update_where q f us) ≡ some (f u)
find-update_other p q f u same hit [] found = absurd (ground arith)
find-update_other p q f u same hit (x ∷ us) found =
    ground (arith, same x, find-update_other p q f u same hit us)

-- An account on which at most five passwords have been tried since `start`.
data IsGuarded (start : ℕ) (stored : Text) (u : User) : Type 0 where
  counting : u.password_hash ≡ some stored → u.failed_attempts ≤ 4 → IsGuarded start stored u
  locked :
      u.password_hash ≡ some stored
      → u.failed_attempts ≡ 5
      → start + lockout_seconds ≤ u.locked_until
      → IsGuarded start stored u

-- the row after one wrong password that was checked
failure-IsGuarded :
    (start now : ℕ) (stored : Text) (u : User)
    → start ≤ now
    → now < start + lockout_seconds
    → ltb now u.locked_until ≡ false
    → IsGuarded start stored u
    → IsGuarded start stored (
        set_failed
          (u.failed_attempts + 1)
          (if leb lockout_threshold (u.failed_attempts + 1) then now + lockout_seconds else 0)
          u)
failure-IsGuarded start now stored u from before open_now (locked hash five until) =
    absurd (ground arith)
failure-IsGuarded start now stored u from before open_now (counting hash few) =
    elim (Bool-cases (leb lockout_threshold (u.failed_attempts + 1))) [
      | inl full ↦ locked hash (ground arith) (ground arith)
      | inr more ↦ counting hash (ground arith)
    ]

-- the table after it
users-failure :
    (e : AuthEnv) (now : ℕ) (token password stored : Text) (u : User) (w : World)
    → ltb now u.locked_until ≡ false
    → (u.auth_status == lit "pending") ≡ false
    → u.is_active ≡ true
    → verify_password e.kdf password stored ≡ false
    → (login_row e now token password stored u w).0.users ≡ (count_failure now u w).users
unfolding login_row
users-failure e now token password stored u w open_now approved on wrong = ground arith

-- one wrong password on a row that is found
login_row-IsGuarded :
    (e : AuthEnv) (start now : ℕ) (name token password stored : Text) (u : User) (w : World)
    → find (row_with_username name) w.users ≡ some u
    → start ≤ now
    → now < start + lockout_seconds
    → verify_password e.kdf password stored ≡ false
    → IsGuarded start stored u
    → (v : User) × (find
          (row_with_username name)
          (login_row e now token password stored u w).0.users
        ≡ some v)
      × IsGuarded start stored v
unfolding login_row
login_row-IsGuarded e start now name token password stored u w found from before wrong is =
    elim (Bool-cases (ltb now u.locked_until)) [
      | inl shut ↦ (u, rw (shut, login_row) found, is)
      | inr open_now ↦ elim (Bool-cases (u.auth_status == lit "pending")) [
        | inl waiting ↦ (u, rw (open_now, login_row, waiting) found, is)
        | inr approved ↦ elim (Bool-cases u.is_active) [
          | inr off ↦ (u, ground arith, is)
          | inl on ↦ (
            _,
            rw (users-failure e now token password stored u w open_now approved on wrong) (
                find-update_other (row_with_username name) (row_with_dn u.dn)
                  (set_failed (u.failed_attempts + 1) (
                    if leb lockout_threshold (u.failed_attempts + 1)
                    then now + lockout_seconds
                    else 0))
                  u (λ x. refl) (ground arith) w.users found),
            failure-IsGuarded start now stored u from before open_now is,
          )
        ]
      ]
    ]

hash-IsGuarded :
    (start : ℕ) (stored : Text) (u : User)
    → IsGuarded start stored u
    → u.password_hash ≡ some stored
hash-IsGuarded start stored u (counting hash few) = hash
hash-IsGuarded start stored u (locked hash five until) = hash

login_found-row :
    (e : AuthEnv) (now : ℕ) (token password stored : Text) (u : User) (w : World)
    → u.password_hash ≡ some stored
    → login_found e now token password (some u) w
      ≡ (if is_empty stored then unknown_user w else login_row e now token password stored u w)
login_found-row e now token password stored u w hash = ground arith

-- the row of a name after an answer
abbrev Guards : ℕ → Text → Text → World × Reply Text → Type 0
Guards start name stored x =
    (v : User) × (find (row_with_username name) x.0.users ≡ some v) × IsGuarded start stored v

login_found-Guards :
    (e : AuthEnv) (start now : ℕ) (name token password stored : Text) (u : User) (w : World)
    → find (row_with_username name) w.users ≡ some u
    → start ≤ now
    → now < start + lockout_seconds
    → verify_password e.kdf password stored ≡ false
    → IsGuarded start stored u
    → Guards start name stored (login_found e now token password (some u) w)
login_found-Guards e start now name token password stored u w found from before wrong is =
    rw (login_found-row e now token password stored u w (hash-IsGuarded start stored u is)) (
      if-either (Guards start name stored) (is_empty stored) (unknown_user w)
        (login_row e now token password stored u w) (u, found, is)
        (login_row-IsGuarded e start now name token password stored u w found from before wrong is))

-- the world after a list of attempts, each with its time and its password
abbrev pub attempts : AuthEnv → Text → Text → List (ℕ × Text) → World → World
attempts e token username [] w = w
attempts e token username ((now, password) ∷ tries) w =
    attempts e token username tries (auth_login e now token username password w).0

abbrev pub IsWrongTry : AuthEnv → ℕ → Text → ℕ × Text → Type 0
IsWrongTry e start stored (now, password) =
    (start ≤ now)
    × (now < start + lockout_seconds)
    × (verify_password e.kdf password stored ≡ false)

auth_login-IsGuarded :
    (e : AuthEnv) (start : ℕ) (token username stored : Text) (t : ℕ × Text) (u : User) (w : World)
    → IsWrongTry e start stored t
    → find (row_with_username (strip username)) w.users ≡ some u
    → IsGuarded start stored u
    → (v : User) × (find
          (row_with_username (strip username))
          (auth_login e t.0 token username t.1 w).0.users
        ≡ some v)
      × IsGuarded start stored v
unfolding auth_login
auth_login-IsGuarded e start token username stored (now, password) u w wrong found is =
    let name = strip username in
    let w' = (auth_mode e w).0 in
    let there : find (row_with_username name) w'.users ≡ some u = rw (users-auth_mode e w) found in
    if-either (Guards start name stored) ((auth_mode e w).1 == lit "mtls")
      (w', error 403 (lit "this host uses CAC authentication"))
      (if is_empty name || is_empty password
        then (w', error 400 (lit "username and password required"))
        else login_found e now token password (find (row_with_username name) w'.users) w')
      (u, there, is)
      (if-either (Guards start name stored) (is_empty name || is_empty password)
        (w', error 400 (lit "username and password required"))
        (login_found e now token password (find (row_with_username name) w'.users) w')
        (u, there, is)
        (rw there (
          login_found-Guards e start now name token password stored u w' there wrong.0 wrong.1
            wrong.2 is)))

attempts-IsGuarded :
    (e : AuthEnv) (start : ℕ) (token username stored : Text) (tries : List (ℕ × Text)) (u : User)
    (w : World)
    → All (IsWrongTry e start stored) tries
    → find (row_with_username (strip username)) w.users ≡ some u
    → IsGuarded start stored u
    → (v : User) × (find
          (row_with_username (strip username))
          (attempts e token username tries w).users
        ≡ some v)
      × IsGuarded start stored v
attempts-IsGuarded e start token username stored [] u w wrong found is = (u, found, is)
attempts-IsGuarded e start token username stored (t ∷ tries) u w wrong found is =
    let (v, found', is') =
      auth_login-IsGuarded e start token username stored t u w wrong.0 found is in
    attempts-IsGuarded e start token username stored tries v
      (auth_login e t.0 token username t.1 w).0 wrong.1 found' is'

failed_attempts-IsGuarded :
    (start : ℕ) (stored : Text) (u : User) → IsGuarded start stored u → u.failed_attempts ≤ 5
failed_attempts-IsGuarded start stored u (counting hash few) = omega (arith, few)
failed_attempts-IsGuarded start stored u (locked hash five until) = omega (arith, five)

-- However many wrong passwords are sent for an account within 900 seconds, from a count of zero its
-- counter of failed attempts ends at five at most.
pub lockout_bounds_tries :
    (e : AuthEnv) (start : ℕ) (token username stored : Text) (tries : List (ℕ × Text)) (u : User)
    (w : World)
    → find (row_with_username (strip username)) w.users ≡ some u
    → u.password_hash ≡ some stored
    → u.failed_attempts ≡ 0
    → All (IsWrongTry e start stored) tries
    → (v : User) × (find
          (row_with_username (strip username))
          (attempts e token username tries w).users
        ≡ some v)
      × (v.failed_attempts ≤ 5)
lockout_bounds_tries e start token username stored tries u w found hash zero_count wrong =
    let (v, found', is) =
      attempts-IsGuarded e start token username stored tries u w wrong found
        (counting hash (omega (arith, zero_count))) in
    (v, found', failed_attempts-IsGuarded start stored v is)
