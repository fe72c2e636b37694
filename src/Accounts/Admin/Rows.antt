-- ===== src/Accounts/Admin/Rows.antt =====
-- Active admins among the rows of the users table.
use certheim.Accounts.Identity.{via_eq}
use certheim.Base.{
  Bool, Bool-cases, List, Text, [], any, arith, filter, find, inl, inr, nat_eq, option_eq, some,
  text_eq, true, update_where, ◌&&◌, ◌++◌, ◌==◌, ◌∷◌, ◌≡◌,
}
use certheim.Store.{User, World, status_eq}
use certheim.Accounts.Sessions.{row_with_dn}

-- The active admins with a given dn.
abbrev pub is_own_admin : Text → User → Bool
is_own_admin dn u = u.dn == dn && u.is_admin && u.is_active

abbrev pub is_active_admin : User → Bool
is_active_admin u = u.is_admin && u.is_active

pub any-own :
    (dn : Text) (us : List User) → any (is_own_admin dn) us ≡ true → any is_active_admin us ≡ true
any-own dn [] h = absurd (ground arith)
any-own dn (u ∷ us) h = ground (arith, any-own dn us)

pub any-update_keep :
    (p q : User → Bool) (f : User → User)
    → ((u : User) → q u ≡ true → p u ≡ true → p (f u) ≡ true)
    → (us : List User) → any p us ≡ true
    → any p (update_where q f us) ≡ true
any-update_keep p q f keep [] h = absurd (ground arith)
any-update_keep p q f keep (u ∷ us) h = ground (arith, keep u, any-update_keep p q f keep us)

pub any-filter_keep :
    (p q : User → Bool)
    → ((u : User) → p u ≡ true → q u ≡ true)
    → (us : List User) → any p us ≡ true
    → any p (filter q us) ≡ true
any-filter_keep p q keep [] h = absurd (ground arith)
any-filter_keep p q keep (u ∷ us) h = ground (arith, keep u, any-filter_keep p q keep us)

pub any-append_keep :
    (p : User → Bool) (us vs : List User) → any p us ≡ true → any p (us ++ vs) ≡ true
any-append_keep p [] vs h = absurd (ground arith)
any-append_keep p (u ∷ us) vs h = ground (arith, any-append_keep p us vs)

pub any-found :
    (dn : Text) (u : User) (us : List User)
    → find (row_with_dn dn) us ≡ some u
    → is_active_admin u ≡ true
    → any (is_own_admin dn) us ≡ true
any-found dn u [] found h = absurd (ground arith)
any-found dn u (v ∷ us) found h = elim (Bool-cases (row_with_dn dn v)) [
  | inl hit ↦ let same : v ≡ u = ground arith in rw (same, rw same at hit) (ground arith)
  | inr miss ↦ ground (arith, any-found dn u us)
]

-- Some admin is active.
abbrev pub HasAdmin : World → Type 0
HasAdmin w = any is_active_admin w.users ≡ true

-- the request's own row, an active admin's
abbrev pub Owns : Text → World → Type 0
Owns dn w = any (is_own_admin dn) w.users ≡ true
