-- ===== src/Settings.antt =====
-- The instance settings (backend/app.py, _SETTINGS_DEFAULTS to set_setting).
use certheim.Base.{
  List, Option, Text, [], arith, if◌then◌else◌, is_empty, lit, nat_eq, none, option_eq, refl, some,
  text_eq, ◌==◌, ◌∷◌, ◌≡◌,
}
use certheim.Store.{World, status_eq}

abbrev settings_defaults : List (Text × Text)
settings_defaults =
    (lit "trusted_email_domain", [])
    ∷ (lit "require_admin_approval", lit "0")
    ∷ (lit "allow_registration", lit "0")
    ∷ (lit "login_banner", lit "none")
    ∷ (lit "login_banner_custom_title", lit "Notice and Consent")
    ∷ (lit "login_banner_custom_text", [])
    ∷ []

lookup_text : Text → List (Text × Text) → Option Text
unfolding text_eq
lookup_text key [] = none
lookup_text key ((k, v) ∷ rows) = if k == key then some v else lookup_text key rows

unfoldable pub get_setting : Text → World → Option Text
unfolding lookup_text
get_setting key w = elim (lookup_text key w.settings) [
  | none ↦ lookup_text key settings_defaults
  | some v ↦ some v
]

store_text : Text → Text → List (Text × Text) → List (Text × Text)
unfolding text_eq
store_text key value [] = (key, value) ∷ []
store_text key value ((k, v) ∷ rows) =
    if k == key then (k, value) ∷ rows else (k, v) ∷ store_text key value rows

unfoldable pub set_setting : Text → Text → World → World
unfolding store_text
set_setting key value w = record w { settings = store_text key value w.settings }

-- `get_setting(key) or default`
abbrev pub setting_or : Text → Text → World → Text
setting_or key default w = elim (get_setting key w) [
  | none ↦ default
  | some v ↦ if is_empty v then default else v
]

lookup_text-store_text :
    (key value k : Text) (rows : List (Text × Text))
    → lookup_text k (store_text key value rows)
      ≡ (if key == k then some value else lookup_text k rows)
unfolding lookup_text store_text
lookup_text-store_text key value k [] = refl
lookup_text-store_text key value k (r ∷ rows) =
    ground (arith, lookup_text-store_text key value k rows)

-- A setting that was stored is read back, and no other setting changes.
pub get_setting-set_setting :
    (key value k : Text) (w : World)
    → get_setting k (set_setting key value w) ≡ (if key == k then some value else get_setting k w)
unfolding get_setting set_setting
get_setting-set_setting key value k w =
    ground (arith, lookup_text-store_text key value k w.settings)

-- A setting depends on the table of settings only.
pub setting_or-same :
    (key default : Text) (w w' : World)
    → w'.settings ≡ w.settings
    → setting_or key default w' ≡ setting_or key default w
unfolding get_setting
setting_or-same key default w w' same = rw same refl
