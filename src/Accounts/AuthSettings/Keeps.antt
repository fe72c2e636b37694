-- ===== src/Accounts/AuthSettings/Keeps.antt =====
-- Lemmas on the parts of admin_set_auth_settings (backend/routes_auth.py).
use certheim.Validation.{TextField, no_text, other_type, text}
use certheim.Base.{
  All, Bool, List, Option, Text, [], arith, false, if-either, if◌then◌else◌, inl, inr, join, lit,
  nat_eq, none, option_eq, refl, some, strip, take, text_eq, ◌==◌, ◌∙◌, ◌∷◌, ◌≡◌,
}
use certheim.Store.{Reply-cases, World, status_eq}
use certheim.Signing.{Deploy}
use certheim.Settings.{get_setting, get_setting-set_setting, set_setting}
use certheim.Accounts.Register.{parse_trusted_domains}
use certheim.Accounts.AuthSettings.{
  AuthChanges, Part, domains_text, given, given_banner, given_mtls, has_cac, log_change,
  other_parts, put_domains, put_mode, put_mtls, run_parts, set_banner, set_domains, set_flag,
  set_mode, set_mtls, set_text, set_title, store_mtls,
}

abbrev pub mode_key : Text
mode_key = lit "auth_mode"

abbrev pub mtls_key : Text
mtls_key = lit "mtls_mode"

-- a setting that a part leaves as it is
abbrev pub Keeps : Text → World → World → Type 0
Keeps key w w' = get_setting key w' ≡ get_setting key w

abbrev pub PartKeeps : Text → (World → Part) → Type 0
PartKeeps key part = (w : World) → Keeps key w (part w).0

pub set_setting-Keeps :
    (key value k : Text) (w : World) → (key == k) ≡ false → Keeps k w (set_setting key value w)
unfolding text_eq
set_setting-Keeps key value k w other = rw (get_setting-set_setting key value k w, other) refl

-- What holds of a world and of every world that a field's part makes of it holds after the part.
pub given-either :
    {A : Type 0} (P : World → Type 0) (x : Option A) (part : A → World → Part) (w : World)
    → P w
    → ((a : A) → P (part a w).0)
    → P (given x part w).0
given-either P none part w before after = before
given-either P (some a) part w before after = after a

given-Keeps :
    {A : Type 0} (k : Text) (x : Option A) (part : A → World → Part)
    → ((a : A) → PartKeeps k (part a))
    → PartKeeps k (given x part)
given-Keeps k x part each w = given-either (Keeps k w) x part w refl (λ a. each a w)

run_parts-Keeps :
    (k : Text) (parts : List (World → Part))
    → All (PartKeeps k) parts
    → PartKeeps k (run_parts parts)
unfolding run_parts
run_parts-Keeps k [] each w = refl
run_parts-Keeps k (part ∷ parts) (first, rest) w = elim (Reply-cases (part w).1) [
  | inl (x, done) ↦ rw done (run_parts-Keeps k parts rest (part w).0 ∙ first w)
  | inr (code, message, refused) ↦ rw refused (first w)
]

if-Keeps :
    (k : Text) (w : World) (b : Bool) (p q : Part)
    → Keeps k w p.0
    → Keeps k w q.0
    → Keeps k w (if b then p else q).0
if-Keeps k w b p q = if-either (λ (r : Part). Keeps k w r.0) b p q

set_domains-Keeps :
    (k : Text) (ds : List Text)
    → (lit "trusted_email_domain" == k) ≡ false
    → PartKeeps k (set_domains ds)
unfolding set_domains
set_domains-Keeps k ds other w =
    if-Keeps k w _ _ _
      (set_setting-Keeps (lit "trusted_email_domain") (join (lit ",") ds) k w other) refl

set_banner-Keeps : (k b : Text) → (lit "login_banner" == k) ≡ false → PartKeeps k (set_banner b)
unfolding set_banner
set_banner-Keeps k b other w =
    if-Keeps k w _ _ _ (set_setting-Keeps (lit "login_banner") (given_banner b) k w other) refl

set_text-Keeps :
    (k : Text) (t : TextField)
    → (lit "login_banner_custom_text" == k) ≡ false
    → PartKeeps k (set_text t)
set_text-Keeps k no_text other w = set_setting-Keeps (lit "login_banner_custom_text") [] k w other
set_text-Keeps k (text s) other w =
    set_setting-Keeps (lit "login_banner_custom_text") (take 8000 s) k w other
set_text-Keeps k other_type other w = refl

set_flag-Keeps : (k key : Text) (on : Bool) → (key == k) ≡ false → PartKeeps k (set_flag key on)
set_flag-Keeps k key on other w = set_setting-Keeps key (if on then lit "1" else lit "0") k w other

flag-Keeps :
    (k key : Text) (flag : Option Bool)
    → (key == k) ≡ false
    → PartKeeps k (given flag (set_flag key))
flag-Keeps k key flag other =
    given-Keeps k flag (set_flag key) (λ on. set_flag-Keeps k key on other)

put_domains-Keeps :
    (k : Text) (c : AuthChanges)
    → (lit "trusted_email_domain" == k) ≡ false
    → PartKeeps k (put_domains c)
unfolding put_domains
put_domains-Keeps k c other =
    given-Keeps k c.trusted_domains (λ f. set_domains (parse_trusted_domains (domains_text f)))
      (λ f. set_domains-Keeps k (parse_trusted_domains (domains_text f)) other)

log_change-Keeps : (k : Text) → PartKeeps k log_change
unfolding get_setting
log_change-Keeps k w = refl

-- The parts after the two on certificates keep every setting that is not one of their six.
pub other_parts-Keep :
    (k : Text) (c : AuthChanges)
    → (lit "trusted_email_domain" == k) ≡ false
    → (lit "require_admin_approval" == k) ≡ false
    → (lit "allow_registration" == k) ≡ false
    → (lit "login_banner" == k) ≡ false
    → (lit "login_banner_custom_title" == k) ≡ false
    → (lit "login_banner_custom_text" == k) ≡ false
    → All (PartKeeps k) (other_parts c)
other_parts-Keep k c domains approval open_now banner title content = (
  put_domains-Keeps k c domains,
  (
    flag-Keeps k (lit "require_admin_approval") c.require_admin_approval approval,
    (
      flag-Keeps k (lit "allow_registration") c.allow_registration open_now,
      (
        given-Keeps k c.login_banner set_banner (λ b. set_banner-Keeps k b banner),
        (
          given-Keeps k c.custom_title set_title (λ t w.
              set_setting-Keeps (lit "login_banner_custom_title") (take 120 (strip t)) k w title),
          (
            given-Keeps k c.custom_text set_text (λ t. set_text-Keeps k t content),
            (log_change-Keeps k, tt),
          ),
        ),
      ),
    ),
  ),
)

store_mtls-mode : (mode path : Text) → PartKeeps mode_key (store_mtls mode path)
unfolding store_mtls text_eq
store_mtls-mode mode path w = if-Keeps mode_key w _ _ _ refl (
    set_setting-Keeps (lit "mtls_ca_bundle_path") path mode_key (set_setting mtls_key mode w) refl
    ∙ set_setting-Keeps mtls_key mode mode_key w refl)

set_mtls-mode : (d : Deploy) (mode path : Text) → PartKeeps mode_key (set_mtls d mode path)
unfolding set_mtls
set_mtls-mode d mode path w = if-Keeps mode_key w _ _ _ refl (
    if-Keeps mode_key w (has_cac d) _ _ (store_mtls-mode mode path w)
      (if-Keeps mode_key w _ _ _ refl (store_mtls-mode (lit "off") path w)))

pub run_parts-first :
    (k : Text) (part : World → Part) (parts : List (World → Part)) (w : World)
    → All (PartKeeps k) parts
    → Keeps k (part w).0 (run_parts (part ∷ parts) w).0
unfolding run_parts
run_parts-first k part parts w each = elim (Reply-cases (part w).1) [
  | inl (x, done) ↦ rw done (run_parts-Keeps k parts each (part w).0)
  | inr (code, message, refused) ↦ rw refused refl
]

pub put_mtls-mode : (d : Deploy) (c : AuthChanges) → PartKeeps mode_key (put_mtls d c)
unfolding put_mtls
put_mtls-mode d c =
    given-Keeps mode_key c.mtls_mode (λ m. set_mtls d (given_mtls m) (strip c.mtls_ca_bundle_path))
      (λ m. set_mtls-mode d (given_mtls m) (strip c.mtls_ca_bundle_path))

set_mode-mtls :
    (d : Deploy) (confirm : Bool) (m : TextField) → PartKeeps mtls_key (set_mode d confirm m)
unfolding text_eq
set_mode-mtls d confirm no_text w = refl
set_mode-mtls d confirm other_type w = refl
set_mode-mtls d confirm (text mode) w =
    ground (arith, set_setting-Keeps mode_key mode mtls_key w refl)

pub put_mode-mtls : (d : Deploy) (c : AuthChanges) → PartKeeps mtls_key (put_mode d c)
unfolding put_mode
put_mode-mtls d c =
    given-Keeps mtls_key c.auth_mode (set_mode d c.confirm_mtls) (set_mode-mtls d c.confirm_mtls)
