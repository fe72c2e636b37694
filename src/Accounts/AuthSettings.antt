-- ===== src/Accounts/AuthSettings.antt =====
-- admin_set_auth_settings (backend/routes_auth.py): an admin's change of the authentication settings.
-- Each part of the body is checked and stored in turn. The call of the helper that brings the mode
-- of the client certificates to nginx is left out: its failure is only reported.
pub mod Keeps
pub mod Laws
use certheim.Base.{
  Bool, List, Option, Text, [], all, contains, filter, if◌then◌else◌, is_empty, join, lit, lower,
  nat_eq, none, not, option_eq, some, starts_with, strip, take, text_eq, ◌&&◌, ◌==◌, ◌||◌, ◌∷◌,
}
use certheim.Store.{Reply, World, error, log_event, ok, status_eq}
use certheim.Signing.{Deploy}
use certheim.Settings.{set_setting, setting_or}
use certheim.Validation.{TextField, is_alnum, mail_domain, no_text, other_type, text}
use certheim.Accounts.Register.{parse_trusted_domains}

-- `trusted_email_domains` as a list, or the text that stands for it
pub data DomainsField : Type 0 where
  listed : List Text → DomainsField
  written : Text → DomainsField

-- The fields of the request body; a field that it does not have is `none`, and null in a text is
-- the empty text.
pub record AuthChanges : Type 0 where
  pub auth_mode : Option TextField
  pub confirm_mtls : Bool
  pub mtls_mode : Option Text
  pub mtls_ca_bundle_path : Text
  pub trusted_domains : Option DomainsField
  pub require_admin_approval : Option Bool
  pub allow_registration : Option Bool
  pub login_banner : Option Text
  pub custom_title : Option Text
  pub custom_text : Option TextField

-- The answer of a part: the settings as it leaves them, and a refusal that ends the handler.
abbrev pub Part : Type 0
Part = World × Reply Unit

-- the next part, unless the one before refused
abbrev pub and_then : Part → (World → Part) → Part
and_then (w, ok x) next = next w
and_then (w, error code message) next = (w, error code message)

abbrev pub stored : Text → Text → World → Part
stored key value w = (set_setting key value w, ok tt)

-- the part for a field, where the body has it
abbrev pub given : {A : Type 0} → Option A → (A → World → Part) → World → Part
given none part w = (w, ok tt)
given (some a) part w = part a w

-- `capabilities.available("auth.cac")`
abbrev pub has_cac : Deploy → Bool
has_cac d = d.available (lit "auth.cac")

abbrev pub unlicensed : World → Part
unlicensed w = (w, error 403 (lit "CAC / mTLS is a licensed feature"))

abbrev pub set_mode : Deploy → Bool → TextField → World → Part
set_mode d confirm (text mode) w =
    if not (mode == lit "mtls" || mode == lit "local")
    then (w, error 400 (lit "auth_mode must be 'mtls' or 'local'"))
    else if mode == lit "mtls" && not (has_cac d)
    then unlicensed w
    else if mode == lit "mtls" && not confirm
    then (w, error 400 (lit "enabling mTLS requires confirm_mtls=true"))
    else stored (lit "auth_mode") mode w
set_mode d confirm other w = (w, error 400 (lit "auth_mode must be 'mtls' or 'local'"))

unfoldable pub put_mode : Deploy → AuthChanges → World → Part
unfolding text_eq
put_mode d c w = given c.auth_mode (set_mode d c.confirm_mtls) w

-- `(payload.get("mtls_mode") or "off").strip()`
abbrev pub given_mtls : Text → Text
given_mtls given = strip (if is_empty given then lit "off" else given)

-- an absolute path of plain characters
unfoldable pub is_bundle_path : Text → Bool
unfolding nat_eq is_alnum starts_with
is_bundle_path path =
    starts_with path (lit "/") && all (λ c. is_alnum c || contains (lit "._/-") c) path

unfoldable pub store_mtls : Text → Text → World → Part
unfolding text_eq is_bundle_path
store_mtls mode path w =
    if mode == lit "enforce" && not (is_bundle_path path)
    then (w, error 400 (lit "enforce mode needs a valid absolute client-CA bundle path"))
    else (
      set_setting (lit "mtls_ca_bundle_path") path (set_setting (lit "mtls_mode") mode w),
      ok tt,
    )

unfoldable pub set_mtls : Deploy → Text → Text → World → Part
unfolding text_eq store_mtls
set_mtls d mode path w =
    if not (mode == lit "off" || mode == lit "optional" || mode == lit "enforce")
    then (w, error 400 (lit "mtls_mode must be off|optional|enforce"))
    else if has_cac d
    then store_mtls mode path w
    else if not (mode == lit "off") && not (mode == setting_or (lit "mtls_mode") (lit "off") w)
    then unlicensed w
    else store_mtls (lit "off") path w

unfoldable pub put_mtls : Deploy → AuthChanges → World → Part
unfolding strip set_mtls
put_mtls d c w = given c.mtls_mode (λ m. set_mtls d (given_mtls m) (strip c.mtls_ca_bundle_path)) w

abbrev pub domains_text : DomainsField → Text
domains_text (listed ds) = join (lit ",") ds
domains_text (written s) = s

unfoldable pub set_domains : List Text → World → Part
unfolding mail_domain
set_domains domains w =
    if is_empty (filter (λ d. not (mail_domain d)) domains)
    then stored (lit "trusted_email_domain") (join (lit ",") domains) w
    else (w, error 400 (lit "invalid domain(s)"))

unfoldable pub put_domains : AuthChanges → World → Part
unfolding set_domains parse_trusted_domains
put_domains c w =
    given c.trusted_domains (λ f. set_domains (parse_trusted_domains (domains_text f))) w

abbrev pub set_flag : Text → Bool → World → Part
set_flag key on w = stored key (if on then lit "1" else lit "0") w

-- `none`, `custom` and the keys of `LOGIN_BANNERS`
abbrev pub banners : List Text
banners = lit "none" ∷ lit "custom" ∷ lit "dod" ∷ lit "hipaa" ∷ lit "nsa" ∷ []

-- `(payload["login_banner"] or "none").strip().lower()`
abbrev pub given_banner : Text → Text
given_banner b = lower (strip (if is_empty b then lit "none" else b))

unfoldable pub set_banner : Text → World → Part
unfolding text_eq strip lower
set_banner given_text w =
    let b = given_banner given_text in
    if contains banners b
    then stored (lit "login_banner") b w
    else (w, error 400 (lit "invalid login_banner"))

abbrev pub set_title : Text → World → Part
set_title t w = stored (lit "login_banner_custom_title") (take 120 (strip t)) w

abbrev pub set_text : TextField → World → Part
set_text no_text w = stored (lit "login_banner_custom_text") [] w
set_text (text s) w = stored (lit "login_banner_custom_text") (take 8000 s) w
set_text other_type w = (w, error 400 (lit "login_banner_custom_text must be string"))

abbrev pub log_change : World → Part
log_change w = (log_event "admin_auth_settings" "ok" [] w, ok tt)

-- the parts that follow the two on certificates, in their order, and the log line
abbrev pub other_parts : AuthChanges → List (World → Part)
other_parts c =
    put_domains c
    ∷ given c.require_admin_approval (set_flag (lit "require_admin_approval"))
    ∷ given c.allow_registration (set_flag (lit "allow_registration"))
    ∷ given c.login_banner set_banner
    ∷ given c.custom_title set_title
    ∷ given c.custom_text set_text
    ∷ log_change
    ∷ []

-- parts in turn, up to the first that refuses
unfoldable pub run_parts : List (World → Part) → World → Part
run_parts [] w = (w, ok tt)
run_parts (part ∷ parts) w = and_then (part w) (run_parts parts)

-- `admin_set_auth_settings`
unfoldable pub admin_set_auth_settings : Deploy → AuthChanges → World → Part
unfolding run_parts put_mode put_mtls put_domains set_banner
admin_set_auth_settings d c w = run_parts (put_mode d c ∷ put_mtls d c ∷ other_parts c) w
