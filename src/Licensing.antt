-- ===== src/Licensing.antt =====
-- Licenses, build editions and capabilities (backend/licensing.py, backend/build_mode.py and the
-- entitlements of backend/capabilities.py). The check of a license's signature, with the decoding of
-- its payload, is a parameter.
pub mod Laws
use certheim.Base.{
  Bool, List, Option, Text, [], all, contains, false, filter, if◌then◌else◌, is_empty, is_zero, leb,
  lit, ltb, map, nat_eq, none, not, option_eq, some, split_on, strip, text_eq, true, ℕ, ◌&&◌, ◌+◌,
  ◌-◌, ◌/◌, ◌==◌, ◌||◌, ◌∷◌,
}
use certheim.Store.{World, status_eq}
use certheim.Settings.{get_setting}

-- build_mode: the edition of the artifact and whether it is a release
pub record Build : Type 0 where
  pub edition : Text
  pub release : Bool

-- what the environment says: the text of the file that CERTHEIM_LICENSE_FILE names, if it can be
-- read, and CERTHEIM_ENTITLEMENTS
pub record Environment : Type 0 where
  pub license_file : Option Text
  pub entitlements : Option Text

-- the payload of a license whose signature verifies
pub record Payload : Type 0 where
  pub edition : Option Text
  pub entitlements : List Text
  pub expires : Option ℕ
  pub max_domains : Option ℕ

unfoldable pub edition_rank : Build → ℕ
unfolding text_eq
edition_rank b =
    if b.edition == lit "community"
    then 0
    else if b.edition == lit "commercial"
    then 1
    else if b.edition == lit "government"
    then 2
    else 3

abbrev pub build_includes_tier : Build → ℕ → Bool
build_includes_tier b tier = leb tier (edition_rank b)

abbrev pub dev_overrides_allowed : Build → Bool
dev_overrides_allowed b = not b.release

unfoldable pub raw_license : Environment → World → Text
unfolding strip
raw_license env w = elim env.license_file [
  | some s ↦ strip s
  | none ↦ elim (get_setting (lit "license_blob") w) [ none ↦ [] | some blob ↦ strip blob ]
]

pub record License : Type 0 where
  pub valid : Bool
  pub edition : Text
  pub entitlements : List Text
  pub max_domains : ℕ
  pub expires : Option ℕ

-- `_community`
abbrev pub community : License
community = record {
  valid = false;
  edition = lit "community";
  entitlements = [];
  max_domains = 0;
  expires = none;
}

-- `exp and now > exp`
abbrev pub is_over : ℕ → Option ℕ → Bool
is_over now none = false
is_over now (some t) = not (is_zero t) && ltb t now

-- `p.get("edition") or "commercial"`
abbrev pub edition_of : Option Text → Text
edition_of none = lit "commercial"
edition_of (some e) = if is_empty e then lit "commercial" else e

abbrev pub domains_of : Option ℕ → ℕ
domains_of none = 0
domains_of (some n) = n

-- `info`
unfoldable pub info : (Text → Option Payload) → Environment → ℕ → World → License
info verify env now w =
    let blob = raw_license env w in
    if is_empty blob then community else elim (verify blob) [
      | none ↦ community
      | some p ↦ if is_over now p.expires then community else record {
        valid = true;
        edition = edition_of p.edition;
        entitlements = p.entitlements;
        max_domains = domains_of p.max_domains;
        expires = p.expires;
      }
    ]

abbrev pub commercial_capabilities : List Text
commercial_capabilities =
    lit "ca.signing.openbao"
    ∷ lit "ca.signing.windows_ca"
    ∷ lit "ca.signing.cyberark"
    ∷ lit "ca.signing.ejbca"
    ∷ lit "ca.signing.venafi"
    ∷ lit "ca.signing.aws_pca"
    ∷ lit "ca.server.acme"
    ∷ lit "delivery.openbao"
    ∷ lit "delivery.ssh"
    ∷ lit "delivery.pull"
    ∷ lit "delivery.k8s"
    ∷ lit "delivery.webhook"
    ∷ lit "delivery.cyberark"
    ∷ lit "lifecycle.auto_renew"
    ∷ lit "integrations.chat"
    ∷ lit "integrations.slack.interactive"
    ∷ lit "notify.email.api"
    ∷ []

abbrev pub government_capabilities : List Text
government_capabilities = lit "profiles.public_sector" ∷ lit "auth.cac" ∷ []

-- whether a key is in LICENSED_CAPABILITIES
unfoldable pub is_licensed : Text → Bool
unfolding text_eq
is_licensed key = contains commercial_capabilities key || contains government_capabilities key

-- whether `edition_capabilities(edition)` has a key
unfoldable pub edition_grants : Text → Text → Bool
unfolding text_eq
edition_grants edition key =
    contains (lit "commercial" ∷ lit "unlimited" ∷ lit "government" ∷ []) edition
      && contains commercial_capabilities key
    || edition == lit "government" && contains government_capabilities key

unfoldable pub cap_build_tier : Text → ℕ
unfolding text_eq
cap_build_tier key =
    if contains government_capabilities key
    then 2
    else if contains commercial_capabilities key
    then 1
    else 0

-- CAPABILITY_EQUIVALENTS
unfoldable pub resolve_alias : Text → Text
unfolding text_eq
resolve_alias key = if key == lit "ca.signing.hsm" then lit "crypto.hsm" else key

-- `_entitlements`
unfoldable pub env_entitlements : Environment → Option (List Text)
unfolding strip split_on
env_entitlements env = elim env.entitlements [
  | none ↦ none
  | some s ↦
      if is_empty s
      then none
      else some (filter (λ x. not (is_empty x)) (map strip (split_on b',' s)))
]

-- an override that names the key or everything
abbrev pub names_key : Option (List Text) → Text → Bool
names_key none key = false
names_key (some ent) key = contains ent (lit "*") || contains ent key

abbrev pub unset_or_names : Option (List Text) → Text → Bool
unset_or_names none key = true
unset_or_names (some ent) key = contains ent (lit "*") || contains ent key

-- the license's grant
abbrev pub license_grants : License → Text → Bool
license_grants i key = i.valid && (edition_grants i.edition key || contains i.entitlements key)

unfoldable pub is_entitled : (Text → Option Payload) → Build → Environment → ℕ → World → Text → Bool
unfolding text_eq
is_entitled verify b env now w raw =
    let key = resolve_alias raw in
    if is_licensed key
    then (if not (build_includes_tier b (cap_build_tier key))
        then false
        else if dev_overrides_allowed b && names_key (env_entitlements env) key
        then true
        else license_grants (info verify env now w) key)
    else unset_or_names (env_entitlements env) key

abbrev pub max_domains : (Text → Option Payload) → Environment → ℕ → World → ℕ
max_domains verify env now w = (info verify env now w).max_domains

-- `expiry_notice`: the days that are left, rounded up
unfoldable pub expiry_notice : (Text → Option Payload) → Environment → ℕ → ℕ → World → Option ℕ
expiry_notice verify env now within_days w =
    let i = info verify env now w in
    if not i.valid then none else elim i.expires [
      | none ↦ none
      | some t ↦
          let days_left = (t - now + 86399) / 86400 in
          if is_zero t then none else if ltb within_days days_left then none else some days_left
    ]

-- CAPABILITIES: what each capability needs of the environment
abbrev capabilities : List (Text × List Text)
capabilities =
    (lit "auth.local", [])
    ∷ (lit "auth.cac", [])
    ∷ (lit "notify.email.smtp", [])
    ∷ (lit "notify.email.api", lit "egress_internet" ∷ [])
    ∷ (lit "integrations.webhooks", [])
    ∷ (lit "integrations.chat", lit "egress_internet" ∷ [])
    ∷ (lit "integrations.slack.interactive", lit "egress_internet" ∷ [])
    ∷ (lit "ca.signing.openbao", lit "openbao" ∷ [])
    ∷ (lit "ca.signing.windows_ca", lit "winca" ∷ [])
    ∷ (lit "ca.signing.cyberark", [])
    ∷ (lit "ca.signing.acme", lit "acme" ∷ [])
    ∷ (lit "ca.signing.ejbca", lit "ejbca" ∷ [])
    ∷ (lit "ca.signing.venafi", lit "venafi" ∷ [])
    ∷ (lit "ca.signing.aws_pca", lit "aws_pca" ∷ [])
    ∷ (lit "ca.server.acme", lit "acme_server" ∷ [])
    ∷ (lit "delivery.openbao", lit "openbao" ∷ [])
    ∷ (lit "delivery.ssh", lit "openbao" ∷ [])
    ∷ (lit "delivery.pull", [])
    ∷ (lit "delivery.k8s", lit "openbao" ∷ [])
    ∷ (lit "delivery.webhook", [])
    ∷ (lit "delivery.cyberark", [])
    ∷ (lit "trust.store", [])
    ∷ (lit "trust.distribute.ssh", lit "openbao" ∷ [])
    ∷ (lit "lifecycle.auto_renew", [])
    ∷ (lit "profiles.public_sector", [])
    ∷ (lit "compliance.airgap", [])
    ∷ []

unfoldable pub needs_of : Text → List (Text × List Text) → Option (List Text)
unfolding text_eq
needs_of key [] = none
needs_of key ((k, needs) ∷ rows) =
    let rest = needs_of key rows in if k == key then some needs else rest

-- `available`: `env_caps` is what the detection of the environment found
unfoldable pub available :
    (Text → Option Payload) → Build → Environment → (Text → Bool) → ℕ → World → Text → Bool
unfolding needs_of
available verify b env env_caps now w key = elim (needs_of key capabilities) [
  | none ↦ false
  | some needs ↦ is_entitled verify b env now w key && all env_caps needs
]
