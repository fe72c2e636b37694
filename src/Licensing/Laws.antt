-- ===== src/Licensing/Laws.antt =====
-- Theorems on entitlements, on signing under them, and on the renewal notice (backend/licensing.py,
-- backend/capabilities.py).
use certheim.Crypto.{Openssl}
use certheim.Requests.AutoSign.{auto_sign_jobs}
use certheim.Signing.Laws.{signed_requires}
use certheim.Signing.{Deploy, Policy, backend_of, sign_csr, signed}
use certheim.Base.{
  Bool, Bool-cases, List, Option, Option-cases, Text, arith, false, inl, inr, is_zero, lit, refl,
  some, true, ℕ, ◌*◌, ◌++◌, ◌+◌, ◌-◌, ◌<◌, ◌↔◌, ◌≡◌, ◌≤◌,
}
use certheim.Store.{Request, World}
use certheim.Licensing.{
  Build, Environment, Payload, available, cap_build_tier, capabilities, edition_rank, expiry_notice,
  info, is_entitled, is_licensed, is_over, license_grants, max_domains, needs_of, raw_license,
  resolve_alias,
}

module _ (verify : Text → Option Payload) (b : Build) (env : Environment) (now : ℕ)
    (w : World) where
  -- No license and no setting of the environment enables a licensed capability of a tier above the
  -- build's own.
  is_entitled_ceiling :
      (key : Text)
      → is_licensed (resolve_alias key) ≡ true
      → edition_rank b < cap_build_tier (resolve_alias key)
      → is_entitled verify b env now w key ≡ false
  unfolding is_entitled
  is_entitled_ceiling key licensed above = ground arith

  -- In a release build a licensed capability is on only if the build has its tier and a license that
  -- is valid now grants it.
  pub release_needs_license :
      (key : Text)
      → b.release ≡ true
      → is_licensed (resolve_alias key) ≡ true
      → is_entitled verify b env now w key ≡ true
      → (cap_build_tier (resolve_alias key) ≤ edition_rank b)
        × ((info verify env now w).valid ≡ true)
        × (license_grants (info verify env now w) (resolve_alias key) ≡ true)
  unfolding is_entitled
  release_needs_license key release licensed on = (ground arith, ground arith, ground arith)

module _ (verify : Text → Option Payload) (env : Environment) (now : ℕ) (w : World) where
  -- A license that is valid has not run out.
  info-live :
      (t : ℕ)
      → (info verify env now w).valid ≡ true
      → (info verify env now w).expires ≡ some t
      → is_zero t ≡ false
      → now ≤ t
  unfolding info
  info-live t valid at real = elim (Option-cases (verify (raw_license env w))) [
    | inl none_verified ↦ absurd (ground arith)
    | inr (p, verified) ↦
        let live : is_over now p.expires ≡ false = ground arith in
        let same : p.expires ≡ some t = ground arith in ground arith
  ]

  -- A renewal notice comes only for a valid license that expires at most the given days ahead. Its
  -- count is the days that are left, rounded up, and it is zero exactly at the time of the expiry,
  -- when the license is still valid.
  pub expiry_notice_rounds_up :
      (within_days days_left : ℕ)
      → expiry_notice verify env now within_days w ≡ some days_left
      → ((info verify env now w).valid ≡ true)
        × (days_left ≤ within_days)
        × ((t : ℕ) × ((info verify env now w).expires ≡ some t)
            × (now ≤ t)
            × (t - now ≤ days_left * 86400)
            × (days_left * 86400 < t - now + 86400)
            × ((days_left ≡ 0) ↔ (now ≡ t)))
  unfolding expiry_notice
  expiry_notice_rounds_up within_days days_left h =
      elim (Option-cases (info verify env now w).expires) [
        | inl perpetual ↦ absurd (ground arith)
        | inr (t, e) ↦
            let valid : (info verify env now w).valid ≡ true = ground arith in
            let live = info-live t valid e (ground arith) in
            let upper : t - now ≤ days_left * 86400 = ground arith in
            let lower : days_left * 86400 < t - now + 86400 = ground arith in
            (
              valid,
              ground arith,
              (
                t,
                e,
                live,
                upper,
                lower,
                ((λ z. omega (arith, z, upper, live)), (λ z. omega (arith, z, lower))),
              ),
            )
      ]

licensed_tier : (key : Text) → is_licensed key ≡ true → 0 < cap_build_tier key
unfolding is_licensed cap_build_tier
licensed_tier key h = ground arith

-- what signing asks of the installation, answered by its build, environment and license
abbrev pub licensed_deploy :
    (Text → Option Payload) → Build → Environment → (Text → Bool) → ℕ → World → Deploy → Deploy
licensed_deploy verify b env env_caps now w d = record d {
  available = available verify b env env_caps now w;
  is_entitled = is_entitled verify b env now w;
  max_domains = max_domains verify env now w;
}

-- A Community build never signs through a licensed backend, whatever license is installed and
-- whatever the environment says.
pub community_signs_free :
    (verify : Text → Option Payload) (b : Build) (env : Environment) (env_caps : Text → Bool)
    (now : ℕ) (w : World) (d : Deploy) (csr : Text) (policy : Policy) {cert chain : Text}
    → edition_rank b ≡ 0
    → (sign_csr (licensed_deploy verify b env env_caps now w d) csr policy w).1 ≡ signed cert chain
    → is_licensed (resolve_alias (lit "ca.signing." ++ backend_of policy)) ≡ false
community_signs_free verify b env env_caps now w d csr policy free h =
    let key = lit "ca.signing." ++ backend_of policy in
    let (automated, entitled, quota) =
      signed_requires (licensed_deploy verify b env env_caps now w d) csr policy w h in
    elim (Bool-cases (is_licensed (resolve_alias key))) [
      | inr other ↦ other
      | inl licensed ↦
          let tier : 0 < cap_build_tier (resolve_alias key) =
            licensed_tier (resolve_alias key) licensed in
          let off : is_entitled verify b env now w key ≡ false =
            is_entitled_ceiling verify b env now w key licensed (omega (arith, free, tier)) in
          absurd (ground arith)
    ]

available-is_entitled :
    (verify : Text → Option Payload) (b : Build) (env : Environment) (env_caps : Text → Bool)
    (now : ℕ) (w : World) (key : Text)
    → available verify b env env_caps now w key ≡ true
    → is_entitled verify b env now w key ≡ true
unfolding available
available-is_entitled verify b env env_caps now w key h =
    elim (Option-cases (needs_of key capabilities)) [
      | inl unknown ↦ absurd (ground arith)
      | inr (needs, known) ↦ ground arith
    ]

openbao_licensed : is_licensed (resolve_alias (lit "ca.signing.openbao")) ≡ true
unfolding is_licensed resolve_alias
openbao_licensed = refl

openbao_tier : cap_build_tier (resolve_alias (lit "ca.signing.openbao")) ≡ 1
unfolding cap_build_tier resolve_alias
openbao_tier = refl

-- In a Community build no job is ever signed automatically, whatever its template's backend is, since
-- the gate of automatic signing asks for the OpenBao capability.
pub community_never_auto_signs :
    (verify : Text → Option Payload) (b : Build) (env : Environment) (env_caps : Text → Bool)
    (now : ℕ) (w : World) (ssl : Openssl) (d : Deploy) (r : Request) (job_ids : List Text)
    (template_id : Option ℕ) (v : World)
    → edition_rank b ≡ 0
    → auto_sign_jobs ssl (licensed_deploy verify b env env_caps now w d) r job_ids template_id v ≡ v
unfolding auto_sign_jobs
community_never_auto_signs verify b env env_caps now w ssl d r job_ids template_id v free =
    let key = lit "ca.signing.openbao" in
    let off : is_entitled verify b env now w key ≡ false =
      is_entitled_ceiling verify b env now w key openbao_licensed
        (omega (arith, free, openbao_tier)) in
    elim (Bool-cases (available verify b env env_caps now w key)) [
      | inl on ↦
          let granted = available-is_entitled verify b env env_caps now w key on in
          absurd (ground arith)
      | inr absent ↦ ground arith
    ]
