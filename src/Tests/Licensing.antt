-- ===== src/Tests/Licensing.antt =====
-- A Community build with a government license, and a commercial release.
use certheim.Domains.Quota.{enforce_domain_quota}
use certheim.Base.{
  Bool, Option, Text, [], false, has_infix, lit, none, refl, some, strip, true, zero, ℕ, ◌*◌, ◌++◌,
  ◌+◌, ◌-◌, ◌<◌, ◌↔◌, ◌∷◌, ◌≡◌, ◌≤◌,
}
use certheim.Licensing.{
  Build, Environment, Payload, cap_build_tier, edition_grants, edition_rank, env_entitlements,
  expiry_notice, info, is_entitled, is_licensed, license_grants, raw_license, resolve_alias,
}
use certheim.Licensing.Laws.{
  community_never_auto_signs, community_signs_free, expiry_notice_rounds_up, licensed_deploy,
  release_needs_license,
}
use certheim.Signing.{Policy, backend_of, sign_csr, signed}
use certheim.Requests.AutoSign.{auto_sign_jobs}
use certheim.Tests.Fixtures.{alice, pending_id, test_deploy, test_ssl, test_world}

-- every blob is a government license for the day 864000
abbrev verify_any : Text → Option Payload
verify_any blob = some (record {
  edition = some (lit "government");
  entitlements = [];
  expires = some 864000;
  max_domains = none;
})

abbrev licensed_env : Environment
licensed_env = record { license_file = some (lit "payload.signature"); entitlements = none }

abbrev unlocked_env : Environment
unlocked_env = record licensed_env { entitlements = some (lit "*") }

abbrev community_build : Build
community_build = record { edition = lit "community"; release = false }

abbrev commercial_release : Build
commercial_release = record { edition = lit "commercial"; release = true }

abbrev all_caps : Text → Bool
all_caps c = true

openbao-is_licensed : is_licensed (resolve_alias (lit "ca.signing.openbao")) ≡ true
unfolding is_licensed resolve_alias
openbao-is_licensed = refl

openbao-on :
    is_entitled verify_any commercial_release licensed_env 100 test_world (lit "ca.signing.openbao")
    ≡ true
unfolding is_entitled is_licensed resolve_alias cap_build_tier edition_rank info raw_license
    edition_grants
openbao-on = refl

release_needs_license_example :
    (cap_build_tier (resolve_alias (lit "ca.signing.openbao")) ≤ edition_rank commercial_release)
    × ((info verify_any licensed_env 100 test_world).valid ≡ true)
    × (license_grants
          (info verify_any licensed_env 100 test_world)
          (resolve_alias (lit "ca.signing.openbao"))
        ≡ true)
release_needs_license_example =
    release_needs_license verify_any commercial_release licensed_env 100 test_world
      (lit "ca.signing.openbao") refl openbao-is_licensed openbao-on

ten_days-left : expiry_notice verify_any licensed_env 100 30 test_world ≡ some 10
unfolding expiry_notice info raw_license
ten_days-left = refl

-- At the second of its expiry the license is valid and has no days left.
no_days-left : expiry_notice verify_any licensed_env 864000 30 test_world ≡ some 0
unfolding expiry_notice info raw_license
no_days-left = refl

expiry_notice_rounds_up_example :
    ((info verify_any licensed_env 864000 test_world).valid ≡ true)
    × (0 ≤ 30)
    × ((t : ℕ) × ((info verify_any licensed_env 864000 test_world).expires ≡ some t)
        × (864000 ≤ t)
        × (t - 864000 ≤ 0 * 86400)
        × (0 * 86400 < t - 864000 + 86400)
        × ((zero ≡ zero) ↔ (864000 ≡ t)))
expiry_notice_rounds_up_example =
    expiry_notice_rounds_up verify_any licensed_env 864000 test_world 30 0 no_days-left

abbrev acme_policy : Policy
acme_policy = record {
  signer_backend = lit "acme";
  openbao_role = none;
  max_ttl = none;
  auto_sign = true;
}

community-rank : edition_rank community_build ≡ 0
unfolding edition_rank
community-rank = refl

acme-signed :
    (sign_csr
      (licensed_deploy verify_any community_build licensed_env all_caps 100 test_world test_deploy)
      (lit "CERTIFICATE REQUEST")
      acme_policy
      test_world).1
    ≡ signed (lit "K") []
unfolding sign_csr strip is_entitled is_licensed resolve_alias env_entitlements has_infix
    enforce_domain_quota info raw_license
acme-signed = refl

community_signs_free_example :
    is_licensed (resolve_alias (lit "ca.signing." ++ backend_of acme_policy)) ≡ false
community_signs_free_example =
    community_signs_free verify_any community_build licensed_env all_caps 100 test_world test_deploy
      (lit "CERTIFICATE REQUEST") acme_policy community-rank acme-signed

community_never_auto_signs_example :
    auto_sign_jobs test_ssl
      (licensed_deploy verify_any community_build licensed_env all_caps 100 test_world test_deploy)
      alice
      (pending_id ∷ [])
      (some 7)
      test_world
    ≡ test_world
community_never_auto_signs_example =
    community_never_auto_signs verify_any community_build licensed_env all_caps 100 test_world
      test_ssl test_deploy alice (pending_id ∷ []) (some 7) test_world community-rank
