-- ===== src/Tests/Signing.antt =====
-- Runs of the signing policy, the quota and the settings, and the theorems at them.
use certheim.Domains.{registrable_domain}
use certheim.Base.{
  IsSetList, List, Text, [], arith, has_infix, lit, nat_eq, none, option_eq, pos, refl, some, strip,
  subset, text_eq, true, ◌++◌, ◌∷◌, ◌≡◌, ◌≢◌, ◌≤ℤ◌,
}
use certheim.Store.{World}
use certheim.Domains.Quota.{csr_domains, enforce_domain_quota, within}
use certheim.Domains.Quota.Laws.{IsWithin, quota_sound}
use certheim.Tests.Fixtures.{test_deploy, test_world}
use certheim.Signing.{
  CaAnswer, Policy, backend_of, ca_error, resolve_signing_policy, sign_csr, signed, ttl_bounds,
}
use certheim.Signing.Laws.{
  AutoSigns, auto_sign-AutoSigns, sign_csr-claims, signed_requires, ttl_bounds_ordered,
}

abbrev two_names : List Text
two_names = lit "www.example.org" ∷ lit "*.shop.example.co.uk" ∷ []

abbrev licensed : List Text
licensed = lit "example.org" ∷ []

abbrev licensed_then : List Text
licensed_then = lit "example.org" ∷ lit "example.co.uk" ∷ []

licensed-IsSetList : IsSetList licensed
licensed-IsSetList = (refl, tt)

example_org-old : subset (csr_domains (lit "www.example.org" ∷ [])) licensed ≡ true
unfolding csr_domains registrable_domain
example_org-old = refl

two_names-within : enforce_domain_quota two_names licensed 2 ≡ within licensed_then
unfolding enforce_domain_quota csr_domains registrable_domain
two_names-within = refl

quota_sound_example : IsWithin two_names licensed 2 licensed_then
quota_sound_example =
    quota_sound two_names licensed 2 licensed_then two_names-within (omega arith) licensed-IsSetList

abbrev test_policy : Policy
test_policy = record {
  signer_backend = lit "openbao";
  openbao_role = none;
  max_ttl = some (pos 86400);
  auto_sign = true;
}

abbrev test_csr : Text
test_csr = lit "CERTIFICATE REQUEST"

test_csr-signed : (sign_csr test_deploy test_csr test_policy test_world).1 ≡ signed (lit "K") []
unfolding sign_csr strip has_infix enforce_domain_quota csr_domains registrable_domain
test_csr-signed = refl

signed_requires_example :
    (backend_of test_policy ≢ lit "manual")
    × (test_deploy.is_entitled (lit "ca.signing." ++ backend_of test_policy) ≡ true)
    × (enforce_domain_quota
          (test_deploy.csr_names test_csr)
          test_world.licensed
          test_deploy.max_domains
        ≡ within (sign_csr test_deploy test_csr test_policy test_world).0.licensed)
signed_requires_example =
    signed_requires test_deploy test_csr test_policy test_world test_csr-signed

template-auto : (resolve_signing_policy (some 7) test_world).auto_sign ≡ true
unfolding resolve_signing_policy
template-auto = refl

auto_sign-AutoSigns_example : AutoSigns (some 7) test_world
auto_sign-AutoSigns_example = auto_sign-AutoSigns (some 7) test_world template-auto

ttl_bounds_ordered_example :
    let (lo, hi, default) = ttl_bounds (some (pos 60)) test_world in
    (lo ≡ pos 1800) × (lo ≤ℤ default) × (default ≤ℤ hi)
ttl_bounds_ordered_example = ttl_bounds_ordered (some (pos 60)) test_world

-- no domain is licensed yet
abbrev empty_world : World
empty_world = record test_world { licensed = [] }

-- an authority that answers every CSR with an error
abbrev refuses : Text → Policy → Text → CaAnswer
refuses backend policy csr = ca_error (lit "down")

sign_csr-claims_example :
    ((sign_csr (record test_deploy { ca_sign = refuses }) test_csr test_policy empty_world).0
      ≡ (sign_csr test_deploy test_csr test_policy empty_world).0)
    × ((sign_csr
          (record test_deploy { ca_sign = refuses })
          test_csr
          test_policy
          (sign_csr test_deploy test_csr test_policy empty_world).0).0
        ≡ (sign_csr test_deploy test_csr test_policy empty_world).0)
sign_csr-claims_example = sign_csr-claims test_deploy refuses test_csr test_policy empty_world tt

-- A refusal of the only domain of the CSR leaves it licensed.
refusal_claims :
    (sign_csr
      (record test_deploy { ca_sign = refuses })
      test_csr
      test_policy
      empty_world).0.licensed
    ≡ licensed
unfolding sign_csr strip has_infix enforce_domain_quota csr_domains registrable_domain
refusal_claims = refl
