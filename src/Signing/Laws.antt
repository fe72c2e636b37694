-- ===== src/Signing/Laws.antt =====
-- Theorems on the signing policy, the lifetime bounds and sign_csr (backend/app.py,
-- backend/routes_signing.py, backend/sign.py).
use certheim.Domains.Quota.Laws.{quota_passes_again}
use certheim.Domains.Quota.{Quota, enforce_domain_quota, exceeded, within}
use certheim.Base.{
  IsSetList, List, Option, Option-cases, Text, ap, arith, find, inl, inr, lit, nat_eq, none,
  option_eq, pos, refl, some, sym, text_eq, true, ℕ, ℤ, ◌++◌, ◌==◌, ◌∙◌, ◌≡◌, ◌≢◌, ◌≤ℤ◌, ◌⊎◌,
}
use certheim.Store.{Template, World, status_eq}
use certheim.Signing.{
  CaAnswer, Deploy, Policy, backend_of, ca_error, dispatch, issued_by_ca, resolve_signing_policy,
  sign_csr, signed, signed_of, template_policy, ttl_bounds,
}

-- The least lifetime is 30 minutes, the default lies between the least and the greatest.
pub ttl_bounds_ordered :
    (max_ttl : Option ℤ) (w : World)
    → let (lo, hi, default) = ttl_bounds max_ttl w in
      (lo ≡ pos 1800) × (lo ≤ℤ default) × (default ≤ℤ hi)
unfolding ttl_bounds
ttl_bounds_ordered max_ttl w = ground arith

-- A policy signs by itself only if the job names a template that is there, opts into a backend
-- other than manual, and asks for it.
pub record AutoSigns (template_id : Option ℕ) (w : World) : Type 0 where
  pub number : ℕ
  pub template : Template
  pub named : template_id ≡ some number
  pub stored : find (λ t. t.id == number) w.templates ≡ some template
  pub automated : (template.signer_backend ≢ none) × (template.signer_backend ≢ some (lit "manual"))
  pub asked : template.auto_sign ≡ true

template_policy-auto_sign :
    (w : World) (t : Template)
    → (template_policy w t).auto_sign ≡ true
    → (t.signer_backend ≢ none) × (t.signer_backend ≢ some (lit "manual")) × (t.auto_sign ≡ true)
unfolding template_policy
template_policy-auto_sign w t h = (λ e. ground arith, λ e. ground arith, ground arith)

pub auto_sign-AutoSigns :
    (template_id : Option ℕ) (w : World)
    → (resolve_signing_policy template_id w).auto_sign ≡ true
    → AutoSigns template_id w
unfolding resolve_signing_policy
auto_sign-AutoSigns none w h = absurd (ground arith)
auto_sign-AutoSigns (some template_id) w h =
    elim (Option-cases (find (λ t. t.id == template_id) w.templates)) [
      | inl missing ↦ absurd (ground arith)
      | inr (t, found) ↦
          let auto : (template_policy w t).auto_sign ≡ true = ground arith in
          let (some_backend, not_manual, asked) = template_policy-auto_sign w t auto in
          record {
            number = template_id;
            template = t;
            named = refl;
            stored = found;
            automated = (some_backend, not_manual);
            asked = asked;
          }
    ]

-- A signed certificate comes only from an entitled, automated backend, for a CSR that the quota let
-- through with the licensed set that is stored.
pub signed_requires :
    (d : Deploy) (csr : Text) (template : Policy) (w : World) {cert chain : Text}
    → (sign_csr d csr template w).1 ≡ signed cert chain
    → (backend_of template ≢ lit "manual")
      × (d.is_entitled (lit "ca.signing." ++ backend_of template) ≡ true)
      × (enforce_domain_quota (d.csr_names csr) w.licensed d.max_domains
          ≡ within (sign_csr d csr template w).0.licensed)
unfolding sign_csr
signed_requires d csr template w h = (ground arith, ground arith, ground arith)

-- What the authority answers does not reach the stored data.
sign_csr-any_answer :
    (d : Deploy) (answer : Text → Policy → Text → CaAnswer) (csr : Text) (template : Policy)
    (w : World)
    → (sign_csr (record d { ca_sign = answer }) csr template w).0 ≡ (sign_csr d csr template w).0
unfolding sign_csr
sign_csr-any_answer d answer csr template w = ground arith

Quota-cases :
    (q : Quota) → ((s : List Text) × (q ≡ within s)) ⊎ ((ds : List Text) × (q ≡ exceeded ds))
Quota-cases (within s) = inl (s, refl)
Quota-cases (exceeded ds) = inr (ds, refl)

stored_or_kept :
    (d : Deploy) (csr : Text) (template : Policy) (w : World) (s : List Text)
    → enforce_domain_quota (d.csr_names csr) w.licensed d.max_domains ≡ within s
    → ((sign_csr d csr template w).0 ≡ w)
      ⊎ ((sign_csr d csr template w).0 ≡ record w { licensed = s })
unfolding sign_csr
stored_or_kept d csr template w s fits = ground arith

-- the licensed set after the quota check of a signing
licensed-sign_csr :
    (d : Deploy) (csr : Text) (template : Policy) (w : World)
    → ((sign_csr d csr template w).0 ≡ w)
      ⊎ ((s : List Text) × (enforce_domain_quota (d.csr_names csr) w.licensed d.max_domains
            ≡ within s)
          × ((sign_csr d csr template w).0 ≡ record w { licensed = s }))
unfolding sign_csr
licensed-sign_csr d csr template w =
    elim (Quota-cases (enforce_domain_quota (d.csr_names csr) w.licensed d.max_domains)) [
      | inl (s, fits) ↦ elim (stored_or_kept d csr template w s fits) [
        | inl same ↦ inl same
        | inr stored ↦ inr (s, fits, stored)
      ]
      | inr (offending, over) ↦ inl (ground arith)
    ]

sign_csr-fitting :
    (d : Deploy) (csr : Text) (template : Policy) (w : World)
    → enforce_domain_quota (d.csr_names csr) w.licensed d.max_domains ≡ within w.licensed
    → (sign_csr d csr template w).0 ≡ w
unfolding sign_csr
sign_csr-fitting d csr template w fits = ground arith

-- A second signing of a CSR stores nothing more.
sign_csr-again :
    (d : Deploy) (csr : Text) (template : Policy) (w : World)
    → IsSetList w.licensed
    → (sign_csr d csr template (sign_csr d csr template w).0).0 ≡ (sign_csr d csr template w).0
sign_csr-again d csr template w once = elim (licensed-sign_csr d csr template w) [
  | inl same ↦ ap (λ v. (sign_csr d csr template v).0) same
  | inr (s, fits, stored) ↦
      let again = quota_passes_again (d.csr_names csr) w.licensed d.max_domains s fits once in
      ap (λ v. (sign_csr d csr template v).0) stored
      ∙ sign_csr-fitting d csr template (record w { licensed = s }) again
      ∙ sym stored
]

pub sign_csr-claims :
    (d : Deploy) (answer : Text → Policy → Text → CaAnswer) (csr : Text) (template : Policy)
    (w : World)
    → IsSetList w.licensed
    → ((sign_csr (record d { ca_sign = answer }) csr template w).0 ≡ (sign_csr d csr template w).0)
      × ((sign_csr (record d { ca_sign = answer }) csr template (sign_csr d csr template w).0).0
          ≡ (sign_csr d csr template w).0)
sign_csr-claims d answer csr template w once = (
  sign_csr-any_answer d answer csr template w,
  sign_csr-any_answer d answer csr template (sign_csr d csr template w).0
      ∙ sign_csr-again d csr template w once,
)

signed_of-signed :
    (a : CaAnswer) {cert chain : Text}
    → signed_of a ≡ signed cert chain
    → a ≡ issued_by_ca cert chain
signed_of-signed (issued_by_ca c ch) h = ground arith
signed_of-signed (ca_error e) h = absurd (ground arith)

-- A signature is the authority's answer to the CSR under the policy.
pub sign_csr-asked :
    (d : Deploy) (csr : Text) (template : Policy) (w : World) {cert chain : Text}
    → (sign_csr d csr template w).1 ≡ signed cert chain
    → d.ca_sign (backend_of template) template csr ≡ issued_by_ca cert chain
unfolding sign_csr dispatch
sign_csr-asked d csr template w h =
    signed_of-signed (d.ca_sign (backend_of template) template csr) (ground arith)
