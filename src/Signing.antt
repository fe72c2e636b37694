-- ===== src/Signing.antt =====
-- The signing policy of a job and the one way to a signature (backend/app.py,
-- resolve_signing_policy; backend/routes_signing.py, _ttl_bounds; backend/sign.py, sign_csr and
-- revoke_cert). The certificate authorities are parameters.
pub mod Laws
use certheim.Base.{
  Bool, List, Option, Text, [], all, contains, false, find, has_infix, if◌then◌else◌, is_digit,
  is_empty, is_zero, lit, max_ℤ, min_ℤ, nat_eq, negsuc, none, not, option_eq, parse_int, pos, some,
  strip, text_eq, ℕ, ℤ, ◌&&◌, ◌*◌, ◌++◌, ◌==◌, ◌||◌, ◌∷◌,
}
use certheim.Store.{Template, World, status_eq, strip_or_none}
use certheim.Settings.{get_setting, setting_or}
use certheim.Domains.Quota.{Quota, enforce_domain_quota, exceeded, within}

pub record Policy : Type 0 where
  pub signer_backend : Text
  pub openbao_role : Option Text
  pub max_ttl : Option ℤ
  pub auto_sign : Bool

abbrev text_or_blank : Option Text → Text
text_or_blank none = []
text_or_blank (some s) = s

-- `(s or "").strip() or None`
abbrev role_or_none : Option Text → Option Text
role_or_none s = strip_or_none (text_or_blank s)

abbrev default_role : World → Option Text
default_role w = role_or_none (get_setting (lit "openbao_default_role") w)

global_policy : World → Policy
unfolding strip text_eq
global_policy w = record {
  signer_backend = setting_or (lit "signing_default_backend") (lit "manual") w;
  openbao_role = default_role w;
  max_ttl = elim (get_setting (lit "signing_max_ttl") w) [
    | none ↦ none
    | some ttl ↦ if is_empty ttl then none else parse_int ttl
  ];
  auto_sign = false;
}

-- the template's own policy, where it opts into a backend
template_policy : World → Template → Policy
unfolding strip text_eq global_policy
template_policy w t =
    let backend = text_or_blank t.signer_backend in
    if backend == [] || backend == lit "manual" then global_policy w else record {
      signer_backend = backend;
      openbao_role = elim (role_or_none t.openbao_role) [
        | none ↦ default_role w
        | some role ↦ some role
      ];
      max_ttl = t.max_ttl;
      auto_sign = t.auto_sign;
    }

unfoldable pub resolve_signing_policy : Option ℕ → World → Policy
unfolding template_policy global_policy nat_eq
resolve_signing_policy none w = global_policy w
resolve_signing_policy (some template_id) w =
    if is_zero template_id
    then global_policy w
    else elim (find (λ t. t.id == template_id) w.templates) [
      | none ↦ global_policy w
      | some t ↦ template_policy w t
    ]

abbrev pub min_sign_ttl : ℤ
min_sign_ttl = pos 1800

abbrev pub default_max_sign_ttl : ℤ
default_max_sign_ttl = pos (365 * 86400)

-- `(g or "").strip().isdigit()` and `int(g)`, else one year
global_cap : World → ℤ
unfolding strip is_digit
global_cap w =
    let g = strip (text_or_blank (get_setting (lit "signing_max_ttl") w)) in
    if not (is_empty g) && all is_digit g
    then elim (parse_int g) [ none ↦ default_max_sign_ttl | some n ↦ n ]
    else default_max_sign_ttl

-- `x or y` of a number that may be missing
abbrev ttl_or : Option ℤ → ℤ → ℤ
ttl_or none y = y
ttl_or (some (pos n)) y = if is_zero n then y else pos n
ttl_or (some (negsuc n)) y = negsuc n

-- `_ttl_bounds`: the least, the greatest and the default lifetime, in seconds
unfoldable pub ttl_bounds : Option ℤ → World → ℤ × ℤ × ℤ
unfolding global_cap
ttl_bounds max_ttl w =
    let cap = max_ℤ (ttl_or max_ttl (global_cap w)) min_sign_ttl in
    (min_sign_ttl, cap, max_ℤ min_sign_ttl (min_ℤ (ttl_or max_ttl cap) cap))

pub data CaAnswer : Type 0 where
  issued_by_ca : Text → Text → CaAnswer
  ca_error : Text → CaAnswer

-- What this installation may do, and the services it reaches.
pub record Deploy : Type 0 where
  pub available : Text → Bool
  pub is_entitled : Text → Bool
  pub max_domains : ℕ
  -- MAX_CSR_BYTES and MAX_CERT_BYTES, read from the environment
  pub max_csr_bytes : ℕ
  pub max_cert_bytes : ℕ
  -- the CN and the DNS names that `openssl req -text` prints
  pub csr_names : Text → List Text
  -- a backend by its name asked to sign a CSR under a policy
  pub ca_sign : Text → Policy → Text → CaAnswer
  -- a backend asked to revoke a serial: its answer's time, or an error
  pub ca_revoke : Text → Text → Option (Option ℕ)

pub data Signed : Type 0 where
  signed : Text → Text → Signed
  unavailable : Text → Signed
  sign_error : Text → Signed

abbrev signed_of : CaAnswer → Signed
signed_of (issued_by_ca cert chain) = signed cert chain
signed_of (ca_error e) = sign_error e

abbrev pub known_backends : List Text
known_backends =
    lit "openbao" ∷ lit "windows_ca" ∷ lit "acme" ∷ lit "ejbca" ∷ lit "venafi" ∷ lit "aws_pca" ∷ []

-- The backend's turn, once the quota has let the CSR through. The CyberArk provider is not written
-- yet and always raises.
dispatch : Deploy → Text → Policy → Text → Signed
unfolding text_eq
dispatch d backend template csr_pem =
    if backend == lit "cyberark"
    then sign_error (lit "the CyberArk signing API integration is not built")
    else if contains known_backends backend
    then signed_of (d.ca_sign backend template csr_pem)
    else sign_error (lit "unknown signer_backend: " ++ backend)

-- the backend that `sign_csr` reads from a policy
abbrev pub backend_of : Policy → Text
backend_of template =
    strip (if is_empty template.signer_backend then lit "manual" else template.signer_backend)

-- `sign_csr`; the write of the licensed set is taken to succeed
unfoldable pub sign_csr : Deploy → Text → Policy → World → World × Signed
unfolding dispatch text_eq
sign_csr d csr_pem template w =
    let backend = backend_of template in
    if backend == lit "manual"
    then (w, unavailable (lit "manual signing - use the cert-upload path"))
    else if not (d.is_entitled (lit "ca.signing." ++ backend))
    then (w, unavailable (backend ++ lit " signing requires a Certheim license"))
    else if is_empty csr_pem || not (has_infix (lit "REQUEST") csr_pem)
    then (w, sign_error (lit "no CSR to sign"))
    else elim (enforce_domain_quota (d.csr_names csr_pem) w.licensed d.max_domains) [
      | Quota.exceeded offending ↦ (w, sign_error (lit "license domain limit reached"))
      | Quota.within s ↦ (record w { licensed = s }, dispatch d backend template csr_pem)
    ]
