-- ===== src/Jobs/Sign.antt =====
-- sign_job and sign_options (backend/routes_signing.py).
pub mod Laws
pub mod Lifetime
use certheim.Signing.{
  Deploy, Policy, Signed, resolve_signing_policy, sign_csr, sign_error, signed, ttl_bounds,
  unavailable,
}
use certheim.Jobs.Ids.{is_job_id}
use certheim.Jobs.Completion.{Completed, Completer, attach_signed_cert, status_name}
use certheim.Crypto.{Openssl}
use certheim.Base.{
  Bool, List, Option, Text, [], contains, if◌then◌else◌, leb_ℤ, lit, min_ℤ, nat_eq, none, not,
  option_eq, some, text_eq, ℤ, ◌++◌, ◌==◌, ◌||◌, ◌∷◌,
}
use certheim.Store.{
  Job, Reply, Request, Status, World, error, is_signer, job_by_id, log_event, ok, pending,
  status_eq,
}

-- the `ttl` of the request body: missing, null or blank; not an integer; or an integer
pub data TtlField : Type 0 where
  unset not_an_integer : TtlField
  seconds : ℤ → TtlField

abbrev pub ttl_backends : List Text
ttl_backends = lit "openbao" ∷ []

pub data Chosen : Type 0 where
  -- the policy to sign under, and the lifetime that was asked for
  chosen : Policy → Option ℤ → Chosen
  bad_ttl : Text → Chosen

-- the lifetime override, clamped to the policy's bounds
unfoldable pub choose_ttl : TtlField → Policy → World → Chosen
unfolding text_eq
choose_ttl unset template w = chosen template none
choose_ttl not_an_integer template w =
    if contains ttl_backends template.signer_backend
    then bad_ttl (lit "ttl must be an integer number of seconds")
    else chosen template none
choose_ttl (seconds n) template w =
    let (lo, hi, default) = ttl_bounds template.max_ttl w in
    if not (contains ttl_backends template.signer_backend)
    then chosen template none
    else if not (leb_ℤ lo n)
    then bad_ttl (lit "ttl must be at least 1800 seconds (30 minutes)")
    else chosen (record template { max_ttl = some (min_ℤ n hi) }) (some (min_ℤ n hi))

pub record Signature : Type 0 where
  pub completed : Completed
  pub signed_via : Text
  pub validity_seconds : Option ℤ

abbrev sign_completer : Request → Text → Text → Completer
sign_completer r backend chain = record {
  actor_dn = r.dn;
  signed_via = backend;
  approver_dn = some r.dn;
  log_action = "sign";
  chain_pem = chain;
}

-- the answer to a completed or refused signature
abbrev sign_reply : Text → Text → Option ℤ → World × Reply Completed → World × Reply Signature
sign_reply job_id backend ttl (w, error code message) = (w, error code message)
sign_reply job_id backend ttl (w, ok done) = (
  log_event "sign" "issued" job_id w,
  ok (record { completed = done; signed_via = backend; validity_seconds = ttl }),
)

-- what follows the backend's answer
unfoldable pub finish_sign :
    Openssl → Request → Text → Text → Option ℤ → World × Signed → World × Reply Signature
finish_sign ssl r job_id backend ttl (w, unavailable message) = (w, error 409 message)
finish_sign ssl r job_id backend ttl (w, sign_error message) =
    (log_event "sign" "backend_error" job_id w, error 502 (lit "signing failed: " ++ message))
finish_sign ssl r job_id backend ttl (w, signed cert chain) =
    sign_reply job_id backend ttl
      (attach_signed_cert ssl r (sign_completer r backend chain) job_id cert w)

-- the signature under a chosen policy
sign_chosen :
    Openssl → Deploy → Request → Text → Text → Job → World → Chosen → World × Reply Signature
unfolding finish_sign
sign_chosen ssl d r job_id backend row w (bad_ttl message) = (w, error 400 message)
sign_chosen ssl d r job_id backend row w (chosen policy ttl) =
    finish_sign ssl r job_id backend ttl (sign_csr d row.csr_pem policy w)

-- the signature of a job whose row is pending
unfoldable pub sign_row :
    Openssl → Deploy → Request → Text → TtlField → Job → World → World × Reply Signature
unfolding text_eq choose_ttl sign_chosen
sign_row ssl d r job_id field row w =
    let template = resolve_signing_policy row.template_id w in
    let backend = template.signer_backend in
    if backend == lit "manual"
    then (w, error 409 (lit "no automated signing backend is configured"))
    else if not (d.available (lit "ca.signing." ++ backend))
    then (w, error 409 (backend ++ lit " signing is not available in this deployment"))
    else sign_chosen ssl d r job_id backend row w (choose_ttl field template w)

unfoldable pub sign_job :
    Openssl → Deploy → Request → Text → TtlField → World → World × Reply Signature
unfolding text_eq status_eq
sign_job ssl d r job_id field w =
    if not (is_job_id job_id)
    then (w, error 400 (lit "invalid job id"))
    else if not (r.is_admin || is_signer r.dn w)
    then (
      log_event "sign" "deny_not_signer" job_id w,
      error 403 (lit "not authorized to sign (signer or admin only)"),
    )
    else elim (job_by_id job_id w) [
      | none ↦ (w, error 404 (lit "job not found"))
      | some row ↦
          if not (row.status == Status.pending)
          then (
            w,
            error 409 (lit "job in status '" ++ status_name row.status ++ lit "', cannot sign"),
          )
          else sign_row ssl d r job_id field row w
    ]

pub record SignOptions : Type 0 where
  pub backend : Text
  pub supports_ttl : Bool
  pub ttl_min : ℤ
  pub ttl_max : ℤ
  pub ttl_default : ℤ

unfoldable pub sign_options : Request → Text → World → Reply SignOptions
unfolding text_eq
sign_options r job_id w =
    if not (is_job_id job_id)
    then error 400 (lit "invalid job id")
    else if not (r.is_admin || is_signer r.dn w)
    then error 403 (lit "not authorized")
    else elim (job_by_id job_id w) [
      | none ↦ error 404 (lit "job not found")
      | some row ↦
          let template = resolve_signing_policy row.template_id w in
          let (lo, hi, default) = ttl_bounds template.max_ttl w in
          ok (record {
            backend = template.signer_backend;
            supports_ttl = contains ttl_backends template.signer_backend;
            ttl_min = lo;
            ttl_max = hi;
            ttl_default = default;
          })
    ]
