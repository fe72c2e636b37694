-- ===== src/Requests/AutoSign.antt =====
-- _auto_sign_jobs (backend/routes_requests.py): jobs issued without an approval.
use certheim.Signing.Laws.{AutoSigns, auto_sign-AutoSigns}
use certheim.Base.{
  Bool, Bool-cases, List, Option, Option-cases, Text, [], arith, if◌then◌else◌, inl, inr, is_empty,
  lit, nat_eq, none, not, option_eq, refl, some, subst, text_eq, ℕ, ◌&&◌, ◌==◌, ◌∷◌, ◌≡◌,
}
use certheim.Store.{Reply, Request, World, error, job_by_id, log_event, ok, status_eq}
use certheim.Signing.{
  Deploy, Policy, Signed, resolve_signing_policy, sign_csr, sign_error, signed, unavailable,
}
use certheim.Crypto.{Openssl}
use certheim.Jobs.Completion.{Completed, Completer, attach_signed_cert}
use certheim.Jobs.Completion.Laws.{attach_signed_cert-Steps}
use certheim.Jobs.Evolution.{Steps, Steps-refl, Steps-trans}
use certheim.Jobs.Sign.Laws.{jobs-sign_csr}

abbrev pub auto_completer : Request → Policy → Text → Completer
auto_completer r policy chain = record {
  actor_dn = r.dn;
  signed_via = policy.signer_backend;
  approver_dn = none;
  log_action = "auto_sign";
  chain_pem = chain;
}

-- the log line of one attempt
abbrev auto_log : Text → World × Reply Completed → World
auto_log job_id (w, ok done) = log_event "auto_sign" "issued" job_id w
auto_log job_id (w, error code message) = log_event "auto_sign" "error" job_id w

unfoldable auto_attach : Openssl → Request → Policy → Text → World × Signed → World
auto_attach ssl r policy job_id (w, signed cert chain) =
    auto_log job_id (attach_signed_cert ssl r (auto_completer r policy chain) job_id cert w)
auto_attach ssl r policy job_id (w, unavailable message) = log_event "auto_sign" "error" job_id w
auto_attach ssl r policy job_id (w, sign_error message) = log_event "auto_sign" "error" job_id w

unfoldable auto_sign_one : Openssl → Deploy → Request → Policy → Text → World → World
unfolding auto_attach
auto_sign_one ssl d r policy job_id w = elim (job_by_id job_id w) [
  | none ↦ log_event "auto_sign" "error" job_id w
  | some row ↦ auto_attach ssl r policy job_id (sign_csr d row.csr_pem policy w)
]

-- the loop over the jobs
unfoldable auto_sign_each : Openssl → Deploy → Request → Policy → List Text → World → World
unfolding auto_sign_one
auto_sign_each ssl d r policy [] w = w
auto_sign_each ssl d r policy (job_id ∷ job_ids) w =
    auto_sign_each ssl d r policy job_ids (auto_sign_one ssl d r policy job_id w)

-- the gate before the loop
abbrev pub signs_itself : Deploy → Policy → Bool
signs_itself d policy =
    policy.auto_sign
    && not (policy.signer_backend == lit "manual")
    && d.available (lit "ca.signing.openbao")

unfoldable pub auto_sign_jobs : Openssl → Deploy → Request → List Text → Option ℕ → World → World
unfolding auto_sign_each
auto_sign_jobs ssl d r job_ids template_id w =
    let policy = resolve_signing_policy template_id w in
    if is_empty job_ids
    then w
    else if not (signs_itself d policy)
    then w
    else auto_sign_each ssl d r policy job_ids w

module _ (ssl : Openssl) (d : Deploy) where
  jobs-auto_log :
      (job_id : Text) (p : World × Reply Completed) → (auto_log job_id p).jobs ≡ p.0.jobs
  jobs-auto_log job_id (w, ok done) = refl
  jobs-auto_log job_id (w, error code message) = refl

  auto_attach-Steps :
      (r : Request) (policy : Policy) (job_id : Text) (s : Signed) (w : World)
      → Steps ssl w.jobs (auto_attach ssl r policy job_id (w, s)).jobs
  unfolding auto_attach
  auto_attach-Steps r policy job_id (signed cert chain) w =
      let c = auto_completer r policy chain in
      rw (jobs-auto_log job_id (attach_signed_cert ssl r c job_id cert w))
        (attach_signed_cert-Steps ssl r c job_id cert w)
  auto_attach-Steps r policy job_id (unavailable message) w = Steps-refl ssl w.jobs
  auto_attach-Steps r policy job_id (sign_error message) w = Steps-refl ssl w.jobs

  auto_sign_one-Steps :
      (r : Request) (policy : Policy) (job_id : Text) (w : World)
      → Steps ssl w.jobs (auto_sign_one ssl d r policy job_id w).jobs
  unfolding auto_sign_one
  auto_sign_one-Steps r policy job_id w = elim (Option-cases (job_by_id job_id w)) [
    | inl missing ↦ rw (missing, auto_sign_one) (Steps-refl ssl w.jobs)
    | inr (row, found) ↦
        let p = sign_csr d row.csr_pem policy w in
        rw (found, auto_sign_one)
          (subst (λ js. Steps ssl js (auto_attach ssl r policy job_id p).jobs)
            (jobs-sign_csr ssl d row.csr_pem policy w) (auto_attach-Steps r policy job_id p.1 p.0))
  ]

  auto_sign_each-Steps :
      (r : Request) (policy : Policy) (job_ids : List Text) (w : World)
      → Steps ssl w.jobs (auto_sign_each ssl d r policy job_ids w).jobs
  unfolding auto_sign_each
  auto_sign_each-Steps r policy [] w = Steps-refl ssl w.jobs
  auto_sign_each-Steps r policy (job_id ∷ job_ids) w =
      let w' = auto_sign_one ssl d r policy job_id w in
      Steps-trans ssl w.jobs w'.jobs (auto_sign_each ssl d r policy job_ids w').jobs
        (auto_sign_one-Steps r policy job_id w) (auto_sign_each-Steps r policy job_ids w')

  pub auto_sign_jobs-Steps :
      (r : Request) (job_ids : List Text) (template_id : Option ℕ) (w : World)
      → Steps ssl w.jobs (auto_sign_jobs ssl d r job_ids template_id w).jobs
  unfolding auto_sign_jobs
  auto_sign_jobs-Steps r job_ids template_id w = ground (
    arith,
    Steps-refl ssl w.jobs,
    auto_sign_each-Steps r (resolve_signing_policy template_id w) job_ids w,
  )

  -- Without a template that asks for it, no job is signed without an approval.
  pub auto_sign_jobs_idle :
      (r : Request) (job_ids : List Text) (template_id : Option ℕ) (w : World)
      → ¬ AutoSigns template_id w
      → auto_sign_jobs ssl d r job_ids template_id w ≡ w
  unfolding auto_sign_jobs
  auto_sign_jobs_idle r job_ids template_id w h =
      elim (Bool-cases (resolve_signing_policy template_id w).auto_sign) [
        | inl on ↦ absurd (h (auto_sign-AutoSigns template_id w on))
        | inr off ↦ ground arith
      ]
