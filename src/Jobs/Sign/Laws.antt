-- ===== src/Jobs/Sign/Laws.antt =====
-- Theorems on sign_job (backend/routes_signing.py).
use certheim.Jobs.Completion.Laws.{attach_signed_cert-Steps}
use certheim.Jobs.Completion.{Completed, attach_signed_cert}
use certheim.Jobs.Evolution.{Steps, Steps-refl}
use certheim.Signing.{
  Deploy, Policy, Signed, resolve_signing_policy, sign_csr, sign_error, signed, unavailable,
}
use certheim.Crypto.{Openssl}
use certheim.Jobs.Sign.{
  Chosen, Signature, TtlField, bad_ttl, choose_ttl, chosen, finish_sign, sign_chosen,
  sign_completer, sign_job, sign_reply, sign_row,
}
use certheim.Base.{
  Option, Option-cases, Text, arith, inl, inr, lit, refl, some, subst, true, ℤ, ◌++◌, ◌||◌, ◌≡◌,
  ◌≢◌,
}
use certheim.Store.{Job, Reply, Request, Status, World, error, is_signer, job_by_id, ok}

module _ (ssl : Openssl) (d : Deploy) where
  pub jobs-sign_csr :
      (csr : Text) (template : Policy) (w : World) → (sign_csr d csr template w).0.jobs ≡ w.jobs
  unfolding sign_csr
  jobs-sign_csr csr template w = ground arith

  jobs-sign_reply :
      (job_id backend : Text) (ttl : Option ℤ) (p : World × Reply Completed)
      → (sign_reply job_id backend ttl p).0.jobs ≡ p.0.jobs
  jobs-sign_reply job_id backend ttl (w, ok done) = refl
  jobs-sign_reply job_id backend ttl (w, error code message) = refl

  finish_sign-Steps :
      (r : Request) (job_id backend : Text) (ttl : Option ℤ) (s : Signed) (w : World)
      → Steps ssl w.jobs (finish_sign ssl r job_id backend ttl (w, s)).0.jobs
  unfolding finish_sign
  finish_sign-Steps r job_id backend ttl (unavailable m) w = Steps-refl ssl w.jobs
  finish_sign-Steps r job_id backend ttl (sign_error m) w = Steps-refl ssl w.jobs
  finish_sign-Steps r job_id backend ttl (signed cert chain) w =
      let c = sign_completer r backend chain in
      rw (jobs-sign_reply job_id backend ttl (attach_signed_cert ssl r c job_id cert w))
        (attach_signed_cert-Steps ssl r c job_id cert w)

  sign_chosen-Steps :
      (r : Request) (job_id backend : Text) (row : Job) (w : World) (c : Chosen)
      → Steps ssl w.jobs (sign_chosen ssl d r job_id backend row w c).0.jobs
  unfolding sign_chosen
  sign_chosen-Steps r job_id backend row w (bad_ttl message) = Steps-refl ssl w.jobs
  sign_chosen-Steps r job_id backend row w (chosen policy ttl) =
      let p = sign_csr d row.csr_pem policy w in
      subst (λ js. Steps ssl js (finish_sign ssl r job_id backend ttl p).0.jobs)
        (jobs-sign_csr row.csr_pem policy w) (finish_sign-Steps r job_id backend ttl p.1 p.0)

  sign_row-Steps :
      (r : Request) (job_id : Text) (field : TtlField) (row : Job) (w : World)
      → Steps ssl w.jobs (sign_row ssl d r job_id field row w).0.jobs
  unfolding sign_row
  sign_row-Steps r job_id field row w =
      let template = resolve_signing_policy row.template_id w in
      ground (
        arith,
        Steps-refl ssl w.jobs,
        sign_chosen-Steps r job_id template.signer_backend row w (choose_ttl field template w),
      )

  -- An approval changes the jobs table only by completing jobs.
  pub sign_job-Steps :
      (r : Request) (job_id : Text) (field : TtlField) (w : World)
      → Steps ssl w.jobs (sign_job ssl d r job_id field w).0.jobs
  unfolding sign_job
  sign_job-Steps r job_id field w = elim (Option-cases (job_by_id job_id w)) [
    | inl missing ↦ ground (arith, Steps-refl ssl w.jobs)
    | inr (row, found) ↦ ground (arith, Steps-refl ssl w.jobs, sign_row-Steps r job_id field row w)
  ]

sign_reply-via :
    (job_id backend : Text) (ttl : Option ℤ) (p : World × Reply Completed) {v : Signature}
    → (sign_reply job_id backend ttl p).1 ≡ ok v
    → v.signed_via ≡ backend
sign_reply-via job_id backend ttl (w, ok done) h = ground arith
sign_reply-via job_id backend ttl (w, error code message) h = absurd (ground arith)

-- What an accepted approval of a job rests on.
pub record IsApproved (d : Deploy) (r : Request) (job_id : Text) (w : World) (via : Text)
    : Type 0 where
  pub row : Job
  pub found : job_by_id job_id w ≡ some row
  pub open_job : row.status ≡ Status.pending
  pub allowed : (r.is_admin || is_signer r.dn w) ≡ true
  pub chosen_backend : via ≡ (resolve_signing_policy row.template_id w).signer_backend
  pub automated : via ≢ lit "manual"
  pub there : d.available (lit "ca.signing." ++ via) ≡ true

module _ (ssl : Openssl) (d : Deploy) where
  finish_sign-via :
      (r : Request) (job_id backend : Text) (ttl : Option ℤ) (p : World × Signed) {v : Signature}
      → (finish_sign ssl r job_id backend ttl p).1 ≡ ok v
      → v.signed_via ≡ backend
  unfolding finish_sign
  finish_sign-via r job_id backend ttl (w, unavailable m) h = absurd (ground arith)
  finish_sign-via r job_id backend ttl (w, sign_error m) h = absurd (ground arith)
  finish_sign-via r job_id backend ttl (w, signed cert chain) h =
      sign_reply-via job_id backend ttl
        (attach_signed_cert ssl r (sign_completer r backend chain) job_id cert w) h

  sign_chosen-via :
      (r : Request) (job_id backend : Text) (row : Job) (w : World) (c : Chosen) {v : Signature}
      → (sign_chosen ssl d r job_id backend row w c).1 ≡ ok v
      → v.signed_via ≡ backend
  unfolding sign_chosen
  sign_chosen-via r job_id backend row w (bad_ttl m) h = absurd (ground arith)
  sign_chosen-via r job_id backend row w (chosen policy ttl) h =
      finish_sign-via r job_id backend ttl (sign_csr d row.csr_pem policy w) h

  -- An approval that is answered with a signature was asked for by a signer or an admin, for a job
  -- that was pending, through the backend of the job's policy, which is not manual and is available.
  pub sign_job-IsApproved :
      (r : Request) (job_id : Text) (field : TtlField) (w : World) (v : Signature)
      → (sign_job ssl d r job_id field w).1 ≡ ok v
      → IsApproved d r job_id w v.signed_via
  unfolding sign_job sign_row
  sign_job-IsApproved r job_id field w v h = elim (Option-cases (job_by_id job_id w)) [
    | inl missing ↦ absurd (ground arith)
    | inr (row, found) ↦
        let template = resolve_signing_policy row.template_id w in
        let c = choose_ttl field template w in
        let signed_here : (sign_chosen ssl d r job_id template.signer_backend row w c).1 ≡ ok v =
          ground arith in
        let via : v.signed_via ≡ template.signer_backend =
          sign_chosen-via r job_id template.signer_backend row w c {v = v} signed_here in
        record {
          row = row;
          found = found;
          open_job = ground arith;
          allowed = ground arith;
          chosen_backend = via;
          automated = λ e. ground (arith, via);
          there = ground (arith, via);
        }
  ]
