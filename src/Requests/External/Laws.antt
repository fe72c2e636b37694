-- ===== src/Requests/External/Laws.antt =====
-- Theorems on submit_external (backend/routes_requests.py).
use certheim.Requests.CsrSubject.{parse_csr_subject}
use certheim.Validation.CertTypes.{Types, normalize_cert_types, rejected}
use certheim.Validation.{Checked-cases, is_hostname, validate_email}
use certheim.Base.{
  Bool-cases, List, Option, Option-cases, Text, [], any, arith, false, inl, inr, is_empty, nat_eq,
  none, not, option_eq, refl, some, strip, subst, text_eq, true, ℕ, ◌++◌, ◌||◌, ◌∷◌, ◌≡◌, ◌≢◌,
}
use certheim.Store.{Job, Reply, Reply-cases, Request, Status, World, ok, status_eq}
use certheim.Signing.{Deploy}
use certheim.Crypto.{Openssl}
use certheim.Jobs.Keys.{row_with_id}
use certheim.Jobs.Regroup.{GroupField, MayUse, absent, not_a_number, null, number}
use certheim.Jobs.Evolution.{Steps, Steps-append, Steps-refl, Steps-trans}
use certheim.Requests.AutoSign.{auto_sign_jobs, auto_sign_jobs-Steps}
use certheim.Requests.External.{
  Accepted, Submission, announce_created, choose_group, coerce_template_id, create_external, csr_of,
  external_job, or_own, submit_external, submit_mailed, submit_typed, types_text_of,
}

-- A new job of the caller's: pending, under a fresh id, for a valid host, with a CSR whose signature
-- openssl has verified, and in no group or one that the caller may use.
pub record IsOwnNew (ssl : Openssl) (r : Request) (w : World) (job_id : Text) (j : Job)
    : Type 0 where
  pub named : j.id ≡ job_id
  pub fresh : any (row_with_id job_id) w.jobs ≡ false
  pub own : j.requester_dn ≡ r.dn
  pub open_job : j.status ≡ Status.pending
  pub no_cert : j.cert_pem ≡ none
  pub host_ok : is_hostname j.target_host ≡ true
  pub verified : ssl.csr_verify j.csr_pem ≡ some true
  pub group_ok : MayUse r w j.group_id
  pub has_email : j.requester_email ≢ none

-- How a submission ends: the table as it was and an error, or one new job, and what the requester's
-- template then signs.
pub data Submitted (ssl : Openssl) (d : Deploy) (r : Request) (w : World) (job_id : Text)
    (ks : List Job) (a : Reply Accepted) : Type 0 where
  refused : ks ≡ w.jobs → ((v : Accepted) → a ≢ ok v) → Submitted ssl d r w job_id ks a
  creates :
      (new : Job) (v : Accepted)
      → IsOwnNew ssl r w job_id new
      → (w' : World) → w'.jobs ≡ w.jobs ++ new ∷ []
      → ks ≡ (auto_sign_jobs ssl d r (job_id ∷ []) new.template_id w').jobs
      → a ≡ ok v
      → Submitted ssl d r w job_id ks a

module _ (ssl : Openssl) (d : Deploy) where
  jobs-announce_created :
      (r : Request) (j : Job) (w : World) → (announce_created r j w).jobs ≡ w.jobs
  unfolding announce_created
  jobs-announce_created r j w = ground arith

  create_external-Submitted :
      (r : Request) (cn : Text) (j : Job) (w : World)
      → (any (row_with_id j.id) w.jobs ≡ false → IsOwnNew ssl r w j.id j)
      → Submitted ssl d r w j.id
          (create_external ssl d r cn j w).0.jobs
          (create_external ssl d r cn j w).1
  unfolding create_external
  create_external-Submitted r cn j w own = elim (Bool-cases (any (row_with_id j.id) w.jobs)) [
    | inl taken ↦ refused (ground arith) (λ v e. ground arith)
    | inr free ↦
        let w' : World = record w { jobs = w.jobs ++ j ∷ [] } in
        rw (free, create_external)
          (creates j _ (own free) (announce_created r j w') (jobs-announce_created r j w') refl
            refl)
  ]

  choose_group-MayUse :
      (r : Request) (field : GroupField) (w : World) (g : Option ℕ)
      → choose_group r field w ≡ ok g
      → MayUse r w g
  unfolding choose_group
  choose_group-MayUse r absent w g h = subst (MayUse r w) (let e : none ≡ g = ground arith in e) tt
  choose_group-MayUse r null w g h = subst (MayUse r w) (let e : none ≡ g = ground arith in e) tt
  choose_group-MayUse r not_a_number w g h = absurd (ground arith)
  choose_group-MayUse r (number n) w g h =
      subst (MayUse r w) (let e : some n ≡ g = ground arith in e)
        ((λ e. ground arith), ground arith)

  submit_typed-Submitted :
      (r : Request) (s : Submission) (job_id csr email : Text) (g : Option ℕ) (ts : Types)
      (w : World)
      → is_hostname (strip s.target_host) ≡ true
      → MayUse r w g
      → Submitted ssl d r w job_id
          (submit_typed ssl d r s job_id csr email g ts w).0.jobs
          (submit_typed ssl d r s job_id csr email g ts w).1
  unfolding submit_typed
  submit_typed-Submitted r s job_id csr email g (rejected m) w host may =
      refused refl (λ v e. ground arith)
  submit_typed-Submitted r s job_id csr email g ts w host may =
      elim (Option-cases (ssl.csr_verify csr)) [
        | inl crashed ↦ refused (ground arith) (λ v e. ground arith)
        | inr (good, answer) ↦ elim (Bool-cases good) [
          | inr bad ↦ refused (ground arith) (λ v e. ground arith)
          | inl fine ↦
              let (cn, sans) = parse_csr_subject ssl csr in
              let template_id = coerce_template_id s.template_id w in
              let j : Job =
                external_job r s job_id email csr sans g (types_text_of ts) template_id in
              rw (answer, fine, submit_typed)
                (create_external-Submitted r cn j w (λ free. record {
                  named = refl;
                  fresh = free;
                  own = refl;
                  open_job = refl;
                  no_cert = refl;
                  host_ok = host;
                  verified = rw (answer, fine) refl;
                  group_ok = may;
                  has_email = λ e. ground arith;
                }))
        ]
      ]

  submit_mailed-Submitted :
      (r : Request) (s : Submission) (job_id csr : Text) (email : Option Text) (w : World)
      → is_hostname (strip s.target_host) ≡ true
      → Submitted ssl d r w job_id
          (submit_mailed ssl d r s job_id csr email w).0.jobs
          (submit_mailed ssl d r s job_id csr email w).1
  unfolding submit_mailed
  submit_mailed-Submitted r s job_id csr none w host = refused refl (λ v e. ground arith)
  submit_mailed-Submitted r s job_id csr (some email) w host = elim (Bool-cases (is_empty email)) [
    | inl blank ↦ refused (ground arith) (λ v e. ground arith)
    | inr given ↦ elim (Reply-cases (choose_group r s.group_id w)) [
      | inr (code, message, bad) ↦ refused (ground arith) (λ v e. ground arith)
      | inl (g, good) ↦
          rw (given, good, submit_mailed)
            (submit_typed-Submitted r s job_id csr email g (normalize_cert_types s.cert_type) w host
              (choose_group-MayUse r s.group_id w g good))
    ]
  ]

  -- An accepted submission adds one pending job of the caller's own, under a fresh id, for a valid
  -- host, with a verified CSR, in a group that the caller may use; after it only that job's
  -- automatic signature follows. A refused one leaves the table as it was.
  pub submit_external-Submitted :
      (r : Request) (s : Submission) (job_id : Text) (w : World)
      → Submitted ssl d r w job_id
          (submit_external ssl d r s job_id w).0.jobs
          (submit_external ssl d r s job_id w).1
  unfolding submit_external
  submit_external-Submitted r s job_id w = elim (Option-cases (csr_of d s.csr_pem)) [
    | inl unfit ↦ refused (ground arith) (λ v e. ground arith)
    | inr (csr, fits) ↦
        let test = is_empty (strip s.target_host) || not (is_hostname (strip s.target_host)) in
        elim (Bool-cases test) [
          | inl bad ↦ refused (ground arith) (λ v e. ground arith)
          | inr host ↦ elim (Checked-cases (validate_email s.requester_email)) [
            | inr (message, bad) ↦ refused (ground arith) (λ v e. ground arith)
            | inl (given, good) ↦
                rw (fits, host, good, submit_external)
                  (submit_mailed-Submitted r s job_id csr (or_own given r.email) w (ground arith))
          ]
        ]
  ]

  Submitted-Steps :
      (r : Request) (w : World) (job_id : Text) (ks : List Job) (a : Reply Accepted)
      → Submitted ssl d r w job_id ks a
      → Steps ssl w.jobs ks
  Submitted-Steps r w job_id ks a (refused same no_answer) = rw same (Steps-refl ssl w.jobs)
  Submitted-Steps r w job_id ks a (creates new v own w' grown then answer) = rw then (
      Steps-trans ssl w.jobs w'.jobs (auto_sign_jobs ssl d r (job_id ∷ []) new.template_id w').jobs
        (rw grown (
          Steps-append ssl new w.jobs (rw own.named own.fresh)
            (rw (own.open_job, own.no_cert) refl)))
        (auto_sign_jobs-Steps ssl d r (job_id ∷ []) new.template_id w'))

  pub submit_external-Steps :
      (r : Request) (s : Submission) (job_id : Text) (w : World)
      → Steps ssl w.jobs (submit_external ssl d r s job_id w).0.jobs
  submit_external-Steps r s job_id w =
      Submitted-Steps r w job_id (submit_external ssl d r s job_id w).0.jobs
        (submit_external ssl d r s job_id w).1 (submit_external-Submitted r s job_id w)
