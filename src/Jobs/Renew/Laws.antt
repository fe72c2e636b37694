-- ===== src/Jobs/Renew/Laws.antt =====
-- Theorems on renew_job (backend/routes_jobs.py).
use certheim.Jobs.Evolution.{Steps, Steps-refl, Steps-trans}
use certheim.Jobs.Ids.{is_job_id}
use certheim.Jobs.Sweep.{sweep_expired, sweep_expired-Steps}
use certheim.Jobs.Keys.{row_with_id}
use certheim.Requests.Generate.Laws.{insert_rhel-Inserted, inserted, inserted-Steps, taken}
use certheim.Base.{
  Bool-cases, List, Option-cases, Text, [], any, arith, false, if-either, inl, inr, lit, nat_eq,
  none, not, option_eq, refl, some, text_eq, true, ◌++◌, ◌∷◌, ◌≡◌, ◌≢◌, ◌⊎◌,
}
use certheim.Store.{
  Job, Reply, Request, Status, World, abort, error, job_by_id, log_event, ok, status_eq,
}
use certheim.Crypto.{Openssl}
use certheim.Requests.Generate.{Generation, Helper, new_row, place_keys, secure_key}
use certheim.Jobs.Renew.{
  may_renew, own_email, renew_csr, renew_generated, renew_job, renew_listed, renew_row, renewable,
  renewal_algo, renewal_choices, renewal_line, renewal_types,
}

-- The new row of a renewal: the caller's own, pending, in the old job's group, linked to it, of its
-- types, and without a template.
pub record IsRenewal (r : Request) (old : Job) (new_id : Text) (j : Job) : Type 0 where
  pub named : j.id ≡ new_id
  pub own : j.requester_dn ≡ r.dn
  pub open_job : j.status ≡ Status.pending
  pub no_cert : j.cert_pem ≡ none
  pub linked : j.renewed_from ≡ some old.id
  pub same_group : j.group_id ≡ old.group_id
  pub same_types : j.cert_type ≡ some (renewal_types old)
  pub no_template : j.template_id ≡ none

-- How a renewal ends, from the table after the sweep: that table and an error, or one new row for a
-- job that was issued or has expired and that the caller may renew.
pub data Renewed (h : Helper) (r : Request) (job_id new_id : Text) (w : World) (ks : List Job)
    (a : Reply Text) : Type 0 where
  refused : ks ≡ w.jobs → ((v : Text) → a ≢ ok v) → Renewed h r job_id new_id w ks a
  renews :
      (old new : Job) (w' : World)
      → job_by_id job_id w ≡ some old
      → renewable old ≡ true
      → may_renew r w old ≡ true
      → IsRenewal r old new_id new
      → any (row_with_id new_id) w.jobs ≡ false
      → w'.jobs ≡ w.jobs ++ new ∷ []
      → ks ≡ (secure_key h.keys new.id new.local_key_name old.template_id w').jobs
      → a ≡ ok new_id
      → Renewed h r job_id new_id w ks a

module _ (ssl : Openssl) (h : Helper) (r : Request) (job_id new_id : Text) where
  renew_csr-Renewed :
      (g : Generation) (old : Job) (email csr_name : Text) (w w' : World)
      → job_by_id job_id w ≡ some old
      → renewable old ≡ true
      → may_renew r w old ≡ true
      → w'.jobs ≡ w.jobs
      → Renewed h r job_id new_id w
          (renew_csr ssl h r g old email new_id csr_name w').0.jobs
          (renew_csr ssl h r g old email new_id csr_name w').1
  unfolding renew_csr
  renew_csr-Renewed g old email csr_name w w' found done may same =
      elim (Option-cases (g.get_csr csr_name)) [
        | inl unread ↦ rw (unread, renew_csr) (refused same (λ v e. ground arith))
        | inr (csr_pem, read) ↦
            let j =
              new_row ssl r g (renewal_choices old email) old.target_host new_id csr_name csr_pem in
            elim (insert_rhel-Inserted h old.template_id j w') [
              | taken none_made ↦
                  rw (read, renew_csr, none_made) (refused same (λ v e. ground arith))
              | inserted w'' free grown made ↦
                  rw (read, renew_csr, made)
                    (renews old j w'' found done may
                      (record {
                        named = refl;
                        own = refl;
                        open_job = refl;
                        no_cert = refl;
                        linked = refl;
                        same_group = refl;
                        same_types = refl;
                        no_template = refl;
                      })
                      (rw⁻¹ same free) (rw⁻¹ same grown) refl refl)
            ]
      ]

  Ends : World → World × Reply Text → Type 0
  Ends w x = Renewed h r job_id new_id w x.0.jobs x.1

  renew_listed-Renewed :
      (g : Generation) (old : Job) (email : Text) (w : World) (names : List Text)
      → job_by_id job_id w ≡ some old
      → renewable old ≡ true
      → may_renew r w old ≡ true
      → Ends w (renew_listed ssl h r g old email new_id names w)
  unfolding Ends renew_listed
  renew_listed-Renewed g old email w [] found done may = refused refl (λ v e. ground arith)
  renew_listed-Renewed g old email w (name ∷ names) found done may =
      renew_csr-Renewed g old email name w (place_keys g.key_files w) found done may refl

  renew_generated-Renewed :
      (g : Generation) (old : Job) (email : Text) (w : World)
      → job_by_id job_id w ≡ some old
      → renewable old ≡ true
      → may_renew r w old ≡ true
      → Renewed h r job_id new_id w
          (renew_generated ssl h r g old email new_id w).0.jobs
          (renew_generated ssl h r g old email new_id w).1
  unfolding renew_generated Ends
  renew_generated-Renewed g old email w found done may =
      if-either (Ends w) (not g.generated)
        (log_event "renew_job" "error" old.id w, error 500 (lit "generation failed"))
        (renew_listed ssl h r g old email new_id g.new_csrs w) (refused refl (λ v e. ground arith))
        (renew_listed-Renewed g old email w g.new_csrs found done may)

  renew_row-Renewed :
      (old : Job) (w : World)
      → job_by_id job_id w ≡ some old
      → Renewed h r job_id new_id w
          (renew_row ssl h r old new_id w).0.jobs
          (renew_row ssl h r old new_id w).1
  unfolding renew_row Ends
  renew_row-Renewed old w found = elim (Bool-cases (renewable old)) [
    | inr over ↦ refused (ground arith) (λ v e. ground arith)
    | inl done ↦ elim (Bool-cases (may_renew r w old)) [
      | inr barred ↦ refused (ground arith) (λ v e. ground arith)
      | inl may ↦ elim (Option-cases (own_email r.email)) [
        | inl blank ↦ refused (ground arith) (λ v e. ground arith)
        | inr (email, given) ↦
            let g =
              h.generate (some (renewal_line old)) (renewal_types old) (renewal_algo old) [] [] in
            rw (done, may, given, renew_row)
              (if-either (Ends w) (not (h.stages (renewal_line old)))
                (w, error 500 (lit "could not stage renewal"))
                (renew_generated ssl h r g old email new_id w) (refused refl (λ v e. ground arith))
                (renew_generated-Renewed g old email w found done may))
      ]
    ]
  ]

  -- A renewal under an ill-formed identifier changes nothing and answers with an error. Any other
  -- works on the table as the expiry sweep leaves it. Either it answers with an error and
  -- changes no row, or the job was issued or has expired, the caller is an admin, its requester or in
  -- its group, and one row is added under the fresh identifier: pending, the caller's own, in the old
  -- job's group, of its types and linked to it, but without its template; then only its key is
  -- secured, under the old job's template.
  pub renew_job-Renewed :
      (w : World)
      → Renewed h r job_id new_id
          (sweep_expired r.now w)
          (renew_job ssl h r job_id new_id w).0.jobs
          (renew_job ssl h r job_id new_id w).1
        ⊎ ((renew_job ssl h r job_id new_id w) ≡ (w, abort 400))
  unfolding renew_job
  renew_job-Renewed w = elim (Bool-cases (is_job_id job_id)) [
    | inr bad ↦ inr (ground arith)
    | inl good ↦ elim (Option-cases (job_by_id job_id (sweep_expired r.now w))) [
      | inl missing ↦ inl (refused (ground arith) (λ v e. ground arith))
      | inr (old, found) ↦
          rw (good, renew_job, found) (inl (renew_row-Renewed old (sweep_expired r.now w) found))
    ]
  ]

module _ (ssl : Openssl) (h : Helper) (r : Request) where
  Renewed-Steps :
      (job_id new_id : Text) (w : World) (ks : List Job) (a : Reply Text)
      → Renewed h r job_id new_id w ks a
      → Steps ssl w.jobs ks
  Renewed-Steps job_id new_id w ks a (refused same no_answer) = rw same (Steps-refl ssl w.jobs)
  Renewed-Steps job_id new_id w ks a (renews old new w' found done may is free grown then answer) =
      rw then (
        inserted-Steps ssl h old.template_id new w w' (rw (is.open_job, is.no_cert) refl)
          (rw is.named free) grown)

  pub renew_job-Steps :
      (job_id new_id : Text) (w : World)
      → Steps ssl w.jobs (renew_job ssl h r job_id new_id w).0.jobs
  renew_job-Steps job_id new_id w = elim (renew_job-Renewed ssl h r job_id new_id w) [
    | inr bad ↦ rw bad (Steps-refl ssl w.jobs)
    | inl ends ↦
        let swept = sweep_expired r.now w in
        let done = renew_job ssl h r job_id new_id w in
        Steps-trans ssl w.jobs swept.jobs done.0.jobs (sweep_expired-Steps ssl r.now w)
          (Renewed-Steps job_id new_id swept done.0.jobs done.1 ends)
  ]
