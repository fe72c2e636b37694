-- ===== src/Jobs/Completion/Laws.antt =====
-- Theorems on _attach_signed_cert (backend/app.py).
use certheim.Jobs.Keys.{row_with_id}
use certheim.Jobs.Evolution.{Moves, Steps, Steps-refl, Steps-update_found}
use certheim.Base.{
  Bool-cases, List, Option, Option-cases, Text, arith, find, inl, inr, nat_eq, option_eq, refl,
  some, text_eq, true, update_where, ℕ, ◌==◌, ◌≡◌,
}
use certheim.Store.{Job, Request, Status, World, job_by_id, ok, status_eq, update_jobs}
use certheim.Crypto.{Openssl, verify_cert_matches_csr}
use certheim.Jobs.Completion.{
  Completed, Completer, attach_signed_cert, fleet_track_issued, set_issued,
}

jobs-fleet_track_issued :
    (ssl : Openssl) (now : ℕ) (host cert : Text) (email : Option Text) (job_id : Text) (w : World)
    → (fleet_track_issued ssl now host cert email job_id w).jobs ≡ w.jobs
unfolding fleet_track_issued
jobs-fleet_track_issued ssl now host cert email job_id w = ground arith

-- How an attach ends: the table as it was, or one matching pending job issued.
pub data Attached (ssl : Openssl) (r : Request) (c : Completer) (job_id cert : Text)
    (js ks : List Job) : Type 0 where
  kept : ks ≡ js → Attached ssl r c job_id cert js ks
  issues :
      (row : Job)
      → find (row_with_id job_id) js ≡ some row
      → row.status ≡ Status.pending
      → verify_cert_matches_csr ssl row.csr_pem cert ≡ true
      → ks ≡ update_where (row_with_id job_id) (set_issued ssl r.now c cert) js
      → Attached ssl r c job_id cert js ks

-- Attaching a certificate changes the jobs table in one way only: the row of the id, if it is pending
-- and the certificate's public key is that of its CSR, is issued with that certificate. Otherwise the
-- table is left as it was.
pub jobs-attach_signed_cert :
    (ssl : Openssl) (r : Request) (c : Completer) (job_id cert : Text) (w : World)
    → Attached ssl r c job_id cert w.jobs (attach_signed_cert ssl r c job_id cert w).0.jobs
unfolding attach_signed_cert
jobs-attach_signed_cert ssl r c job_id cert w = elim (Option-cases (job_by_id job_id w)) [
  | inl missing ↦ kept (ground arith)
  | inr (row, found) ↦ elim (Bool-cases (row.status == Status.pending)) [
    | inl open_job ↦ elim (Bool-cases (verify_cert_matches_csr ssl row.csr_pem cert)) [
      | inl fits ↦ issues row found (ground arith) fits (
          ground (
            arith,
            jobs-fleet_track_issued ssl r.now row.target_host cert row.requester_email job_id
                (update_jobs (row_with_id job_id) (set_issued ssl r.now c cert) w),
          ))
      | inr differs ↦ kept (ground arith)
    ]
    | inr closed ↦ kept (ground arith)
  ]
]

-- An attach that is answered with a completed job has issued it.
pub attach_signed_cert-issues :
    (ssl : Openssl) (r : Request) (c : Completer) (job_id cert : Text) (w : World)
    {done : Completed}
    → (attach_signed_cert ssl r c job_id cert w).1 ≡ ok done
    → (attach_signed_cert ssl r c job_id cert w).0.jobs
      ≡ update_where (row_with_id job_id) (set_issued ssl r.now c cert) w.jobs
unfolding attach_signed_cert
attach_signed_cert-issues ssl r c job_id cert w h = elim (Option-cases (job_by_id job_id w)) [
  | inl missing ↦ absurd (ground arith)
  | inr (row, found) ↦ ground (
    arith,
    jobs-fleet_track_issued ssl r.now row.target_host cert row.requester_email job_id
        (update_jobs (row_with_id job_id) (set_issued ssl r.now c cert) w),
  )
]

module _ (ssl : Openssl) where
  issued-Moves :
      (now : ℕ) (c : Completer) (cert : Text) (j : Job)
      → j.status ≡ Status.pending
      → verify_cert_matches_csr ssl j.csr_pem cert ≡ true
      → Moves ssl j (set_issued ssl now c cert j)
  issued-Moves now c cert j e fits = record {
    id_kept = refl;
    csr_kept = refl;
    requester_kept = refl;
    host_kept = refl;
    moved = rw e refl;
    certified = λ _. fits;
  }

  Attached-Steps :
      (r : Request) (c : Completer) (job_id cert : Text) (js ks : List Job)
      → Attached ssl r c job_id cert js ks
      → Steps ssl js ks
  Attached-Steps r c job_id cert js ks (kept e) = rw e (Steps-refl ssl js)
  Attached-Steps r c job_id cert js ks (issues row found e fits k) = rw k (
      Steps-update_found ssl job_id (set_issued ssl r.now c cert) row (λ _. refl)
        (issued-Moves r.now c cert row e fits) js found)

  pub attach_signed_cert-Steps :
      (r : Request) (c : Completer) (job_id cert : Text) (w : World)
      → Steps ssl w.jobs (attach_signed_cert ssl r c job_id cert w).0.jobs
  attach_signed_cert-Steps r c job_id cert w =
      Attached-Steps r c job_id cert w.jobs (attach_signed_cert ssl r c job_id cert w).0.jobs
        (jobs-attach_signed_cert ssl r c job_id cert w)
