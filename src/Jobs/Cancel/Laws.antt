-- ===== src/Jobs/Cancel/Laws.antt =====
-- Lemmas on the jobs table under cancelling and marking failed (backend/routes_jobs.py).
use certheim.Base.{List, Text, [], arith, inl, inr, refl, take, true, update_where, ◌∷◌, ◌≡◌, ◌⊎◌}
use certheim.Store.{Job, Request, Status, World}
use certheim.Crypto.{Openssl}
use certheim.Jobs.Evolution.{Moves, Steps, Steps-refl, Steps-trans, Steps-update_where}
use certheim.Jobs.Cancel.{
  Outcome, Tally, bulk_cancel_jobs, cancel_all, cancel_job, cancel_one, cancel_reply, failure_note,
  mark_failed, no_cancels, pending_row, set_cancelled, set_failed, tally,
}

pending_row-pending :
    (job_id : Text) (j : Job) → pending_row job_id j ≡ true → j.status ≡ Status.pending
pending_row-pending job_id j h = ground arith

-- a cancellation changes the rows that the pending update selects, or none
abbrev cancelled_jobs : Request → Text → Text → Outcome → List Job → List Job
cancelled_jobs r job_id reason Outcome.cancelled js =
    update_where (pending_row job_id) (set_cancelled r reason) js
cancelled_jobs r job_id reason _ js = js

pub jobs-cancel_one :
    (r : Request) (job_id reason : Text) (w : World)
    → (cancel_one r job_id reason w).0.jobs
      ≡ cancelled_jobs r job_id reason (cancel_one r job_id reason w).1 w.jobs
unfolding cancel_one
jobs-cancel_one r job_id reason w = ground arith

pub jobs-mark_failed :
    (r : Request) (job_id note : Text) (w : World)
    → ((mark_failed r job_id note w).0.jobs ≡ w.jobs)
      ⊎ ((mark_failed r job_id note w).0.jobs
          ≡ update_where (pending_row job_id) (set_failed r (failure_note note)) w.jobs)
unfolding mark_failed
jobs-mark_failed r job_id note w = ground arith

module _ (ssl : Openssl) where
  cancelled-Moves :
      (r : Request) (job_id reason : Text) (j : Job)
      → pending_row job_id j ≡ true
      → Moves ssl j (set_cancelled r reason j)
  cancelled-Moves r job_id reason j h =
      let e : j.status ≡ Status.pending = pending_row-pending job_id j h in
      record {
        id_kept = refl;
        csr_kept = refl;
        requester_kept = refl;
        host_kept = refl;
        moved = rw e refl;
        certified = λ c. rw e at c;
      }

  failed-Moves :
      (r : Request) (job_id note : Text) (j : Job)
      → pending_row job_id j ≡ true
      → Moves ssl j (set_failed r note j)
  failed-Moves r job_id note j h =
      let e : j.status ≡ Status.pending = pending_row-pending job_id j h in
      record {
        id_kept = refl;
        csr_kept = refl;
        requester_kept = refl;
        host_kept = refl;
        moved = rw e refl;
        certified = λ c. rw e at c;
      }

  cancelled_jobs-Steps :
      (r : Request) (job_id reason : Text) (o : Outcome) (js : List Job)
      → Steps ssl js (cancelled_jobs r job_id reason o js)
  cancelled_jobs-Steps r job_id reason Outcome.cancelled js =
      Steps-update_where ssl (pending_row job_id) (set_cancelled r reason) (λ _. refl)
        (cancelled-Moves r job_id reason) js
  cancelled_jobs-Steps r job_id reason _ js = Steps-refl ssl js

  pub cancel_one-Steps :
      (r : Request) (job_id reason : Text) (w : World)
      → Steps ssl w.jobs (cancel_one r job_id reason w).0.jobs
  cancel_one-Steps r job_id reason w =
      rw (jobs-cancel_one r job_id reason w)
        (cancelled_jobs-Steps r job_id reason (cancel_one r job_id reason w).1 w.jobs)

  cancel_all-Steps :
      (r : Request) (job_ids : List Text) (reason : Text) (w : World) (t : Tally)
      → Steps ssl w.jobs (cancel_all r job_ids reason w t).0.jobs
  unfolding cancel_all
  cancel_all-Steps r [] reason w t = Steps-refl ssl w.jobs
  cancel_all-Steps r (job_id ∷ job_ids) reason w t =
      let (w', o) = cancel_one r job_id reason w in
      Steps-trans ssl w.jobs w'.jobs (cancel_all r job_ids reason w' (tally o job_id t)).0.jobs
        (cancel_one-Steps r job_id reason w)
        (cancel_all-Steps r job_ids reason w' (tally o job_id t))

  pub bulk_cancel_jobs-Steps :
      (r : Request) (job_ids : List Text) (reason : Text) (w : World)
      → Steps ssl w.jobs (bulk_cancel_jobs r job_ids reason w).0.jobs
  unfolding bulk_cancel_jobs
  bulk_cancel_jobs-Steps r job_ids reason w =
      ground
        (arith, Steps-refl ssl w.jobs, cancel_all-Steps r job_ids (take 512 reason) w no_cancels)

  jobs-cancel_reply : (p : World × Outcome) → (cancel_reply p).0.jobs ≡ p.0.jobs
  jobs-cancel_reply (w, Outcome.cancelled) = refl
  jobs-cancel_reply (w, Outcome.denied) = refl
  jobs-cancel_reply (w, Outcome.skipped) = refl

  pub cancel_job-Steps :
      (r : Request) (job_id reason : Text) (w : World)
      → Steps ssl w.jobs (cancel_job r job_id reason w).0.jobs
  unfolding cancel_job
  cancel_job-Steps r job_id reason w = ground (
    arith,
    Steps-refl ssl w.jobs,
    jobs-cancel_reply (cancel_one r job_id (take 512 reason) w),
    cancel_one-Steps r job_id (take 512 reason) w,
  )

  pub mark_failed-Steps :
      (r : Request) (job_id note : Text) (w : World)
      → Steps ssl w.jobs (mark_failed r job_id note w).0.jobs
  mark_failed-Steps r job_id note w = elim (jobs-mark_failed r job_id note w) [
    | inl same ↦ rw same (Steps-refl ssl w.jobs)
    | inr closed ↦ rw closed (
        Steps-update_where ssl (pending_row job_id) (set_failed r (failure_note note)) (λ _. refl)
          (failed-Moves r job_id (failure_note note)) w.jobs)
  ]
