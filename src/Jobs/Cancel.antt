-- ===== src/Jobs/Cancel.antt =====
-- cancel_job, bulk_cancel_jobs and mark_failed (backend/routes_jobs.py).
pub mod Laws
use certheim.Base.{
  Bool, List, Option, String, Text, [], all, count, find, if◌then◌else◌, is_empty, is_zero, length,
  lit, ltb, nat_eq, none, not, option_eq, some, take, text_eq, ◌&&◌, ◌++◌, ◌==◌, ◌||◌, ◌∷◌,
}
use certheim.Store.{
  Job, Reply, Request, Status, World, abort, error, failed, fire_webhooks, group_email, is_signer,
  log_event, log_mail, ok, pending, status_eq, update_jobs,
}
use certheim.Jobs.Ids.{is_job_id}

-- the jobs that `WHERE id = ? AND status='pending'` selects
abbrev pub pending_row : Text → Job → Bool
pending_row job_id j = j.id == job_id && j.status == Status.pending

-- `(payload.get("reason") or "")[:512]`, and `reason or None` in the row
abbrev pub or_none : Text → Option Text
or_none s = if s == [] then none else some s

abbrev pub set_cancelled : Request → Text → Job → Job
set_cancelled r reason j = record j {
  status = Status.cancelled;
  completed_at = some r.now;
  completed_by_dn = some r.dn;
  error = or_none reason;
}

-- what a job that is over sends: the webhook and the mail
abbrev pub announce : Request → String → String → Text → Option Text → Job → World → World
announce r event kind job_id note row w =
    let w' =
      fire_webhooks
        (record {
          event = event;
          job_id = job_id;
          target_host = row.target_host;
          actor = r.dn;
          note = note;
        })
        w in
    log_mail r
      (record {
        kind = kind;
        job_id = job_id;
        requester_email = row.requester_email;
        group_email = group_email row.group_id w;
      })
      w'

pub data Outcome : Type 0 where
  cancelled denied skipped : Outcome

-- The body that cancel_job and one round of bulk_cancel_jobs share: read the pending row, check the
-- caller, update, and announce.
unfoldable pub cancel_one : Request → Text → Text → World → World × Outcome
unfolding text_eq status_eq
cancel_one r job_id reason w = elim (find (pending_row job_id) w.jobs) [
  | none ↦ (w, Outcome.skipped)
  | some row ↦
      if not (row.requester_dn == r.dn || r.is_admin)
      then (log_event "cancel_job" "deny_not_authorized" job_id w, Outcome.denied)
      else if is_zero (count (pending_row job_id) w.jobs)
      then (w, Outcome.skipped)
      else (
        announce r "job.cancelled" "cancelled" job_id (or_none reason) row (
            log_event "cancel_job" "ok" job_id
              (update_jobs (pending_row job_id) (set_cancelled r reason) w)),
        Outcome.cancelled,
      )
]

abbrev pub cancel_reply : World × Outcome → World × Reply Unit
cancel_reply (w, Outcome.cancelled) = (w, ok tt)
cancel_reply (w, Outcome.denied) =
    (w, error 403 (lit "only the requester or an admin can cancel this job"))
cancel_reply (w, Outcome.skipped) = (w, error 409 (lit "job not in cancellable state"))

unfoldable pub cancel_job : Request → Text → Text → World → World × Reply Unit
cancel_job r job_id reason w =
    if not (is_job_id job_id)
    then (w, abort 400)
    else cancel_reply (cancel_one r job_id (take 512 reason) w)

pub record Tally : Type 0 where
  pub cancelled : List Text
  pub skipped : List Text
  pub denied : List Text

abbrev pub tally : Outcome → Text → Tally → Tally
tally Outcome.cancelled job_id t = record t { cancelled = t.cancelled ++ job_id ∷ [] }
tally Outcome.skipped job_id t = record t { skipped = t.skipped ++ job_id ∷ [] }
tally Outcome.denied job_id t = record t { denied = t.denied ++ job_id ∷ [] }

abbrev pub no_cancels : Tally
no_cancels = record { cancelled = []; skipped = []; denied = [] }

-- the loop of bulk_cancel_jobs
unfoldable pub cancel_all : Request → List Text → Text → World → Tally → World × Tally
cancel_all r [] reason w t = (w, t)
cancel_all r (job_id ∷ job_ids) reason w t =
    let (w', o) = cancel_one r job_id reason w in cancel_all r job_ids reason w' (tally o job_id t)

unfoldable pub bulk_cancel_jobs : Request → List Text → Text → World → World × Reply Tally
unfolding cancel_all
bulk_cancel_jobs r job_ids reason w =
    if is_empty job_ids
    then (w, error 400 (lit "job_ids must be a non-empty array"))
    else if ltb 200 (length job_ids)
    then (w, error 400 (lit "too many jobs in one call (max 200)"))
    else if not (all is_job_id job_ids)
    then (w, error 400 (lit "invalid job id in list"))
    else let (w', t) = cancel_all r job_ids (take 512 reason) w no_cancels in
      (log_event "bulk_cancel" "ok" [] w', ok t)

abbrev pub set_failed : Request → Text → Job → Job
set_failed r note j = record j {
  status = Status.failed;
  error = some note;
  completed_at = some r.now;
  completed_by_dn = some r.dn;
}

-- `(payload.get("error") or "manual mark failed")[:2048]`
abbrev pub failure_note : Text → Text
failure_note note = take 2048 (if note == [] then lit "manual mark failed" else note)

unfoldable pub mark_failed : Request → Text → Text → World → World × Reply Unit
unfolding text_eq status_eq
mark_failed r job_id note w =
    if not (is_job_id job_id)
    then (w, abort 400)
    else if not (is_signer r.dn w)
    then (
      log_event "mark_failed" "deny_not_signer" job_id w,
      error 403 (lit "only signer-group members can mark jobs failed"),
    )
    else elim (find (pending_row job_id) w.jobs) [
      | none ↦ (w, error 409 (lit "job not in markable state"))
      | some row ↦
          if is_zero (count (pending_row job_id) w.jobs)
          then (w, error 409 (lit "job not in markable state"))
          else (
            announce r "job.failed" "failed" job_id (some (failure_note note)) row (
                log_event "mark_failed" "ok" job_id
                  (update_jobs (pending_row job_id) (set_failed r (failure_note note)) w)),
            ok tt,
          )
    ]
