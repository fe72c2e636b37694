-- ===== src/Jobs/Access/Laws.antt =====
-- Theorems on visibility and on the permissions of a job's view (backend/routes_jobs.py).
use certheim.Base.{
  Bool, Bool-cases, List, Option, Text, [], any, arith, count, false, find, if◌then◌else◌, inl, inr,
  is_zero, nat_eq, none, option_eq, refl, some, text_eq, true, ◌==◌, ◌∷◌, ◌≡◌,
}
use certheim.Store.{Job, Reply, Request, Status, World, error, job_by_id, ok, status_eq}
use certheim.Jobs.Ids.{is_job_id}
use certheim.Jobs.Keys.{IsKeyed, row_with_id}
use certheim.Jobs.Access.{row_to_job, visibility_sql, visible}
use certheim.Jobs.Cancel.{cancel_job, cancel_one, mark_failed, pending_row}

-- The clause that the lists and counts get selects exactly the jobs that the caller may open.
pub visibility_sql-visible :
    (r : Request) (w : World) (row : Job) → visibility_sql r w row ≡ visible r w row
unfolding visibility_sql visible
visibility_sql-visible r w row = ground arith

-- Whether a request was answered with success.
abbrev pub is_ok : {A : Type 0} → Reply A → Bool
is_ok (ok v) = true
is_ok (error code message) = false

abbrev pending_only : Job → Option Job
pending_only row = if row.status == Status.pending then some row else none

find_absent :
    (job_id : Text) (js : List Job)
    → any (row_with_id job_id) js ≡ false
    → find (pending_row job_id) js ≡ none
find_absent job_id [] h = refl
find_absent job_id (j ∷ js) h = ground (arith, find_absent job_id js (ground arith))

-- Under the key, the pending update finds the row of the id where that row is pending.
find-pending_row :
    (job_id : Text) (row : Job) (js : List Job)
    → IsKeyed js
    → find (row_with_id job_id) js ≡ some row
    → find (pending_row job_id) js ≡ pending_only row
find-pending_row job_id row [] h e = absurd (ground arith)
find-pending_row job_id row (j ∷ js) h e = elim (Bool-cases (row_with_id job_id j)) [
  | inl hit ↦
      let same : row ≡ j = ground arith in
      ground (arith, same, find_absent job_id js (ground arith))
  | inr miss ↦ ground (arith, find-pending_row job_id row js h.1 (ground arith))
]

-- What a query finds, it counts.
count-find :
    (p : Job → Bool) (row : Job) (js : List Job)
    → find p js ≡ some row
    → is_zero (count p js) ≡ false
count-find p row [] e = absurd (ground arith)
count-find p row (j ∷ js) e = elim (Bool-cases (p j)) [
  | inl hit ↦ ground arith
  | inr miss ↦ ground (arith, count-find p row js (ground arith))
]

-- The view of a job offers to cancel it exactly when cancelling it will succeed.
pub cancel_job-can_cancel :
    (r : Request) (job_id reason : Text) (w : World) (row : Job)
    → is_job_id job_id ≡ true
    → IsKeyed w.jobs
    → job_by_id job_id w ≡ some row
    → is_ok (cancel_job r job_id reason w).1 ≡ (row_to_job r w row).can_cancel
unfolding cancel_job cancel_one row_to_job
cancel_job-can_cancel r job_id reason w row good keyed found =
    let e : find (pending_row job_id) w.jobs ≡ pending_only row =
      find-pending_row job_id row w.jobs keyed found in
    elim (Bool-cases (row.status == Status.pending)) [
      | inl open_job ↦
          let e' : find (pending_row job_id) w.jobs ≡ some row = ground arith in
          ground (arith, e', count-find (pending_row job_id) row w.jobs e')
      | inr closed ↦ ground arith
    ]

-- The view of a job offers to mark it failed exactly when that will succeed.
mark_failed-can_mark_failed :
    (r : Request) (job_id note : Text) (w : World) (row : Job)
    → is_job_id job_id ≡ true
    → IsKeyed w.jobs
    → job_by_id job_id w ≡ some row
    → is_ok (mark_failed r job_id note w).1 ≡ (row_to_job r w row).can_mark_failed
unfolding mark_failed row_to_job
mark_failed-can_mark_failed r job_id note w row good keyed found =
    let e : find (pending_row job_id) w.jobs ≡ pending_only row =
      find-pending_row job_id row w.jobs keyed found in
    elim (Bool-cases (row.status == Status.pending)) [
      | inl open_job ↦
          let e' : find (pending_row job_id) w.jobs ≡ some row = ground arith in
          ground (arith, e', count-find (pending_row job_id) row w.jobs e')
      | inr closed ↦ ground arith
    ]
