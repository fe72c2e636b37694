-- ===== src/Jobs/Regroup.antt =====
-- update_job_group (backend/routes_jobs.py).
use certheim.Jobs.Evolution.{Moves, Steps, Steps-refl, Steps-update_where, can_become_refl}
use certheim.Crypto.{Openssl}
use certheim.Jobs.Keys.{row_with_id}
use certheim.Jobs.Ids.{is_job_id}
use certheim.Base.{
  Bool, Bool-cases, List, Option, Option-cases, Text, arith, contains, false, if◌then◌else◌, inl,
  inr, lit, nat_eq, none, not, option_eq, refl, some, text_eq, true, update_where, ℕ, ◌&&◌, ◌==◌,
  ◌||◌, ◌≡◌, ◌≢◌,
}
use certheim.Store.{
  Job, Reply, Request, World, abort, error, group_by_id, job_by_id, log_event, ok, status_eq,
  update_jobs, user_group_ids,
}

-- the `group_id` of the request body: absent, not a number, or a number or null
pub data GroupField : Type 0 where
  absent not_a_number null : GroupField
  number : ℕ → GroupField

abbrev pub set_group : Option ℕ → Job → Job
set_group group_id j = record j { group_id = group_id }

-- a null group needs no membership
abbrev in_groups_or_null : Option ℕ → List ℕ → Bool
in_groups_or_null none gids = true
in_groups_or_null (some g) gids = contains gids g

-- the part after the body has been checked
reassign : Request → Text → Option ℕ → World → World × Reply (Option ℕ)
unfolding text_eq nat_eq
reassign r job_id new_group w = elim (job_by_id job_id w) [
  | none ↦ (w, abort 404)
  | some row ↦
      if not (row.requester_dn == r.dn || r.is_admin)
      then (log_event "update_job_group" "deny_not_authorized" job_id w, abort 403)
      else if not r.is_admin && not (in_groups_or_null new_group (user_group_ids r.dn w))
      then (
        log_event "update_job_group" "deny_not_in_group" job_id w,
        error 403 (lit "you are not a member of that group"),
      )
      else (
        log_event "update_job_group" "ok" job_id
            (update_jobs (row_with_id job_id) (set_group new_group) w),
        ok new_group,
      )
]

-- the checks of the body's group
update_known : Request → Text → GroupField → World → World × Reply (Option ℕ)
update_known r job_id absent w = (w, error 400 (lit "group_id is required (use null to unassign)"))
update_known r job_id not_a_number w = (w, error 400 (lit "invalid group_id"))
update_known r job_id null w = reassign r job_id none w
update_known r job_id (number group_id) w = elim (group_by_id group_id w) [
  | none ↦ (w, error 400 (lit "group does not exist"))
  | some g ↦ reassign r job_id (some group_id) w
]

unfoldable pub update_job_group : Request → Text → GroupField → World → World × Reply (Option ℕ)
unfolding update_known reassign
update_job_group r job_id field w =
    if not (is_job_id job_id) then (w, abort 400) else update_known r job_id field w

-- a group that a request may give to a job
abbrev pub MayUse : Request → World → Option ℕ → Type 0
MayUse r w none = Unit
MayUse r w (some g) =
    (group_by_id g w ≢ none) × ((r.is_admin || contains (user_group_ids r.dn w) g) ≡ true)

-- How an update of the group ends.
pub data Regrouped (r : Request) (job_id : Text) (w : World) (ks : List Job) : Type 0 where
  refused : ks ≡ w.jobs → Regrouped r job_id w ks
  regrouped :
      (row : Job) (g : Option ℕ)
      → job_by_id job_id w ≡ some row
      → (row.requester_dn == r.dn || r.is_admin) ≡ true
      → MayUse r w g
      → ks ≡ update_where (row_with_id job_id) (set_group g) w.jobs
      → Regrouped r job_id w ks

MayUse-of_test :
    (r : Request) (w : World) (g : Option ℕ)
    → ((n : ℕ) → g ≡ some n → group_by_id n w ≢ none)
    → (not r.is_admin && not (in_groups_or_null g (user_group_ids r.dn w))) ≡ false
    → MayUse r w g
MayUse-of_test r w none known h = tt
MayUse-of_test r w (some n) known h = (known n refl, ground arith)

jobs-reassign :
    (r : Request) (job_id : Text) (g : Option ℕ) (w : World)
    → ((n : ℕ) → g ≡ some n → group_by_id n w ≢ none)
    → Regrouped r job_id w (reassign r job_id g w).0.jobs
unfolding reassign
jobs-reassign r job_id g w known = elim (Option-cases (job_by_id job_id w)) [
  | inl missing ↦ refused (ground arith)
  | inr (row, found) ↦ elim (Bool-cases (row.requester_dn == r.dn || r.is_admin)) [
    | inr stranger ↦ refused (ground arith)
    | inl allowed ↦
        elim (Bool-cases (not r.is_admin && not (in_groups_or_null g (user_group_ids r.dn w)))) [
          | inl outside ↦ refused (ground arith)
          | inr inside ↦
              regrouped row g found allowed (MayUse-of_test r w g known inside) (ground arith)
        ]
  ]
]

jobs-update_known :
    (r : Request) (job_id : Text) (field : GroupField) (w : World)
    → Regrouped r job_id w (update_known r job_id field w).0.jobs
unfolding update_known
jobs-update_known r job_id absent w = refused refl
jobs-update_known r job_id not_a_number w = refused refl
jobs-update_known r job_id null w = jobs-reassign r job_id none w (λ n e. cc)
jobs-update_known r job_id (number n) w = elim (Option-cases (group_by_id n w)) [
  | inl missing ↦ refused (ground arith)
  | inr (g, known) ↦
      rw (known, update_known) (jobs-reassign r job_id (some n) w (λ m e missing. ground arith))
]

-- A job changes its group only at its requester's or an admin's request, to no group or to one that
-- exists and that the caller, unless an admin, belongs to; nothing else of the table changes.
pub jobs-update_job_group :
    (r : Request) (job_id : Text) (field : GroupField) (w : World)
    → Regrouped r job_id w (update_job_group r job_id field w).0.jobs
unfolding update_job_group
jobs-update_job_group r job_id field w = elim (Bool-cases (is_job_id job_id)) [
  | inr bad ↦ refused (ground arith)
  | inl good ↦ rw good (jobs-update_known r job_id field w)
]

module _ (ssl : Openssl) where
  regroup-Moves : (g : Option ℕ) (j : Job) → Moves ssl j (set_group g j)
  regroup-Moves g j = record {
    id_kept = refl;
    csr_kept = refl;
    requester_kept = refl;
    host_kept = refl;
    moved = can_become_refl j.status;
    certified = λ c. c;
  }

  Regrouped-Steps :
      (r : Request) (job_id : Text) (w : World) (ks : List Job)
      → Regrouped r job_id w ks
      → Steps ssl w.jobs ks
  Regrouped-Steps r job_id w ks (refused e) = rw e (Steps-refl ssl w.jobs)
  Regrouped-Steps r job_id w ks (regrouped row g found allowed may e) = rw e (
      Steps-update_where ssl (row_with_id job_id) (set_group g) (λ _. refl)
        (λ j _. regroup-Moves g j) w.jobs)

  pub update_job_group-Steps :
      (r : Request) (job_id : Text) (field : GroupField) (w : World)
      → Steps ssl w.jobs (update_job_group r job_id field w).0.jobs
  update_job_group-Steps r job_id field w =
      Regrouped-Steps r job_id w (update_job_group r job_id field w).0.jobs
        (jobs-update_job_group r job_id field w)
