-- ===== src/Jobs/Delete/Laws.antt =====
-- Theorems on admin_delete_job and admin_bulk_delete_jobs (backend/routes_admin.py).
use certheim.Jobs.Completion.{status_name}
use certheim.Base.{
  All, Bool, Bool-cases, List, Option, Option-cases, Text, [], any, ap, arith, contains, false,
  filter, find, inl, inr, is_empty, length, ltb, nat_eq, negsuc, none, not, option_eq, pos, refl,
  some, take, text_eq, true, ℕ, ◌*◌, ◌+◌, ◌<◌, ◌∷◌, ◌≡◌, ◌⊎◌,
}
use certheim.Store.{Job, World, job_by_id, ok, status_eq}
use certheim.Crypto.{Openssl}
use certheim.Jobs.Keys.{IsKeyed, row_with_id}
use certheim.Jobs.Evolution.{IsCertified}
use certheim.Jobs.Delete.{
  DaysField, Deleted, Filters, admin_bulk_delete_jobs, admin_delete_job, bad_days, complaint, days,
  insert_newest, matches_text, newest_first, no_days, older, previewed, removed, selects,
  source_name,
}

any-filter : (p q : Job → Bool) (js : List Job) → any q js ≡ false → any q (filter p js) ≡ false
any-filter p q [] h = refl
any-filter p q (j ∷ js) h = ground (arith, any-filter p q js (ground arith))

pub IsKeyed-filter : (p : Job → Bool) (js : List Job) → IsKeyed js → IsKeyed (filter p js)
IsKeyed-filter p [] h = tt
IsKeyed-filter p (j ∷ js) h = elim (Bool-cases (p j)) [
  | inl hit ↦ rw hit (any-filter p (row_with_id j.id) js h.0, IsKeyed-filter p js h.1)
  | inr miss ↦ rw miss (IsKeyed-filter p js h.1)
]

All-filter : (P : Job → Type 0) (p : Job → Bool) (js : List Job) → All P js → All P (filter p js)
All-filter P p [] h = tt
All-filter P p (j ∷ js) h = elim (Bool-cases (p j)) [
  | inl hit ↦ rw hit (h.0, All-filter P p js h.1)
  | inr miss ↦ rw miss (All-filter P p js h.1)
]

-- What holds of the jobs table at all times: no two rows share an id, and every row holds a
-- certificate exactly in the states that need one, for the key of its own CSR.
abbrev pub IsSound : Openssl → List Job → Type 0
IsSound ssl js = IsKeyed js × All (IsCertified ssl) js

module _ (ssl : Openssl) where
  filter-IsSound : (p : Job → Bool) (js : List Job) → IsSound ssl js → IsSound ssl (filter p js)
  filter-IsSound p js h = (IsKeyed-filter p js h.0, All-filter (IsCertified ssl) p js h.1)

  pub admin_delete_job-IsSound :
      (job_id : Text) (delete_files : Bool) (w : World)
      → IsSound ssl w.jobs
      → IsSound ssl (admin_delete_job job_id delete_files w).0.jobs
  unfolding admin_delete_job
  admin_delete_job-IsSound job_id delete_files w h =
      ground (arith, filter-IsSound (λ (j : Job). not (row_with_id job_id j)) w.jobs h)

  pub admin_bulk_delete_jobs-IsSound :
      (now : ℕ) (f : Filters) (w : World)
      → IsSound ssl w.jobs
      → IsSound ssl (admin_bulk_delete_jobs now f w).0.jobs
  unfolding admin_bulk_delete_jobs
  admin_bulk_delete_jobs-IsSound now f w h =
      ground (arith, filter-IsSound (λ (j : Job). not (selects now f j)) w.jobs h)

find-filter :
    (job_id : Text) (js : List Job)
    → find (row_with_id job_id) (filter (λ j. not (row_with_id job_id j)) js) ≡ none
find-filter job_id [] = refl
find-filter job_id (j ∷ js) = ground (arith, find-filter job_id js)

-- A job that an admin has deleted is gone.
admin_delete_job_gone :
    (job_id : Text) (delete_files : Bool) (w : World) {done : Deleted}
    → (admin_delete_job job_id delete_files w).1 ≡ ok done
    → job_by_id job_id (admin_delete_job job_id delete_files w).0 ≡ none
unfolding admin_delete_job
admin_delete_job_gone job_id delete_files w h = ground (arith, find-filter job_id w.jobs)

-- What the filters of a bulk deletion mean: the ids that are named, if any, the status, the source
-- and the least age in days, where they are given.
pub record IsSelected (now : ℕ) (f : Filters) (j : Job) : Type 0 where
  pub by_id : (f.ids ≡ []) ⊎ (contains f.ids j.id ≡ true)
  pub by_status : (s : Text) → f.status ≡ some s → status_name j.status ≡ s
  pub by_source : (s : Text) → f.source ≡ some s → source_name j.source ≡ s
  pub by_age : (n : ℕ) → f.older_than_days ≡ days (pos n) → j.created_at + n * 86400 < now
  pub by_negative_age :
      (n : ℕ) → f.older_than_days ≡ days (negsuc n) → j.created_at < now + (n + 1) * 86400

selects-IsSelected : (now : ℕ) (f : Filters) (j : Job) → selects now f j ≡ true → IsSelected now f j
unfolding selects
selects-IsSelected now f j hit = record {
  by_id = ground arith;
  by_status = λ s e. ground arith;
  by_source = λ s e. ground arith;
  by_age = λ n e. ground arith;
  by_negative_age = λ n e. ground arith;
}

matches_text-all :
    (o : Option Text) (t : Text) → ((s : Text) → o ≡ some s → t ≡ s) → matches_text o t ≡ true
unfolding text_eq
matches_text-all none t h = refl
matches_text-all (some s) t h = ground (arith, h s refl)

older-all :
    (now created : ℕ) (d : DaysField)
    → ((n : ℕ) → d ≡ days (pos n) → created + n * 86400 < now)
    → ((n : ℕ) → d ≡ days (negsuc n) → created < now + (n + 1) * 86400)
    → older now d created ≡ true
older-all now created no_days h k = refl
older-all now created bad_days h k = refl
older-all now created (days (pos n)) h k = ground (arith, h n refl)
older-all now created (days (negsuc n)) h k = ground (arith, k n refl)

IsSelected-selects : (now : ℕ) (f : Filters) (j : Job) → IsSelected now f j → selects now f j ≡ true
unfolding selects
IsSelected-selects now f j h =
    let state = matches_text-all f.status (status_name j.status) h.by_status in
    let origin = matches_text-all f.source (source_name j.source) h.by_source in
    let age = older-all now j.created_at f.older_than_days h.by_age h.by_negative_age in
    ground (arith, h.by_id, state, origin, age)

-- The second list is the first without the rows of a predicate, in their order.
pub data IsWithout (P : Job → Type 0) : List Job → List Job → Type 0 where
  none_left : IsWithout P [] []
  dropped : {j : Job} {js ks : List Job} → P j → IsWithout P js ks → IsWithout P (j ∷ js) ks
  kept : {j : Job} {js ks : List Job} → ¬ P j → IsWithout P js ks → IsWithout P (j ∷ js) (j ∷ ks)

selects-IsWithout :
    (now : ℕ) (f : Filters) (js : List Job)
    → IsWithout (IsSelected now f) js (filter (λ j. not (selects now f j)) js)
selects-IsWithout now f [] = none_left
selects-IsWithout now f (j ∷ js) = elim (Bool-cases (selects now f j)) [
  | inl hit ↦ rw hit (dropped (selects-IsSelected now f j hit) (selects-IsWithout now f js))
  | inr miss ↦ rw miss (
      kept (λ h. absurd (ground (arith, IsSelected-selects now f j h)))
        (selects-IsWithout now f js))
]

length-insert_newest : (j : Job) (ks : List Job) → length (insert_newest j ks) ≡ 1 + length ks
unfolding insert_newest
length-insert_newest j [] = refl
length-insert_newest j (k ∷ ks) = ground (arith, length-insert_newest j ks)

length-newest_first : (js : List Job) → length (newest_first js) ≡ length js
unfolding newest_first
length-newest_first [] = refl
length-newest_first (j ∷ js) =
    omega (arith, length-insert_newest j (newest_first js), length-newest_first js)

filter-not_none :
    (p : Job → Bool) (js : List Job)
    → is_empty (filter p js) ≡ true
    → filter (λ j. not (p j)) js ≡ js
filter-not_none p [] h = refl
filter-not_none p (j ∷ js) h = ground (arith, filter-not_none p js (ground arith))

length-filter-not :
    (p : Job → Bool) (js : List Job)
    → length (filter (λ j. not (p j)) js) + length (filter p js) ≡ length js
length-filter-not p [] = refl
length-filter-not p (j ∷ js) = ground (arith, length-filter-not p js)

is_empty-newest_first : (js : List Job) → is_empty (newest_first js) ≡ true → js ≡ []
unfolding newest_first insert_newest
is_empty-newest_first [] h = refl
is_empty-newest_first (j ∷ js) h = absurd (ground (arith, length-insert_newest j (newest_first js)))

-- The table after a bulk deletion, and its answer, where the filters pass and no preview is asked.
bulk_delete-removed :
    (now : ℕ) (f : Filters) (w : World) {done : Deleted}
    → (admin_bulk_delete_jobs now f w).1 ≡ ok (removed done)
    → ((admin_bulk_delete_jobs now f w).0.jobs ≡ filter (λ j. not (selects now f j)) w.jobs)
      × (done.deleted ≡ length (filter (selects now f) w.jobs))
      × (complaint f ≡ none)
unfolding admin_bulk_delete_jobs
bulk_delete-removed now f w {done} h =
    let hits = filter (selects now f) w.jobs in
    elim (Option-cases (complaint f)) [
      | inr (message, refused) ↦ absurd (ground arith)
      | inl passed ↦ elim (Bool-cases (is_empty (newest_first hits))) [
        | inr some_hit ↦ (ground arith, ground (arith, length-newest_first hits), passed)
        | inl no_hit ↦
            let nothing : hits ≡ [] = is_empty-newest_first hits no_hit in
            (
              ground (arith, filter-not_none (selects now f) w.jobs (ap is_empty nothing)),
              ground (arith, ap length nothing),
              passed,
            )
      ]
    ]

bulk_delete-preview :
    (now : ℕ) (f : Filters) (w : World)
    → complaint (record f { preview = true }) ≡ none
    → let hits = filter (selects now (record f { preview = true })) w.jobs in
      let shown = admin_bulk_delete_jobs now (record f { preview = true }) w in
      (shown.0.jobs ≡ w.jobs)
      × (shown.1
          ≡ ok (previewed (length hits) (ltb 500 (length hits)) (take 500 (newest_first hits))))
unfolding admin_bulk_delete_jobs newest_first
bulk_delete-preview now f w passed =
    let hits = filter (selects now (record f { preview = true })) w.jobs in
    rw (admin_bulk_delete_jobs, passed, length-newest_first hits) (refl, refl)

pub bulk_delete_exact :
    (now : ℕ) (f : Filters) (w : World) {done : Deleted}
    → (admin_bulk_delete_jobs now f w).1 ≡ ok (removed done)
    → let js = (admin_bulk_delete_jobs now f w).0.jobs in
      let shown = admin_bulk_delete_jobs now (record f { preview = true }) w in
      IsWithout (IsSelected now f) w.jobs js
      × (length js + done.deleted ≡ length w.jobs)
      × (shown.0.jobs ≡ w.jobs)
      × ((rows : List Job) × (shown.1 ≡ ok (previewed done.deleted (ltb 500 done.deleted) rows)))
unfolding complaint selects
bulk_delete_exact now f w {done} h =
    let (left, counted, passed) = bulk_delete-removed now f w {done = done} h in
    let (same, shows) = bulk_delete-preview now f w passed in
    (
      rw left (selects-IsWithout now f w.jobs),
      omega (arith, ap length left, counted, length-filter-not (selects now f) w.jobs),
      same,
      (take 500 (newest_first (filter (selects now f) w.jobs)), rw counted shows),
    )
