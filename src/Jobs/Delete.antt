-- ===== src/Jobs/Delete.antt =====
-- admin_delete_job and admin_bulk_delete_jobs (backend/routes_admin.py), the jobs table only: which
-- helper calls remove key and certificate files is recorded as a list of file names.
pub mod Laws
use certheim.Jobs.Keys.{row_with_id}
use certheim.Jobs.Completion.{status_name}
use certheim.Jobs.Ids.{is_job_id}
use certheim.Base.{
  Bool, List, Option, Text, [], all, arith, contains, filter, if◌then◌else◌, is_empty, length, lit,
  ltb, nat_eq, neg_part, none, not, option_eq, pos_part, some, take, text_eq, true, ℕ, ℤ, ◌&&◌, ◌*◌,
  ◌++◌, ◌+◌, ◌==◌, ◌||◌, ◌∷◌, ◌≡◌,
}
use certheim.Store.{
  Job, Reply, Source, Status, World, abort, error, external, issued, job_by_id, log_event, ok, rhel,
  status_eq,
}

-- the files that `_delete_job_files` asks the helper to remove
unfoldable pub job_files : Job → List Text
unfolding status_eq
job_files j =
    (elim j.local_key_name [
      | none ↦ []
      | some name ↦ if j.has_local_key && not (is_empty name) then name ∷ [] else []
    ])
    ++ (if j.status == Status.issued then (j.target_host ++ lit ".cer") ∷ [] else [])

unfoldable pub delete_job_files : List Job → List Text
unfolding job_files
delete_job_files [] = []
delete_job_files (j ∷ js) = job_files j ++ delete_job_files js

-- `DELETE FROM jobs WHERE …`
abbrev pub delete_jobs : (Job → Bool) → World → World
delete_jobs p w = record w { jobs = filter (λ j. not (p j)) w.jobs }

pub record Deleted : Type 0 where
  pub deleted : ℕ
  pub files : List Text

unfoldable pub admin_delete_job : Text → Bool → World → World × Reply Deleted
unfolding text_eq
admin_delete_job job_id delete_files w =
    if not (is_job_id job_id) then (w, abort 400) else elim (job_by_id job_id w) [
      | none ↦ (w, error 404 (lit "not found"))
      | some row ↦ (
        log_event "admin_delete_job" "ok" job_id (delete_jobs (row_with_id job_id) w),
        ok (record {
          deleted = 1;
          files = if delete_files then delete_job_files (row ∷ []) else [];
        }),
      )
    ]

-- `older_than_days`: missing or zero, not an integer, or an integer
pub data DaysField : Type 0 where
  no_days bad_days : DaysField
  days : ℤ → DaysField

-- The filters of the request body; `status` and `source` as their texts.
pub record Filters : Type 0 where
  pub ids : List Text
  pub status : Option Text
  pub source : Option Text
  pub older_than_days : DaysField
  pub delete_files : Bool
  pub preview : Bool

abbrev deletable : List Text
deletable = lit "pending" ∷ lit "issued" ∷ lit "failed" ∷ lit "cancelled" ∷ lit "expired" ∷ []

abbrev pub source_name : Source → Text
source_name Source.rhel = lit "rhel"
source_name Source.external = lit "external"

abbrev matches_text : Option Text → Text → Bool
matches_text none s = true
matches_text (some t) s = s == t

-- `created_at < now - days * 86400`
abbrev older : ℕ → DaysField → ℕ → Bool
older now (days n) created = ltb (created + pos_part n * 86400) (now + neg_part n * 86400)
older now _ created = true

-- the WHERE clause that the filters make
unfoldable pub selects : ℕ → Filters → Job → Bool
unfolding text_eq status_name
selects now f j =
    (is_empty f.ids || contains f.ids j.id)
    && matches_text f.status (status_name j.status)
    && matches_text f.source (source_name j.source)
    && older now f.older_than_days j.created_at

-- the checks of the filters: `none` where they pass
check_filters : Filters → Option Text
unfolding text_eq
check_filters f = if not (all is_job_id f.ids) then some (lit "invalid ids") else elim f.status [
  | none ↦ if is_empty f.ids then some (lit "status filter is required for bulk cleanup") else none
  | some s ↦ if contains deletable s then none else some (lit "invalid status")
]

check_source : Option Text → Option Text
unfolding text_eq
check_source none = none
check_source (some s) =
    if s == lit "rhel" || s == lit "external" then none else some (lit "invalid source")

check_days : DaysField → Option Text
check_days bad_days = some (lit "invalid older_than_days")
check_days _ = none

-- the first complaint, if any
abbrev or_else : Option Text → Option Text → Option Text
or_else none y = y
or_else (some m) y = some m

-- every check of the request body, in the handler's order
unfoldable pub complaint : Filters → Option Text
unfolding check_filters check_source check_days
complaint f =
    or_else (check_filters f) (or_else (check_source f.source) (check_days f.older_than_days))

-- `ORDER BY created_at DESC`; rows of one time keep their order
insert_newest : Job → List Job → List Job
insert_newest j [] = j ∷ []
insert_newest j (k ∷ ks) =
    let rest = insert_newest j ks in if ltb j.created_at k.created_at then k ∷ rest else j ∷ k ∷ ks

newest_first : List Job → List Job
unfolding insert_newest
newest_first [] = []
newest_first (j ∷ js) = insert_newest j (newest_first js)

-- the most rows that a preview shows
abbrev preview_cap : ℕ
preview_cap = 500

pub data BulkDeleted : Type 0 where
  -- how many rows there are, whether some are cut off, and the rows shown
  previewed : ℕ → Bool → List Job → BulkDeleted
  removed : Deleted → BulkDeleted

unfoldable pub admin_bulk_delete_jobs : ℕ → Filters → World → World × Reply BulkDeleted
unfolding newest_first
admin_bulk_delete_jobs now f w = elim (complaint f) [
  | some message ↦ (w, error 400 message)
  | none ↦
      let rows = newest_first (filter (selects now f) w.jobs) in
      if f.preview
      then (
        log_event "admin_bulk_delete" "preview" [] w,
        ok (previewed (length rows) (ltb preview_cap (length rows)) (take preview_cap rows)),
      )
      else if is_empty rows
      then (w, ok (removed (record { deleted = 0; files = [] })))
      else (
        log_event "admin_bulk_delete" "ok" [] (delete_jobs (selects now f) w),
        ok (
            removed (record {
              deleted = length rows;
              files = if f.delete_files then delete_job_files rows else [];
            })),
      )
]

-- A bulk deletion that names no ids removes only jobs of the one status that it names.
bulk_delete_needs_status :
    (now : ℕ) (f : Filters) (w : World) (j : Job)
    → f.ids ≡ []
    → complaint f ≡ none
    → selects now f j ≡ true
    → f.status ≡ some (status_name j.status)
unfolding complaint selects
bulk_delete_needs_status now f w j no_ids passed hit = ground arith
