-- ===== src/Jobs/Access.antt =====
-- Who may see a job and what the job view offers (backend/routes_jobs.py, _row_to_job to
-- _visibility_sql, and the sign and revoke flags of get_job).
pub mod Laws
use certheim.Base.{
  Bool, List, Option, Text, contains, false, if◌then◌else◌, is_empty, nat_eq, none, not, option_eq,
  some, text_eq, true, ℕ, ◌&&◌, ◌==◌, ◌||◌,
}
use certheim.Store.{Job, Request, Status, World, is_signer, pending, status_eq, user_group_ids}

-- `gid is not None and gid in user_group_ids`
abbrev pub in_groups : Option ℕ → List ℕ → Bool
in_groups none gids = false
in_groups (some gid) gids = contains gids gid

-- `_job_visible_to`
unfoldable pub job_visible_to : Job → Text → List ℕ → Bool → Bool → Bool
unfolding text_eq nat_eq
job_visible_to row dn gids is_signer is_admin =
    if is_signer || is_admin
    then true
    else if row.requester_dn == dn
    then true
    else not (is_empty gids) && in_groups row.group_id gids

-- `_require_job_visible`, for the current caller
unfoldable pub visible : Request → World → Job → Bool
unfolding job_visible_to
visible r w row = job_visible_to row r.dn (user_group_ids r.dn w) (is_signer r.dn w) r.is_admin

-- `_visibility_sql`: the clause that a query over the jobs gets
unfoldable pub visibility_sql : Request → World → Job → Bool
unfolding text_eq nat_eq
visibility_sql r w row =
    let gids = user_group_ids r.dn w in
    if is_signer r.dn w || r.is_admin
    then true
    else row.requester_dn == r.dn || (if is_empty gids then false else in_groups row.group_id gids)

-- The permissions of `_row_to_job`.
pub record Offers : Type 0 where
  pub is_requester : Bool
  pub can_download_key : Bool
  pub can_edit_group : Bool
  pub can_cancel : Bool
  pub can_mark_failed : Bool

-- `_row_to_job` with the caller's identity
unfoldable pub row_to_job : Request → World → Job → Offers
unfolding text_eq nat_eq status_eq
row_to_job r w row =
    let requester = row.requester_dn == r.dn in
    record {
      is_requester = requester;
      can_download_key =
          row.has_local_key && (requester || in_groups row.group_id (user_group_ids r.dn w));
      can_edit_group = requester || r.is_admin;
      can_cancel = row.status == Status.pending && (requester || r.is_admin);
      can_mark_failed = row.status == Status.pending && is_signer r.dn w;
    }
