-- ===== src/Tests/Jobs.antt =====
-- Runs of the job handlers, and the theorems at them.
use certheim.Domains.{registrable_domain}
use certheim.Domains.Quota.{csr_domains, enforce_domain_quota}
use certheim.Jobs.Sign.Laws.{IsApproved, sign_job-IsApproved}
use certheim.Jobs.Sign.Lifetime.{IsSignedFor, sign_job-IsSignedFor}
use certheim.Signing.{Policy, resolve_signing_policy, sign_csr, ttl_bounds}
use certheim.Jobs.Cancel.{cancel_job}
use certheim.Crypto.{already_expired, cert_upload_warnings, verify_cert_matches_csr}
use certheim.Base.{
  AllPairs, List, [], chomp, false, has_infix, is_digit, length, lit, ltb, nat_eq, none, pos, refl,
  some, text_eq, true, ◌+◌, ◌∷◌, ◌≡◌,
}
use certheim.Store.{Job, Request, job_by_id, ok}
use certheim.Jobs.Completion.{attach_signed_cert}
use certheim.Jobs.Completion.Laws.{Attached, jobs-attach_signed_cert}
use certheim.Jobs.Revoke.{Revoked, revoke_job, revoke_job-Revoked}
use certheim.Jobs.Regroup.{Regrouped, jobs-update_job_group, number, update_job_group}
use certheim.Jobs.Sign.{Signature, choose_ttl, chosen, seconds, sign_job, sign_row}
use certheim.Jobs.Upload.{upload_completer}
use certheim.Jobs.Keys.{IsKeyed}
use certheim.Jobs.Sweep.{IsSwept, jobs-sweep_expired, sweep_expired}
use certheim.Jobs.Ids.{is_hex, is_job_id}
use certheim.Jobs.Delete.{
  Filters, admin_bulk_delete_jobs, admin_delete_job, complaint, delete_job_files, no_days,
  previewed, removed, selects,
}
use certheim.Jobs.Delete.Laws.{IsSelected, IsSound, IsWithout, bulk_delete_exact}
use certheim.Jobs.History.{
  Command, Extends, cancel, delete, list_jobs_sweep, run, run-Extends, run-IsSound, sign,
}
use certheim.Jobs.Access.{row_to_job, visibility_sql, visible}
use certheim.Jobs.Access.Laws.{cancel_job-can_cancel, is_ok, visibility_sql-visible}
use certheim.Tests.Fixtures.{
  admin, alice, issued_id, issued_job, pending_id, pending_job, test_deploy, test_ssl, test_world,
}

-- the pending job is signed, the issued one expires, and the deleted one is gone
abbrev history : List (Request × Command)
history =
    (admin, sign pending_id (seconds (pos 3600)))
    ∷ (admin, list_jobs_sweep)
    ∷ (alice, cancel pending_id (lit "late"))
    ∷ []

abbrev history_with_delete : List (Request × Command)
history_with_delete = (admin, delete issued_id true) ∷ history

test_world-IsKeyed : IsKeyed test_world.jobs
unfolding text_eq
test_world-IsKeyed = (refl, (refl, tt))

test_world-IsSound : IsSound test_ssl test_world.jobs
unfolding verify_cert_matches_csr
test_world-IsSound = (test_world-IsKeyed, (refl, (refl, tt)))

run-IsSound_example :
    IsSound test_ssl (run test_ssl test_deploy history_with_delete test_world).jobs
run-IsSound_example =
    run-IsSound test_ssl test_deploy history_with_delete test_world test_world-IsSound

run-Extends_example : Extends test_world.jobs (run test_ssl test_deploy history test_world).jobs
run-Extends_example = run-Extends test_ssl test_deploy history test_world refl test_world-IsKeyed

jobs-attach_signed_cert_example :
    Attached test_ssl admin
      (upload_completer admin)
      pending_id
      (lit "K")
      test_world.jobs
      (attach_signed_cert test_ssl admin
        (upload_completer admin)
        pending_id
        (lit "K")
        test_world).0.jobs
jobs-attach_signed_cert_example =
    jobs-attach_signed_cert test_ssl admin (upload_completer admin) pending_id (lit "K") test_world

revoke_job-Revoked_example :
    Revoked test_ssl test_deploy admin issued_id test_world
      (revoke_job test_ssl test_deploy admin issued_id test_world).0.jobs
      (revoke_job test_ssl test_deploy admin issued_id test_world).1
revoke_job-Revoked_example = revoke_job-Revoked test_ssl test_deploy admin issued_id test_world

jobs-update_job_group_example :
    Regrouped alice pending_id test_world
      (update_job_group alice pending_id (number 1) test_world).0.jobs
jobs-update_job_group_example = jobs-update_job_group alice pending_id (number 1) test_world

visibility_sql-visible_example :
    visibility_sql alice test_world issued_job ≡ visible alice test_world issued_job
visibility_sql-visible_example = visibility_sql-visible alice test_world issued_job

pending_id-good : is_job_id pending_id ≡ true
unfolding is_job_id is_hex chomp is_digit nat_eq
pending_id-good = refl

pending_job-found : job_by_id pending_id test_world ≡ some pending_job
unfolding text_eq
pending_job-found = refl

cancel_job-can_cancel_example :
    is_ok (cancel_job alice pending_id (lit "late") test_world).1
    ≡ (row_to_job alice test_world pending_job).can_cancel
cancel_job-can_cancel_example =
    cancel_job-can_cancel alice pending_id (lit "late") test_world pending_job pending_id-good
      test_world-IsKeyed pending_job-found

jobs-sweep_expired_example :
    AllPairs (IsSwept 6000) test_world.jobs (sweep_expired 6000 test_world).jobs
jobs-sweep_expired_example = jobs-sweep_expired 6000 test_world

abbrev test_policy : Policy
test_policy = record {
  signer_backend = lit "openbao";
  openbao_role = none;
  max_ttl = some (pos 86400);
  auto_sign = true;
}

-- a lifetime of a week is cut to the policy's day
abbrev cut_policy : Policy
cut_policy = record test_policy { max_ttl = some (pos 86400) }

week_is_cut :
    choose_ttl (seconds (pos 604800)) test_policy test_world ≡ chosen cut_policy (some (pos 86400))
unfolding choose_ttl ttl_bounds
week_is_cut = refl

abbrev old_pending : Filters
old_pending = record {
  ids = [];
  status = some (lit "pending");
  source = none;
  older_than_days = no_days;
  delete_files = false;
  preview = false;
}

old_pending-removes :
    (admin_bulk_delete_jobs 6000 old_pending test_world).1
    ≡ ok (removed (record { deleted = 1; files = [] }))
unfolding admin_bulk_delete_jobs complaint selects
old_pending-removes = refl

bulk_delete_exact_example :
    let js = (admin_bulk_delete_jobs 6000 old_pending test_world).0.jobs in
    let shown = admin_bulk_delete_jobs 6000 (record old_pending { preview = true }) test_world in
    IsWithout (IsSelected 6000 old_pending) test_world.jobs js
    × (length js + 1 ≡ length test_world.jobs)
    × (shown.0.jobs ≡ test_world.jobs)
    × ((rows : List Job) × (shown.1 ≡ ok (previewed 1 (ltb 500 1) rows)))
bulk_delete_exact_example = bulk_delete_exact 6000 old_pending test_world old_pending-removes

pending_job-deletes :
    (admin_delete_job pending_id true test_world).1
    ≡ ok (record { deleted = 1; files = lit "www.key" ∷ [] })
unfolding admin_delete_job is_job_id is_hex chomp is_digit nat_eq text_eq delete_job_files
pending_job-deletes = refl

abbrev test_signature : Signature
test_signature = record {
  completed = record {
    expires_at = some 5000;
    warnings = already_expired ∷ [];
    target_host = lit "www.example.org";
  };
  signed_via = lit "openbao";
  validity_seconds = some (pos 3600);
}

pending_job-signed :
    (sign_job test_ssl test_deploy admin pending_id (seconds (pos 3600)) test_world).1
    ≡ ok test_signature
unfolding sign_job is_job_id is_hex chomp is_digit nat_eq text_eq sign_row resolve_signing_policy
    ttl_bounds sign_csr has_infix enforce_domain_quota csr_domains registrable_domain
    attach_signed_cert verify_cert_matches_csr cert_upload_warnings
pending_job-signed = refl

sign_job-IsApproved_example : IsApproved test_deploy admin pending_id test_world (lit "openbao")
sign_job-IsApproved_example =
    sign_job-IsApproved test_ssl test_deploy admin pending_id (seconds (pos 3600)) test_world
      test_signature pending_job-signed

sign_job-IsSignedFor_example :
    IsSignedFor test_ssl test_deploy admin pending_id test_world
      (pos 3600)
      (sign_job test_ssl test_deploy admin pending_id (seconds (pos 3600)) test_world).0.jobs
sign_job-IsSignedFor_example =
    sign_job-IsSignedFor test_ssl test_deploy admin pending_id (seconds (pos 3600)) test_world
      test_signature (pos 3600) pending_job-signed refl
