-- ===== src/Jobs/Completion.antt =====
-- The shared completion path of an issued certificate (backend/app.py, _fleet_track_issued and
-- _attach_signed_cert). This edition ships no `deliver` module, so the delivery hook always raises
-- and leaves only its log line.
pub mod Laws
use certheim.Base.{
  Bool, List, Option, String, Text, [], any, if◌then◌else◌, lit, nat_eq, none, not, option_eq, some,
  take, text_eq, update_where, ℕ, ◌&&◌, ◌++◌, ◌==◌, ◌∷◌,
}
use certheim.Jobs.Keys.{row_with_id}
use certheim.Store.{
  FleetCert, Job, Reply, Request, Status, World, cancelled, error, expired, failed, fire_webhooks,
  group_email, issued, job_by_id, log_event, log_mail, ok, pending, revoked, status_eq,
  strip_or_none, update_jobs,
}
use certheim.Crypto.{CertInfo, Openssl, Warning, cert_upload_warnings, verify_cert_matches_csr}

-- the row that ON CONFLICT(host, path) hits
abbrev fleet_key : Text → Text → FleetCert → Bool
fleet_key host path f = f.host == host && f.path == path

abbrev renew_fleet : FleetCert → FleetCert → FleetCert
renew_fleet new old = record new { first_seen = old.first_seen }

-- INSERT … ON CONFLICT(host, path) DO UPDATE
unfoldable pub upsert_fleet : FleetCert → List FleetCert → List FleetCert
unfolding text_eq
upsert_fleet new fs =
    if any (fleet_key new.host new.path) fs
    then update_where (fleet_key new.host new.path) (renew_fleet new) fs
    else fs ++ new ∷ []

-- `"dashboard:" + (str(job_id) if job_id else fingerprint[:16])`
fleet_path : Text → CertInfo → Text
unfolding text_eq
fleet_path job_id info =
    lit "dashboard:" ++ (if job_id == [] then take 16 info.fingerprint else job_id)

unfoldable pub fleet_track_issued : Openssl → ℕ → Text → Text → Option Text → Text → World → World
unfolding fleet_path
fleet_track_issued ssl now host cert_pem notify_email job_id w = elim (ssl.parse_cert cert_pem) [
  | none ↦ w
  | some info ↦ record w {
    fleet =
        upsert_fleet
          (record {
            host = host;
            path = fleet_path job_id info;
            fingerprint = info.fingerprint;
            cn = info.cn;
            expires_at = info.expires_at;
            notify_email = notify_email;
            first_seen = now;
            last_seen = now;
            pem = cert_pem;
            expiry_warned = 0;
          })
          w.fleet;
  }
]

-- Who completes a job and how: `actor_dn`, `signed_via`, `approver_dn`, `log_action`, `chain_pem`.
pub record Completer : Type 0 where
  pub actor_dn : Text
  pub signed_via : Text
  pub approver_dn : Option Text
  pub log_action : String
  pub chain_pem : Text

pub record Completed : Type 0 where
  pub expires_at : Option ℕ
  pub warnings : List Warning
  pub target_host : Text

-- the time of an approval: `now if approver_dn else None`
abbrev approval_time : ℕ → Option Text → Option ℕ
approval_time now none = none
approval_time now (some dn) = if dn == [] then none else some now

abbrev pub set_issued : Openssl → ℕ → Completer → Text → Job → Job
set_issued ssl now c cert_pem j = record j {
  status = Status.issued;
  cert_pem = some cert_pem;
  chain_pem = strip_or_none c.chain_pem;
  completed_at = some now;
  completed_by_dn = some c.actor_dn;
  expires_at = ssl.cert_expiry cert_pem;
  error = none;
  signed_via = some c.signed_via;
  approved_by_dn = c.approver_dn;
  approved_at = approval_time now c.approver_dn;
}

-- the drop to ISSUED_DIR, best effort
drop_issued : Request → Text → Text → Text → World → World
drop_issued r job_id host cert_pem w =
    if r.disk_ok
    then record w { issued_dir = (host ++ lit ".cer", cert_pem) ∷ w.issued_dir }
    else log_event "filesystem_drop" "error" job_id w

-- the webhook, the mail and the delivery hook that follow an issue
announce_issued : Request → Completer → Text → Job → World → World
announce_issued r c job_id row w =
    let hooked =
      fire_webhooks
        (record {
          event = "job.issued";
          job_id = job_id;
          target_host = row.target_host;
          actor = c.actor_dn;
          note = none;
        })
        w in
    let mailed =
      log_mail r
        (record {
          kind = "cert_issued";
          job_id = job_id;
          requester_email = row.requester_email;
          group_email = group_email row.group_id w;
        })
        hooked in
    log_event "delivery" "hook_exception" job_id mailed

unfoldable pub status_name : Status → Text
status_name Status.pending = lit "pending"
status_name Status.issued = lit "issued"
status_name Status.failed = lit "failed"
status_name Status.cancelled = lit "cancelled"
status_name Status.expired = lit "expired"
status_name Status.revoked = lit "revoked"

unfoldable pub attach_signed_cert :
    Openssl → Request → Completer → Text → Text → World → World × Reply Completed
unfolding text_eq status_eq status_name drop_issued announce_issued
attach_signed_cert ssl r c job_id cert_pem w = elim (job_by_id job_id w) [
  | none ↦ (w, error 404 (lit "job not found"))
  | some row ↦
      if not (row.status == Status.pending)
      then (
        w,
        error 409 (lit "job in status '" ++ status_name row.status ++ lit "', cannot accept cert"),
      )
      else if not (verify_cert_matches_csr ssl row.csr_pem cert_pem)
      then (
        log_event c.log_action "deny_pubkey_mismatch" job_id w,
        error 400 (lit "cert public key does not match this job's CSR."),
      )
      else (
        announce_issued r c job_id row (
            log_event c.log_action "ok" job_id (
              drop_issued r job_id row.target_host cert_pem (
                fleet_track_issued ssl r.now row.target_host cert_pem row.requester_email job_id
                  (update_jobs (row_with_id job_id) (set_issued ssl r.now c cert_pem) w)))),
        ok (record {
          expires_at = ssl.cert_expiry cert_pem;
          warnings = cert_upload_warnings ssl r.now cert_pem;
          target_host = row.target_host;
        }),
      )
]
