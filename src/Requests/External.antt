-- ===== src/Requests/External.antt =====
-- submit_external (backend/routes_requests.py), with _signer_recipients and _coerce_template_id
-- (backend/app.py). The identifier that `uuid4` makes is an argument.
pub mod Laws
use certheim.Base.{
  Bool, List, Option, Text, [], all, any, contains, false, filter, if◌then◌else◌, is_empty, join,
  leb, length, lit, lower, ltb, map, nat_eq, none, not, option_eq, some, strip, text_eq, ℕ, ◌&&◌,
  ◌++◌, ◌==◌, ◌||◌, ◌∷◌,
}
use certheim.Store.{
  Job, Reply, Request, Source, Status, World, error, external, fire_webhooks, group_by_id,
  group_email, is_signer, job_by_id, log_event, log_mail, ok, pending, status_eq, user_group_ids,
}
use certheim.Signing.{Deploy}
use certheim.Crypto.{Openssl}
use certheim.Jobs.Regroup.{GroupField, absent, not_a_number, null, number}
use certheim.Jobs.Keys.{row_with_id}
use certheim.Validation.{TextField, invalid, is_hostname, text, valid, validate_email}
use certheim.Validation.CertTypes.{Types, TypesField, normalize_cert_types, rejected, types}
use certheim.Requests.CsrSubject.{parse_csr_subject}
use certheim.Requests.AutoSign.{auto_sign_jobs}

-- The fields of the request body. A `template_id` that is no integer counts as missing.
pub record Submission : Type 0 where
  pub csr_pem : TextField
  pub target_host : Text
  pub requester_email : TextField
  pub group_id : GroupField
  pub cert_type : TypesField
  pub template_id : Option ℕ

-- the new row is refused where its primary key is taken
abbrev pub insert_job : Job → World → Option World
insert_job j w =
    if any (row_with_id j.id) w.jobs then none else some (record w { jobs = w.jobs ++ j ∷ [] })

-- the CSR of a request, where its size fits
unfoldable pub csr_of : Deploy → TextField → Option Text
csr_of d (text s) = if ltb 50 (length s) && leb (length s) d.max_csr_bytes then some s else none
csr_of d _ = none

-- the group that a request asks for, checked
unfoldable pub choose_group : Request → GroupField → World → Reply (Option ℕ)
unfolding nat_eq
choose_group r absent w = ok none
choose_group r null w = ok none
choose_group r not_a_number w = error 400 (lit "invalid group_id")
choose_group r (number n) w = elim (group_by_id n w) [
  | none ↦ error 400 (lit "group does not exist")
  | some g ↦
      if not r.is_admin && not (contains (user_group_ids r.dn w) n)
      then error 403 (lit "you are not a member of that group")
      else ok (some n)
]

-- `_coerce_template_id`
unfoldable pub coerce_template_id : Option ℕ → World → Option ℕ
unfolding nat_eq
coerce_template_id none w = none
coerce_template_id (some n) w = if any (λ t. t.id == n) w.templates then some n else none

-- the stored text of a list of types
unfoldable types_text_of : Types → Option Text
unfolding join
types_text_of (types ts) = some (join (lit ",") ts)
types_text_of _ = none

-- SQL's TRIM takes blanks only
abbrev has_address : Option Text → Bool
has_address none = false
has_address (some e) = not (all (λ c. c == 32) e)

-- the addresses to add, without those seen
unfoldable pub collect_addresses : List (Option Text) → List Text → List Text → List Text
unfolding strip lower text_eq nat_eq
collect_addresses [] seen out = out
collect_addresses (none ∷ es) seen out = collect_addresses es seen out
collect_addresses (some raw ∷ es) seen out =
    let e = strip raw in
    let skip = collect_addresses es seen out in
    let more = collect_addresses es (lower e ∷ seen) (out ++ e ∷ []) in
    if not (has_address (some raw)) || contains seen (lower e) then skip else more

-- `_signer_recipients`
unfoldable pub signer_recipients : World → List Text
unfolding collect_addresses is_signer
signer_recipients w =
    collect_addresses
      (map (λ g. g.email) (filter (λ g. g.notify_on_new) w.groups)
        ++ map (λ u. u.email) (filter (λ u. u.is_active && is_signer u.dn w) w.users))
      [] []

-- the aggregated mail to the signers, best effort
unfoldable pub notify_signers : Request → World → World
unfolding signer_recipients
notify_signers r w =
    if is_empty (signer_recipients w)
    then w
    else log_mail r
        (record {
          kind = "csrs_created";
          job_id = [];
          requester_email = r.email;
          group_email = none;
        })
        w

-- the new row of an external CSR
abbrev pub external_job :
    Request → Submission → Text → Text → Text → List Text → Option ℕ → Option Text → Option ℕ → Job
external_job r s job_id email csr_pem sans group_id cert_type template_id = record {
  id = job_id;
  created_at = r.now;
  requester_dn = r.dn;
  requester_email = some email;
  target_host = strip s.target_host;
  sans = sans;
  csr_pem = csr_pem;
  cert_pem = none;
  chain_pem = none;
  status = Status.pending;
  completed_at = none;
  completed_by_dn = none;
  error = none;
  expires_at = none;
  has_local_key = false;
  local_key_name = none;
  source = Source.external;
  group_id = group_id;
  cert_type = cert_type;
  key_algo = none;
  renewed_from = none;
  template_id = template_id;
  signed_via = none;
  approved_by_dn = none;
  approved_at = none;
  revoked_at = none;
  revoked_by_dn = none;
  expiry_warned = 0;
  key_storage = none;
  key_vault_path = none;
}

pub record Accepted : Type 0 where
  pub job_id : Text
  pub status : Status
  pub cn : Text
  pub sans : List Text

-- the status that is read back
abbrev status_of : Option Job → Status
status_of none = Status.pending
status_of (some j) = j.status

-- the log line, the webhook and the mail of a new job
unfoldable pub announce_created : Request → Job → World → World
unfolding notify_signers
announce_created r j w = notify_signers r (
    fire_webhooks
      (record {
        event = "job.created";
        job_id = j.id;
        target_host = j.target_host;
        actor = r.dn;
        note = none;
      })
      (log_event "submit_external" "ok" j.id w))

-- what follows the insert: the announcement and, where the template asks for it, the signature
abbrev pub after_insert : Openssl → Deploy → Request → Job → World → World
after_insert ssl d r j w = auto_sign_jobs ssl d r (j.id ∷ []) j.template_id (announce_created r j w)

unfoldable pub create_external :
    Openssl → Deploy → Request → Text → Job → World → World × Reply Accepted
create_external ssl d r cn j w = elim (insert_job j w) [
  | none ↦ (w, error 500 (lit "integrity error"))
  | some w' ↦
      let done = after_insert ssl d r j w' in
      (
        done,
        ok (record {
          job_id = j.id;
          status = status_of (job_by_id j.id done);
          cn = cn;
          sans = j.sans;
        }),
      )
]

-- the part after the group has been checked
unfoldable submit_typed :
    Openssl
    → Deploy
    → Request
    → Submission
    → Text
    → Text
    → Text
    → Option ℕ
    → Types
    → World
    → World × Reply Accepted
unfolding types_text_of
submit_typed ssl d r s job_id csr_pem email group_id (rejected message) w = (w, error 400 message)
submit_typed ssl d r s job_id csr_pem email group_id ts w = elim (ssl.csr_verify csr_pem) [
  | none ↦
      (log_event "submit_external" "error_validation" [] w, error 400 (lit "CSR validation error"))
  | some good ↦
      let (cn, sans) = parse_csr_subject ssl csr_pem in
      if not good
      then (
        log_event "submit_external" "deny_invalid_csr" [] w,
        error 400 (lit "CSR signature failed validation"),
      )
      else create_external ssl d r cn
          (external_job r s job_id email csr_pem sans group_id (types_text_of ts)
            (coerce_template_id s.template_id w))
          w
]

-- the part after the address has been chosen
unfoldable submit_mailed :
    Openssl
    → Deploy
    → Request
    → Submission
    → Text
    → Text
    → Option Text
    → World
    → World × Reply Accepted
unfolding submit_typed
submit_mailed ssl d r s job_id csr_pem none w = (
  log_event "submit_external" "deny_no_email" [] w,
  error 400 (lit "No notification email on file."),
)
submit_mailed ssl d r s job_id csr_pem (some email) w =
    if is_empty email
    then (
      log_event "submit_external" "deny_no_email" [] w,
      error 400 (lit "No notification email on file."),
    )
    else elim (choose_group r s.group_id w) [
      | error code message ↦ (w, error code message)
      | ok group_id ↦
          submit_typed ssl d r s job_id csr_pem email group_id (normalize_cert_types s.cert_type) w
    ]

-- the address of the request, or the caller's own
abbrev or_own : Option Text → Option Text → Option Text
or_own none own = own
or_own (some e) own = some e

unfoldable pub submit_external :
    Openssl → Deploy → Request → Submission → Text → World → World × Reply Accepted
unfolding submit_mailed strip
submit_external ssl d r s job_id w = elim (csr_of d s.csr_pem) [
  | none ↦ (w, error 400 (lit "invalid csr_pem"))
  | some csr_pem ↦
      if is_empty (strip s.target_host) || not (is_hostname (strip s.target_host))
      then (w, error 400 (lit "invalid target_host"))
      else elim (validate_email s.requester_email) [
        | invalid message ↦ (w, error 400 message)
        | valid given ↦ submit_mailed ssl d r s job_id csr_pem (or_own given r.email) w
      ]
]
