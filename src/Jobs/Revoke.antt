-- ===== src/Jobs/Revoke.antt =====
-- revoke_job (backend/routes_signing.py), sign.revoke_cert and _cert_serial_colons (backend/app.py).
use certheim.Jobs.Evolution.{Moves, Steps, Steps-refl, Steps-update_found}
use certheim.Jobs.Completion.{status_name}
use certheim.Jobs.Keys.{row_with_id}
use certheim.Jobs.Ids.{is_job_id}
use certheim.Signing.{Deploy, resolve_signing_policy}
use certheim.Crypto.{Openssl}
use certheim.Base.{
  Bool, Bool-cases, List, Option, Option-cases, Text, [], arith, contains, if◌then◌else◌, inl, inr,
  is_empty, is_zero, length, lit, lower, nat_eq, none, not, option_eq, refl, some, strip, text_eq,
  true, update_where, ℕ, ◌%◌, ◌++◌, ◌==◌, ◌||◌, ◌∷◌, ◌≡◌, ◌≢◌,
}
use certheim.Store.{
  Job, Reply, Request, Status, World, error, fire_webhooks, is_signer, job_by_id, log_event, ok,
  status_eq, update_jobs,
}

-- the text after the first `=`, or all of it
after_equals : Text → Text → Text
unfolding nat_eq
after_equals whole [] = whole
after_equals whole (c ∷ s) = if c == b'=' then s else after_equals whole s

-- pairs of digits, with a colon between two
colons : Text → Text
colons [] = []
colons (a ∷ []) = a ∷ []
colons (a ∷ b ∷ []) = a ∷ b ∷ []
colons (a ∷ b ∷ c ∷ s) = a ∷ b ∷ b':' ∷ colons (c ∷ s)

abbrev odd : ℕ → Bool
odd n = not (is_zero (n % 2))

-- `_cert_serial_colons`, on what `openssl x509 -serial` prints
unfoldable pub cert_serial_colons : Openssl → Text → Option Text
unfolding after_equals colons strip lower
cert_serial_colons ssl cert_pem = elim (ssl.cert_serial cert_pem) [
  | none ↦ none
  | some out ↦
      let s = strip out in
      let raw = lower (strip (after_equals s s)) in
      if is_empty raw then none else some (colons (if odd (length raw) then b'0' ∷ raw else raw))
]

abbrev pub revocable_backends : List Text
revocable_backends = lit "openbao" ∷ lit "windows_ca" ∷ []

abbrev pub set_revoked : Request → Job → Job
set_revoked r j = record j {
  status = Status.revoked;
  revoked_at = some r.now;
  revoked_by_dn = some r.dn;
}

pub record Revocation : Type 0 where
  pub serial : Text
  pub revocation_time : Option ℕ

abbrev cert_or_blank : Option Text → Text
cert_or_blank none = []
cert_or_blank (some c) = c

-- the part after the row has been read
unfoldable pub revoke_row :
    Openssl → Deploy → Request → Text → Job → World → World × Reply Revocation
unfolding text_eq
revoke_row ssl d r job_id row w =
    let backend = (resolve_signing_policy row.template_id w).signer_backend in
    if not (contains revocable_backends backend)
    then (w, error 409 (lit "this certificate's backend does not support in-UI revocation"))
    else if not (d.available (lit "ca.signing." ++ backend))
    then (w, error 409 (backend ++ lit " is not available in this deployment"))
    else elim (cert_serial_colons ssl (cert_or_blank row.cert_pem)) [
      | none ↦ (w, error 500 (lit "could not read the certificate serial"))
      | some serial ↦ elim (d.ca_revoke backend serial) [
        | none ↦ (log_event "revoke" "backend_error" job_id w, error 502 (lit "revoke failed"))
        | some revocation_time ↦ (
          fire_webhooks
              (record {
                event = "job.revoked";
                job_id = job_id;
                target_host = row.target_host;
                actor = r.dn;
                note = some serial;
              })
              (log_event "revoke" "ok" job_id (update_jobs (row_with_id job_id) (set_revoked r) w)),
          ok (record { serial = serial; revocation_time = revocation_time }),
        )
      ]
    ]

unfoldable pub revoke_job : Openssl → Deploy → Request → Text → World → World × Reply Revocation
unfolding text_eq status_eq
revoke_job ssl d r job_id w =
    if not (is_job_id job_id)
    then (w, error 400 (lit "invalid job id"))
    else if not (r.is_admin || is_signer r.dn w)
    then (
      log_event "revoke" "deny_not_signer" job_id w,
      error 403 (lit "not authorized to revoke (signer or admin only)"),
    )
    else elim (job_by_id job_id w) [
      | none ↦ (w, error 404 (lit "job not found"))
      | some row ↦
          if not (row.status == Status.issued)
          then (
            w,
            error 409 (
                lit "job in status '"
                ++ status_name row.status
                ++ lit "', only issued certificates can be revoked"),
          )
          else revoke_row ssl d r job_id row w
    ]

-- How a revocation ends: with an error and the table as it was, or an issued job is revoked at a
-- signer's or an admin's request, after its authority has revoked the serial of its certificate.
pub data Revoked (ssl : Openssl) (d : Deploy) (r : Request) (job_id : Text) (w : World)
    (ks : List Job) (a : Reply Revocation) : Type 0 where
  refused : ks ≡ w.jobs → ((v : Revocation) → a ≢ ok v) → Revoked ssl d r job_id w ks a
  revokes :
      (row : Job) (backend : Text) (v : Revocation)
      → (r.is_admin || is_signer r.dn w) ≡ true
      → job_by_id job_id w ≡ some row
      → row.status ≡ Status.issued
      → backend ≡ (resolve_signing_policy row.template_id w).signer_backend
      → contains revocable_backends backend ≡ true
      → cert_serial_colons ssl (cert_or_blank row.cert_pem) ≡ some v.serial
      → d.ca_revoke backend v.serial ≡ some v.revocation_time
      → ks ≡ update_where (row_with_id job_id) (set_revoked r) w.jobs
      → a ≡ ok v
      → Revoked ssl d r job_id w ks a

revoke_row-Revoked :
    (ssl : Openssl) (d : Deploy) (r : Request) (job_id : Text) (row : Job) (w : World)
    → (r.is_admin || is_signer r.dn w) ≡ true
    → job_by_id job_id w ≡ some row
    → row.status ≡ Status.issued
    → Revoked ssl d r job_id w
        (revoke_row ssl d r job_id row w).0.jobs
        (revoke_row ssl d r job_id row w).1
unfolding revoke_row
revoke_row-Revoked ssl d r job_id row w allowed found issued_row =
    let backend = (resolve_signing_policy row.template_id w).signer_backend in
    elim (Bool-cases (contains revocable_backends backend)) [
      | inr other ↦ refused (ground arith) (λ v e. ground arith)
      | inl fits ↦ elim (Bool-cases (d.available (lit "ca.signing." ++ backend))) [
        | inr missing ↦ refused (ground arith) (λ v e. ground arith)
        | inl there ↦ elim (Option-cases (cert_serial_colons ssl (cert_or_blank row.cert_pem))) [
          | inl unread ↦ refused (ground arith) (λ v e. ground arith)
          | inr (serial, read) ↦ elim (Option-cases (d.ca_revoke backend serial)) [
            | inl failed_there ↦ refused (ground arith) (λ v e. ground arith)
            | inr (time, done) ↦
                revokes row backend (record { serial = serial; revocation_time = time }) allowed
                  found issued_row refl fits read done (ground arith) (ground arith)
          ]
        ]
      ]
    ]

-- A job is revoked only at a signer's or an admin's request, when it is issued, its policy's backend
-- supports revocation, and that backend has revoked the serial of its certificate; on every other
-- path the table is left alone and the answer is an error.
pub revoke_job-Revoked :
    (ssl : Openssl) (d : Deploy) (r : Request) (job_id : Text) (w : World)
    → Revoked ssl d r job_id w (revoke_job ssl d r job_id w).0.jobs (revoke_job ssl d r job_id w).1
unfolding revoke_job
revoke_job-Revoked ssl d r job_id w = elim (Bool-cases (is_job_id job_id)) [
  | inr bad ↦ refused (ground arith) (λ v e. ground arith)
  | inl good ↦ elim (Bool-cases (r.is_admin || is_signer r.dn w)) [
    | inr stranger ↦ refused (ground arith) (λ v e. ground arith)
    | inl allowed ↦ elim (Option-cases (job_by_id job_id w)) [
      | inl missing ↦ refused (ground arith) (λ v e. ground arith)
      | inr (row, found) ↦ elim (Bool-cases (row.status == Status.issued)) [
        | inr other ↦ refused (ground arith) (λ v e. ground arith)
        | inl issued_row ↦
            rw (good, allowed, found, issued_row, revoke_job)
              (revoke_row-Revoked ssl d r job_id row w allowed found (ground arith))
      ]
    ]
  ]
]

module _ (ssl : Openssl) (d : Deploy) where
  revoked-Moves : (r : Request) (j : Job) → j.status ≡ Status.issued → Moves ssl j (set_revoked r j)
  revoked-Moves r j e = record {
    id_kept = refl;
    csr_kept = refl;
    requester_kept = refl;
    host_kept = refl;
    moved = rw e refl;
    certified = λ c. rw e at c;
  }

  Revoked-Steps :
      (r : Request) (job_id : Text) (w : World) (ks : List Job) (a : Reply Revocation)
      → Revoked ssl d r job_id w ks a
      → Steps ssl w.jobs ks
  Revoked-Steps r job_id w ks a (refused same no_answer) = rw same (Steps-refl ssl w.jobs)
  Revoked-Steps r job_id w ks a (revokes row backend v allowed found e b fits read done k answer) =
      rw k (
        Steps-update_found ssl job_id (set_revoked r) row (λ _. refl) (revoked-Moves r row e) w.jobs
          found)

  pub revoke_job-Steps :
      (r : Request) (job_id : Text) (w : World)
      → Steps ssl w.jobs (revoke_job ssl d r job_id w).0.jobs
  revoke_job-Steps r job_id w =
      Revoked-Steps r job_id w (revoke_job ssl d r job_id w).0.jobs (revoke_job ssl d r job_id w).1
        (revoke_job-Revoked ssl d r job_id w)
