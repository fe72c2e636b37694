-- ===== src/Jobs/Upload.antt =====
-- upload_cert (backend/routes_jobs.py) and _normalize_cert_to_pem (backend/app.py). Bytes and
-- characters are both numbers; `decode_utf8` and `encode_utf8` pass from one to the other.
use certheim.Base.{
  Option, Option-cases, Text, [], arith, drop, has_infix, if◌then◌else◌, inl, inr, is_empty, leb,
  length, lit, ltb, none, not, refl, some, starts_with, suc, take, ℕ, ◌&&◌, ◌++◌, ◌+◌, ◌∷◌, ◌≡◌,
  ◌⊎◌,
}
use certheim.Store.{Reply, Request, World, abort, error, job_by_id, log_event}
use certheim.Signing.{Deploy}
use certheim.Crypto.{Openssl}
use certheim.Jobs.Ids.{is_job_id}
use certheim.Jobs.Access.{visible}
use certheim.Jobs.Completion.{Completed, Completer, attach_signed_cert}
use certheim.Jobs.Completion.Laws.{attach_signed_cert-Steps}
use certheim.Jobs.Evolution.{Steps, Steps-refl}

-- the rest of a text from the first place where the needle stands
unfoldable find_infix : Text → Text → Option ℕ
find_infix needle [] = if is_empty needle then some 0 else none
find_infix needle (c ∷ s) =
    let rest = find_infix needle s in
    if starts_with (c ∷ s) needle then some 0 else elim rest [ none ↦ none | some n ↦ some (suc n) ]

abbrev begin_marker : Text
begin_marker = lit "-----BEGIN CERTIFICATE-----"

abbrev end_marker : Text
end_marker = lit "-----END CERTIFICATE-----"

-- `out[start:end + len(END)] + "\n"`, where both markers are there
unfoldable first_cert : Text → Option Text
unfolding find_infix
first_cert out = elim (find_infix begin_marker out) [
  | none ↦ none
  | some start ↦ elim (find_infix end_marker out) [
    | none ↦ none
    | some end ↦ some (drop start (take (end + length end_marker) out) ++ 10 ∷ [])
  ]
]

abbrev or_try : Option Text → Option Text → Option Text
or_try none other = other
or_try (some s) other = some s

-- the leaf of a PKCS#7 bundle
abbrev leaf_of : Option Text → Option Text
leaf_of none = none
leaf_of (some out) = first_cert out

-- the conversion of what is not PEM
unfoldable convert_cert : Openssl → Text → Option Text
unfolding first_cert
convert_cert ssl raw =
    or_try (ssl.from_der raw)
      (or_try (leaf_of (ssl.from_pkcs7_der raw)) (leaf_of (ssl.from_pkcs7_pem raw)))

unfoldable pub normalize_cert_to_pem : Openssl → Text → Option Text
unfolding convert_cert
normalize_cert_to_pem ssl raw = if is_empty raw then none else elim (ssl.decode_utf8 raw) [
  | none ↦ convert_cert ssl raw
  | some s ↦ if has_infix begin_marker s then some s else convert_cert ssl raw
]

-- The certificate of the request body: an uploaded file, in Base64 that decodes or not; pasted text;
-- or neither.
pub data CertField : Type 0 where
  no_cert undecodable : CertField
  file : Text → CertField
  pasted : Text → CertField

pub data RawCert : Type 0 where
  raw_cert : Text → RawCert
  bad_cert : Text → RawCert

RawCert-cases :
    (x : RawCert)
    → ((raw : Text) × (x ≡ raw_cert raw)) ⊎ ((message : Text) × (x ≡ bad_cert message))
RawCert-cases (raw_cert raw) = inl (raw, refl)
RawCert-cases (bad_cert message) = inr (message, refl)

-- the bytes to normalize
unfoldable pub raw_of : Openssl → Deploy → CertField → RawCert
raw_of ssl d no_cert = bad_cert (lit "invalid cert_pem")
raw_of ssl d undecodable = bad_cert (lit "could not decode uploaded file")
raw_of ssl d (file raw) =
    if ltb 50 (length raw) && leb (length raw) d.max_cert_bytes
    then raw_cert raw
    else bad_cert (lit "invalid certificate file size")
raw_of ssl d (pasted pem) =
    if ltb 50 (length pem) && leb (length pem) d.max_cert_bytes
    then raw_cert (ssl.encode_utf8 pem)
    else bad_cert (lit "invalid cert_pem")

abbrev pub upload_completer : Request → Completer
upload_completer r = record {
  actor_dn = r.dn;
  signed_via = lit "manual";
  approver_dn = none;
  log_action = "upload_cert";
  chain_pem = [];
}

-- the part after the certificate has been normalized
unfoldable upload_pem : Openssl → Request → Text → Text → World → World × Reply Completed
upload_pem ssl r job_id pem w = elim (ssl.is_x509 pem) [
  | none ↦ (w, error 400 (lit "cert validation error"))
  | some good ↦
      if not good
      then (
        log_event "upload_cert" "deny_invalid_cert" job_id w,
        error 400 (lit "not a valid X.509 certificate"),
      )
      else attach_signed_cert ssl r (upload_completer r) job_id pem w
]

-- the part after the caller has been let through
unfoldable upload_field :
    Openssl → Deploy → Request → Text → CertField → World → World × Reply Completed
unfolding upload_pem
upload_field ssl d r job_id field w = elim (raw_of ssl d field) [
  | bad_cert message ↦ (w, error 400 message)
  | raw_cert raw ↦ elim (normalize_cert_to_pem ssl raw) [
    | none ↦ (
      log_event "upload_cert" "deny_invalid_cert" job_id w,
      error 400 (lit "not a valid certificate."),
    )
    | some pem ↦
        if is_empty pem
        then (
          log_event "upload_cert" "deny_invalid_cert" job_id w,
          error 400 (lit "not a valid certificate."),
        )
        else upload_pem ssl r job_id pem w
  ]
]

unfoldable pub upload_cert :
    Openssl → Deploy → Request → Text → CertField → World → World × Reply Completed
unfolding upload_field
upload_cert ssl d r job_id field w =
    if not (is_job_id job_id) then (w, abort 400) else elim (job_by_id job_id w) [
      | none ↦ (w, abort 404)
      | some row ↦
          if not (visible r w row)
          then (log_event "job_access" "deny_not_visible" job_id w, abort 403)
          else upload_field ssl d r job_id field w
    ]

module _ (ssl : Openssl) (d : Deploy) where
  upload_pem-Steps :
      (r : Request) (job_id pem : Text) (w : World)
      → Steps ssl w.jobs (upload_pem ssl r job_id pem w).0.jobs
  unfolding upload_pem
  upload_pem-Steps r job_id pem w = ground (
    arith,
    Steps-refl ssl w.jobs,
    attach_signed_cert-Steps ssl r (upload_completer r) job_id pem w,
  )

  upload_field-Steps :
      (r : Request) (job_id : Text) (field : CertField) (w : World)
      → Steps ssl w.jobs (upload_field ssl d r job_id field w).0.jobs
  unfolding upload_field
  upload_field-Steps r job_id field w = elim (RawCert-cases (raw_of ssl d field)) [
    | inr (message, bad) ↦ ground (arith, Steps-refl ssl w.jobs)
    | inl (raw, fits) ↦ elim (Option-cases (normalize_cert_to_pem ssl raw)) [
      | inl missing ↦ ground (arith, Steps-refl ssl w.jobs)
      | inr (pem, found) ↦ ground (arith, Steps-refl ssl w.jobs, upload_pem-Steps r job_id pem w)
    ]
  ]

  pub upload_cert-Steps :
      (r : Request) (job_id : Text) (field : CertField) (w : World)
      → Steps ssl w.jobs (upload_cert ssl d r job_id field w).0.jobs
  unfolding upload_cert
  upload_cert-Steps r job_id field w =
      ground (arith, Steps-refl ssl w.jobs, upload_field-Steps r job_id field w)
