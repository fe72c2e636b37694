-- ===== src/Jobs/Sign/Lifetime.antt =====
-- Theorems on the lifetime that sign_job (backend/routes_signing.py) asks of an authority.
use certheim.Jobs.Sign.Laws.{jobs-sign_csr}
use certheim.Signing.Laws.{sign_csr-asked}
use certheim.Jobs.Keys.{row_with_id}
use certheim.Jobs.Completion.Laws.{attach_signed_cert-issues}
use certheim.Jobs.Completion.{Completed, attach_signed_cert, set_issued}
use certheim.Signing.{
  Deploy, Policy, Signed, backend_of, issued_by_ca, resolve_signing_policy, sign_csr, sign_error,
  signed, ttl_bounds, unavailable,
}
use certheim.Crypto.{Openssl}
use certheim.Jobs.Sign.{
  Chosen, Signature, TtlField, bad_ttl, choose_ttl, chosen, finish_sign, not_an_integer, seconds,
  sign_chosen, sign_completer, sign_job, sign_reply, sign_row, unset,
}
use certheim.Base.{
  List, Option, Option-cases, Text, ap, arith, inl, inr, nat_eq, none, option_eq, refl, some, subst,
  sym, text_eq, update_where, ℤ, ◌∙◌, ◌≡◌, ◌≢◌, ◌≤ℤ◌,
}
use certheim.Store.{Job, Reply, Request, World, error, job_by_id, ok, status_eq}

-- A lifetime that is chosen is the one of the policy to sign under, and lies within the bounds.
choose_ttl-chosen :
    (field : TtlField) (template policy : Policy) (w : World) {n : ℤ}
    → choose_ttl field template w ≡ chosen policy (some n)
    → let (lo, hi, default) = ttl_bounds template.max_ttl w in
      (policy ≡ record template { max_ttl = some n }) × (lo ≤ℤ n) × (n ≤ℤ hi)
unfolding choose_ttl ttl_bounds
choose_ttl-chosen unset template policy w h = ground arith
choose_ttl-chosen not_an_integer template policy w h = ground arith
choose_ttl-chosen (seconds m) template policy w h = ground arith

-- What an approval that is answered with the lifetime `n` has done.
pub record IsSignedFor (ssl : Openssl) (d : Deploy) (r : Request) (job_id : Text) (w : World)
    (n : ℤ) (js : List Job) : Type 0 where
  pub row : Job
  pub found : job_by_id job_id w ≡ some row
  pub cert : Text
  pub chain : Text
  -- the lifetime lies within the bounds of the job's policy
  pub bounded :
      let (lo, hi, default) = ttl_bounds (resolve_signing_policy row.template_id w).max_ttl w in
      (lo ≤ℤ n) × (n ≤ℤ hi)
  -- the authority was asked under the policy with that lifetime, and answered with the certificate
  pub asked :
      let template = resolve_signing_policy row.template_id w in
      d.ca_sign (backend_of template) (record template { max_ttl = some n }) row.csr_pem
      ≡ issued_by_ca cert chain
  -- that certificate is the one that the job is issued with
  pub issued_with :
      let template = resolve_signing_policy row.template_id w in
      js
      ≡ update_where
          (row_with_id job_id)
          (set_issued ssl r.now (sign_completer r template.signer_backend chain) cert)
          w.jobs

module _ (ssl : Openssl) (d : Deploy) (r : Request) (job_id backend : Text) where
  sign_reply-ok :
      (ttl : Option ℤ) (p : World × Reply Completed) {v : Signature}
      → (sign_reply job_id backend ttl p).1 ≡ ok v
      → (done : Completed) × (p.1 ≡ ok done)
        × (v.validity_seconds ≡ ttl)
        × ((sign_reply job_id backend ttl p).0.jobs ≡ p.0.jobs)
  sign_reply-ok ttl (w, ok done) h = (done, refl, ground arith, refl)
  sign_reply-ok ttl (w, error code message) h = absurd (ground arith)

  finish_sign-issues :
      (ttl : Option ℤ) (p : World × Signed) {v : Signature}
      → (finish_sign ssl r job_id backend ttl p).1 ≡ ok v
      → (cert : Text) × (chain : Text) × (p.1 ≡ signed cert chain)
        × (v.validity_seconds ≡ ttl)
        × ((finish_sign ssl r job_id backend ttl p).0.jobs
            ≡ update_where
                (row_with_id job_id)
                (set_issued ssl r.now (sign_completer r backend chain) cert)
                p.0.jobs)
  unfolding finish_sign
  finish_sign-issues ttl (w, unavailable m) h = absurd (ground arith)
  finish_sign-issues ttl (w, sign_error m) h = absurd (ground arith)
  finish_sign-issues ttl (w, signed cert chain) {v} h =
      let c = sign_completer r backend chain in
      let (done, answered, is, same) =
        sign_reply-ok ttl (attach_signed_cert ssl r c job_id cert w) {v = v} h in
      let issued_now = attach_signed_cert-issues ssl r c job_id cert w {done = done} answered in
      (cert, chain, refl, is, same ∙ issued_now)

  sign_chosen-issues :
      (row : Job) (w : World) (c : Chosen) {v : Signature} {n : ℤ}
      → (sign_chosen ssl d r job_id backend row w c).1 ≡ ok v
      → v.validity_seconds ≡ some n
      → (policy : Policy) × (cert : Text) × (chain : Text) × (c ≡ chosen policy (some n))
        × ((sign_csr d row.csr_pem policy w).1 ≡ signed cert chain)
        × ((sign_chosen ssl d r job_id backend row w c).0.jobs
            ≡ update_where
                (row_with_id job_id)
                (set_issued ssl r.now (sign_completer r backend chain) cert)
                w.jobs)
  unfolding sign_chosen finish_sign
  sign_chosen-issues row w (bad_ttl m) h is = absurd (ground arith)
  sign_chosen-issues row w (chosen policy ttl) {v} h is =
      let p = sign_csr d row.csr_pem policy w in
      let (cert, chain, answer, kept_ttl, js) = finish_sign-issues ttl p {v = v} h in
      let same = jobs-sign_csr ssl d row.csr_pem policy w in
      (
        policy,
        cert,
        chain,
        ap (chosen policy) (sym kept_ttl ∙ is),
        answer,
        js
            ∙ ap
                (update_where (row_with_id job_id)
                  (set_issued ssl r.now (sign_completer r backend chain) cert))
                same,
      )

module _ (ssl : Openssl) (d : Deploy) (r : Request) (job_id : Text) (field : TtlField) (w : World)
    (row : Job) (found : job_by_id job_id w ≡ some row) (n : ℤ) where
  abbrev own_policy : Policy
  own_policy = resolve_signing_policy row.template_id w

  -- a signature under the policy that was chosen for the lifetime
  signed_under :
      (policy : Policy) (cert chain : Text) (js : List Job)
      → choose_ttl field own_policy w ≡ chosen policy (some n)
      → (sign_csr d row.csr_pem policy w).1 ≡ signed cert chain
      → js
        ≡ update_where
            (row_with_id job_id)
            (set_issued ssl r.now (sign_completer r own_policy.signer_backend chain) cert)
            w.jobs
      → IsSignedFor ssl d r job_id w n js
  signed_under policy cert chain js under answer issued_now =
      let (same, least, most) = choose_ttl-chosen field own_policy policy w {n = n} under in
      record {
        row = row;
        found = found;
        cert = cert;
        chain = chain;
        bounded = (least, most);
        asked =
            subst (λ (q : Policy). d.ca_sign (backend_of q) q row.csr_pem ≡ issued_by_ca cert chain)
              same (sign_csr-asked d row.csr_pem policy w {cert = cert} {chain = chain} answer);
        issued_with = issued_now;
      }

  sign_chosen-IsSignedFor :
      (v : Signature)
      → let p =
          sign_chosen ssl d r job_id own_policy.signer_backend row w
            (choose_ttl field own_policy w) in
        p.1 ≡ ok v → v.validity_seconds ≡ some n → IsSignedFor ssl d r job_id w n p.0.jobs
  sign_chosen-IsSignedFor v h is =
      let (policy, cert, chain, under, answer, js) =
        sign_chosen-issues ssl d r job_id own_policy.signer_backend row w
          (choose_ttl field own_policy w) {v = v} {n = n} h is in
      signed_under policy cert chain _ under answer js

  -- an approval that is answered with a signature ends as the signature under the chosen policy
  sign_job-chosen :
      (v : Signature)
      → (sign_job ssl d r job_id field w).1 ≡ ok v
      → sign_job ssl d r job_id field w
        ≡ sign_chosen ssl d r job_id own_policy.signer_backend row w (choose_ttl field own_policy w)
  unfolding sign_job sign_row
  sign_job-chosen v h = ground arith

module _ (ssl : Openssl) (d : Deploy) where
  unknown_job :
      (r : Request) (job_id : Text) (field : TtlField) (w : World) (v : Signature)
      → job_by_id job_id w ≡ none
      → (sign_job ssl d r job_id field w).1 ≢ ok v
  unfolding sign_job
  unknown_job r job_id field w v missing h = ground arith

  -- An approval that is answered with a lifetime has asked the authority for exactly that lifetime,
  -- under the job's policy else and within its bounds, and has issued the job with the certificate
  -- that the authority gave to this.
  pub sign_job-IsSignedFor :
      (r : Request) (job_id : Text) (field : TtlField) (w : World) (v : Signature) (n : ℤ)
      → (sign_job ssl d r job_id field w).1 ≡ ok v
      → v.validity_seconds ≡ some n
      → IsSignedFor ssl d r job_id w n (sign_job ssl d r job_id field w).0.jobs
  sign_job-IsSignedFor r job_id field w v n h is = elim (Option-cases (job_by_id job_id w)) [
    | inl missing ↦ absurd (unknown_job r job_id field w v missing h)
    | inr (row, found) ↦
        let here = sign_job-chosen ssl d r job_id field w row found n v h in
        subst (λ (p : World × Reply Signature). IsSignedFor ssl d r job_id w n p.0.jobs) (sym here)
          (sign_chosen-IsSignedFor ssl d r job_id field w row found n v
            (sym (ap (λ (p : World × Reply Signature). p.1) here) ∙ h) is)
  ]
