-- ===== src/Requests/Generate/Laws.antt =====
-- Lemmas on the jobs table under generate_rhel (backend/routes_requests.py).
use certheim.Jobs.Keys.{row_with_id}
use certheim.Base.{
  Bool-cases, List, Option, Option-cases, Text, [], any, arith, contains, false, if-either,
  if◌then◌else◌, inl, inr, is_empty, lit, nat_eq, none, not, option_eq, refl, some, subst, sym,
  text_eq, ℕ, ◌++◌, ◌∷◌, ◌≡◌,
}
use certheim.Store.{Job, Reply, Reply-cases, Request, World, error, log_event, status_eq}
use certheim.Crypto.{Openssl}
use certheim.Jobs.Evolution.{IsCertified, Steps, Steps-append, Steps-refl, Steps-trans}
use certheim.Requests.AutoSign.{auto_sign_jobs, auto_sign_jobs-Steps}
use certheim.Signing.{Deploy}
use certheim.Validation.CertTypes.{Types, key_algos_allowed, normalize_cert_types, rejected}
use certheim.Validation.{Checked-cases, validate_email}
use certheim.Requests.External.{choose_group, notify_signers}
use certheim.Keystore.Laws.{secure-Steps}
use certheim.Requests.Generate.{
  Choices, Generated, Generation, Helper, Made, Order, finish_generate, generate_grouped,
  generate_jobs, generate_mailed, generate_rhel, generate_typed, insert_rhel, key_algo_of, make_job,
  make_jobs, make_one, new_row, order_choices, own_if_blank, place_keys, secure_key, stem,
  type_text_or_web,
}

-- How the insert of a row ends.
pub data Inserted (h : Helper) (template_id : Option ℕ) (j : Job) (w : World) (o : Option World)
    : Type 0 where
  taken : o ≡ none → Inserted h template_id j w o
  inserted :
      (w' : World)
      → any (row_with_id j.id) w.jobs ≡ false
      → w'.jobs ≡ w.jobs ++ j ∷ []
      → o ≡ some (secure_key h.keys j.id j.local_key_name template_id w')
      → Inserted h template_id j w o

pub insert_rhel-Inserted :
    (h : Helper) (template_id : Option ℕ) (j : Job) (w : World)
    → Inserted h template_id j w (insert_rhel h template_id j w)
unfolding insert_rhel
insert_rhel-Inserted h template_id j w = elim (Bool-cases (any (row_with_id j.id) w.jobs)) [
  | inl old ↦ taken (ground arith)
  | inr free ↦
      inserted (record w { jobs = w.jobs ++ j ∷ [] }) free refl (rw (free, insert_rhel) refl)
]

jobs-mailed :
    (r : Request) (ids : List Text) (w : World)
    → (if is_empty ids then w else notify_signers r w).jobs ≡ w.jobs
unfolding notify_signers
jobs-mailed r ids w = ground arith

module _ (ssl : Openssl) where
  secure_key-Steps :
      (h : Helper) (job_id : Text) (key : Option Text) (template_id : Option ℕ) (w : World)
      → Steps ssl w.jobs (secure_key h.keys job_id key template_id w).jobs
  unfolding secure_key
  secure_key-Steps h job_id none template_id w = Steps-refl ssl w.jobs
  secure_key-Steps h job_id (some name) template_id w =
      secure-Steps ssl h.keys job_id name template_id w

  pub inserted-Steps :
      (h : Helper) (template_id : Option ℕ) (j : Job) (w w' : World)
      → IsCertified ssl j
      → any (row_with_id j.id) w.jobs ≡ false
      → w'.jobs ≡ w.jobs ++ j ∷ []
      → Steps ssl w.jobs (secure_key h.keys j.id j.local_key_name template_id w').jobs
  inserted-Steps h template_id j w w' certified free grown =
      Steps-trans ssl w.jobs w'.jobs (secure_key h.keys j.id j.local_key_name template_id w').jobs
        (rw grown (Steps-append ssl j w.jobs free certified))
        (secure_key-Steps h j.id j.local_key_name template_id w')

  make_job-Steps :
      (h : Helper) (r : Request) (template_id : Option ℕ) (j : Job) (m : Made)
      → IsCertified ssl j
      → Steps ssl m.world.jobs (make_job h r template_id j m).world.jobs
  unfolding make_job
  make_job-Steps h r template_id j m certified =
      elim (insert_rhel-Inserted h template_id j m.world) [
        | taken none_made ↦ rw (none_made, make_job) (Steps-refl ssl m.world.jobs)
        | inserted w' free grown made ↦
            rw (made, make_job) (inserted-Steps h template_id j m.world w' certified free grown)
      ]

  make_one-Steps :
      (h : Helper) (r : Request) (g : Generation) (c : Choices) (uuid : Text → Text) (name : Text)
      (m : Made)
      → Steps ssl m.world.jobs (make_one ssl h r g c uuid name m).world.jobs
  unfolding make_one
  make_one-Steps h r g c uuid name m = elim (Option-cases (g.get_csr name)) [
    | inl unread ↦ rw (unread, make_one) (Steps-refl ssl m.world.jobs)
    | inr (csr_pem, read) ↦
        rw (read, make_one)
          (make_job-Steps h r c.template_id (new_row ssl r g c (stem name) (uuid name) name csr_pem)
            m refl)
  ]

  pub make_jobs-Steps :
      (h : Helper) (r : Request) (g : Generation) (c : Choices) (uuid : Text → Text)
      (names : List Text) (m : Made)
      → Steps ssl m.world.jobs (make_jobs ssl h r g c uuid names m).world.jobs
  unfolding make_jobs
  make_jobs-Steps h r g c uuid [] m = Steps-refl ssl m.world.jobs
  make_jobs-Steps h r g c uuid (name ∷ names) m =
      let m' = make_one ssl h r g c uuid name m in
      let first = make_one-Steps h r g c uuid name m in
      elim (Bool-cases m'.broken) [
        | inl stop ↦ rw (stop, make_jobs) first
        | inr go ↦
            rw (go, make_jobs)
              (Steps-trans ssl m.world.jobs m'.world.jobs
                (make_jobs ssl h r g c uuid names m').world.jobs first
                (make_jobs-Steps h r g c uuid names m'))
      ]

  finish_generate-Steps :
      (h : Helper) (d : Deploy) (r : Request) (g : Generation) (template_id : Option ℕ) (m : Made)
      → Steps ssl m.world.jobs (finish_generate ssl h d r g template_id m).0.jobs
  unfolding finish_generate
  finish_generate-Steps h d r g template_id m = elim (Bool-cases m.broken) [
    | inl stop ↦ rw (stop, finish_generate) (Steps-refl ssl m.world.jobs)
    | inr go ↦
        let w = log_event "generate_rhel" "ok" [] m.world in
        let signed = auto_sign_jobs ssl d r m.job_ids template_id w in
        rw (go, finish_generate)
          (subst (Steps ssl m.world.jobs) (sym (jobs-mailed r m.job_ids signed))
            (auto_sign_jobs-Steps ssl d r m.job_ids template_id w))
  ]

  generate_jobs-Steps :
      (h : Helper) (d : Deploy) (r : Request) (g : Generation) (c : Choices) (uuid : Text → Text)
      (w : World)
      → Steps ssl w.jobs (generate_jobs ssl h d r g c uuid w).0.jobs
  unfolding generate_jobs
  generate_jobs-Steps h d r g c uuid w =
      let m : Made = record { world = place_keys g.key_files w; job_ids = []; broken = false } in
      let m' = make_jobs ssl h r g c uuid g.new_csrs m in
      if-either (λ (x : World × Reply Generated). Steps ssl w.jobs x.0.jobs) (not g.generated)
        (log_event "generate_rhel" "error" [] w, error 422 (lit "certificate generation failed"))
        (finish_generate ssl h d r g c.template_id m') (Steps-refl ssl w.jobs)
        (Steps-trans ssl w.jobs m'.world.jobs (finish_generate ssl h d r g c.template_id m').0.jobs
          (make_jobs-Steps h r g c uuid g.new_csrs m)
          (finish_generate-Steps h d r g c.template_id m'))

  generate_grouped-Steps :
      (h : Helper) (d : Deploy) (r : Request) (o : Order) (email type_text : Text)
      (group_id : Option ℕ) (uuid : Text → Text) (w : World)
      → Steps ssl w.jobs (generate_grouped ssl h d r o email type_text group_id uuid w).0.jobs
  unfolding generate_grouped
  generate_grouped-Steps h d r o email type_text group_id uuid w =
      let algo = key_algo_of o.key_algo in
      elim (Bool-cases (contains key_algos_allowed algo)) [
        | inr unknown ↦ rw (unknown, generate_grouped) (Steps-refl ssl w.jobs)
        | inl known ↦
            rw (known, generate_grouped)
              (generate_jobs-Steps h d r (h.generate none type_text algo o.domain_choice o.profile)
                (order_choices o email type_text group_id w) uuid
                (log_event "generate_rhel" "start" [] w))
      ]

  generate_typed-Steps :
      (h : Helper) (d : Deploy) (r : Request) (o : Order) (email : Text) (ts : Types)
      (uuid : Text → Text) (w : World)
      → Steps ssl w.jobs (generate_typed ssl h d r o email ts uuid w).0.jobs
  unfolding generate_typed
  generate_typed-Steps h d r o email (rejected message) uuid w = Steps-refl ssl w.jobs
  generate_typed-Steps h d r o email ts uuid w = elim (Reply-cases (choose_group r o.group_id w)) [
    | inr (code, message, bad) ↦ rw (bad, generate_typed) (Steps-refl ssl w.jobs)
    | inl (group, good) ↦
        rw (good, generate_typed)
          (generate_grouped-Steps h d r o email (type_text_or_web ts) group uuid w)
  ]

  generate_mailed-Steps :
      (h : Helper) (d : Deploy) (r : Request) (o : Order) (email : Option Text) (uuid : Text → Text)
      (w : World)
      → Steps ssl w.jobs (generate_mailed ssl h d r o email uuid w).0.jobs
  unfolding generate_mailed
  generate_mailed-Steps h d r o none uuid w = Steps-refl ssl w.jobs
  generate_mailed-Steps h d r o (some email) uuid w =
      generate_typed-Steps h d r o email (normalize_cert_types o.cert_type) uuid w

  pub generate_rhel-Steps :
      (h : Helper) (d : Deploy) (r : Request) (o : Order) (uuid : Text → Text) (w : World)
      → Steps ssl w.jobs (generate_rhel ssl h d r o uuid w).0.jobs
  unfolding generate_rhel
  generate_rhel-Steps h d r o uuid w =
      elim (Checked-cases (validate_email (own_if_blank r.email o.requester_email))) [
        | inr (message, bad) ↦ rw (bad, generate_rhel) (Steps-refl ssl w.jobs)
        | inl (email, good) ↦ rw (good, generate_rhel) (generate_mailed-Steps h d r o email uuid w)
      ]
