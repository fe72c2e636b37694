-- ===== src/Jobs/History.antt =====
-- Whole histories of the jobs table: any sequence of the requests that change it.
use certheim.Requests.External.Laws.{submit_external-Steps}
use certheim.Jobs.Sign.Laws.{sign_job-Steps}
use certheim.Jobs.Revoke.{revoke_job, revoke_job-Steps}
use certheim.Jobs.Delete.{Filters, admin_bulk_delete_jobs, admin_delete_job}
use certheim.Requests.External.{Submission, submit_external}
use certheim.Jobs.Cancel.{bulk_cancel_jobs, cancel_job, mark_failed}
use certheim.Jobs.Cancel.Laws.{bulk_cancel_jobs-Steps, cancel_job-Steps, mark_failed-Steps}
use certheim.Jobs.Sign.{TtlField, sign_job}
use certheim.Jobs.Upload.{CertField, upload_cert, upload_cert-Steps}
use certheim.Jobs.Regroup.{GroupField, update_job_group, update_job_group-Steps}
use certheim.Jobs.Keys.{IsKeyed}
use certheim.Requests.Generate.{Helper, Order, generate_rhel}
use certheim.Requests.Generate.Laws.{generate_rhel-Steps}
use certheim.Jobs.Renew.{renew_job}
use certheim.Jobs.Renew.Laws.{renew_job-Steps}
use certheim.Jobs.Sweep.{sweep_expired, sweep_expired-Steps}
use certheim.Base.{Bool, List, Text, [], all, arith, false, not, refl, true, ◌∷◌, ◌≡◌}
use certheim.Store.{Job, Request, World}
use certheim.Signing.{Deploy}
use certheim.Crypto.{Openssl}
use certheim.Jobs.Evolution.{
  Evolves, IsCertified-Evolves, Steps, Steps-refl, Steps-trans, can_become,
}
use certheim.Jobs.Delete.Laws.{IsSound, admin_bulk_delete_jobs-IsSound, admin_delete_job-IsSound}

-- A request on the jobs table, with what its body brings.
pub data Command : Type 0 where
  list_jobs_sweep : Command
  update_group : Text → GroupField → Command
  cancel : Text → Text → Command
  bulk_cancel : List Text → Text → Command
  fail : Text → Text → Command
  upload : Text → CertField → Command
  sign : Text → TtlField → Command
  revoke : Text → Command
  submit : Submission → Text → Command
  generate : Helper → Order → (Text → Text) → Command
  renew : Helper → Text → Text → Command
  delete : Text → Bool → Command
  bulk_delete : Filters → Command

module _ (ssl : Openssl) (d : Deploy) where
  -- the handler of a request: what becomes of the rows
  abbrev pub handle : Request → Command → World → World
  handle r list_jobs_sweep w = sweep_expired r.now w
  handle r (update_group job_id field) w = (update_job_group r job_id field w).0
  handle r (cancel job_id reason) w = (cancel_job r job_id reason w).0
  handle r (bulk_cancel job_ids reason) w = (bulk_cancel_jobs r job_ids reason w).0
  handle r (fail job_id note) w = (mark_failed r job_id note w).0
  handle r (upload job_id field) w = (upload_cert ssl d r job_id field w).0
  handle r (sign job_id field) w = (sign_job ssl d r job_id field w).0
  handle r (revoke job_id) w = (revoke_job ssl d r job_id w).0
  handle r (submit s job_id) w = (submit_external ssl d r s job_id w).0
  handle r (generate h o uuid) w = (generate_rhel ssl h d r o uuid w).0
  handle r (renew h job_id new_id) w = (renew_job ssl h r job_id new_id w).0
  handle r (delete job_id files) w = (admin_delete_job job_id files w).0
  handle r (bulk_delete f) w = (admin_bulk_delete_jobs r.now f w).0

  abbrev pub run : List (Request × Command) → World → World
  run [] w = w
  run ((r, c) ∷ cs) w = run cs (handle r c w)

abbrev pub deletes : Command → Bool
deletes (delete _ _) = true
deletes (bulk_delete _) = true
deletes _ = false

abbrev pub keeps_rows : List (Request × Command) → Bool
keeps_rows cs = all (λ c. not (deletes c.1)) cs

-- What a row keeps through any number of requests, and how its status moves.
pub record Keeps (j k : Job) : Type 0 where
  pub id_kept : k.id ≡ j.id
  pub csr_kept : k.csr_pem ≡ j.csr_pem
  pub requester_kept : k.requester_dn ≡ j.requester_dn
  pub host_kept : k.target_host ≡ j.target_host
  pub moved : can_become j.status k.status ≡ true

-- every row is still there, in its place, and new rows follow
abbrev pub Extends : List Job → List Job → Type 0
Extends [] ks = Unit
Extends (j ∷ js) [] = ⊥
Extends (j ∷ js) (k ∷ ks) = Keeps j k × Extends js ks

module _ (ssl : Openssl) (d : Deploy) where
  Evolves-Extends : (js ks : List Job) → Evolves ssl js ks → Extends js ks
  Evolves-Extends [] ks e = tt
  Evolves-Extends (j ∷ js) [] e = absurd e
  Evolves-Extends (j ∷ js) (k ∷ ks) e = (
    record {
      id_kept = e.0.id_kept;
      csr_kept = e.0.csr_kept;
      requester_kept = e.0.requester_kept;
      host_kept = e.0.host_kept;
      moved = e.0.moved;
    },
    Evolves-Extends js ks e.1,
  )

  handle-Steps :
      (r : Request) (c : Command) (w : World)
      → deletes c ≡ false
      → Steps ssl w.jobs (handle ssl d r c w).jobs
  handle-Steps r list_jobs_sweep w h = sweep_expired-Steps ssl r.now w
  handle-Steps r (update_group job_id field) w h = update_job_group-Steps ssl r job_id field w
  handle-Steps r (cancel job_id reason) w h = cancel_job-Steps ssl r job_id reason w
  handle-Steps r (bulk_cancel job_ids reason) w h = bulk_cancel_jobs-Steps ssl r job_ids reason w
  handle-Steps r (fail job_id note) w h = mark_failed-Steps ssl r job_id note w
  handle-Steps r (upload job_id field) w h = upload_cert-Steps ssl d r job_id field w
  handle-Steps r (sign job_id field) w h = sign_job-Steps ssl d r job_id field w
  handle-Steps r (revoke job_id) w h = revoke_job-Steps ssl d r job_id w
  handle-Steps r (submit s job_id) w h = submit_external-Steps ssl d r s job_id w
  handle-Steps r (generate h' o uuid) w h = generate_rhel-Steps ssl h' d r o uuid w
  handle-Steps r (renew h' job_id new_id) w h = renew_job-Steps ssl h' r job_id new_id w
  handle-Steps r (delete job_id files) w h = absurd (ground arith)
  handle-Steps r (bulk_delete f) w h = absurd (ground arith)

  handle-IsSound :
      (r : Request) (c : Command) (w : World)
      → IsSound ssl w.jobs
      → IsSound ssl (handle ssl d r c w).jobs
  handle-IsSound r (delete job_id files) w h = admin_delete_job-IsSound ssl job_id files w h
  handle-IsSound r (bulk_delete f) w h = admin_bulk_delete_jobs-IsSound ssl r.now f w h
  handle-IsSound r c w h =
      let (keyed, e) = handle-Steps r c w refl h.0 in
      (keyed, IsCertified-Evolves ssl w.jobs (handle ssl d r c w).jobs e h.1)

  -- In every history of these requests the jobs table stays sound: no two rows share an id, and a
  -- row has a certificate exactly when it is issued, expired or revoked, always one for its own
  -- CSR's key.
  pub run-IsSound :
      (cs : List (Request × Command)) (w : World)
      → IsSound ssl w.jobs
      → IsSound ssl (run ssl d cs w).jobs
  run-IsSound [] w h = h
  run-IsSound ((r, c) ∷ cs) w h = run-IsSound cs (handle ssl d r c w) (handle-IsSound r c w h)

  run-Steps :
      (cs : List (Request × Command)) (w : World)
      → keeps_rows cs ≡ true
      → Steps ssl w.jobs (run ssl d cs w).jobs
  run-Steps [] w h = Steps-refl ssl w.jobs
  run-Steps ((r, c) ∷ cs) w h =
      Steps-trans ssl w.jobs (handle ssl d r c w).jobs (run ssl d cs (handle ssl d r c w)).jobs
        (handle-Steps r c w (ground arith)) (run-Steps cs (handle ssl d r c w) (ground arith))

  -- In a history of these requests without deletions no row of a keyed table is lost: each stays in
  -- its place and keeps its id, CSR, requester and host, and its status only moves from pending to
  -- any state, or from issued to expired or revoked.
  pub run-Extends :
      (cs : List (Request × Command)) (w : World)
      → keeps_rows cs ≡ true
      → IsKeyed w.jobs
      → Extends w.jobs (run ssl d cs w).jobs
  run-Extends cs w h keyed = Evolves-Extends w.jobs (run ssl d cs w).jobs (run-Steps cs w h keyed).1
