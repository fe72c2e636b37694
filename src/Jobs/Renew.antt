-- ===== src/Jobs/Renew.antt =====
-- renew_job (backend/routes_jobs.py): a fresh key and CSR with an old job's names. The mail to the
-- signers, which leaves no trace in the store, and the caller's session keys are left out.
pub mod Laws
use certheim.Base.{
  Bool, List, Option, Text, [], contains, false, filter, if◌then◌else◌, is_empty, is_zero, join,
  lit, nat_eq, none, not, option_eq, replace, some, text_eq, ℕ, ◌&&◌, ◌++◌, ◌==◌, ◌||◌, ◌∷◌,
}
use certheim.Store.{
  Job, Reply, Request, Status, World, abort, error, expired, issued, job_by_id, log_event, ok,
  status_eq, user_group_ids,
}
use certheim.Crypto.{Openssl}
use certheim.Jobs.Ids.{is_job_id}
use certheim.Jobs.Sweep.{sweep_expired}
use certheim.Jobs.Completion.{status_name}
use certheim.Validation.CertTypes.{key_algos_allowed}
use certheim.Requests.Generate.{
  Choices, Generation, Helper, announce_job, insert_rhel, new_row, or_else, place_keys,
}

-- the caller's own address, where it is not blank
unfoldable pub own_email : Option Text → Option Text
own_email none = none
own_email (some e) = if is_empty e then none else some e

-- `old[…] or default`
abbrev pub given_or : Text → Option Text → Text
given_or other none = other
given_or other (some s) = or_else s other

unfoldable pub renewal_types : Job → Text
unfolding replace
renewal_types old =
    replace (lit "server-client") (lit "client,web") (given_or (lit "web") old.cert_type)

unfoldable pub renewal_algo : Job → Text
unfolding text_eq
renewal_algo old =
    let algo = given_or (lit "rsa2048") old.key_algo in
    if contains key_algos_allowed algo then algo else lit "rsa2048"

-- the one line of hosts that is staged
unfoldable pub renewal_line : Job → Text
unfolding join text_eq
renewal_line old =
    let extra = filter (λ s. not (is_empty s) && not (s == old.target_host)) old.sans in
    join (lit ",") (old.target_host ∷ extra) ++ 10 ∷ []

-- `in_group`, where group 0 counts as none
unfoldable in_old_group : Option ℕ → List ℕ → Bool
unfolding nat_eq
in_old_group none gids = false
in_old_group (some n) gids = not (is_zero n) && contains gids n

-- the caller is the requester, in the job's group, or an admin
unfoldable pub may_renew : Request → World → Job → Bool
unfolding text_eq in_old_group
may_renew r w old =
    r.is_admin || old.requester_dn == r.dn || in_old_group old.group_id (user_group_ids r.dn w)

abbrev pub renewable : Job → Bool
renewable old = old.status == Status.issued || old.status == Status.expired

-- The row is given no template, while the old one's decides where its key is kept.
abbrev pub renewal_choices : Job → Text → Choices
renewal_choices old email = record {
  requester_email = email;
  group_id = old.group_id;
  cert_type = renewal_types old;
  key_algo = renewal_algo old;
  template_id = none;
  renewed_from = some old.id;
}

unfoldable pub renew_csr :
    Openssl → Helper → Request → Generation → Job → Text → Text → Text → World → World × Reply Text
unfolding insert_rhel
renew_csr ssl h r g old email new_id csr_name w = elim (g.get_csr csr_name) [
  | none ↦ (w, error 500 (lit "could not read generated CSR"))
  | some csr_pem ↦
      let j = new_row ssl r g (renewal_choices old email) old.target_host new_id csr_name csr_pem in
      elim (insert_rhel h old.template_id j w) [
        | none ↦ (w, error 500 (lit "integrity error"))
        | some w' ↦ (announce_job r j (log_event "renew_job" "ok" old.id w'), ok new_id)
      ]
]

-- the first of the new CSRs
unfoldable pub renew_listed :
    Openssl
    → Helper
    → Request
    → Generation
    → Job
    → Text
    → Text
    → List Text
    → World
    → World × Reply Text
unfolding renew_csr
renew_listed ssl h r g old email new_id [] w =
    (place_keys g.key_files w, error 500 (lit "generation produced no CSR"))
renew_listed ssl h r g old email new_id (csr_name ∷ _) w =
    renew_csr ssl h r g old email new_id csr_name (place_keys g.key_files w)

unfoldable pub renew_generated :
    Openssl → Helper → Request → Generation → Job → Text → Text → World → World × Reply Text
unfolding renew_listed
renew_generated ssl h r g old email new_id w =
    if not g.generated
    then (log_event "renew_job" "error" old.id w, error 500 (lit "generation failed"))
    else renew_listed ssl h r g old email new_id g.new_csrs w

unfoldable pub renew_row : Openssl → Helper → Request → Job → Text → World → World × Reply Text
unfolding renew_generated own_email
renew_row ssl h r old new_id w =
    if not (renewable old)
    then (w, error 409 (lit "cannot renew a job in status " ++ status_name old.status))
    else if not (may_renew r w old)
    then (
      log_event "renew_job" "deny_not_authorized" old.id w,
      error 403 (lit "only the requester, group members, or an admin can renew"),
    )
    else elim (own_email r.email) [
      | none ↦ (w, error 400 (lit "No notification email on file."))
      | some email ↦
          if not (h.stages (renewal_line old))
          then (w, error 500 (lit "could not stage renewal"))
          else renew_generated ssl h r
              (h.generate (some (renewal_line old)) (renewal_types old) (renewal_algo old) [] [])
              old email new_id w
    ]

unfoldable pub renew_job : Openssl → Helper → Request → Text → Text → World → World × Reply Text
unfolding renew_row
renew_job ssl h r job_id new_id w =
    if not (is_job_id job_id)
    then (w, abort 400)
    else let w' = sweep_expired r.now w in
      elim (job_by_id job_id w') [
        | none ↦ (w', abort 404)
        | some old ↦ renew_row ssl h r old new_id w'
      ]
