-- ===== src/Requests/Generate.antt =====
-- generate_rhel (backend/routes_requests.py): the keys and CSRs that the privileged helper makes on
-- the server, and the jobs for them. The helper is a parameter: what one `generate-typed` call leaves
-- behind, as the following listings report it. The caller's session keys are left out.
pub mod Laws
use certheim.Base.{
  Bool, List, Option, Text, [], contains, false, if◌then◌else◌, is_empty, join, length, lit, lower,
  nat_eq, none, not, option_eq, some, strip, take, text_eq, true, ℕ, ◌++◌, ◌-◌, ◌∷◌,
}
use certheim.Store.{
  Job, Reply, Request, Source, Status, World, error, fire_webhooks, log_event, ok, pending, rhel,
  status_eq,
}
use certheim.Signing.{Deploy, signed}
use certheim.Crypto.{Openssl}
use certheim.Keystore.{KeyEnv, secure_after_generate}
use certheim.Jobs.Regroup.{GroupField}
use certheim.Validation.{TextField, invalid, no_text, other_type, text, valid, validate_email}
use certheim.Validation.CertTypes.{
  Types, TypesField, key_algos_allowed, normalize_cert_types, rejected, types,
}
use certheim.Requests.CsrSubject.{parse_csr_subject}
use certheim.Requests.AutoSign.{auto_sign_jobs}
use certheim.Requests.External.{choose_group, coerce_template_id, insert_job, notify_signers}

-- What a `generate-typed` call leaves: whether it succeeded, the new CSRs and keys by file name, and
-- the key files themselves.
pub record Generation : Type 0 where
  pub generated : Bool
  pub new_csrs : List Text
  pub new_keys : List Text
  pub get_csr : Text → Option Text
  pub key_files : List (Text × Text)

-- The helper: staging a list of hosts, and generation from the staged list with a type, a key
-- algorithm, a domain suffix and a subject profile. `renewal` is the list that a renewal stages.
pub record Helper : Type 0 where
  pub stages : Text → Bool
  pub generate : Option Text → Text → Text → Text → Text → Generation
  pub keys : KeyEnv

-- The fields of the request body. The domain suffix and the profile are sanitized already.
pub record Order : Type 0 where
  pub requester_email : TextField
  pub cert_type : TypesField
  pub group_id : GroupField
  pub key_algo : Text
  pub template_id : Option ℕ
  pub domain_choice : Text
  pub profile : Text

-- What the new rows of one request share.
pub record Choices : Type 0 where
  pub requester_email : Text
  pub group_id : Option ℕ
  pub cert_type : Text
  pub key_algo : Text
  pub template_id : Option ℕ
  pub renewed_from : Option Text

-- `csr_name[:-4]`
abbrev pub stem : Text → Text
stem name = take (length name - 4) name

abbrev pub key_file : Text → Text
key_file csr_name = stem csr_name ++ lit ".key"

-- `cn or …`
abbrev pub or_else : Text → Text → Text
or_else cn other = if is_empty cn then other else cn

-- the new row of a CSR that the helper made
abbrev pub rhel_job : Request → Choices → Text → Text → List Text → Text → Option Text → Job
rhel_job r c job_id target sans csr_pem local_key = record {
  id = job_id;
  created_at = r.now;
  requester_dn = r.dn;
  requester_email = some c.requester_email;
  target_host = target;
  sans = sans;
  csr_pem = csr_pem;
  cert_pem = none;
  chain_pem = none;
  status = Status.pending;
  completed_at = none;
  completed_by_dn = none;
  error = none;
  expires_at = none;
  has_local_key = elim local_key [ none ↦ false | some _ ↦ true ];
  local_key_name = local_key;
  source = Source.rhel;
  group_id = c.group_id;
  cert_type = some c.cert_type;
  key_algo = some c.key_algo;
  renewed_from = c.renewed_from;
  template_id = c.template_id;
  signed_via = none;
  approved_by_dn = none;
  approved_at = none;
  revoked_at = none;
  revoked_by_dn = none;
  expiry_warned = 0;
  key_storage = none;
  key_vault_path = none;
}

-- the name of the key file, where the helper made one
unfoldable pub local_key_of : Generation → Text → Option Text
unfolding text_eq
local_key_of g csr_name =
    if contains g.new_keys (key_file csr_name) then some (key_file csr_name) else none

-- the storage policy, where there is a key
unfoldable pub secure_key : KeyEnv → Text → Option Text → Option ℕ → World → World
secure_key e job_id none template_id w = w
secure_key e job_id (some name) template_id w = secure_after_generate e job_id name template_id w

-- the new row for a CSR that was read
abbrev pub new_row : Openssl → Request → Generation → Choices → Text → Text → Text → Text → Job
new_row ssl r g c fallback job_id csr_name csr_pem =
    let (cn, sans) = parse_csr_subject ssl csr_pem in
    rhel_job r c job_id (or_else cn fallback) sans csr_pem (local_key_of g csr_name)

-- the row stored and its key secured; nothing where its identifier is taken
unfoldable pub insert_rhel : Helper → Option ℕ → Job → World → Option World
unfolding secure_key
insert_rhel h template_id j w = elim (insert_job j w) [
  | none ↦ none
  | some w' ↦ some (secure_key h.keys j.id j.local_key_name template_id w')
]

-- the webhook of a new job
abbrev pub announce_job : Request → Job → World → World
announce_job r j w =
    fire_webhooks
      (record {
        event = "job.created";
        job_id = j.id;
        target_host = j.target_host;
        actor = r.dn;
        note = none;
      })
      w

-- what the loop over the CSRs has made; `broken` where an identifier was taken
pub record Made : Type 0 where
  pub world : World
  pub job_ids : List Text
  pub broken : Bool

abbrev pub record_job : Request → Made → Job → World → Made
record_job r m j w = record {
  world = announce_job r j (log_event "job_created" "ok" j.id w);
  job_ids = m.job_ids ++ j.id ∷ [];
  broken = false;
}

unfoldable pub make_job : Helper → Request → Option ℕ → Job → Made → Made
unfolding insert_rhel
make_job h r template_id j m = elim (insert_rhel h template_id j m.world) [
  | none ↦ record m { broken = true }
  | some w ↦ record_job r m j w
]

-- one round of the loop; `uuid` gives the identifier of the job of a CSR
unfoldable pub make_one :
    Openssl → Helper → Request → Generation → Choices → (Text → Text) → Text → Made → Made
unfolding make_job
make_one ssl h r g c uuid csr_name m = elim (g.get_csr csr_name) [
  | none ↦ m
  | some csr_pem ↦
      make_job h r c.template_id
        (new_row ssl r g c (stem csr_name) (uuid csr_name) csr_name csr_pem) m
]

unfoldable pub make_jobs :
    Openssl → Helper → Request → Generation → Choices → (Text → Text) → List Text → Made → Made
unfolding make_one
make_jobs ssl h r g c uuid [] m = m
make_jobs ssl h r g c uuid (name ∷ names) m =
    let m' = make_one ssl h r g c uuid name m in
    let rest = make_jobs ssl h r g c uuid names m' in if m'.broken then m' else rest

pub record Generated : Type 0 where
  pub jobs : List Text
  pub new_keys : List Text

-- the key files that the helper has written
abbrev pub place_keys : List (Text × Text) → World → World
place_keys files w = record w { host_keys = files ++ w.host_keys }

-- the end of the request: the signatures and the mail to the signers
unfoldable pub finish_generate :
    Openssl → Helper → Deploy → Request → Generation → Option ℕ → Made → World × Reply Generated
finish_generate ssl h d r g template_id m =
    if m.broken
    then (m.world, error 500 (lit "integrity error"))
    else let signed =
        auto_sign_jobs ssl d r m.job_ids template_id (log_event "generate_rhel" "ok" [] m.world) in
      let mailed = if is_empty m.job_ids then signed else notify_signers r signed in
      (
        log_event "certlist_clear" (if h.stages [] then "ok" else "warn_failed") [] mailed,
        ok (record { jobs = m.job_ids; new_keys = g.new_keys }),
      )

-- the part after the helper has answered
unfoldable pub generate_jobs :
    Openssl
    → Helper
    → Deploy
    → Request
    → Generation
    → Choices
    → (Text → Text)
    → World
    → World × Reply Generated
unfolding finish_generate
generate_jobs ssl h d r g c uuid w =
    if not g.generated
    then (log_event "generate_rhel" "error" [] w, error 422 (lit "certificate generation failed"))
    else finish_generate ssl h d r g c.template_id (
        make_jobs ssl h r g c uuid g.new_csrs
          (record { world = place_keys g.key_files w; job_ids = []; broken = false }))

-- `(payload.get("key_algo") or "rsa2048").strip().lower()`
unfoldable pub key_algo_of : Text → Text
unfolding strip lower
key_algo_of given = lower (strip (or_else given (lit "rsa2048")))

-- the text of the types, `web` where none is given
unfoldable pub type_text_or_web : Types → Text
unfolding join
type_text_or_web (types ts) = join (lit ",") ts
type_text_or_web _ = lit "web"

-- what the rows of an order share; a template that is not there is dropped
abbrev pub order_choices : Order → Text → Text → Option ℕ → World → Choices
order_choices o email cert_type group_id w = record {
  requester_email = email;
  group_id = group_id;
  cert_type = cert_type;
  key_algo = key_algo_of o.key_algo;
  template_id = coerce_template_id o.template_id w;
  renewed_from = none;
}

unfoldable pub generate_grouped :
    Openssl
    → Helper
    → Deploy
    → Request
    → Order
    → Text
    → Text
    → Option ℕ
    → (Text → Text)
    → World
    → World × Reply Generated
unfolding generate_jobs text_eq
generate_grouped ssl h d r o email cert_type group_id uuid w =
    let algo = key_algo_of o.key_algo in
    if not (contains key_algos_allowed algo)
    then (w, error 400 (lit "invalid key_algo"))
    else generate_jobs ssl h d r (h.generate none cert_type algo o.domain_choice o.profile)
        (order_choices o email cert_type group_id w) uuid (log_event "generate_rhel" "start" [] w)

unfoldable pub generate_typed :
    Openssl
    → Helper
    → Deploy
    → Request
    → Order
    → Text
    → Types
    → (Text → Text)
    → World
    → World × Reply Generated
unfolding generate_grouped
generate_typed ssl h d r o email (rejected message) uuid w = (w, error 400 message)
generate_typed ssl h d r o email ts uuid w = elim (choose_group r o.group_id w) [
  | error code message ↦ (w, error code message)
  | ok group_id ↦ generate_grouped ssl h d r o email (type_text_or_web ts) group_id uuid w
]

unfoldable pub generate_mailed :
    Openssl
    → Helper
    → Deploy
    → Request
    → Order
    → Option Text
    → (Text → Text)
    → World
    → World × Reply Generated
unfolding generate_typed
generate_mailed ssl h d r o none uuid w = (
  log_event "generate_rhel" "deny_no_email" [] w,
  error 400 (lit "No notification email on file."),
)
generate_mailed ssl h d r o (some email) uuid w =
    generate_typed ssl h d r o email (normalize_cert_types o.cert_type) uuid w

-- the address of the request, or the caller's own where it is missing or blank
unfoldable pub own_if_blank : Option Text → TextField → TextField
unfolding strip
own_if_blank own other_type = other_type
own_if_blank own (text s) =
    if is_empty (strip s) then elim own [ none ↦ no_text | some e ↦ text e ] else text s
own_if_blank own no_text = elim own [ none ↦ no_text | some e ↦ text e ]

unfoldable pub generate_rhel :
    Openssl → Helper → Deploy → Request → Order → (Text → Text) → World → World × Reply Generated
unfolding generate_mailed own_if_blank
generate_rhel ssl h d r o uuid w = elim (validate_email (own_if_blank r.email o.requester_email)) [
  | invalid message ↦ (log_event "generate_rhel" "deny_invalid_email" [] w, error 400 message)
  | valid email ↦ generate_mailed ssl h d r o email uuid w
]
