-- ===== src/Store.antt =====
-- The rows that the backend keeps (backend/app.py, init_db) and what one request can see and do:
-- the tables jobs, users, groups, user_groups, cert_templates, app_settings, fleet_certs, the audit
-- log, and the webhooks, helper calls and issued files that a request sets off.
-- `licensed` is the setting licensed_domains, decoded from its JSON.
-- Times are whole seconds; a request reads the clock once.
use certheim.Base.{
  Bool, Eq, List, Option, String, Text, [], any, false, filter, find, if◌then◌else◌, inl, inr, map,
  nat_eq, none, option_eq, refl, some, strip, text_eq, update_where, ℕ, ℤ, ◌&&◌, ◌++◌, ◌==◌, ◌∷◌,
  ◌≡◌, ◌⊎◌,
}

pub data Status : Type 0 where
  pending issued failed cancelled expired revoked : Status

Status-discrete : Discrete Status
Status-discrete = hlevel

instance unfoldable pub status_eq : Eq Status
unfolding Status-discrete
status_eq = record { dec = Status-discrete }

pub data Source : Type 0 where
  rhel external : Source

pub record Job : Type 0 where
  pub id : Text
  pub created_at : ℕ
  pub requester_dn : Text
  pub requester_email : Option Text
  pub target_host : Text
  pub sans : List Text
  pub csr_pem : Text
  pub cert_pem : Option Text
  pub chain_pem : Option Text
  pub status : Status
  pub completed_at : Option ℕ
  pub completed_by_dn : Option Text
  pub error : Option Text
  pub expires_at : Option ℕ
  pub has_local_key : Bool
  pub local_key_name : Option Text
  pub source : Source
  pub group_id : Option ℕ
  pub cert_type : Option Text
  pub key_algo : Option Text
  pub renewed_from : Option Text
  pub template_id : Option ℕ
  pub signed_via : Option Text
  pub approved_by_dn : Option Text
  pub approved_at : Option ℕ
  pub revoked_at : Option ℕ
  pub revoked_by_dn : Option Text
  pub expiry_warned : ℕ
  pub key_storage : Option Text
  pub key_vault_path : Option Text

pub record Group : Type 0 where
  pub id : ℕ
  pub name : Text
  pub email : Option Text
  pub notify_on_new : Bool

pub data Role : Type 0 where
  member owner : Role

pub record Membership : Type 0 where
  pub user_dn : Text
  pub group_id : ℕ
  pub role : Role

pub record User : Type 0 where
  pub dn : Text
  pub cn : Text
  pub email : Option Text
  pub is_admin : Bool
  pub is_active : Bool
  pub username : Option Text
  pub password_hash : Option Text
  pub auth_status : Text
  pub failed_attempts : ℕ
  pub locked_until : ℕ
  pub first_name : Option Text
  pub last_name : Option Text
  pub last_seen_at : ℕ

-- A row of local_sessions.
pub record Session : Type 0 where
  pub token : Text
  pub user_dn : Text
  pub expires_at : ℕ

pub record Template : Type 0 where
  pub id : ℕ
  pub owner_dn : Option Text
  pub signer_backend : Option Text
  pub openbao_role : Option Text
  pub max_ttl : Option ℤ
  pub auto_sign : Bool
  pub key_storage : Option Text

pub record FleetCert : Type 0 where
  pub host : Text
  pub path : Text
  pub fingerprint : Text
  pub cn : Option Text
  pub expires_at : Option ℕ
  pub notify_email : Option Text
  pub first_seen : ℕ
  pub last_seen : ℕ
  pub pem : Text
  pub expiry_warned : ℕ

-- One `log_event` call: the action, its result and the job that it names. Further detail of the
-- log line is left out.
pub record Event : Type 0 where
  pub action : String
  pub result : String
  pub job_id : Text

-- One `fire_webhooks` call.
pub record Hook : Type 0 where
  pub event : String
  pub job_id : Text
  pub target_host : Text
  pub actor : Text
  pub note : Option Text

pub record World : Type 0 where
  pub jobs : List Job
  pub users : List User
  pub groups : List Group
  pub members : List Membership
  pub templates : List Template
  pub settings : List (Text × Text)
  pub licensed : List Text
  pub fleet : List FleetCert
  pub issued_dir : List (Text × Text)
  pub audit : List Event
  pub hooks : List Hook
  -- the helper's key directory, and the vault's keys by their job
  pub host_keys : List (Text × Text)
  pub vault : List (Text × Text)
  pub sessions : List Session

-- What a mail attempt came to: sent, skipped with a reason, or an exception.
pub data Mailed : Type 0 where
  sent skipped raised : Mailed

pub record Mail : Type 0 where
  pub kind : String
  pub job_id : Text
  pub requester_email : Option Text
  pub group_email : Option Text

-- What an authenticated request brings: `g.identity`, `g.user`, the clock, the mail server's answer
-- and whether the drop directory can be written.
pub record Request : Type 0 where
  pub dn : Text
  pub is_admin : Bool
  pub email : Option Text
  pub now : ℕ
  pub mail : Mail → Mailed
  pub disk_ok : Bool

-- A handler's answer: a JSON body, or an error with its status code and message.
pub data Reply (A : Type 0) : Type 0 where
  ok : A → Reply A
  error : ℕ → Text → Reply A

pub Reply-cases :
    {A : Type 0} (x : Reply A)
    → ((v : A) × (x ≡ ok v)) ⊎ ((code : ℕ) × (message : Text) × (x ≡ error code message))
Reply-cases (ok v) = inl (v, refl)
Reply-cases (error code message) = inr (code, message, refl)

-- `abort(code)`
abbrev pub abort : {A : Type 0} → ℕ → Reply A
abort code = error code []

abbrev pub log_event : String → String → Text → World → World
log_event action result job_id w = record w {
  audit = w.audit ++ record { action = action; result = result; job_id = job_id } ∷ [];
}

abbrev pub fire_webhooks : Hook → World → World
fire_webhooks h w = record w { hooks = w.hooks ++ h ∷ [] }

-- `SELECT … FROM jobs WHERE id = ?`
abbrev pub job_by_id : Text → World → Option Job
job_by_id job_id w = find (λ j. j.id == job_id) w.jobs

-- `UPDATE jobs SET … WHERE …`
abbrev pub update_jobs : (Job → Bool) → (Job → Job) → World → World
update_jobs p f w = record w { jobs = update_where p f w.jobs }

-- `_group_by_id`
unfoldable pub group_by_id : ℕ → World → Option Group
unfolding nat_eq
group_by_id group_id w = find (λ g. g.id == group_id) w.groups

-- `_user_group_ids`
unfoldable pub user_group_ids : Text → World → List ℕ
unfolding text_eq
user_group_ids dn w =
    if dn == [] then [] else map (λ m. m.group_id) (filter (λ m. m.user_dn == dn) w.members)

-- `_is_signer`
unfoldable pub is_signer : Text → World → Bool
unfolding text_eq nat_eq
is_signer dn w =
    if dn == []
    then false
    else any (λ m. m.user_dn == dn && any (λ g. g.id == m.group_id && g.notify_on_new) w.groups)
        w.members

-- a stripped text, or `None` where nothing is left
abbrev pub strip_or_none : Text → Option Text
strip_or_none s = if strip s == [] then none else some (strip s)

-- `_group_email`
unfoldable pub group_email : Option ℕ → World → Option Text
unfolding group_by_id strip text_eq
group_email none w = none
group_email (some group_id) w = elim (group_by_id group_id w) [
  | none ↦ none
  | some g ↦ elim g.email [ none ↦ none | some e ↦ strip_or_none e ]
]

-- the outcome of a mail attempt in the audit log
abbrev pub mail_result : Mailed → String
mail_result Mailed.sent = "ok"
mail_result Mailed.skipped = "skip"
mail_result Mailed.raised = "exception"

abbrev pub log_mail : Request → Mail → World → World
log_mail r m w = log_event "email_notify" (mail_result (r.mail m)) m.job_id w
