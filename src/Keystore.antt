-- ===== src/Keystore.antt =====
-- Where the private key of a job is kept (backend/keystore.py). The helper's key directory and the
-- vault are two maps of the store; which calls to them fail is a parameter.
pub mod Laws
use certheim.Base.{
  Bool, List, Option, Text, [], contains, erase, false, filter, find, if◌then◌else◌, is_empty,
  is_zero, leb_ℤ, lit, lookup, nat_eq, none, not, option_eq, parse_int, pos, put, some, split_on,
  strip, take, text_eq, true, ℕ, ℤ, ◌&&◌, ◌++◌, ◌+◌, ◌==◌, ◌||◌, ◌∷◌,
}
use certheim.Store.{Job, Template, World, log_event, status_eq, update_jobs}
use certheim.Settings.{setting_or}
use certheim.Jobs.Keys.{row_with_id}

-- What the environment and the two stores answer.
pub record KeyEnv : Type 0 where
  pub vault_available : Bool
  -- whether a helper call on a key file fails, and a vault call on a job's key
  pub helper_fails : Text → Bool
  pub delete_fails : Text → Bool
  pub put_fails : Text → Bool
  pub read_fails : Text → Bool
  pub destroy_fails : Text → Bool

abbrev pub key_storage_modes : List Text
key_storage_modes = lit "vault" ∷ lit "return_once" ∷ lit "host" ∷ []

-- `policy`
unfoldable pub key_policy : World → Text
unfolding text_eq
key_policy w =
    let p = setting_or (lit "key_storage") (lit "vault") w in
    if contains key_storage_modes p then p else lit "vault"

-- `int(… or 0)`, and zero where that fails
abbrev threshold : World → ℤ
threshold w = elim (parse_int (setting_or (lit "key_return_once_max_ttl") (lit "0") w)) [
  | none ↦ pos 0
  | some n ↦ n
]

-- `thr > 0 and max_ttl and max_ttl <= thr`
abbrev short_lived : ℤ → Option ℤ → Bool
short_lived thr none = false
short_lived thr (some ttl) =
    not (leb_ℤ thr (pos 0)) && not (leb_ℤ ttl (pos 0) && leb_ℤ (pos 0) ttl) && leb_ℤ ttl thr

-- a template's own mode, if it is one
abbrev own_mode : Option Text → Option Text
own_mode none = none
own_mode (some m) = if contains key_storage_modes m then some m else none

abbrev template_mode : World → Template → Text
template_mode w t = elim (own_mode t.key_storage) [
  | some m ↦ m
  | none ↦ if short_lived (threshold w) t.max_ttl then lit "return_once" else key_policy w
]

unfoldable pub effective_mode : Option ℕ → World → Text
unfolding text_eq nat_eq
effective_mode none w = key_policy w
effective_mode (some template_id) w =
    if is_zero template_id
    then key_policy w
    else elim (find (λ t. t.id == template_id) w.templates) [
      | none ↦ key_policy w
      | some t ↦ template_mode w t
    ]

-- the helper's `get-key` and `delete-key`
unfoldable pub get_key : KeyEnv → Text → World → Option Text
unfolding text_eq
get_key e name w = if e.helper_fails name then none else lookup name w.host_keys

unfoldable pub delete_key : KeyEnv → Text → World → World
unfolding text_eq
delete_key e name w =
    if e.delete_fails name then w else record w { host_keys = erase name w.host_keys }

abbrev pub key_prefix : Text
key_prefix = lit "certheim/_shared/keys/"

-- `vpath.rsplit("/", 1)[-1]`
unfoldable pub last_part : List Text → Text
last_part [] = []
last_part (p ∷ []) = p
last_part (p ∷ q ∷ ps) = last_part (q ∷ ps)

unfoldable pub job_of_path : Text → Text
unfolding last_part split_on
job_of_path path = last_part (split_on b'/' path)

abbrev pub set_storage : Text → Job → Job
set_storage mode j = record j { key_storage = some mode }

abbrev pub set_vaulted : Text → Text → Job → Job
set_vaulted job_id mode j = record j {
  key_storage = some mode;
  key_vault_path = some (key_prefix ++ job_id);
}

abbrev pub keep_on_host : Text → World → World
keep_on_host job_id w = update_jobs (row_with_id job_id) (set_storage (lit "host")) w

-- the key written to the vault, its host copy removed
abbrev pub move_to_vault : KeyEnv → Text → Text → Text → Text → World → World
move_to_vault e job_id key_name mode pem w = log_event "keystore" "stored_vault" job_id (
    update_jobs (row_with_id job_id) (set_vaulted job_id mode)
      (delete_key e key_name (record w { vault = put job_id pem w.vault })))

-- what follows a host key that was read
unfoldable pub store_key : KeyEnv → Text → Text → Text → Text → World → World
unfolding text_eq
store_key e job_id key_name mode pem w =
    if e.put_fails job_id
    then keep_on_host job_id (log_event "keystore" "vault_put_fail" job_id w)
    else move_to_vault e job_id key_name mode pem w

unfoldable pub secure_after_generate : KeyEnv → Text → Text → Option ℕ → World → World
unfolding store_key strip text_eq
secure_after_generate e job_id key_name template_id w =
    let mode = effective_mode template_id w in
    if mode == lit "host" || is_empty key_name
    then keep_on_host job_id w
    else if not e.vault_available
    then keep_on_host job_id (log_event "keystore" "vault_unavailable" job_id w)
    else elim (get_key e key_name w) [
      | none ↦ keep_on_host job_id (log_event "keystore" "read_fail" job_id w)
      | some pem ↦
          if is_empty (strip pem)
          then keep_on_host job_id (log_event "keystore" "read_fail" job_id w)
          else store_key e job_id key_name mode pem w
    ]

-- the vault's copy destroyed after its one retrieval
abbrev pub set_returned : Job → Job
set_returned j = record j {
  key_vault_path = none;
  has_local_key = false;
  key_storage = some (lit "returned");
}

-- `_read`: not there, or a failed call
unfoldable pub read_vault : KeyEnv → Text → World → Option Text
unfolding text_eq
read_vault e job_id w = if e.read_fails job_id then none else lookup job_id w.vault

unfoldable pub destroy_vault : KeyEnv → Text → World → World
unfolding text_eq
destroy_vault e job_id w =
    if e.destroy_fails job_id then w else record w { vault = erase job_id w.vault }

abbrev is_once : Option Text → Bool
is_once none = false
is_once (some mode) = mode == lit "return_once"

-- a key that the vault gave, handed out
unfoldable pub hand_out : KeyEnv → Job → Text → Text → World → World × Option Text
unfolding text_eq
hand_out e j key_id pem w =
    if not (is_empty pem) && is_once j.key_storage
    then (update_jobs (row_with_id j.id) set_returned (destroy_vault e key_id w), some pem)
    else (w, some pem)

-- the host's copy
unfoldable pub fetch_host : KeyEnv → Job → World → Option Text
fetch_host e j w = elim j.local_key_name [
  | none ↦ none
  | some name ↦ if j.has_local_key && not (is_empty name) then get_key e name w else none
]

unfoldable pub fetch_for_job : KeyEnv → Job → World → World × Option Text
unfolding hand_out fetch_host
fetch_for_job e j w = elim j.key_vault_path [
  | none ↦ (w, fetch_host e j w)
  | some path ↦
      if is_empty path then (w, fetch_host e j w) else elim (read_vault e (job_of_path path) w) [
        | none ↦ (w, none)
        | some pem ↦ hand_out e j (job_of_path path) pem w
      ]
]

-- `fetch_by_name`
unfoldable pub fetch_by_name : KeyEnv → Text → World → World × Option Text
unfolding text_eq
fetch_by_name e name w = elim (find (λ j. j.local_key_name == some name) w.jobs) [
  | none ↦ (w, get_key e name w)
  | some j ↦ fetch_for_job e j w
]

-- `purge_for_job`
abbrev purge_vault : KeyEnv → Option Text → World → World
purge_vault e none w = w
purge_vault e (some path) w = if is_empty path then w else destroy_vault e (job_of_path path) w

abbrev purge_host : KeyEnv → Option Text → World → World
purge_host e none w = w
purge_host e (some name) w = if is_empty name then w else delete_key e name w

unfoldable pub purge_for_job : KeyEnv → Job → World → World
purge_for_job e j w = purge_host e j.local_key_name (purge_vault e j.key_vault_path w)

abbrev is_set : Option Text → Bool
is_set none = false
is_set (some _) = true

-- the jobs that the sweep reads
abbrev pub has_host_key : Job → Bool
has_host_key j = j.has_local_key && is_set j.local_key_name && not (is_set j.key_vault_path)

abbrev set_flag_off : Job → Job
set_flag_off j = record j { has_local_key = false }

-- what the sweep has done so far
pub record Swept : Type 0 where
  pub world : World
  pub migrated : ℕ
  pub failed : ℕ

abbrev put_in_vault : KeyEnv → Text → Text → Text → Swept → Swept
put_in_vault e job_id name pem s = record {
  world =
      update_jobs (row_with_id job_id) (set_vaulted job_id (lit "vault"))
        (delete_key e name (record s.world { vault = put job_id pem s.world.vault }));
  migrated = s.migrated + 1;
  failed = s.failed;
}

-- one job of the sweep
unfoldable pub migrate_key : KeyEnv → Text → Text → Text → Swept → Swept
unfolding strip text_eq
migrate_key e job_id name pem s =
    if is_empty (strip pem)
    then record s { world = update_jobs (row_with_id job_id) set_flag_off s.world }
    else if e.put_fails job_id
    then record s {
      world = log_event "keystore" "migrate_fail" job_id s.world;
      failed = s.failed + 1;
    }
    else put_in_vault e job_id name pem s

abbrev name_of : Option Text → Text
name_of none = []
name_of (some name) = name

unfoldable pub migrate_one : KeyEnv → Job → Swept → Swept
unfolding migrate_key
migrate_one e j s = elim (get_key e (name_of j.local_key_name) s.world) [
  | none ↦ record s { world = update_jobs (row_with_id j.id) set_flag_off s.world }
  | some pem ↦ migrate_key e j.id (name_of j.local_key_name) pem s
]

unfoldable pub migrate_rows : KeyEnv → List Job → Swept → Swept
unfolding migrate_one
migrate_rows e [] s = s
migrate_rows e (j ∷ js) s = migrate_rows e js (migrate_one e j s)

-- `migrate_host_keys`
unfoldable pub migrate_host_keys : ℕ → KeyEnv → World → Swept
unfolding migrate_rows
migrate_host_keys limit e w =
    if not e.vault_available
    then record { world = w; migrated = 0; failed = 0 }
    else let s =
        migrate_rows e (take limit (filter has_host_key w.jobs))
          (record { world = w; migrated = 0; failed = 0 }) in
      record s { world = log_event "keystore" "migrate_sweep" [] s.world }
