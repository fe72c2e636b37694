-- ===== src/Keystore/Laws.antt =====
-- Theorems on secure_after_generate and fetch_for_job (backend/keystore.py).
use certheim.Base.{
  Bool-cases, List, Option, Option-cases, Text, [], arith, contains, false, inl, inr, is_empty, lit,
  lookup-put, nat_eq, none, option_eq, put, refl, some, split_on, strip, text_eq, true,
  update_where, ℕ, ◌++◌, ◌==◌, ◌||◌, ◌∷◌, ◌≡◌,
}
use certheim.Store.{Job, World, job_by_id, status_eq}
use certheim.Jobs.Keys.{find-update_row, row_with_id}
use certheim.Jobs.Evolution.{Moves-same, Steps, Steps-update_where}
use certheim.Crypto.{Openssl}
use certheim.Keystore.{
  KeyEnv, delete_key, destroy_vault, effective_mode, fetch_for_job, fetch_host, get_key, hand_out,
  job_of_path, key_prefix, last_part, read_vault, secure_after_generate, set_returned, set_storage,
  set_vaulted, store_key,
}

split_on_none : (sep : ℕ) (s : Text) → contains s sep ≡ false → split_on sep s ≡ s ∷ []
unfolding split_on
split_on_none sep [] h = refl
split_on_none sep (c ∷ s) h = ground (arith, split_on_none sep s)

job_of_path-prefix : (id : Text) → contains id b'/' ≡ false → job_of_path (key_prefix ++ id) ≡ id
unfolding job_of_path last_part split_on nat_eq
job_of_path-prefix id h = rw (split_on_none b'/' id h) refl

-- How the storage policy ends: the host keeps its copy, or the vault has taken it.
data Secured (e : KeyEnv) (job_id name pem : Text) (w w' : World) : Type 0 where
  on_host :
      w'.jobs ≡ update_where (row_with_id job_id) (set_storage (lit "host")) w.jobs
      → w'.host_keys ≡ w.host_keys
      → Secured e job_id name pem w w'
  in_vault :
      (mode : Text)
      → w'.jobs ≡ update_where (row_with_id job_id) (set_vaulted job_id mode) w.jobs
      → w'.vault ≡ put job_id pem w.vault
      → Secured e job_id name pem w w'

secure-Secured :
    (e : KeyEnv) (job_id name pem : Text) (template_id : Option ℕ) (w : World)
    → get_key e name w ≡ some pem
    → Secured e job_id name pem w (secure_after_generate e job_id name template_id w)
unfolding secure_after_generate store_key delete_key
secure-Secured e job_id name pem template_id w key =
    elim (Bool-cases (effective_mode template_id w == lit "host" || is_empty name)) [
      | inl host ↦ on_host (ground arith) (ground arith)
      | inr kept ↦ elim (Bool-cases e.vault_available) [
        | inr off ↦ on_host (ground arith) (ground arith)
        | inl on ↦ elim (Bool-cases (is_empty (strip pem))) [
          | inl blank ↦ on_host (ground arith) (ground arith)
          | inr full ↦ elim (Bool-cases (e.put_fails job_id)) [
            | inl down ↦ on_host (ground arith) (ground arith)
            | inr storing ↦ in_vault (effective_mode template_id w) (ground arith) (ground arith)
          ]
        ]
      ]
    ]

-- The key that a row on the host or in the vault gives.
fetch-on_host :
    (e : KeyEnv) (j : Job) (name pem : Text) (w : World)
    → j.key_vault_path ≡ none
    → j.local_key_name ≡ some name
    → is_empty name ≡ false
    → j.has_local_key ≡ true
    → get_key e name w ≡ some pem
    → (fetch_for_job e j w).1 ≡ some pem
unfolding fetch_for_job fetch_host
fetch-on_host e j name pem w path named filled local key =
    rw (path, fetch_for_job, fetch_host, named, local, filled, key) refl

fetch-in_vault :
    (e : KeyEnv) (j : Job) (pem : Text) (w : World)
    → j.key_vault_path ≡ some (key_prefix ++ j.id)
    → contains j.id b'/' ≡ false
    → read_vault e j.id w ≡ some pem
    → (fetch_for_job e j w).1 ≡ some pem
unfolding fetch_for_job hand_out
fetch-in_vault e j pem w path plain key =
    rw (path, fetch_for_job, job_of_path-prefix j.id plain, key) (ground arith)

read_put :
    (e : KeyEnv) (job_id pem : Text) (w w' : World)
    → e.read_fails job_id ≡ false
    → w'.vault ≡ put job_id pem w.vault
    → read_vault e job_id w' ≡ some pem
unfolding read_vault
read_put e job_id pem w w' up same =
    rw (up, same, lookup-put job_id pem job_id w.vault) (ground arith)

get_key_same :
    (e : KeyEnv) (name : Text) (w w' : World)
    → w'.host_keys ≡ w.host_keys
    → get_key e name w' ≡ get_key e name w
unfolding get_key
get_key_same e name w w' same = rw same refl

-- A key that the helper can read, of a row with the job's id, is still fetched after the storage
-- policy, whatever the policy, the template, the vault and the removal of the host's copy come to,
-- if the vault can be read.
pub secure-fetch :
    (e : KeyEnv) (template_id : Option ℕ) (w : World) (j : Job) (name pem : Text)
    → job_by_id j.id w ≡ some j
    → j.key_vault_path ≡ none
    → j.local_key_name ≡ some name
    → is_empty name ≡ false
    → j.has_local_key ≡ true
    → contains j.id b'/' ≡ false
    → e.read_fails j.id ≡ false
    → get_key e name w ≡ some pem
    → (row : Job) × (job_by_id j.id (secure_after_generate e j.id name template_id w) ≡ some row)
      × ((fetch_for_job e row (secure_after_generate e j.id name template_id w)).1 ≡ some pem)
secure-fetch e template_id w j name pem found path named filled local plain up key =
    elim (secure-Secured e j.id name pem template_id w key) [
      | on_host jobs keys ↦ (
        set_storage (lit "host") j,
        rw jobs (find-update_row (set_storage (lit "host")) j.id j (λ x. refl) w.jobs found),
        fetch-on_host e (set_storage (lit "host") j) name pem
            (secure_after_generate e j.id name template_id w) path named filled local
            (rw (get_key_same e name w (secure_after_generate e j.id name template_id w) keys) key),
      )
      | in_vault mode jobs keys ↦ (
        set_vaulted j.id mode j,
        rw jobs (find-update_row (set_vaulted j.id mode) j.id j (λ x. refl) w.jobs found),
        fetch-in_vault e (set_vaulted j.id mode j) pem
            (secure_after_generate e j.id name template_id w) refl plain
            (read_put e j.id pem w (secure_after_generate e j.id name template_id w) up keys),
      )
    ]

jobs-destroy_vault :
    (e : KeyEnv) (job_id : Text) (w : World) → (destroy_vault e job_id w).jobs ≡ w.jobs
unfolding destroy_vault
jobs-destroy_vault e job_id w = ground arith

-- A key in the vault that may be fetched once is given to the first fetch, and no later fetch of the
-- row that is then stored gives any key, in any state of the two stores and whether or not the vault
-- destroys its copy.
pub fetch-once :
    (e e' : KeyEnv) (w w' : World) (j : Job) (path pem : Text)
    → job_by_id j.id w ≡ some j
    → j.key_storage ≡ some (lit "return_once")
    → j.key_vault_path ≡ some path
    → is_empty path ≡ false
    → is_empty pem ≡ false
    → read_vault e (job_of_path path) w ≡ some pem
    → ((fetch_for_job e j w).1 ≡ some pem)
      × (job_by_id j.id (fetch_for_job e j w).0 ≡ some (set_returned j))
      × ((fetch_for_job e' (set_returned j) w').1 ≡ none)
unfolding fetch_for_job hand_out fetch_host
fetch-once e e' w w' j path pem found once at filled full key = (
  rw (at, fetch_for_job, filled, key, hand_out, full, once) refl,
  rw (at, fetch_for_job, filled, key, hand_out, full, once)
      (rw (jobs-destroy_vault e (job_of_path path) w)
        (find-update_row set_returned j.id j (λ x. refl) w.jobs found)),
  ground arith,
)

module _ (ssl : Openssl) where
  storage-Steps :
      (job_id mode : Text) (js : List Job)
      → Steps ssl js (update_where (row_with_id job_id) (set_storage mode) js)
  storage-Steps job_id mode js =
      Steps-update_where ssl (row_with_id job_id) (set_storage mode) (λ _. refl)
        (λ j _. Moves-same ssl j (set_storage mode j) refl refl refl refl refl refl) js

  vaulted-Steps :
      (job_id mode : Text) (js : List Job)
      → Steps ssl js (update_where (row_with_id job_id) (set_vaulted job_id mode) js)
  vaulted-Steps job_id mode js =
      Steps-update_where ssl (row_with_id job_id) (set_vaulted job_id mode) (λ _. refl)
        (λ j _. Moves-same ssl j (set_vaulted job_id mode j) refl refl refl refl refl refl) js

  jobs-no_key :
      (e : KeyEnv) (job_id name : Text) (template_id : Option ℕ) (w : World)
      → get_key e name w ≡ none
      → (secure_after_generate e job_id name template_id w).jobs
        ≡ update_where (row_with_id job_id) (set_storage (lit "host")) w.jobs
  unfolding secure_after_generate
  jobs-no_key e job_id name template_id w missing = ground arith

  pub secure-Steps :
      (e : KeyEnv) (job_id name : Text) (template_id : Option ℕ) (w : World)
      → Steps ssl w.jobs (secure_after_generate e job_id name template_id w).jobs
  secure-Steps e job_id name template_id w = elim (Option-cases (get_key e name w)) [
    | inl missing ↦
        rw (jobs-no_key e job_id name template_id w missing)
          (storage-Steps job_id (lit "host") w.jobs)
    | inr (pem, key) ↦ elim (secure-Secured e job_id name pem template_id w key) [
      | on_host jobs keys ↦ rw jobs (storage-Steps job_id (lit "host") w.jobs)
      | in_vault mode jobs keys ↦ rw jobs (vaulted-Steps job_id mode w.jobs)
    ]
  ]
