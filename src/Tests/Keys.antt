-- ===== src/Tests/Keys.antt =====
-- Runs of the key storage, the renewals and the generation, and the theorems at concrete inputs.
use certheim.Jobs.Renew.{renew_job}
use certheim.Base.{
  [], false, lit, nat_eq, none, refl, some, split_on, text_eq, true, ◌++◌, ◌∷◌, ◌≡◌, ◌⊎◌,
}
use certheim.Store.{Job, World, abort, job_by_id}
use certheim.Tests.Fixtures.{
  admin, issued_id, new_id, pending_id, pending_job, test_ssl, test_world,
}
use certheim.Keystore.{
  KeyEnv, fetch_for_job, get_key, job_of_path, key_prefix, last_part, read_vault,
  secure_after_generate, set_returned,
}
use certheim.Keystore.Laws.{fetch-once, secure-fetch}
use certheim.Requests.Generate.{Generation, Helper}
use certheim.Jobs.Renew.Laws.{Renewed, renew_job-Renewed}
use certheim.Jobs.Sweep.{sweep_expired}

abbrev test_keys : KeyEnv
test_keys = record {
  vault_available = true;
  helper_fails = λ name. false;
  delete_fails = λ name. false;
  put_fails = λ id. false;
  read_fails = λ id. false;
  destroy_fails = λ id. true;
}

secure-fetch_example :
    (row : Job) × (job_by_id pending_id
        (secure_after_generate test_keys pending_id (lit "www.key") none test_world)
      ≡ some row)
    × ((fetch_for_job test_keys row
          (secure_after_generate test_keys pending_id (lit "www.key") none test_world)).1
        ≡ some (lit "PRIVATE"))
unfolding get_key nat_eq text_eq
secure-fetch_example =
    secure-fetch test_keys none test_world pending_job (lit "www.key") (lit "PRIVATE") refl refl
      refl refl refl refl refl refl

abbrev once_job : Job
once_job = record pending_job {
  key_storage = some (lit "return_once");
  key_vault_path = some (key_prefix ++ pending_id);
}

abbrev once_world : World
once_world = record test_world { jobs = once_job ∷ []; vault = (pending_id, lit "PRIVATE") ∷ [] }

fetch-once_example :
    ((fetch_for_job test_keys once_job once_world).1 ≡ some (lit "PRIVATE"))
    × (job_by_id pending_id (fetch_for_job test_keys once_job once_world).0
        ≡ some (set_returned once_job))
    × ((fetch_for_job test_keys (set_returned once_job) test_world).1 ≡ none)
unfolding read_vault job_of_path last_part split_on nat_eq text_eq
fetch-once_example =
    fetch-once test_keys test_keys once_world test_world once_job (key_prefix ++ pending_id)
      (lit "PRIVATE") refl refl refl refl refl refl

abbrev test_generation : Generation
test_generation = record {
  generated = true;
  new_csrs = lit "www.csr" ∷ [];
  new_keys = lit "www.key" ∷ [];
  get_csr = λ name. some (lit "CERTIFICATE REQUEST");
  key_files = (lit "www.key", lit "SECRET") ∷ [];
}

abbrev test_helper : Helper
test_helper = record {
  stages = λ line. true;
  generate = λ renewal types algo domain profile. test_generation;
  keys = test_keys;
}

renew_job-Renewed_example :
    Renewed test_helper admin issued_id new_id
      (sweep_expired 6000 test_world)
      (renew_job test_ssl test_helper admin issued_id new_id test_world).0.jobs
      (renew_job test_ssl test_helper admin issued_id new_id test_world).1
    ⊎ (renew_job test_ssl test_helper admin issued_id new_id test_world ≡ (test_world, abort 400))
renew_job-Renewed_example = renew_job-Renewed test_ssl test_helper admin issued_id new_id test_world
