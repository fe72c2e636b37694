-- ===== src/Tests/Hosts.antt =====
-- The host rollup of two issued jobs and a pending one.
use certheim.Base.{List, [], find, lit, nat_eq, option_eq, refl, some, text_eq, ◌==◌, ◌∷◌, ◌≡◌}
use certheim.Store.{Job, Status, status_eq}
use certheim.Jobs.Hosts.{HostRow, collect_hosts, current_of}
use certheim.Jobs.Hosts.Laws.{IsRollup, collect_hosts-IsRollup}
use certheim.Tests.Fixtures.{issued_job, new_id, pending_job}

abbrev later_job : Job
later_job = record issued_job { id = new_id; expires_at = some 900000 }

abbrev host_jobs : List Job
host_jobs = pending_job ∷ issued_job ∷ later_job ∷ []

abbrev host_row : HostRow
host_row = record {
  host = lit "www.example.org";
  total = 3;
  counts = (Status.pending, 1) ∷ (Status.issued, 2) ∷ [];
  valid = 2;
  current = some (current_of 100 later_job);
  last_activity = 50;
}

host_jobs-collected :
    find (λ (r : HostRow). r.host == lit "www.example.org") (collect_hosts 100 host_jobs [])
    ≡ some host_row
unfolding collect_hosts
host_jobs-collected = refl

collect_hosts-IsRollup_example : IsRollup 100 (lit "www.example.org") host_jobs host_row
collect_hosts-IsRollup_example =
    collect_hosts-IsRollup 100 (lit "www.example.org") host_jobs host_row host_jobs-collected
