-- ===== src/Jobs/Sweep.antt =====
-- _sweep_expired (backend/routes_jobs.py): issued jobs whose certificate has run out.
use certheim.Jobs.Evolution.{Moves, Steps, Steps-update_where}
use certheim.Crypto.{Openssl}
use certheim.Base.{
  AllPairs, Bool, Bool-cases, List, Option-cases, [], arith, false, filter, if◌then◌else◌, inl, inr,
  is_empty, leb, nat_eq, none, option_eq, refl, some, sym, text_eq, true, update_where, ℕ, ◌&&◌,
  ◌<◌, ◌==◌, ◌∷◌, ◌≡◌, ◌≤◌, ◌⊎◌,
}
use certheim.Store.{Job, Status, World, fire_webhooks, log_event, status_eq, update_jobs}

-- `WHERE status = 'issued' AND expires_at IS NOT NULL AND expires_at <= now`
abbrev pub runs_out : ℕ → Job → Bool
runs_out now j =
    j.status == Status.issued && elim j.expires_at [ none ↦ false | some t ↦ leb t now ]

abbrev pub set_expired : Job → Job
set_expired j = record j { status = Status.expired }

-- the log line and the webhook of each row
announce_expired : List Job → World → World
announce_expired [] w = w
announce_expired (j ∷ js) w = announce_expired js (
    fire_webhooks
      (record {
        event = "job.expired";
        job_id = j.id;
        target_host = j.target_host;
        actor = [];
        note = none;
      })
      (log_event "job_expired" "ok" j.id w))

unfoldable pub sweep_expired : ℕ → World → World
unfolding announce_expired
sweep_expired now w =
    let rows = filter (runs_out now) w.jobs in
    if is_empty rows then w else announce_expired rows (update_jobs (runs_out now) set_expired w)

jobs-announce_expired : (js : List Job) (w : World) → (announce_expired js w).jobs ≡ w.jobs
unfolding announce_expired
jobs-announce_expired [] w = refl
jobs-announce_expired (j ∷ js) w = jobs-announce_expired js _

update_where_none :
    (p : Job → Bool) (f : Job → Job) (js : List Job)
    → is_empty (filter p js) ≡ true
    → update_where p f js ≡ js
update_where_none p f [] h = refl
update_where_none p f (j ∷ js) h = ground (arith, update_where_none p f js)

-- The sweep in terms of the query that it runs.
sweep_expired_rows :
    (now : ℕ) (w : World)
    → (sweep_expired now w).jobs ≡ update_where (runs_out now) set_expired w.jobs
unfolding sweep_expired
sweep_expired_rows now w = elim (Bool-cases (is_empty (filter (runs_out now) w.jobs))) [
  | inl nothing ↦ rw nothing (sym (update_where_none (runs_out now) set_expired w.jobs nothing))
  | inr rows ↦ rw rows (
      jobs-announce_expired (filter (runs_out now) w.jobs)
        (update_jobs (runs_out now) set_expired w))
]

-- What the sweep makes of a row: an issued one whose expiry time has come is marked expired and
-- else kept; any other is kept as it is.
abbrev pub IsSwept : ℕ → Job → Job → Type 0
IsSwept now j k =
    ((t : ℕ) × (j.status ≡ Status.issued)
      × (j.expires_at ≡ some t)
      × (t ≤ now)
      × (k ≡ record j { status = Status.expired }))
    ⊎ ((k ≡ j) × ((t : ℕ) → j.status ≡ Status.issued → j.expires_at ≡ some t → now < t))

IsSwept-row : (now : ℕ) (j : Job) → IsSwept now j (if runs_out now j then set_expired j else j)
IsSwept-row now j = elim (Bool-cases (runs_out now j)) [
  | inr miss ↦ rw miss (inr (refl, λ t issued at. ground arith))
  | inl hit ↦ elim (Option-cases j.expires_at) [
    | inl never ↦ absurd (ground arith)
    | inr (t, at) ↦ rw hit (inl (t, ground arith, at, ground arith, refl))
  ]
]

IsSwept-rows :
    (now : ℕ) (js : List Job)
    → AllPairs (IsSwept now) js (update_where (runs_out now) set_expired js)
IsSwept-rows now [] = tt
IsSwept-rows now (j ∷ js) = (IsSwept-row now j, IsSwept-rows now js)

-- Row by row, the sweep marks expired exactly the issued rows whose expiry time has come, and keeps
-- all else of them and every other row.
pub jobs-sweep_expired :
    (now : ℕ) (w : World) → AllPairs (IsSwept now) w.jobs (sweep_expired now w).jobs
jobs-sweep_expired now w = rw (sweep_expired_rows now w) (IsSwept-rows now w.jobs)

sweep_leaves :
    (now : ℕ) (js : List Job)
    → is_empty (filter (runs_out now) (update_where (runs_out now) set_expired js)) ≡ true
sweep_leaves now [] = refl
sweep_leaves now (j ∷ js) = ground (arith, sweep_leaves now js)

sweep_expired_quiet :
    (now : ℕ) (w : World) → is_empty (filter (runs_out now) w.jobs) ≡ true → sweep_expired now w ≡ w
unfolding sweep_expired
sweep_expired_quiet now w h = rw h

-- Right after a sweep no issued job has run out, and a second sweep at that time does nothing.
sweep_expired_idem :
    (now : ℕ) (w : World) → sweep_expired now (sweep_expired now w) ≡ sweep_expired now w
sweep_expired_idem now w =
    sweep_expired_quiet now (sweep_expired now w)
      (rw (sweep_expired_rows now w) (sweep_leaves now w.jobs))

module _ (ssl : Openssl) where
  expired-Moves : (now : ℕ) (j : Job) → runs_out now j ≡ true → Moves ssl j (set_expired j)
  expired-Moves now j h =
      let e : j.status ≡ Status.issued = ground arith in
      record {
        id_kept = refl;
        csr_kept = refl;
        requester_kept = refl;
        host_kept = refl;
        moved = rw e refl;
        certified = λ c. rw e at c;
      }

  pub sweep_expired-Steps : (now : ℕ) (w : World) → Steps ssl w.jobs (sweep_expired now w).jobs
  sweep_expired-Steps now w =
      rw (sweep_expired_rows now w)
        (Steps-update_where ssl (runs_out now) set_expired (λ _. refl) (expired-Moves now) w.jobs)
