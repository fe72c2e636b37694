-- ===== src/Jobs/Hosts.antt =====
-- list_job_hosts (backend/routes_jobs.py): one line for each host. How the database matches a LIKE
-- pattern is a parameter.
pub mod Laws
use certheim.Validation.CertTypes.{text_le}
use certheim.Base.{
  Bool, List, Option, Text, [], false, filter, if◌then◌else◌, is_empty, is_zero, leb, ltb, map, max,
  nat_eq, none, not, option_eq, some, strip, suc, text_eq, true, ℕ, ◌&&◌, ◌-◌, ◌/◌, ◌==◌, ◌||◌, ◌∷◌,
}
use certheim.Store.{Job, Request, Status, World, issued, pending, status_eq}
use certheim.Jobs.Access.{visibility_sql}
use certheim.Jobs.Sweep.{sweep_expired}

pub record Current : Type 0 where
  pub id : Text
  pub cert_type : Option Text
  pub expires_at : Option ℕ
  pub issued_at : ℕ
  pub sans : List Text
  pub days_left : Option ℕ

-- what the loop keeps of a host
pub record HostRow : Type 0 where
  pub host : Text
  pub total : ℕ
  pub counts : List (Status × ℕ)
  pub valid : ℕ
  pub current : Option Current
  pub last_activity : ℕ

abbrev pub new_host : Text → HostRow
new_host host = record {
  host = host;
  total = 0;
  counts = [];
  valid = 0;
  current = none;
  last_activity = 0;
}

-- `counts[s] = counts.get(s, 0) + 1`
unfoldable pub count_status : Status → List (Status × ℕ) → List (Status × ℕ)
unfolding status_eq
count_status s [] = (s, 1) ∷ []
count_status s ((t, n) ∷ counts) =
    let rest = count_status s counts in if t == s then (t, suc n) ∷ counts else (t, n) ∷ rest

unfoldable pub status_count : Status → List (Status × ℕ) → ℕ
unfolding status_eq
status_count s [] = 0
status_count s ((t, n) ∷ counts) = let rest = status_count s counts in if t == s then n else rest

-- an issued row that has not run out
abbrev pub is_valid : ℕ → Job → Bool
is_valid now j = j.status == Status.issued && elim j.expires_at [ none ↦ true | some t ↦ ltb now t ]

-- `rank > current's rank`, where no expiry ranks highest
abbrev pub outranks : Option ℕ → Option ℕ → Bool
outranks _ none = false
outranks none (some t) = true
outranks (some s) (some t) = ltb t s

abbrev pub beats : Option ℕ → Option Current → Bool
beats exp none = true
beats exp (some c) = outranks exp c.expires_at

-- `completed_at or created_at`
abbrev or_created : Option ℕ → ℕ → ℕ
or_created none created = created
or_created (some t) created = if is_zero t then created else t

abbrev pub current_of : ℕ → Job → Current
current_of now j = record {
  id = j.id;
  cert_type = j.cert_type;
  expires_at = j.expires_at;
  issued_at = or_created j.completed_at j.created_at;
  sans = j.sans;
  days_left = elim j.expires_at [ none ↦ none | some t ↦ some ((t - now) / 86400) ];
}

-- a row counted into its host
unfoldable pub absorb : ℕ → Job → HostRow → HostRow
unfolding count_status
absorb now j h =
    let seen = record h {
      total = suc h.total;
      counts = count_status j.status h.counts;
      last_activity = max h.last_activity j.created_at;
    } in
    if not (is_valid now j) then seen else record seen {
      valid = suc h.valid;
      current = if beats j.expires_at h.current then some (current_of now j) else h.current;
    }

-- `hosts.setdefault(…)` and the update of what it returns
unfoldable pub count_job : ℕ → Job → List HostRow → List HostRow
unfolding absorb text_eq
count_job now j [] = absorb now j (new_host j.target_host) ∷ []
count_job now j (h ∷ hs) =
    let rest = count_job now j hs in
    if h.host == j.target_host then absorb now j h ∷ hs else h ∷ rest

-- the loop over the rows
unfoldable pub collect_hosts : ℕ → List Job → List HostRow → List HostRow
unfolding count_job
collect_hosts now [] hs = hs
collect_hosts now (j ∷ js) hs = collect_hosts now js (count_job now j hs)

pub data Health : Type 0 where
  no_longer critical waiting warn healthy : Health

-- `order`
abbrev severity : Health → ℕ
severity no_longer = 0
severity critical = 1
severity waiting = 2
severity warn = 3
severity healthy = 4

abbrev pub host_crit_days : ℕ
host_crit_days = 7

abbrev pub host_warn_days : ℕ
host_warn_days = 30

unfoldable pub health : HostRow → Health
unfolding status_count
health h = elim h.current [
  | none ↦ if is_zero (status_count Status.pending h.counts) then no_longer else waiting
  | some c ↦ elim c.days_left [
    | none ↦ healthy
    | some n ↦
        if leb n host_crit_days then critical else if leb n host_warn_days then warn else healthy
  ]
]

pub record HostLine : Type 0 where
  pub row : HostRow
  pub health : Health
  pub older_valid : ℕ

abbrev pub host_line : HostRow → HostLine
host_line h = record { row = h; health = health h; older_valid = h.valid - 1 }

-- the expiry in the sort key: none or zero ranks last
abbrev sort_expiry : HostRow → Option ℕ
sort_expiry h = elim h.current [
  | none ↦ none
  | some c ↦ elim c.expires_at [ none ↦ none | some t ↦ if is_zero t then none else some t ]
]

-- whether the key of the first line is at most that of the second
unfoldable pub line_le : HostLine → HostLine → Bool
unfolding text_le nat_eq option_eq
line_le a b =
    let ea = sort_expiry a.row in
    let eb = sort_expiry b.row in
    if not (severity a.health == severity b.health)
    then ltb (severity a.health) (severity b.health)
    else if outranks eb ea
    then true
    else if outranks ea eb
    then false
    else text_le a.row.host b.row.host

unfoldable pub insert_line : HostLine → List HostLine → List HostLine
unfolding line_le
insert_line a [] = a ∷ []
insert_line a (b ∷ bs) = let rest = insert_line a bs in if line_le a b then a ∷ b ∷ bs else b ∷ rest

unfoldable pub sort_lines : List HostLine → List HostLine
unfolding insert_line
sort_lines [] = []
sort_lines (a ∷ bs) = insert_line a (sort_lines bs)

unfoldable pub list_job_hosts :
    (Text → Text → Bool) → Request → Text → World → World × List HostLine
unfolding collect_hosts sort_lines strip
list_job_hosts like r q w =
    let swept = sweep_expired r.now w in
    let asked = strip q in
    let wanted =
      λ (j : Job). (is_empty asked || like asked j.target_host) && visibility_sql r swept j in
    (swept, sort_lines (map host_line (collect_hosts r.now (filter wanted swept.jobs) [])))
