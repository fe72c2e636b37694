-- ===== src/Jobs/Hosts/Laws.antt =====
-- Theorems on list_job_hosts (backend/routes_jobs.py).
use certheim.Base.{
  Bool, Bool-cases, List, Option, Text, [], all, any, ap, arith, count, false, find, if◌then◌else◌,
  inl, inr, nat_eq, none, not, option_eq, refl, some, subst, suc, sym, text_eq, true, ℕ, ◌&&◌, ◌+◌,
  ◌==◌, ◌∙◌, ◌∷◌, ◌≡◌, ◌⊎◌,
}
use certheim.Store.{Job, status_eq}
use certheim.Jobs.Hosts.{
  Current, HostRow, absorb, beats, collect_hosts, count_job, is_valid, new_host,
}

abbrev with_host : Text → HostRow → Bool
with_host host h = h.host == host

abbrev on_host : Text → Job → Bool
on_host host j = j.target_host == host

abbrev valid_on : ℕ → Text → Job → Bool
valid_on now host j = on_host host j && is_valid now j

abbrev row_or_new : Text → Option HostRow → HostRow
row_or_new host none = new_host host
row_or_new host (some h) = h

host-absorb : (now : ℕ) (j : Job) (h : HostRow) → (absorb now j h).host ≡ h.host
unfolding absorb
host-absorb now j h = ground arith

find-count_job :
    (now : ℕ) (host : Text) (j : Job) (hs : List HostRow)
    → find (with_host host) (count_job now j hs) ≡ (
        if on_host host j
        then some (absorb now j (row_or_new host (find (with_host host) hs)))
        else find (with_host host) hs)
unfolding count_job
find-count_job now host j [] = ground (arith, host-absorb now j (new_host j.target_host))
find-count_job now host j (h ∷ hs) =
    ground (arith, host-absorb now j h, find-count_job now host j hs)

-- one host's own loop
abbrev absorbed : ℕ → Text → Job → Option HostRow → Option HostRow
absorbed now host j o = if on_host host j then some (absorb now j (row_or_new host o)) else o

abbrev track : ℕ → Text → List Job → Option HostRow → Option HostRow
track now host [] o = o
track now host (j ∷ js) o = track now host js (absorbed now host j o)

find-collect_hosts :
    (now : ℕ) (host : Text) (js : List Job) (hs : List HostRow)
    → find (with_host host) (collect_hosts now js hs) ≡ track now host js (find (with_host host) hs)
unfolding collect_hosts
find-collect_hosts now host [] hs = refl
find-collect_hosts now host (j ∷ js) hs =
    find-collect_hosts now host js (count_job now j hs)
    ∙ ap (track now host js) (find-count_job now host j hs)

total-absorbed :
    (now : ℕ) (host : Text) (j : Job) (o : Option HostRow)
    → (row_or_new host (absorbed now host j o)).total
      ≡ (if on_host host j then suc (row_or_new host o).total else (row_or_new host o).total)
unfolding absorb
total-absorbed now host j o = ground arith

valid-absorbed :
    (now : ℕ) (host : Text) (j : Job) (o : Option HostRow)
    → (row_or_new host (absorbed now host j o)).valid
      ≡ (if valid_on now host j then suc (row_or_new host o).valid else (row_or_new host o).valid)
unfolding absorb
valid-absorbed now host j o = ground arith

total-track :
    (now : ℕ) (host : Text) (js : List Job) (o : Option HostRow)
    → (row_or_new host (track now host js o)).total
      ≡ (row_or_new host o).total + count (on_host host) js
total-track now host [] o = omega arith
total-track now host (j ∷ js) o =
    let o' = absorbed now host j o in
    ground (arith, total-absorbed now host j o, total-track now host js o')

valid-track :
    (now : ℕ) (host : Text) (js : List Job) (o : Option HostRow)
    → (row_or_new host (track now host js o)).valid
      ≡ (row_or_new host o).valid + count (valid_on now host) js
valid-track now host [] o = omega arith
valid-track now host (j ∷ js) o =
    let o' = absorbed now host j o in
    ground (arith, valid-absorbed now host j o, valid-track now host js o')

-- A certificate that does not beat the current one never will.
beats-absorbed :
    (now : ℕ) (host : Text) (j : Job) (o : Option HostRow) (exp : Option ℕ)
    → beats exp (row_or_new host o).current ≡ false
    → beats exp (row_or_new host (absorbed now host j o)).current ≡ false
unfolding absorb
beats-absorbed now host j o exp h = ground arith

beats_own-absorbed :
    (now : ℕ) (host : Text) (j : Job) (o : Option HostRow)
    → valid_on now host j ≡ true
    → beats j.expires_at (row_or_new host (absorbed now host j o)).current ≡ false
unfolding absorb
beats_own-absorbed now host j o h = ground arith

beats-track :
    (now : ℕ) (host : Text) (js : List Job) (o : Option HostRow) (exp : Option ℕ)
    → beats exp (row_or_new host o).current ≡ false
    → beats exp (row_or_new host (track now host js o)).current ≡ false
beats-track now host [] o exp h = h
beats-track now host (j ∷ js) o exp h =
    beats-track now host js (absorbed now host j o) exp (beats-absorbed now host j o exp h)

-- a row that is no valid certificate of the host, or is not better than the current one
abbrev pub yields : ℕ → Text → Option Current → Job → Bool
yields now host cur j = not (valid_on now host j && beats j.expires_at cur)

yields-track :
    (now : ℕ) (host : Text) (js : List Job) (o : Option HostRow)
    → all (yields now host (row_or_new host (track now host js o)).current) js ≡ true
yields-track now host [] o = refl
yields-track now host (j ∷ js) o =
    let o' = absorbed now host j o in
    elim (Bool-cases (valid_on now host j)) [
      | inl fits ↦ ground (
        arith,
        beats-track now host js o' j.expires_at (beats_own-absorbed now host j o fits),
        yields-track now host js o',
      )
      | inr other ↦ ground (arith, yields-track now host js o')
    ]

-- the certificate of a valid row of the host, or none
abbrev pub comes_from : ℕ → Text → List Job → Option Current → Bool
comes_from now host js none = true
comes_from now host js (some c) =
    any (λ j. valid_on now host j && j.id == c.id && j.expires_at == c.expires_at) js

comes_from-absorbed :
    (now : ℕ) (host : Text) (j : Job) (js : List Job) (o : Option HostRow)
    → ((row_or_new host (absorbed now host j o)).current ≡ (row_or_new host o).current)
      ⊎ (comes_from now host (j ∷ js) (row_or_new host (absorbed now host j o)).current ≡ true)
unfolding absorb
comes_from-absorbed now host j js o = ground arith

comes_from-weaken :
    (now : ℕ) (host : Text) (j : Job) (js : List Job) (c : Option Current)
    → comes_from now host js c ≡ true
    → comes_from now host (j ∷ js) c ≡ true
comes_from-weaken now host j js none h = refl
comes_from-weaken now host j js (some c) h = ground arith

kept_or_taken :
    (now : ℕ) (host : Text) (js : List Job) (o : Option HostRow)
    → ((row_or_new host (track now host js o)).current ≡ (row_or_new host o).current)
      ⊎ (comes_from now host js (row_or_new host (track now host js o)).current ≡ true)
kept_or_taken now host [] o = inl refl
kept_or_taken now host (j ∷ js) o =
    let o' = absorbed now host j o in
    let last = (row_or_new host (track now host js o')).current in
    elim (kept_or_taken now host js o') [
      | inr later ↦ inr (comes_from-weaken now host j js last later)
      | inl kept ↦ elim (comes_from-absorbed now host j js o) [
        | inl same ↦ inl (kept ∙ same)
        | inr own ↦ inr (ap (comes_from now host (j ∷ js)) kept ∙ own)
      ]
    ]

taken-track :
    (now : ℕ) (host : Text) (js : List Job) (o : Option HostRow)
    → (row_or_new host o).current ≡ none
    → comes_from now host js (row_or_new host (track now host js o)).current ≡ true
taken-track now host js o h = elim (kept_or_taken now host js o) [
  | inr later ↦ later
  | inl kept ↦ ap (comes_from now host js) (kept ∙ h)
]

-- What the rollup says of a host.
pub record IsRollup (now : ℕ) (host : Text) (js : List Job) (h : HostRow) : Type 0 where
  pub all_counted : h.total ≡ count (on_host host) js
  pub valid_counted : h.valid ≡ count (valid_on now host) js
  -- the current one, if any, is that of a valid row of the host
  pub taken : comes_from now host js h.current ≡ true
  -- no valid certificate of the host expires later than the current one
  pub latest : all (yields now host h.current) js ≡ true

-- The line of a host counts its rows and its valid certificates exactly; its current certificate is
-- that of a valid row of the host, and none where there is none, and no valid certificate of the host
-- outlasts it.
pub collect_hosts-IsRollup :
    (now : ℕ) (host : Text) (js : List Job) (h : HostRow)
    → find (λ (r : HostRow). r.host == host) (collect_hosts now js []) ≡ some h
    → IsRollup now host js h
collect_hosts-IsRollup now host js h e =
    let tracked : track now host js none ≡ some h = sym (find-collect_hosts now host js []) ∙ e in
    let same : row_or_new host (track now host js none) ≡ h = ap (row_or_new host) tracked in
    subst (IsRollup now host js) same (record {
      all_counted = omega (arith, total-track now host js none);
      valid_counted = omega (arith, valid-track now host js none);
      taken = taken-track now host js none refl;
      latest = yields-track now host js none;
    })
