-- ===== src/Domains/Quota/Laws.antt =====
-- Theorems on the domain quota (backend/domains.py, backend/sign.py).
use certheim.Domains.{registrable_domain}
use certheim.Base.{
  Bool, Bool-cases, IsSetList, IsSetList-to_set, IsSetList-union, List, Text, [], ap, arith,
  contains, contains-filter, contains-to_set, contains-union, filter, inl, inr, is_empty, length,
  map, max, nat_eq, not, option_eq, subset, subset-contains, subset_of_contains, suc, text_eq,
  to_set, to_set-IsSetList, true, union, union-subset, zero, ℕ, ◌&&◌, ◌<◌, ◌||◌, ◌∙◌, ◌∷◌, ◌≡◌, ◌≤◌,
}
use certheim.Domains.Quota.{csr_domains, enforce_domain_quota, within}

not_blank : Text → Bool
not_blank d = not (is_empty d)

-- What the quota lets through, under a cap.
pub record IsWithin (names current : List Text) (cap : ℕ) (s : List Text) : Type 0 where
  -- no licensed domain is lost
  pub keeps : subset current s ≡ true
  -- every domain of the CSR is licensed from now on
  pub covers : subset (csr_domains names) s ≡ true
  pub no_repeats : IsSetList s
  -- the cap holds, unless more was licensed before
  pub capped : length s ≤ max (length current) cap

csr_domains-not_blank :
    (names : List Text) (d : Text) → contains (csr_domains names) d ≡ true → not (is_empty d) ≡ true
unfolding csr_domains
csr_domains-not_blank names d h =
    let found = map registrable_domain (to_set names) in
    ground (
      arith,
      contains-to_set (filter (λ d. not (is_empty d)) found) d,
      contains-filter (λ d. not (is_empty d)) found d,
    )

-- `over_quota`'s own set of the domains that it is given
abbrev new_of : List Text → List Text
new_of names = to_set (filter (λ d. not (is_empty d)) (csr_domains names))

contains-new_of :
    (names : List Text) (d : Text)
    → contains (csr_domains names) d ≡ true
    → contains (new_of names) d ≡ true
contains-new_of names d h = ground (
  arith,
  contains-to_set (filter (λ d. not (is_empty d)) (csr_domains names)) d,
  contains-filter (λ d. not (is_empty d)) (csr_domains names) d,
  csr_domains-not_blank names d h,
)

-- the set that `over_quota` would store
abbrev grown : List Text → List Text → List Text
grown names current = union (to_set current) (new_of names)

data Passes (names current : List Text) (cap : ℕ) (s : List Text) : Type 0 where
  nothing_named : s ≡ current → is_empty (csr_domains names) ≡ true → Passes names current cap s
  nothing_new :
      s ≡ current → subset (grown names current) current ≡ true → Passes names current cap s
  renewal :
      s ≡ grown names current
      → subset (new_of names) (to_set current) ≡ true
      → Passes names current cap s
  room : s ≡ grown names current → length (grown names current) ≤ cap → Passes names current cap s

within-Passes :
    (names current : List Text) (cap : ℕ) (s : List Text)
    → enforce_domain_quota names current cap ≡ within s
    → 0 < cap
    → Passes names current cap s
unfolding enforce_domain_quota
within-Passes names current cap s h p = elim (Bool-cases (is_empty (csr_domains names))) [
  | inl none_named ↦ nothing_named (ground arith) none_named
  | inr some_named ↦
      elim (Bool-cases
        (subset (grown names current) current && subset current (grown names current))) [
          | inl same ↦ nothing_new (ground arith) (ground arith)
          | inr differs ↦ elim (Bool-cases (subset (new_of names) (to_set current))) [
            | inl old ↦ renewal (ground arith) old
            | inr fresh ↦ room (ground arith) (ground arith)
          ]
        ]
]

contains-grown :
    (names current : List Text) (d : Text)
    → contains (grown names current) d ≡ (contains current d || contains (new_of names) d)
contains-grown names current d =
    contains-union (to_set current) (new_of names) d
    ∙ ap (λ b. b || contains (new_of names) d) (contains-to_set current d)

same-IsWithin :
    (names current : List Text) (cap : ℕ)
    → IsSetList current
    → ((d : Text) → contains (csr_domains names) d ≡ true → contains current d ≡ true)
    → IsWithin names current cap current
same-IsWithin names current cap u covered = record {
  keeps = subset_of_contains current current (λ d h. h);
  covers = subset_of_contains (csr_domains names) current covered;
  no_repeats = u;
  capped = omega arith;
}

grown-IsWithin :
    (names current : List Text) (cap : ℕ)
    → IsSetList current
    → length (grown names current) ≤ max (length current) cap
    → IsWithin names current cap (grown names current)
grown-IsWithin names current cap u fits = record {
  keeps =
      subset_of_contains current (grown names current)
        (λ d h. ground (arith, contains-grown names current d));
  covers =
      subset_of_contains (csr_domains names) (grown names current)
        (λ d h. ground (arith, contains-grown names current d, contains-new_of names d h));
  no_repeats = IsSetList-union (to_set current) (new_of names) (IsSetList-to_set current);
  capped = fits;
}

contains_nothing : (ds : List Text) (d : Text) → is_empty ds ≡ true → contains ds d ≡ true → ⊥
contains_nothing [] d e h = cc
contains_nothing (x ∷ ds) d e h = cc

Passes-IsWithin :
    (names current : List Text) (cap : ℕ) (s : List Text)
    → IsSetList current
    → Passes names current cap s
    → IsWithin names current cap s
Passes-IsWithin names current cap s u (nothing_named same e) =
    rw same (
      same-IsWithin names current cap u
        (λ d h. absurd (contains_nothing (csr_domains names) d e h)))
Passes-IsWithin names current cap s u (nothing_new same old) = rw same (
    same-IsWithin names current cap u (λ d h.
      subset-contains (grown names current) current d old
        (ground (arith, contains-grown names current d, contains-new_of names d h))))
Passes-IsWithin names current cap s u (renewal grew old) = rw grew (
    grown-IsWithin names current cap u (
      omega (
        arith,
        ap length (union-subset (to_set current) (new_of names) old ∙ to_set-IsSetList current u),
      )))
Passes-IsWithin names current cap s u (room grew fits) =
    rw grew (grown-IsWithin names current cap u (omega arith))

-- Under a cap, a set of licensed domains that the quota check stores keeps every licensed domain,
-- holds every domain of the CSR, has no repeats, and is no longer than the cap or, where more were
-- licensed before, than it was.
pub quota_sound :
    (names current : List Text) (cap : ℕ) (s : List Text)
    → enforce_domain_quota names current cap ≡ within s
    → 0 < cap
    → IsSetList current
    → IsWithin names current cap s
quota_sound names current cap s h p u =
    Passes-IsWithin names current cap s u (within-Passes names current cap s h p)

contains-csr_domains :
    (names : List Text) (d : Text)
    → contains (new_of names) d ≡ true
    → contains (csr_domains names) d ≡ true
contains-csr_domains names d h = ground (
  arith,
  contains-to_set (filter (λ d. not (is_empty d)) (csr_domains names)) d,
  contains-filter (λ d. not (is_empty d)) (csr_domains names) d,
)

-- A CSR whose domains are all licensed passes under every cap, and leaves the licensed set as it is.
renewal_passes :
    (names current : List Text) (cap : ℕ)
    → subset (csr_domains names) current ≡ true
    → IsSetList current
    → enforce_domain_quota names current cap ≡ within current
unfolding enforce_domain_quota
renewal_passes names current cap old u =
    let own : to_set current ≡ current = to_set-IsSetList current u in
    let inside : subset (new_of names) (to_set current) ≡ true =
      subset_of_contains (new_of names) (to_set current) (λ d h.
        rw own
          (subset-contains (csr_domains names) current d old (contains-csr_domains names d h))) in
    let grew : grown names current ≡ current =
      union-subset (to_set current) (new_of names) inside ∙ own in
    let self : subset current current ≡ true = subset_of_contains current current (λ d h. h) in
    ground arith

-- A CSR that the quota let through passes again, and adds nothing.
pub quota_passes_again :
    (names current : List Text) (cap : ℕ) (s : List Text)
    → enforce_domain_quota names current cap ≡ within s
    → IsSetList current
    → enforce_domain_quota names s cap ≡ within s
unfolding enforce_domain_quota
quota_passes_again names current zero s h u = ground arith
quota_passes_again names current (suc n) s h u =
    let is = quota_sound names current (suc n) s h (omega arith) u in
    renewal_passes names s (suc n) is.covers is.no_repeats
