-- ===== src/Domains/Quota.antt =====
-- The cap on registrable domains: over_quota and _enforce_domain_quota.
pub mod Laws
use certheim.Domains.{registrable_domain}
use certheim.Base.{
  Bool, List, Text, [], difference, false, filter, if◌then◌else◌, is_empty, is_zero, leb, length,
  map, not, subset, text_eq, to_set, true, union, ℕ, ◌&&◌, ◌||◌,
}

-- `csr_domains`: `names` are the subject CN and the DNS names that openssl prints of the CSR
unfoldable pub csr_domains : List Text → List Text
unfolding text_eq
csr_domains names = to_set (filter (λ d. not (is_empty d)) (map registrable_domain (to_set names)))

pub record Verdict : Type 0 where
  pub blocked : Bool
  pub would_be : List Text
  pub offending : List Text

unfoldable pub over_quota : List Text → List Text → ℕ → Verdict
unfolding text_eq
over_quota new_domains current_domains cap =
    let new = to_set (filter (λ d. not (is_empty d)) new_domains) in
    let current = to_set current_domains in
    let all_domains = union current new in
    if is_zero cap || subset new current || leb (length all_domains) cap
    then record { blocked = false; would_be = all_domains; offending = [] }
    else record { blocked = true; would_be = all_domains; offending = difference new current }

pub data Quota : Type 0 where
  -- the licensed domains, as they are stored from now on
  within : List Text → Quota
  -- the domains that the SignError names
  exceeded : List Text → Quota

-- `union != current` of two sets
abbrev same_set : List Text → List Text → Bool
same_set s t = subset s t && subset t s

-- `_enforce_domain_quota`
unfoldable pub enforce_domain_quota : List Text → List Text → ℕ → Quota
unfolding text_eq over_quota
enforce_domain_quota names current cap =
    if is_zero cap
    then within current
    else let new = csr_domains names in
      let v = over_quota new current cap in
      if is_empty new
      then within current
      else if v.blocked
      then exceeded v.offending
      else if same_set v.would_be current
      then within current
      else within v.would_be
