-- ===== src/Truststore/Hosts.antt =====
-- How hosts get the bundle of the trust store (backend/truststore.py): tokens by which they pull it
-- and targets that it is pushed to.
use certheim.Base.{
  Bool, List, Option, Text, [], all, any, chomp, contains, count, false, filter, find,
  if◌then◌else◌, is_digit, is_empty, is_lower, is_upper, is_zero, leb, length, lit, ltb, map, max,
  nat_eq, negsuc, none, not, option_eq, pos, some, strip, text_eq, true, update_where, ℕ, ℤ, ◌&&◌,
  ◌++◌, ◌+◌, ◌==◌, ◌||◌, ◌∷◌,
}
use certheim.Truststore.{Pull, Target, Trust, build_bundle}

abbrev pub pull_with_token : Text → Pull → Bool
pull_with_token token p = p.token == token

-- the time to live that a setting gives, at least a minute
abbrev pub pull_ttl : ℤ → ℕ
pull_ttl (pos n) = max 60 n
pull_ttl (negsuc n) = 60

-- `mint_pull_token`, with the token that was drawn
abbrev pub mint_pull_token : ℕ → Text → ℕ → Trust → Trust
mint_pull_token now token ttl t = record t {
  pulls = t.pulls ++ record { token = token; expires_at = now + ttl; max_uses = 0; uses = 0 } ∷ [];
}

-- the token is run out or used up
abbrev pub is_spent : ℕ → Pull → Bool
is_spent now p = leb p.expires_at now || (not (is_zero p.max_uses) && leb p.max_uses p.uses)

abbrev pub use_once : Pull → Pull
use_once p = record p { uses = p.uses + 1 }

-- `consume_pull`
unfoldable pub consume_pull : ℕ → Text → Trust → Trust × Option Text
unfolding text_eq build_bundle
consume_pull now token t = elim (find (pull_with_token token) t.pulls) [
  | none ↦ (t, none)
  | some p ↦
      if is_spent now p
      then (record t { pulls = filter (λ q. not (pull_with_token token q)) t.pulls }, none)
      else (
        record t { pulls = update_where (pull_with_token token) use_once t.pulls },
        some (build_bundle t),
      )
]

-- `purge_expired_pulls`
unfoldable pub purge_expired_pulls : ℕ → Trust → Trust × ℕ
purge_expired_pulls now t = (
  record t { pulls = filter (λ p. not (ltb p.expires_at now)) t.pulls },
  count (λ p. ltb p.expires_at now) t.pulls,
)

-- `_HOST_RE.match(s)`
unfoldable pub is_target_host : Text → Bool
unfolding is_lower is_upper is_digit nat_eq text_eq chomp
is_target_host s =
    let h = chomp s in
    not (is_empty h)
    && leb (length h) 253
    && all (λ c. is_lower c || is_upper c || is_digit c || contains (lit "._-") c) h

-- `add_target`: a host that is there already is left as it is
unfoldable pub add_target : Text → Trust → Trust × Bool
unfolding is_target_host strip text_eq
add_target host t =
    let h = strip host in
    if not (is_target_host h)
    then (t, false)
    else if any (λ g. g.host == h) t.targets
    then (t, true)
    else (
      record t {
        targets =
            t.targets
            ++ record {
              id = t.next_id;
              host = h;
              enabled = true;
              last_status = none;
              last_pushed_at = none;
            }
              ∷ [];
        next_id = t.next_id + 1;
      },
      true,
    )

-- `remove_target`
unfoldable pub remove_target : ℕ → Trust → Trust × Bool
unfolding nat_eq
remove_target target_id t = (
  record t { targets = filter (λ g. not (g.id == target_id)) t.targets },
  any (λ g. g.id == target_id) t.targets,
)

abbrev is_pushed : Option Text → Target → Bool
is_pushed none g = g.enabled
is_pushed (some host) g = g.enabled && g.host == host

abbrev set_pushed : ℕ → Bool → Target → Target
set_pushed now done g = record g {
  last_status = some (if done then lit "ok" else lit "error");
  last_pushed_at = some now;
}

-- the loop of `push_targets`; `push` says whether a host took the bundle
unfoldable pub push_hosts : (Text → Bool) → ℕ → List Text → Trust → Trust × List (Text × Bool)
unfolding text_eq
push_hosts push now [] t = (t, [])
push_hosts push now (h ∷ hs) t =
    let (t', results) = push_hosts push now hs (record t {
      targets = update_where (λ g. g.host == h) (set_pushed now (push h)) t.targets;
    }) in
    (t', (h, push h) ∷ results)

unfoldable pub push_targets : (Text → Bool) → ℕ → Option Text → Trust → Trust × List (Text × Bool)
unfolding push_hosts text_eq
push_targets push now host_filter t =
    push_hosts push now (map (λ g. g.host) (filter (is_pushed host_filter) t.targets)) t
