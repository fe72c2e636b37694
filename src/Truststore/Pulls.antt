-- ===== src/Truststore/Pulls.antt =====
-- Theorems on the tokens by which hosts pull the CA bundle (backend/routes_truststore.py,
-- backend/truststore.py).
use certheim.Truststore.Routes.{Site, pull_ttl_setting, ts_pull_bundle, ts_pull_token}
use certheim.Base.{
  All, Bool-cases, List, Option-cases, Text, [], arith, false, filter, find, if◌then◌else◌, inl,
  inr, lit, ltb, nat_eq, none, not, option_eq, refl, some, subst, text_eq, true, update_where, ℕ,
  ◌++◌, ◌+◌, ◌<◌, ◌==◌, ◌∙◌, ◌∷◌, ◌≡◌,
}
use certheim.Store.{error, ok, status_eq}
use certheim.Truststore.{Pull, Trust, build_bundle}
use certheim.Truststore.Hosts.{consume_pull, is_spent, pull_with_token, use_once}

find-used :
    (token other : Text) (ps : List Pull) (p : Pull)
    → find (pull_with_token token) ps ≡ some p
    → (q : Pull) × (find (pull_with_token token) (update_where (pull_with_token other) use_once ps)
        ≡ some q)
      × (q.max_uses ≡ p.max_uses)
      × (q.expires_at ≡ p.expires_at)
unfolding text_eq
find-used token other [] p h = absurd (ground arith)
find-used token other (x ∷ ps) p h = elim (Bool-cases (x.token == token)) [
  | inl here ↦
      (if x.token == other then use_once x else x, ground arith, ground arith, ground arith)
  | inr past ↦
      let (q, found, uses, expiry) = find-used token other ps p (ground arith) in
      (q, ground arith, uses, expiry)
]

find-dropped :
    (token other : Text) (ps : List Pull)
    → (token == other) ≡ false
    → find (pull_with_token token) (filter (λ q. not (pull_with_token other q)) ps)
      ≡ find (pull_with_token token) ps
unfolding text_eq
find-dropped token other [] differs = refl
find-dropped token other (x ∷ ps) differs = ground (arith, find-dropped token other ps differs)

find-append :
    (token : Text) (ps : List Pull) (p : Pull)
    → find (pull_with_token token) ps ≡ none
    → p.token ≡ token
    → find (pull_with_token token) (ps ++ p ∷ []) ≡ some p
unfolding text_eq
find-append token [] p free own = ground (arith)
find-append token (x ∷ ps) p free own = ground (arith, find-append token ps p)

-- A token that gives the bundle until a time, however often it is used.
record IsLive (token : Text) (expiry : ℕ) (bundle : Text) (t : Trust) : Type 0 where
  pull : Pull
  found : find (pull_with_token token) t.pulls ≡ some pull
  unlimited : pull.max_uses ≡ 0
  until : pull.expires_at ≡ expiry
  kept : build_bundle t ≡ bundle

ts_pull_token-IsLive :
    (now : ℕ) (token : Text) (s : Site)
    → find (pull_with_token token) s.trust.pulls ≡ none
    → IsLive token
        (now + pull_ttl_setting s.world)
        (build_bundle s.trust)
        (ts_pull_token now token s).0.trust
unfolding ts_pull_token build_bundle
ts_pull_token-IsLive now token s free = record {
  pull = _;
  found = find-append token s.trust.pulls _ free refl;
  unlimited = refl;
  until = refl;
  kept = refl;
}

-- a pull in the past: with any token, but with this one not after its time
abbrev pub IsEarlier : Text → ℕ → ℕ × Text → Type 0
IsEarlier token expiry (at, other) = (token ≡ other → at < expiry)

-- what a pull leaves of the store: the same tokens, without a spent one, or with one more use
data IsPulled (at : ℕ) (other : Text) (t u : Trust) : Type 0 where
  unknown : u ≡ t → IsPulled at other t u
  spent :
      (p : Pull)
      → find (pull_with_token other) t.pulls ≡ some p
      → is_spent at p ≡ true
      → u ≡ record t { pulls = filter (λ q. not (pull_with_token other q)) t.pulls }
      → IsPulled at other t u
  used :
      u ≡ record t { pulls = update_where (pull_with_token other) use_once t.pulls }
      → IsPulled at other t u

consume_pull-IsPulled :
    (at : ℕ) (other : Text) (t : Trust) → IsPulled at other t (consume_pull at other t).0
unfolding consume_pull
consume_pull-IsPulled at other t = elim (Option-cases (find (pull_with_token other) t.pulls)) [
  | inl missing ↦ unknown (ground arith)
  | inr (p, found) ↦ elim (Bool-cases (is_spent at p)) [
    | inl over ↦ spent p found over (ground arith)
    | inr fresh ↦ used (ground arith)
  ]
]

-- A live token is not the spent one of a pull in its time.
spent-other :
    (token other : Text) (expiry at : ℕ) (bundle : Text) (t : Trust) (p : Pull)
    → (token ≡ other → at < expiry)
    → IsLive token expiry bundle t
    → find (pull_with_token other) t.pulls ≡ some p
    → is_spent at p ≡ true
    → (token == other) ≡ false
unfolding text_eq
spent-other token other expiry at bundle t p early live found over =
    elim (Bool-cases (token == other)) [
      | inr differs ↦ differs
      | inl same ↦
          let e : token ≡ other = ground arith in
          let in_time : at < expiry = early e in
          let mine : find (pull_with_token other) t.pulls ≡ some live.pull =
            subst (λ x. find (pull_with_token x) t.pulls ≡ some live.pull) e live.found in
          let one : live.pull ≡ p = ground arith in
          let ends : p.expires_at ≡ expiry =
            subst (λ (q : Pull). q.expires_at ≡ expiry) one live.until in
          let free : p.max_uses ≡ 0 = subst (λ (q : Pull). q.max_uses ≡ 0) one live.unlimited in
          absurd (ground (arith, in_time, ends, free, over))
    ]

pulled-IsLive :
    (token other : Text) (expiry at : ℕ) (bundle : Text) (t u : Trust)
    → (token ≡ other → at < expiry)
    → IsLive token expiry bundle t
    → IsPulled at other t u
    → IsLive token expiry bundle u
unfolding build_bundle
pulled-IsLive token other expiry at bundle t u early live (unknown same) = rw same live
pulled-IsLive token other expiry at bundle t u early live (spent p found over dropped) =
    let differs = spent-other token other expiry at bundle t p early live found over in
    rw dropped (record {
      pull = live.pull;
      found = find-dropped token other t.pulls differs ∙ live.found;
      unlimited = live.unlimited;
      until = live.until;
      kept = live.kept;
    })
pulled-IsLive token other expiry at bundle t u early live (used counted) =
    let (q, found, uses, ends) = find-used token other t.pulls live.pull live.found in
    rw counted (record {
      pull = q;
      found = found;
      unlimited = uses ∙ live.unlimited;
      until = ends ∙ live.until;
      kept = live.kept;
    })

consume_pull-IsLive :
    (token other : Text) (expiry at : ℕ) (bundle : Text) (t : Trust)
    → (token ≡ other → at < expiry)
    → IsLive token expiry bundle t
    → IsLive token expiry bundle (consume_pull at other t).0
consume_pull-IsLive token other expiry at bundle t early live =
    pulled-IsLive token other expiry at bundle t (consume_pull at other t).0 early live
      (consume_pull-IsPulled at other t)

consume_pull-live :
    (token : Text) (expiry now : ℕ) (bundle : Text) (t : Trust)
    → IsLive token expiry bundle t
    → (consume_pull now token t).1 ≡ (if ltb now expiry then some bundle else none)
unfolding consume_pull
consume_pull-live token expiry now bundle t live =
    ground (arith, live.found, live.unlimited, live.until, live.kept)

-- pulls by any hosts, each at its time and with its token
abbrev pub run_pulls : List (ℕ × Text) → Site → Site
run_pulls [] s = s
run_pulls ((at, token) ∷ pulls) s = run_pulls pulls (ts_pull_bundle at token s).0

ts_pull_bundle-trust :
    (at : ℕ) (token : Text) (s : Site)
    → (ts_pull_bundle at token s).0.trust ≡ (consume_pull at token s.trust).0
unfolding ts_pull_bundle
ts_pull_bundle-trust at token s = ground arith

run_pulls-IsLive :
    (token : Text) (expiry : ℕ) (bundle : Text) (pulls : List (ℕ × Text)) (s : Site)
    → All (IsEarlier token expiry) pulls
    → IsLive token expiry bundle s.trust
    → IsLive token expiry bundle (run_pulls pulls s).trust
run_pulls-IsLive token expiry bundle [] s early live = live
run_pulls-IsLive token expiry bundle ((at, other) ∷ pulls) s early live =
    run_pulls-IsLive token expiry bundle pulls (ts_pull_bundle at other s).0 early.1 (
      rw (ts_pull_bundle-trust at other s)
        (consume_pull-IsLive token other expiry at bundle s.trust early.0 live))

-- A token that an admin draws and that is not in use gives any host the bundle of then until its
-- time to live is over, and afterwards the answer that an unknown token gets, whatever pulls, with
-- this token in its time or with others at any time, came before.
pub pulls-minted :
    (now at : ℕ) (token : Text) (pulls : List (ℕ × Text)) (s : Site)
    → find (pull_with_token token) s.trust.pulls ≡ none
    → All (IsEarlier token (now + pull_ttl_setting s.world)) pulls
    → (ts_pull_bundle at token (run_pulls pulls (ts_pull_token now token s).0)).1 ≡ (
        if ltb at (now + pull_ttl_setting s.world)
        then ok (build_bundle s.trust)
        else error 404 (lit "not found"))
unfolding ts_pull_bundle
pulls-minted now at token pulls s free early =
    let expiry = now + pull_ttl_setting s.world in
    let bundle = build_bundle s.trust in
    let live =
      run_pulls-IsLive token expiry bundle pulls (ts_pull_token now token s).0 early
        (ts_pull_token-IsLive now token s free) in
    let after = run_pulls pulls (ts_pull_token now token s).0 in
    ground (arith, consume_pull-live token expiry at bundle after.trust live)
