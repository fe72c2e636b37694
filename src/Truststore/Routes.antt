-- ===== src/Truststore/Routes.antt =====
-- The handlers of the trust store (backend/routes_truststore.py), behind the gate for admins but for
-- the public pull. The installation on this host and the text of the install script are left out.
use certheim.Base.{
  Bool, List, Option, Text, [], if◌then◌else◌, is_empty, lit, none, not, parse_int, some, strip, ℕ,
}
use certheim.Store.{Reply, World, error, log_event, ok}
use certheim.Settings.{setting_or}
use certheim.Truststore.{Added, CaInfo, Trust, add_certs, build_bundle, remove, set_enabled}
use certheim.Truststore.Hosts.{
  add_target, consume_pull, mint_pull_token, pull_ttl, push_targets, remove_target,
}

-- the trust store with the rest of the data
pub record Site : Type 0 where
  pub trust : Trust
  pub world : World

abbrev pub Answer : Type 0 → Type 0
Answer A = Site × Reply A

abbrev not_found : {A : Type 0} → Site → Answer A
not_found s = (s, error 404 (lit "not found"))

-- `ts_upload`; `blocks` are the PEM blocks of the text and `read` what openssl makes of a block
unfoldable pub ts_upload : (Text → Option CaInfo) → Text → List Text → Text → Site → Answer Added
unfolding strip add_certs
ts_upload read pem blocks name s =
    if is_empty (strip pem)
    then (s, error 400 (lit "paste one or more PEM CA certificates"))
    else (let (t, result) = add_certs read (strip name) blocks s.trust in
        elim result [
          | none ↦ (s, error 400 (lit "not a CA certificate"))
          | some a ↦
              (record { trust = t; world = log_event "truststore_upload" "ok" [] s.world }, ok a)
        ])

-- `ts_set_enabled`
unfoldable pub ts_set_enabled : ℕ → Bool → Site → Answer Unit
unfolding set_enabled
ts_set_enabled cert_id enabled s =
    let (t, found) = set_enabled cert_id enabled s.trust in
    if not found
    then not_found s
    else (record { trust = t; world = log_event "truststore_enabled" "ok" [] s.world }, ok tt)

-- `ts_delete`
unfoldable pub ts_delete : ℕ → Site → Answer Unit
unfolding remove
ts_delete cert_id s =
    let (t, found) = remove cert_id s.trust in
    if not found
    then not_found s
    else (record { trust = t; world = log_event "truststore_delete" "ok" [] s.world }, ok tt)

-- `ts_download_bundle`
unfoldable pub ts_download_bundle : Site → Reply Text
unfolding strip build_bundle
ts_download_bundle s =
    if is_empty (strip (build_bundle s.trust))
    then error 404 (lit "trust store is empty")
    else ok (build_bundle s.trust)

-- `ts_add_target`, without the listing that it answers with
unfoldable pub ts_add_target : Text → Site → Answer Unit
unfolding strip add_target
ts_add_target host s =
    let (t, accepted) = add_target (strip host) s.trust in
    if not accepted
    then (s, error 400 (lit "invalid host"))
    else (record { trust = t; world = log_event "truststore_target_add" "ok" [] s.world }, ok tt)

-- `ts_del_target`, without the listing that it answers with
unfoldable pub ts_del_target : ℕ → Site → Answer Unit
unfolding remove_target
ts_del_target target_id s =
    let (t, found) = remove_target target_id s.trust in
    if not found
    then not_found s
    else (record { trust = t; world = log_event "truststore_target_del" "ok" [] s.world }, ok tt)

-- `(body.get("host") or "").strip() or None`
abbrev pub host_or_all : Text → Option Text
host_or_all host = if is_empty (strip host) then none else some (strip host)

-- `ts_push`, which answers with whether each host took the bundle
unfoldable pub ts_push : (Text → Bool) → ℕ → Text → Site → Answer (List (Text × Bool))
unfolding strip push_targets
ts_push push now host s =
    let (t, results) = push_targets push now (host_or_all host) s.trust in
    (record { trust = t; world = log_event "truststore_push" "ok" [] s.world }, ok results)

-- the time to live of a pull token without one of its own
abbrev pub pull_ttl_setting : World → ℕ
pull_ttl_setting w = elim (parse_int (setting_or (lit "trust_pull_ttl") (lit "86400") w)) [
  | none ↦ 86400
  | some n ↦ pull_ttl n
]

-- `ts_pull_token`, with the token that is drawn
unfoldable pub ts_pull_token : ℕ → Text → Site → Answer Text
unfolding parse_int
ts_pull_token now token s = (
  record {
    trust = mint_pull_token now token (pull_ttl_setting s.world) s.trust;
    world = log_event "truststore_pull_token" "ok" [] s.world;
  },
  ok token,
)

-- `ts_pull_bundle`: the answer does not tell an unknown token from a spent one
unfoldable pub ts_pull_bundle : ℕ → Text → Site → Answer Text
unfolding consume_pull
ts_pull_bundle now token s =
    let (t, bundle) = consume_pull now token s.trust in
    elim bundle [
      | none ↦ (record s { trust = t }, error 404 (lit "not found"))
      | some b ↦ (record { trust = t; world = log_event "truststore_pull" "ok" [] s.world }, ok b)
    ]
