-- ===== src/Tests/Trust.antt =====
-- Runs of the subject configuration and the trust store, and the theorems at concrete inputs.
use certheim.Truststore.Pulls.{pulls-minted, run_pulls}
use certheim.Truststore.Routes.{Site, pull_ttl_setting, ts_pull_bundle, ts_pull_token, ts_upload}
use certheim.Settings.{get_setting}
use certheim.Store.{error, ok, status_eq}
use certheim.Tests.Fixtures.{test_world}
use certheim.Base.{
  List, Option, Text, [], arith, count, false, filter, if◌then◌else◌, lit, ltb, nat_eq, none,
  option_eq, parse_int, refl, some, split_on, strip, text_eq, true, ℕ, ◌++◌, ◌+◌, ◌<◌, ◌==◌, ◌∷◌,
  ◌≡◌,
}
use certheim.Subject.{
  SubjectConfig, clean_config, conf_lines, is_allowed, on_one_line, render_conf, sanitize,
}
use certheim.Subject.Lines.{render_conf-lines}
use certheim.Truststore.{Added, CaInfo, Trust, TrustRole, add_certs, build_bundle, bundle_rows}
use certheim.Truststore.Laws.{IsChain, IsDistinct, add_certs-again, bundle_rows-IsChain}

-- an organization whose name tries to begin a line of its own
abbrev sly_config : SubjectConfig
sly_config = record {
  country = lit "US";
  state = [];
  locality = [];
  org = lit "Acme" ++ (10 ∷ lit "OU=Root");
  ous = lit "IT" ∷ lit "it" ∷ [];
  domain_suffix = lit "example.org";
  domain_suffixes = [];
  custom_dn = (lit "DC", lit "a=b") ∷ [];
  extra_sans = [];
}

render_conf-lines_example :
    split_on 10 (render_conf sly_config) ≡ conf_lines (clean_config sly_config) ++ [] ∷ []
render_conf-lines_example = render_conf-lines sly_config

org_is_one_line : sanitize false (lit "Acme" ++ (10 ∷ lit "OU=Root")) ≡ lit "Acme OURoot"
unfolding sanitize on_one_line strip is_allowed nat_eq
org_is_one_line = refl

abbrev empty_trust : Trust
empty_trust = record { certs = []; targets = []; pulls = []; next_id = 1 }

-- every block is a self-signed authority, its text its fingerprint
abbrev test_read : Text → Option CaInfo
test_read pem = some (record {
  pem = pem;
  fingerprint = pem;
  is_ca = true;
  subject = lit "CN=A";
  issuer = lit "CN=A";
  cn = lit "A";
  expires_at = none;
})

abbrev first_upload : Trust × Option Added
first_upload = add_certs test_read [] (lit "X" ∷ lit "Y" ∷ lit "X" ∷ []) empty_trust

add_certs-again_example :
    IsDistinct first_upload.0.certs
    × ((add_certs test_read (lit "again") (lit "X" ∷ lit "Y" ∷ lit "X" ∷ []) first_upload.0).0
        ≡ first_upload.0)
    × ((b : Added) × ((add_certs test_read
            (lit "again")
            (lit "X" ∷ lit "Y" ∷ lit "X" ∷ [])
            first_upload.0).1
          ≡ some b)
        × (b.added ≡ []))
unfolding add_certs
add_certs-again_example =
    add_certs-again test_read [] (lit "again") (lit "X" ∷ lit "Y" ∷ lit "X" ∷ []) empty_trust _ tt
      refl

abbrev two_cas : Trust
two_cas = record empty_trust {
  certs =
      record {
        id = 1;
        name = lit "a root";
        fingerprint = lit "R";
        pem = lit "R";
        role = TrustRole.root;
        subject = lit "CN=R";
        expires_at = none;
        enabled = true;
      }
      ∷ record {
        id = 2;
        name = lit "z sub";
        fingerprint = lit "S";
        pem = lit "S";
        role = TrustRole.intermediate;
        subject = lit "CN=S";
        expires_at = none;
        enabled = true;
      }
      ∷ [];
}

bundle_rows-IsChain_example :
    IsChain (bundle_rows two_cas)
    × (count (λ c. c.id == 2) (bundle_rows two_cas)
        ≡ count (λ c. c.id == 2) (filter (λ c. c.enabled) two_cas.certs))
bundle_rows-IsChain_example = bundle_rows-IsChain two_cas (λ c. c.id == 2)

text-differ : ¬ (lit "T" ≡ lit "U")
unfolding text_eq
text-differ same = ground arith

abbrev minted : Site
minted = (ts_pull_token 100 (lit "T") (record { trust = two_cas; world = test_world })).0

-- A token gives the bundle until its day is over, and then what an unknown token gives.
pulls_for_a_day :
    ((ts_pull_bundle 86499 (lit "T") minted).1 ≡ ok (build_bundle two_cas))
    × ((ts_pull_bundle 86500 (lit "T") minted).1 ≡ (ts_pull_bundle 100 (lit "U") minted).1)
unfolding ts_pull_token ts_pull_bundle get_setting text_eq
pulls_for_a_day = (refl, refl)

-- a pull with the token in its time, and one with another token long after
abbrev two_pulls : List (ℕ × Text)
two_pulls = (200, lit "T") ∷ (999999, lit "U") ∷ []

in_time : 200 < 100 + pull_ttl_setting test_world
unfolding parse_int get_setting text_eq
in_time = ground arith

pulls-minted_example : (ts_pull_bundle 86499 (lit "T") (run_pulls two_pulls minted)).1 ≡ (
    if ltb 86499 (100 + pull_ttl_setting test_world)
    then ok (build_bundle two_cas)
    else error 404 (lit "not found"))
pulls-minted_example =
    pulls-minted 100 86499 (lit "T") two_pulls (record { trust = two_cas; world = test_world }) refl
      ((λ same. in_time), ((λ same. absurd (text-differ same)), tt))

-- A blank upload is refused, and an upload of a root adds it.
uploads_a_root :
    ((ts_upload test_read (lit " ") [] [] minted).1
      ≡ error 400 (lit "paste one or more PEM CA certificates"))
    × ((ts_upload test_read (lit "Z") (lit "Z" ∷ []) [] minted).1
        ≡ ok (record { added = (lit "Z" ++ (10 ∷ [])) ∷ []; duplicates = [] }))
unfolding ts_pull_token ts_upload text_eq
uploads_a_root = (refl, refl)
