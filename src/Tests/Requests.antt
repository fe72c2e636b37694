-- ===== src/Tests/Requests.antt =====
-- Runs of the submission of a CSR and of the checks of its fields, and the theorems at them.
use certheim.Validation.CertTypes.Laws.{IsCanonical, normalize_cert_types-IsCanonical}
use certheim.Validation.CertTypes.{normalize_cert_types, types, types_text}
use certheim.Jobs.Regroup.{null}
use certheim.Tests.Fixtures.{alice, new_id, pending_id, test_deploy, test_ssl, test_world}
use certheim.Signing.Laws.{AutoSigns}
use certheim.Requests.External.Laws.{Submitted, submit_external-Submitted}
use certheim.Requests.AutoSign.{auto_sign_jobs, auto_sign_jobs_idle}
use certheim.Base.{List, Text, [], arith, lit, none, refl, some, ◌∷◌, ◌≡◌}
use certheim.Requests.External.{Submission, submit_external}
use certheim.Validation.{no_text, text}

abbrev test_submission : Submission
test_submission = record {
  csr_pem = text (lit "BEGIN CERTIFICATE REQUEST MIICVjCCAT4CAQAwETEPMA0GA1UEAwwG");
  target_host = lit " www.example.org ";
  requester_email = no_text;
  group_id = null;
  cert_type = types_text (lit "web");
  template_id = some 7;
}

submit_external-Submitted_example :
    Submitted test_ssl test_deploy alice test_world new_id
      (submit_external test_ssl test_deploy alice test_submission new_id test_world).0.jobs
      (submit_external test_ssl test_deploy alice test_submission new_id test_world).1
submit_external-Submitted_example =
    submit_external-Submitted test_ssl test_deploy alice test_submission new_id test_world

no_template-idle : ¬ AutoSigns none test_world
no_template-idle a = let e : none ≡ some a.number = a.named in ground arith

auto_sign_jobs_idle_example :
    auto_sign_jobs test_ssl test_deploy alice (pending_id ∷ []) none test_world ≡ test_world
auto_sign_jobs_idle_example =
    auto_sign_jobs_idle test_ssl test_deploy alice (pending_id ∷ []) none test_world
      no_template-idle

abbrev test_types : List Text
test_types = lit "client" ∷ lit "email" ∷ lit "web" ∷ []

types-accepted :
    normalize_cert_types (types_text (lit "web, server-client,email")) ≡ types test_types
unfolding normalize_cert_types
types-accepted = refl

normalize_cert_types-IsCanonical_example : IsCanonical test_types
normalize_cert_types-IsCanonical_example =
    normalize_cert_types-IsCanonical (types_text (lit "web, server-client,email")) test_types
      types-accepted
