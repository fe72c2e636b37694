-- ===== src/Tests/Fixtures.antt =====
-- A small installation: one group with a signer, two templates and three jobs.
use certheim.Base.{Bool, Text, [], false, lit, none, pos, some, true, ℕ, ◌∷◌}
use certheim.Store.{Job, Mailed, Request, Role, Source, Status, Template, World}
use certheim.Signing.{Deploy, issued_by_ca}
use certheim.Crypto.{Openssl}

-- every CSR has the key K, and a certificate is spelled as its key
abbrev pub test_ssl : Openssl
test_ssl = record {
  csr_pubkey = λ csr. some (lit "K");
  cert_pubkey = λ cert. some cert;
  cert_expiry = λ cert. some 5000;
  cert_startdate = λ cert. some 10;
  chain_trusted = λ cert. true;
  cert_serial = λ cert. some (lit "serial=0AB");
  parse_cert = λ cert. none;
  csr_print = λ csr. some (lit "Subject: CN = www.example.org");
  csr_verify = λ csr. some true;
  from_der = λ raw. none;
  from_pkcs7_der = λ raw. none;
  from_pkcs7_pem = λ raw. none;
  is_x509 = λ pem. some true;
  decode_utf8 = λ raw. some raw;
  encode_utf8 = λ pem. pem;
}

abbrev pub test_deploy : Deploy
test_deploy = record {
  available = λ c. true;
  is_entitled = λ c. true;
  max_domains = 2;
  max_csr_bytes = 1000;
  max_cert_bytes = 1000;
  csr_names = λ csr. lit "www.example.org" ∷ [];
  ca_sign = λ backend policy csr. issued_by_ca (lit "K") [];
  ca_revoke = λ backend serial. some (some 77);
}

abbrev pub request_of : Text → Bool → ℕ → Request
request_of dn is_admin now = record {
  dn = dn;
  is_admin = is_admin;
  email = some (lit "a@b.org");
  now = now;
  mail = λ m. Mailed.sent;
  disk_ok = true;
}

abbrev pub alice : Request
alice = request_of (lit "alice") false 100

abbrev pub admin : Request
admin = request_of (lit "root") true 6000

abbrev pub pending_id : Text
pending_id = lit "0123456789abcdef0123456789abcdef"

abbrev pub issued_id : Text
issued_id = lit "fedcba9876543210fedcba9876543210"

abbrev pub new_id : Text
new_id = lit "00000000000000000000000000000001"

abbrev pub pending_job : Job
pending_job = record {
  id = pending_id;
  created_at = 50;
  requester_dn = lit "alice";
  requester_email = some (lit "a@b.org");
  target_host = lit "www.example.org";
  sans = [];
  csr_pem = lit "CERTIFICATE REQUEST";
  cert_pem = none;
  chain_pem = none;
  status = Status.pending;
  completed_at = none;
  completed_by_dn = none;
  error = none;
  expires_at = none;
  has_local_key = true;
  local_key_name = some (lit "www.key");
  source = Source.rhel;
  group_id = some 1;
  cert_type = some (lit "web");
  key_algo = some (lit "rsa2048");
  renewed_from = none;
  template_id = some 7;
  signed_via = none;
  approved_by_dn = none;
  approved_at = none;
  revoked_at = none;
  revoked_by_dn = none;
  expiry_warned = 0;
  key_storage = none;
  key_vault_path = none;
}

abbrev pub issued_job : Job
issued_job = record pending_job {
  id = issued_id;
  status = Status.issued;
  cert_pem = some (lit "K");
  expires_at = some 5000;
  requester_dn = lit "bob";
}

abbrev pub auto_template : Template
auto_template = record {
  id = 7;
  owner_dn = none;
  signer_backend = some (lit "openbao");
  openbao_role = some (lit "web");
  max_ttl = some (pos 86400);
  auto_sign = true;
  key_storage = none;
}

abbrev pub test_world : World
test_world = record {
  jobs = pending_job ∷ issued_job ∷ [];
  users = [];
  groups =
      record { id = 1; name = lit "signers"; email = some (lit "s@b.org"); notify_on_new = true }
      ∷ [];
  members = record { user_dn = lit "carol"; group_id = 1; role = Role.owner } ∷ [];
  templates = auto_template ∷ [];
  settings = [];
  licensed = lit "example.org" ∷ [];
  fleet = [];
  issued_dir = [];
  audit = [];
  hooks = [];
  host_keys = (lit "www.key", lit "PRIVATE") ∷ [];
  vault = [];
  sessions = [];
}
