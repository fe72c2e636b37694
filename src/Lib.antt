-- ===== src/Lib.antt =====
-- A model of the backend of Certheim, a dashboard for certificate requests: users submit
-- certificate signing requests (jobs) or have the server generate them, signers approve them
-- through a certificate authority or upload what an authority returned, and the jobs then expire,
-- are renewed or are revoked.
--
-- Parts and files. Store is the data that the backend keeps (backend/app.py, init_db and the
-- helpers on it), as one record `World` of tables, and what a request brings (`Request`). Jobs
-- holds one module for each handler of backend/routes_jobs.py and backend/routes_signing.py on a
-- job, with the completion path of backend/app.py that uploads and signatures share
-- (Jobs/Completion), the renewal (Jobs/Renew), the deletions of backend/routes_admin.py
-- (Jobs/Delete), the rules of visibility (Jobs/Access), the rollup by host (Jobs/Hosts), and
-- whole histories of requests (Jobs/History). Requests is the submission of an external CSR, the
-- generation on the server and the automatic signing (backend/routes_requests.py). Keystore is
-- backend/keystore.py: where the private keys of generated requests are kept, and who gets them;
-- generation and renewal hand their keys to it. Accounts is the users: identity, the gates of the
-- handlers, sessions, usernames and passwords (backend/app.py), login, registration and the
-- settings of these (backend/routes_auth.py), the administration of users
-- (backend/routes_admin.py), and whole histories of these (Accounts/History). Groups is
-- backend/routes_groups.py: who is in a group and who owns it. Licensing is backend/licensing.py,
-- backend/build_mode.py and the entitlements of backend/capabilities.py; `licensed_deploy`
-- answers by them what Signing asks of the installation. Signing is the signing policy, the
-- lifetime bounds and sign_csr (backend/app.py, backend/routes_signing.py, backend/sign.py);
-- Domains is backend/domains.py and the domain quota of backend/sign.py; Settings and Validation
-- are the settings and the checks of request fields of backend/app.py. Subject is
-- backend/csr_subject.py, the configuration of the subject of generated CSRs. Truststore is
-- backend/truststore.py with its handlers in backend/routes_truststore.py: the CA certificates,
-- their bundle, and the hosts that get it. Crypto is what the backend asks of openssl. Base holds
-- the shared lists, sets, texts and numbers, Tests the runs at which the theorems apply.
--
-- Correspondence. A handler is a function from a `Request`, its body's fields and a `World` to
-- the next `World` and a `Reply`; it has the name of the Python function. An SQL statement on a
-- table is a `find`, an `update_where`, a `filter` or an append on the list of rows; a
-- statement's WHERE clause is a Boolean test. The lists keep the order of insertion, and an
-- insert is refused where a key is taken, as a primary key or a unique index demands. A
-- transaction is one handler: handlers are not interleaved with each other. The clock is read
-- once for each request, in whole seconds. The write of the licensed domains, whose failure
-- sign_csr ignores, is taken to succeed. Log lines, webhooks and mails are appended to lists in
-- the order of the code, with the fields that matter here. The files of the privileged helper and
-- the keys of the vault are association lists of the world. Texts are lists of character codes;
-- letter case and digits are those of ASCII, so a text with other letters or digits is outside
-- the model.
--
-- Bounds and fuel. Every loop but two is recursion on a list or on the rounds that the code
-- itself counts, as the five tries of a registration. The search for the number of a username
-- runs for one round more than there are names taken, which is enough since different numbers
-- print differently, and the decimal digits of a number n are drawn n + 1 times at most, which is
-- more than it has.
--
-- Parameters. What openssl answers (`Openssl`), what the certificate authorities answer, the
-- names that openssl prints of a CSR, which capabilities the installation has (`Deploy`), the
-- check of a license's signature, what the detection of the environment finds, how the database
-- matches a LIKE pattern on host names, what the privileged helper generates (`Helper`), whether
-- the vault and the helper fail at a key (`KeyEnv`), PBKDF2 and Base64 (`Kdf`), and whether a
-- push to a host succeeds are parameters. Fresh ids, tokens, salts and generated passwords are
-- arguments.
--
-- Not modelled: lists and downloads of jobs, the other settings, the templates and webhooks of
-- the administration, login banners, the pushes of the trust store by ssh and its install script,
-- notifications, the ACME client, the database layer, imports, integrations and diagnostics.
pub mod Base
pub mod Store
pub mod Crypto
pub mod Domains
pub mod Settings
pub mod Signing
pub mod Validation
pub mod Jobs
pub mod Requests
pub mod Groups
pub mod Licensing
pub mod Keystore
pub mod Subject
pub mod Truststore
pub mod Accounts
pub mod Tests
