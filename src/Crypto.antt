-- ===== src/Crypto.antt =====
-- What the backend learns of a certificate by running `openssl` (backend/app.py, _csr_pubkey to
-- _verify_cert_matches_csr). The program itself is a parameter.
use certheim.Base.{
  Bool, List, Option, Text, [], false, if◌then◌else◌, leb, ltb, nat_eq, none, option_eq, some,
  text_eq, ℕ, ◌*◌, ◌++◌, ◌+◌, ◌-◌, ◌/◌, ◌==◌, ◌∷◌,
}

-- `import_certs.parse_cert`, as far as the fleet table keeps it
pub record CertInfo : Type 0 where
  pub fingerprint : Text
  pub cn : Option Text
  pub expires_at : Option ℕ

pub record Openssl : Type 0 where
  pub csr_pubkey : Text → Option Text
  pub cert_pubkey : Text → Option Text
  pub cert_expiry : Text → Option ℕ
  pub cert_startdate : Text → Option ℕ
  pub chain_trusted : Text → Bool
  pub cert_serial : Text → Option Text
  pub parse_cert : Text → Option CertInfo
  -- `openssl req -noout -text`, and `openssl req -noout -verify`: no answer where the call fails
  pub csr_print : Text → Option Text
  pub csr_verify : Text → Option Bool
  -- `openssl x509 -inform DER` and `openssl pkcs7 -inform DER` or `PEM`, whose output holds a
  -- certificate, and `openssl x509 -noout -subject`: the exit code's answer, none for an exception
  pub from_der : Text → Option Text
  pub from_pkcs7_der : Text → Option Text
  pub from_pkcs7_pem : Text → Option Text
  pub is_x509 : Text → Option Bool
  -- whether bytes are UTF-8, and the text of them
  pub decode_utf8 : Text → Option Text
  pub encode_utf8 : Text → Text

-- `_verify_cert_matches_csr`: an unreadable or empty key matches nothing
same_key : Option Text → Option Text → Bool
unfolding text_eq
same_key none _ = false
same_key (some k) none = false
same_key (some []) (some l) = false
same_key (some k) (some l) = k == l

unfoldable pub verify_cert_matches_csr : Openssl → Text → Text → Bool
unfolding same_key
verify_cert_matches_csr ssl csr_pem cert_pem =
    same_key (ssl.csr_pubkey csr_pem) (ssl.cert_pubkey cert_pem)

pub data Warning : Type 0 where
  untrusted_chain not_yet_valid already_expired : Warning
  expires_soon : ℕ → Warning

-- `_cert_upload_warnings`; whether the certificate chains to a trusted CA is openssl's answer.
validity_warnings : Option ℕ → ℕ → List Warning
unfolding nat_eq
validity_warnings none now = []
validity_warnings (some na) now =
    if na == 0
    then []
    else if leb na now
    then already_expired ∷ []
    else if leb na (now + 30 * 86400)
    then expires_soon ((na - now) / 86400) ∷ []
    else []

unfoldable pub cert_upload_warnings : Openssl → ℕ → Text → List Warning
unfolding validity_warnings
cert_upload_warnings ssl now cert_pem =
    (if ssl.chain_trusted cert_pem then [] else untrusted_chain ∷ [])
    ++ elim (ssl.cert_startdate cert_pem) [
      | none ↦ []
      | some nb ↦ if ltb (now + 300) nb then not_yet_valid ∷ [] else []
    ]
    ++ validity_warnings (ssl.cert_expiry cert_pem) now
