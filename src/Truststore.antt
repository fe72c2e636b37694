-- ===== src/Truststore.antt =====
-- The trust store (backend/truststore.py): CA certificates, the bundle of those that are enabled,
-- the hosts that it is pushed to and the tokens by which hosts pull it. How openssl reads a
-- certificate and how a host is reached are parameters. Labels of hosts, serials, dates of
-- validity and notes, which are stored and shown, are left out; names sort by their ASCII letters.
pub mod Hosts
pub mod Routes
pub mod Pulls
pub mod Laws
use certheim.Base.{
  Bool, List, Option, Text, [], any, false, filter, if◌then◌else◌, is_empty, is_zero, join, lit,
  lower, ltb, map, nat_eq, none, not, option_eq, some, strip, take, text_eq, true, update_where, ℕ,
  ◌&&◌, ◌++◌, ◌+◌, ◌==◌, ◌||◌, ◌∷◌,
}

pub data TrustRole : Type 0 where
  root intermediate : TrustRole

-- What `parse_one` makes of a certificate.
pub record ParsedCa : Type 0 where
  pub pem : Text
  pub fingerprint : Text
  pub role : TrustRole
  pub subject : Text
  pub cn : Text
  pub expires_at : Option ℕ

pub record TrustCert : Type 0 where
  pub id : ℕ
  pub name : Text
  pub fingerprint : Text
  pub pem : Text
  pub role : TrustRole
  pub subject : Text
  pub expires_at : Option ℕ
  pub enabled : Bool

pub record Target : Type 0 where
  pub id : ℕ
  pub host : Text
  pub enabled : Bool
  pub last_status : Option Text
  pub last_pushed_at : Option ℕ

pub record Pull : Type 0 where
  pub token : Text
  pub expires_at : ℕ
  pub max_uses : ℕ
  pub uses : ℕ

-- The tables trust_certs, trust_targets and trust_pulls, and the next row id.
pub record Trust : Type 0 where
  pub certs : List TrustCert
  pub targets : List Target
  pub pulls : List Pull
  pub next_id : ℕ

-- the certificate that openssl reads: its PEM, fingerprint, whether it is a CA, subject and issuer
pub record CaInfo : Type 0 where
  pub pem : Text
  pub fingerprint : Text
  pub is_ca : Bool
  pub subject : Text
  pub issuer : Text
  pub cn : Text
  pub expires_at : Option ℕ

-- `parse_one`, on what openssl reads; `none` is the TrustError
unfoldable pub parse_one : (Text → Option CaInfo) → Text → Option ParsedCa
unfolding text_eq
parse_one read pem = elim (read pem) [
  | none ↦ none
  | some info ↦
      if is_empty info.fingerprint || not info.is_ca
      then none
      else some (record {
        pem = info.pem;
        fingerprint = info.fingerprint;
        role =
            if not (is_empty info.subject) && info.subject == info.issuer
            then TrustRole.root
            else TrustRole.intermediate;
        subject = if is_empty info.subject then info.cn else info.subject;
        cn = info.cn;
        expires_at = info.expires_at;
      })
]

-- the loop of `parse_all` over the blocks of an upload
unfoldable pub parse_blocks : (Text → Option CaInfo) → List Text → Option (List ParsedCa)
unfolding parse_one
parse_blocks read [] = some []
parse_blocks read (b ∷ bs) =
    let rest = parse_blocks read bs in
    elim (parse_one read (b ++ 10 ∷ [])) [
      | none ↦ none
      | some p ↦ elim rest [ none ↦ none | some ps ↦ some (p ∷ ps) ]
    ]

-- `parse_all`: an upload without a block is refused
unfoldable pub parse_all : (Text → Option CaInfo) → List Text → Option (List ParsedCa)
unfolding parse_blocks
parse_all read blocks = if is_empty blocks then none else parse_blocks read blocks

abbrev pub has_fingerprint : Text → TrustCert → Bool
has_fingerprint fp c = c.fingerprint == fp

-- `(name or cn or subject or "ca")[:200]`
unfoldable pub label_of : Text → ParsedCa → Text
label_of name p = take 200 (
    if not (is_empty name)
    then name
    else if not (is_empty p.cn)
    then p.cn
    else if not (is_empty p.subject)
    then p.subject
    else lit "ca")

-- what an upload came to
pub record Added : Type 0 where
  pub added : List Text
  pub duplicates : List Text

abbrev stored_cert : Text → ParsedCa → Trust → Trust
stored_cert name p t = record t {
  certs =
      t.certs
      ++ record {
        id = t.next_id;
        name = label_of name p;
        fingerprint = p.fingerprint;
        pem = p.pem;
        role = p.role;
        subject = p.subject;
        expires_at = p.expires_at;
        enabled = true;
      }
        ∷ [];
  next_id = t.next_id + 1;
}

abbrev note_added : Text → Trust × Added → Trust × Added
note_added fp (t, a) = (t, record a { added = fp ∷ a.added })

abbrev note_duplicate : Text → Trust × Added → Trust × Added
note_duplicate fp (t, a) = (t, record a { duplicates = fp ∷ a.duplicates })

-- the loop of `add_certs`
unfoldable pub add_parsed : Text → List ParsedCa → Trust → Trust × Added
unfolding text_eq
add_parsed name [] t = (t, record { added = []; duplicates = [] })
add_parsed name (p ∷ ps) t = elim (any (has_fingerprint p.fingerprint) t.certs) [
  | true ↦ note_duplicate p.fingerprint (add_parsed name ps t)
  | false ↦ note_added p.fingerprint (add_parsed name ps (stored_cert name p t))
]

-- `add_certs`
unfoldable pub add_certs : (Text → Option CaInfo) → Text → List Text → Trust → Trust × Option Added
unfolding add_parsed parse_all
add_certs read name blocks t = elim (parse_all read blocks) [
  | none ↦ (t, none)
  | some ps ↦ ((add_parsed name ps t).0, some (add_parsed name ps t).1)
]

-- the status column of `list_certs`
unfoldable pub cert_status : ℕ → TrustCert → Text
cert_status now c = elim c.expires_at [
  | none ↦ lit "ok"
  | some exp ↦
      if is_zero exp
      then lit "ok"
      else if ltb exp now
      then lit "expired"
      else if ltb exp (now + 2592000)
      then lit "expiring"
      else lit "ok"
]

abbrev cert_with_id : ℕ → TrustCert → Bool
cert_with_id cert_id c = c.id == cert_id

-- `set_enabled` and `remove`: whether a row was there
unfoldable pub set_enabled : ℕ → Bool → Trust → Trust × Bool
unfolding nat_eq
set_enabled cert_id enabled t = (
  record t {
    certs =
        update_where (cert_with_id cert_id) (λ (c : TrustCert). record c { enabled = enabled })
          t.certs;
  },
  any (cert_with_id cert_id) t.certs,
)

unfoldable pub remove : ℕ → Trust → Trust × Bool
unfolding nat_eq
remove cert_id t = (
  record t { certs = filter (λ c. not (cert_with_id cert_id c)) t.certs },
  any (cert_with_id cert_id) t.certs,
)

-- the order of texts by their characters
unfoldable pub leb_text : Text → Text → Bool
unfolding nat_eq
leb_text [] t = true
leb_text (c ∷ s) [] = false
leb_text (c ∷ s) (d ∷ t) = let rest = leb_text s t in ltb c d || (c == d && rest)

abbrev pub is_root : TrustRole → Bool
is_root TrustRole.root = true
is_root TrustRole.intermediate = false

-- the sort key: intermediates first, then by name
unfoldable pub sorts_before : TrustCert → TrustCert → Bool
unfolding leb_text lower
sorts_before a b =
    if is_root a.role
    then is_root b.role && leb_text (lower a.name) (lower b.name)
    else is_root b.role || leb_text (lower a.name) (lower b.name)

-- a stable insertion sort
unfoldable pub insert_cert : TrustCert → List TrustCert → List TrustCert
insert_cert c [] = c ∷ []
insert_cert c (d ∷ ds) =
    let rest = insert_cert c ds in if sorts_before c d then c ∷ d ∷ ds else d ∷ rest

unfoldable pub sort_certs : List TrustCert → List TrustCert
unfolding insert_cert
sort_certs [] = []
sort_certs (c ∷ cs) = insert_cert c (sort_certs cs)

abbrev is_enabled : TrustCert → Bool
is_enabled c = c.enabled

abbrev role_text : TrustRole → Text
role_text TrustRole.root = lit "root"
role_text TrustRole.intermediate = lit "intermediate"

-- a certificate in the bundle, after a comment that names it
unfoldable pub bundle_part : TrustCert → Text
unfolding strip
bundle_part c =
    lit "# "
    ++ (role_text c.role
        ++ (lit ": "
            ++ ((if is_empty c.subject then c.name else c.subject)
                ++ (10 ∷ (strip c.pem ++ 10 ∷ [])))))

-- the rows of a bundle, and `build_bundle`
abbrev pub bundle_rows : Trust → List TrustCert
bundle_rows t = sort_certs (filter is_enabled t.certs)

unfoldable pub build_bundle : Trust → Text
unfolding bundle_part sort_certs join
build_bundle t = join [] (map bundle_part (bundle_rows t))
