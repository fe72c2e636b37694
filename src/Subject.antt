-- ===== src/Subject.antt =====
-- The subject of generated CSRs (backend/csr_subject.py): values cut to what the helper accepts, and
-- the file of lines that it reads. Letter case is that of ASCII.
pub mod Lines
use certheim.Base.{
  Bool, List, Text, [], contains, false, filter, if◌then◌else◌, is_digit, is_empty, is_lower,
  is_upper, join, lit, lower, lstrip, map, nat_eq, not, option_eq, rstrip, strip, take, text_eq,
  true, ℕ, ◌&&◌, ◌++◌, ◌==◌, ◌||◌, ◌∷◌,
}

-- the characters of `_ALLOWED`, `_DOMAIN_ALLOWED`, `_DN_FIELD_ALLOWED` and `_SAN_ALLOWED`
unfoldable pub is_allowed : ℕ → Bool
unfolding is_lower is_upper is_digit nat_eq text_eq
is_allowed c = is_lower c || is_upper c || is_digit c || contains (lit " ._,&/()@:-") c

unfoldable pub is_domain_allowed : ℕ → Bool
unfolding is_lower is_upper is_digit nat_eq text_eq
is_domain_allowed c = is_lower c || is_upper c || is_digit c || contains (lit ".-") c

unfoldable pub is_dn_field_allowed : ℕ → Bool
unfolding is_lower is_upper is_digit nat_eq text_eq
is_dn_field_allowed c = is_lower c || is_upper c || is_digit c || c == b'.'

unfoldable pub is_san_allowed : ℕ → Bool
unfolding is_lower is_upper is_digit nat_eq text_eq
is_san_allowed c = is_lower c || is_upper c || is_digit c || contains (lit " ._@:-") c

abbrev max_len : ℕ
max_len = 128

-- line breaks turned into blanks
unfoldable pub on_one_line : Text → Text
unfolding nat_eq
on_one_line s = map (λ c. if c == 10 || c == 13 then 32 else c) s

-- `sanitize`; a value that is missing is blank
unfoldable pub sanitize : Bool → Text → Text
unfolding on_one_line strip is_allowed is_domain_allowed
sanitize domain value =
    take max_len (
      filter (λ c. if domain then is_domain_allowed c else is_allowed c)
        (strip (on_one_line value)))

-- `_clean_dn_field`
unfoldable pub clean_dn_field : Text → Text
unfolding strip is_dn_field_allowed
clean_dn_field name = take 64 (filter is_dn_field_allowed (strip name))

-- `_clean_san`
unfoldable pub clean_san : Text → Text
unfolding on_one_line strip is_san_allowed
clean_san value = take max_len (filter is_san_allowed (strip (on_one_line value)))

-- the values that are not blank, each once, letter case aside
unfoldable pub dedup : (Text → Text) → List Text → List Text → List Text
unfolding lower text_eq
dedup clean [] seen = []
dedup clean (item ∷ items) seen =
    let s = clean item in
    let skip = dedup clean items seen in
    let more = dedup clean items (lower s ∷ seen) in
    if is_empty s || contains seen (lower s) then skip else s ∷ more

-- `_dedup_domains`
abbrev pub dedup_domains : List Text → List Text
dedup_domains items = take 16 (dedup (sanitize true) items [])

-- The configuration; an extra field of the name has a field name and a value.
pub record SubjectConfig : Type 0 where
  pub country : Text
  pub state : Text
  pub locality : Text
  pub org : Text
  pub ous : List Text
  pub domain_suffix : Text
  pub domain_suffixes : List Text
  pub custom_dn : List (Text × Text)
  pub extra_sans : List Text

-- the extra fields of which both parts are left
unfoldable pub clean_custom : List (Text × Text) → List (Text × Text)
unfolding clean_dn_field sanitize
clean_custom [] = []
clean_custom ((field, value) ∷ items) =
    let rest = clean_custom items in
    let f = clean_dn_field field in
    let v = sanitize false value in
    if not (is_empty f) && not (is_empty v) then (f, v) ∷ rest else rest

-- `clean_config`
abbrev pub clean_config : SubjectConfig → SubjectConfig
clean_config c = record {
  country = sanitize false c.country;
  state = sanitize false c.state;
  locality = sanitize false c.locality;
  org = sanitize false c.org;
  ous = take 16 (dedup (sanitize false) c.ous []);
  domain_suffix = sanitize true c.domain_suffix;
  domain_suffixes = dedup_domains c.domain_suffixes;
  custom_dn = take 16 (clean_custom c.custom_dn);
  extra_sans = take 16 (dedup clean_san c.extra_sans []);
}

abbrev pub custom_line : Text × Text → Text
custom_line (f, v) = lit "XDN=" ++ (f ++ b':' ∷ v)

-- the lines of a configuration that is clean
abbrev pub conf_lines : SubjectConfig → List Text
conf_lines c =
    (lit "C=" ++ c.country)
    ∷ (lit "ST=" ++ c.state)
    ∷ (lit "L=" ++ c.locality)
    ∷ (lit "O=" ++ c.org)
    ∷ (map (λ ou. lit "OU=" ++ ou) c.ous
        ++ ((lit "DOMAIN_SUFFIX=" ++ c.domain_suffix)
            ∷ (map (λ d. lit "DOMAIN_SUFFIX_ALT=" ++ d) c.domain_suffixes
                ++ (map custom_line c.custom_dn ++ map (λ s. lit "XSAN=" ++ s) c.extra_sans))))

-- `render_conf`
unfoldable pub render_conf : SubjectConfig → Text
unfolding join
render_conf cfg = join (10 ∷ []) (conf_lines (clean_config cfg)) ++ 10 ∷ []

abbrev rdn : Text → Text → List Text
rdn tag value = if is_empty value then [] else (tag ++ value) ∷ []

-- `preview_dn`
unfoldable pub preview_dn : SubjectConfig → Text
unfolding join
preview_dn cfg =
    let c = clean_config cfg in
    join (lit ", ") (
      rdn (lit "C=") c.country
      ++ (rdn (lit "ST=") c.state
          ++ (rdn (lit "L=") c.locality
              ++ (rdn (lit "O=") c.org
                  ++ (map (λ ou. lit "OU=" ++ ou) c.ous ++ lit "CN=<hostname>" ∷ [])))))

-- runs of other characters than small letters and digits turned into one dash
unfoldable pub dashes : Bool → Text → Text
unfolding is_lower is_digit
dashes inside [] = []
dashes inside (c ∷ s) =
    let keep = c ∷ dashes false s in
    let rest = dashes true s in
    if is_lower c || is_digit c then keep else if inside then rest else b'-' ∷ rest

abbrev is_dash : ℕ → Bool
is_dash c = c == b'-'

-- `slugify`
unfoldable pub slugify : Text → Text
unfolding dashes lower strip lstrip rstrip nat_eq
slugify name =
    let s = rstrip is_dash (lstrip is_dash (dashes false (lower (strip name)))) in
    if is_empty (take 64 s) then lit "profile" else take 64 s
