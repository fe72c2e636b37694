-- ===== src/Domains.antt =====
-- Registrable domains and the signing quota (backend/domains.py; _licensed_domains to
-- _enforce_domain_quota of backend/sign.py). Texts are ASCII where letter case or digits matter.
pub mod Quota
use certheim.Base.{
  Bool, List, Text, [], all, any, chomp, contains, drop, if◌then◌else◌, is_digit, is_empty,
  is_lower, join, leb, length, lit, lower, ltb, nat_eq, not, option_eq, rstrip, split_on,
  starts_with, strip, text_eq, ℕ, ◌&&◌, ◌-◌, ◌==◌, ◌||◌, ◌∷◌,
}

-- `_MULTI_SUFFIXES`
abbrev pub multi_suffixes : List Text
multi_suffixes =
    lit "co.uk"
    ∷ lit "org.uk"
    ∷ lit "gov.uk"
    ∷ lit "ac.uk"
    ∷ lit "ltd.uk"
    ∷ lit "plc.uk"
    ∷ lit "me.uk"
    ∷ lit "net.uk"
    ∷ lit "com.au"
    ∷ lit "net.au"
    ∷ lit "org.au"
    ∷ lit "edu.au"
    ∷ lit "gov.au"
    ∷ lit "id.au"
    ∷ lit "co.nz"
    ∷ lit "net.nz"
    ∷ lit "org.nz"
    ∷ lit "govt.nz"
    ∷ lit "co.jp"
    ∷ lit "or.jp"
    ∷ lit "ne.jp"
    ∷ lit "go.jp"
    ∷ lit "ac.jp"
    ∷ lit "co.za"
    ∷ lit "org.za"
    ∷ lit "gov.za"
    ∷ lit "com.br"
    ∷ lit "net.br"
    ∷ lit "gov.br"
    ∷ lit "org.br"
    ∷ lit "com.mx"
    ∷ lit "gob.mx"
    ∷ lit "com.sg"
    ∷ lit "com.hk"
    ∷ lit "com.cn"
    ∷ lit "net.cn"
    ∷ lit "gov.cn"
    ∷ lit "co.in"
    ∷ lit "net.in"
    ∷ lit "org.in"
    ∷ lit "gov.in"
    ∷ lit "co.kr"
    ∷ lit "or.kr"
    ∷ []

is_label_char : ℕ → Bool
unfolding is_lower is_digit nat_eq
is_label_char c = is_lower c || is_digit c || c == b'_' || c == b'-'

-- `_LABEL.match(lbl)`
unfoldable pub is_label : Text → Bool
unfolding chomp is_label_char
is_label l = not (is_empty (chomp l)) && all is_label_char (chomp l)

is_number : Text → Bool
unfolding is_digit
is_number s = not (is_empty s) && all is_digit s

-- `re.match(r"^\d+(\.\d+){3}$", h)`
unfoldable pub is_ipv4 : Text → Bool
unfolding chomp is_number split_on nat_eq
is_ipv4 h = let parts = split_on b'.' (chomp h) in length parts == 4 && all is_number parts

-- the last `n` elements
unfoldable pub last : ℕ → List Text → List Text
last n xs = drop (length xs - n) xs

-- the choice between the last two and the last three labels
unfoldable pub domain_of_labels : List Text → Text
unfolding last join text_eq
domain_of_labels labels =
    let last2 = join (lit ".") (last 2 labels) in
    if contains multi_suffixes last2 && leb 3 (length labels)
    then join (lit ".") (last 3 labels)
    else last2

-- `(host or "").strip().rstrip(".").lower()`, without a leading wildcard label
unfoldable pub normal_host : Text → Text
unfolding strip rstrip lower nat_eq starts_with
normal_host host =
    let h = lower (rstrip (λ c. c == b'.') (strip host)) in
    if starts_with h (lit "*.") then drop 2 h else h

unfoldable pub registrable_domain : Text → Text
unfolding normal_host split_on is_ipv4 is_label domain_of_labels starts_with nat_eq
registrable_domain host =
    let h = normal_host host in
    let labels = split_on b'.' h in
    if is_empty h || contains h b':' || starts_with h (lit "[")
    then []
    else if is_ipv4 h
    then []
    else if ltb (length labels) 2 || any (λ l. not (is_label l)) labels
    then []
    else domain_of_labels labels
