-- ===== src/Requests/CsrSubject.antt =====
-- _parse_csr_subject (backend/app.py): the CN and the names that `openssl req -text` prints.
use certheim.Base.{
  Bool, List, Option, Text, [], drop, false, has_infix, if◌then◌else◌, is_empty, is_space, lit,
  lstrip, nat_eq, none, not, option_eq, some, split_on, starts_with, strip, text_eq, true, ℕ, ◌&&◌,
  ◌++◌, ◌==◌, ◌||◌, ◌∷◌,
}
use certheim.Crypto.{Openssl}
use certheim.Store.{status_eq}

newline : ℕ
newline = 10

-- the characters before the first `,` or `/`
unfoldable until_separator : Text → Text
unfolding nat_eq
until_separator [] = []
until_separator (c ∷ s) =
    let rest = until_separator s in if c == b',' || c == b'/' then [] else c ∷ rest

-- `\s*=\s*([^,/]+)` at the start of a text, its group stripped. The blanks before the group may be
-- left to the group, since it is stripped.
unfoldable after_cn : Text → Option Text
unfolding until_separator strip lstrip nat_eq
after_cn s = elim (lstrip is_space s) [
  | [] ↦ none
  | c ∷ t ↦
      if c == b'=' && not (is_empty (until_separator t))
      then some (strip (until_separator t))
      else none
]

-- `re.search(r"CN\s*=\s*([^,/]+)", s)`
unfoldable search_cn : Text → Option Text
unfolding after_cn
search_cn [] = none
search_cn (c ∷ s) =
    let rest = search_cn s in
    if starts_with (c ∷ s) (lit "CN")
    then elim (after_cn (drop 1 s)) [ none ↦ rest | some cn ↦ some cn ]
    else rest

-- the name in one part of the line of alternative names
unfoldable san_of : Text → List Text
unfolding strip
san_of part =
    if starts_with part (lit "DNS:")
    then strip (drop 4 part) ∷ []
    else if starts_with part (lit "IP Address:")
    then strip (drop 11 part) ∷ []
    else if starts_with part (lit "IP:")
    then strip (drop 3 part) ∷ []
    else []

unfoldable sans_of : List Text → List Text
unfolding san_of strip
sans_of [] = []
sans_of (part ∷ parts) = san_of (strip part) ++ sans_of parts

-- the CN of a line, where it is the subject's and has one
unfoldable line_cn : Text → Text → Text
unfolding search_cn
line_cn stripped cn =
    if starts_with stripped (lit "Subject:")
    then elim (search_cn stripped) [ none ↦ cn | some found ↦ found ]
    else cn

-- the loop over the lines: the CN, the names and `capture_san` so far
unfoldable read_lines : List Text → Text → List Text → Bool → Text × List Text
unfolding line_cn sans_of strip split_on
read_lines [] cn sans capture = (cn, sans)
read_lines (line ∷ lines) cn sans capture =
    let stripped = strip line in
    let cn' = line_cn stripped cn in
    let header = read_lines lines cn' sans true in
    let names = read_lines lines cn' (sans ++ sans_of (split_on b',' stripped)) false in
    let other = read_lines lines cn' sans capture in
    if has_infix (lit "X509v3 Subject Alternative Name:") stripped
    then header
    else if capture && not (is_empty stripped)
    then names
    else other

unfoldable pub parse_csr_subject : Openssl → Text → Text × List Text
unfolding read_lines newline split_on
parse_csr_subject ssl csr_pem = elim (ssl.csr_print csr_pem) [
  | none ↦ ([], [])
  | some out ↦ read_lines (split_on newline out) [] [] false
]
