-- ===== src/Subject/Lines.antt =====
-- Theorems on render_conf (backend/csr_subject.py).
use mathlib.Core.List.{append_assoc}
use certheim.Base.{
  All, Bool, Bool-cases, List, Text, [], ap, arith, contains, contains-append, false, filter,
  if-either, if◌then◌else◌, inl, inr, is_empty, join, lit, lower, map, nat_eq, not, option_eq, refl,
  split_on, strip, suc, take, text_eq, true, zero, ℕ, ◌&&◌, ◌++◌, ◌==◌, ◌||◌, ◌∷◌, ◌≡◌,
}
use certheim.Subject.{
  SubjectConfig, clean_config, clean_custom, clean_dn_field, clean_san, conf_lines, custom_line,
  dedup, is_allowed, is_dn_field_allowed, is_domain_allowed, is_san_allowed, on_one_line,
  render_conf, sanitize,
}

-- A text without a line break.
IsLine : Text → Type 0
IsLine s = contains s 10 ≡ false

split_line : (s rest : Text) → IsLine s → split_on 10 (s ++ 10 ∷ rest) ≡ s ∷ split_on 10 rest
unfolding split_on nat_eq IsLine
split_line [] rest h = refl
split_line (c ∷ s) rest h = ground (arith, split_line s rest)

split_lines :
    (l : Text) (ls : List Text)
    → All IsLine (l ∷ ls)
    → split_on 10 (join (10 ∷ []) (l ∷ ls) ++ 10 ∷ []) ≡ (l ∷ ls) ++ [] ∷ []
unfolding join split_on
split_lines l [] h = split_line l [] h.0
split_lines l (m ∷ ls) h =
    let rest = join (10 ∷ []) (m ∷ ls) in
    rw
      (
        append_assoc (l ++ 10 ∷ []) rest (10 ∷ []),
        append_assoc l (10 ∷ []) (rest ++ 10 ∷ []),
        split_line l (rest ++ 10 ∷ []) h.0,
        split_lines m ls h.1,
      )
      refl

All-append : (P : Text → Type 0) (xs ys : List Text) → All P xs → All P ys → All P (xs ++ ys)
All-append P [] ys h k = k
All-append P (x ∷ xs) ys h k = (h.0, All-append P xs ys h.1 k)

All-take : (P : Text → Type 0) (n : ℕ) (xs : List Text) → All P xs → All P (take n xs)
All-take P zero xs h = tt
All-take P (suc n) [] h = tt
All-take P (suc n) (x ∷ xs) h = (h.0, All-take P n xs h.1)

All-map :
    (P : Text → Type 0) (f : Text → Text)
    → ((x : Text) → P x → P (f x))
    → (xs : List Text) → All P xs
    → All P (map f xs)
All-map P f step [] h = tt
All-map P f step (x ∷ xs) h = (step x h.0, All-map P f step xs h.1)

IsLine-take : (n : ℕ) (s : Text) → IsLine s → IsLine (take n s)
unfolding IsLine
IsLine-take zero s h = refl
IsLine-take (suc n) [] h = refl
IsLine-take (suc n) (c ∷ s) h = ground (arith, IsLine-take n s)

IsLine-filter : (p : ℕ → Bool) → p 10 ≡ false → (s : Text) → IsLine (filter p s)
unfolding IsLine nat_eq
IsLine-filter p no_break [] = refl
IsLine-filter p no_break (c ∷ s) = elim (Bool-cases (p c)) [
  | inr drop_it ↦ rw drop_it (IsLine-filter p no_break s)
  | inl keep ↦ elim (Bool-cases (10 == c)) [
    | inl break ↦ let same : 10 ≡ c = ground arith in absurd (ground (arith, ap p same))
    | inr other ↦ rw keep (ground (arith, IsLine-filter p no_break s))
  ]
]

no_break : (domain : Bool) → (if domain then is_domain_allowed 10 else is_allowed 10) ≡ false
unfolding is_allowed is_domain_allowed
no_break true = refl
no_break false = refl

sanitize-IsLine : (domain : Bool) (s : Text) → IsLine (sanitize domain s)
unfolding sanitize
sanitize-IsLine domain s = IsLine-take 128 _ (
    IsLine-filter (λ c. if domain then is_domain_allowed c else is_allowed c) (no_break domain)
      (strip (on_one_line s)))

clean_san-IsLine : (s : Text) → IsLine (clean_san s)
unfolding clean_san is_san_allowed
clean_san-IsLine s = IsLine-take 128 _ (IsLine-filter is_san_allowed refl (strip (on_one_line s)))

dedup-IsLine :
    (clean : Text → Text)
    → ((s : Text) → IsLine (clean s))
    → (items seen : List Text) → All IsLine (dedup clean items seen)
unfolding dedup
dedup-IsLine clean lines [] seen = tt
dedup-IsLine clean lines (item ∷ items) seen =
    let s = clean item in
    if-either (λ (x : List Text). All IsLine x) (is_empty s || contains seen (lower s)) _ _
      (dedup-IsLine clean lines items seen)
      (lines item, dedup-IsLine clean lines items (lower s ∷ seen))

IsLine-append : (s t : Text) → IsLine s → IsLine t → IsLine (s ++ t)
unfolding IsLine
IsLine-append s t h k = rw (contains-append s t 10, h, k) refl

plain_tag : IsLine (lit "XDN=")
unfolding IsLine nat_eq
plain_tag = refl

plain_colon : IsLine (b':' ∷ [])
unfolding IsLine nat_eq
plain_colon = refl

clean_dn_field-IsLine : (s : Text) → IsLine (clean_dn_field s)
unfolding clean_dn_field is_dn_field_allowed
clean_dn_field-IsLine s = IsLine-take 64 _ (IsLine-filter is_dn_field_allowed refl (strip s))

custom_line-IsLine : (f v : Text) → IsLine f → IsLine v → IsLine (custom_line (f, v))
custom_line-IsLine f v h k =
    IsLine-append (lit "XDN=") (f ++ b':' ∷ v) plain_tag
      (IsLine-append f (b':' ∷ v) h (IsLine-append (b':' ∷ []) v plain_colon k))

custom-IsLine : (items : List (Text × Text)) → All IsLine (map custom_line (clean_custom items))
unfolding clean_custom clean_dn_field
custom-IsLine [] = tt
custom-IsLine ((field, value) ∷ items) =
    let f = clean_dn_field field in
    let v = sanitize false value in
    if-either (λ (x : List (Text × Text)). All IsLine (map custom_line x))
      (not (is_empty f) && not (is_empty v)) ((f, v) ∷ clean_custom items) (clean_custom items)
      (
        custom_line-IsLine f v (clean_dn_field-IsLine field) (sanitize-IsLine false value),
        custom-IsLine items,
      )
      (custom-IsLine items)

map-take :
    (n : ℕ) (items : List (Text × Text))
    → map custom_line (take n items) ≡ take n (map custom_line items)
map-take zero items = refl
map-take (suc n) [] = refl
map-take (suc n) (x ∷ items) = ap (λ (l : List Text). custom_line x ∷ l) (map-take n items)

tagged_lines :
    (tag : Text)
    → IsLine tag
    → (xs : List Text) → All IsLine xs
    → All IsLine (map (λ x. tag ++ x) (take 16 xs))
tagged_lines tag plain xs h =
    All-map IsLine (λ x. tag ++ x) (λ x. IsLine-append tag x plain) (take 16 xs)
      (All-take IsLine 16 xs h)

conf_lines-IsLine : (cfg : SubjectConfig) → All IsLine (conf_lines (clean_config cfg))
unfolding IsLine nat_eq
conf_lines-IsLine cfg =
    let tagged =
      λ (tag : Text) (plain : IsLine tag) (s : Text) (h : IsLine s). IsLine-append tag s plain h in
    (
      tagged (lit "C=") refl (sanitize false cfg.country) (sanitize-IsLine false cfg.country),
      (
        tagged (lit "ST=") refl (sanitize false cfg.state) (sanitize-IsLine false cfg.state),
        (
          tagged (lit "L=") refl (sanitize false cfg.locality) (sanitize-IsLine false cfg.locality),
          (
            tagged (lit "O=") refl (sanitize false cfg.org) (sanitize-IsLine false cfg.org),
            (All-append IsLine (map (λ ou. lit "OU=" ++ ou) (clean_config cfg).ous) _
                (tagged_lines (lit "OU=") refl (dedup (sanitize false) cfg.ous [])
                  (dedup-IsLine (sanitize false) (sanitize-IsLine false) cfg.ous []))
                (
                  tagged (lit "DOMAIN_SUFFIX=") refl (sanitize true cfg.domain_suffix)
                      (sanitize-IsLine true cfg.domain_suffix),
                  All-append IsLine
                      (map (λ d. lit "DOMAIN_SUFFIX_ALT=" ++ d) (clean_config cfg).domain_suffixes)
                      _
                      (tagged_lines (lit "DOMAIN_SUFFIX_ALT=") refl
                        (dedup (sanitize true) cfg.domain_suffixes [])
                        (dedup-IsLine (sanitize true) (sanitize-IsLine true) cfg.domain_suffixes
                          []))
                      (All-append IsLine (map custom_line (clean_config cfg).custom_dn) _
                        (rw (map-take 16 (clean_custom cfg.custom_dn)) (
                          All-take IsLine 16 (map custom_line (clean_custom cfg.custom_dn))
                            (custom-IsLine cfg.custom_dn)))
                        (tagged_lines (lit "XSAN=") refl (dedup clean_san cfg.extra_sans [])
                          (dedup-IsLine clean_san clean_san-IsLine cfg.extra_sans []))),
                )),
          ),
        ),
      ),
    )

-- Split at its line ends, the rendered configuration is exactly the lines of the cleaned
-- configuration and a last empty piece.
pub render_conf-lines :
    (cfg : SubjectConfig) → split_on 10 (render_conf cfg) ≡ conf_lines (clean_config cfg) ++ [] ∷ []
unfolding render_conf
render_conf-lines cfg =
    let c = clean_config cfg in
    let more =
      (lit "ST=" ++ c.state)
      ∷ (lit "L=" ++ c.locality)
      ∷ (lit "O=" ++ c.org)
      ∷ (map (λ ou. lit "OU=" ++ ou) c.ous
          ++ ((lit "DOMAIN_SUFFIX=" ++ c.domain_suffix)
              ∷ (map (λ d. lit "DOMAIN_SUFFIX_ALT=" ++ d) c.domain_suffixes
                  ++ (map custom_line c.custom_dn ++ map (λ s. lit "XSAN=" ++ s) c.extra_sans)))) in
    split_lines (lit "C=" ++ c.country) more (conf_lines-IsLine cfg)
