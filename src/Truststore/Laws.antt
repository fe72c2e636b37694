-- ===== src/Truststore/Laws.antt =====
-- Theorems on add_certs and build_bundle (backend/truststore.py).
use certheim.Base.{
  All, Bool, Bool-cases, List, Option, Option-cases, Text, [], all, any, arith, count, false,
  filter, inl, inr, map, none, refl, some, subst, sym, text_eq, true, ◌&&◌, ◌++◌, ◌||◌, ◌∷◌, ◌≡◌,
}
use certheim.Truststore.{
  Added, CaInfo, ParsedCa, Trust, TrustCert, add_certs, add_parsed, bundle_rows, has_fingerprint,
  insert_cert, is_root, note_added, note_duplicate, parse_all, sort_certs, sorts_before,
  stored_cert,
}

-- No two certificates share a fingerprint.
abbrev pub IsDistinct : List TrustCert → Type 0
IsDistinct [] = Unit
IsDistinct (c ∷ cs) = (any (has_fingerprint c.fingerprint) cs ≡ false) × IsDistinct cs

any-append_cert :
    (p : TrustCert → Bool) (cs : List TrustCert) (c : TrustCert)
    → any p (cs ++ c ∷ []) ≡ any p cs || p c
any-append_cert p [] c = ground arith
any-append_cert p (d ∷ cs) c = ground (arith, any-append_cert p cs c)

IsDistinct-append :
    (cs : List TrustCert) (c : TrustCert)
    → any (has_fingerprint c.fingerprint) cs ≡ false
    → IsDistinct cs
    → IsDistinct (cs ++ c ∷ [])
IsDistinct-append [] c fresh h = (refl, tt)
IsDistinct-append (d ∷ cs) c fresh h = (
  ground (arith, any-append_cert (has_fingerprint d.fingerprint) cs c),
  IsDistinct-append cs c (ground arith) h.1,
)

certs-note_added : (fp : Text) (x : Trust × Added) → (note_added fp x).0 ≡ x.0
certs-note_added fp (t, a) = refl

certs-note_duplicate : (fp : Text) (x : Trust × Added) → (note_duplicate fp x).0 ≡ x.0
certs-note_duplicate fp (t, a) = refl

-- every fingerprint of the upload is stored
abbrev AllStored : List ParsedCa → Trust → Type 0
AllStored ps t = All (λ p. any (has_fingerprint p.fingerprint) t.certs ≡ true) ps

add_parsed-IsDistinct :
    (name : Text) (ps : List ParsedCa) (t : Trust)
    → IsDistinct t.certs
    → IsDistinct (add_parsed name ps t).0.certs
unfolding add_parsed
add_parsed-IsDistinct name [] t h = h
add_parsed-IsDistinct name (p ∷ ps) t h =
    elim (Bool-cases (any (has_fingerprint p.fingerprint) t.certs)) [
      | inl old ↦
          rw (old, add_parsed, certs-note_duplicate p.fingerprint (add_parsed name ps t))
            (add_parsed-IsDistinct name ps t h)
      | inr new ↦
          rw
            (
              new,
              add_parsed,
              certs-note_added p.fingerprint (add_parsed name ps (stored_cert name p t)),
            )
            (add_parsed-IsDistinct name ps (stored_cert name p t)
              (IsDistinct-append t.certs _ new h))
    ]

any-stored :
    (fp : Text) (name : Text) (ps : List ParsedCa) (t : Trust)
    → any (has_fingerprint fp) t.certs ≡ true
    → any (has_fingerprint fp) (add_parsed name ps t).0.certs ≡ true
unfolding add_parsed
any-stored fp name [] t h = h
any-stored fp name (p ∷ ps) t h = elim (Bool-cases (any (has_fingerprint p.fingerprint) t.certs)) [
  | inl old ↦
      rw (old, add_parsed, certs-note_duplicate p.fingerprint (add_parsed name ps t))
        (any-stored fp name ps t h)
  | inr new ↦
      rw
        (
          new,
          add_parsed,
          certs-note_added p.fingerprint (add_parsed name ps (stored_cert name p t)),
        )
        (any-stored fp name ps (stored_cert name p t)
          (rw (any-append_cert (has_fingerprint fp) t.certs _, h) refl))
]

own_fingerprint :
    (name : Text) (p : ParsedCa) (t : Trust)
    → any (has_fingerprint p.fingerprint) (stored_cert name p t).certs ≡ true
unfolding text_eq
own_fingerprint name p t =
    rw (any-append_cert (has_fingerprint p.fingerprint) t.certs _) (ground arith)

add_parsed-AllStored :
    (name : Text) (ps : List ParsedCa) (t : Trust) → AllStored ps (add_parsed name ps t).0
unfolding add_parsed
add_parsed-AllStored name [] t = tt
add_parsed-AllStored name (p ∷ ps) t =
    elim (Bool-cases (any (has_fingerprint p.fingerprint) t.certs)) [
      | inl old ↦
          let step : (add_parsed name (p ∷ ps) t).0 ≡ (add_parsed name ps t).0 =
            rw (old, add_parsed) (certs-note_duplicate p.fingerprint (add_parsed name ps t)) in
          subst (AllStored (p ∷ ps)) (sym step)
            (any-stored p.fingerprint name ps t old, add_parsed-AllStored name ps t)
      | inr new ↦
          let t' = stored_cert name p t in
          let step : (add_parsed name (p ∷ ps) t).0 ≡ (add_parsed name ps t').0 =
            rw (new, add_parsed) (certs-note_added p.fingerprint (add_parsed name ps t')) in
          subst (AllStored (p ∷ ps)) (sym step) (
            any-stored p.fingerprint name ps t' (own_fingerprint name p t),
            add_parsed-AllStored name ps t',
          )
    ]

add_parsed-again :
    (name : Text) (ps : List ParsedCa) (t : Trust)
    → AllStored ps t
    → add_parsed name ps t ≡ (t, record { added = []; duplicates = map (λ p. p.fingerprint) ps })
unfolding add_parsed
add_parsed-again name [] t h = refl
add_parsed-again name (p ∷ ps) t h = rw (h.0, add_parsed, add_parsed-again name ps t h.1) refl

add_certs-unread :
    (read : Text → Option CaInfo) (name : Text) (blocks : List Text) (t : Trust)
    → parse_all read blocks ≡ none
    → add_certs read name blocks t ≡ (t, none)
unfolding add_certs
add_certs-unread read name blocks t unread = rw (unread, add_certs) refl

add_certs-parsed :
    (read : Text → Option CaInfo) (name : Text) (blocks : List Text) (t : Trust)
    (ps : List ParsedCa)
    → parse_all read blocks ≡ some ps
    → add_certs read name blocks t ≡ ((add_parsed name ps t).0, some (add_parsed name ps t).1)
unfolding add_certs
add_certs-parsed read name blocks t ps parsed = rw (parsed, add_certs) refl

pub add_certs-again :
    (read : Text → Option CaInfo) (name name' : Text) (blocks : List Text) (t : Trust) (a : Added)
    → IsDistinct t.certs
    → (add_certs read name blocks t).1 ≡ some a
    → IsDistinct (add_certs read name blocks t).0.certs
      × ((add_certs read name' blocks (add_certs read name blocks t).0).0
          ≡ (add_certs read name blocks t).0)
      × ((b : Added) × ((add_certs read name' blocks (add_certs read name blocks t).0).1 ≡ some b)
          × (b.added ≡ []))
add_certs-again read name name' blocks t a distinct done =
    elim (Option-cases (parse_all read blocks)) [
      | inl unread ↦ absurd (ground (arith, add_certs-unread read name blocks t unread))
      | inr (ps, parsed) ↦
          let t' = (add_parsed name ps t).0 in
          let again = add_parsed-again name' ps t' (add_parsed-AllStored name ps t) in
          rw
            (
              add_certs-parsed read name blocks t ps parsed,
              add_certs-parsed read name' blocks t' ps parsed,
              again,
            )
            (add_parsed-IsDistinct name ps t distinct, refl, (_, refl, refl))
    ]

count-insert_cert :
    (p : TrustCert → Bool) (c : TrustCert) (ds : List TrustCert)
    → count p (insert_cert c ds) ≡ count p (c ∷ ds)
unfolding insert_cert
count-insert_cert p c [] = refl
count-insert_cert p c (d ∷ ds) = ground (arith, count-insert_cert p c ds)

count-sort_certs :
    (p : TrustCert → Bool) (cs : List TrustCert) → count p (sort_certs cs) ≡ count p cs
unfolding sort_certs
count-sort_certs p [] = refl
count-sort_certs p (c ∷ cs) =
    ground (arith, count-insert_cert p c (sort_certs cs), count-sort_certs p cs)

-- after a root only roots
abbrev pub IsChain : List TrustCert → Type 0
IsChain [] = Unit
IsChain (c ∷ cs) = (is_root c.role ≡ true → all (λ d. is_root d.role) cs ≡ true) × IsChain cs

all-insert_cert :
    (p : TrustCert → Bool) (c : TrustCert) (ds : List TrustCert)
    → all p (insert_cert c ds) ≡ (p c && all p ds)
unfolding insert_cert
all-insert_cert p c [] = refl
all-insert_cert p c (d ∷ ds) = ground (arith, all-insert_cert p c ds)

root-sorts :
    (c d : TrustCert) → sorts_before c d ≡ true → is_root c.role ≡ true → is_root d.role ≡ true
unfolding sorts_before
root-sorts c d h root_c = ground arith

sorts-root :
    (c d : TrustCert) → sorts_before c d ≡ false → is_root d.role ≡ true → is_root c.role ≡ true
unfolding sorts_before
sorts-root c d h root_d = ground arith

insert_cert-IsChain :
    (c : TrustCert) (ds : List TrustCert) → IsChain ds → IsChain (insert_cert c ds)
unfolding insert_cert
insert_cert-IsChain c [] h = ((λ r. refl), tt)
insert_cert-IsChain c (d ∷ ds) h = elim (Bool-cases (sorts_before c d)) [
  | inl first ↦
      rw first ((λ r. let root_d = root-sorts c d first r in ground (arith, h.0 root_d)), h)
  | inr later ↦ rw later (
    (λ r.
        ground (arith, all-insert_cert (λ x. is_root x.role) c ds, sorts-root c d later r, h.0 r)),
    insert_cert-IsChain c ds h.1,
  )
]

sort_certs-IsChain : (cs : List TrustCert) → IsChain (sort_certs cs)
unfolding sort_certs
sort_certs-IsChain [] = tt
sort_certs-IsChain (c ∷ cs) = insert_cert-IsChain c (sort_certs cs) (sort_certs-IsChain cs)

-- The rows of the bundle are the enabled certificates, each as often as it is stored, with every
-- intermediate before every root.
pub bundle_rows-IsChain :
    (t : Trust) (p : TrustCert → Bool)
    → IsChain (bundle_rows t)
      × (count p (bundle_rows t) ≡ count p (filter (λ c. c.enabled) t.certs))
bundle_rows-IsChain t p = (
  sort_certs-IsChain (filter (λ c. c.enabled) t.certs),
  count-sort_certs p (filter (λ c. c.enabled) t.certs),
)
