-- ===== src/Jobs/Evolution.antt =====
-- How the jobs table may change in one request: the status machine and what each row keeps.
use certheim.Base.{
  All, Bool, Bool-cases, List, Option, Text, [], any, arith, false, find, inl, inr, nat_eq, none,
  option_eq, refl, some, text_eq, true, update_where, ◌++◌, ◌∙◌, ◌∷◌, ◌≡◌,
}
use certheim.Jobs.Keys.{All-row_with_id, IsKeyed, IsKeyed-append, IsKeyed-update_where, row_with_id}
use certheim.Store.{Job, Status, status_eq}
use certheim.Crypto.{Openssl, verify_cert_matches_csr}

-- What a status can turn into over any number of requests. Only pending and issued jobs change.
abbrev pub can_become : Status → Status → Bool
can_become Status.pending _ = true
can_become Status.issued Status.issued = true
can_become Status.issued Status.expired = true
can_become Status.issued Status.revoked = true
can_become Status.failed Status.failed = true
can_become Status.cancelled Status.cancelled = true
can_become Status.expired Status.expired = true
can_become Status.revoked Status.revoked = true
can_become _ _ = false

pub can_become_refl : (s : Status) → can_become s s ≡ true
can_become_refl Status.pending = refl
can_become_refl _ = refl

can_become_trans :
    (a b c : Status) → can_become a b ≡ true → can_become b c ≡ true → can_become a c ≡ true
can_become_trans a b c h k = ground arith

module _ (ssl : Openssl) where
  -- the stored certificate carries the key of the job's own CSR
  abbrev pub IsMatching : Text → Option Text → Type 0
  IsMatching csr none = ⊥
  IsMatching csr (some cert) = verify_cert_matches_csr ssl csr cert ≡ true

  -- what a row of a given status holds
  abbrev pub Holds : Status → Text → Option Text → Type 0
  Holds Status.issued csr cert = IsMatching csr cert
  Holds Status.expired csr cert = IsMatching csr cert
  Holds Status.revoked csr cert = IsMatching csr cert
  Holds _ csr cert = cert ≡ none

  abbrev pub IsCertified : Job → Type 0
  IsCertified j = Holds j.status j.csr_pem j.cert_pem

  pub record Moves (j k : Job) : Type 0 where
    pub id_kept : k.id ≡ j.id
    pub csr_kept : k.csr_pem ≡ j.csr_pem
    pub requester_kept : k.requester_dn ≡ j.requester_dn
    pub host_kept : k.target_host ≡ j.target_host
    pub moved : can_become j.status k.status ≡ true
    pub certified : IsCertified j → IsCertified k

  -- no row is lost, each row moves as it may, and what is added is certified
  abbrev pub Evolves : List Job → List Job → Type 0
  Evolves [] ys = All IsCertified ys
  Evolves (x ∷ xs) [] = ⊥
  Evolves (x ∷ xs) (y ∷ ys) = Moves x y × Evolves xs ys

  pub Moves-refl : (j : Job) → Moves j j
  Moves-refl j = record {
    id_kept = refl;
    csr_kept = refl;
    requester_kept = refl;
    host_kept = refl;
    moved = can_become_refl j.status;
    certified = λ h. h;
  }

  -- A row that keeps its status, its CSR, its certificate and the rest moves.
  pub Moves-same :
      (j k : Job)
      → k.id ≡ j.id
      → k.csr_pem ≡ j.csr_pem
      → k.requester_dn ≡ j.requester_dn
      → k.target_host ≡ j.target_host
      → k.status ≡ j.status
      → k.cert_pem ≡ j.cert_pem
      → Moves j k
  Moves-same j k id csr requester host status cert = record {
    id_kept = id;
    csr_kept = csr;
    requester_kept = requester;
    host_kept = host;
    moved = rw status (can_become_refl j.status);
    certified = rw (status, csr, cert) (λ h. h);
  }

  Moves-trans : (j k l : Job) → Moves j k → Moves k l → Moves j l
  Moves-trans j k l a b = record {
    id_kept = b.id_kept ∙ a.id_kept;
    csr_kept = b.csr_kept ∙ a.csr_kept;
    requester_kept = b.requester_kept ∙ a.requester_kept;
    host_kept = b.host_kept ∙ a.host_kept;
    moved = can_become_trans j.status k.status l.status a.moved b.moved;
    certified = λ h. b.certified (a.certified h);
  }

  pub Evolves-refl : (js : List Job) → Evolves js js
  Evolves-refl [] = tt
  Evolves-refl (j ∷ js) = (Moves-refl j, Evolves-refl js)

  -- An update moves the table if it moves each row that it selects.
  pub Evolves-update_where :
      (p : Job → Bool) (f : Job → Job)
      → ((j : Job) → p j ≡ true → Moves j (f j))
      → (js : List Job) → Evolves js (update_where p f js)
  Evolves-update_where p f step [] = tt
  Evolves-update_where p f step (j ∷ js) = elim (Bool-cases (p j)) [
    | inl hit ↦ rw hit (step j hit, Evolves-update_where p f step js)
    | inr miss ↦ rw miss (Moves-refl j, Evolves-update_where p f step js)
  ]

  pub Evolves-append : (js : List Job) (new : Job) → IsCertified new → Evolves js (js ++ new ∷ [])
  Evolves-append [] new h = (h, tt)
  Evolves-append (j ∷ js) new h = (Moves-refl j, Evolves-append js new h)

  pub Evolves-append-All : (js news : List Job) → All IsCertified news → Evolves js (js ++ news)
  Evolves-append-All [] news h = h
  Evolves-append-All (j ∷ js) news h = (Moves-refl j, Evolves-append-All js news h)

  -- A certified table stays certified.
  pub IsCertified-Evolves :
      (js ks : List Job) → Evolves js ks → All IsCertified js → All IsCertified ks
  IsCertified-Evolves [] [] e h = tt
  IsCertified-Evolves [] (k ∷ ks) e h = (e.0, IsCertified-Evolves [] ks e.1 tt)
  IsCertified-Evolves (j ∷ js) [] e h = absurd e
  IsCertified-Evolves (j ∷ js) (k ∷ ks) e h = (e.0.certified h.0, IsCertified-Evolves js ks e.1 h.1)

  pub Evolves-trans : (js ks ls : List Job) → Evolves js ks → Evolves ks ls → Evolves js ls
  Evolves-trans [] ks ls a b = IsCertified-Evolves ks ls b a
  Evolves-trans (j ∷ js) [] ls a b = absurd a
  Evolves-trans (j ∷ js) (k ∷ ks) [] a b = absurd b
  Evolves-trans (j ∷ js) (k ∷ ks) (l ∷ ls) a b =
      (Moves-trans j k l a.0 b.0, Evolves-trans js ks ls a.1 b.1)

module _ (ssl : Openssl) where
  -- An update moves the table if it moves each row that it selects.
  pub Evolves-update-All :
      (p : Job → Bool) (f : Job → Job) (js : List Job)
      → All (λ j. p j ≡ true → Moves ssl j (f j)) js
      → Evolves ssl js (update_where p f js)
  Evolves-update-All p f [] step = tt
  Evolves-update-All p f (j ∷ js) step = elim (Bool-cases (p j)) [
    | inl hit ↦ rw hit (step.0 hit, Evolves-update-All p f js step.1)
    | inr miss ↦ rw miss (Moves-refl ssl j, Evolves-update-All p f js step.1)
  ]

  -- What one request may do to a keyed table.
  abbrev pub Steps : List Job → List Job → Type 0
  Steps js ks = IsKeyed js → IsKeyed ks × Evolves ssl js ks

  pub Steps-refl : (js : List Job) → Steps js js
  Steps-refl js h = (h, Evolves-refl ssl js)

  pub Steps-trans : (js ks ls : List Job) → Steps js ks → Steps ks ls → Steps js ls
  Steps-trans js ks ls a b h =
      let (hk, e) = a h in let (hl, e') = b hk in (hl, Evolves-trans ssl js ks ls e e')

  pub Steps-update_where :
      (p : Job → Bool) (f : Job → Job)
      → ((j : Job) → (f j).id ≡ j.id)
      → ((j : Job) → p j ≡ true → Moves ssl j (f j))
      → (js : List Job) → Steps js (update_where p f js)
  Steps-update_where p f same step js h =
      (IsKeyed-update_where p f same js h, Evolves-update_where ssl p f step js)

  -- An update by id moves the table if it moves the row that the id finds.
  pub Steps-update_found :
      (job_id : Text) (f : Job → Job) (row : Job)
      → ((j : Job) → (f j).id ≡ j.id)
      → Moves ssl row (f row)
      → (js : List Job) → find (row_with_id job_id) js ≡ some row
      → Steps js (update_where (row_with_id job_id) f js)
  Steps-update_found job_id f row same step js e h = (
    IsKeyed-update_where (row_with_id job_id) f same js h,
    Evolves-update-All (row_with_id job_id) f js
        (All-row_with_id (λ j. Moves ssl j (f j)) job_id row js h e step),
  )

  pub Steps-append :
      (new : Job) (js : List Job)
      → any (row_with_id new.id) js ≡ false
      → IsCertified ssl new
      → Steps js (js ++ new ∷ [])
  Steps-append new js fresh c h = (IsKeyed-append new js fresh h, Evolves-append ssl js new c)
