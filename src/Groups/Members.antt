-- ===== src/Groups/Members.antt =====
-- Lemmas on the memberships of a group and their primary key.
use certheim.Base.{
  Bool, Bool-cases, List, Option-cases, Text, [], all, any, arith, count, false, filter, find, inl,
  inr, nat_eq, not, option_eq, refl, some, subst, text_eq, true, update_where, ℕ, ◌&&◌, ◌++◌, ◌+◌,
  ◌==◌, ◌||◌, ◌∷◌, ◌≡◌, ◌≢◌, ◌≤◌, ◌⊎◌,
}
use certheim.Store.{Membership, Role, World, status_eq}
use certheim.Groups.{group_role, in_group, is_owner_role, owns, set_role}

-- No person is in a group twice: the PRIMARY KEY of user_groups.
abbrev pub IsKeyedMembers : List Membership → Type 0
IsKeyedMembers [] = Unit
IsKeyedMembers (m ∷ ms) = (any (in_group m.user_dn m.group_id) ms ≡ false) × IsKeyedMembers ms

-- A group with an owner.
abbrev pub HasOwner : ℕ → List Membership → Type 0
HasOwner g ms = 1 ≤ count (owns g) ms

count_absent : (p : Membership → Bool) (ms : List Membership) → any p ms ≡ false → count p ms ≡ 0
count_absent p [] h = refl
count_absent p (m ∷ ms) h = ground (arith, count_absent p ms (ground arith))

count-in_group :
    (dn : Text) (g : ℕ) (ms : List Membership) → IsKeyedMembers ms → count (in_group dn g) ms ≤ 1
count-in_group dn g [] h = omega arith
count-in_group dn g (m ∷ ms) h = elim (Bool-cases (in_group dn g m)) [
  | inl hit ↦ ground (arith, count_absent (in_group dn g) ms (ground arith))
  | inr miss ↦ ground (arith, count-in_group dn g ms h.1)
]

count-filter :
    (p q : Membership → Bool) (ms : List Membership)
    → count p ms ≤ count p (filter (λ m. not (q m)) ms) + count q ms
count-filter p q [] = omega arith
count-filter p q (m ∷ ms) = ground (arith, count-filter p q ms)

count-update_where :
    (p q : Membership → Bool) (f : Membership → Membership) (ms : List Membership)
    → count p ms ≤ count p (update_where q f ms) + count q ms
count-update_where p q f [] = omega arith
count-update_where p q f (m ∷ ms) = ground (arith, count-update_where p q f ms)

-- A deletion of rows that `p` does not count keeps the count.
count-filter_other :
    (p q : Membership → Bool) (ms : List Membership)
    → all (λ m. not (p m && q m)) ms ≡ true
    → count p (filter (λ m. not (q m)) ms) ≡ count p ms
count-filter_other p q [] h = refl
count-filter_other p q (m ∷ ms) h = ground (arith, count-filter_other p q ms (ground arith))

-- An update to rows that `p` counts loses none.
count-update_into :
    (p q : Membership → Bool) (f : Membership → Membership) (ms : List Membership)
    → ((m : Membership) → p m ≡ true → q m ≡ true → p (f m) ≡ true)
    → count p ms ≤ count p (update_where q f ms)
count-update_into p q f [] h = omega arith
count-update_into p q f (m ∷ ms) h = ground (arith, h m, count-update_into p q f ms h)

absent_member :
    (dn : Text) (g h : ℕ) (ms : List Membership)
    → any (in_group dn g) ms ≡ false
    → all (λ m. not (owns h m && in_group dn g m)) ms ≡ true
absent_member dn g h [] e = refl
absent_member dn g h (m ∷ ms) e = ground (arith, absent_member dn g h ms (ground arith))

-- Under the key, a row that was found to be no owner's is the only one of its person and group.
found_member :
    (dn : Text) (g h : ℕ) (row : Membership) (ms : List Membership)
    → IsKeyedMembers ms
    → find (in_group dn g) ms ≡ some row
    → is_owner_role row.role ≡ false
    → all (λ m. not (owns h m && in_group dn g m)) ms ≡ true
found_member dn g h row [] k e o = refl
found_member dn g h row (m ∷ ms) k e o = elim (Bool-cases (in_group dn g m)) [
  | inl hit ↦
      let same : row ≡ m = ground arith in
      ground (arith, same, absent_member dn g h ms (ground arith))
  | inr miss ↦ ground (arith, found_member dn g h row ms k.1 (ground arith) o)
]

any-filter :
    (p q : Membership → Bool) (ms : List Membership)
    → any q ms ≡ false
    → any q (filter p ms) ≡ false
any-filter p q [] h = refl
any-filter p q (m ∷ ms) h = ground (arith, any-filter p q ms (ground arith))

pub IsKeyedMembers-filter :
    (p : Membership → Bool) (ms : List Membership)
    → IsKeyedMembers ms
    → IsKeyedMembers (filter p ms)
IsKeyedMembers-filter p [] h = tt
IsKeyedMembers-filter p (m ∷ ms) h = elim (Bool-cases (p m)) [
  | inl hit ↦
      rw hit (any-filter p (in_group m.user_dn m.group_id) ms h.0, IsKeyedMembers-filter p ms h.1)
  | inr miss ↦ rw miss (IsKeyedMembers-filter p ms h.1)
]

any-set_role :
    (q : Membership → Bool) (role : Role) (dn : Text) (g : ℕ) (ms : List Membership)
    → any (in_group dn g) (update_where q (set_role role) ms) ≡ any (in_group dn g) ms
any-set_role q role dn g [] = refl
any-set_role q role dn g (m ∷ ms) = ground (arith, any-set_role q role dn g ms)

pub IsKeyedMembers-set_role :
    (q : Membership → Bool) (role : Role) (ms : List Membership)
    → IsKeyedMembers ms
    → IsKeyedMembers (update_where q (set_role role) ms)
IsKeyedMembers-set_role q role [] h = tt
IsKeyedMembers-set_role q role (m ∷ ms) h =
    ground
      (arith, any-set_role q role m.user_dn m.group_id ms, IsKeyedMembers-set_role q role ms h.1)

any-append_one :
    (q : Membership → Bool) (ms : List Membership) (m : Membership)
    → any q (ms ++ m ∷ []) ≡ (any q ms || q m)
any-append_one q [] m = ground arith
any-append_one q (n ∷ ms) m = ground (arith, any-append_one q ms m)

pub IsKeyedMembers-append_one :
    (ms : List Membership) (m : Membership)
    → any (in_group m.user_dn m.group_id) ms ≡ false
    → IsKeyedMembers ms
    → IsKeyedMembers (ms ++ m ∷ [])
IsKeyedMembers-append_one [] m fresh h = (refl, tt)
IsKeyedMembers-append_one (n ∷ ms) m fresh h = (
  ground (arith, any-append_one (in_group n.user_dn n.group_id) ms m),
  IsKeyedMembers-append_one ms m (ground arith) h.1,
)

pub count-append_one :
    (p : Membership → Bool) (ms : List Membership) (m : Membership)
    → count p ms ≤ count p (ms ++ m ∷ [])
count-append_one p [] m = omega arith
count-append_one p (n ∷ ms) m = ground (arith, count-append_one p ms m)

-- What a request on the groups keeps: the key, and an owner of a group that has one.
abbrev pub KeepsOwner : ℕ → List Membership → Type 0
KeepsOwner h ms = IsKeyedMembers ms × HasOwner h ms

pub group_role-found :
    (dn : Text) (g : ℕ) (w : World) (role : Role)
    → group_role dn g w ≡ some role
    → (m : Membership) × (find (in_group dn g) w.members ≡ some m) × (m.role ≡ role)
unfolding group_role
group_role-found dn g w role e = elim (Option-cases (find (in_group dn g) w.members)) [
  | inl missing ↦ absurd (ground arith)
  | inr (m, found) ↦ (m, found, ground arith)
]

-- A row may leave the owners of a group if it is no owner, or if another owner is left.
abbrev pub IsSafe : ℕ → Role → List Membership → Type 0
IsSafe g target ms = (is_owner_role target ≡ false) ⊎ (2 ≤ count (owns g) ms)

other_group :
    (dn : Text) (g h : ℕ) (ms : List Membership)
    → g ≢ h
    → all (λ m. not (owns h m && in_group dn g m)) ms ≡ true
other_group dn g h [] e = refl
other_group dn g h (m ∷ ms) e = ground (arith, other_group dn g h ms e)

pub delete-HasOwner :
    (h g : ℕ) (dn : Text) (m : Membership) (ms : List Membership)
    → IsKeyedMembers ms
    → find (in_group dn g) ms ≡ some m
    → IsSafe g m.role ms
    → HasOwner h ms
    → HasOwner h (filter (λ n. not (in_group dn g n)) ms)
delete-HasOwner h g dn m ms k found safe own = elim (Bool-cases (g == h)) [
  | inr other ↦ omega (
    arith,
    count-filter_other (owns h) (in_group dn g) ms (other_group dn g h ms (λ e. ground arith)),
  )
  | inl same ↦ elim safe [
    | inl plain ↦ omega (
      arith,
      count-filter_other (owns h) (in_group dn g) ms (found_member dn g h m ms k found plain),
    )
    | inr two ↦
        let e : g ≡ h = ground arith in
        let two' : 2 ≤ count (owns h) ms = subst (λ x. 2 ≤ count (owns x) ms) e two in
        omega (arith, count-filter (owns h) (in_group dn g) ms, count-in_group dn g ms k)
  ]
]

pub update-HasOwner :
    (h g : ℕ) (dn : Text) (role : Role) (ms : List Membership)
    → IsKeyedMembers ms
    → (is_owner_role role ≡ true) ⊎ (2 ≤ count (owns g) ms)
    → HasOwner h ms
    → HasOwner h (update_where (in_group dn g) (set_role role) ms)
update-HasOwner h g dn role ms k safe own = elim (Bool-cases (g == h)) [
  | inr other ↦
      omega (
        arith,
        count-update_into (owns h) (in_group dn g) (set_role role) ms (λ m a b. ground arith),
      )
  | inl same ↦ elim safe [
    | inl promoted ↦ omega (
      arith,
      count-update_into (owns h) (in_group dn g) (set_role role) ms (λ m a b. ground arith),
    )
    | inr two ↦
        let e : g ≡ h = ground arith in
        let two' : 2 ≤ count (owns h) ms = subst (λ x. 2 ≤ count (owns x) ms) e two in
        omega (
          arith,
          count-update_where (owns h) (in_group dn g) (set_role role) ms,
          count-in_group dn g ms k,
        )
  ]
]
