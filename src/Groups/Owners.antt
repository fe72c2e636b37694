-- ===== src/Groups/Owners.antt =====
-- Theorems on the owners of a group (backend/routes_groups.py).
use certheim.Base.{
  Bool, Bool-cases, List, Option-cases, Text, [], all, any, arith, count, false, find, inl, inr,
  is_empty, leb, lower, none, not, refl, strip, subst, sym, true, ℕ, ◌&&◌, ◌∷◌, ◌≡◌, ◌≤◌, ◌⊎◌,
}
use certheim.Store.{Membership, Request, Role, World, group_by_id}
use certheim.Groups.{
  change_role, group_owner_add_member, group_owner_remove_member, group_owner_set_member_role,
  group_role, has_email, in_group, is_owner_role, owns, removal_refusal, role_of_text, same_role,
}
use certheim.Groups.Members.{
  IsKeyedMembers-append_one, IsKeyedMembers-filter, IsKeyedMembers-set_role, IsSafe, KeepsOwner,
  count-append_one, delete-HasOwner, group_role-found, update-HasOwner,
}

removal_refusal-IsSafe :
    (r : Request) (g : ℕ) (dn : Text) (target : Role) (w : World)
    → r.is_admin ≡ false
    → removal_refusal r g dn target w ≡ none
    → IsSafe g target w.members
unfolding removal_refusal
removal_refusal-IsSafe r g dn target w plain h = elim (Bool-cases (is_owner_role target)) [
  | inr other ↦ inl other
  | inl owner_row ↦ inr (ground arith)
]

remove-KeepsOwner :
    (r : Request) (g h : ℕ) (raw : Text) (w : World)
    → r.is_admin ≡ false
    → KeepsOwner h w.members
    → KeepsOwner h (group_owner_remove_member r g raw w).0.members
unfolding group_owner_remove_member
remove-KeepsOwner r g h raw w plain k = elim (Option-cases (group_by_id g w)) [
  | inl missing ↦ ground (arith, k)
  | inr (group, there) ↦ elim (Bool-cases (is_empty (strip raw))) [
    | inl blank ↦ ground (arith, k)
    | inr given ↦ elim (Option-cases (group_role (strip raw) g w)) [
      | inl stranger ↦ ground (arith, k)
      | inr (target, role_found) ↦ elim (Option-cases (removal_refusal r g (strip raw) target w)) [
        | inr (c, refused) ↦ ground (arith, k)
        | inl allowed ↦
            let (m, found, same) = group_role-found (strip raw) g w target role_found in
            let safe = removal_refusal-IsSafe r g (strip raw) target w plain allowed in
            rw (there, given, role_found, allowed, group_owner_remove_member)
              (
                IsKeyedMembers-filter (λ n. not (in_group (strip raw) g n)) w.members k.0,
                delete-HasOwner h g (strip raw) m w.members k.0 found
                    (subst (λ x. IsSafe g x w.members) (sym same) safe) k.1,
              )
      ]
    ]
  ]
]

change_is_safe :
    (role target : Role) (n : ℕ)
    → same_role target role ≡ false
    → (is_owner_role target && leb n 1) ≡ false
    → (is_owner_role role ≡ true) ⊎ (2 ≤ n)
change_is_safe Role.owner target n differs h = inl refl
change_is_safe Role.member Role.member n differs h = absurd (ground arith)
change_is_safe Role.member Role.owner n differs h = inr (ground arith)

change_role-KeepsOwner :
    (g h : ℕ) (dn : Text) (role target : Role) (w : World)
    → KeepsOwner h w.members
    → KeepsOwner h (change_role g dn role target w).0.members
unfolding change_role
change_role-KeepsOwner g h dn role target w k = elim (Bool-cases (same_role target role)) [
  | inl same ↦ ground (arith, k)
  | inr differs ↦ elim (Bool-cases (is_owner_role target && leb (count (owns g) w.members) 1)) [
    | inl last_owner ↦ ground (arith, k)
    | inr fine ↦
        rw (differs, fine)
          (
            IsKeyedMembers-set_role (in_group dn g) role w.members k.0,
            update-HasOwner h g dn role w.members k.0
                (change_is_safe role target (count (owns g) w.members) differs fine) k.1,
          )
  ]
]

set_role-KeepsOwner :
    (r : Request) (g h : ℕ) (raw raw_role : Text) (w : World)
    → KeepsOwner h w.members
    → KeepsOwner h (group_owner_set_member_role r g raw raw_role w).0.members
unfolding group_owner_set_member_role
set_role-KeepsOwner r g h raw raw_role w k = elim (Option-cases (group_by_id g w)) [
  | inl missing ↦ ground (arith, k)
  | inr (group, there) ↦ elim (Option-cases (role_of_text (strip raw_role))) [
    | inl bad ↦ ground (arith, k)
    | inr (role, good) ↦ elim (Option-cases (group_role (strip raw) g w)) [
      | inl stranger ↦ ground (arith, k)
      | inr (target, found) ↦
          ground (arith, k, change_role-KeepsOwner g h (strip raw) role target w k)
    ]
  ]
]

add-KeepsOwner :
    (r : Request) (g h : ℕ) (raw : Text) (w : World)
    → KeepsOwner h w.members
    → KeepsOwner h (group_owner_add_member r g raw w).0.members
unfolding group_owner_add_member
add-KeepsOwner r g h raw w k = elim (Option-cases (group_by_id g w)) [
  | inl missing ↦ ground (arith, k)
  | inr (group, there) ↦ elim (Option-cases (find (has_email (lower (strip raw))) w.users)) [
    | inl unknown ↦ ground (arith, k)
    | inr (u, known) ↦ elim (Bool-cases (any (in_group u.dn g) w.members)) [
      | inl already ↦ ground (arith, k)
      | inr fresh ↦
          let m : Membership = record { user_dn = u.dn; group_id = g; role = Role.member } in
          ground (
            arith,
            k,
            IsKeyedMembers-append_one w.members m fresh k.0,
            count-append_one (owns h) w.members m,
          )
    ]
  ]
]

-- A change of a group's members, with the group and what the request body brings.
pub data GroupCommand : Type 0 where
  add_member remove_member : ℕ → Text → GroupCommand
  set_member_role : ℕ → Text → Text → GroupCommand

abbrev pub handle_group : Request → GroupCommand → World → World
handle_group r (add_member g email) w = (group_owner_add_member r g email w).0
handle_group r (remove_member g dn) w = (group_owner_remove_member r g dn w).0
handle_group r (set_member_role g dn role) w = (group_owner_set_member_role r g dn role w).0

abbrev pub run_groups : List (Request × GroupCommand) → World → World
run_groups [] w = w
run_groups ((r, c) ∷ cs) w = run_groups cs (handle_group r c w)

abbrev pub by_users : List (Request × GroupCommand) → Bool
by_users cs = all (λ c. not c.0.is_admin) cs

handle_group-KeepsOwner :
    (r : Request) (c : GroupCommand) (h : ℕ) (w : World)
    → r.is_admin ≡ false
    → KeepsOwner h w.members
    → KeepsOwner h (handle_group r c w).members
handle_group-KeepsOwner r (add_member g email) h w plain k = add-KeepsOwner r g h email w k
handle_group-KeepsOwner r (remove_member g dn) h w plain k = remove-KeepsOwner r g h dn w plain k
handle_group-KeepsOwner r (set_member_role g dn role) h w plain k =
    set_role-KeepsOwner r g h dn role w k

-- In every sequence of changes to the members of any groups by users who are no admins, nobody is
-- in a group twice, and a group that has an owner still has one.
pub run_groups-KeepsOwner :
    (cs : List (Request × GroupCommand)) (h : ℕ) (w : World)
    → by_users cs ≡ true
    → KeepsOwner h w.members
    → KeepsOwner h (run_groups cs w).members
run_groups-KeepsOwner [] h w users k = k
run_groups-KeepsOwner ((r, c) ∷ cs) h w users k =
    run_groups-KeepsOwner cs h (handle_group r c w) (ground arith)
      (handle_group-KeepsOwner r c h w (ground arith) k)
