-- ===== src/Tests/Groups.antt =====
-- A group whose owner hands it over and leaves.
use certheim.Base.{List, [], arith, false, lit, nat_eq, refl, text_eq, ◌∷◌}
use certheim.Store.{Request, Role, World}
use certheim.Groups.Owners.{
  GroupCommand, remove_member, run_groups, run_groups-KeepsOwner, set_member_role,
}
use certheim.Groups.Members.{KeepsOwner}
use certheim.Tests.Fixtures.{request_of, test_world}

abbrev carol : Request
carol = request_of (lit "carol") false 200

abbrev shared_world : World
shared_world = record test_world {
  members =
      record { user_dn = lit "carol"; group_id = 1; role = Role.owner }
      ∷ record { user_dn = lit "alice"; group_id = 1; role = Role.member }
      ∷ [];
}

abbrev handover : List (Request × GroupCommand)
handover =
    (carol, remove_member 1 (lit "carol"))
    ∷ (carol, set_member_role 1 (lit "alice") (lit "owner"))
    ∷ (carol, remove_member 1 (lit " carol "))
    ∷ []

shared_world-KeepsOwner : KeepsOwner 1 shared_world.members
unfolding text_eq nat_eq
shared_world-KeepsOwner = ((refl, (refl, tt)), omega arith)

run_groups-KeepsOwner_example : KeepsOwner 1 (run_groups handover shared_world).members
run_groups-KeepsOwner_example =
    run_groups-KeepsOwner handover 1 shared_world refl shared_world-KeepsOwner
