-- ===== src/Orgs/Tests.antt =====
-- lib/orgs.ts at a concrete team.
use aemulus.Common.{◌≡◌, refl, none, List, [], ◌∷◌}
use aemulus.Orgs.{
  admin, member, Teams, role_of, owner_of, create_org, add_member, add_refused, put_member,
  remove_member, members_of, list_members,
}
use aemulus.Orgs.Protected.{IsAdmin}
use aemulus.Orgs.Roles.{
  Change, create, add, remove, apply_change, apply_changes, apply_changes-IsAdmin,
}

abbrev empty_teams : Teams
empty_teams = record { orgs = []; members = [] }

-- Ann makes a team; Bob is made an admin, Cal a member, by Ann.
abbrev team : Teams
team = record {
  orgs = record { id = "org_1"; name = "Team"; owner = "ann"; created_at = 1 } ∷ [];
  members =
      record { org_id = "org_1"; wallet = "ann"; role = admin; created_at = 1 }
      ∷ record { org_id = "org_1"; wallet = "bob"; role = admin; created_at = 2 }
      ∷ record { org_id = "org_1"; wallet = "cal"; role = member; created_at = 3 }
      ∷ [];
}

abbrev first_changes : List Change
first_changes = add "org_1" "ann" "bob" admin 2 ∷ add "org_1" "ann" "cal" member 3 ∷ []

made : apply_changes first_changes (create_org empty_teams "org_1" "ann" "" 1) ≡ team
unfolding apply_changes apply_change create_org add_member role_of owner_of add_refused members_of
    put_member
made = refl

-- Bob would put out Ann and make a member of himself; Dan, who is no member, would put out Bob.
abbrev attacks : List Change
attacks =
    remove "org_1" "bob" "ann"
    ∷ add "org_1" "bob" "ann" member 4
    ∷ add "org_1" "bob" "bob" member 5
    ∷ remove "org_1" "dan" "bob"
    ∷ create "org_2" "dan" "" 6
    ∷ []

apply_changes-IsAdmin_example : IsAdmin "org_1" "bob" (apply_changes attacks team)
apply_changes-IsAdmin_example =
    apply_changes-IsAdmin attacks "org_1" "ann" "bob" team (_, refl, refl)
      (refl, (refl, (refl, (refl, (refl, tt))))) (unfold role_of in refl)

listed : list_members team "org_1" "dan" ≡ []
unfolding list_members role_of
listed = refl

removed : role_of (remove_member team "org_1" "bob" "cal").0 "org_1" "cal" ≡ none
unfolding remove_member role_of owner_of
removed = refl
