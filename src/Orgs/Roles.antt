-- ===== src/Orgs/Roles.antt =====
-- lib/orgs.ts: a team keeps its creator as an admin, and only the creator takes an admin's role away.
use aemulus.Common.{
  ℕ, ◌≡◌, refl, sym, ap, ◌∙◌, inl, inr, Bool, true, false, not, ◌&&◌, ◌||◌, String, string_Eq,
  Option, none, some, List, [], ◌∷◌, ◌++◌, ◌==◌, ==_self, subst, find, find-append, find-append_new,
  All, Bool-cases, arith,
}
use aemulus.Orgs.{
  OrgRole, admin, OrgRow, MemberRow, Teams, is_admin, is_row_of, role_of, owner_of, create_org,
  effective_role, add_refused, add_member, remove_member,
}
use aemulus.Orgs.Protected.{IsAdmin, add_member-IsAdmin, remove_member-IsAdmin}
use aemulus.Orgs.Led.{role_found, role_in}

-- A change of the tables; of a member, by an actor.
pub data Change : Type 0 where
  create : String → String → String → ℕ → Change
  add : String → String → String → OrgRole → ℕ → Change
  remove : String → String → String → Change

unfoldable pub apply_change : Change → Teams → Teams
unfolding create_org add_member remove_member
apply_change (create id owner name now) t = create_org t id owner name now
apply_change (add org actor wallet role now) t = (add_member t org actor wallet role now).0
apply_change (remove org actor wallet) t = (remove_member t org actor wallet).0

unfoldable pub apply_changes : List Change → Teams → Teams
apply_changes [] t = t
apply_changes (x ∷ xs) t = apply_changes xs (apply_change x t)

-- Is it a change of this team's members, by this wallet?
abbrev pub is_by : String → String → Change → Bool
is_by org owner (create id o name now) = false
is_by org owner (add id actor wallet role now) = id == org && actor == owner
is_by org owner (remove id actor wallet) = id == org && actor == owner

role_in-append :
    (o v : String) (xs ys : List MemberRow) (r : OrgRole)
    → role_in o v xs ≡ some r
    → role_in o v (xs ++ ys) ≡ some r
role_in-append o v [] ys r h = cc
role_in-append o v (m ∷ xs) ys r h = ground (arith, role_in-append o v xs ys r)

-- The team is there, with this creator.
abbrev IsOwnedIn : String → String → List OrgRow → Type 0
IsOwnedIn org owner orgs =
    (o : OrgRow) × (find (λ x. x.id == org) orgs ≡ some o) × (o.owner ≡ owner)

abbrev pub IsOwnedBy : String → String → Teams → Type 0
IsOwnedBy org owner t = IsOwnedIn org owner t.orgs

abbrev found_owner : Option OrgRow → String
found_owner x = elim x [ none ↦ "" | some o ↦ o.owner ]

owner_of-IsOwnedBy :
    (org owner : String) (t : Teams) → IsOwnedBy org owner t → owner_of t org ≡ owner
unfolding owner_of
owner_of-IsOwnedBy org owner t (o, found, owned) = ap found_owner found ∙ owned

-- A change of members leaves the teams as they are.
add_member-orgs :
    (t : Teams) (org actor wallet : String) (role : OrgRole) (now : ℕ)
    → (add_member t org actor wallet role now).0.orgs ≡ t.orgs
unfolding add_member
add_member-orgs t org actor wallet role now =
    elim (Bool-cases (
      not (is_admin (role_of t org actor))
      || wallet == ""
      || add_refused t org actor (effective_role role wallet (owner_of t org))
          (role_of t org wallet))) [ inl k ↦ rw k refl | inr k ↦ rw k refl ]

remove_member-orgs :
    (t : Teams) (org actor wallet : String) → (remove_member t org actor wallet).0.orgs ≡ t.orgs
unfolding remove_member
remove_member-orgs t org actor wallet =
    elim (Bool-cases (
      not (is_admin (role_of t org actor))
      || owner_of t org == wallet
      || (is_admin (role_of t org wallet) && not (actor == owner_of t org)))) [
        | inl k ↦ rw k refl
        | inr k ↦ rw k refl
      ]

apply_change-IsOwnedBy :
    (x : Change) (org owner : String) (t : Teams)
    → IsOwnedBy org owner t
    → IsOwnedBy org owner (apply_change x t)
unfolding apply_change create_org
apply_change-IsOwnedBy (create id o name now) org owner t (row, found, owned) =
    (row, find-append (λ x. x.id == org) t.orgs _ row found, owned)
apply_change-IsOwnedBy (add id actor wallet role now) org owner t h =
    subst (IsOwnedIn org owner) (sym (add_member-orgs t id actor wallet role now)) h
apply_change-IsOwnedBy (remove id actor wallet) org owner t h =
    subst (IsOwnedIn org owner) (sym (remove_member-orgs t id actor wallet)) h

apply_change-IsAdmin :
    (x : Change) (org owner v : String) (t : Teams)
    → IsOwnedBy org owner t
    → (v == owner || not (is_by org owner x)) ≡ true
    → IsAdmin org v t
    → IsAdmin org v (apply_change x t)
unfolding apply_change create_org role_of
apply_change-IsAdmin (create id o name now) org owner v t b p h =
    role_in-append org v t.members _ admin h
apply_change-IsAdmin (add id actor wallet role now) org owner v t b p h =
    add_member-IsAdmin t id actor wallet role now org v (h, rw (owner_of-IsOwnedBy org owner t b) p)
apply_change-IsAdmin (remove id actor wallet) org owner v t b p h =
    remove_member-IsAdmin t id actor wallet org v (h, rw (owner_of-IsOwnedBy org owner t b) p)

-- In a team with a creator, an admin stays one through every series of creations of teams,
-- additions and removals of members, where the admin is the creator, or none of the changes of
-- that team's members is made by the creator.
pub apply_changes-IsAdmin :
    (xs : List Change) (org owner v : String) (t : Teams)
    → IsOwnedBy org owner t
    → All (λ x. (v == owner || not (is_by org owner x)) ≡ true) xs
    → IsAdmin org v t
    → IsAdmin org v (apply_changes xs t)
unfolding apply_changes
apply_changes-IsAdmin [] org owner v t b ps h = h
apply_changes-IsAdmin (x ∷ xs) org owner v t b (p, ps) h =
    apply_changes-IsAdmin xs org owner v (apply_change x t) (apply_change-IsOwnedBy x org owner t b)
      ps (apply_change-IsAdmin x org owner v t b p h)

module _ (t : Teams) (id owner name : String) (now : ℕ) where
  create_org-IsOwnedBy :
      find (λ o. o.id == id) t.orgs ≡ none → IsOwnedBy id owner (create_org t id owner name now)
  unfolding create_org
  create_org-IsOwnedBy h = (_, find-append_new (λ o. o.id == id) t.orgs _ h (==_self id), refl)

  create_org-IsAdmin :
      find (is_row_of id owner) t.members ≡ none → IsAdmin id owner (create_org t id owner name now)
  unfolding create_org role_of
  create_org-IsAdmin h =
      ap role_found
        (find-append_new (is_row_of id owner) t.members _ h (rw (==_self id, ==_self owner) refl))

  -- A team that is created under an id that no team and no member row has keeps its creator as an
  -- admin through every later series of changes by anyone.
  pub apply_changes-create_org :
      (xs : List Change)
      → find (λ o. o.id == id) t.orgs ≡ none
      → find (is_row_of id owner) t.members ≡ none
      → IsAdmin id owner (apply_changes xs (create_org t id owner name now))
  apply_changes-create_org xs h k =
      apply_changes-IsAdmin xs id owner owner (create_org t id owner name now)
        (create_org-IsOwnedBy h) (all xs) (create_org-IsAdmin k)
    where
      all : (ys : List Change) → All (λ x. (owner == owner || not (is_by id owner x)) ≡ true) ys
      all [] = tt
      all (y ∷ ys) = (rw (==_self owner) refl, all ys)
