-- ===== src/Orgs.antt =====
-- lib/orgs.ts: teams of wallets, their members and roles.
pub mod Led
pub mod Protected
pub mod Roles
mod Tests
use aemulus.Common.{
  ℕ, ◌+◌, Bool, true, false, not, ◌&&◌, ◌||◌, String, string_Eq, Option, none, some, List, [], ◌∷◌,
  ◌++◌, map, length, ltb, leb, ◌==◌, if◌then◌else◌, keep, find, sort,
}

pub data OrgRole : Type 0 where
  admin member : OrgRole

pub record OrgRow : Type 0 where
  pub id : String
  pub name : String
  pub owner : String
  pub created_at : ℕ

pub record MemberRow : Type 0 where
  pub org_id : String
  pub wallet : String
  pub role : OrgRole
  pub created_at : ℕ

pub record Teams : Type 0 where
  pub orgs : List OrgRow
  pub members : List MemberRow

abbrev pub is_admin : Option OrgRole → Bool
is_admin (some admin) = true
is_admin _ = false

abbrev pub is_row_of : String → String → MemberRow → Bool
is_row_of org wallet m = m.org_id == org && m.wallet == wallet

unfoldable pub role_of : Teams → String → String → Option OrgRole
role_of t org wallet = elim (find (is_row_of org wallet) t.members) [
  | none ↦ none
  | some m ↦ some m.role
]

unfoldable pub count_orgs_by_owner : Teams → String → ℕ
count_orgs_by_owner t owner = length (keep (λ o. o.owner == owner) t.orgs)

unfoldable pub create_org : Teams → String → String → String → ℕ → Teams
create_org t id owner name now = record {
  orgs =
      t.orgs
      ++ record {
        id = id;
        name = if name == "" then "Team" else name;
        owner = owner;
        created_at = now;
      }
        ∷ [];
  members =
      t.members ++ record { org_id = id; wallet = owner; role = admin; created_at = now } ∷ [];
}

-- `String(org.rows[0]?.owner ?? "")`.
unfoldable pub owner_of : Teams → String → String
owner_of t org = elim (find (λ o. o.id == org) t.orgs) [ none ↦ "" | some o ↦ o.owner ]

unfoldable pub members_of : Teams → String → List MemberRow
members_of t org = keep (λ m. m.org_id == org) t.members

-- A team's members, for a member.
unfoldable pub list_members : Teams → String → String → List MemberRow
unfolding role_of members_of
list_members t org requester = elim (role_of t org requester) [
  | none ↦ []
  | some r ↦ sort (λ a b. ltb a.created_at b.created_at) (members_of t org)
]

abbrev pub max_members : ℕ
max_members = 100

-- The creator stays an admin.
abbrev pub effective_role : OrgRole → String → String → OrgRole
effective_role role wallet owner = if wallet == owner then admin else role

-- `INSERT … ON CONFLICT(org_id, wallet) DO UPDATE SET role`.
unfoldable pub put_member : String → String → OrgRole → ℕ → List MemberRow → List MemberRow
put_member org wallet role now [] =
    record { org_id = org; wallet = wallet; role = role; created_at = now } ∷ []
put_member org wallet role now (m ∷ ms) =
    let rest = put_member org wallet role now ms in
    if is_row_of org wallet m then record m { role = role } ∷ ms else m ∷ rest

-- Is a change of an existing member's role, or a new member, refused?
unfoldable pub add_refused : Teams → String → String → OrgRole → Option OrgRole → Bool
unfolding members_of owner_of
add_refused t org actor role none = leb max_members (length (members_of t org))
add_refused t org actor member (some admin) = not (actor == owner_of t org)
add_refused t org actor role (some r) = false

unfoldable pub add_member : Teams → String → String → String → OrgRole → ℕ → Teams × Bool
unfolding role_of add_refused put_member
add_member t org actor wallet role now =
    let eff = effective_role role wallet (owner_of t org) in
    if not (is_admin (role_of t org actor))
      || wallet == ""
      || add_refused t org actor eff (role_of t org wallet)
    then (t, false)
    else (record t { members = put_member org wallet eff now t.members }, true)

unfoldable pub remove_member : Teams → String → String → String → Teams × Bool
unfolding role_of owner_of
remove_member t org actor wallet =
    if not (is_admin (role_of t org actor))
      || owner_of t org == wallet
      || (is_admin (role_of t org wallet) && not (actor == owner_of t org))
    then (t, false)
    else (
      record t { members = keep (λ m. not (is_row_of org wallet m)) t.members },
      elim (role_of t org wallet) [ none ↦ false | some r ↦ true ],
    )
