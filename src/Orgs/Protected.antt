-- ===== src/Orgs/Protected.antt =====
-- lib/orgs.ts: an admin is protected from everybody but the team's creator.
use aemulus.Common.{
  ℕ, ◌≡◌, refl, ap, ◌∙◌, inl, inr, true, false, not, ◌&&◌, ◌||◌, String, string_Eq, some, ◌==◌,
  ==_self, ==_sound, subst, Bool-cases, arith,
}
use aemulus.Orgs.{
  OrgRole, admin, member, Teams, is_admin, role_of, owner_of, effective_role, add_refused,
  add_member, remove_member,
}
use aemulus.Orgs.Led.{role_in-put_member, role_in-keep}

-- The wallet is an admin of the team.
abbrev pub IsAdmin : String → String → Teams → Type 0
IsAdmin org wallet t = role_of t org wallet ≡ some admin

-- A demotion of an admin that is not refused is the creator's.
add_refused-admin :
    (t : Teams) (org actor : String) (role : OrgRole)
    → not (actor == owner_of t org) ≡ true
    → add_refused t org actor role (some admin) ≡ false
    → role ≡ admin
unfolding add_refused
add_refused-admin t org actor admin p a = refl
add_refused-admin t org actor member p a = ground arith

-- An admin whose role is changed by someone else than the creator, or who is the creator, is an admin afterwards.
effective_role-admin :
    (t : Teams) (org actor wallet : String) (role : OrgRole)
    → IsAdmin org wallet t
    → (wallet == owner_of t org || not (actor == owner_of t org)) ≡ true
    → add_refused t org actor (effective_role role wallet (owner_of t org)) (role_of t org wallet)
      ≡ false
    → effective_role role wallet (owner_of t org) ≡ admin
effective_role-admin t org actor wallet role h p a =
    let eff = effective_role role wallet (owner_of t org) in
    elim (Bool-cases (wallet == owner_of t org)) [
      | inl creator ↦ rw creator refl
      | inr other ↦
          add_refused-admin t org actor eff (ground arith)
            (subst (λ r. add_refused t org actor eff r ≡ false) h a)
    ]

-- A protected admin: the creator, or one whose role somebody else than the creator changes.
abbrev IsProtected : Teams → String → String → String → String → Type 0
IsProtected t org actor o v =
    IsAdmin o v t × ((v == owner_of t o || not (org == o && actor == owner_of t o)) ≡ true)

at_key :
    (P : String → String → Type 0) (o v org wallet : String)
    → (o == org && v == wallet) ≡ true
    → P o v
    → P org wallet
at_key P o v org wallet k h =
    subst (λ x. P x wallet) (==_sound o org (ground arith))
      (subst (λ x. P o x) (==_sound v wallet (ground arith)) h)

pub add_member-IsAdmin :
    (t : Teams) (org actor wallet : String) (role : OrgRole) (now : ℕ) (o v : String)
    → IsProtected t org actor o v
    → IsAdmin o v (add_member t org actor wallet role now).0
unfolding role_of add_member
add_member-IsAdmin t org actor wallet role now o v p =
    let eff = effective_role role wallet (owner_of t org) in
    elim (Bool-cases (
      not (is_admin (role_of t org actor))
      || wallet == ""
      || add_refused t org actor eff (role_of t org wallet))) [
        | inl refused ↦ rw refused p.0
        | inr accepted ↦ rw accepted (
            role_in-put_member org wallet o v eff now t.members
            ∙ elim (Bool-cases (o == org && v == wallet)) [
              | inr elsewhere ↦ rw elsewhere p.0
              | inl here ↦
                  let (h, q) = at_key (IsProtected t org actor) o v org wallet here p in
                  rw here (
                    ap some (
                      effective_role-admin t org actor wallet role h (ground (arith, ==_self org))
                        (ground arith)))
            ])
      ]

pub remove_member-IsAdmin :
    (t : Teams) (org actor wallet : String) (o v : String)
    → IsProtected t org actor o v
    → IsAdmin o v (remove_member t org actor wallet).0
unfolding role_of remove_member
remove_member-IsAdmin t org actor wallet o v p =
    elim (Bool-cases (
      not (is_admin (role_of t org actor))
      || owner_of t org == wallet
      || (is_admin (role_of t org wallet) && not (actor == owner_of t org)))) [
        | inl refused ↦ rw refused p.0
        | inr accepted ↦ rw accepted (
            role_in-keep org wallet o v t.members ∙ elim (Bool-cases (o == org && v == wallet)) [
              | inr elsewhere ↦ rw elsewhere p.0
              | inl here ↦
                  let (h, q) = at_key (IsProtected t org actor) o v org wallet here p in
                  let l : is_admin (role_of t org wallet) ≡ true = ap is_admin h in
                  absurd (
                    ground (
                      arith,
                      ==_self org,
                      string_Eq.decides wallet (owner_of t org),
                      string_Eq.decides (owner_of t org) wallet,
                    ))
            ])
      ]
