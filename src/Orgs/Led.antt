-- ===== src/Orgs/Led.antt =====
-- lib/orgs.ts: the roles after each change of a team.
use aemulus.Common.{
  ℕ, ◌≡◌, refl, ap, ◌∙◌, inl, inr, Bool, true, false, not, ◌&&◌, String, string_Eq, Option, none,
  some, List, [], ◌∷◌, ◌==◌, if◌then◌else◌, find, find-yes, find-no, keep, keep-yes, keep-no,
  Bool-cases, arith,
}
use aemulus.Orgs.{OrgRole, MemberRow, is_row_of, put_member}

abbrev pub role_found : Option MemberRow → Option OrgRole
role_found x = elim x [ none ↦ none | some m ↦ some m.role ]

abbrev pub role_in : String → String → List MemberRow → Option OrgRole
role_in org wallet ms = role_found (find (is_row_of org wallet) ms)

-- A row of one key is a row of another just where the keys are the same.
is_row_of-same :
    (org wallet o v : String) (m : MemberRow)
    → is_row_of org wallet m ≡ true
    → is_row_of o v m ≡ (o == org && v == wallet)
is_row_of-same org wallet o v m h = ground (
  arith,
  string_Eq.decides m.org_id org,
  string_Eq.decides m.wallet wallet,
  string_Eq.decides o org,
  string_Eq.decides v wallet,
  string_Eq.decides m.org_id o,
  string_Eq.decides m.wallet v,
)

is_row_of-apart :
    (org wallet o v : String) (m : MemberRow)
    → is_row_of org wallet m ≡ false
    → (o == org && v == wallet) ≡ true
    → is_row_of o v m ≡ false
is_row_of-apart org wallet o v m h k =
    ground (arith, string_Eq.decides o org, string_Eq.decides v wallet)

role_in-cons :
    (o v : String) (m : MemberRow) (ms : List MemberRow)
    → role_in o v (m ∷ ms) ≡ (if is_row_of o v m then some m.role else role_in o v ms)
role_in-cons o v m ms = elim (Bool-cases (is_row_of o v m)) [
  | inl h ↦ ap role_found (find-yes (is_row_of o v) m ms h) ∙ rw h refl
  | inr h ↦ ap role_found (find-no (is_row_of o v) m ms h) ∙ rw h refl
]

pub role_in-put_member :
    (org wallet o v : String) (role : OrgRole) (now : ℕ) (ms : List MemberRow)
    → role_in o v (put_member org wallet role now ms)
      ≡ (if o == org && v == wallet then some role else role_in o v ms)
unfolding put_member
role_in-put_member org wallet o v role now [] = ground (
  arith,
  string_Eq.decides org o,
  string_Eq.decides o org,
  string_Eq.decides wallet v,
  string_Eq.decides v wallet,
)
role_in-put_member org wallet o v role now (m ∷ ms) = elim (Bool-cases (is_row_of org wallet m)) [
  | inl hit ↦
      let same = is_row_of-same org wallet o v m hit in
      let led : MemberRow = record m { role = role } in
      rw hit (role_in-cons o v led ms ∙ rw (same, role_in-cons o v m ms, same) (ground arith))
  | inr miss ↦
      let rest = put_member org wallet role now ms in
      rw miss (
        role_in-cons o v m rest
        ∙ rw (role_in-cons o v m ms) (elim (Bool-cases (o == org && v == wallet)) [
          | inl k ↦
              rw (is_row_of-apart org wallet o v m miss k, k)
                (role_in-put_member org wallet o v role now ms ∙ rw k refl)
          | inr k ↦ rw (role_in-put_member org wallet o v role now ms, k) refl
        ]))
]

pub role_in-keep :
    (org wallet o v : String) (ms : List MemberRow)
    → role_in o v (keep (λ m. not (is_row_of org wallet m)) ms)
      ≡ (if o == org && v == wallet then none else role_in o v ms)
role_in-keep org wallet o v [] = ground arith
role_in-keep org wallet o v (m ∷ ms) =
    let p : MemberRow → Bool = λ x. not (is_row_of org wallet x) in
    elim (Bool-cases (is_row_of org wallet m)) [
      | inl hit ↦
          let same = is_row_of-same org wallet o v m hit in
          ap (role_in o v) (keep-no p m ms (ap not hit))
          ∙ role_in-keep org wallet o v ms
          ∙ rw (role_in-cons o v m ms, same) (ground arith)
      | inr miss ↦
          ap (role_in o v) (keep-yes p m ms (ap not miss))
          ∙ role_in-cons o v m (keep p ms)
          ∙ rw (role_in-cons o v m ms) (elim (Bool-cases (o == org && v == wallet)) [
            | inl k ↦
                rw (is_row_of-apart org wallet o v m miss k, k)
                  (role_in-keep org wallet o v ms ∙ rw k refl)
            | inr k ↦ rw (role_in-keep org wallet o v ms, k) refl
          ])
    ]
