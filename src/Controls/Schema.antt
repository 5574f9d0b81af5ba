-- ===== src/Controls/Schema.antt =====
-- lib/ap-controls/schema.ts: roles, permissions, thresholds and the rules of overrides.
use aemulus.Common.{
  ℕ, ◌≡◌, refl, sym, ap, ◌∙◌, ◌↔◌, Bool, true, String, Option, none, some, List, [], ◌∷◌, get_elem?,
  nat_eq, nat_eq_iff, Eq, ◌==◌, any, find,
}

-- JavaScript's numbers, as far as the controls use them; `lit m k` is m / 10 ^ k as a literal.
pub record Numbers : Type 1 where
  pub Number : Type 0
  pub lit : ℕ → ℕ → Number
  pub greater : Number → Number → Bool
  pub times : Number → Number → Number
  pub minus : Number → Number → Number
  pub divide : Number → Number → Number
  pub round : Number → Number

pub data Role : Type 0 where
  clerk approver controller auditor : Role

pub data Permission : Type 0 where
  invoice_review invoice_submit override_duplicate override_vendor override_amount : Permission
  override_currency override_totals override_gl override_ceiling approve_second : Permission
  vendor_request vendor_approve vendor_bank config_manage audit_view : Permission

pub data OverrideType : Type 0 where
  duplicate vendor amount currency totals gl ceiling : OverrideType

-- `===` compares the members of an enumeration by their place here.
abbrev pub role_place : Role → ℕ
role_place clerk = 0
role_place approver = 1
role_place controller = 2
role_place auditor = 3

abbrev roles : List Role
roles = clerk ∷ approver ∷ controller ∷ auditor ∷ []

pub roles-place : (x : Role) → get_elem? roles (role_place x) ≡ some x
roles-place clerk = refl
roles-place approver = refl
roles-place controller = refl
roles-place auditor = refl

abbrev pub permission_place : Permission → ℕ
permission_place invoice_review = 0
permission_place invoice_submit = 1
permission_place override_duplicate = 2
permission_place override_vendor = 3
permission_place override_amount = 4
permission_place override_currency = 5
permission_place override_totals = 6
permission_place override_gl = 7
permission_place override_ceiling = 8
permission_place approve_second = 9
permission_place vendor_request = 10
permission_place vendor_approve = 11
permission_place vendor_bank = 12
permission_place config_manage = 13
permission_place audit_view = 14

abbrev permissions : List Permission
permissions =
    invoice_review ∷ invoice_submit ∷ override_duplicate ∷ override_vendor ∷ override_amount
    ∷ override_currency ∷ override_totals ∷ override_gl ∷ override_ceiling ∷ approve_second
    ∷ vendor_request ∷ vendor_approve ∷ vendor_bank ∷ config_manage ∷ audit_view ∷ []

pub permissions-place : (x : Permission) → get_elem? permissions (permission_place x) ≡ some x
permissions-place invoice_review = refl
permissions-place invoice_submit = refl
permissions-place override_duplicate = refl
permissions-place override_vendor = refl
permissions-place override_amount = refl
permissions-place override_currency = refl
permissions-place override_totals = refl
permissions-place override_gl = refl
permissions-place override_ceiling = refl
permissions-place approve_second = refl
permissions-place vendor_request = refl
permissions-place vendor_approve = refl
permissions-place vendor_bank = refl
permissions-place config_manage = refl
permissions-place audit_view = refl

abbrev pub type_place : OverrideType → ℕ
type_place duplicate = 0
type_place vendor = 1
type_place amount = 2
type_place currency = 3
type_place totals = 4
type_place gl = 5
type_place ceiling = 6

abbrev types : List OverrideType
types = duplicate ∷ vendor ∷ amount ∷ currency ∷ totals ∷ gl ∷ ceiling ∷ []

pub types-place : (x : OverrideType) → get_elem? types (type_place x) ≡ some x
types-place duplicate = refl
types-place vendor = refl
types-place amount = refl
types-place currency = refl
types-place totals = refl
types-place gl = refl
types-place ceiling = refl

-- Places that can be undone decide equality.
pub place_decides {ℓ} :
    {A : Type ℓ} (place : A → ℕ) (members : List A)
    → ((x : A) → get_elem? members (place x) ≡ some x)
    → (a b : A) → (nat_eq (place a) (place b) ≡ true) ↔ (a ≡ b)
place_decides place members back a b = (
  (λ h.
      let same =
        sym (back a) ∙ ap (get_elem? members) ((nat_eq_iff (place a) (place b)).0 h) ∙ back b in
      cc same),
  (λ e. (nat_eq_iff (place a) (place b)).1 (ap place e)),
)

instance abbrev pub role_Eq : Eq Role
role_Eq = record {
  same = λ a b. nat_eq (role_place a) (role_place b);
  decides = place_decides role_place roles roles-place;
}

instance abbrev pub permission_Eq : Eq Permission
permission_Eq = record {
  same = λ a b. nat_eq (permission_place a) (permission_place b);
  decides = place_decides permission_place permissions permissions-place;
}

instance abbrev pub type_Eq : Eq OverrideType
type_Eq = record {
  same = λ a b. nat_eq (type_place a) (type_place b);
  decides = place_decides type_place types types-place;
}

pub record VendorPolicy : Type 0 where
  pub request_permission : Permission
  pub approve_permission : Permission
  pub bank_permission : Permission
  pub maker_checker_enforced : Bool
  pub bank_change_dual_approval : Bool
  pub bank_change_out_of_band_verify : Bool
  pub first_invoice_always_review : Bool
  pub first_invoice_separate_approver : Bool

module _ (n : Numbers) where
  open n use {Number}

  pub record Thresholds : Type 0 where
    pub currency : String
    pub auto_confidence : Number
    pub approval_ceiling : Number
    pub dual_threshold : Number
    pub hard_cap : Number
    pub totals_tolerance : Number
    pub totals_hard_limit_pct : Number
    pub totals_hard_limit_abs : Number
    pub stale_invoice_days : Number

  pub data SecondApprovalTrigger : Type 0 where
    always never : SecondApprovalTrigger
    amount_above : Number → SecondApprovalTrigger
    currency_differs_from_base account_flagged_sensitive : SecondApprovalTrigger
    discrepancy_above : Option Number → Option Number → SecondApprovalTrigger

  pub data HardBlock : Type 0 where
    no_block : HardBlock
    block_amount_above : Number → Permission → HardBlock
    block_discrepancy_above : Number → Number → HardBlock

  pub record OverrideRule : Type 0 where
    pub type : OverrideType
    pub permission : Permission
    pub reason_required : Bool
    pub second_approval : SecondApprovalTrigger
    pub hard_block : HardBlock

  pub record RoleDef : Type 0 where
    pub role : Role
    pub permissions : List Permission

  pub record ApControlConfig : Type 0 where
    pub version : ℕ
    pub org_id : String
    pub thresholds : Thresholds
    pub roles : List RoleDef
    pub overrides : List OverrideRule
    pub vendor_policy : VendorPolicy
    pub sensitive_gl_accounts : List String

  abbrev pub get_permissions : Option RoleDef → List Permission
  get_permissions none = []
  get_permissions (some r) = r.permissions

  unfoldable pub perms_for : ApControlConfig → Role → List Permission
  perms_for config role = get_permissions (find (λ r. r.role == role) config.roles)

-- `Array.prototype.includes`.
abbrev pub includes : List Permission → Permission → Bool
includes ps p = any (λ q. q == p) ps
