-- ===== src/Controls/Override.antt =====
-- lib/ap-controls/evaluate.ts: `checkSecondApprover` and `evaluateOverride`.
pub mod Authority
use Prim.Native.String.{◌++◌ as text_append}
use aemulus.Common.{
  ℕ, Bool, true, false, not, ◌&&◌, ◌||◌, String, string_Eq, Option, none, some, List, [], ◌∷◌, ◌==◌,
  if◌then◌else◌, find,
}
use aemulus.Controls.Schema.{
  Numbers, Role, role_Eq, Permission, permission_Eq, approve_second, OverrideType, type_Eq,
  Thresholds, SecondApprovalTrigger, always, never, amount_above, currency_differs_from_base,
  account_flagged_sensitive, discrepancy_above, HardBlock, no_block, block_amount_above,
  block_discrepancy_above, OverrideRule, ApControlConfig, perms_for, includes,
}

pub data Decision : Type 0 where
  allow needs_review require_second block : Decision

pub record Actor : Type 0 where
  pub user_id : String
  pub role : Role

pub data SecondCheck : Type 0 where
  passed maker_checker not_authorized : SecondCheck

module _ (n : Numbers) where
  open n use {Number, greater, times}

  -- A value of a reason's `detail`.
  pub data Detail : Type 0 where
    number : Number → Detail
    text : String → Detail
    a_role : Role → Detail
    a_permission : Permission → Detail

  pub record Reason : Type 0 where
    pub code : String
    pub field : Option String
    pub detail : List (String × Detail)

  -- The verdict without its banner.
  pub record EvalResult : Type 0 where
    pub decision : Decision
    pub reasons : List Reason
    pub triggered_rule_ids : List String

  pub record OverrideFacts : Type 0 where
    pub total : Number
    pub currency : String
    pub totals_discrepancy : Number
    pub gl_sensitive : Bool

  pub record OverrideInput : Type 0 where
    pub type : OverrideType
    pub facts : OverrideFacts
    pub actor : Actor
    pub preparer_id : String
    pub second_approver : Option Actor
    pub reason : Option String
    pub config : ApControlConfig n

  unfoldable pub check_second_approver : ApControlConfig n → Actor → String → Actor → SecondCheck
  check_second_approver config actor preparer_id second =
      if second.user_id == preparer_id || second.user_id == actor.user_id
      then maker_checker
      else if not (includes (perms_for n config second.role) approve_second)
      then not_authorized
      else passed

  -- `x != null && a > b`.
  abbrev pub over_limit : Option Number → (Number → Number) → Number → Bool
  over_limit none limit x = false
  over_limit (some l) limit x = greater x (limit l)

  unfoldable pub triggered : SecondApprovalTrigger n → OverrideFacts → Thresholds n → Bool
  triggered always f t = true
  triggered never f t = false
  triggered (amount_above value) f t = greater f.total value
  triggered currency_differs_from_base f t = not (f.currency == t.currency)
  triggered account_flagged_sensitive f t = f.gl_sensitive
  triggered (discrepancy_above pct most) f t =
      over_limit pct (λ p. times p f.total) f.totals_discrepancy
      || over_limit most (λ a. a) f.totals_discrepancy

  abbrev pub mk : Decision → List Reason → List String → EvalResult
  mk d rs ids = record { decision = d; reasons = rs; triggered_rule_ids = ids }

  abbrev pub reason_of : String → Option String → List (String × Detail) → List Reason
  reason_of code field detail = record { code = code; field = field; detail = detail } ∷ []

  -- Is the reason's text more than blanks? `trim` is the language's.
  abbrev pub is_given : (String → String) → Option String → Bool
  is_given trim none = false
  is_given trim (some r) = not (trim r == "")

  -- A hard block of the rule: the refusal, if it refuses, and whether the total is over the cap.
  unfoldable pub hard_block_refusal :
      HardBlock n → OverrideFacts → List Permission → Option EvalResult
  hard_block_refusal no_block f perms = none
  hard_block_refusal (block_amount_above value unless) f perms =
      if greater f.total value && not (includes perms unless)
      then some (
          mk block
            (reason_of "HARD_CAP" (some "total")
              (("total", number f.total) ∷ ("cap", number value) ∷ []))
            ("OVERRIDE.HARDCAP" ∷ []))
      else none
  hard_block_refusal (block_discrepancy_above pct most) f perms =
      if greater f.totals_discrepancy (times pct f.total) || greater f.totals_discrepancy most
      then some (
          mk block
            (reason_of "TOTALS_HARD_LIMIT" (some "total")
              (("discrepancy", number f.totals_discrepancy) ∷ []))
            ("OVERRIDE.HARDLIMIT" ∷ []))
      else none

  abbrev pub forced_second_by_cap : HardBlock n → OverrideFacts → Bool
  forced_second_by_cap (block_amount_above value unless) f = greater f.total value
  forced_second_by_cap _ f = false

  -- The branch that needs a second approver.
  unfoldable pub second_approval_result : OverrideInput → EvalResult
  second_approval_result i = elim i.second_approver [
    | none ↦ mk require_second (reason_of "SECOND_REQUIRED" none []) ("OVERRIDE.SECOND" ∷ [])
    | some second ↦ elim (check_second_approver i.config i.actor i.preparer_id second) [
      | maker_checker ↦
          mk block (reason_of "MAKER_CHECKER_VIOLATION" none [])
            ("OVERRIDE.SECOND" ∷ "OVERRIDE.MAKER_CHECKER" ∷ [])
      | not_authorized ↦
          mk block
            (reason_of "SECOND_APPROVER_NOT_AUTHORIZED" none (("role", a_role second.role) ∷ []))
            ("OVERRIDE.SECOND" ∷ "OVERRIDE.SECOND_AUTH" ∷ [])
      | passed ↦ mk allow [] ("OVERRIDE.SECOND" ∷ [])
    ]
  ]

  abbrev pub needs_second : OverrideRule n → OverrideInput → Bool
  needs_second rule i =
      forced_second_by_cap rule.hard_block i.facts
      || triggered rule.second_approval i.facts i.config.thresholds

  -- What follows once the rule for the type of the override is found.
  unfoldable pub evaluate_rule : (String → String) → OverrideRule n → OverrideInput → EvalResult
  evaluate_rule trim rule i =
      let perms = perms_for n i.config i.actor.role in
      if not (includes perms rule.permission)
      then mk block
          (reason_of "NOT_PERMITTED" none
            (("role", a_role i.actor.role) ∷ ("need", a_permission rule.permission) ∷ []))
          ("OVERRIDE.PERMISSION" ∷ [])
      else if rule.reason_required && not (is_given trim i.reason)
      then mk block (reason_of "REASON_REQUIRED" none []) ("OVERRIDE.REASON" ∷ [])
      else elim (hard_block_refusal rule.hard_block i.facts perms) [
        | some refusal ↦ refusal
        | none ↦ if needs_second rule i then second_approval_result i else mk allow [] []
      ]

  unfoldable pub evaluate_override : (String → String) → OverrideInput → EvalResult
  evaluate_override trim i = elim (find (λ r. r.type == i.type) i.config.overrides) [
    | none ↦ mk block (reason_of "UNKNOWN_OVERRIDE" none []) ("OVERRIDE.UNKNOWN" ∷ [])
    | some rule ↦ evaluate_rule trim rule i
  ]
