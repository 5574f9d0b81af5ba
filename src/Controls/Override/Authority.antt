-- ===== src/Controls/Override/Authority.antt =====
-- Which overrides are allowed.
use aemulus.Common.{
  ◌≡◌, ◌≢◌, ◌↔◌, ◌⊎◌, inl, inr, true, false, String, string_Eq, none, some, List, ◌==◌, find,
  Option-cases, Bool-cases, arith,
}
use aemulus.Controls.Schema.{
  Numbers, role_Eq, Permission, permission_Eq, approve_second, type_Eq, HardBlock, no_block,
  block_amount_above, block_discrepancy_above, OverrideRule, perms_for, includes,
}
use aemulus.Controls.Override.{
  allow, block, Actor, passed, EvalResult, OverrideFacts, OverrideInput, check_second_approver,
  is_given, hard_block_refusal, second_approval_result, needs_second, evaluate_rule,
  evaluate_override,
}

module _ (n : Numbers) (trim : String → String) where
  open n use {Number, greater, times}

  -- A second approver who is neither the preparer nor the actor and may approve.
  abbrev pub IsIndependent : OverrideInput n → Actor → Type 0
  IsIndependent i second =
      (second.user_id ≢ i.preparer_id)
      × (second.user_id ≢ i.actor.user_id)
      × (includes (perms_for n i.config second.role) approve_second ≡ true)

  -- The rule's limits on the amounts, for the permissions of the actor.
  abbrev pub WithinLimits : HardBlock n → OverrideFacts n → List Permission → Type 0
  WithinLimits no_block f perms = Unit
  WithinLimits (block_amount_above value unless) f perms =
      (greater f.total value ≡ false) ⊎ (includes perms unless ≡ true)
  WithinLimits (block_discrepancy_above pct most) f perms =
      (greater f.totals_discrepancy (times pct f.total) ≡ false)
      × (greater f.totals_discrepancy most ≡ false)

  -- What the policy asks of an override, by the rule for its type.
  pub record Authorized (i : OverrideInput n) (rule : OverrideRule n) : Type 0 where
    pub permitted : includes (perms_for n i.config i.actor.role) rule.permission ≡ true
    pub reasoned : rule.reason_required ≡ true → is_given n trim i.reason ≡ true
    pub limited : WithinLimits rule.hard_block i.facts (perms_for n i.config i.actor.role)
    pub seconded :
        needs_second n rule i ≡ true
        → (second : Actor) × (i.second_approver ≡ some second) × IsIndependent i second

  check_second_approver-passed :
      (i : OverrideInput n) (second : Actor)
      → (check_second_approver n i.config i.actor i.preparer_id second ≡ passed)
        ↔ IsIndependent i second
  unfolding check_second_approver
  check_second_approver-passed i second = ground (
    arith,
    string_Eq.decides second.user_id i.preparer_id,
    string_Eq.decides second.user_id i.actor.user_id,
  )

  hard_block_refusal-none :
      (hb : HardBlock n) (f : OverrideFacts n) (perms : List Permission)
      → (hard_block_refusal n hb f perms ≡ none) ↔ WithinLimits hb f perms
  unfolding hard_block_refusal
  hard_block_refusal-none no_block f perms = ground arith
  hard_block_refusal-none (block_amount_above value unless) f perms = ground arith
  hard_block_refusal-none (block_discrepancy_above pct most) f perms = ground arith

  pub hard_block_refusal-block :
      (hb : HardBlock n) (f : OverrideFacts n) (perms : List Permission) (r : EvalResult n)
      → hard_block_refusal n hb f perms ≡ some r
      → r.decision ≡ block
  unfolding hard_block_refusal
  hard_block_refusal-block no_block f perms r h = cc
  hard_block_refusal-block (block_amount_above value unless) f perms r h = ground arith
  hard_block_refusal-block (block_discrepancy_above pct most) f perms r h = ground arith

  second_approval_result-allow :
      (i : OverrideInput n)
      → (second_approval_result n i).decision ≡ allow
      → (second : Actor) × (i.second_approver ≡ some second) × IsIndependent i second
  unfolding second_approval_result
  second_approval_result-allow i h = elim (Option-cases i.second_approver) [
    | inl e ↦ let h' = rw (e, second_approval_result) at h in cc h'
    | inr (second, e) ↦
        let h' = rw (e, second_approval_result) at h in
        (second, e, (check_second_approver-passed i second).0 (ground arith))
  ]

  second_approval_result-seconded :
      (i : OverrideInput n) (second : Actor)
      → i.second_approver ≡ some second
      → IsIndependent i second
      → (second_approval_result n i).decision ≡ allow
  unfolding second_approval_result
  second_approval_result-seconded i second e ind =
      rw (e, second_approval_result, (check_second_approver-passed i second).1 ind)

  evaluate_rule-allow :
      (i : OverrideInput n) (rule : OverrideRule n)
      → (evaluate_rule n trim rule i).decision ≡ allow
      → Authorized i rule
  unfolding evaluate_rule
  evaluate_rule-allow i rule h =
      elim (Option-cases
        (hard_block_refusal n rule.hard_block i.facts (perms_for n i.config i.actor.role))) [
          | inr (r, e) ↦
              let blocked = hard_block_refusal-block rule.hard_block i.facts _ r e in ground arith
          | inl e ↦ record {
            permitted = ground arith;
            reasoned = ground arith;
            limited = (hard_block_refusal-none rule.hard_block i.facts _).0 e;
            seconded = λ s. second_approval_result-allow i (ground arith);
          }
        ]

  evaluate_rule-Authorized :
      (i : OverrideInput n) (rule : OverrideRule n)
      → Authorized i rule
      → (evaluate_rule n trim rule i).decision ≡ allow
  unfolding evaluate_rule
  evaluate_rule-Authorized i rule a =
      let free = (hard_block_refusal-none rule.hard_block i.facts _).1 a.limited in
      elim (Bool-cases (needs_second n rule i)) [
        | inl s ↦
            let (second, e, ind) = a.seconded s in
            ground
              (arith, a.permitted, a.reasoned, free, second_approval_result-seconded i second e ind)
        | inr s ↦ ground (arith, a.permitted, a.reasoned, free)
      ]

  -- An override is allowed just where the configuration has a rule for its type, the actor has
  -- the rule's permission, a reason is given where the rule wants one, the limits of its hard
  -- block hold, and, where a second approval is needed, the second approver is neither the
  -- preparer nor the actor and may give second approvals.
  pub evaluate_override-Authorized :
      (i : OverrideInput n)
      → ((evaluate_override n trim i).decision ≡ allow) ↔ (
          (rule : OverrideRule n) × (find (λ r. r.type == i.type) i.config.overrides ≡ some rule)
          × Authorized i rule)
  unfolding evaluate_override
  evaluate_override-Authorized i =
      elim (Option-cases (find (λ (r : OverrideRule n). r.type == i.type) i.config.overrides)) [
        | inl e ↦ (
          (λ h. let h' = rw (e, evaluate_override) at h in cc h'),
          (λ (rule, found, a). cc (e, found)),
        )
        | inr (rule, e) ↦ (
          (λ h. (rule, e, evaluate_rule-allow i rule (rw (e, evaluate_override) at h))),
          (λ (r, found, a). rw (found, evaluate_override) (evaluate_rule-Authorized i r a)),
        )
      ]
