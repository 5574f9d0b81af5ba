-- ===== src/OverrideLog/Logging.antt =====
-- lib/ap-controls/override-log.ts with lib/ap-controls/evaluate.ts: what is logged was authorised.
use aemulus.Common.{
  ◌≡◌, refl, sym, ◌∙◌, ◌⊎◌, inl, inr, false, String, string_Eq, Option, none, some, [], ◌==◌, find,
  Option-cases, ok, arith,
}
use aemulus.Ap.Store.{Seals}
use aemulus.Controls.Schema.{Numbers, type_Eq, OverrideRule, perms_for}
use aemulus.Controls.Override.{
  Decision, allow, needs_review, require_second, block, Actor, passed, OverrideFacts, OverrideInput,
  check_second_approver, hard_block_refusal, second_approval_result, evaluate_rule,
  evaluate_override,
}
use aemulus.Controls.Override.Authority.{hard_block_refusal-block}
use aemulus.OverrideLog.{
  OverrideEvent, OverrideLogInput, missing_evidence, or_required, decision_refusal, write_refusal,
  write_override_event,
}

module _ (n : Numbers) (trim : String → String) where
  -- The decision allows the write.
  abbrev pub MayWrite : OverrideLogInput n → Type 0
  MayWrite i =
      (i.decision ≡ allow)
      ⊎ ((i.decision ≡ require_second)
          × ((second : Actor) × (i.second_approver ≡ some second)
              × (check_second_approver n i.config i.actor i.preparer_id second ≡ passed)))

  decision_refusal-none : (i : OverrideLogInput n) → decision_refusal n i ≡ none → MayWrite i
  unfolding decision_refusal
  decision_refusal-none i h = by_decision i.decision refl
    where
      seconded :
          i.decision ≡ require_second
          → (second : Actor) × (i.second_approver ≡ some second)
            × (check_second_approver n i.config i.actor i.preparer_id second ≡ passed)
      seconded d = elim (Option-cases i.second_approver) [
        | inl e ↦ ground (arith, d, e, h)
        | inr (second, e) ↦ (second, e, ground (arith, d, e, h))
      ]

      by_decision : (d : Decision) → i.decision ≡ d → MayWrite i
      by_decision allow e = inl e
      by_decision require_second e = inr (e, seconded e)
      by_decision needs_review e = ground (arith, e, h)
      by_decision block e = ground (arith, e, h)

  write_refusal-none :
      (i : OverrideLogInput n)
      → write_refusal n trim i ≡ none
      → (trim i.reason_code == "" ≡ false)
        × (missing_evidence (or_required i.required_evidence) i.evidence_viewed ≡ [])
        × (decision_refusal n i ≡ none)
  unfolding write_refusal
  write_refusal-none i h = (ground arith, ground arith, ground arith)

  -- The evaluator's question about the override that is to be logged, with a second approver.
  abbrev pub question :
      OverrideLogInput n → OverrideFacts n → Option String → Option Actor → OverrideInput n
  question i facts reason second = record {
    type = i.type;
    facts = facts;
    actor = i.actor;
    preparer_id = i.preparer_id;
    second_approver = second;
    reason = reason;
    config = i.config;
  }

  second_approval_result-passed :
      (o : OverrideInput n) (second : Actor)
      → o.second_approver ≡ some second
      → check_second_approver n o.config o.actor o.preparer_id second ≡ passed
      → (second_approval_result n o).decision ≡ allow
  unfolding second_approval_result
  second_approval_result-passed o second e p = rw (e, second_approval_result, p) refl

  -- A rule that waits for a second approver allows the override once one is given who passes.
  evaluate_rule-seconded :
      (rule : OverrideRule n) (i : OverrideLogInput n) (facts : OverrideFacts n)
      (reason : Option String) (first : Option Actor) (second : Actor)
      → (evaluate_rule n trim rule (question i facts reason first)).decision ≡ require_second
      → check_second_approver n i.config i.actor i.preparer_id second ≡ passed
      → (evaluate_rule n trim rule (question i facts reason (some second))).decision ≡ allow
  unfolding evaluate_rule
  evaluate_rule-seconded rule i facts reason first second h p =
      let allowed =
        second_approval_result-passed (question i facts reason (some second)) second refl p in
      elim (Option-cases
        (hard_block_refusal n rule.hard_block facts (perms_for n i.config i.actor.role))) [
          | inr (r, e) ↦
              let blocked = hard_block_refusal-block n trim rule.hard_block facts _ r e in
              ground arith
          | inl e ↦ ground (arith, e, allowed)
        ]

  evaluate_override-seconded :
      (i : OverrideLogInput n) (facts : OverrideFacts n) (reason : Option String)
      (first : Option Actor) (second : Actor)
      → (evaluate_override n trim (question i facts reason first)).decision ≡ require_second
      → check_second_approver n i.config i.actor i.preparer_id second ≡ passed
      → (evaluate_override n trim (question i facts reason (some second))).decision ≡ allow
  unfolding evaluate_override
  evaluate_override-seconded i facts reason first second h p =
      elim (Option-cases (find (λ (r : OverrideRule n). r.type == i.type) i.config.overrides)) [
        | inl e ↦ let h' = rw (e, evaluate_override) at h in cc h'
        | inr (rule, e) ↦
            rw (e, evaluate_override)
              (evaluate_rule-seconded rule i facts reason first second
                (rw (e, evaluate_override) at h) p)
      ]

  -- Where the decision that is logged is the evaluator's on the same override with some second
  -- approver or none, an event is written only if the evaluator allows the override with that
  -- second approver or with the one that is logged, all required evidence was viewed, and the
  -- reason code is not blank.
  pub write_override_event-allowed :
      (s : Seals) (i : OverrideLogInput n) (facts : OverrideFacts n) (reason : Option String)
      (first : Option Actor) (e : OverrideEvent)
      → i.decision ≡ (evaluate_override n trim (question i facts reason first)).decision
      → write_override_event s n trim i ≡ ok e
      → ((second : Option Actor) × ((second ≡ first) ⊎ (second ≡ i.second_approver))
          × ((evaluate_override n trim (question i facts reason second)).decision ≡ allow))
        × (missing_evidence (or_required i.required_evidence) i.evidence_viewed ≡ [])
        × (trim i.reason_code == "" ≡ false)
  unfolding write_override_event
  write_override_event-allowed s i facts reason first e d w =
      elim (Option-cases (write_refusal n trim i)) [
        | inr (why, r) ↦ let w' = rw (r, write_override_event) at w in cc w'
        | inl r ↦
            let (given, seen, may) = write_refusal-none i r in
            (
              elim (decision_refusal-none i may) [
                | inl a ↦ (first, inl refl, sym d ∙ a)
                | inr (wait, (second, found, p)) ↦ (
                  some second,
                  inr (sym found),
                  evaluate_override-seconded i facts reason first second (sym d ∙ wait) p,
                )
              ],
              seen,
              given,
            )
      ]
