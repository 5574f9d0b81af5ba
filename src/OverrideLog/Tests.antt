-- ===== src/OverrideLog/Tests.antt =====
-- lib/ap-controls/override-log.ts at a concrete override, with the policy of the small firm.
use aemulus.Common.{
  ℕ, ◌+◌, ◌-◌, ◌*◌, ◌/◌, ◌^◌, ◌≡◌, refl, ◌⊎◌, false, String, string_Eq, Option, none, some, [], ◌∷◌,
  ◌++◌, ◌==◌, ltb, ok,
}
use aemulus.Ap.Store.Tests.{seals}
use aemulus.Controls.Schema.{Numbers, controller, amount, perms_for, type_Eq}
use aemulus.Controls.Override.{
  allow, require_second, Actor, OverrideFacts, check_second_approver, triggered, hard_block_refusal,
  second_approval_result, evaluate_rule, evaluate_override,
}
use aemulus.Controls.Samples.{small_firm}
use aemulus.OverrideLog.{
  source_invoice, replay, EvidenceView, text_value, OverrideLogInput, OverrideEvent, views_json,
  event_json, missing_evidence, or_required, decision_refusal, write_refusal, unsealed_override,
  seal_of, write_override_event, chain_fault, verify_override_chain,
}
use aemulus.OverrideLog.Chain.{verify_override_chain-write_override_event}
use aemulus.OverrideLog.Logging.{question, write_override_event-allowed}

abbrev thousandths : Numbers
thousandths = record {
  Number = ℕ;
  lit = λ m k. m * 1000 / 10 ^ k;
  greater = λ a b. ltb b a;
  times = λ a b. a * b / 1000;
  minus = λ a b. a - b;
  divide = λ a b. a * 1000 / b;
  round = λ a. (a + 500) / 1000 * 1000;
}

abbrev plain : String → String
plain s = s

abbrev view : EvidenceView
view = record { artifact = source_invoice; at = 1; watched_ms = none; compared_to = none }

-- An override of an amount over the cap, which waits for the partner.
abbrev logged : String → OverrideLogInput thousandths
logged prior = record {
  prior_seal = prior;
  invoice_id = "bill-7";
  entry_record_id = "entry-7";
  decision = require_second;
  type = amount;
  field_name = "total";
  original_value = text_value "29000";
  new_value = text_value "30000";
  reason_code = "typo";
  reason_note = none;
  actor = record { user_id = "owner"; role = controller };
  preparer_id = "clerk";
  second_approver = some (record { user_id = "partner"; role = controller });
  evidence_viewed = view ∷ record view { artifact = replay } ∷ [];
  config = small_firm thousandths;
  now = 9;
  id = "o-1";
  required_evidence = none;
}

abbrev facts : OverrideFacts thousandths
facts = record { total = 30000000; currency = "USD"; totals_discrepancy = 0; gl_sensitive = false }

waits :
    (logged "seal-0").decision
    ≡ (evaluate_override thousandths plain
        (question thousandths plain (logged "seal-0") facts (some "typo") none)).decision
unfolding evaluate_override evaluate_rule hard_block_refusal second_approval_result
    check_second_approver triggered small_firm perms_for
waits = refl

unfoldable event_after : String → OverrideEvent
unfolding unsealed_override seal_of event_json views_json
event_after prior = record {
  unsealed = unsealed_override thousandths (logged prior);
  seal = seal_of seals (unsealed_override thousandths (logged prior));
}

written :
    (prior : String)
    → write_override_event seals thousandths plain (logged prior) ≡ ok (event_after prior)
unfolding write_override_event write_refusal missing_evidence decision_refusal check_second_approver
    small_firm perms_for event_after
written prior = refl

write_override_event-allowed_example :
    ((second : Option Actor) × ((second ≡ none) ⊎ (second ≡ (logged "seal-0").second_approver))
      × ((evaluate_override thousandths plain
            (question thousandths plain (logged "seal-0") facts (some "typo") second)).decision
          ≡ allow))
    × (missing_evidence (or_required none) (logged "seal-0").evidence_viewed ≡ [])
    × ((logged "seal-0").reason_code == "" ≡ false)
write_override_event-allowed_example =
    write_override_event-allowed thousandths plain seals (logged "seal-0") facts (some "typo") none
      (event_after "seal-0") waits (written "seal-0")

first_links : verify_override_chain seals "seal-0" [] ≡ none
unfolding verify_override_chain chain_fault
first_links = refl

verify_override_chain-write_override_event_example :
    verify_override_chain seals "seal-0" ([] ++ event_after "seal-0" ∷ []) ≡ none
verify_override_chain-write_override_event_example =
    verify_override_chain-write_override_event seals thousandths plain (logged "seal-0")
      (event_after "seal-0") "seal-0" [] (written "seal-0") refl first_links

one_link : verify_override_chain seals "seal-0" (event_after "seal-0" ∷ []) ≡ none
one_link =
    verify_override_chain-write_override_event seals thousandths plain (logged "seal-0")
      (event_after "seal-0") "seal-0" [] (written "seal-0") refl first_links

two_link :
    verify_override_chain seals "seal-0"
      ([] ++ event_after "seal-0" ∷ event_after (event_after "seal-0").seal ∷ [])
    ≡ none
two_link =
    verify_override_chain-write_override_event seals thousandths plain
      (logged (event_after "seal-0").seal) (event_after (event_after "seal-0").seal) "seal-0"
      (event_after "seal-0" ∷ []) (written (event_after "seal-0").seal) refl one_link
