-- ===== src/Controls/Tests.antt =====
-- lib/ap-controls/evaluate.ts at concrete invoices, with amounts in thousandths.

use aemulus.Common.{
  ℕ, ◌+◌, ◌-◌, ◌*◌, ◌/◌, ◌^◌, ◌≡◌, refl, ◌↔◌, true, false, String, none, some, [], ◌∷◌, ◌==◌, ltb,
  find,
}
use aemulus.Controls.Schema.{Numbers, controller, type_Eq, amount, OverrideRule, perms_for}
use aemulus.Controls.Override.{
  allow, Actor, OverrideInput, check_second_approver, triggered, hard_block_refusal,
  second_approval_result, evaluate_rule, evaluate_override,
}
use aemulus.Controls.Override.Authority.{Authorized, evaluate_override-Authorized}
use aemulus.Controls.AutoSubmit.{
  matched, ExtractedField, a_text, AutoSubmitInput, evaluate_auto_submit,
}
use aemulus.Controls.AutoSubmit.Gates.{Clear, evaluate_auto_submit-Clear}
use aemulus.Controls.Samples.{small_firm}

abbrev thousandths : Numbers
thousandths = record {
  Number = ℕ;
  lit = λ m k. m * 1000 / 10 ^ k;
  greater = λ a b. ltb b a;
  times = λ a b. a * b / 1000;
  minus = λ a b. a - b;
  divide = λ a b. a * 1000 / b;
  round = λ a. (a + 500) / 1000 * 1000;
}

abbrev owner : Actor
owner = record { user_id = "owner"; role = controller }

abbrev partner : Actor
partner = record { user_id = "partner"; role = controller }

-- A bill of 30,000 entered by the clerk, whose amount the owner overrides with the partner.
abbrev large_override : OverrideInput thousandths
large_override = record {
  type = amount;
  facts = record {
    total = 30000000;
    currency = "USD";
    totals_discrepancy = 0;
    gl_sensitive = false;
  };
  actor = owner;
  preparer_id = "clerk";
  second_approver = some partner;
  reason = some "typo";
  config = small_firm thousandths;
}

allowed : (evaluate_override thousandths (λ s. s) large_override).decision ≡ allow
unfolding evaluate_override evaluate_rule hard_block_refusal second_approval_result
    check_second_approver triggered small_firm perms_for
allowed = refl

evaluate_override-Authorized_example :
    ((evaluate_override thousandths (λ s. s) large_override).decision ≡ allow) ↔ (
      (rule : OverrideRule thousandths) × (find
          (λ r. r.type == large_override.type)
          large_override.config.overrides
        ≡ some rule)
      × Authorized thousandths (λ s. s) large_override rule)
evaluate_override-Authorized_example =
    evaluate_override-Authorized thousandths (λ s. s) large_override

abbrev read_field : String → ExtractedField thousandths
read_field name = record { field = name; value = a_text "x"; confidence = 950 }

abbrev small_bill : AutoSubmitInput thousandths
small_bill = record {
  facts = record {
    total = 400000;
    currency = "USD";
    invoice_date = 1000;
    vendor_status = matched;
    duplicate_of = none;
    totals_reconciled = true;
    totals_discrepancy = 0;
    gl_account = some "Rent";
    gl_sensitive = false;
    used_fallback_on_critical = false;
    outcome_confirmed = true;
  };
  fields = read_field "vendor" ∷ read_field "total" ∷ [];
  config = small_firm thousandths;
  now = 2000;
}

evaluate_auto_submit-Clear_example :
    ((evaluate_auto_submit thousandths small_bill).decision ≡ allow) ↔ Clear thousandths small_bill
evaluate_auto_submit-Clear_example = evaluate_auto_submit-Clear thousandths small_bill
