-- ===== src/Ap/Entering/Tests.antt =====
-- lib/ap-controls/qbo-submit.ts and decide.ts at a concrete invoice, over an empty store.
use text.Mathlib.TextEquality.{eq_iff}
use aemulus.Common.{
  ℕ, zero, suc, ◌≡◌, ◌≢◌, refl, false, String, none, [], Result, ok, err, sort, insert_sorted,
  lookup, put, arith,
}
use aemulus.Common.Int.{pos}
use aemulus.Ap.Json.{decimal, canonicalize, join, sorted_entries, entry_texts}
use aemulus.Ap.Store.{
  Actor, ApDb, AppendError, EventRow, invoice_review_paused, read_aggregate, load_head,
}
use aemulus.Ap.Store.Append.{
  seal_for_version, head_mac, head_refusal, extension_refusal, sealed_row, prepare, advance_head,
  commit, append_ap_event,
}
use aemulus.Ap.Store.Verify.{VerifyResult, row_fault, first_fault, check_head, verify_aggregate}
use aemulus.Ap.Store.Tests.{seals, event}
use aemulus.Ap.Projections.{
  upcaster, upcast_from, upcast, upcast_row, load_aggregate, get_field, pause,
}
use aemulus.Ap.Projections.Folds.{
  apply_entry, entry_step, entry_loop, fold_invoice_entry_state, project_invoice_entry,
}
use aemulus.Ap.Bills.{find_bill, record_ledger_bill}
use aemulus.Ap.Bills.Numbering.{IsNumbered, record_ledger_bill-IsNumbered}
use aemulus.Ap.Entering.{
  World, unconnected, unavailable, EnterInvoiceInput, Entered, EnterResult, entered, key_of,
  existing, on_append, seal_entry, make_bill, enter_invoice,
}
use aemulus.Ap.Entering.Settled.{enter_invoice-again}
use aemulus.Ap.Entering.Deciding.{
  DecideInput, DecideError, DecideResult, done_rejected, reject, declined, reject_invoice, act_on,
  decide_invoice,
}
use aemulus.Ap.Entering.Decided.{decide_invoice-guarded}

abbrev marks : ℕ → String
marks zero = "0"
marks (suc n) = "n"

abbrev clerk : Actor
clerk = record { user_id = "u"; role = "clerk" }

abbrev bill_seven : EnterInvoiceInput
bill_seven = record {
  invoice_id = "bill-7";
  vendor_name = "Acme";
  doc_number = "7";
  amount = decimal (pos 95) 1;
  total = decimal (pos 95) 1;
  currency = "USD";
  actor = clerk;
  auto = false;
  now = 5;
  workspace_id = "w";
  event_id = "e-1";
}

abbrev empty_world : World
empty_world = record {
  ap = record { events = []; heads = [] };
  bills = record { rows = []; last_no = 0 };
}

abbrev alone : World → World
alone w = w

abbrev get_entered : Result AppendError EnterResult → Entered
get_entered (ok (entered e)) = e
get_entered _ = record {
  bill_number = "";
  target = "";
  verify = VerifyResult.valid 0;
  seal = "";
  deduped = false;
}

unfoldable first_entry : Result AppendError EnterResult × World
unfolding enter_invoice make_bill
first_entry = enter_invoice seals marks unconnected alone empty_world bill_seven

first_entered :
    enter_invoice seals marks unconnected alone empty_world bill_seven
    ≡ (ok (entered (get_entered first_entry.0)), first_entry.1)
unfolding first_entry enter_invoice make_bill seal_entry on_append existing append_ap_event prepare
    commit read_aggregate extension_refusal head_refusal sealed_row seal_for_version canonicalize
    advance_head head_mac load_head sort insert_sorted join sorted_entries entry_texts lookup put
    project_invoice_entry load_aggregate fold_invoice_entry_state entry_loop entry_step apply_entry
    upcast_row upcast upcast_from upcaster get_field record_ledger_bill find_bill verify_aggregate
    first_fault row_fault check_head
first_entered = refl

numbered : (get_entered first_entry.0).bill_number ≢ ""
unfolding first_entry enter_invoice make_bill seal_entry on_append existing append_ap_event prepare
    commit read_aggregate extension_refusal head_refusal sealed_row seal_for_version canonicalize
    advance_head head_mac load_head sort insert_sorted join sorted_entries entry_texts lookup put
    project_invoice_entry load_aggregate fold_invoice_entry_state entry_loop entry_step apply_entry
    upcast_row upcast upcast_from upcaster get_field record_ledger_bill find_bill
numbered h = ground (arith, eq_iff "AEM-n" "", h)

enter_invoice-again_example :
    enter_invoice seals marks unavailable alone first_entry.1 bill_seven ≡ (
      ok (
          entered (
            existing seals first_entry.1
              (key_of bill_seven)
              (get_entered first_entry.0).bill_number
              "ledger")),
      first_entry.1,
    )
enter_invoice-again_example =
    enter_invoice-again seals marks bill_seven unconnected unavailable alone alone empty_world
      first_entry.1 (get_entered first_entry.0) bill_seven first_entered numbered refl

record_ledger_bill-IsNumbered_example :
    IsNumbered
      (record_ledger_bill empty_world.bills (record {
        workspace_id = "w";
        invoice_id = "bill-7";
        vendor = "Acme";
        doc_number = "7";
        amount = decimal (pos 95) 1;
        currency = "USD";
        now = 5;
      })).0
record_ledger_bill-IsNumbered_example =
    record_ledger_bill-IsNumbered empty_world.bills _ (record { given = tt; apart = tt })

abbrev decision : DecideInput
decision = record {
  invoice_id = "bill-7";
  workspace_id = "w";
  actor = clerk;
  action = reject;
  reason_code = "wrong";
  note = none;
  can_enter = false;
  now = 6;
  decision_id = "e-2";
  entry_id = "e-3";
}

decide_invoice-guarded_example :
    (e : DecideError) × (decide_invoice seals
        (enter_invoice seals marks unconnected alone)
        empty_world
        decision
      ≡ (ok (declined e), empty_world))
unfolding project_invoice_entry load_aggregate read_aggregate fold_invoice_entry_state entry_loop
    sort
decide_invoice-guarded_example =
    decide_invoice-guarded seals (enter_invoice seals marks unconnected alone) empty_world decision
      refl

-- The invoice waits for a person.
abbrev get_ap : Result AppendError (ApDb × EventRow) → ApDb
get_ap (ok (db, row)) = db
get_ap (err e) = empty_world.ap

abbrev reviewed_world : World
reviewed_world = record empty_world {
  ap = get_ap (append_ap_event seals empty_world.ap (event "a" invoice_review_paused));
}

unfoldable decided : Result AppendError DecideResult × World
decided = decide_invoice seals (enter_invoice seals marks unconnected alone) reviewed_world decision

decided_rejected : decided.0 ≡ ok done_rejected
unfolding decided decide_invoice act_on reject_invoice append_ap_event prepare commit read_aggregate
    extension_refusal head_refusal sealed_row seal_for_version canonicalize advance_head head_mac
    load_head sort insert_sorted join sorted_entries entry_texts lookup put project_invoice_entry
    load_aggregate fold_invoice_entry_state entry_loop entry_step apply_entry upcast_row upcast
    upcast_from upcaster get_field pause
decided_rejected = refl
