-- ===== src/Ap/Entering/Deciding.antt =====
-- lib/ap-controls/decide.ts and intake.ts: a reviewer's decision on an invoice, and an uploaded
-- invoice that is sealed as received and then entered.
use aemulus.Common.{
  ℕ, ltb, Bool, true, false, not, String, string_Eq, Option, none, some, ◌==◌, if◌then◌else◌, any,
  Result, ok, err,
}
use aemulus.Common.Int.{pos, negsuc}
use aemulus.Ap.Json.{Number, decimal, str, obj, Fields, field, end}
use aemulus.Ap.Store.{
  invoice_override, invoice_rejected, EventType, Actor, AppendInput, AppendError, sequence_conflict,
  head_integrity, Seals,
}
use aemulus.Ap.Store.Append.{append_ap_event}
use aemulus.Ap.Projections.{EntryStatus, needs_review, InvoiceEntryState, or_else}
use aemulus.Ap.Projections.Folds.{project_invoice_entry}
use aemulus.Ap.Entering.{
  World, EnterInvoiceInput, Entered, EnterResult, entered, refused, invoice_key,
}

pub data DecideAction : Type 0 where
  approve reject : DecideAction

pub record DecideInput : Type 0 where
  pub invoice_id : String
  pub workspace_id : String
  pub actor : Actor
  pub action : DecideAction
  pub reason_code : String
  pub note : Option String
  pub can_enter : Bool
  pub now : ℕ
  -- The ids that `newId` makes for the event of the decision and of the entry.
  pub decision_id : String
  pub entry_id : String

pub data DecideError : Type 0 where
  already : EntryStatus → DecideError
  no_reason limit_reached no_amount in_progress : DecideError
  not_entered : String → DecideError

pub data DecideResult : Type 0 where
  done_rejected : DecideResult
  done_submitted : Entered → DecideResult
  declined : DecideError → DecideResult

abbrev pub http_status : DecideError → ℕ
http_status (already status) = 409
http_status in_progress = 409
http_status (not_entered why) = if why == "in_progress" then 409 else 400
http_status _ = 400

abbrev pub with_note : Option String → Fields
with_note none = end
with_note (some note) = field "note" (str note) end

abbrev pub decision_event : DecideInput → EventType → Fields → AppendInput
decision_event i type payload = record {
  key = invoice_key i.workspace_id i.invoice_id;
  event_type = type;
  event_version = none;
  payload = obj payload;
  actor = i.actor;
  now = i.now;
  id = i.decision_id;
  expected_seq = none;
}

abbrev pub rejection : DecideInput → AppendInput
rejection i =
    decision_event i invoice_rejected (field "reasonCode" (str i.reason_code) (with_note i.note))

abbrev pub clearance : DecideInput → AppendInput
clearance i = decision_event i invoice_override (
    field "type" (str "review") (
      field "field" (str "review") (
        field "originalValue" (str "flagged") (
          field "newValue" (str "cleared")
            (field "reasonCode" (str i.reason_code) (with_note i.note))))))

-- `amount > 0`, where a missing amount is 0.
abbrev pub is_positive : Option Number → Bool
is_positive none = false
is_positive (some (decimal (pos n) k)) = ltb 0 n
is_positive (some (decimal (negsuc n) k)) = false

abbrev pub amount_of : Option Number → Number
amount_of none = decimal (pos 0) 0
amount_of (some a) = a

abbrev pub entry_of : DecideInput → InvoiceEntryState → EnterInvoiceInput
entry_of i st = record {
  invoice_id = i.invoice_id;
  vendor_name = or_else st.vendor "Unknown vendor";
  doc_number = i.invoice_id;
  amount = amount_of st.amount;
  total = amount_of st.amount;
  currency = or_else st.currency "USD";
  actor = i.actor;
  auto = false;
  now = i.now;
  workspace_id = i.workspace_id;
  event_id = i.entry_id;
}

abbrev pub Outcome : Type 0
Outcome = Result AppendError DecideResult × World

-- `state.overrides.some((o) => o.field === "review")`.
abbrev pub is_cleared : InvoiceEntryState → Bool
is_cleared st = any (λ o. o.field_name == "review") st.overrides

abbrev pub reviewable : InvoiceEntryState → Bool
reviewable st = elim st.status [ needs_review ↦ true | _ ↦ false ]

-- The answer of an entry, as the decision's.
abbrev pub of_entry : Result AppendError EnterResult → Result AppendError DecideResult
of_entry (ok (entered e)) = ok (done_submitted e)
of_entry (ok (refused why)) = ok (declined (not_entered why))
of_entry (err e) = err e

abbrev pub enter_as :
    (World → EnterInvoiceInput → Result AppendError EnterResult × World)
    → World
    → EnterInvoiceInput
    → Outcome
enter_as enter w i = let (r, w') = enter w i in (of_entry r, w')

module _ (s : Seals)
    (enter : World → EnterInvoiceInput → Result AppendError EnterResult × World) where
  unfoldable pub reject_invoice : World → DecideInput → Outcome
  reject_invoice w i = elim (append_ap_event s w.ap (rejection i)) [
    | err e ↦ (err e, w)
    | ok (db, row) ↦ (ok done_rejected, record w { ap = db })
  ]

  unfoldable pub clear_and_enter : World → DecideInput → InvoiceEntryState → Outcome
  clear_and_enter w i st = elim (append_ap_event s w.ap (clearance i)) [
    | err (sequence_conflict a b) ↦ (ok (declined in_progress), w)
    | err head_integrity ↦ (err head_integrity, w)
    | ok (db, row) ↦ enter_as enter (record w { ap = db }) (entry_of i st)
  ]

  unfoldable pub approve_invoice : World → DecideInput → InvoiceEntryState → Outcome
  unfolding clear_and_enter
  approve_invoice w i st =
      if not i.can_enter
      then (ok (declined limit_reached), w)
      else if not (is_positive st.amount)
      then (ok (declined no_amount), w)
      else if is_cleared st
      then enter_as enter w (entry_of i st)
      else clear_and_enter w i st

  unfoldable pub act_on : DecideAction → World → DecideInput → InvoiceEntryState → Outcome
  unfolding approve_invoice reject_invoice
  act_on reject w i st = reject_invoice w i
  act_on approve w i st = approve_invoice w i st

  unfoldable pub decide_invoice : World → DecideInput → Outcome
  unfolding act_on
  decide_invoice w i =
      let st = project_invoice_entry w.ap (invoice_key i.workspace_id i.invoice_id) in
      if not (reviewable st)
      then (ok (declined (already st.status)), w)
      else if i.reason_code == ""
      then (ok (declined no_reason), w)
      else act_on i.action w i st
