-- ===== src/Ap/Entering.antt =====
-- lib/ap-controls/qbo-submit.ts, decide.ts and intake.ts: the handlers that enter an invoice, over
-- the event store and the ledger of bills. What QuickBooks answers is a parameter.
pub mod Sealing
pub mod Settled
pub mod Deciding
pub mod Decided
mod Tests
use aemulus.Common.{
  ℕ, zero, suc, ◌+◌, ltb, Bool, true, false, not, ◌&&◌, ◌||◌, String, string_Eq, Option, none, some,
  List, [], ◌∷◌, ◌==◌, if◌then◌else◌, any, Result, ok, err,
}
use aemulus.Common.Int.{ℤ, pos, negsuc}
use aemulus.Ap.Json.{Number, decimal, Json, str, num, bool, obj, Fields, field, end}
use aemulus.Ap.Store.{
  invoice, EventType, invoice_received, invoice_override, invoice_rejected, invoice_submitted, Key,
  Actor, EventRow, ApDb, AppendInput, AppendError, sequence_conflict, head_integrity, Seals,
}
use aemulus.Ap.Store.Append.{append_ap_event}
use aemulus.Ap.Store.Verify.{VerifyResult, verify_aggregate}
use aemulus.Ap.Projections.{
  EntryStatus, new, needs_review, submitted, rejected, InvoiceEntryState, or_else,
}
use aemulus.Ap.Projections.Folds.{project_invoice_entry}
use aemulus.Ap.Bills.{
  BillTable, LedgerBillInput, record_ledger_bill, delete_ledger_bill, bill_number,
}

-- The tables that the handlers write.
pub record World : Type 0 where
  pub ap : ApDb
  pub bills : BillTable

-- What `qboConfigFromConnection` and `writeInvoiceToQbo` answer.
pub data QboAnswer : Type 0 where
  unavailable unconnected in_progress : QboAnswer
  posted failed : String → QboAnswer

pub record EnterInvoiceInput : Type 0 where
  pub invoice_id : String
  pub vendor_name : String
  pub doc_number : String
  pub amount : Number
  pub total : Number
  pub currency : String
  pub actor : Actor
  pub auto : Bool
  pub now : ℕ
  pub workspace_id : String
  pub event_id : String

pub data EnterTarget : Type 0 where
  quickbooks ledger : EnterTarget

abbrev pub target_name : EnterTarget → String
target_name quickbooks = "quickbooks"
target_name ledger = "ledger"

pub record Entered : Type 0 where
  pub bill_number : String
  pub target : String
  pub verify : VerifyResult
  pub seal : String
  pub deduped : Bool

pub data EnterResult : Type 0 where
  entered : Entered → EnterResult
  refused : String → EnterResult

abbrev pub invoice_key : String → String → Key
invoice_key workspace id = record {
  workspace_id = workspace;
  aggregate_type = invoice;
  aggregate_id = id;
}

abbrev pub key_of : EnterInvoiceInput → Key
key_of i = invoice_key i.workspace_id i.invoice_id

-- `x.billNumber` as a condition: there, and not the empty text.
abbrev pub given_bill : Option String → Option String
given_bill none = none
given_bill (some b) = if b == "" then none else some b

-- The bill of an invoice that is submitted.
abbrev pub submitted_bill : InvoiceEntryState → Option String
submitted_bill st = elim st.status [ submitted ↦ given_bill st.bill_number | _ ↦ none ]

-- `pre.lastSeq + 1`.
abbrev pub after_seq : ℤ → ℕ
after_seq (pos n) = n + 1
after_seq (negsuc n) = 0

abbrev pub bill_input : EnterInvoiceInput → LedgerBillInput
bill_input i = record {
  workspace_id = i.workspace_id;
  invoice_id = i.invoice_id;
  vendor = i.vendor_name;
  doc_number = i.doc_number;
  amount = i.amount;
  currency = i.currency;
  now = i.now;
}

abbrev pub submission : EnterInvoiceInput → ℤ → String → EnterTarget → AppendInput
submission i last bill target = record {
  key = key_of i;
  event_type = invoice_submitted;
  event_version = none;
  payload = obj (
      field "billNumber" (str bill) (
        field "total" (num i.total) (
          field "currency" (str i.currency)
            (field "auto" (bool i.auto) (field "target" (str (target_name target)) end)))));
  actor = i.actor;
  now = i.now;
  id = i.event_id;
  expected_seq = some (after_seq last);
}

unfoldable pub roll_back : EnterTarget → EnterInvoiceInput → World → World
roll_back quickbooks i w = w
roll_back ledger i w = record w { bills = delete_ledger_bill w.bills i.workspace_id i.invoice_id }

module _ (s : Seals) where
  -- The answer for an invoice that is entered already.
  unfoldable pub existing : World → Key → String → String → Entered
  existing w k bill target =
      let st = project_invoice_entry w.ap k in
      record {
        bill_number = bill;
        target = or_else st.enter_target target;
        verify = verify_aggregate s w.ap k;
        seal = or_else st.latest_seal "";
        deduped = true;
      }

  -- Another writer took the position: its submission is the answer, or the bill is taken back.
  unfoldable pub on_conflict :
      World → EnterInvoiceInput → EnterTarget → Result AppendError EnterResult × World
  unfolding existing roll_back
  on_conflict w i target = elim (submitted_bill (project_invoice_entry w.ap (key_of i))) [
    | some b ↦ (ok (entered (existing w (key_of i) b (target_name target))), w)
    | none ↦ (ok (refused "in_progress"), roll_back target i w)
  ]

  -- What follows the answer of the append.
  unfoldable pub on_append :
      World
      → EnterInvoiceInput
      → String
      → EnterTarget
      → Result AppendError (ApDb × EventRow)
      → Result AppendError EnterResult × World
  unfolding on_conflict
  on_append w i bill target (ok (db, row)) = (
    ok (
        entered (record {
          bill_number = bill;
          target = target_name target;
          verify = verify_aggregate s db (key_of i);
          seal = row.seal;
          deduped = false;
        })),
    record w { ap = db },
  )
  on_append w i bill target (err (sequence_conflict a b)) = on_conflict w i target
  on_append w i bill target (err head_integrity) = (err head_integrity, roll_back target i w)

  unfoldable pub seal_entry :
      World → EnterInvoiceInput → ℤ → String → EnterTarget → Result AppendError EnterResult × World
  unfolding on_append
  seal_entry w i last bill target =
      on_append w i bill target (append_ap_event s w.ap (submission i last bill target))

  -- The bill is made, other requests may write, and the bill is sealed.
  unfoldable pub make_bill :
      (ℕ → String)
      → QboAnswer
      → (World → World)
      → World
      → EnterInvoiceInput
      → ℤ
      → Result AppendError EnterResult × World
  unfolding seal_entry
  make_bill show unavailable others w i last = (ok (refused "qbo_unavailable"), w)
  make_bill show in_progress others w i last = (ok (refused "in_progress"), w)
  make_bill show (failed e) others w i last = (ok (refused e), w)
  make_bill show (posted bill) others w i last = seal_entry (others w) i last bill quickbooks
  make_bill show unconnected others w i last =
      let (bills, number) = record_ledger_bill w.bills (bill_input i) in
      seal_entry (others (record w { bills = bills })) i last (bill_number show number) ledger

  unfoldable pub enter_invoice :
      (ℕ → String)
      → QboAnswer
      → (World → World)
      → World
      → EnterInvoiceInput
      → Result AppendError EnterResult × World
  unfolding make_bill existing
  enter_invoice show qbo others w i =
      let pre = project_invoice_entry w.ap (key_of i) in
      elim (submitted_bill pre) [
        | some b ↦ (ok (entered (existing w (key_of i) b "ledger")), w)
        | none ↦ make_bill show qbo others w i pre.last_seq
      ]
