-- ===== src/Ap/Projections/Folds.antt =====
-- lib/ap-controls/projections.ts: the folds, and the queue of invoices that wait for a person.
use aemulus.Common.{
  ℕ, ◌-◌, Bool, true, false, not, ◌&&◌, ◌||◌, String, string_Eq, Option, none, some, List, [], ◌∷◌,
  map, keep, sort, ltb,
}
use aemulus.Common.Int.{ℤ, pos, negsuc}
use aemulus.Ap.Json.{Number}
use aemulus.Ap.Store.{
  EventType, invoice_override, invoice_submitted, invoice_review_paused, invoice_rejected,
  vendor_requested, vendor_approved, vendor_bank_verified, Key, EventRow, ApDb,
}
use aemulus.Ap.Projections.{
  read_field, as_text, as_number, as_bool, or_else, or_option, load_aggregate, new, needs_review,
  submitted, rejected, InvoiceEntryState, first_id, initial_entry, stamp, pause, override,
}

abbrev pub reject : InvoiceEntryState → InvoiceEntryState
reject s = record s {
  status = rejected;
  pending_second_approval = false;
  reason_codes = [];
  top_reason_code = none;
}

abbrev pub submit : InvoiceEntryState → EventRow → InvoiceEntryState
submit s e =
    let p = read_field e.payload in
    record s {
      status = submitted;
      bill_number = as_text (p "billNumber");
      amount = or_option (as_number (p "total")) s.amount;
      currency = or_option (as_text (p "currency")) s.currency;
      enter_target = some (or_else (as_text (p "target")) "ledger");
      submitted_auto = as_bool (p "auto");
      pending_second_approval = false;
      reason_codes = [];
      top_reason_code = none;
    }

-- The `switch` over the type of an event.
unfoldable pub apply_entry : EventType → InvoiceEntryState → EventRow → InvoiceEntryState
unfolding pause
apply_entry invoice_review_paused s e = pause s e
apply_entry invoice_override s e = override s e
apply_entry invoice_rejected s e = reject s
apply_entry invoice_submitted s e = submit s e
apply_entry _ s e = s

unfoldable pub entry_step : InvoiceEntryState → EventRow → InvoiceEntryState
unfolding apply_entry
entry_step s e = apply_entry e.event_type (stamp s e) e

unfoldable pub entry_loop : InvoiceEntryState → List EventRow → InvoiceEntryState
entry_loop s [] = s
entry_loop s (e ∷ es) = entry_loop (entry_step s e) es

unfoldable pub fold_invoice_entry_state : List EventRow → InvoiceEntryState
fold_invoice_entry_state events = entry_loop (initial_entry (first_id events)) events

unfoldable pub project_invoice_entry : ApDb → Key → InvoiceEntryState
project_invoice_entry db k = fold_invoice_entry_state (load_aggregate db k)

pub data VendorStatus : Type 0 where
  absent requested approved : VendorStatus

pub record BankVerification : Type 0 where
  pub method : String
  pub verified_by : String
  pub at : ℕ

pub record VendorMasterState : Type 0 where
  pub vendor_id : String
  pub name : Option String
  pub status : VendorStatus
  pub has_bank_details : Bool
  pub bank_verified : Bool
  pub bank_verification : Option BankVerification
  pub first_invoice_review : Option Bool
  pub last_seq : ℤ
  pub last_event_at : Option ℕ
  pub latest_seal : Option String

abbrev pub initial_vendor : String → VendorMasterState
initial_vendor id = record {
  vendor_id = id;
  name = none;
  status = absent;
  has_bank_details = false;
  bank_verified = false;
  bank_verification = none;
  first_invoice_review = none;
  last_seq = negsuc 0;
  last_event_at = none;
  latest_seal = none;
}

abbrev pub apply_vendor : EventType → VendorMasterState → EventRow → VendorMasterState
apply_vendor vendor_requested s e = record s {
  status = requested;
  name = or_option (as_text (read_field e.payload "name")) s.name;
  has_bank_details = or_else (as_bool (read_field e.payload "hasBankDetails")) s.has_bank_details;
}
apply_vendor vendor_approved s e = record s {
  status = approved;
  first_invoice_review = as_bool (read_field e.payload "firstInvoiceReview");
}
apply_vendor vendor_bank_verified s e = record s {
  bank_verified = true;
  bank_verification = some (record {
    method = or_else (as_text (read_field e.payload "method")) "";
    verified_by = or_else (as_text (read_field e.payload "verifiedBy")) "";
    at = e.created_at;
  });
}
apply_vendor _ s e = s

unfoldable pub vendor_step : VendorMasterState → EventRow → VendorMasterState
vendor_step s e =
    apply_vendor e.event_type
      (record s {
        last_seq = pos e.seq;
        last_event_at = some e.created_at;
        latest_seal = some e.seal;
      })
      e

unfoldable pub vendor_loop : VendorMasterState → List EventRow → VendorMasterState
vendor_loop s [] = s
vendor_loop s (e ∷ es) = vendor_loop (vendor_step s e) es

unfoldable pub fold_vendor_master_state : List EventRow → VendorMasterState
fold_vendor_master_state events = vendor_loop (initial_vendor (first_id events)) events

pub record InvoiceQueueItem : Type 0 where
  pub invoice_id : String
  pub top_reason : Option String
  pub amount : Option Number
  pub currency : Option String
  pub vendor : Option String
  pub age_ms : ℕ
  pub pending_second_approval : Bool
  pub latest_seal : Option String

abbrev pub is_waiting : InvoiceEntryState → Bool
is_waiting s = elim s.status [
  | new ↦ false
  | needs_review ↦ true
  | submitted ↦ false
  | rejected ↦ false
]

-- `Math.max(0, now - …)` is the subtraction that stops at 0.
abbrev pub queue_item : ℕ → InvoiceEntryState → InvoiceQueueItem
queue_item now s = record {
  invoice_id = s.invoice_id;
  top_reason = s.top_reason_code;
  amount = s.amount;
  currency = s.currency;
  vendor = s.vendor;
  age_ms = now - or_else (or_option s.entered_review_at s.last_event_at) now;
  pending_second_approval = s.pending_second_approval;
  latest_seal = s.latest_seal;
}

-- The comparator: is the first item placed before the second?
abbrev pub is_ahead : InvoiceQueueItem → InvoiceQueueItem → Bool
is_ahead a b =
    (a.pending_second_approval && not b.pending_second_approval)
    || (not (not a.pending_second_approval && b.pending_second_approval) && ltb b.age_ms a.age_ms)

unfoldable pub build_invoice_queue : List InvoiceEntryState → ℕ → List InvoiceQueueItem
build_invoice_queue states now = sort is_ahead (map (queue_item now) (keep is_waiting states))
