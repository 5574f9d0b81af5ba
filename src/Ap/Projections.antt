-- ===== src/Ap/Projections.antt =====
-- lib/ap-controls/projections.ts: the read models folded from the event streams, and the up-casting
-- of stored payloads in lib/ap-controls/store.ts.
pub mod Folds
pub mod Replay
pub mod Order
mod Tests
use aemulus.Common.{
  ℕ, zero, suc, ◌+◌, ◌-◌, Bool, true, false, not, ◌&&◌, ◌||◌, String, string_Eq, Option, none, some,
  List, [], ◌∷◌, ◌++◌, map, ◌==◌, if◌then◌else◌, keep, sort, ltb, nat_eq,
}
use aemulus.Common.Int.{ℤ, pos, negsuc}
use aemulus.Ap.Json.{
  Number, Json, null, num, str, bool, arr, obj, Items, nil, cons, Fields, end, field,
}
use aemulus.Ap.Store.{
  EventType, invoice_received, invoice_override, invoice_submitted, invoice_review_paused,
  invoice_rejected, vendor_requested, vendor_approved, vendor_bank_verified, Key, EventRow, ApDb,
  current_version, read_aggregate,
}

-- `p[k]`: of two entries with one key the later one counts.
unfoldable pub get_field : String → Fields → Option Json
get_field k end = none
get_field k (field j v fs) =
    let later = get_field k fs in
    elim later [ some w ↦ some w | none ↦ if j == k then some v else none ]

abbrev pub read_field : Json → String → Option Json
read_field (obj fs) k = get_field k fs
read_field _ k = none

abbrev pub as_text : Option Json → Option String
as_text (some (str s)) = some s
as_text _ = none

abbrev pub as_number : Option Json → Option Number
as_number (some (num n)) = some n
as_number _ = none

abbrev pub as_bool : Option Json → Option Bool
as_bool (some (bool b)) = some b
as_bool _ = none

unfoldable pub texts_of : Items → List String
texts_of nil = []
texts_of (cons (str s) xs) = s ∷ texts_of xs
texts_of (cons _ xs) = texts_of xs

unfoldable pub as_texts : Option Json → List String
unfolding texts_of
as_texts (some (arr xs)) = texts_of xs
as_texts _ = []

-- `x ?? y`.
abbrev pub or_else {ℓ} : {A : Type ℓ} → Option A → A → A
or_else none d = d
or_else (some x) d = x

abbrev pub or_option {ℓ} : {A : Type ℓ} → Option A → Option A → Option A
or_option none o = o
or_option (some x) o = some x

abbrev pub first_of : List String → Option String
first_of [] = none
first_of (x ∷ xs) = some x

-- An object without an entry, and the up-cast of a submission from version 1.
unfoldable pub without : String → Fields → Fields
without k end = end
without k (field j v fs) = let rest = without k fs in if j == k then rest else field j v rest

abbrev pub with_total : Option Json → Fields → Fields
with_total none fs = fs
with_total (some v) fs = field "total" v fs

unfoldable pub total_from_amount : Json → Json
total_from_amount (obj fs) =
    obj (with_total (get_field "amount" fs) (without "total" (without "amount" fs)))
total_from_amount p = p

-- `UPCASTERS[eventType]?.[v]`.
unfoldable pub upcaster : EventType → ℕ → Option (Json → Json)
unfolding total_from_amount
upcaster invoice_submitted (suc zero) = some total_from_amount
upcaster _ _ = none

-- The loop of `upcast`, on fuel: the versions still to go.
unfoldable pub upcast_from : ℕ → EventType → ℕ → Json → ℕ × Json
upcast_from zero type v p = (v, p)
upcast_from (suc left) type v p = elim (upcaster type v) [
  | none ↦ (v, p)
  | some up ↦ upcast_from left type (v + 1) (up p)
]

unfoldable pub upcast : EventType → ℕ → Json → ℕ × Json
upcast type from payload = upcast_from (current_version type - from) type from payload

unfoldable pub upcast_row : EventRow → EventRow
unfolding upcast
upcast_row r = record r {
  unsealed = record r.unsealed {
    event_version = (upcast r.event_type r.event_version r.payload).0;
    payload = (upcast r.event_type r.event_version r.payload).1;
  };
}

unfoldable pub load_aggregate : ApDb → Key → List EventRow
unfolding upcast_row
load_aggregate db k = map upcast_row (read_aggregate db k)

pub data EntryStatus : Type 0 where
  new needs_review submitted rejected : EntryStatus

pub record OverrideSummary : Type 0 where
  pub type : String
  pub field_name : String
  pub from : Json
  pub to : Json
  pub at : ℕ

pub record InvoiceEntryState : Type 0 where
  pub invoice_id : String
  pub status : EntryStatus
  pub amount : Option Number
  pub currency : Option String
  pub vendor : Option String
  pub top_reason_code : Option String
  pub reason_codes : List String
  pub pending_second_approval : Bool
  pub overrides : List OverrideSummary
  pub bill_number : Option String
  pub enter_target : Option String
  pub submitted_auto : Option Bool
  pub entered_review_at : Option ℕ
  pub last_seq : ℤ
  pub last_event_at : Option ℕ
  pub latest_seal : Option String

abbrev pub first_id : List EventRow → String
first_id [] = ""
first_id (e ∷ es) = e.key.aggregate_id

abbrev pub initial_entry : String → InvoiceEntryState
initial_entry id = record {
  invoice_id = id;
  status = new;
  amount = none;
  currency = none;
  vendor = none;
  top_reason_code = none;
  reason_codes = [];
  pending_second_approval = false;
  overrides = [];
  bill_number = none;
  enter_target = none;
  submitted_auto = none;
  entered_review_at = none;
  last_seq = negsuc 0;
  last_event_at = none;
  latest_seal = none;
}

-- The position, time and seal that every event leaves.
abbrev pub stamp : InvoiceEntryState → EventRow → InvoiceEntryState
stamp s e = record s {
  last_seq = pos e.seq;
  last_event_at = some e.created_at;
  latest_seal = some e.seal;
}

unfoldable pub pause : InvoiceEntryState → EventRow → InvoiceEntryState
unfolding texts_of
pause s e =
    let p = read_field e.payload in
    record s {
      status = needs_review;
      reason_codes = as_texts (p "reasonCodes");
      top_reason_code =
          or_option (as_text (p "topReasonCode")) (first_of (as_texts (p "reasonCodes")));
      amount = or_option (as_number (p "amount")) s.amount;
      currency = or_option (as_text (p "currency")) s.currency;
      vendor = or_option (as_text (p "vendor")) s.vendor;
      pending_second_approval = or_else (as_bool (p "requiresSecondApproval")) false;
      entered_review_at = or_option s.entered_review_at (some e.created_at);
    }

abbrev pub override : InvoiceEntryState → EventRow → InvoiceEntryState
override s e =
    let p = read_field e.payload in
    let name = or_else (as_text (p "field")) "" in
    record s {
      overrides =
          s.overrides
          ++ record {
            type = or_else (as_text (p "type")) "";
            field_name = name;
            from = or_else (p "originalValue") null;
            to = or_else (p "newValue") null;
            at = e.created_at;
          }
            ∷ [];
      amount =
          if name == "total" || name == "amount"
          then or_option (as_number (p "newValue")) s.amount
          else s.amount;
      vendor =
          if name == "vendor" || name == "vendorId"
          then or_option (as_text (p "newValue")) s.vendor
          else s.vendor;
      pending_second_approval = false;
    }
