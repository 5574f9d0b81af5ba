-- ===== src/Ap/Store/Tests.antt =====
-- lib/ap-controls/store.ts at a concrete stream, with toy seals in place of SHA-256 and HMAC.
use Prim.Native.String.{◌++◌ as text_append}
use text.Mathlib.TextEquality.{eq_iff}
use aemulus.Common.{
  ℕ, zero, suc, ◌+◌, ◌≡◌, ◌≢◌, refl, false, String, none, some, [], Result, ok, err, put, lookup,
  sort, insert_sorted, arith, ap,
}
use aemulus.Common.Int.{pos, negsuc}
use aemulus.Ap.Json.{Number, decimal, null, canonicalize, join, sorted_entries, entry_texts}
use aemulus.Ap.Store.{
  invoice, EventType, invoice_received, invoice_rejected, Key, EventRow, ApDb, AppendInput,
  AppendError, sequence_conflict, Seals, last_row, read_aggregate, load_head,
}
use aemulus.Ap.Store.Append.{
  seal_for_version, head_mac, head_refusal, extension_refusal, sealed_row, prepare, advance_head,
  commit, append_ap_event,
}
use aemulus.Ap.Store.Verify.{valid, row_fault, first_fault, check_head, verify_aggregate}
use aemulus.Ap.Store.Verify.Extend.{
  verify_aggregate-append_ap_event, verify_aggregate-append_ap_event_inv,
}
use aemulus.Ap.Store.Races.{here, commit-prepare_race}

abbrev marks : ℕ → String
marks zero = ""
marks (suc n) = text_append "1" (marks n)

abbrev show : Number → String
show (decimal (pos n) k) = text_append (marks n) (text_append "e" (marks k))
show (decimal (negsuc n) k) = text_append "-" (text_append (marks n) (text_append "e" (marks k)))

abbrev pub seals : Seals
seals = record {
  printing = record { quote = λ s. s; show = show; before = λ a b. false };
  sha256_hex = λ s. s;
  hmac_hex = λ k s. text_append k s;
  seal_key = "key";
}

abbrev pub bill : Key
bill = record { workspace_id = "w"; aggregate_type = invoice; aggregate_id = "bill-7" }

abbrev other_bill : Key
other_bill = record { workspace_id = "w"; aggregate_type = invoice; aggregate_id = "bill-8" }

abbrev pub event : String → EventType → AppendInput
event id type = record {
  key = bill;
  event_type = type;
  event_version = none;
  payload = null;
  actor = record { user_id = "u"; role = "approver" };
  now = 5;
  id = id;
  expected_seq = none;
}

abbrev empty : ApDb
empty = record { events = []; heads = [] }

abbrev get_db : Result AppendError (ApDb × EventRow) → ApDb
get_db (ok (db, row)) = db
get_db (err e) = empty

abbrev pub first_row : EventRow
unfolding sealed_row seal_for_version canonicalize join sorted_entries entry_texts sort
first_row = sealed_row seals (event "a" invoice_received) none

abbrev pub one_event : ApDb
unfolding append_ap_event prepare commit read_aggregate extension_refusal head_refusal sealed_row
    seal_for_version canonicalize advance_head head_mac
one_event = get_db (append_ap_event seals empty (event "a" invoice_received))

abbrev pub second_row : EventRow
unfolding sealed_row seal_for_version canonicalize join sorted_entries entry_texts sort
second_row = sealed_row seals (event "b" invoice_rejected) (some first_row)

abbrev pub two_events : ApDb
two_events = get_db (append_ap_event seals one_event (event "b" invoice_rejected))

first_append : append_ap_event seals empty (event "a" invoice_received) ≡ ok (one_event, first_row)
unfolding append_ap_event prepare commit read_aggregate extension_refusal head_refusal sealed_row
    seal_for_version canonicalize advance_head head_mac load_head sort insert_sorted join
    sorted_entries entry_texts lookup put
first_append = refl

pub second_append :
    append_ap_event seals one_event (event "b" invoice_rejected) ≡ ok (two_events, second_row)
unfolding append_ap_event prepare commit read_aggregate extension_refusal head_refusal sealed_row
    seal_for_version canonicalize advance_head head_mac load_head sort insert_sorted join
    sorted_entries entry_texts lookup put
second_append = refl

abbrev two : ℕ
two = 2

pub last_one : last_row (read_aggregate one_event bill) ≡ some first_row
unfolding append_ap_event prepare commit read_aggregate extension_refusal head_refusal sealed_row
    seal_for_version canonicalize advance_head head_mac load_head sort insert_sorted join
    sorted_entries entry_texts lookup put
last_one = refl

one_valid : verify_aggregate seals one_event bill ≡ valid 1
unfolding verify_aggregate first_fault row_fault check_head append_ap_event prepare commit
    read_aggregate extension_refusal head_refusal sealed_row seal_for_version canonicalize
    advance_head head_mac load_head sort insert_sorted join sorted_entries entry_texts lookup put
one_valid = refl

two_valid : verify_aggregate seals two_events bill ≡ valid 2
unfolding verify_aggregate first_fault row_fault check_head append_ap_event prepare commit
    read_aggregate extension_refusal head_refusal sealed_row seal_for_version canonicalize
    advance_head head_mac load_head sort insert_sorted join sorted_entries entry_texts lookup put
two_valid = refl

verify_aggregate-append_ap_event_example : verify_aggregate seals two_events bill ≡ valid 2
verify_aggregate-append_ap_event_example =
    verify_aggregate-append_ap_event seals one_event two_events (event "b" invoice_rejected)
      second_row second_append 1 one_valid

verify_aggregate-append_ap_event_inv_example :
    (n : ℕ) × (verify_aggregate seals one_event bill ≡ valid n) × (two ≡ n + 1)
verify_aggregate-append_ap_event_inv_example =
    verify_aggregate-append_ap_event_inv seals one_event two_events (event "b" invoice_rejected)
      second_row second_append first_row 2 last_one two_valid

other_key : other_bill ≢ bill
other_key h = ground (arith, eq_iff "bill-8" "bill-7", ap (λ k. k.aggregate_id) h)

-- Another writer that has read the same tail as the second append.
abbrev late_row : EventRow
unfolding sealed_row seal_for_version canonicalize join sorted_entries entry_texts sort
late_row = sealed_row seals (event "c" invoice_rejected) (some first_row)

prepared :
    (id : String)
    → prepare seals one_event one_event (event id invoice_rejected)
      ≡ ok (sealed_row seals (event id invoice_rejected) (some first_row))
unfolding prepare append_ap_event commit read_aggregate extension_refusal head_refusal sealed_row
    seal_for_version canonicalize advance_head head_mac load_head sort insert_sorted join
    sorted_entries entry_texts lookup put
prepared id = refl

committed : commit seals one_event second_row ≡ ok two_events
unfolding append_ap_event prepare commit read_aggregate extension_refusal head_refusal sealed_row
    seal_for_version canonicalize advance_head head_mac load_head sort insert_sorted join
    sorted_entries entry_texts lookup put
committed = refl

commit-prepare_race_example : commit seals two_events late_row ≡ err (sequence_conflict 1 1)
unfolding second_row late_row sealed_row
commit-prepare_race_example =
    commit-prepare_race seals one_event one_event one_event one_event one_event two_events
      two_events (event "b" invoice_rejected) (event "c" invoice_rejected) second_row late_row refl
      refl (prepared "b") (prepared "c") committed here
