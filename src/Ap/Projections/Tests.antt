-- ===== src/Ap/Projections/Tests.antt =====
-- lib/ap-controls/projections.ts at concrete streams.

use aemulus.Common.{◌≡◌, refl, true, List, [], ◌∷◌}
use aemulus.Common.Int.{pos}
use aemulus.Ap.Json.{decimal, obj, field, end, bool, num}
use aemulus.Ap.Store.{EventRow, invoice_rejected, invoice_review_paused}
use aemulus.Ap.Store.Tests.{
  seals, bill, event, one_event, first_row, second_row, two_events, second_append, last_one,
}
use aemulus.Ap.Projections.{upcast_row, InvoiceEntryState, get_field, pause}
use aemulus.Ap.Projections.Folds.{
  apply_entry, entry_step, entry_loop, fold_invoice_entry_state, project_invoice_entry,
}
use aemulus.Ap.Projections.Replay.{Follows, project_invoice_entry-append_ap_event}

abbrev paused_row : EventRow
paused_row = record first_row {
  unsealed = record first_row.unsealed {
    event_type = invoice_review_paused;
    payload = obj (
        field "amount" (num (decimal (pos 95) 1)) (field "requiresSecondApproval" (bool true) end));
  };
}

waiting : (fold_invoice_entry_state (paused_row ∷ [])).pending_second_approval ≡ true
unfolding fold_invoice_entry_state entry_loop entry_step apply_entry pause get_field
waiting = refl

project_invoice_entry-append_ap_event_example :
    Follows second_row.event_type
      (upcast_row second_row)
      (project_invoice_entry one_event bill)
      (project_invoice_entry two_events bill)
project_invoice_entry-append_ap_event_example =
    project_invoice_entry-append_ap_event seals one_event two_events (event "b" invoice_rejected)
      second_row first_row second_append last_one

abbrev states : List InvoiceEntryState
states = fold_invoice_entry_state (paused_row ∷ []) ∷ fold_invoice_entry_state (first_row ∷ []) ∷ []
