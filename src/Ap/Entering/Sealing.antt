-- ===== src/Ap/Entering/Sealing.antt =====
-- lib/ap-controls/qbo-submit.ts: the projection of an invoice after an event was appended to it.
use aemulus.Common.{◌≡◌, refl, ap, ◌∙◌, String, Option, some, map, ok}
use aemulus.Common.Int.{ℤ}
use aemulus.Ap.Store.{EventRow, ApDb, AppendInput, Seals, last_row, read_aggregate}
use aemulus.Ap.Store.Append.{sealed_row, append_ap_event}
use aemulus.Ap.Store.Verify.Appended.{append_ap_event-Appended}
use aemulus.Ap.Store.Verify.Extend.{read_aggregate-append_ap_event}
use aemulus.Ap.Projections.{
  upcaster, upcast_from, upcast, upcast_row, load_aggregate, get_field, submitted,
  InvoiceEntryState, first_id, initial_entry,
}
use aemulus.Ap.Projections.Folds.{
  apply_entry, entry_step, entry_loop, fold_invoice_entry_state, project_invoice_entry,
}
use aemulus.Ap.Projections.Replay.{entry_loop-append, map-append}
use aemulus.Ap.Entering.{EnterInvoiceInput, EnterTarget, target_name, submission}

module _ (s : Seals) (db db' : ApDb) (input : AppendInput) (row : EventRow)
    (done : append_ap_event s db input ≡ ok (db', row)) where
  -- The state that the fold over the stream before has, from the id that the stream has after.
  abbrev folded : InvoiceEntryState
  folded =
      entry_loop (initial_entry (first_id (load_aggregate db' input.key)))
        (load_aggregate db input.key)

  project-append_ap_event : project_invoice_entry db' input.key ≡ entry_step folded (upcast_row row)
  unfolding project_invoice_entry fold_invoice_entry_state load_aggregate
  project-append_ap_event =
      ap
        (λ es.
          entry_loop (initial_entry (first_id (map upcast_row (read_aggregate db' input.key)))) es)
        (ap (map upcast_row) (read_aggregate-append_ap_event s db db' input row done)
          ∙ map-append upcast_row (read_aggregate db input.key) row)
      ∙ entry_loop-append _ (map upcast_row (read_aggregate db input.key)) (upcast_row row)

  -- The same, with the row written out.
  pub project-sealed_row :
      project_invoice_entry db' input.key
      ≡ entry_step folded (upcast_row (sealed_row s input (last_row (read_aggregate db input.key))))
  project-sealed_row =
      project-append_ap_event
      ∙ ap (λ r. entry_step folded (upcast_row r))
          (append_ap_event-Appended s db input db' row done).sealed

module _ (s : Seals) (st : InvoiceEntryState) (i : EnterInvoiceInput) (last : ℤ) (bill : String)
    (target : EnterTarget) (before : Option EventRow) where
  abbrev pub submitted_step : InvoiceEntryState
  submitted_step = entry_step st (upcast_row (sealed_row s (submission i last bill target) before))

  pub submission_step :
      (submitted_step.status ≡ submitted)
      × (submitted_step.bill_number ≡ some bill)
      × (submitted_step.enter_target ≡ some (target_name target))
  unfolding entry_step apply_entry upcast_row upcast upcast_from upcaster sealed_row get_field
  submission_step = (refl, refl, refl)
