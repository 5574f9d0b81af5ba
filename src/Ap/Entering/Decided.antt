-- ===== src/Ap/Entering/Decided.antt =====
-- lib/ap-controls/decide.ts: what a decision leaves in the stream of the invoice.
use aemulus.Common.{
  ℕ, ◌≡◌, refl, ap, ◌∙◌, inl, inr, Bool, true, false, not, ◌&&◌, String, string_Eq, Option, some,
  ◌==◌, Bool-cases, Result, Result-cases, ok, err, arith,
}
use aemulus.Ap.Store.{
  EventRow, AppendError, sequence_conflict, head_integrity, Seals, last_row, read_aggregate,
}
use aemulus.Ap.Store.Append.{sealed_row, append_ap_event}
use aemulus.Ap.Projections.{
  upcaster, upcast_from, upcast, upcast_row, submitted, rejected, InvoiceEntryState,
}
use aemulus.Ap.Projections.Folds.{apply_entry, entry_step, project_invoice_entry}
use aemulus.Ap.Entering.{
  World, QboAnswer, EnterInvoiceInput, EnterResult, entered, refused, invoice_key, enter_invoice,
}
use aemulus.Ap.Entering.Sealing.{project-sealed_row}
use aemulus.Ap.Entering.Settled.{InStream, enter_invoice-InStream}
use aemulus.Ap.Entering.Deciding.{
  DecideAction, approve, reject, DecideInput, DecideResult, DecideError, done_rejected,
  done_submitted, declined, rejection, clearance, is_positive, entry_of, no_amount, limit_reached,
  already, no_reason, is_cleared, reviewable, of_entry, enter_as, reject_invoice, clear_and_enter,
  approve_invoice, act_on, decide_invoice,
}

-- What a decision needs before it may write.
abbrev pub is_free_to : DecideAction → Bool → InvoiceEntryState → Bool
is_free_to reject can_enter st = true
is_free_to approve can_enter st = can_enter && is_positive st.amount

abbrev pub may_decide : World → DecideInput → Bool
may_decide w i =
    let st = project_invoice_entry w.ap (invoice_key i.workspace_id i.invoice_id) in
    reviewable st && (not (i.reason_code == "") && is_free_to i.action i.can_enter st)

module _ (s : Seals) where
  act_on_unfree :
      (enter : World → EnterInvoiceInput → Result AppendError EnterResult × World)
      (act : DecideAction) (w : World) (i : DecideInput) (st : InvoiceEntryState)
      → is_free_to act i.can_enter st ≡ false
      → (e : DecideError) × (act_on s enter act w i st ≡ (ok (declined e), w))
  unfolding act_on approve_invoice
  act_on_unfree enter reject w i st h = cc
  act_on_unfree enter approve w i st h = elim (Bool-cases i.can_enter) [
    | inl can ↦ (no_amount, ground (arith, can, h))
    | inr cannot ↦ (limit_reached, ground (arith, cannot))
  ]

  -- A decision on an invoice that is not under review, without a reason, or to approve one
  -- without leave to enter or with no positive amount, is declined and changes nothing.
  pub decide_invoice-guarded :
      (enter : World → EnterInvoiceInput → Result AppendError EnterResult × World) (w : World)
      (i : DecideInput)
      → may_decide w i ≡ false
      → (e : DecideError) × (decide_invoice s enter w i ≡ (ok (declined e), w))
  unfolding decide_invoice
  decide_invoice-guarded enter w i h =
      let st = project_invoice_entry w.ap (invoice_key i.workspace_id i.invoice_id) in
      elim (Bool-cases (reviewable st)) [
        | inr closed ↦ (already st.status, rw (closed, decide_invoice) refl)
        | inl open' ↦ elim (Bool-cases (i.reason_code == "")) [
          | inl blank ↦ (no_reason, rw (open', blank, decide_invoice) refl)
          | inr reason ↦
              let (e, declines) = act_on_unfree enter i.action w i st (rw (open', reason) at h) in
              (e, rw (open', reason, decide_invoice) declines)
        ]
      ]

  rejection_step :
      (st : InvoiceEntryState) (i : DecideInput) (before : Option EventRow)
      → (entry_step st (upcast_row (sealed_row s (rejection i) before))).status ≡ rejected
  unfolding entry_step apply_entry upcast_row upcast upcast_from upcaster sealed_row
  rejection_step st i before = refl

  -- What the outcome of a decision says of the stream.
  abbrev pub Tells : DecideInput → Result AppendError DecideResult → World → Type 0
  Tells i (ok done_rejected) w =
      (project_invoice_entry w.ap (invoice_key i.workspace_id i.invoice_id)).status ≡ rejected
  Tells i (ok (done_submitted e)) w =
      ((project_invoice_entry w.ap (invoice_key i.workspace_id i.invoice_id)).status ≡ submitted)
      × ((project_invoice_entry w.ap (invoice_key i.workspace_id i.invoice_id)).bill_number
          ≡ some e.bill_number)
  Tells i (ok (declined e)) w = Unit
  Tells i (err e) w = Unit

  reject_invoice-Tells :
      (enter : World → EnterInvoiceInput → Result AppendError EnterResult × World) (w : World)
      (i : DecideInput)
      → Tells i (reject_invoice s enter w i).0 (reject_invoice s enter w i).1
  unfolding reject_invoice
  reject_invoice-Tells enter w i = elim (Result-cases (append_ap_event s w.ap (rejection i))) [
    | inr (e, h) ↦ rw (h, reject_invoice) tt
    | inl ((db, row), h) ↦
        rw (h, reject_invoice)
          (ap (λ st. st.status) (project-sealed_row s w.ap db (rejection i) row h)
            ∙ rejection_step _ i
                (last_row (read_aggregate w.ap (invoice_key i.workspace_id i.invoice_id))))
  ]

module _ (s : Seals) (show : ℕ → String) (qbo : QboAnswer) (others : World → World) where
  abbrev enter : World → EnterInvoiceInput → Result AppendError EnterResult × World
  enter = enter_invoice s show qbo others

  of_entry-Tells :
      (i : DecideInput) (st : InvoiceEntryState) (r : Result AppendError EnterResult) (w : World)
      → InStream s show (entry_of i st) r w
      → Tells s i (of_entry r) w
  of_entry-Tells i st (ok (entered e)) w h = h
  of_entry-Tells i st (ok (refused why)) w h = tt
  of_entry-Tells i st (err e) w h = tt

  enter_as-Tells :
      (w : World) (i : DecideInput) (st : InvoiceEntryState)
      → Tells s i (enter_as enter w (entry_of i st)).0 (enter_as enter w (entry_of i st)).1
  enter_as-Tells w i st =
      of_entry-Tells i st _ _ (enter_invoice-InStream s show (entry_of i st) qbo others w)

  clear_and_enter-Tells :
      (w : World) (i : DecideInput) (st : InvoiceEntryState)
      → Tells s i (clear_and_enter s enter w i st).0 (clear_and_enter s enter w i st).1
  unfolding clear_and_enter
  clear_and_enter-Tells w i st = elim (Result-cases (append_ap_event s w.ap (clearance i))) [
    | inr (head_integrity, h) ↦ rw (h, clear_and_enter) tt
    | inr (sequence_conflict a b, h) ↦ rw (h, clear_and_enter) tt
    | inl ((db, row), h) ↦ rw (h, clear_and_enter) (enter_as-Tells (record w { ap = db }) i st)
  ]

  approve_invoice-Tells :
      (w : World) (i : DecideInput) (st : InvoiceEntryState)
      → Tells s i (approve_invoice s enter w i st).0 (approve_invoice s enter w i st).1
  unfolding approve_invoice
  approve_invoice-Tells w i st = elim (Bool-cases i.can_enter) [
    | inr cannot ↦ rw (cannot, approve_invoice) tt
    | inl can ↦ elim (Bool-cases (is_positive st.amount)) [
      | inr none' ↦ rw (can, none', approve_invoice) tt
      | inl some' ↦ elim (Bool-cases (is_cleared st)) [
        | inl cleared ↦ rw (can, some', cleared, approve_invoice) (enter_as-Tells w i st)
        | inr not_yet ↦ rw (can, some', not_yet, approve_invoice) (clear_and_enter-Tells w i st)
      ]
    ]
  ]

  act_on-Tells :
      (act : DecideAction) (w : World) (i : DecideInput) (st : InvoiceEntryState)
      → Tells s i (act_on s enter act w i st).0 (act_on s enter act w i st).1
  unfolding act_on
  act_on-Tells reject w i st = reject_invoice-Tells s enter w i
  act_on-Tells approve w i st = approve_invoice-Tells w i st

  -- After a decision that answers with a rejection the invoice's stream is rejected, and after
  -- one that answers with an entry it is submitted with the bill number of the answer.
  pub decide_invoice-Tells :
      (w : World) (i : DecideInput)
      → Tells s i
          (decide_invoice s (enter_invoice s show qbo others) w i).0
          (decide_invoice s (enter_invoice s show qbo others) w i).1
  unfolding decide_invoice
  decide_invoice-Tells w i =
      let st = project_invoice_entry w.ap (invoice_key i.workspace_id i.invoice_id) in
      elim (Bool-cases (reviewable st)) [
        | inr closed ↦ rw (closed, decide_invoice) tt
        | inl open' ↦ elim (Bool-cases (i.reason_code == "")) [
          | inl blank ↦ rw (open', blank, decide_invoice) tt
          | inr reason ↦ rw (open', reason, decide_invoice) (act_on-Tells i.action w i st)
        ]
      ]
