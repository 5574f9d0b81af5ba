-- ===== src/Ap/Entering/Settled.antt =====
-- lib/ap-controls/qbo-submit.ts: after an entry the audit stream and the ledger of bills agree.
use aemulus.Common.{
  ℕ, ◌≡◌, ◌≢◌, refl, ap, ◌∙◌, subst, inl, inr, Bool, true, false, String, string_Eq, Option, none,
  some, Option-cases, Result, ok, err, arith,
}
use aemulus.Common.Int.{ℤ}
use aemulus.Ap.Store.{
  EventRow, ApDb, AppendError, sequence_conflict, head_integrity, Seals, last_row, read_aggregate,
}
use aemulus.Ap.Store.Append.{append_ap_event}
use aemulus.Ap.Projections.{EntryStatus, new, needs_review, submitted, rejected, InvoiceEntryState}
use aemulus.Ap.Projections.Folds.{project_invoice_entry}
use aemulus.Ap.Bills.{Bill, find_bill, bill_number}
use aemulus.Ap.Entering.{
  World, QboAnswer, unavailable, unconnected, in_progress, posted, failed, EnterInvoiceInput,
  EnterTarget, quickbooks, ledger, Entered, EnterResult, entered, refused, key_of, given_bill,
  submitted_bill, submission, existing, on_conflict, on_append, seal_entry, make_bill,
  enter_invoice,
}
use aemulus.Ap.Entering.Sealing.{project-sealed_row, submission_step}

given_bill-some : (o : Option String) (b : String) → given_bill o ≡ some b → o ≡ some b
given_bill-some none b h = cc
given_bill-some (some c) b h = ground (arith, string_Eq.decides c "")

submitted_bill-some :
    (st : InvoiceEntryState) (b : String)
    → submitted_bill st ≡ some b
    → (st.status ≡ submitted) × (st.bill_number ≡ some b)
submitted_bill-some st b h = by_status st.status h
  where
    by_status :
        (x : EntryStatus)
        → elim x [ submitted ↦ given_bill st.bill_number | _ ↦ none ] ≡ some b
        → (x ≡ submitted) × (st.bill_number ≡ some b)
    by_status submitted h = (refl, given_bill-some st.bill_number b h)
    by_status new h = cc
    by_status needs_review h = cc
    by_status rejected h = cc

submitted_bill_given :
    (st : InvoiceEntryState) (b : String)
    → st.status ≡ submitted
    → st.bill_number ≡ some b
    → b ≢ ""
    → submitted_bill st ≡ some b
submitted_bill_given st b e f n = rw (e, f) (ground (arith, string_Eq.decides b ""))

enter_submitted :
    (s : Seals) (show : ℕ → String) (qbo : QboAnswer) (others : World → World) (w : World)
    (i : EnterInvoiceInput) (b : String)
    → submitted_bill (project_invoice_entry w.ap (key_of i)) ≡ some b
    → enter_invoice s show qbo others w i ≡ (ok (entered (existing s w (key_of i) b "ledger")), w)
unfolding enter_invoice
enter_submitted s show qbo others w i b e = rw (e, enter_invoice) refl

module _ (s : Seals) (show : ℕ → String) (i : EnterInvoiceInput) where
  -- The stream says that the invoice was submitted, with this bill.
  abbrev pub IsSubmitted : World → String → Type 0
  IsSubmitted w bill =
      ((project_invoice_entry w.ap (key_of i)).status ≡ submitted)
      × ((project_invoice_entry w.ap (key_of i)).bill_number ≡ some bill)

  -- The ledger holds the invoice's bill under this number.
  abbrev pub HasBill : World → String → Type 0
  HasBill w bill =
      (b : Bill) × (find_bill w.bills i.workspace_id i.invoice_id ≡ some b)
      × (bill_number show b.bill_no ≡ bill)

  abbrev pub HasBillUnless : Bool → World → String → Type 0
  HasBillUnless true w bill = Unit
  HasBillUnless false w bill = HasBill w bill

  -- What the outcome of an entry into the ledger says of the tables.
  abbrev pub Agrees : Result AppendError EnterResult → World → Type 0
  Agrees (ok (entered e)) w = IsSubmitted w e.bill_number × HasBillUnless e.deduped w e.bill_number
  Agrees (ok (refused why)) w = find_bill w.bills i.workspace_id i.invoice_id ≡ none
  Agrees (err e) w = find_bill w.bills i.workspace_id i.invoice_id ≡ none

  -- A sealed entry is the latest in the stream.
  sealed-IsSubmitted :
      (w : World) (last : ℤ) (bill : String) (target : EnterTarget) (db : ApDb) (row : EventRow)
      → append_ap_event s w.ap (submission i last bill target) ≡ ok (db, row)
      → IsSubmitted (record w { ap = db }) bill
  sealed-IsSubmitted w last bill target db row done =
      let (a, b, c) =
        submission_step s _ i last bill target (last_row (read_aggregate w.ap (key_of i))) in
      let e = project-sealed_row s w.ap db (submission i last bill target) row done in
      (ap (λ st. st.status) e ∙ a, ap (λ st. st.bill_number) e ∙ b)

  -- Whatever QuickBooks answers, an entry is in the stream.
  abbrev pub InStream : Result AppendError EnterResult → World → Type 0
  InStream (ok (entered e)) w = IsSubmitted w e.bill_number
  InStream (ok (refused why)) w = Unit
  InStream (err e) w = Unit

  on_conflict-InStream :
      (w : World) (target : EnterTarget)
      → InStream (on_conflict s w i target).0 (on_conflict s w i target).1
  unfolding on_conflict existing
  on_conflict-InStream w target =
      elim (Option-cases (submitted_bill (project_invoice_entry w.ap (key_of i)))) [
        | inl e ↦ rw (e, on_conflict) tt
        | inr (b, e) ↦
            rw (e, on_conflict) (submitted_bill-some (project_invoice_entry w.ap (key_of i)) b e)
      ]

  on_append-InStream :
      (w : World) (last : ℤ) (bill : String) (target : EnterTarget)
      (r : Result AppendError (ApDb × EventRow))
      → append_ap_event s w.ap (submission i last bill target) ≡ r
      → InStream (on_append s w i bill target r).0 (on_append s w i bill target r).1
  unfolding on_append
  on_append-InStream w last bill target (ok (db, row)) e =
      sealed-IsSubmitted w last bill target db row e
  on_append-InStream w last bill target (err (sequence_conflict a b)) e =
      on_conflict-InStream w target
  on_append-InStream w last bill target (err head_integrity) e = tt

  make_bill-InStream :
      (qbo : QboAnswer) (others : World → World) (w : World) (last : ℤ)
      → InStream (make_bill s show qbo others w i last).0 (make_bill s show qbo others w i last).1
  unfolding make_bill seal_entry
  make_bill-InStream unavailable others w last = tt
  make_bill-InStream in_progress others w last = tt
  make_bill-InStream (failed e) others w last = tt
  make_bill-InStream (posted bill) others w last =
      on_append-InStream (others w) last bill quickbooks _ refl
  make_bill-InStream unconnected others w last = on_append-InStream _ last _ ledger _ refl

  pub enter_invoice-InStream :
      (qbo : QboAnswer) (others : World → World) (w : World)
      → InStream (enter_invoice s show qbo others w i).0 (enter_invoice s show qbo others w i).1
  unfolding enter_invoice existing
  enter_invoice-InStream qbo others w =
      elim (Option-cases (submitted_bill (project_invoice_entry w.ap (key_of i)))) [
        | inr (b, e) ↦
            rw (e, enter_invoice) (submitted_bill-some (project_invoice_entry w.ap (key_of i)) b e)
        | inl e ↦
            rw (e, enter_invoice)
              (make_bill-InStream qbo others w (project_invoice_entry w.ap (key_of i)).last_seq)
      ]

  -- After an entry that answered with a bill number that is not empty, a further entry of the
  -- same invoice, whatever QuickBooks answers, answers with that number as entered before and
  -- changes nothing.
  pub enter_invoice-again :
      (qbo qbo' : QboAnswer) (others others' : World → World) (w w' : World) (e : Entered)
      (j : EnterInvoiceInput)
      → enter_invoice s show qbo others w i ≡ (ok (entered e), w')
      → e.bill_number ≢ ""
      → key_of i ≡ key_of j
      → enter_invoice s show qbo' others' w' j
        ≡ (ok (entered (existing s w' (key_of j) e.bill_number "ledger")), w')
  enter_invoice-again qbo qbo' others others' w w' e j done n same =
      let (a, b) = subst (λ r. InStream r.0 r.1) done (enter_invoice-InStream qbo others w) in
      enter_submitted s show qbo' others' w' j e.bill_number (
        subst (λ k. submitted_bill (project_invoice_entry w'.ap k) ≡ some e.bill_number) same
          (submitted_bill_given (project_invoice_entry w'.ap (key_of i)) e.bill_number a b n))
