-- ===== src/Ap/Projections/Replay.antt =====
-- What the folds say of a stream, and how they follow an append.

use aemulus.Common.{
  ◌≡◌, refl, sym, ap, subst, Bool, false, String, Option, ◌∙◌, true, some, List, [], ◌∷◌, ◌++◌, map,
  ok,
}
use aemulus.Common.Int.{pos}
use aemulus.Ap.Store.{
  EventType, invoice_received, invoice_override, invoice_submitted, invoice_review_paused,
  invoice_rejected, vendor_requested, vendor_approved, vendor_bank_verified, EventRow, ApDb,
  AppendInput, Seals, last_row, read_aggregate,
}
use aemulus.Ap.Store.Append.{append_ap_event}
use aemulus.Ap.Store.Verify.Extend.{read_aggregate-append_ap_event}
use aemulus.Ap.Projections.{
  upcast_row, load_aggregate, needs_review, EntryStatus, submitted, rejected, read_field, as_text,
  as_bool, or_else, InvoiceEntryState, first_id, initial_entry, stamp, pause,
}
use aemulus.Ap.Projections.Folds.{
  apply_entry, entry_step, entry_loop, fold_invoice_entry_state, project_invoice_entry,
}

-- A second approval is awaited only of an invoice under review.
abbrev pub IsConsistent : InvoiceEntryState → Type 0
IsConsistent s = s.pending_second_approval ≡ true → s.status ≡ needs_review

apply_entry-IsConsistent :
    (t : EventType) (s : InvoiceEntryState) (e : EventRow)
    → IsConsistent s
    → IsConsistent (apply_entry t s e)
unfolding apply_entry pause
apply_entry-IsConsistent invoice_received s e c = c
apply_entry-IsConsistent invoice_override s e c = λ h. cc h
apply_entry-IsConsistent invoice_submitted s e c = λ h. cc h
apply_entry-IsConsistent invoice_review_paused s e c = λ h. refl
apply_entry-IsConsistent invoice_rejected s e c = λ h. cc h
apply_entry-IsConsistent vendor_requested s e c = c
apply_entry-IsConsistent vendor_approved s e c = c
apply_entry-IsConsistent vendor_bank_verified s e c = c

entry_loop-IsConsistent :
    (s : InvoiceEntryState) (es : List EventRow) → IsConsistent s → IsConsistent (entry_loop s es)
unfolding entry_loop entry_step
entry_loop-IsConsistent s [] c = c
entry_loop-IsConsistent s (e ∷ es) c =
    entry_loop-IsConsistent (apply_entry e.event_type (stamp s e) e) es
      (apply_entry-IsConsistent e.event_type (stamp s e) e c)

pub entry_loop-append :
    (s : InvoiceEntryState) (es : List EventRow) (r : EventRow)
    → entry_loop s (es ++ r ∷ []) ≡ entry_step (entry_loop s es) r
unfolding entry_loop
entry_loop-append s [] r = refl
entry_loop-append s (e ∷ es) r = entry_loop-append (entry_step s e) es r

-- A replayed invoice that awaits a second approval is under review.
pub fold_invoice_entry_state-IsConsistent :
    (es : List EventRow)
    → (fold_invoice_entry_state es).pending_second_approval ≡ true
    → (fold_invoice_entry_state es).status ≡ needs_review
unfolding fold_invoice_entry_state
fold_invoice_entry_state-IsConsistent es =
    entry_loop-IsConsistent (initial_entry (first_id es)) es (λ h. cc h)

apply_entry-stamp :
    (t : EventType) (s : InvoiceEntryState) (e : EventRow)
    → ((apply_entry t s e).last_seq ≡ s.last_seq)
      × ((apply_entry t s e).latest_seal ≡ s.latest_seal)
      × ((apply_entry t s e).last_event_at ≡ s.last_event_at)
unfolding apply_entry pause
apply_entry-stamp invoice_received s e = (refl, refl, refl)
apply_entry-stamp invoice_override s e = (refl, refl, refl)
apply_entry-stamp invoice_submitted s e = (refl, refl, refl)
apply_entry-stamp invoice_review_paused s e = (refl, refl, refl)
apply_entry-stamp invoice_rejected s e = (refl, refl, refl)
apply_entry-stamp vendor_requested s e = (refl, refl, refl)
apply_entry-stamp vendor_approved s e = (refl, refl, refl)
apply_entry-stamp vendor_bank_verified s e = (refl, refl, refl)

entry_loop-latest :
    (s : InvoiceEntryState) (es : List EventRow) (r : EventRow)
    → last_row es ≡ some r
    → ((entry_loop s es).last_seq ≡ pos r.seq)
      × ((entry_loop s es).latest_seal ≡ some r.seal)
      × ((entry_loop s es).last_event_at ≡ some r.created_at)
unfolding entry_loop entry_step
entry_loop-latest s [] r h = cc h
entry_loop-latest s (e ∷ []) r h =
    let same : e ≡ r = cc h in
    subst
      (λ x.
        ((entry_step s e).last_seq ≡ pos x.seq)
        × ((entry_step s e).latest_seal ≡ some x.seal)
        × ((entry_step s e).last_event_at ≡ some x.created_at))
      same (apply_entry-stamp e.event_type (stamp s e) e)
entry_loop-latest s (e ∷ f ∷ es) r h = entry_loop-latest (entry_step s e) (f ∷ es) r h

-- The replay of a stream that has a last row carries that row's position, seal and time.
pub fold_invoice_entry_state-latest :
    (es : List EventRow) (r : EventRow)
    → last_row es ≡ some r
    → ((fold_invoice_entry_state es).last_seq ≡ pos r.seq)
      × ((fold_invoice_entry_state es).latest_seal ≡ some r.seal)
      × ((fold_invoice_entry_state es).last_event_at ≡ some r.created_at)
unfolding fold_invoice_entry_state
fold_invoice_entry_state-latest es r h = entry_loop-latest (initial_entry (first_id es)) es r h

-- A fold over a longer stream goes on from the fold over the shorter one.
fold-append :
    (x : EventRow) (es : List EventRow) (r : EventRow)
    → fold_invoice_entry_state (x ∷ es ++ r ∷ []) ≡ entry_step (fold_invoice_entry_state (x ∷ es)) r
unfolding fold_invoice_entry_state
fold-append x es r = entry_loop-append (initial_entry (first_id (x ∷ es))) (x ∷ es) r

pub map-append :
    (f : EventRow → EventRow) (xs : List EventRow) (r : EventRow)
    → map f (xs ++ r ∷ []) ≡ map f xs ++ f r ∷ []
map-append f [] r = refl
map-append f (x ∷ xs) r = ap (λ ys. f x ∷ ys) (map-append f xs r)

fold_rows :
    (rows : List EventRow) (last row : EventRow)
    → last_row rows ≡ some last
    → fold_invoice_entry_state (map upcast_row (rows ++ row ∷ []))
      ≡ entry_step (fold_invoice_entry_state (map upcast_row rows)) (upcast_row row)
fold_rows [] last row l = cc l
fold_rows (x ∷ xs) last row l =
    ap fold_invoice_entry_state (map-append upcast_row (x ∷ xs) row)
    ∙ fold-append (upcast_row x) (map upcast_row xs) (upcast_row row)

abbrev pub status_after : EventType → EntryStatus → EntryStatus
status_after invoice_review_paused status = needs_review
status_after invoice_submitted status = submitted
status_after invoice_rejected status = rejected
status_after t status = status

abbrev pub waits_after : EventType → EventRow → Bool → Bool
waits_after invoice_review_paused r waits =
    or_else (as_bool (read_field r.payload "requiresSecondApproval")) false
waits_after invoice_override r waits = false
waits_after invoice_submitted r waits = false
waits_after invoice_rejected r waits = false
waits_after t r waits = waits

abbrev pub bill_after : EventType → EventRow → Option String → Option String
bill_after invoice_submitted r bill = as_text (read_field r.payload "billNumber")
bill_after t r bill = bill

-- What a row of a type makes of an invoice's state.
pub record Follows (t : EventType) (r : EventRow) (p q : InvoiceEntryState) : Type 0 where
  pub status : q.status ≡ status_after t p.status
  pub waits : q.pending_second_approval ≡ waits_after t r p.pending_second_approval
  pub bill : q.bill_number ≡ bill_after t r p.bill_number
  pub seq : q.last_seq ≡ pos r.seq
  pub seal : q.latest_seal ≡ some r.seal

apply_entry-Follows :
    (t : EventType) (r : EventRow) (p : InvoiceEntryState)
    → Follows t r p (apply_entry t (stamp p r) r)
unfolding apply_entry pause
apply_entry-Follows invoice_received r p = record {
  status = refl;
  waits = refl;
  bill = refl;
  seq = refl;
  seal = refl;
}
apply_entry-Follows invoice_override r p = record {
  status = refl;
  waits = refl;
  bill = refl;
  seq = refl;
  seal = refl;
}
apply_entry-Follows invoice_submitted r p = record {
  status = refl;
  waits = refl;
  bill = refl;
  seq = refl;
  seal = refl;
}
apply_entry-Follows invoice_review_paused r p = record {
  status = refl;
  waits = refl;
  bill = refl;
  seq = refl;
  seal = refl;
}
apply_entry-Follows invoice_rejected r p = record {
  status = refl;
  waits = refl;
  bill = refl;
  seq = refl;
  seal = refl;
}
apply_entry-Follows vendor_requested r p = record {
  status = refl;
  waits = refl;
  bill = refl;
  seq = refl;
  seal = refl;
}
apply_entry-Follows vendor_approved r p = record {
  status = refl;
  waits = refl;
  bill = refl;
  seq = refl;
  seal = refl;
}
apply_entry-Follows vendor_bank_verified r p = record {
  status = refl;
  waits = refl;
  bill = refl;
  seq = refl;
  seal = refl;
}

entry_step-Follows :
    (r : EventRow) (p : InvoiceEntryState) → Follows r.event_type r p (entry_step p r)
unfolding entry_step
entry_step-Follows r p = apply_entry-Follows r.event_type r p

upcast_row-Follows :
    (r : EventRow) (p : InvoiceEntryState)
    → Follows r.event_type (upcast_row r) p (entry_step p (upcast_row r))
unfolding upcast_row
upcast_row-Follows r p = entry_step-Follows (upcast_row r) p

-- The projection after an append is a step of the fold from the one before.
project_invoice_entry_step :
    (s : Seals) (db db' : ApDb) (input : AppendInput) (row last : EventRow)
    → append_ap_event s db input ≡ ok (db', row)
    → last_row (read_aggregate db input.key) ≡ some last
    → project_invoice_entry db' input.key
      ≡ entry_step (project_invoice_entry db input.key) (upcast_row row)
unfolding project_invoice_entry load_aggregate
project_invoice_entry_step s db db' input row last done l =
    rw (read_aggregate-append_ap_event s db db' input row done)
      (fold_rows (read_aggregate db input.key) last row l)

-- After a successful append to a stream that had a row, the projection of the invoice has the
-- position and the seal of the appended row; its status is under review after a pause, submitted
-- after a submission, rejected after a rejection, and as before after any other event; it awaits
-- a second approval after a pause just as the up-cast row asks, not after an override, a
-- submission or a rejection, and as before otherwise; and its bill number is that of the up-cast
-- row after a submission, and as before otherwise.
pub project_invoice_entry-append_ap_event :
    (s : Seals) (db db' : ApDb) (input : AppendInput) (row last : EventRow)
    → append_ap_event s db input ≡ ok (db', row)
    → last_row (read_aggregate db input.key) ≡ some last
    → Follows row.event_type
        (upcast_row row)
        (project_invoice_entry db input.key)
        (project_invoice_entry db' input.key)
project_invoice_entry-append_ap_event s db db' input row last done l =
    subst (Follows row.event_type (upcast_row row) (project_invoice_entry db input.key))
      (sym (project_invoice_entry_step s db db' input row last done l))
      (upcast_row-Follows row (project_invoice_entry db input.key))
