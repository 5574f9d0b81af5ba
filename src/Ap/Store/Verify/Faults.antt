-- ===== src/Ap/Store/Verify/Faults.antt =====
-- The verifier's loop over a stream that grows by a row.
use aemulus.Common.{
  ℕ, suc, ◌+◌, ◌≡◌, refl, sym, String, string_Eq, none, some, List, [], ◌∷◌, ◌++◌, length, arith,
}
use aemulus.Ap.Store.{Key, key_Eq, EventRow, Seals, genesis_for, last_row, next_seq, tail_seal}
use aemulus.Ap.Store.Verify.{Reason, row_fault, first_fault}
use aemulus.Ap.Store.Verify.Streams.{last_row-cons}

-- The seal that the row behind a stream has to link to.
abbrev pub prev_seal : String → List EventRow → String
prev_seal prev [] = prev
prev_seal prev (x ∷ rows) = prev_seal x.seal rows

prev_seal-last_row :
    (prev : String) (x : EventRow) (rows : List EventRow) (r : EventRow)
    → last_row (x ∷ rows) ≡ some r
    → prev_seal prev (x ∷ rows) ≡ r.seal
prev_seal-last_row prev x [] r h = ground arith
prev_seal-last_row prev x (y ∷ rows) r h = prev_seal-last_row x.seal y rows r h

pub tail_seal-prev_seal :
    (k : Key) (rows : List EventRow)
    → tail_seal k (last_row rows) ≡ prev_seal (genesis_for k.aggregate_type k.aggregate_id) rows
tail_seal-prev_seal k [] = refl
tail_seal-prev_seal k (x ∷ rows) =
    let (r, e) = last_row-cons x rows in rw e (sym (prev_seal-last_row "" x rows r e))

module _ (s : Seals) where
  -- The loop over a longer stream: a fault of the first rows stays the first fault.
  pub first_fault-append_some :
      (rows : List EventRow) (i : ℕ) (prev : String) (r : EventRow) (f : ℕ × Reason)
      → first_fault s i prev rows ≡ some f
      → first_fault s i prev (rows ++ r ∷ []) ≡ some f
  unfolding first_fault
  first_fault-append_some [] i prev r f h = cc
  first_fault-append_some (x ∷ rows) i prev r f h =
      ground (arith, first_fault-append_some rows (i + 1) x.seal r f)

  pub first_fault-append_none :
      (rows : List EventRow) (i : ℕ) (prev : String) (r : EventRow)
      → first_fault s i prev rows ≡ none
      → row_fault s (i + length rows) (prev_seal prev rows) r ≡ none
      → first_fault s i prev (rows ++ r ∷ []) ≡ none
  unfolding first_fault
  first_fault-append_none [] i prev r h g =
      let e : i + 0 ≡ i = omega arith in ground (arith, rw e at g)
  first_fault-append_none (x ∷ rows) i prev r h g =
      let e : i + 1 + length rows ≡ i + suc (length rows) = omega arith in
      ground (arith, first_fault-append_none rows (i + 1) x.seal r, e)

  -- A stream with no fault is numbered from its start.
  pub first_fault-next_seq :
      (rows : List EventRow) (i : ℕ) (prev : String) (r : EventRow)
      → first_fault s i prev rows ≡ none
      → last_row rows ≡ some r
      → r.seq + 1 ≡ i + length rows
  unfolding first_fault row_fault
  first_fault-next_seq [] i prev r h l = cc
  first_fault-next_seq (x ∷ []) i prev r h l = ground arith
  first_fault-next_seq (x ∷ y ∷ rows) i prev r h l =
      ground (arith, first_fault-next_seq (y ∷ rows) (i + 1) x.seal r)

  pub first_fault-numbered :
      (rows : List EventRow) (prev : String)
      → first_fault s 0 prev rows ≡ none
      → next_seq (last_row rows) ≡ length rows
  first_fault-numbered [] prev h = refl
  first_fault-numbered (x ∷ rows) prev h =
      let (r, e) = last_row-cons x rows in
      rw e (omega (arith, first_fault-next_seq (x ∷ rows) 0 prev r h e))
