-- ===== src/Runs/Settling.antt =====
-- lib/runs.ts: a settled run keeps its outcome, and its bookkeeping is claimed once.
use aemulus.Common.{
  ℕ, ◌≡◌, refl, ap, ◌∙◌, inl, inr, Bool, true, false, ◌&&◌, String, string_Eq, Option, none, some,
  List, [], ◌∷◌, ◌++◌, ◌==◌, if◌then◌else◌, find, Bool-cases, arith,
}
use aemulus.Runs.{
  RunStatus, is_terminal, RunRow, NewRun, QuotaReserve, new_row, has_room, create_run, update_run,
  is_open, finish_run, set_run_status, set_run_output, is_unkept, claim_run_bookkeeping,
}

-- The writes to the table, of any request.
pub data RunWrite : Type 0 where
  create : NewRun → Option QuotaReserve → RunWrite
  finish : String → RunStatus → Option String → Option String → ℕ → RunWrite
  set_status : String → RunStatus → ℕ → RunWrite
  set_output : String → Option String → RunWrite
  claim : String → RunWrite

unfoldable pub apply_write : RunWrite → List RunRow → List RunRow
unfolding create_run finish_run set_run_status set_run_output claim_run_bookkeeping
apply_write (create n reserve) rows = (create_run rows n reserve).0
apply_write (finish id status result error now) rows = finish_run id status result error now rows
apply_write (set_status id status now) rows = set_run_status id status now rows
apply_write (set_output id output) rows = set_run_output id output rows
apply_write (claim id) rows = (claim_run_bookkeeping id rows).0

unfoldable pub apply_writes : List RunWrite → List RunRow → List RunRow
apply_writes [] rows = rows
apply_writes (x ∷ xs) rows = apply_writes xs (apply_write x rows)

unfoldable pub get_run : String → List RunRow → Option RunRow
get_run id rows = find (λ r. r.id == id) rows

-- The run is there and settled with this outcome.
pub record IsSettled (id : String) (status : RunStatus) (result error : Option String)
    (rows : List RunRow) : Type 0 where
  pub row : RunRow
  pub found : get_run id rows ≡ some row
  pub terminal : is_terminal status ≡ true
  pub same_status : row.status ≡ status
  pub same_result : row.result ≡ result
  pub same_error : row.error ≡ error

get_run-append :
    (id : String) (rows : List RunRow) (r s : RunRow)
    → get_run id rows ≡ some r
    → get_run id (rows ++ s ∷ []) ≡ some r
unfolding get_run
get_run-append id [] r s h = cc
get_run-append id (x ∷ rows) r s h = ground (arith, get_run-append id rows r s)

-- An update by a change that keeps ids finds the run changed, if it met the test, or as it was.
get_run-update_run :
    (id j : String) (p : RunRow → Bool) (f : RunRow → RunRow) (rows : List RunRow) (r : RunRow)
    → ((x : RunRow) → (f x).id ≡ x.id)
    → get_run id rows ≡ some r
    → get_run id (update_run j p f rows) ≡ some (if r.id == j && p r then f r else r)
unfolding get_run update_run
get_run-update_run id j p f [] r k h = cc
get_run-update_run id j p f (x ∷ rows) r k h =
    ground (arith, k x, get_run-update_run id j p f rows r k)

module _ (id : String) (status : RunStatus) (result error : Option String) where
  -- An update that leaves the outcome of settled runs as it is.
  update_run-IsSettled :
      (j : String) (p : RunRow → Bool) (f : RunRow → RunRow) (rows : List RunRow)
      → ((x : RunRow) → (f x).id ≡ x.id)
      → ((x : RunRow)
          → p x ≡ true
          → is_terminal x.status ≡ true
          → ((f x).status ≡ x.status) × ((f x).result ≡ x.result) × ((f x).error ≡ x.error))
      → IsSettled id status result error rows
      → IsSettled id status result error (update_run j p f rows)
  update_run-IsSettled j p f rows ids keeps v =
      let found = get_run-update_run id j p f rows v.row ids v.found in
      let terminal : is_terminal v.row.status ≡ true = ap is_terminal v.same_status ∙ v.terminal in
      elim (Bool-cases (v.row.id == j && p v.row)) [
        | inr other ↦ record {
          row = v.row;
          found = found ∙ rw other refl;
          terminal = v.terminal;
          same_status = v.same_status;
          same_result = v.same_result;
          same_error = v.same_error;
        }
        | inl hit ↦
            let (a, b, c) = keeps v.row (ground arith) terminal in
            record {
              row = f v.row;
              found = found ∙ rw hit refl;
              terminal = v.terminal;
              same_status = a ∙ v.same_status;
              same_result = b ∙ v.same_result;
              same_error = c ∙ v.same_error;
            }
      ]

  create_run-IsSettled :
      (n : NewRun) (reserve : Option QuotaReserve) (rows : List RunRow)
      → IsSettled id status result error rows
      → IsSettled id status result error (create_run rows n reserve).0
  unfolding create_run
  create_run-IsSettled n reserve rows v = elim (Bool-cases (has_room rows n reserve)) [
    | inr full ↦ rw full v
    | inl room ↦ rw room (record {
      row = v.row;
      found = get_run-append id rows v.row (new_row n) v.found;
      terminal = v.terminal;
      same_status = v.same_status;
      same_result = v.same_result;
      same_error = v.same_error;
    })
  ]

  apply_write-IsSettled :
      (x : RunWrite) (rows : List RunRow)
      → IsSettled id status result error rows
      → IsSettled id status result error (apply_write x rows)
  unfolding apply_write finish_run set_run_status set_run_output claim_run_bookkeeping
  apply_write-IsSettled (create n reserve) rows v = create_run-IsSettled n reserve rows v
  apply_write-IsSettled (finish j s r e now) rows v =
      update_run-IsSettled j is_open _ rows (λ x. refl) (λ x o t. ground arith) v
  apply_write-IsSettled (set_status j s now) rows v =
      update_run-IsSettled j is_open _ rows (λ x. refl) (λ x o t. ground arith) v
  apply_write-IsSettled (set_output j none) rows v = v
  apply_write-IsSettled (set_output j (some output)) rows v =
      update_run-IsSettled j (λ r. true) _ rows (λ x. refl) (λ x o t. (refl, refl, refl)) v
  apply_write-IsSettled (claim j) rows v =
      update_run-IsSettled j is_unkept _ rows (λ x. refl) (λ x o t. (refl, refl, refl)) v

  -- A run that is settled, as completed, failed or needing review, keeps its status, result and
  -- error through every series of creations, completions, changes of status, outputs and claims
  -- of bookkeeping.
  pub apply_writes-IsSettled :
      (xs : List RunWrite) (rows : List RunRow)
      → IsSettled id status result error rows
      → IsSettled id status result error (apply_writes xs rows)
  unfolding apply_writes
  apply_writes-IsSettled [] rows v = v
  apply_writes-IsSettled (x ∷ xs) rows v =
      apply_writes-IsSettled xs (apply_write x rows) (apply_write-IsSettled x rows v)

-- The bookkeeping of a run that was claimed is not claimed again.
pub claim_run_bookkeeping-again :
    (id : String) (rows : List RunRow)
    → (claim_run_bookkeeping id (claim_run_bookkeeping id rows).0).1 ≡ false
unfolding claim_run_bookkeeping update_run
claim_run_bookkeeping-again id [] = refl
claim_run_bookkeeping-again id (r ∷ rows) = ground (arith, claim_run_bookkeeping-again id rows)
