-- ===== src/Ap/Store/Verify.antt =====
-- lib/ap-controls/store.ts: `verifyAggregate`.
pub mod Streams
pub mod Faults
pub mod Appended
pub mod Verdicts
pub mod Extend
use aemulus.Common.{
  ℕ, zero, suc, ◌+◌, Bool, true, false, not, ◌&&◌, ◌||◌, String, string_Eq, Option, none, some,
  List, [], ◌∷◌, length, nat_eq, ◌==◌, if◌then◌else◌,
}
use aemulus.Ap.Store.{
  Key, Unsealed, EventRow, Head, ApDb, Seals, genesis_for, last_row, read_aggregate, load_head,
}
use aemulus.Ap.Store.Append.{seal_for_version, head_mac}

pub data Reason : Type 0 where
  non_contiguous_sequence broken_seal_link seal_mismatch truncated_tail missing_head : Reason

-- `VerifyResult`: a valid chain's length, or the length with the first failing index and why.
pub data VerifyResult : Type 0 where
  valid : ℕ → VerifyResult
  broken : ℕ → ℕ → Reason → VerifyResult

-- The seal of the last row, or the empty text.
abbrev pub last_seal : Option EventRow → String
last_seal none = ""
last_seal (some r) = r.seal

module _ (s : Seals) where
  unfoldable pub row_fault : ℕ → String → EventRow → Option Reason
  row_fault i prev r =
      if not (nat_eq r.seq i)
      then some non_contiguous_sequence
      else if not (r.seal_prev == prev)
      then some broken_seal_link
      else if not (seal_for_version s r.seal_version r.unsealed == r.seal)
      then some seal_mismatch
      else none

  -- The loop over the rows: the first failing index and why.
  unfoldable pub first_fault : ℕ → String → List EventRow → Option (ℕ × Reason)
  first_fault i prev [] = none
  first_fault i prev (r ∷ rest) =
      let later = first_fault (i + 1) r.seal rest in
      elim (row_fault i prev r) [ some why ↦ some (i, why) | none ↦ later ]

  -- The check of the head anchor, after the loop.
  unfoldable pub check_head : Key → List EventRow → Option Head → VerifyResult
  check_head k [] none = valid 0
  check_head k (r ∷ rest) none = broken (length (r ∷ rest)) (length (r ∷ rest)) missing_head
  check_head k rows (some h) =
      if not (nat_eq h.seq_count (length rows))
        || not (h.head_mac == head_mac s k (length rows) (last_seal (last_row rows)))
      then broken (length rows) (length rows) truncated_tail
      else valid (length rows)

  -- What the fault of the loop, where it has one, and the head make of the rows.
  abbrev pub conclude : Key → List EventRow → Option Head → Option (ℕ × Reason) → VerifyResult
  conclude k rows head (some (i, why)) = broken (length rows) i why
  conclude k rows head none = check_head k rows head

  abbrev pub verdict : Key → List EventRow → Option Head → VerifyResult
  verdict k rows head =
      conclude k rows head (first_fault 0 (genesis_for k.aggregate_type k.aggregate_id) rows)

  unfoldable pub verify_aggregate : ApDb → Key → VerifyResult
  verify_aggregate db k = verdict k (read_aggregate db k) (load_head db k)
