-- ===== src/Batches/Tests.antt =====
-- lib/receipt-batch.ts at a concrete table, with the toy hash of the Merkle trees.
use aemulus.Common.{
  ℕ, zero, suc, ◌≡◌, refl, Bool, true, false, String, Option, none, some, [], ◌∷◌, sort,
  insert_sorted,
}
use aemulus.Merkle.{build_merkle, layers_from, pair_up, proof_for_index, siblings_from}
use aemulus.Merkle.Tests.{toy, toy-HexRoundTrip}
use aemulus.Batches.{
  ReceiptRow, Store, Anchored, recover_orphaned_batch_claims, claim_batch, claimed_ids, leaves_of,
  release_unproven, set_run_batch, update,
}
use aemulus.Batches.Writing.{
  batch_pending_receipts, on_claim, on_tree, persist, persist_from, persist_end,
}
use aemulus.Batches.Rows.{get_run}
use aemulus.Batches.Claimed.{IsReady}
use aemulus.Batches.Batched.{IsBatchProven, batch_pending_receipts-IsBatchProven}

abbrev waiting : String → ℕ → String → ReceiptRow
waiting name time hash = record {
  id = name;
  created_at = time;
  receipt_hash = some hash;
  batch_id = none;
  batched_at = none;
  leaf_index = none;
  merkle_proof = none;
  receipt_sig = none;
  receipt_cluster = none;
}

abbrev store : Store
store = record { runs = waiting "r2" 2 "11" ∷ waiting "r1" 1 "1" ∷ []; batches = [] }

abbrev by_name : String → String → Bool
by_name a b = false

abbrev on_chain : String → Option Anchored
on_chain root = some (record { sig = "sig"; cluster = "devnet" })

abbrev all_ok : ℕ → Bool
all_ok i = true

-- The second write fails.
abbrev first_ok : ℕ → Bool
first_ok zero = true
first_ok (suc i) = false

store-IsReady : IsReady "b1" store.runs
store-IsReady = record {
  keyed = ((refl, tt), (tt, tt));
  unused = (refl, (refl, tt));
  clean = (refl, (refl, tt));
}

abbrev after_failure : Store
after_failure = (batch_pending_receipts by_name toy true "b1" 10 5 6 on_chain true first_ok store).0

abbrev kept_row : ReceiptRow
kept_row = record {
  id = "r1";
  created_at = 1;
  receipt_hash = some "1";
  batch_id = some "b1";
  batched_at = some 5;
  leaf_index = some 0;
  merkle_proof = some (record { hash = "11"; left = false } ∷ []);
  receipt_sig = some "sig";
  receipt_cluster = some "devnet";
}

-- The run whose proof was written is kept, the other is released.
kept : get_run "r1" after_failure.runs ≡ some kept_row
unfolding get_run batch_pending_receipts claim_batch claimed_ids leaves_of on_claim on_tree persist
    persist_from persist_end release_unproven set_run_batch update build_merkle layers_from pair_up
    proof_for_index siblings_from sort insert_sorted
kept = refl

batch_pending_receipts-IsBatchProven_example :
    IsBatchProven toy "b1" "r1" kept_row
      (batch_pending_receipts by_name toy true "b1" 10 5 6 on_chain true first_ok store).0.batches
batch_pending_receipts-IsBatchProven_example =
    batch_pending_receipts-IsBatchProven by_name toy toy-HexRoundTrip "b1" 10 5 6 on_chain true
      first_ok store store-IsReady "r1" kept_row refl refl kept

-- A claim without a proof is released once it is stale, and not before.
recovered :
    recover_orphaned_batch_claims 300006 (record kept_row { merkle_proof = none } ∷ [])
    ≡ (record kept_row { merkle_proof = none; batch_id = none } ∷ [], 1)
unfolding recover_orphaned_batch_claims
recovered = refl

still_live :
    recover_orphaned_batch_claims 300005 (record kept_row { merkle_proof = none } ∷ [])
    ≡ (record kept_row { merkle_proof = none } ∷ [], 0)
unfolding recover_orphaned_batch_claims
still_live = refl
