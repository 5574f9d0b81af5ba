-- ===== src/Batches/Writing.antt =====
-- lib/receipt-batch.ts: the proofs are written, and the batch as a whole.
use aemulus.Common.{
  ℕ, suc, Bool, true, false, not, String, Option, none, some, List, [], ◌∷◌, ◌++◌, map, length,
}
use aemulus.Merkle.{Crypto, MerkleTree, build_merkle, proof_for_index}
use aemulus.Batches.{
  ReceiptRow, BatchRow, Store, Anchored, Leaf, Outcome, idle, failed, batched, is_none, claimed_ids,
  claim_batch, leaves_of, set_run_batch, release_unproven, new_batch,
}

-- What follows the loop, which reached its end or threw.
unfoldable pub persist_end :
    Bool
    → String
    → MerkleTree
    → Option Anchored
    → ℕ
    → ℕ
    → List BatchRow
    → List ReceiptRow × Bool
    → Store × Outcome
unfolding release_unproven
persist_end release_ok batch tree anchored now count batches (rows, true) = (
  record { runs = rows; batches = batches ++ new_batch batch tree count anchored now ∷ [] },
  batched batch count tree.root (not (is_none anchored)),
)
persist_end release_ok batch tree anchored now count batches (rows, false) = (
  record {
    runs = release_unproven release_ok batch rows;
    batches = batches ++ new_batch batch tree count anchored now ∷ [];
  },
  failed,
)

module _ (c : Crypto) where
  -- The loop over the leaves, and does it reach its end? `write_ok` says which writes succeed.
  unfoldable pub persist_from :
      String
      → MerkleTree
      → Option Anchored
      → (ℕ → Bool)
      → ℕ
      → List Leaf
      → List ReceiptRow
      → List ReceiptRow × Bool
  unfolding set_run_batch
  persist_from batch tree anchored write_ok i [] rows = (rows, true)
  persist_from batch tree anchored write_ok i (l ∷ ls) rows = elim (proof_for_index c tree i) [
    | none ↦ (rows, false)
    | some proof ↦ elim (write_ok i) [
      | false ↦ (rows, false)
      | true ↦
          persist_from batch tree anchored write_ok (suc i) ls
            (set_run_batch l.id batch i proof anchored rows)
    ]
  ]

  -- The batch's row and its proofs; `insert_ok`: is the row inserted?
  unfoldable pub persist :
      Bool
      → String
      → MerkleTree
      → Option Anchored
      → Bool
      → (ℕ → Bool)
      → ℕ
      → List Leaf
      → Store
      → Store × Outcome
  unfolding persist_from persist_end release_unproven
  persist release_ok batch tree anchored false write_ok now leaves s =
      (record s { runs = release_unproven release_ok batch s.runs }, failed)
  persist release_ok batch tree anchored true write_ok now leaves s =
      persist_end release_ok batch tree anchored now (length leaves) s.batches
        (persist_from batch tree anchored write_ok 0 leaves s.runs)

module _ (c : Crypto) where
  -- What the tree's building leaves; an exception there leaves the claim, for the recovery.
  unfoldable pub on_tree :
      Bool
      → String
      → (String → Option Anchored)
      → Bool
      → (ℕ → Bool)
      → ℕ
      → List Leaf
      → Store
      → Option MerkleTree
      → Store × Outcome
  unfolding persist
  on_tree release_ok batch anchor insert_ok write_ok later leaves s none = (s, failed)
  on_tree release_ok batch anchor insert_ok write_ok later leaves s (some tree) =
      persist c release_ok batch tree (anchor tree.root) insert_ok write_ok later leaves s

  -- What follows the claim, of these ids; where it took none, nothing was written.
  unfoldable pub on_claim :
      Bool
      → String
      → (String → Option Anchored)
      → Bool
      → (ℕ → Bool)
      → ℕ
      → List Leaf
      → Store
      → List String
      → Store × Outcome
  unfolding on_tree
  on_claim release_ok batch anchor insert_ok write_ok later leaves s [] = (s, idle)
  on_claim release_ok batch anchor insert_ok write_ok later leaves s (id ∷ ids) =
      on_tree release_ok batch anchor insert_ok write_ok later leaves s
        (build_merkle c (map (λ (l : Leaf). l.hash) leaves))

module _ (precedes : String → String → Bool) (c : Crypto) where
  -- `anchor` is the answer of the chain, none where it fails or takes too long.
  unfoldable pub batch_pending_receipts :
      Bool
      → String
      → ℕ
      → ℕ
      → ℕ
      → (String → Option Anchored)
      → Bool
      → (ℕ → Bool)
      → Store
      → Store × Outcome
  unfolding on_claim
  batch_pending_receipts release_ok batch max now later anchor insert_ok write_ok s =
      let rows = claim_batch precedes batch now max s.runs in
      on_claim c release_ok batch anchor insert_ok write_ok later (leaves_of precedes batch rows)
        (record s { runs = rows }) (claimed_ids precedes max s.runs)
