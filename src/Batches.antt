-- ===== src/Batches.antt =====
-- lib/receipt-batch.ts: the receipts of runs are put into Merkle trees, a batch at a time, and each
-- run is given its inclusion proof; `setRunBatch` of lib/runs.ts.
pub mod Writing
pub mod Rows
pub mod Claimed
pub mod Proven
pub mod Batched
pub mod Complete
mod Tests
use aemulus.Common.{
  ℕ, zero, suc, ◌+◌, ◌-◌, Bool, true, false, not, ◌&&◌, ◌||◌, String, string_Eq, Option, none, some,
  List, [], ◌∷◌, ◌++◌, map, length, ltb, nat_eq, ◌==◌, if◌then◌else◌, keep, any, find, sort, take,
}
use aemulus.Merkle.{Crypto, Sibling, MerkleTree, build_merkle, proof_for_index}

-- What a batch reads and writes of the table of runs.
pub record ReceiptRow : Type 0 where
  pub id : String
  pub created_at : ℕ
  pub receipt_hash : Option String
  pub batch_id : Option String
  pub batched_at : Option ℕ
  pub leaf_index : Option ℕ
  pub merkle_proof : Option (List Sibling)
  pub receipt_sig : Option String
  pub receipt_cluster : Option String

pub record BatchRow : Type 0 where
  pub id : String
  pub merkle_root : String
  pub leaf_count : ℕ
  pub sig : Option String
  pub cluster : Option String
  pub created_at : ℕ

pub record Store : Type 0 where
  pub runs : List ReceiptRow
  pub batches : List BatchRow

pub record Anchored : Type 0 where
  pub sig : String
  pub cluster : String

abbrev pub is_none {ℓ} : {A : Type ℓ} → Option A → Bool
is_none none = true
is_none (some a) = false

abbrev pub is_in : String → ReceiptRow → Bool
is_in batch r = elim r.batch_id [ none ↦ false | some b ↦ b == batch ]

unfoldable pub update : String → (ReceiptRow → ReceiptRow) → List ReceiptRow → List ReceiptRow
update id f [] = []
update id f (r ∷ rows) = (if r.id == id then f r else r) ∷ update id f rows

-- A row whose receipt waits for a batch.
abbrev pub is_pending : ReceiptRow → Bool
is_pending r = is_none r.batch_id && not (is_none r.receipt_hash)

-- `ANCHOR_TIMEOUT_MS + 4 * 60_000`.
abbrev pub batch_stale_ms : ℕ
batch_stale_ms = 300000

abbrev pub is_orphaned : ℕ → ReceiptRow → Bool
is_orphaned now r =
    not (is_none r.batch_id)
    && (is_none r.merkle_proof
        && elim r.batched_at [ none ↦ true | some t ↦ ltb (t + batch_stale_ms) now ])

abbrev pub released : ReceiptRow → ReceiptRow
released r = record r { batch_id = none }

-- The rows, and how many were released.
unfoldable pub recover_orphaned_batch_claims : ℕ → List ReceiptRow → List ReceiptRow × ℕ
recover_orphaned_batch_claims now rows = (
  map (λ r. if is_orphaned now r then released r else r) rows,
  length (keep (is_orphaned now) rows),
)

pub record Leaf : Type 0 where
  pub id : String
  pub hash : String

abbrev pub leaf_of : ReceiptRow → Leaf
leaf_of r = record { id = r.id; hash = elim r.receipt_hash [ none ↦ "null" | some h ↦ h ] }

pub data Outcome : Type 0 where
  idle : Outcome
  failed : Outcome
  batched : String → ℕ → String → Bool → Outcome

abbrev pub is_one_of : List String → String → Bool
is_one_of ids id = any (λ i. i == id) ids

abbrev pub proven : String → ℕ → List Sibling → Option Anchored → ReceiptRow → ReceiptRow
proven batch i proof anchored r = record r {
  batch_id = some batch;
  leaf_index = some i;
  merkle_proof = some proof;
  receipt_sig = elim anchored [ none ↦ none | some a ↦ some a.sig ];
  receipt_cluster = elim anchored [ none ↦ none | some a ↦ some a.cluster ];
}

-- `setRunBatch`.
unfoldable pub set_run_batch :
    String → String → ℕ → List Sibling → Option Anchored → List ReceiptRow → List ReceiptRow
unfolding update
set_run_batch id batch i proof anchored rows = update id (proven batch i proof anchored) rows

-- After a failure: the runs of the batch that have no proof are released, if that write succeeds.
unfoldable pub release_unproven : Bool → String → List ReceiptRow → List ReceiptRow
release_unproven false batch rows = rows
release_unproven true batch rows =
    map (λ r. if is_in batch r && is_none r.merkle_proof then released r else r) rows

abbrev pub new_batch : String → MerkleTree → ℕ → Option Anchored → ℕ → BatchRow
new_batch batch tree count anchored now = record {
  id = batch;
  merkle_root = tree.root;
  leaf_count = count;
  sig = elim anchored [ none ↦ none | some a ↦ some a.sig ];
  cluster = elim anchored [ none ↦ none | some a ↦ some a.cluster ];
  created_at = now;
}

-- `precedes` is the database's order of texts.
module _ (precedes : String → String → Bool) where
  -- `ORDER BY created_at ASC, id ASC`.
  abbrev pub is_before : ReceiptRow → ReceiptRow → Bool
  is_before a b =
      ltb a.created_at b.created_at || (nat_eq a.created_at b.created_at && precedes a.id b.id)

  -- The rows that the claim takes.
  unfoldable pub claimed_ids : ℕ → List ReceiptRow → List String
  claimed_ids max rows =
      map (λ (r : ReceiptRow). r.id) (take max (sort is_before (keep is_pending rows)))

  unfoldable pub claim_batch : String → ℕ → ℕ → List ReceiptRow → List ReceiptRow
  unfolding claimed_ids
  claim_batch batch now max rows =
      let ids = claimed_ids max rows in
      map
        (λ r.
          if is_one_of ids r.id
          then record r { batch_id = some batch; batched_at = some now }
          else r)
        rows

  unfoldable pub leaves_of : String → List ReceiptRow → List Leaf
  leaves_of batch rows = map leaf_of (sort is_before (keep (is_in batch) rows))
