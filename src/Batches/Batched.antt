-- ===== src/Batches/Batched.antt =====
-- lib/receipt-batch.ts: whatever fails, a run that is in a batch is proven against its root.
use aemulus.Common.{
  ℕ, suc, ◌≡◌, ◌≢◌, refl, sym, ◌∙◌, subst, inl, inr, Bool, true, false, String, string_Eq, Option,
  none, some, List, [], ◌∷◌, map, length, ◌==◌, ==_self, any, find, find-append_new, All,
}
use aemulus.Merkle.{Crypto, Sibling, MerkleTree, build_merkle}
use aemulus.Merkle.Inclusion.{HexRoundTrip, build_merkle-total}
use aemulus.Batches.{
  ReceiptRow, BatchRow, Store, Anchored, Leaf, is_none, is_in, claimed_ids, claim_batch, leaves_of,
  release_unproven, new_batch,
}
use aemulus.Batches.Writing.{
  persist_from, persist_end, persist, on_tree, on_claim, batch_pending_receipts,
}
use aemulus.Batches.Rows.{get_run}
use aemulus.Batches.Claimed.{
  IsReady, hash_at, claimed_run, leaves-hash, leaves-cover, leaves-some, claimed-idle,
}
use aemulus.Batches.Proven.{
  IsProven, StartsAt, IsDone, persist_from-IsDone, release_unproven-kept, release_unproven-IsProven,
}

-- Each run of the batch is proven against the root that is recorded for it.
abbrev pub IsBatchProven : Crypto → String → String → ReceiptRow → List BatchRow → Type 0
IsBatchProven c batch id r batches =
    (b : BatchRow) × (find (λ x. x.id == batch) batches ≡ some b) × IsProven c b.merkle_root r

-- None of the batch's runs has a proof yet.
abbrev IsFresh : String → List ReceiptRow → Type 0
IsFresh batch rows =
    (id : String) (r : ReceiptRow)
    → get_run id rows ≡ some r
    → is_in batch r ≡ true
    → r.merkle_proof ≡ none

StartsAt-later :
    (c : Crypto) (batch : String) (tree : MerkleTree) (anchored : Option Anchored)
    (write_ok : ℕ → Bool) (h : String) (hs : List String) (i : ℕ) (ls : List Leaf)
    → StartsAt c batch tree anchored write_ok hs i ls
    → StartsAt c batch tree anchored write_ok (h ∷ hs) (suc i) ls
StartsAt-later c batch tree anchored write_ok h hs i [] s = tt
StartsAt-later c batch tree anchored write_ok h hs i (l ∷ ls) (a, s) =
    (a, StartsAt-later c batch tree anchored write_ok h hs (suc i) ls s)

pub StartsAt-zero :
    (c : Crypto) (batch : String) (tree : MerkleTree) (anchored : Option Anchored)
    (write_ok : ℕ → Bool) (ls : List Leaf)
    → StartsAt c batch tree anchored write_ok (map (λ (l : Leaf). l.hash) ls) 0 ls
StartsAt-zero c batch tree anchored write_ok [] = tt
StartsAt-zero c batch tree anchored write_ok (l ∷ ls) = (
  refl,
  StartsAt-later c batch tree anchored write_ok l.hash (map (λ (k : Leaf). k.hash) ls) 0 ls
      (StartsAt-zero c batch tree anchored write_ok ls),
)

module _ (c : Crypto) (hex : HexRoundTrip c) (batch : String) where
  -- The batch's row is written first: without it nothing keeps its claim.
  unwritten :
      (rows : List ReceiptRow) (id : String) (r : ReceiptRow)
      → IsFresh batch rows
      → get_run id (release_unproven true batch rows) ≡ some r
      → is_in batch r ≡ true
      → ⊥
  unwritten rows id r fresh found e =
      let (before, full) = release_unproven-kept batch rows id r found e in
      let bad : is_none {A = List Sibling} none ≡ false =
        subst (λ o. is_none o ≡ false) (fresh id r before e) full in
      cc

  module _ (tree : MerkleTree) (anchored : Option Anchored) (write_ok : ℕ → Bool) where
    persist_end-proven :
        (now count : ℕ) (batches : List BatchRow) (x : List ReceiptRow × Bool) (id : String)
        (r : ReceiptRow)
        → find (λ (b : BatchRow). b.id == batch) batches ≡ none
        → IsDone c batch tree anchored write_ok x
        → get_run id (persist_end true batch tree anchored now count batches x).0.runs ≡ some r
        → is_in batch r ≡ true
        → IsBatchProven c batch id r
            (persist_end true batch tree anchored now count batches x).0.batches
    unfolding persist_end
    persist_end-proven now count batches (rows, true) id r new (left, served, done) found e =
        let row = new_batch batch tree count anchored now in
        let there =
          find-append_new (λ (b : BatchRow). b.id == batch) batches row new (==_self batch) in
        elim (served id r found e) [
          | inl (p, q) ↦
              let bad : any (λ (l : Leaf). l.id == id) [] ≡ true =
                subst (λ ls. any (λ (l : Leaf). l.id == id) ls ≡ true) (done refl) q in
              cc
          | inr p ↦ (row, there, p)
        ]
    persist_end-proven now count batches (rows, false) id r new (left, served, done) found e =
        let row = new_batch batch tree count anchored now in
        let there =
          find-append_new (λ (b : BatchRow). b.id == batch) batches row new (==_self batch) in
        (
          row,
          there,
          release_unproven-IsProven c batch tree anchored write_ok left rows served id r found e,
        )

    persist-proven :
        (insert_ok : Bool) (now : ℕ) (leaves : List Leaf) (s : Store) (id : String) (r : ReceiptRow)
        → build_merkle c (map (λ (l : Leaf). l.hash) leaves) ≡ some tree
        → All (λ (l : Leaf). hash_at l.id s.runs ≡ some l.hash) leaves
        → IsFresh batch s.runs
        → ((i : String) (x : ReceiptRow)
            → get_run i s.runs ≡ some x
            → is_in batch x ≡ true
            → any (λ (l : Leaf). l.id == i) leaves ≡ true)
        → find (λ (b : BatchRow). b.id == batch) s.batches ≡ none
        → get_run id (persist c true batch tree anchored insert_ok write_ok now leaves s).0.runs
          ≡ some r
        → is_in batch r ≡ true
        → IsBatchProven c batch id r
            (persist c true batch tree anchored insert_ok write_ok now leaves s).0.batches
    unfolding persist
    persist-proven false now leaves s id r built hs fresh cover new found e =
        absurd (unwritten s.runs id r fresh found e)
    persist-proven true now leaves s id r built hs fresh cover new found e =
        persist_end-proven now (length leaves) s.batches
          (persist_from c batch tree anchored write_ok 0 leaves s.runs) id r new
          (persist_from-IsDone c batch tree anchored write_ok (map (λ (l : Leaf). l.hash) leaves) 0
            leaves s.runs hex built (StartsAt-zero c batch tree anchored write_ok leaves) hs
            (λ i x k h. inl (fresh i x k h, cover i x k h)))
          found e

pub map-some {ℓ κ} : {A : Type ℓ} {B : Type κ} (f : A → B) (xs : List A) → xs ≢ [] → map f xs ≢ []
map-some f [] h e = h refl
map-some f (x ∷ xs) h e = cc

-- The store after the claim, its leaves, and their tree.
module _ (precedes : String → String → Bool) (batch : String) (max now : ℕ) (s : Store) where
  abbrev pub claimed_store : Store
  claimed_store = record s { runs = claim_batch precedes batch now max s.runs }

  abbrev pub claimed_leaves : List Leaf
  claimed_leaves = leaves_of precedes batch (claim_batch precedes batch now max s.runs)

  abbrev pub claimed_tree : Crypto → Option MerkleTree
  claimed_tree c = build_merkle c (map (λ (l : Leaf). l.hash) claimed_leaves)

module _ (precedes : String → String → Bool) (c : Crypto) (hex : HexRoundTrip c) (batch : String)
    (max now later : ℕ) (anchor : String → Option Anchored) (insert_ok : Bool) (write_ok : ℕ → Bool)
    (s : Store) (ready : IsReady batch s.runs) where
  -- A claim that takes some run makes a tree.
  pub tree_of-some :
      (id : String) (ids : List String)
      → claimed_ids precedes max s.runs ≡ id ∷ ids
      → claimed_tree precedes batch max now s c ≢ none
  tree_of-some id ids taken lost =
      let (tree, built) =
        build_merkle-total c hex
          (map (λ (l : Leaf). l.hash) (claimed_leaves precedes batch max now s))
          (map-some _ (claimed_leaves precedes batch max now s)
            (leaves-some precedes batch now max s.runs ready id ids taken)) in
      let bad : none ≡ some tree = sym lost ∙ built in cc

  module _ (id : String) (r : ReceiptRow)
      (unrecorded : find (λ (b : BatchRow). b.id == batch) s.batches ≡ none)
      (inside : is_in batch r ≡ true) where
    on_tree-proven :
        (t : Option MerkleTree)
        → claimed_tree precedes batch max now s c ≡ t
        → t ≢ none
        → get_run id
            (on_tree c true batch anchor insert_ok write_ok later
              (claimed_leaves precedes batch max now s)
              (claimed_store precedes batch max now s)
              t).0.runs
          ≡ some r
        → IsBatchProven c batch id r
            (on_tree c true batch anchor insert_ok write_ok later
              (claimed_leaves precedes batch max now s)
              (claimed_store precedes batch max now s)
              t).0.batches
    unfolding on_tree
    on_tree-proven none built h found = absurd (h refl)
    on_tree-proven (some tree) built h found =
        persist-proven c hex batch tree (anchor tree.root) write_ok insert_ok later
          (claimed_leaves precedes batch max now s) (claimed_store precedes batch max now s) id r
          built (leaves-hash precedes batch now max s.runs ready)
          (λ i x k e. (claimed_run precedes batch now max s.runs ready i x k e).2)
          (leaves-cover precedes batch now max s.runs ready) unrecorded found inside

    on_claim-proven :
        (ids : List String)
        → claimed_ids precedes max s.runs ≡ ids
        → get_run id
            (on_claim c true batch anchor insert_ok write_ok later
              (claimed_leaves precedes batch max now s)
              (claimed_store precedes batch max now s)
              ids).0.runs
          ≡ some r
        → IsBatchProven c batch id r
            (on_claim c true batch anchor insert_ok write_ok later
              (claimed_leaves precedes batch max now s)
              (claimed_store precedes batch max now s)
              ids).0.batches
    unfolding on_claim
    on_claim-proven [] taken found =
        absurd (claimed-idle precedes batch now max s.runs ready id r taken found inside)
    on_claim-proven (i ∷ ids) taken found =
        on_tree-proven (claimed_tree precedes batch max now s c) refl (tree_of-some i ids taken)
          found

    -- For a batching of receipts into a table whose run ids differ, in which no run outside a
    -- batch holds a stored proof, under a batch id that no run or batch row has, where hex is
    -- read back, and, where a write fails, the release of unproven runs succeeds: whichever write
    -- fails, the batch's row or any of the proofs, every run that is in the batch afterwards has
    -- a receipt hash and a stored proof that verifies against the root of the batch's row.
    pub batch_pending_receipts-IsBatchProven :
        get_run id
            (batch_pending_receipts precedes c true batch max now later anchor insert_ok write_ok
              s).0.runs
          ≡ some r
        → IsBatchProven c batch id r
            (batch_pending_receipts precedes c true batch max now later anchor insert_ok write_ok
              s).0.batches
    unfolding batch_pending_receipts
    batch_pending_receipts-IsBatchProven found =
        on_claim-proven (claimed_ids precedes max s.runs) refl found
