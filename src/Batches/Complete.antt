-- ===== src/Batches/Complete.antt =====
-- lib/receipt-batch.ts: where the writes succeed and a run waits, a batch is made.
use aemulus.Common.{
  ℕ, suc, ◌≡◌, ◌≢◌, refl, sym, ap, ◌∙◌, Bool, true, false, not, String, string_Eq, Option, none,
  some, List, [], ◌∷◌, map, length, any,
}
use aemulus.Merkle.{Crypto, MerkleTree, build_merkle}
use aemulus.Merkle.Inclusion.{HexRoundTrip}
use aemulus.Batches.{ReceiptRow, Store, Anchored, Leaf, batched, is_none, is_pending, claimed_ids}
use aemulus.Batches.Writing.{
  persist_from, persist_end, persist, on_tree, on_claim, batch_pending_receipts,
}
use aemulus.Batches.Claimed.{IsReady, claimed_ids-some}
use aemulus.Batches.Proven.{persist_from-true}
use aemulus.Batches.Batched.{
  StartsAt-zero, claimed_store, claimed_leaves, claimed_tree, tree_of-some,
}

module _ (c : Crypto) (hex : HexRoundTrip c) (batch : String) where
  persist-batched :
      (tree : MerkleTree) (anchored : Option Anchored) (insert_ok : Bool) (write_ok : ℕ → Bool)
      (now : ℕ) (leaves : List Leaf) (s : Store)
      → build_merkle c (map (λ (l : Leaf). l.hash) leaves) ≡ some tree
      → insert_ok ≡ true
      → ((k : ℕ) → write_ok k ≡ true)
      → (persist c true batch tree anchored insert_ok write_ok now leaves s).1
        ≡ batched batch (length leaves) tree.root (not (is_none anchored))
  unfolding persist
  persist-batched tree anchored false write_ok now leaves s built into ok = cc
  persist-batched tree anchored true write_ok now leaves s built into ok =
      at_end (persist_from c batch tree anchored write_ok 0 leaves s.runs) (
        persist_from-true c batch tree anchored write_ok (map (λ (l : Leaf). l.hash) leaves) 0
          leaves s.runs hex built (StartsAt-zero c batch tree anchored write_ok leaves) ok)
    where
      at_end :
          (x : List ReceiptRow × Bool)
          → x.1 ≡ true
          → (persist_end true batch tree anchored now (length leaves) s.batches x).1
            ≡ batched batch (length leaves) tree.root (not (is_none anchored))
      at_end (rows, true) e = unfold persist_end in refl
      at_end (rows, false) e = cc

module _ (precedes : String → String → Bool) (c : Crypto) (hex : HexRoundTrip c) (batch : String)
    (max now later : ℕ) (anchor : String → Option Anchored) (insert_ok : Bool) (write_ok : ℕ → Bool)
    (s : Store) (ready : IsReady batch s.runs) where
  on_tree-batched :
      (t : Option MerkleTree)
      → claimed_tree precedes batch max now s c ≡ t
      → t ≢ none
      → insert_ok ≡ true
      → ((k : ℕ) → write_ok k ≡ true)
      → (tree : MerkleTree) × (claimed_tree precedes batch max now s c ≡ some tree)
        × ((on_tree c true batch anchor insert_ok write_ok later
              (claimed_leaves precedes batch max now s)
              (claimed_store precedes batch max now s)
              t).1
            ≡ batched batch
                (length (claimed_leaves precedes batch max now s))
                tree.root
                (not (is_none (anchor tree.root))))
  unfolding on_tree
  on_tree-batched none built h into ok = absurd (h refl)
  on_tree-batched (some tree) built h into ok = (
    tree,
    built,
    persist-batched c hex batch tree (anchor tree.root) insert_ok write_ok later
        (claimed_leaves precedes batch max now s) (claimed_store precedes batch max now s) built
        into ok,
  )

  on_claim-batched :
      (ids : List String)
      → claimed_ids precedes max s.runs ≡ ids
      → ids ≢ []
      → insert_ok ≡ true
      → ((k : ℕ) → write_ok k ≡ true)
      → (tree : MerkleTree) × (claimed_tree precedes batch max now s c ≡ some tree)
        × ((on_claim c true batch anchor insert_ok write_ok later
              (claimed_leaves precedes batch max now s)
              (claimed_store precedes batch max now s)
              ids).1
            ≡ batched batch
                (length (claimed_leaves precedes batch max now s))
                tree.root
                (not (is_none (anchor tree.root))))
  unfolding on_claim
  on_claim-batched [] taken h into ok = absurd (h refl)
  on_claim-batched (i ∷ ids) taken h into ok =
      on_tree-batched (claimed_tree precedes batch max now s c) refl
        (tree_of-some precedes c hex batch max now later anchor insert_ok write_ok s ready i ids
          taken)
        into ok

  -- Where the ids are a key, the batch id is unused and no run outside a batch has a proof, hex is
  -- read back, the maximum is at least one, some run is pending and every write succeeds, a batching
  -- answers with as many leaves as it claimed, the root of the tree over the claimed receipt
  -- hashes, and whether the root was anchored.
  pub batch_pending_receipts-batched :
      (m : ℕ)
      → max ≡ suc m
      → any is_pending s.runs ≡ true
      → insert_ok ≡ true
      → ((k : ℕ) → write_ok k ≡ true)
      → (tree : MerkleTree) × (claimed_tree precedes batch max now s c ≡ some tree)
        × ((batch_pending_receipts precedes c true batch max now later anchor insert_ok write_ok
              s).1
            ≡ batched batch
                (length (claimed_leaves precedes batch max now s))
                tree.root
                (not (is_none (anchor tree.root))))
  unfolding batch_pending_receipts
  batch_pending_receipts-batched m size waits into ok =
      let (i, ids, taken) = claimed_ids-some precedes m s.runs waits in
      on_claim-batched (claimed_ids precedes max s.runs) refl
        (λ h.
          (let bad : i ∷ ids ≡ [] =
              sym taken ∙ sym (ap (λ k. claimed_ids precedes k s.runs) size) ∙ h in
            cc))
        into ok
