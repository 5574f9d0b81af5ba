-- ===== src/Batches/Proven.antt =====
-- lib/receipt-batch.ts: a run in a batch has a proof against the batch's root.
use aemulus.Common.{
  ℕ, suc, ◌≡◌, refl, sym, ap, ◌∙◌, subst, inl, inr, ◌⊎◌, Bool, true, false, ◌&&◌, String, string_Eq,
  Option, none, some, List, [], ◌∷◌, map, get_elem?, ◌==◌, ==_sound, if◌then◌else◌, any, All,
  All-mono, Bool-cases, Option-cases, arith,
}
use aemulus.Merkle.{Crypto, Sibling, MerkleTree, build_merkle, proof_for_index, verify_proof}
use aemulus.Merkle.Inclusion.{HexRoundTrip, verify_proof-proof_for_index}
use aemulus.Batches.{
  ReceiptRow, Anchored, Leaf, is_none, is_in, released, update, proven, set_run_batch,
  release_unproven,
}
use aemulus.Batches.Writing.{persist_from}
use aemulus.Batches.Rows.{get_run, changed, get_run-update, get_run-map}
use aemulus.Batches.Claimed.{hash_in, hash_at}

-- The run has a proof, and its receipt checks with it against the root.
pub record IsProven (c : Crypto) (root : String) (r : ReceiptRow) : Type 0 where
  pub hash : String
  pub proof : List Sibling
  pub has_hash : r.receipt_hash ≡ some hash
  pub has_proof : r.merkle_proof ≡ some proof
  pub checks : verify_proof c hash proof root ≡ true

-- After the release, the runs that are in the batch were in it, with a proof.
module _ (batch : String) where
  abbrev freed : ReceiptRow → ReceiptRow
  freed r = if is_in batch r && is_none r.merkle_proof then released r else r

  freed-in :
      (x : ReceiptRow)
      → is_in batch (freed x) ≡ true
      → (freed x ≡ x) × (is_none x.merkle_proof ≡ false)
  freed-in x e = elim (Bool-cases (is_in batch x && is_none x.merkle_proof)) [
    | inl free ↦ (let bad : is_in batch (released x) ≡ true = rw free at e in cc)
    | inr kept ↦ let same : is_in batch x ≡ true = rw kept at e in (rw kept refl, ground arith)
  ]

  pub release_unproven-kept :
      (rows : List ReceiptRow) (id : String) (r : ReceiptRow)
      → get_run id (release_unproven true batch rows) ≡ some r
      → is_in batch r ≡ true
      → (get_run id rows ≡ some r) × (is_none r.merkle_proof ≡ false)
  unfolding release_unproven
  release_unproven-kept rows id r found e = elim (Option-cases (get_run id rows)) [
    | inl k ↦ (let bad : none ≡ some r = sym (step ∙ ap (changed true freed) k) ∙ found in cc)
    | inr (x, k) ↦
        let same : some (freed x) ≡ some r = sym (step ∙ ap (changed true freed) k) ∙ found in
        let eq : freed x ≡ r = cc in
        let (kept, full) = freed-in x (subst (λ z. is_in batch z ≡ true) (sym eq) e) in
        let eq' : x ≡ r = sym kept ∙ eq in
        (k ∙ ap some eq', subst (λ (z : ReceiptRow). is_none z.merkle_proof ≡ false) eq' full)
  ]
    where
      step : get_run id (map freed rows) ≡ changed true freed (get_run id rows)
      step = get_run-map id freed rows (λ x. ground arith)

module _ (c : Crypto) (batch : String) (tree : MerkleTree) (anchored : Option Anchored)
    (write_ok : ℕ → Bool) where
  abbrev pub IsLeft : String → List Leaf → ReceiptRow → Type 0
  IsLeft id ls r = (r.merkle_proof ≡ none) × (any (λ (l : Leaf). l.id == id) ls ≡ true)

  -- A run of the batch is proven, or a leaf that is left.
  abbrev pub IsServed : List Leaf → List ReceiptRow → Type 0
  IsServed ls rows =
      (id : String) (r : ReceiptRow)
      → get_run id rows ≡ some r
      → is_in batch r ≡ true
      → IsLeft id ls r ⊎ IsProven c tree.root r

  abbrev pub HaveHashes : List Leaf → List ReceiptRow → Type 0
  HaveHashes ls rows = All (λ (l : Leaf). hash_at l.id rows ≡ some l.hash) ls

  -- A leaf's proof leaves the hashes as they are.
  hash_at-update :
      (id j : String) (i : ℕ) (proof : List Sibling) (rows : List ReceiptRow)
      → hash_at id (update j (proven batch i proof anchored) rows) ≡ hash_at id rows
  hash_at-update id j i proof rows =
      ap hash_in (get_run-update id j (proven batch i proof anchored) rows (λ x. refl))
      ∙ same (id == j) (get_run id rows)
    where
      same :
          (hit : Bool) (o : Option ReceiptRow)
          → hash_in (changed hit (proven batch i proof anchored) o) ≡ hash_in o
      same hit none = refl
      same true (some r) = refl
      same false (some r) = refl

  -- One round of the loop.
  update-IsServed :
      (l : Leaf) (ls : List Leaf) (i : ℕ) (proof : List Sibling) (rows : List ReceiptRow)
      → verify_proof c l.hash proof tree.root ≡ true
      → hash_at l.id rows ≡ some l.hash
      → IsServed (l ∷ ls) rows
      → IsServed ls (update l.id (proven batch i proof anchored) rows)
  update-IsServed l ls i proof rows v h served id r found e =
      elim (Option-cases (get_run id rows)) [
        | inl k ↦ let bad : none ≡ some r = sym (step ∙ ap (changed (id == l.id) f) k) ∙ found in cc
        | inr (x, k) ↦
            let same : some (if id == l.id then f x else x) ≡ some r =
              sym (step ∙ ap (changed (id == l.id) f) k) ∙ found in
            elim (Bool-cases (id == l.id)) [
              | inl here ↦
                  let eq : f x ≡ r = ground arith in
                  let eq' : l.id ≡ id = sym (==_sound id l.id here) in
                  let hash : x.receipt_hash ≡ some l.hash =
                    sym (ap hash_in k) ∙ ap (λ s. hash_at s rows) (sym eq') ∙ h in
                  inr (
                    subst (IsProven c tree.root) eq (record {
                      hash = l.hash;
                      proof = proof;
                      has_hash = hash;
                      has_proof = refl;
                      checks = v;
                    }))
              | inr there ↦
                  let eq : x ≡ r = ground arith in
                  elim (served id x k (subst (λ z. is_in batch z ≡ true) (sym eq) e)) [
                    | inl (p, q) ↦ inl (
                      subst (λ (z : ReceiptRow). z.merkle_proof ≡ none) eq p,
                      ground (arith, string_Eq.decides l.id id, string_Eq.decides id l.id),
                    )
                    | inr p ↦ inr (subst (IsProven c tree.root) eq p)
                  ]
            ]
      ]
    where
      f : ReceiptRow → ReceiptRow
      f = proven batch i proof anchored

      step : get_run id (update l.id f rows) ≡ changed (id == l.id) f (get_run id rows)
      step = get_run-update id l.id f rows (λ x. refl)

  -- The leaves from an index on have these hashes.
  abbrev pub StartsAt : List String → ℕ → List Leaf → Type 0
  StartsAt hashes i [] = Unit
  StartsAt hashes i (l ∷ ls) = (get_elem? hashes i ≡ some l.hash) × StartsAt hashes (suc i) ls

  persist_from-lost :
      (i : ℕ) (l : Leaf) (ls : List Leaf) (rows : List ReceiptRow) (proof : List Sibling)
      → proof_for_index c tree i ≡ some proof
      → write_ok i ≡ false
      → persist_from c batch tree anchored write_ok i (l ∷ ls) rows ≡ (rows, false)
  unfolding persist_from
  persist_from-lost i l ls rows proof found lost = ground arith

  pub persist_from-kept :
      (i : ℕ) (l : Leaf) (ls : List Leaf) (rows : List ReceiptRow) (proof : List Sibling)
      → proof_for_index c tree i ≡ some proof
      → write_ok i ≡ true
      → persist_from c batch tree anchored write_ok i (l ∷ ls) rows
        ≡ persist_from c batch tree anchored write_ok
            (suc i)
            ls
            (update l.id (proven batch i proof anchored) rows)
  unfolding persist_from set_run_batch
  persist_from-kept i l ls rows proof found kept = ground arith

  -- What the loop leaves: nothing, where it reaches its end.
  abbrev pub IsDone : List ReceiptRow × Bool → Type 0
  IsDone x = (left : List Leaf) × IsServed left x.0 × (x.1 ≡ true → left ≡ [])

  pub persist_from-IsDone :
      (hashes : List String) (i : ℕ) (ls : List Leaf) (rows : List ReceiptRow)
      → HexRoundTrip c
      → build_merkle c hashes ≡ some tree
      → StartsAt hashes i ls
      → HaveHashes ls rows
      → IsServed ls rows
      → IsDone (persist_from c batch tree anchored write_ok i ls rows)
  persist_from-IsDone hashes i [] rows hex built at hs served =
      unfold persist_from in ([], served, λ h. refl)
  persist_from-IsDone hashes i (l ∷ ls) rows hex built at hs served =
      let (proof, found, v) = verify_proof-proof_for_index c hex hashes tree i l.hash built at.0 in
      elim (Bool-cases (write_ok i)) [
        | inr lost ↦
            subst IsDone (sym (persist_from-lost i l ls rows proof found lost))
              (l ∷ ls, served, λ h. cc)
        | inl kept ↦ subst IsDone (sym (persist_from-kept i l ls rows proof found kept)) (
            persist_from-IsDone hashes (suc i) ls (update l.id (proven batch i proof anchored) rows)
              hex built at.1
              (All-mono _ _ (λ (k : Leaf) h. hash_at-update k.id l.id i proof rows ∙ h) ls hs.1)
              (update-IsServed l ls i proof rows v hs.0 served))
      ]

  -- After the release of what is left, each run of the batch is proven.
  pub release_unproven-IsProven :
      (left : List Leaf) (rows : List ReceiptRow)
      → IsServed left rows
      → (id : String) (r : ReceiptRow) → get_run id (release_unproven true batch rows) ≡ some r
      → is_in batch r ≡ true
      → IsProven c tree.root r
  release_unproven-IsProven left rows served id r found e =
      let (before, full) = release_unproven-kept batch rows id r found e in
      elim (served id r before e) [
        | inl (p, q) ↦
            (let bad : is_none {A = List Sibling} none ≡ false =
                subst (λ o. is_none o ≡ false) p full in
              cc)
        | inr p ↦ p
      ]

  pub persist_from-true :
      (hashes : List String) (i : ℕ) (ls : List Leaf) (rows : List ReceiptRow)
      → HexRoundTrip c
      → build_merkle c hashes ≡ some tree
      → StartsAt hashes i ls
      → ((k : ℕ) → write_ok k ≡ true)
      → (persist_from c batch tree anchored write_ok i ls rows).1 ≡ true
  persist_from-true hashes i [] rows hex built at ok = unfold persist_from in refl
  persist_from-true hashes i (l ∷ ls) rows hex built at ok =
      let (proof, found, v) = verify_proof-proof_for_index c hex hashes tree i l.hash built at.0 in
      ap (λ (x : List ReceiptRow × Bool). x.1) (persist_from-kept i l ls rows proof found (ok i))
      ∙ persist_from-true hashes (suc i) ls (update l.id (proven batch i proof anchored) rows) hex
          built at.1 ok
