-- ===== src/Batches/Claimed.antt =====
-- lib/receipt-batch.ts: what the claim of a batch takes, and its leaves.
use aemulus.Common.{
  take, All-keep, All-take, All-map, ℕ, suc, ◌≡◌, ◌≢◌, refl, sym, ap, ◌∙◌, subst, inl, inr, Bool,
  true, false, not, ◌&&◌, String, string_Eq, Option, none, some, List, [], ◌∷◌, map, ◌==◌, ==_sound,
  ==_self, if◌then◌else◌, keep, keep-yes, keep-no, any, sort, All, All-sort, Bool-cases,
  Option-cases, arith,
}
use aemulus.Batches.{
  ReceiptRow, Leaf, leaf_of, is_none, is_in, is_pending, is_before, claimed_ids, is_one_of,
  claim_batch, leaves_of,
}
use aemulus.Batches.Rows.{
  get_run, get_run-id, changed, get_run-map, IsKeyed, any-sort, any-map, All-get_run, IsKeyed-found,
  IsKeyed-map,
}

-- Before a batch: ids are a key, no run is in the batch yet, and none that is in no batch has a proof.
pub record IsReady (batch : String) (rows : List ReceiptRow) : Type 0 where
  pub keyed : IsKeyed rows
  pub unused : All (λ r. is_in batch r ≡ false) rows
  pub clean :
      All (λ (r : ReceiptRow). (is_none r.batch_id && not (is_none r.merkle_proof)) ≡ false) rows

pub of_is_none {ℓ} : {A : Type ℓ} (o : Option A) → is_none o ≡ true → o ≡ none
of_is_none none h = refl
of_is_none (some a) h = cc

pub of_not_is_none {ℓ} : {A : Type ℓ} (o : Option A) → is_none o ≡ false → (a : A) × (o ≡ some a)
of_not_is_none none h = cc
of_not_is_none (some a) h = (a, refl)

All-one_of :
    (P : String → Type 0) (ids : List String) (id : String)
    → All P ids
    → is_one_of ids id ≡ true
    → P id
All-one_of P [] id h e = cc
All-one_of P (i ∷ ids) id (h, hs) e = elim (Bool-cases (i == id)) [
  | inl here ↦ subst P (==_sound i id here) h
  | inr there ↦ All-one_of P ids id hs (ground arith)
]

any-keep_found :
    (p : ReceiptRow → Bool) (id : String) (rows : List ReceiptRow) (r : ReceiptRow)
    → get_run id rows ≡ some r
    → p r ≡ true
    → any (λ x. x.id == id) (keep p rows) ≡ true
unfolding get_run
any-keep_found p id [] r h e = cc
any-keep_found p id (x ∷ rows) r h e = elim (Bool-cases (x.id == id)) [
  | inl here ↦
      let same : x ≡ r = ground arith in
      ap (any (λ x. x.id == id)) (keep-yes p x rows (ap p same ∙ e)) ∙ rw here refl
  | inr there ↦
      let rest = any-keep_found p id rows r (ground arith) e in
      elim (Bool-cases (p x)) [
        | inl k ↦ ap (any (λ x. x.id == id)) (keep-yes p x rows k) ∙ rw there rest
        | inr k ↦ ap (any (λ x. x.id == id)) (keep-no p x rows k) ∙ rest
      ]
]

-- The receipt hash of the run with an id.
abbrev pub hash_in : Option ReceiptRow → Option String
hash_in none = none
hash_in (some r) = r.receipt_hash

abbrev pub hash_at : String → List ReceiptRow → Option String
hash_at id rows = hash_in (get_run id rows)

module _ (precedes : String → String → Bool) (batch : String) (now max : ℕ) (rows : List ReceiptRow)
    (ready : IsReady batch rows) where
  abbrev claimed_rows : List ReceiptRow
  claimed_rows = claim_batch precedes batch now max rows

  abbrev taken : ReceiptRow → ReceiptRow
  taken r =
      if is_one_of (claimed_ids precedes max rows) r.id
      then record r { batch_id = some batch; batched_at = some now }
      else r

  -- The run with a claimed id is pending.
  claimed-pending :
      All
        (λ id. (x : ReceiptRow) × (get_run id rows ≡ some x) × (is_pending x ≡ true))
        (claimed_ids precedes max rows)
  unfolding claimed_ids
  claimed-pending =
      let P : ReceiptRow → Type 0 = λ x. (get_run x.id rows ≡ some x) × (is_pending x ≡ true) in
      All-map P _ (λ (x : ReceiptRow). x.id) (λ x h. (x, h.0, h.1)) _
        (All-take P max _ (
          All-sort (is_before precedes) P _
            (All-keep _ is_pending rows (IsKeyed-found rows ready.keyed))))

  taken_id : (x : ReceiptRow) → (taken x).id ≡ x.id
  taken_id x = ground arith

  get_run-claimed : (id : String) → get_run id claimed_rows ≡ changed true taken (get_run id rows)
  unfolding claim_batch
  get_run-claimed id = get_run-map id taken rows taken_id

  pub claimed-IsKeyed : IsKeyed claimed_rows
  unfolding claim_batch
  claimed-IsKeyed = IsKeyed-map taken rows taken_id ready.keyed

  -- What a row that is taken was.
  was_pending :
      (x : ReceiptRow)
      → get_run x.id rows ≡ some x
      → is_one_of (claimed_ids precedes max rows) x.id ≡ true
      → is_pending x ≡ true
  was_pending x found one =
      let (y, k, p) = All-one_of _ (claimed_ids precedes max rows) x.id claimed-pending one in
      let same : some y ≡ some x = sym k ∙ found in
      let eq : y ≡ x = cc in subst (λ z. is_pending z ≡ true) eq p

  pending-clean :
      (x : ReceiptRow)
      → is_pending x ≡ true
      → (is_none x.batch_id && not (is_none x.merkle_proof)) ≡ false
      → (hash : String) × (x.receipt_hash ≡ some hash) × (x.merkle_proof ≡ none)
  pending-clean x p q =
      let (hash, e) = of_not_is_none x.receipt_hash (ground arith) in
      (hash, e, of_is_none x.merkle_proof (ground arith))

  abbrev HasReceipt : ReceiptRow → Type 0
  HasReceipt r = (hash : String) × (r.receipt_hash ≡ some hash) × (r.merkle_proof ≡ none)

  taken-HasReceipt :
      (x : ReceiptRow)
      → get_run x.id rows ≡ some x
      → is_in batch x ≡ false
      → (is_none x.batch_id && not (is_none x.merkle_proof)) ≡ false
      → is_in batch (taken x) ≡ true
      → HasReceipt (taken x)
  taken-HasReceipt x found out q e =
      elim (Bool-cases (is_one_of (claimed_ids precedes max rows) x.id)) [
        | inr k ↦ (let bad : is_in batch x ≡ true = rw k at e in cc)
        | inl k ↦ rw k (pending-clean x (was_pending x found k) q)
      ]

  -- A run in the batch has a receipt and no proof.
  pub claimed_run :
      (id : String) (r : ReceiptRow)
      → get_run id claimed_rows ≡ some r
      → is_in batch r ≡ true
      → HasReceipt r
  claimed_run id r h e = elim (Option-cases (get_run id rows)) [
    | inl k ↦
        (let bad : none ≡ some r = sym (get_run-claimed id ∙ ap (changed true taken) k) ∙ h in cc)
    | inr (x, k) ↦
        let same : some (taken x) ≡ some r =
          sym (get_run-claimed id ∙ ap (changed true taken) k) ∙ h in
        let eq : taken x ≡ r = cc in
        subst HasReceipt eq (
          taken-HasReceipt x (All-get_run _ id rows x (IsKeyed-found rows ready.keyed) k)
            (All-get_run _ id rows x ready.unused k) (All-get_run _ id rows x ready.clean k)
            (subst (λ z. is_in batch z ≡ true) (sym eq) e))
  ]

  -- Each leaf has the receipt hash of its run.
  pub leaves-hash :
      All
        (λ (l : Leaf). hash_at l.id claimed_rows ≡ some l.hash)
        (leaves_of precedes batch claimed_rows)
  unfolding leaves_of
  leaves-hash =
      All-map (λ x. (get_run x.id claimed_rows ≡ some x) × (is_in batch x ≡ true)) _ leaf_of
        (λ x h.
          let (hash, e, p) = claimed_run x.id x h.0 h.1 in
          ap hash_in h.0
          ∙ e
          ∙ ap some (sym (ap (λ (o : Option String). elim o [ none ↦ "null" | some s ↦ s ]) e)))
        _
        (All-sort (is_before precedes) _ _ (
          All-keep (λ x. get_run x.id claimed_rows ≡ some x) (is_in batch) claimed_rows
            (IsKeyed-found claimed_rows claimed-IsKeyed)))

  -- Each run in the batch is a leaf.
  pub leaves-cover :
      (id : String) (r : ReceiptRow)
      → get_run id claimed_rows ≡ some r
      → is_in batch r ≡ true
      → any (λ (l : Leaf). l.id == id) (leaves_of precedes batch claimed_rows) ≡ true
  unfolding leaves_of
  leaves-cover id r h e =
      any-map (λ (l : Leaf). l.id == id) leaf_of
        (sort (is_before precedes) (keep (is_in batch) claimed_rows))
      ∙ any-sort (is_before precedes) (λ (x : ReceiptRow). x.id == id)
          (keep (is_in batch) claimed_rows)
      ∙ any-keep_found (is_in batch) id claimed_rows r h e

  -- A claim that takes a run makes leaves.
  pub leaves-some :
      (id : String) (ids : List String)
      → claimed_ids precedes max rows ≡ id ∷ ids
      → leaves_of precedes batch claimed_rows ≢ []
  leaves-some id ids h none_left =
      let one : is_one_of (claimed_ids precedes max rows) id ≡ true = rw (h, ==_self id) refl in
      let (x, k, p) = All-one_of _ (claimed_ids precedes max rows) id claimed-pending one in
      let found : get_run id claimed_rows ≡ some (taken x) =
        get_run-claimed id ∙ ap (changed true taken) k in
      let here : is_one_of (claimed_ids precedes max rows) x.id ≡ true =
        rw (get_run-id id rows x k) one in
      let hit = leaves-cover id (taken x) found (taken-in x here) in
      let bad : any (λ (l : Leaf). l.id == id) [] ≡ true = subst (any-true id) none_left hit in cc
    where
      any-true : String → List Leaf → Type 0
      any-true i ls = any (λ (l : Leaf). l.id == i) ls ≡ true

      taken-in :
          (x : ReceiptRow)
          → is_one_of (claimed_ids precedes max rows) x.id ≡ true
          → is_in batch (taken x) ≡ true
      taken-in x k = rw k (==_self batch)

  -- A claim that takes nothing puts no run into the batch.
  pub claimed-idle :
      (id : String) (r : ReceiptRow)
      → claimed_ids precedes max rows ≡ []
      → get_run id claimed_rows ≡ some r
      → is_in batch r ≡ true
      → ⊥
  claimed-idle id r h found e = elim (Option-cases (get_run id rows)) [
    | inl k ↦
        (let bad : none ≡ some r = sym (get_run-claimed id ∙ ap (changed true taken) k) ∙ found in
          cc)
    | inr (x, k) ↦
        let same : some (taken x) ≡ some r =
          sym (get_run-claimed id ∙ ap (changed true taken) k) ∙ found in
        let eq : taken x ≡ r = cc in
        let untaken : taken x ≡ x = rw h refl in
        let out : is_in batch r ≡ false =
          subst (λ z. is_in batch z ≡ false) (sym untaken ∙ eq)
            (All-get_run _ id rows x ready.unused k) in
        cc
  ]

any-keep : (rows : List ReceiptRow) → any is_pending (keep is_pending rows) ≡ any is_pending rows
any-keep [] = refl
any-keep (r ∷ rows) = elim (Bool-cases (is_pending r)) [
  | inl p ↦ ap (any is_pending) (keep-yes is_pending r rows p) ∙ rw p refl
  | inr p ↦ ap (any is_pending) (keep-no is_pending r rows p) ∙ any-keep rows ∙ rw p refl
]

-- A claim of at least one run takes one, where one waits.
pub claimed_ids-some :
    (precedes : String → String → Bool) (m : ℕ) (rows : List ReceiptRow)
    → any is_pending rows ≡ true
    → (id : String) × (ids : List String) × (claimed_ids precedes (suc m) rows ≡ id ∷ ids)
unfolding claimed_ids
claimed_ids-some precedes m rows h =
    first (sort (is_before precedes) (keep is_pending rows))
      (any-sort (is_before precedes) is_pending (keep is_pending rows) ∙ any-keep rows ∙ h)
  where
    first :
        (xs : List ReceiptRow)
        → any is_pending xs ≡ true
        → (id : String) × (ids : List String) × (map (λ (r : ReceiptRow). r.id) (take (suc m) xs)
            ≡ id ∷ ids)
    first [] e = cc
    first (x ∷ xs) e = (x.id, _, refl)
