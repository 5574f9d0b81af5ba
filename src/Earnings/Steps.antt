-- ===== src/Earnings/Steps.antt =====
-- The single writes of all requests, in any order, keep the books balanced.
use aemulus.Common.{
  ℕ, ◌≡◌, refl, String, string_Eq, Bool, false, none, List, [], ◌∷◌, ◌++◌, map, any, keep, All-mono,
  Bool-cases, arith, inl, inr,
}
use aemulus.Earnings.{
  Amounts, Earning, Settlement, Claim, Ledger, Credit, new_earning, credit_earning,
  credit_earning_once, unmark, open_claim, release_rows, delete_claim, record_payout, settle_claim,
  rollback_claim, find_claim, is_unsettled, is_refused, is_from,
}
use aemulus.Earnings.Claims.{IsFresh}
use aemulus.Earnings.Balance.{
  Covers, IsBalanced, is_gone, Covers-release, All-snoc, All-keep, All-both, All-claims,
  Unique-keep, Unique-map, Unique-snoc, Covers-new, Covers-unmark, Covers-mark, Covers-settled,
  kept-other,
}

module _ (a : Amounts) where
  -- A write of some request, between any others; `gone` grows where the rows of a claim are released
  -- to cancel it. A claim is settled or cancelled by the request that opened it, or by the
  -- reconciliation.
  pub data Step (gone : List String) (l : Ledger a) : List String → Ledger a → Type 0 where
    credited :
        (id : String) (now : ℕ) (c : Credit a) → Step gone l gone (credit_earning a id now c l).0
    credited_once :
        (id : String) (now : ℕ) (c : Credit a)
        → Step gone l gone (credit_earning_once a id now c l).0
    opened :
        (id owner : String) (now : ℕ)
        → IsFresh a id l
        → is_gone a gone id ≡ false
        → Step gone l gone (open_claim a id owner now l)
    released : (id : String) → Step gone l (id ∷ gone) (release_rows a id l)
    deleted : (id : String) → Step gone l gone (delete_claim a id l)
    paid : (id : String) (s : Settlement a) → Step gone l gone (record_payout a id s l)
    settled : (id : String) (s : Settlement a) → Step gone l gone (settle_claim a id s l)
    rolled_back : (id : String) → Step gone l gone (rollback_claim a id l)

  keep_settlement :
      (gone : List String) (f : Claim a → Claim a) (l : Ledger a)
      → ((c : Claim a) → ((f c).id ≡ c.id) × ((f c).amount ≡ c.amount))
      → IsBalanced a gone l
      → IsBalanced a gone (record l { claims = map f l.claims })
  keep_settlement gone f l same b = record {
    covered = Covers-settled a gone f l.earnings l.claims same b.covered;
    unique = Unique-map a f l.claims (λ c. (same c).0) b.unique;
  }

  add_earning :
      (gone : List String) (l : Ledger a) (e : Earning a)
      → e.claim_id ≡ none
      → IsBalanced a gone l
      → IsBalanced a gone (record l { earnings = l.earnings ++ e ∷ [] })
  add_earning gone l e o b = record {
    covered = Covers-new a gone l.earnings e l.claims o b.covered;
    unique = b.unique;
  }

  credit_earning-IsBalanced :
      (gone : List String) (id : String) (now : ℕ) (c : Credit a) (l : Ledger a)
      → IsBalanced a gone l
      → IsBalanced a gone (credit_earning a id now c l).0
  unfolding credit_earning
  credit_earning-IsBalanced gone id now c l b = elim (Bool-cases (is_refused a c)) [
    | inl bad ↦ rw bad b
    | inr good ↦ elim (Bool-cases (any (is_from a c.skill_id c.runner) l.earnings)) [
      | inl old ↦ rw (good, old) b
      | inr new ↦ rw (good, new) (add_earning gone l (new_earning a id now c) refl b)
    ]
  ]

  credit_earning_once-IsBalanced :
      (gone : List String) (id : String) (now : ℕ) (c : Credit a) (l : Ledger a)
      → IsBalanced a gone l
      → IsBalanced a gone (credit_earning_once a id now c l).0
  unfolding credit_earning_once
  credit_earning_once-IsBalanced gone id now c l b = elim (Bool-cases (is_refused a c)) [
    | inl bad ↦ rw bad b
    | inr good ↦ elim (Bool-cases (any (is_from a c.skill_id c.runner) l.earnings)) [
      | inl old ↦ rw (good, old) b
      | inr new ↦ rw (good, new) (add_earning gone l (new_earning a id now c) refl b)
    ]
  ]

  open_claim-IsBalanced :
      (gone : List String) (id owner : String) (now : ℕ) (l : Ledger a)
      → IsFresh a id l
      → is_gone a gone id ≡ false
      → IsBalanced a gone l
      → IsBalanced a gone (open_claim a id owner now l)
  unfolding open_claim
  open_claim-IsBalanced gone id owner now l fresh live b = record {
    covered =
        All-snoc a _ l.claims _
          (Covers-mark a gone id owner l.earnings l.claims fresh.ids b.covered) (rw live refl);
    unique = Unique-snoc a l.claims _ fresh.ids b.unique;
  }

  release_rows-IsBalanced :
      (gone : List String) (id : String) (l : Ledger a)
      → IsBalanced a gone l
      → IsBalanced a (id ∷ gone) (release_rows a id l)
  unfolding release_rows
  release_rows-IsBalanced gone id l b = record {
    covered = All-mono _ _ (λ c. Covers-release a gone id l.earnings c) l.claims b.covered;
    unique = b.unique;
  }

  -- The claims that are kept hold what they held.
  keep_claims :
      (gone : List String) (p : Claim a → Bool) (l : Ledger a)
      → IsBalanced a gone l
      → IsBalanced a gone (record l { claims = keep p l.claims })
  keep_claims gone p l b = record {
    covered =
        All-keep a (Covers a gone l.earnings) (Covers a gone l.earnings) p l.claims
          (All-both a _ _ l.claims b.covered (All-claims a _ (λ c k h. h) l.claims));
    unique = Unique-keep a p l.claims b.unique;
  }

  rollback_claim-IsBalanced :
      (gone : List String) (id : String) (l : Ledger a)
      → IsBalanced a gone l
      → IsBalanced a gone (rollback_claim a id l)
  unfolding rollback_claim
  rollback_claim-IsBalanced gone id l b = elim (Bool-cases (is_unsettled a (find_claim a id l))) [
    | inl unpaid ↦ rw unpaid (record {
      covered =
          All-keep a (Covers a gone l.earnings) (Covers a gone (map (unmark a id) l.earnings)) _
            l.claims
            (All-both a _ _ l.claims b.covered (
              All-mono _ _ (λ c other k. Covers-unmark a gone id l.earnings c (other k)) l.claims
                (kept-other a id l.claims b.unique unpaid)));
      unique = Unique-keep a _ l.claims b.unique;
    })
    | inr done ↦ rw done (keep_claims gone _ l b)
  ]

  -- Each single write to the ledger keeps the books balanced: a credit, the batch that opens a
  -- claim under an id that no row, claim or cancellation has, the release of a claim's rows that
  -- begins its cancellation, the deletion of a claim, the payout's signature, and the
  -- reconciliation's settlement or rollback. Balanced: no two claims have one id, each claim
  -- whose rows were not released holds the sum of the rows under it, and a claim whose rows were
  -- released has none under it.
  pub Step-IsBalanced :
      (gone gone' : List String) (l l' : Ledger a)
      → Step gone l gone' l'
      → IsBalanced a gone l
      → IsBalanced a gone' l'
  unfolding delete_claim record_payout settle_claim
  Step-IsBalanced gone _ l _ (credited id now c) b = credit_earning-IsBalanced gone id now c l b
  Step-IsBalanced gone _ l _ (credited_once id now c) b =
      credit_earning_once-IsBalanced gone id now c l b
  Step-IsBalanced gone _ l _ (opened id owner now fresh live) b =
      open_claim-IsBalanced gone id owner now l fresh live b
  Step-IsBalanced gone _ l _ (released id) b = release_rows-IsBalanced gone id l b
  Step-IsBalanced gone _ l _ (deleted id) b = keep_claims gone _ l b
  Step-IsBalanced gone _ l _ (paid id s) b = keep_settlement gone _ l (λ c. ground arith) b
  Step-IsBalanced gone _ l _ (settled id s) b = keep_settlement gone _ l (λ c. ground arith) b
  Step-IsBalanced gone _ l _ (rolled_back id) b = rollback_claim-IsBalanced gone id l b
