-- ===== src/Earnings/Claims.antt =====
-- What a claim settles, and what is left of one that was not paid.
use mathlib.Core.Path.{ap₂}
use aemulus.Common.{
  ℕ, ◌≡◌, refl, ap, ◌∙◌, Bool, true, false, ◌&&◌, String, string_Eq, none, some, List, [], ◌∷◌,
  ◌++◌, map, ◌==◌, if◌then◌else◌, keep, find, All, ==_self, arith, inl, inr, ◌⊎◌,
}
use aemulus.Earnings.{
  Amounts, Earning, Settlement, Claim, Ledger, amounts, is_open, is_under, mark, unmark,
  get_claimable, open_claim, drop_claim, cancel_claim, record_payout, Sent, sent, not_configured,
  prep_error, unconfirmed, left_pending, claimed, find_claim, finish_claim, claim_earnings,
}
use aemulus.Earnings.Marks.{mark-amount, is_under-mark, is_open-mark, unmark-mark_every}

module _ (a : Amounts) where
  open a use {Amount, sum, is_positive}

  -- No row and no claim has the new claim's id.
  pub record IsFresh (id : String) (l : Ledger a) : Type 0 where
    pub rows : All (λ e. is_under a id e ≡ false) l.earnings
    pub ids : All (λ (c : Claim a). (c.id == id) ≡ false) l.claims

  abbrev pub new_claim : String → String → ℕ → Ledger a → Claim a
  new_claim id owner now l = record {
    id = id;
    owner = owner;
    amount = get_claimable a owner l;
    settlement = none;
    created_at = now;
  }

  marked-amounts :
      (id owner : String) (es : List (Earning a))
      → All (λ e. is_under a id e ≡ false) es
      → amounts a (keep (is_under a id) (map (mark a id owner) es))
        ≡ amounts a (keep (λ e. e.owner == owner && is_open a e) es)
  marked-amounts id owner [] ps = refl
  marked-amounts id owner (e ∷ es) (p, ps) =
      ground (
        arith,
        is_under-mark a id owner e p,
        mark-amount a id owner e,
        marked-amounts id owner es ps,
      )

  keep-none :
      (p : Earning a → Bool) (es : List (Earning a)) → All (λ e. p e ≡ false) es → keep p es ≡ []
  keep-none p [] ps = refl
  keep-none p (e ∷ es) (h, ps) = ground (arith, keep-none p es ps)

  All-map :
      (p : Earning a → Bool) (f : Earning a → Earning a) (es : List (Earning a))
      → ((e : Earning a) → p (f e) ≡ false)
      → All (λ e. p e ≡ false) (map f es)
  All-map p f [] h = tt
  All-map p f (e ∷ es) h = (h e, All-map p f es h)

  -- The claim's row holds what was claimable.
  pub open_claim-claims :
      (id owner : String) (now : ℕ) (l : Ledger a)
      → IsFresh id l
      → (open_claim a id owner now l).claims ≡ l.claims ++ new_claim id owner now l ∷ []
  unfolding open_claim get_claimable
  open_claim-claims id owner now l fresh = rw (marked-amounts id owner l.earnings fresh.rows) refl

  pub get_claimable-open_claim :
      (id owner : String) (now : ℕ) (l : Ledger a)
      → get_claimable a owner (open_claim a id owner now l) ≡ sum []
  unfolding open_claim get_claimable
  get_claimable-open_claim id owner now l =
      ap (λ es. sum (amounts a es))
        (keep-none _ (map (mark a id owner) l.earnings)
          (All-map _ (mark a id owner) l.earnings (is_open-mark a id owner)))

  find-fresh :
      (id : String) (cs : List (Claim a)) (c : Claim a)
      → All (λ (d : Claim a). (d.id == id) ≡ false) cs
      → c.id ≡ id
      → find (λ d. d.id == id) (cs ++ c ∷ []) ≡ some c
  find-fresh id [] c ps e = ground (arith, ==_self id)
  find-fresh id (d ∷ cs) c (p, ps) e = ground (arith, find-fresh id cs c ps e)

  drop-fresh :
      (id : String) (cs : List (Claim a)) (c : Claim a)
      → All (λ (d : Claim a). (d.id == id) ≡ false) cs
      → c.id ≡ id
      → drop_claim a id (cs ++ c ∷ []) ≡ cs
  drop-fresh id [] c ps e = ground (arith, ==_self id)
  drop-fresh id (d ∷ cs) c (p, ps) e = ground (arith, drop-fresh id cs c ps e)

  pub find_claim-open_claim :
      (id owner : String) (now : ℕ) (l : Ledger a)
      → IsFresh id l
      → find_claim a id (open_claim a id owner now l) ≡ some (new_claim id owner now l)
  find_claim-open_claim id owner now l fresh =
      rw (open_claim-claims id owner now l fresh)
        (find-fresh id l.claims (new_claim id owner now l) fresh.ids refl)

  earnings-open_claim :
      (id owner : String) (now : ℕ) (l : Ledger a)
      → (open_claim a id owner now l).earnings ≡ map (mark a id owner) l.earnings
  unfolding open_claim
  earnings-open_claim id owner now l = refl

  -- Undoing a fresh claim gives the ledger back.
  pub cancel_claim-open_claim :
      (id owner : String) (now : ℕ) (l : Ledger a)
      → IsFresh id l
      → cancel_claim a id (open_claim a id owner now l) ≡ l
  unfolding cancel_claim
  cancel_claim-open_claim id owner now l fresh =
      ap₂ (λ es cs. record { earnings = es; claims = cs })
        (ap (map (unmark a id)) (earnings-open_claim id owner now l)
          ∙ unmark-mark_every a id owner l.earnings fresh.rows)
        (ap (drop_claim a id) (open_claim-claims id owner now l fresh)
          ∙ drop-fresh id l.claims (new_claim id owner now l) fresh.ids refl)

  claim_earnings-finish :
      (id owner : String) (now : ℕ) (send : String → Amount → String → Sent a) (l : Ledger a)
      → IsFresh id l
      → is_positive (get_claimable a owner l) ≡ true
      → claim_earnings a id owner now send l
        ≡ finish_claim a id
            (get_claimable a owner l)
            (send owner (get_claimable a owner l) id)
            (open_claim a id owner now l)
  unfolding claim_earnings
  claim_earnings-finish id owner now send l fresh pos =
      rw (find_claim-open_claim id owner now l fresh, claim_earnings, pos) refl

  -- A claim under a fresh id of a positive claimable amount, to which the payout answers that
  -- nothing was broadcast (not configured, or refused in preparation), leaves the ledger as it
  -- was.
  pub claim_earnings-refunded :
      (id owner : String) (now : ℕ) (send : String → Amount → String → Sent a) (l : Ledger a)
      → IsFresh id l
      → is_positive (get_claimable a owner l) ≡ true
      → (send owner (get_claimable a owner l) id ≡ not_configured)
        ⊎ (send owner (get_claimable a owner l) id ≡ prep_error)
      → (claim_earnings a id owner now send l).0 ≡ l
  unfolding finish_claim
  claim_earnings-refunded id owner now send l fresh pos (inl e) =
      ap (λ r. r.0) (claim_earnings-finish id owner now send l fresh pos)
      ∙ rw e (cancel_claim-open_claim id owner now l fresh)
  claim_earnings-refunded id owner now send l fresh pos (inr e) =
      ap (λ r. r.0) (claim_earnings-finish id owner now send l fresh pos)
      ∙ rw e (cancel_claim-open_claim id owner now l fresh)

  find-settled :
      (id : String) (s : Settlement a) (cs : List (Claim a)) (c : Claim a)
      → find (λ d. d.id == id) cs ≡ some c
      → find
          (λ d. d.id == id)
          (map (λ d. if d.id == id then record d { settlement = some s } else d) cs)
        ≡ some (record c { settlement = some s })
  find-settled id s [] c h = cc
  find-settled id s (d ∷ cs) c h = ground (arith, find-settled id s cs c)

  -- A claim under a fresh id of a positive claimable amount, whose payout was sent, settles that
  -- amount: the claim's row carries it with the payout's signature, and the sum of no rows is
  -- left to claim.
  pub claim_earnings-sent :
      (id owner : String) (now : ℕ) (send : String → Amount → String → Sent a) (l : Ledger a)
      (s : Settlement a)
      → IsFresh id l
      → is_positive (get_claimable a owner l) ≡ true
      → send owner (get_claimable a owner l) id ≡ sent s
      → (after : Ledger a) × (claim_earnings a id owner now send l
          ≡ (after, claimed (get_claimable a owner l) s))
        × (get_claimable a owner after ≡ sum [])
        × (find_claim a id after ≡ some (record (new_claim id owner now l) { settlement = some s }))
  unfolding finish_claim record_payout get_claimable
  claim_earnings-sent id owner now send l s fresh pos e = (
    record_payout a id s (open_claim a id owner now l),
    claim_earnings-finish id owner now send l fresh pos ∙ rw e refl,
    get_claimable-open_claim id owner now l,
    find-settled id s _ (new_claim id owner now l) (find_claim-open_claim id owner now l fresh),
  )

  -- A claim under a fresh id of a positive claimable amount, whose payout may have been
  -- broadcast, stays pending with that amount, and the sum of no rows is left to claim.
  pub claim_earnings-unconfirmed :
      (id owner : String) (now : ℕ) (send : String → Amount → String → Sent a) (l : Ledger a)
      → IsFresh id l
      → is_positive (get_claimable a owner l) ≡ true
      → send owner (get_claimable a owner l) id ≡ unconfirmed
      → (after : Ledger a) × (claim_earnings a id owner now send l ≡ (after, left_pending))
        × (get_claimable a owner after ≡ sum [])
        × (find_claim a id after ≡ some (new_claim id owner now l))
  unfolding finish_claim
  claim_earnings-unconfirmed id owner now send l fresh pos e = (
    open_claim a id owner now l,
    claim_earnings-finish id owner now send l fresh pos ∙ rw e refl,
    get_claimable-open_claim id owner now l,
    find_claim-open_claim id owner now l fresh,
  )
