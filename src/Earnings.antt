-- ===== src/Earnings.antt =====
-- lib/earnings.ts: the ledger of creators' earnings and the claims that settle them.
pub mod Marks
pub mod Claims
pub mod Balance
pub mod Steps
pub mod Settling
mod Tests
use aemulus.Common.{
  ℕ, Bool, true, false, not, ◌&&◌, ◌||◌, String, string_Eq, Option, none, some, List, [], ◌∷◌, ◌++◌,
  map, ◌==◌, if◌then◌else◌, any, find, keep, sort, ltb,
}

-- SQL's and JavaScript's numbers, as far as the ledger uses them.
pub record Amounts : Type 1 where
  pub Amount : Type 0
  pub sum : List Amount → Amount
  pub is_positive : Amount → Bool
  pub is_finite : Amount → Bool

module _ (a : Amounts) where
  open a use {Amount, sum, is_positive, is_finite}

  pub record Earning : Type 0 where
    pub id : String
    pub owner : String
    pub skill_id : String
    pub run_id : String
    pub runner : String
    pub amount : Amount
    pub created_at : ℕ
    pub claim_id : Option String

  pub record Settlement : Type 0 where
    pub sig : String
    pub cluster : String

  pub record Claim : Type 0 where
    pub id : String
    pub owner : String
    pub amount : Amount
    pub settlement : Option Settlement
    pub created_at : ℕ

  pub record Ledger : Type 0 where
    pub earnings : List Earning
    pub claims : List Claim

  pub record Credit : Type 0 where
    pub owner : String
    pub skill_id : String
    pub run_id : String
    pub runner : String
    pub amount : Amount

  abbrev pub amounts : List Earning → List Amount
  amounts = map (λ e. e.amount)

  -- `claim_id IS NULL`, and `claim_id = ?`.
  abbrev pub is_open : Earning → Bool
  is_open e = elim e.claim_id [ none ↦ true | some c ↦ false ]

  abbrev pub is_under : String → Earning → Bool
  is_under id e = elim e.claim_id [ none ↦ false | some c ↦ c == id ]

  abbrev pub is_pending : Claim → Bool
  is_pending c = elim c.settlement [ none ↦ true | some s ↦ false ]

  abbrev pub new_earning : String → ℕ → Credit → Earning
  new_earning id now c = record {
    id = id;
    owner = c.owner;
    skill_id = c.skill_id;
    run_id = c.run_id;
    runner = c.runner;
    amount = c.amount;
    created_at = now;
    claim_id = none;
  }

  abbrev pub is_refused : Credit → Bool
  is_refused c = c.owner == "" || (not (is_finite c.amount) || not (is_positive c.amount))

  abbrev pub is_from : String → String → Earning → Bool
  is_from skill_id runner e = e.skill_id == skill_id && e.runner == runner

  -- The flag is false where the insert throws, against the unique index of skill and runner.
  unfoldable pub credit_earning : String → ℕ → Credit → Ledger → Ledger × Bool
  credit_earning id now c l =
      if is_refused c
      then (l, true)
      else if any (is_from c.skill_id c.runner) l.earnings
      then (l, false)
      else (record l { earnings = l.earnings ++ new_earning id now c ∷ [] }, true)

  unfoldable pub has_earned_from : String → String → Ledger → Bool
  has_earned_from skill_id runner l = any (is_from skill_id runner) l.earnings

  -- The flag says whether a row was written.
  unfoldable pub credit_earning_once : String → ℕ → Credit → Ledger → Ledger × Bool
  credit_earning_once id now c l =
      if is_refused c
      then (l, false)
      else if any (is_from c.skill_id c.runner) l.earnings
      then (l, false)
      else (record l { earnings = l.earnings ++ new_earning id now c ∷ [] }, true)

  unfoldable pub get_claimable : String → Ledger → Amount
  get_claimable owner l = sum (amounts (keep (λ e. e.owner == owner && is_open e) l.earnings))

  -- `UPDATE earnings SET claim_id = ? WHERE owner = ? AND claim_id IS NULL`.
  abbrev pub mark : String → String → Earning → Earning
  mark id owner e = if e.owner == owner && is_open e then record e { claim_id = some id } else e

  -- `UPDATE earnings SET claim_id = NULL WHERE claim_id = ?`.
  abbrev pub unmark : String → Earning → Earning
  unmark id e = if is_under id e then record e { claim_id = none } else e

  -- The first write batch of `claimEarnings`: the mark, then the claim over the marked rows.
  unfoldable pub open_claim : String → String → ℕ → Ledger → Ledger
  open_claim id owner now l =
      let marked = map (mark id owner) l.earnings in
      record {
        earnings = marked;
        claims =
            l.claims
            ++ record {
              id = id;
              owner = owner;
              amount = sum (amounts (keep (is_under id) marked));
              settlement = none;
              created_at = now;
            }
              ∷ [];
      }

  -- `DELETE FROM claims WHERE id = ?`.
  abbrev pub drop_claim : String → List Claim → List Claim
  drop_claim id = keep (λ c. not (c.id == id))

  -- The rows under a claim are open again.
  unfoldable pub release_rows : String → Ledger → Ledger
  release_rows id l = record l { earnings = map (unmark id) l.earnings }

  unfoldable pub delete_claim : String → Ledger → Ledger
  delete_claim id l = record l { claims = drop_claim id l.claims }

  -- The rollback of `claimEarnings`, where nothing was broadcast: two writes, one after the other.
  unfoldable pub cancel_claim : String → Ledger → Ledger
  unfolding release_rows delete_claim
  cancel_claim id l = delete_claim id (release_rows id l)

  unfoldable pub record_payout : String → Settlement → Ledger → Ledger
  record_payout id s l = record l {
    claims = map (λ c. if c.id == id then record c { settlement = some s } else c) l.claims;
  }

  -- What the payout answers: sent, not configured, refused before anything was broadcast, or an
  -- error after which the transfer may have been broadcast.
  pub data Sent : Type 0 where
    sent : Settlement → Sent
    not_configured prep_error unconfirmed : Sent

  pub data ClaimOutcome : Type 0 where
    nothing_to_claim payouts_disabled payout_misconfigured left_pending : ClaimOutcome
    claimed : Amount → Settlement → ClaimOutcome

  abbrev pub amount_of : Option Claim → Option Amount
  amount_of none = none
  amount_of (some c) = some c.amount

  abbrev pub find_claim : String → Ledger → Option Claim
  find_claim id l = find (λ c. c.id == id) l.claims

  -- What `claimEarnings` does after the payout has answered.
  unfoldable pub finish_claim : String → Amount → Sent → Ledger → Ledger × ClaimOutcome
  unfolding cancel_claim
  finish_claim id amount (sent s) l = (record_payout id s l, claimed amount s)
  finish_claim id amount not_configured l = (cancel_claim id l, payouts_disabled)
  finish_claim id amount prep_error l = (cancel_claim id l, payout_misconfigured)
  finish_claim id amount unconfirmed l = (l, left_pending)

  -- `claimEarnings` with no other writer between its statements; `send` is the payout. The claim's
  -- row reads as 0, which is not positive, where it is missing.
  unfoldable pub claim_earnings :
      String → String → ℕ → (String → Amount → String → Sent) → Ledger → Ledger × ClaimOutcome
  unfolding delete_claim
  claim_earnings id owner now send l =
      let opened = open_claim id owner now l in
      elim (amount_of (find_claim id opened)) [
        | none ↦ (delete_claim id opened, nothing_to_claim)
        | some amount ↦
            if not (is_positive amount)
            then (delete_claim id opened, nothing_to_claim)
            else finish_claim id amount (send owner amount id) opened
      ]

  unfoldable pub list_pending_claims : Ledger → List Claim
  list_pending_claims l = sort (λ x y. ltb x.created_at y.created_at) (keep is_pending l.claims)

  unfoldable pub settle_claim : String → Settlement → Ledger → Ledger
  settle_claim id s l = record l {
    claims =
        map (λ c. if c.id == id && is_pending c then record c { settlement = some s } else c)
          l.claims;
  }

  -- `(SELECT sig FROM claims WHERE id = ?) IS NULL` holds too where there is no claim.
  abbrev pub is_unsettled : Option Claim → Bool
  is_unsettled none = true
  is_unsettled (some c) = is_pending c

  unfoldable pub rollback_claim : String → Ledger → Ledger
  rollback_claim id l = record {
    earnings = if is_unsettled (find_claim id l) then map (unmark id) l.earnings else l.earnings;
    claims = keep (λ c. not (c.id == id && is_pending c)) l.claims;
  }
