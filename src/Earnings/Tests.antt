-- ===== src/Earnings/Tests.antt =====
-- lib/earnings.ts at a concrete ledger, with amounts in whole tokens.
use aemulus.Common.{ℕ, ◌+◌, ◌≡◌, refl, true, String, Option, none, some, List, [], ◌∷◌, ltb}
use aemulus.Earnings.{
  Amounts, Earning, Settlement, Claim, Ledger, Credit, get_claimable, open_claim,
}
use aemulus.Earnings.Claims.{IsFresh}
use aemulus.Earnings.Balance.{IsBalanced}
use aemulus.Earnings.Steps.{opened, Step-IsBalanced}

abbrev total : List ℕ → ℕ
total [] = 0
total (n ∷ ns) = n + total ns

abbrev tokens : Amounts
tokens = record { Amount = ℕ; sum = total; is_positive = λ n. ltb 0 n; is_finite = λ n. true }

abbrev row : String → ℕ → Option String → Earning tokens
row id n claim = record {
  id = id;
  owner = "ann";
  skill_id = "pay";
  run_id = id;
  runner = id;
  amount = n;
  created_at = 1;
  claim_id = claim;
}

-- Two open rows of Ann, and one under a pending claim.
abbrev ledger : Ledger tokens
ledger = record {
  earnings = row "r1" 3 none ∷ row "r2" 4 (some "k") ∷ row "r3" 5 none ∷ [];
  claims = record { id = "k"; owner = "ann"; amount = 4; settlement = none; created_at = 1 } ∷ [];
}

ledger-IsFresh : IsFresh tokens "n" ledger
ledger-IsFresh = record { rows = (refl, (refl, (refl, tt))); ids = (refl, tt) }

ledger-IsBalanced : IsBalanced tokens ("old" ∷ []) ledger
ledger-IsBalanced = record { covered = (refl, tt); unique = (tt, tt) }

claimable : get_claimable tokens "ann" ledger ≡ 8
unfolding get_claimable
claimable = refl

can_claim : ltb 0 (get_claimable tokens "ann" ledger) ≡ true
unfolding get_claimable
can_claim = refl

abbrev paid : Settlement tokens
paid = record { sig = "s"; cluster = "main" }

Step-IsBalanced_example : IsBalanced tokens ("old" ∷ []) (open_claim tokens "n" "ann" 2 ledger)
Step-IsBalanced_example =
    Step-IsBalanced tokens ("old" ∷ []) ("old" ∷ []) ledger (open_claim tokens "n" "ann" 2 ledger)
      (opened "n" "ann" 2 ledger-IsFresh refl) ledger-IsBalanced

abbrev pending : Claim tokens
pending = record { id = "k"; owner = "ann"; amount = 4; settlement = none; created_at = 1 }

abbrev first_run : Credit tokens
first_run = record { owner = "ann"; skill_id = "pay"; run_id = "x"; runner = "bob"; amount = 2 }

abbrev second_run : Credit tokens
second_run = record { owner = "ann"; skill_id = "pay"; run_id = "y"; runner = "bob"; amount = 2 }
