-- ===== src/Earnings/Settling.antt =====
-- The reconciliation against a payout that lands at the same time, and the credit of a first run.
use mathlib.Core.Path.{ap₂}
use aemulus.Common.{
  ℕ, ◌≡◌, refl, sym, ap, ◌∙◌, Bool, true, false, not, ◌&&◌, String, string_Eq, some, List, [], ◌∷◌,
  map, ◌==◌, if◌then◌else◌, keep, any, any-append, find, find-yes, find-no, All, Bool-cases,
  ==_self, arith, inl, inr,
}
use aemulus.Earnings.{
  Amounts, Settlement, Claim, Ledger, Credit, is_pending, is_refused, is_from, new_earning,
  credit_earning_once, has_earned_from, settle_claim, rollback_claim, find_claim, is_unsettled,
}

module _ (a : Amounts) where
  abbrev is_due : String → Claim a → Bool
  is_due id c = c.id == id && is_pending a c

  abbrev settle : String → Settlement a → Claim a → Claim a
  settle id s c = if is_due id c then record c { settlement = some s } else c

  keep_every :
      (id : String) (cs : List (Claim a))
      → All (λ c. is_due id c ≡ false) cs
      → keep (λ c. not (c.id == id && is_pending a c)) cs ≡ cs
  keep_every id [] ps = refl
  keep_every id (c ∷ cs) (p, ps) = ground (arith, keep_every id cs ps)

  settle_none :
      (id : String) (s : Settlement a) (cs : List (Claim a))
      → All (λ c. is_due id c ≡ false) cs
      → map (settle id s) cs ≡ cs
  settle_none id s [] ps = refl
  settle_none id s (c ∷ cs) (p, ps) = ap₂ ◌∷◌ (rw p refl) (settle_none id s cs ps)

  settled_not_due :
      (id : String) (s : Settlement a) (cs : List (Claim a))
      → All (λ c. is_due id c ≡ false) (map (settle id s) cs)
  settled_not_due id s [] = tt
  settled_not_due id s (c ∷ cs) = (ground arith, settled_not_due id s cs)

  kept_not_due :
      (id : String) (cs : List (Claim a))
      → All (λ c. is_due id c ≡ false) (keep (λ c. not (c.id == id && is_pending a c)) cs)
  kept_not_due id [] = tt
  kept_not_due id (c ∷ cs) = ground (arith, kept_not_due id cs)

  found_settled :
      (id : String) (s : Settlement a) (cs : List (Claim a)) (c : Claim a)
      → find (λ d. d.id == id) cs ≡ some c
      → is_unsettled a (find (λ d. d.id == id) (map (settle id s) cs)) ≡ false
  found_settled id s [] c h = cc
  found_settled id s (d ∷ cs) c h = elim (Bool-cases (d.id == id)) [
    | inl same ↦
        let kept : ((settle id s d).id == id) ≡ true = ground (arith, same) in
        ap (is_unsettled a) (find-yes (λ e. e.id == id) (settle id s d) (map (settle id s) cs) kept)
        ∙ ground (arith, same)
    | inr other ↦
        let kept : ((settle id s d).id == id) ≡ false = ground (arith, other) in
        ap (is_unsettled a) (find-no (λ e. e.id == id) (settle id s d) (map (settle id s) cs) kept)
        ∙ found_settled id s cs c (sym (find-no (λ e. e.id == id) d cs other) ∙ h)
  ]

  -- For a claim that exists, of a settlement and a rollback by the reconciliation the later one
  -- changes nothing, in either order.
  pub settle_claim-rollback_claim :
      (id : String) (s : Settlement a) (l : Ledger a) (c : Claim a)
      → find_claim a id l ≡ some c
      → (settle_claim a id s (rollback_claim a id l) ≡ rollback_claim a id l)
        × (rollback_claim a id (settle_claim a id s l) ≡ settle_claim a id s l)
  unfolding settle_claim rollback_claim
  settle_claim-rollback_claim id s l c h = (
    ap (λ cs. record (rollback_claim a id l) { claims = cs })
        (settle_none id s _ (kept_not_due id l.claims)),
    rw (found_settled id s l.claims c h)
        (ap (λ cs. record l { claims = cs }) (keep_every id _ (settled_not_due id s l.claims))),
  )

  credit_earning_once-old :
      (id : String) (now : ℕ) (c : Credit a) (l : Ledger a)
      → any (is_from a c.skill_id c.runner) l.earnings ≡ true
      → credit_earning_once a id now c l ≡ (l, false)
  unfolding credit_earning_once
  credit_earning_once-old id now c l old = elim (Bool-cases (is_refused a c)) [
    | inl bad ↦ rw bad refl
    | inr good ↦ rw (good, old) refl
  ]

  has_earned_from-credit_earning_once :
      (id : String) (now : ℕ) (c : Credit a) (l : Ledger a)
      → is_refused a c ≡ false
      → has_earned_from a c.skill_id c.runner (credit_earning_once a id now c l).0 ≡ true
  unfolding has_earned_from credit_earning_once
  has_earned_from-credit_earning_once id now c l good =
      elim (Bool-cases (any (is_from a c.skill_id c.runner) l.earnings)) [
        | inl old ↦ rw (good, old) old
        | inr new ↦
            rw
              (
                good,
                new,
                any-append (is_from a c.skill_id c.runner) l.earnings (new_earning a id now c ∷ []),
              )
              (ground (arith, ==_self c.skill_id, ==_self c.runner))
      ]

  -- After the first credit of a skill by a runner was offered with a finite positive amount and
  -- an owner, the pair has earned, and a further credit of the same skill and runner writes
  -- nothing and says so.
  pub credit_earning_once-again :
      (id id' : String) (now now' : ℕ) (c d : Credit a) (l : Ledger a)
      → is_refused a c ≡ false
      → d.skill_id ≡ c.skill_id
      → d.runner ≡ c.runner
      → (has_earned_from a c.skill_id c.runner (credit_earning_once a id now c l).0 ≡ true)
        × (credit_earning_once a id' now' d (credit_earning_once a id now c l).0
            ≡ ((credit_earning_once a id now c l).0, false))
  unfolding has_earned_from
  credit_earning_once-again id id' now now' c d l good skill runner =
      let earned = has_earned_from-credit_earning_once id now c l good in
      (earned, credit_earning_once-old id' now' d _ (rw (skill, runner) earned))
