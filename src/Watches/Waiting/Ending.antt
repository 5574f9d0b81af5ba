-- ===== src/Watches/Waiting/Ending.antt =====
-- lib/wait.ts: each wait ends, at the first poll that satisfies the step or finds the time up.
use aemulus.Common.{
  ℕ, zero, suc, ◌+◌, ◌*◌, ◌/◌, ◌≤◌, ◌<◌, ◌≡◌, ◌≢◌, refl, ◌∙◌, subst, ◌⊎◌, inl, inr, true, false,
  Option, some, List, [], ◌∷◌, leb, Bool-cases, arith,
}
use aemulus.Watches.{Text, Numerals}
use aemulus.Watches.Waiting.{
  Poll, WaitStep, WaitOutcome, wait_poll_ms, wait_limit, Seen, see, wait_until, met_outcome,
  missed_outcome, holds_at, wait_loop, wait_with, wait_for_step,
}

module _ (n : Numerals) (step : WaitStep) (started deadline : ℕ) where
  -- A poll at which the wait goes on.
  pub record GoesOn (p : Poll) : Type 0 where
    pub unmet : holds_at n step started deadline p ≡ false
    pub in_time : p.now < wait_until n step started deadline

  -- How the wait ends at a poll: the condition holds, or it does not and the time is up.
  abbrev pub EndsAt : Poll → WaitOutcome → Type 0
  EndsAt p o =
      ((o.met ≡ true) × (holds_at n step started deadline p ≡ true) × Unit {0})
      ⊎ ((o.met ≡ false)
          × (holds_at n step started deadline p ≡ false)
          × (wait_until n step started deadline ≤ p.now))

  -- From poll `i` on, the wait goes on up to some poll and ends there.
  abbrev Ends : (ℕ → Poll) → ℕ → Option WaitOutcome → Type 0
  Ends polls i r =
      (k : ℕ) × (o : WaitOutcome) × (r ≡ some o)
      × EndsAt (polls (i + k)) o
      × ((j : ℕ) → j < k → GoesOn (polls (i + j)))

  Ends-now :
      (polls : ℕ → Poll) (i : ℕ) (o : WaitOutcome) (r : Option WaitOutcome)
      → r ≡ some o
      → EndsAt (polls i) o
      → Ends polls i r
  Ends-now polls i o r e at =
      (0, o, e, subst (λ m. EndsAt (polls m) o) (omega arith) at, λ j h. elim h [ ])

  Ends-later :
      (polls : ℕ → Poll) (i : ℕ) (r r' : Option WaitOutcome)
      → GoesOn (polls i)
      → r ≡ r'
      → Ends polls (i + 1) r'
      → Ends polls i r
  Ends-later polls i r r' on e (k, o, e', at, goes) =
      (suc k, o, e ∙ e', subst (λ m. EndsAt (polls m) o) (omega arith) at, before)
    where
      before : (j : ℕ) → j < suc k → GoesOn (polls (i + j))
      before zero h = subst (λ m. GoesOn (polls m)) (omega arith) on
      before (suc j) h = subst (λ m. GoesOn (polls m)) (omega arith) (goes j (omega arith))

  round-Ends :
      (fuel : ℕ) (polls : ℕ → Poll) (i : ℕ) (s : Seen)
      → (GoesOn (polls i)
          → Ends polls (i + 1) (
              wait_loop n step started deadline fuel polls
                (i + 1)
                (see step.selectors (polls i) s)))
      → Ends polls i (wait_loop n step started deadline (suc fuel) polls i s)
  unfolding wait_loop met_outcome missed_outcome
  round-Ends fuel polls i s next =
      let seen = see step.selectors (polls i) s in
      elim (Bool-cases (holds_at n step started deadline (polls i))) [
        | inl met ↦
            Ends-now polls i (met_outcome n step started deadline (polls i) seen) _ (rw met refl)
              (inl (refl, met, tt))
        | inr unmet ↦ elim (Bool-cases (leb (wait_until n step started deadline) (polls i).now)) [
          | inl up ↦
              Ends-now polls i (missed_outcome n step started deadline (polls i) seen) _
                (rw (unmet, up) refl) (inr (refl, unmet, ground arith))
          | inr early ↦
              let on : GoesOn (polls i) = record { unmet = unmet; in_time = ground arith } in
              Ends-later polls i _ _ on (rw (unmet, early) refl) (next on)
        ]
      ]

  wait_loop-Ends :
      (fuel : ℕ) (polls : ℕ → Poll) (i : ℕ) (s : Seen)
      → ((j : ℕ) → started + wait_poll_ms * j ≤ (polls j).now)
      → wait_until n step started deadline ≤ started + wait_poll_ms * (i + fuel)
      → Ends polls i (wait_loop n step started deadline (suc fuel) polls i s)
  wait_loop-Ends zero polls i s clock enough =
      round-Ends zero polls i s (λ on. absurd (omega (arith, clock i, on.in_time)))
  wait_loop-Ends (suc fuel) polls i s clock enough =
      round-Ends (suc fuel) polls i s (λ on.
        wait_loop-Ends fuel polls (i + 1) (see step.selectors (polls i) s) clock (omega arith))

  wait_with-Ends :
      (selectors : List Text) (polls : ℕ → Poll)
      → ((j : ℕ) → started + wait_poll_ms * j ≤ (polls j).now)
      → selectors ≢ []
      → Ends polls 0 (wait_with n step started deadline selectors polls)
  unfolding wait_with
  wait_with-Ends [] polls clock h = absurd (h refl)
  wait_with-Ends (sel ∷ more) polls clock h =
      wait_loop-Ends (wait_limit step / wait_poll_ms + 1) polls 0 _ clock (omega arith)

  -- Where each poll is at least the polling interval after the one before, counted from the
  -- start, a wait for a step with selectors ends at some poll: the step's condition holds there
  -- and the wait is met, or it does not hold, the time is up and the wait is not met; and at each
  -- poll before, the condition did not hold and there was time left.
  pub wait_for_step_ends :
      (polls : ℕ → Poll)
      → ((j : ℕ) → started + wait_poll_ms * j ≤ (polls j).now)
      → step.selectors ≢ []
      → (k : ℕ) × (o : WaitOutcome) × (wait_for_step n step started deadline polls ≡ some o)
        × EndsAt (polls k) o
        × ((j : ℕ) → j < k → GoesOn (polls j))
  unfolding wait_for_step
  wait_for_step_ends polls clock some_selector =
      let (k, o, e, at, goes) = wait_with-Ends step.selectors polls clock some_selector in
      (
        k,
        o,
        e,
        subst (λ m. EndsAt (polls m) o) (omega arith) at,
        λ j h. subst (λ m. GoesOn (polls m)) (omega arith) (goes j h),
      )
