-- ===== src/Watches/Paced.antt =====
-- lib/watch-runner.ts: what a watch that is not muted tells over a series of checks.
use aemulus.Common.{
  ℕ, ◌+◌, ◌<◌, ◌≡◌, refl, ap, ◌∙◌, subst, inl, inr, Bool, true, false, not, ◌&&◌, Option, none,
  some, List, [], ◌∷◌, any, nat_eq, Bool-cases, arith,
}
use aemulus.Watches.{Text, normalize, Numerals}
use aemulus.Watches.Evaluate.{
  WatchDecision, Note, matches, evaluate, evaluate_failure, broken_after, or_count,
}
use aemulus.Watches.Runner.{
  RunStatus, completed, failed, unfinished, CheckedRun, Watch, Effect, told_changed, told_broken,
  started, is_muted, plain_effects, unmuted_effects, effects_of, decide_check,
  evaluate_watch_for_run,
}
use aemulus.Watches.Alerts.{AreApart, AreSpaced, put_if, Paces, IsPaced, on_match-IsPaced}

-- A message of a change, or a run that was started.
abbrev is_change : Effect → Bool
is_change (told_changed from to) = true
is_change (told_broken note) = false
is_change (started skill value) = true

abbrev pub tells_change : List Effect → Bool
tells_change effects = any is_change effects

AreSpaced-earlier :
    (gap : ℕ) (last : Option ℕ) (t : ℕ) (ts : List ℕ)
    → AreApart gap last t
    → AreSpaced gap (some t) ts
    → AreSpaced gap last ts
AreSpaced-earlier gap last t [] a s = tt
AreSpaced-earlier gap none t (u ∷ us) a (b, s) = (tt, s)
AreSpaced-earlier gap (some l) t (u ∷ us) a (b, s) = (omega arith, s)

module _ (n : Numerals) (starts : Text → Text → Bool) where
  -- When a watch tells of a change or starts a run, each check going on from the state before it.
  unfoldable pub told_times : Watch → List (CheckedRun × ℕ) → List ℕ
  told_times w [] = []
  told_times w ((run, at) ∷ checks) =
      let r = evaluate_watch_for_run n starts w run at in
      put_if (tells_change r.effects) at (told_times (record w { state = r.persisted }) checks)

  abbrev cooldown : Watch → ℕ
  cooldown w = or_count 0 w.rule.cooldown_ms

  -- A decision to alert is apart from the last alert, which it replaces; another leaves it.
  decide_check-IsPaced :
      (w : Watch) (run : CheckedRun) (now : ℕ)
      → 0 < cooldown w
      → IsPaced n w.rule w.state now (decide_check n w run now)
  decide_check-IsPaced w run now h = by_status run.status run.raw
    where
      failure :
          (reason : Option Note) → IsPaced n w.rule w.state now (evaluate_failure w.state reason)
      failure reason =
          unfold evaluate_failure in
          elim (Bool-cases (nat_eq (w.state.fail_streak + 1) broken_after)) [
            | inl third ↦ rw third refl
            | inr other ↦ rw other refl
          ]

      by_status :
          (status : RunStatus) (raw : Option Text)
          → IsPaced n w.rule w.state now
              (decide_check n w (record { status = status; raw = raw }) now)
      by_status completed none = unfold decide_check in failure _
      by_status completed (some raw) =
          unfold decide_check evaluate in
          on_match-IsPaced n w.rule w.state (normalize raw) now
            (matches n w.rule w.state.last_value (normalize raw)) h
      by_status failed raw = unfold decide_check in failure _
      by_status unfinished raw = unfold decide_check in failure _

  plain_effects-silent :
      (w : Watch) (d : WatchDecision)
      → (d.notify && not d.broken) ≡ false
      → tells_change (plain_effects starts w d) ≡ false
  unfolding plain_effects
  plain_effects-silent w d h = elim (Bool-cases d.notify) [
    | inr quiet ↦ rw quiet refl
    | inl loud ↦ let whole : d.broken ≡ true = ground arith in rw (loud, whole) refl
  ]

  -- What a check that is not muted tells, and the state that it leaves.
  unmuted_check :
      (w : Watch) (run : CheckedRun) (now : ℕ)
      → w.muted_until ≡ none
      → w.state.muted_from ≡ none
      → ((evaluate_watch_for_run n starts w run now).effects
          ≡ plain_effects starts w (decide_check n w run now))
        × ((evaluate_watch_for_run n starts w run now).persisted
            ≡ record (decide_check n w run now).state { muted_from = none })
  unfolding evaluate_watch_for_run effects_of unmuted_effects
  unmuted_check w run now u f =
      let free : is_muted w now ≡ false = rw u refl in
      (rw free (ap (unmuted_effects n starts w run now (decide_check n w run now)) f), rw free refl)

  put_if-AreSpaced :
      (w : Watch) (d : WatchDecision) (told : Bool) (now : ℕ) (ts : List ℕ)
      → IsPaced n w.rule w.state now d
      → ((d.notify && not d.broken) ≡ false → told ≡ false)
      → AreSpaced (cooldown w) d.state.last_alert_at ts
      → AreSpaced (cooldown w) w.state.last_alert_at (put_if told now ts)
  put_if-AreSpaced w d told now ts p q s = by_alert (d.notify && not d.broken) told p q
    where
      by_alert :
          (alerted told : Bool)
          → Paces n w.rule alerted w.state.last_alert_at now d.state.last_alert_at
          → (alerted ≡ false → told ≡ false)
          → AreSpaced (cooldown w) w.state.last_alert_at (put_if told now ts)
      by_alert true true (a, e) q = (a, subst (λ x. AreSpaced (cooldown w) x ts) e s)
      by_alert true false (a, e) q =
          AreSpaced-earlier (cooldown w) w.state.last_alert_at now ts a
            (subst (λ x. AreSpaced (cooldown w) x ts) e s)
      by_alert false true e q = cc (q refl)
      by_alert false false e q = subst (λ x. AreSpaced (cooldown w) x ts) e s

  -- For a watch with a cooldown over 0 that is not muted and carries no value from before a mute:
  -- over any series of its checks, completed or failed, read or not, each going on from the state
  -- that the one before left, the times of the checks that tell of a change or start a run are
  -- each at least the cooldown after the one before, the last alert before the series included.
  pub told_times-AreSpaced :
      (w : Watch) (checks : List (CheckedRun × ℕ))
      → w.muted_until ≡ none
      → w.state.muted_from ≡ none
      → 0 < or_count 0 w.rule.cooldown_ms
      → AreSpaced (or_count 0 w.rule.cooldown_ms) w.state.last_alert_at (told_times w checks)
  unfolding told_times
  told_times-AreSpaced w [] u f h = tt
  told_times-AreSpaced w ((run, at) ∷ checks) u f h =
      let r = evaluate_watch_for_run n starts w run at in
      let d = decide_check n w run at in
      let k = unmuted_check w run at u f in
      put_if-AreSpaced w d (tells_change r.effects) at
        (told_times (record w { state = r.persisted }) checks) (decide_check-IsPaced w run at h)
        (λ q. ap tells_change k.0 ∙ plain_effects-silent w d q)
        (subst
          (λ st.
            AreSpaced (cooldown w) st.last_alert_at
              (told_times (record w { state = r.persisted }) checks))
          k.1
          (told_times-AreSpaced (record w { state = r.persisted }) checks u
            (ap (λ st. st.muted_from) k.1) h))
