-- ===== src/Watches/Missed.antt =====
-- lib/watch-runner.ts: checks that read nothing, and checks just after a mute.
use aemulus.Common.{
  ℕ, ◌+◌, ◌<◌, ◌≡◌, ◌≢◌, refl, ap, ◌∙◌, inl, inr, Bool, true, false, not, ◌&&◌, Option, none, some,
  [], ◌∷◌, nat_eq, if◌then◌else◌, Bool-cases, arith,
}
use aemulus.Watches.{Text, text_Eq, normalize, Numerals}
use aemulus.Watches.Rules.{WatchRule}
use aemulus.Watches.Evaluate.{
  WatchState, WatchDecision, matches, on_match, on_hit, held, alert, evaluate, evaluate_failure,
  confirmations, broken_after, or_failing,
}
use aemulus.Watches.Runner.{
  completed, failed, unfinished, CheckedRun, Watch, told_changed, told_broken, Checked,
  act_and_tell, decide_check, is_news, lifted_effects, plain_effects, unmuted_effects, effects_of,
  evaluate_watch_for_run, is_muted,
}

module _ (n : Numerals) (starts : Text → Text → Bool) where
  -- The reading that a check has, if it has one.
  abbrev pub reading_of : CheckedRun → Option Text
  reading_of run = elim run.status [ completed ↦ run.raw | failed ↦ none | unfinished ↦ none ]

  -- A check with no reading leaves all of the state but the streak.
  decide_check_missed :
      (w : Watch) (run : CheckedRun) (now : ℕ)
      → reading_of run ≡ none
      → ((decide_check n w run now).state
          ≡ record w.state { fail_streak = w.state.fail_streak + 1 })
        × ((decide_check n w run now).notify ≡ nat_eq (w.state.fail_streak + 1) broken_after)
        × ((decide_check n w run now).broken ≡ nat_eq (w.state.fail_streak + 1) broken_after)
  unfolding decide_check evaluate_failure
  decide_check_missed w run now h = ground (arith, h)

  -- A check that reads nothing tells only that the watch is broken, and leaves what was last seen.
  pub evaluate_watch_for_run-missed :
      (w : Watch) (run : CheckedRun) (now : ℕ)
      → reading_of run ≡ none
      → w.state.muted_from ≡ none
      → (Checked.effects (evaluate_watch_for_run n starts w run now) ≡ (
          if not (is_muted w now) && nat_eq (w.state.fail_streak + 1) broken_after
          then told_broken (or_failing (decide_check n w run now).note) ∷ []
          else []))
        × ((evaluate_watch_for_run n starts w run now).persisted.last_value ≡ w.state.last_value)
        × ((evaluate_watch_for_run n starts w run now).persisted.pending_value
            ≡ w.state.pending_value)
        × ((evaluate_watch_for_run n starts w run now).persisted.last_alert_at
            ≡ w.state.last_alert_at)
  unfolding evaluate_watch_for_run effects_of unmuted_effects plain_effects
  evaluate_watch_for_run-missed w run now h from =
      let (st, nt, br) = decide_check_missed w run now h in
      let plain : unmuted_effects n starts w run now (decide_check n w run now) w.state.muted_from
          ≡ plain_effects starts w (decide_check n w run now) =
        ap (unmuted_effects n starts w run now (decide_check n w run now)) from in
      elim (Bool-cases (is_muted w now)) [
        | inl m ↦ rw (m, st) (refl, refl, refl, refl)
        | inr free ↦
            rw (free, plain, st, nt, br)
              (elim (Bool-cases (nat_eq (w.state.fail_streak + 1) broken_after)) [
                | inl third ↦ rw third (refl, refl, refl, refl)
                | inr other ↦ rw other (refl, refl, refl, refl)
              ])
      ]

  news_missed :
      (w : Watch) (run : CheckedRun) (now : ℕ) (to : Text)
      → reading_of run ≡ none
      → is_news n w run now none to ≡ true
  unfolding is_news
  news_missed w run now to h = ground (arith, h)

  untold :
      (w : Watch) (from : Option Text)
      → act_and_tell starts w false from [] ≡ told_changed from [] ∷ []
  unfolding act_and_tell
  untold w from = ground arith

  lifted_nothing :
      (w : Watch) (run : CheckedRun) (now : ℕ) (d : WatchDecision)
      → reading_of run ≡ none
      → d.state.last_value ≡ none
      → lifted_effects n starts w run now none d ≡ told_changed none [] ∷ []
  unfolding lifted_effects
  lifted_nothing w run now d h e = rw (e, news_missed w run now [] h, untold w none) refl

  -- A check that read nothing and does not find the watch broken, while no mute is in force, on a
  -- state that has no last value and carries the lack of a value from before a mute, tells of a
  -- change to the empty text. The state is so where the mute began before any reading, some run
  -- was checked during it, none of them read anything, and none was checked since.
  pub evaluate_watch_for_run-early_mute :
      (w : Watch) (run : CheckedRun) (now : ℕ)
      → reading_of run ≡ none
      → w.state.last_value ≡ none
      → w.state.muted_from ≡ some none
      → w.state.fail_streak + 1 ≢ broken_after
      → is_muted w now ≡ false
      → Checked.effects (evaluate_watch_for_run n starts w run now) ≡ told_changed none [] ∷ []
  unfolding evaluate_watch_for_run effects_of unmuted_effects
  evaluate_watch_for_run-early_mute w run now h last from few free =
      let (st, nt, br) = decide_check_missed w run now h in
      let whole : nat_eq (w.state.fail_streak + 1) broken_after ≡ false = ground arith in
      let lifted : unmuted_effects n starts w run now (decide_check n w run now) w.state.muted_from
          ≡ lifted_effects n starts w run now none (decide_check n w run now) =
        ap (unmuted_effects n starts w run now (decide_check n w run now)) from
        ∙ rw (br, whole) refl in
      rw (free, lifted) (lifted_nothing w run now (decide_check n w run now) h (rw st last))

  on_match_whole :
      (rule : WatchRule) (st : WatchState) (next : Text) (now : ℕ) (hit : Option Bool)
      → (on_match rule st next now hit).broken ≡ false
  unfolding on_match on_hit alert
  on_match_whole rule st next now none = refl
  on_match_whole rule st next now (some false) = refl
  on_match_whole rule st next now (some true) = ground arith

  on_match_unconfirmed :
      (rule : WatchRule) (st : WatchState) (next : Text) (now : ℕ) (hit : Option Bool)
      → 1 < confirmations rule
      → st.pending_value ≡ none
      → (on_match rule st next now hit).notify ≡ false
  unfolding on_match on_hit held
  on_match_unconfirmed rule st next now none many e = refl
  on_match_unconfirmed rule st next now (some false) many e = refl
  on_match_unconfirmed rule st next now (some true) many e = ground arith

  -- With a rule that asks for more than one confirmation, a run that completes with a text read
  -- while no mute is in force, on a state that still carries a value, or none, from before a
  -- mute, has no effect, whatever that value was and whatever was read. The state carries it
  -- where some run was checked during the mute and none since.
  pub evaluate_watch_for_run-unconfirmed :
      (w : Watch) (raw : Text) (now : ℕ) (from : Option Text)
      → 1 < confirmations w.rule
      → w.state.muted_from ≡ some from
      → is_muted w now ≡ false
      → Checked.effects
          (evaluate_watch_for_run n starts w (record { status = completed; raw = some raw }) now)
        ≡ []
  unfolding evaluate_watch_for_run decide_check effects_of unmuted_effects lifted_effects is_news
      evaluate
  evaluate_watch_for_run-unconfirmed w raw now from many e free =
      let d = evaluate n w.rule w.state raw now in
      let whole : d.broken ≡ false =
        on_match_whole w.rule w.state (normalize raw) now
          (matches n w.rule w.state.last_value (normalize raw)) in
      let st : WatchState = record w.state {
        last_value = from;
        pending_value = none;
        pending_count = some 0;
      } in
      let quiet : (evaluate n w.rule st raw now).notify ≡ false =
        on_match_unconfirmed w.rule st (normalize raw) now (matches n w.rule from (normalize raw))
          many refl in
      let lifted : unmuted_effects n starts w run now d w.state.muted_from
          ≡ lifted_effects n starts w run now from d =
        ap (unmuted_effects n starts w run now d) e ∙ rw whole refl in
      rw (free, lifted, quiet) refl
    where
      run : CheckedRun
      run = record { status = completed; raw = some raw }
