-- ===== src/Watches/Runner.antt =====
-- lib/watch-runner.ts: from a finished run to an alert, an action or silence; with what a watch
-- does when it fires, of lib/watch-action.ts. A chained run is started elsewhere: `starts` says
-- whether it is, for a skill and the value that fired.
use aemulus.Common.{
  ℕ, Bool, true, false, not, ◌||◌, Option, none, some, List, [], ◌∷◌, ◌++◌, ltb, ◌==◌,
  if◌then◌else◌,
}
use aemulus.Watches.{Text, text_Eq, Numerals}
use aemulus.Watches.Rules.{WatchRule, or_empty}
use aemulus.Watches.Evaluate.{
  WatchState, WatchDecision, Note, run_failed, run_unfinished, not_captured, or_failing, evaluate,
  evaluate_failure,
}

pub data WatchAction : Type 0 where
  alert_only : WatchAction
  run_skill : Text → Option Bool → WatchAction

pub data RunStatus : Type 0 where
  completed failed unfinished : RunStatus

-- A finished run: its status and its output under the rule's key, if that is a text.
pub record CheckedRun : Type 0 where
  pub status : RunStatus
  pub raw : Option Text

pub record Watch : Type 0 where
  pub rule : WatchRule
  pub state : WatchState
  pub muted_until : Option ℕ
  pub action : WatchAction

-- What leaves a check: messages and runs that were started.
pub data Effect : Type 0 where
  told_changed : Option Text → Text → Effect
  told_broken : Note → Effect
  started : Text → Text → Effect

pub record Checked : Type 0 where
  pub persisted : WatchState
  pub effects : List Effect
  pub decision : WatchDecision

unfoldable pub should_alert : WatchAction → Bool
should_alert alert_only = true
should_alert (run_skill skill none) = true
should_alert (run_skill skill (some also)) = also

-- `fireWatchAction`: did the run start?
unfoldable pub fire_watch_action : (Text → Text → Bool) → WatchAction → Text → List Effect × Bool
fire_watch_action starts alert_only value = ([], false)
fire_watch_action starts (run_skill skill also) value =
    if starts skill value then (started skill value ∷ [], true) else ([], false)

-- The message follows the action, if it is wanted or the action did not happen.
unfoldable pub act_and_tell : (Text → Text → Bool) → Watch → Bool → Option Text → Text → List Effect
unfolding should_alert fire_watch_action
act_and_tell starts w has_baseline from to =
    let (done, ran) = if has_baseline then fire_watch_action starts w.action to else ([], false) in
    if should_alert w.action || not ran then done ++ told_changed from to ∷ [] else done

abbrev pub is_muted : Watch → ℕ → Bool
is_muted w now = elim w.muted_until [ none ↦ false | some t ↦ ltb now t ]

abbrev pub is_some : Option Text → Bool
is_some none = false
is_some (some t) = true

abbrev pub same_option : Option Text → Option Text → Bool
same_option none none = true
same_option (some a) (some b) = a == b
same_option _ _ = false

-- `mutedFrom ?? lastValue ?? null`.
abbrev pub quiet_from : WatchState → Option Text
quiet_from st = elim st.muted_from [ some (some t) ↦ some t | _ ↦ st.last_value ]

abbrev pub persist : Watch → ℕ → WatchState → WatchState
persist w now st =
    if is_muted w now
    then record st { muted_from = some (quiet_from w.state) }
    else record st { muted_from = none }

unfoldable pub plain_effects : (Text → Text → Bool) → Watch → WatchDecision → List Effect
unfolding act_and_tell
plain_effects starts w d =
    if not d.notify
    then []
    else if d.broken
    then told_broken (or_failing d.note) ∷ []
    else act_and_tell starts w (is_some w.state.last_value) d.from (or_empty d.to)

module _ (n : Numerals) where
  unfoldable pub decide_check : Watch → CheckedRun → ℕ → WatchDecision
  decide_check w run now = elim run.status [
    | completed ↦ elim run.raw [
      | none ↦ evaluate_failure w.state (some (not_captured w.rule.key))
      | some raw ↦ evaluate n w.rule w.state raw now
    ]
    | failed ↦ evaluate_failure w.state (some run_failed)
    | unfinished ↦ evaluate_failure w.state (some run_unfinished)
  ]

  -- The first check after a mute: is there news across the whole of the quiet?
  unfoldable pub is_news : Watch → CheckedRun → ℕ → Option Text → Text → Bool
  is_news w run now from to = elim run.status [
    | completed ↦ elim run.raw [
      | none ↦ not (same_option from (some to))
      | some raw ↦ WatchDecision.notify (
          evaluate n w.rule
            (record w.state { last_value = from; pending_value = none; pending_count = some 0 }) raw
            now)
    ]
    | _ ↦ not (same_option from (some to))
  ]

  unfoldable pub lifted_effects :
      (Text → Text → Bool) → Watch → CheckedRun → ℕ → Option Text → WatchDecision → List Effect
  unfolding is_news act_and_tell
  lifted_effects starts w run now from d =
      let to = or_empty d.state.last_value in
      if is_news w run now from to then act_and_tell starts w (is_some from) from to else []

  -- With no mute in force, by the value that a mute may have left behind.
  unfoldable pub unmuted_effects :
      (Text → Text → Bool)
      → Watch
      → CheckedRun
      → ℕ
      → WatchDecision
      → Option (Option Text)
      → List Effect
  unfolding lifted_effects plain_effects
  unmuted_effects starts w run now d none = plain_effects starts w d
  unmuted_effects starts w run now d (some from) =
      if d.broken then plain_effects starts w d else lifted_effects starts w run now from d

  unfoldable pub effects_of :
      (Text → Text → Bool) → Watch → CheckedRun → ℕ → WatchDecision → List Effect
  unfolding unmuted_effects
  effects_of starts w run now d =
      if is_muted w now then [] else unmuted_effects starts w run now d w.state.muted_from

  unfoldable pub evaluate_watch_for_run : (Text → Text → Bool) → Watch → CheckedRun → ℕ → Checked
  unfolding decide_check effects_of
  evaluate_watch_for_run starts w run now = record {
    persisted = persist w now (decide_check w run now).state;
    effects = effects_of starts w run now (decide_check w run now);
    decision = decide_check w run now;
  }
