-- ===== src/Watches/Muting.antt =====
-- lib/watch-runner.ts: what a watch says after a mute, and what a failed check may do.
use aemulus.Common.{
  ℕ, ◌≡◌, refl, ap, ◌∙◌, inl, inr, Bool, true, false, not, Option, none, some, List, [], ◌∷◌, All,
  if◌then◌else◌, ◌==◌, Bool-cases, Option-cases, arith,
}
use aemulus.Watches.{Text, text_Eq, normalize, Numerals}
use aemulus.Watches.Rules.{WatchRule, changed}
use aemulus.Watches.Evaluate.{
  WatchState, WatchDecision, matches, on_match, on_hit, is_cooling, alert, evaluate, confirmations,
  or_count, silent,
}
use aemulus.Watches.Runner.{
  alert_only, completed, CheckedRun, Watch, told_changed, Checked, should_alert, fire_watch_action,
  act_and_tell, decide_check, is_news, lifted_effects, unmuted_effects, effects_of,
  evaluate_watch_for_run, quiet_from, is_muted,
}

-- Runs that completed with a reading, each at its time.
abbrev pub reading_run : Text → CheckedRun
reading_run raw = record { status = completed; raw = some raw }

module _ (n : Numerals) (starts : Text → Text → Bool) where
  -- A watch after a check.
  abbrev pub after_check : Watch → CheckedRun → ℕ → Watch
  after_check w run now = record w { state = (evaluate_watch_for_run n starts w run now).persisted }

  -- The state of a watch after checks that read a text each.
  unfoldable pub after_readings : Watch → List (Text × ℕ) → WatchState
  after_readings w [] = w.state
  after_readings w ((raw, at) ∷ checks) = after_readings (after_check w (reading_run raw) at) checks

  -- A rule that tells of each change at once.
  pub record TellsChanges (rule : WatchRule) : Type 0 where
    pub on_change : rule.op ≡ changed
    pub at_once : confirmations rule ≡ 1
    pub uncooled : or_count 0 rule.cooldown_ms ≡ 0

  module _ (rule : WatchRule) (tells : TellsChanges rule) where
    uncooled_false : (st : WatchState) (now : ℕ) → is_cooling rule st now ≡ false
    unfolding is_cooling
    uncooled_false st now = elim (Option-cases st.last_alert_at) [
      | inl e ↦ rw e refl
      | inr (t, e) ↦ ground (arith, e, tells.uncooled)
    ]

    on_hit_at_once :
        (st : WatchState) (next : Text) (now : ℕ) → on_hit rule st next now ≡ alert st next now
    unfolding on_hit
    on_hit_at_once st next now = rw (tells.at_once, uncooled_false st now) refl

    matches_changed :
        (last : Option Text) (v next : Text)
        → last ≡ some v
        → matches n rule last next ≡ some (not (v == next))
    unfolding matches
    matches_changed last v next e = rw (tells.on_change, e) refl

    -- The value read becomes the baseline, and is told of where it differs from the baseline.
    evaluate_changed :
        (st : WatchState) (v raw : Text) (now : ℕ)
        → st.last_value ≡ some v
        → ((evaluate n rule st raw now).state.last_value ≡ some (normalize raw))
          × ((evaluate n rule st raw now).notify ≡ not (v == normalize raw))
          × ((evaluate n rule st raw now).broken ≡ false)
    unfolding evaluate on_match alert
    evaluate_changed st v raw now e =
        rw (matches_changed st.last_value v (normalize raw) e)
          (elim (Bool-cases (v == normalize raw)) [
            | inl same ↦ rw same (refl, refl, refl)
            | inr other ↦ rw (other, on_hit_at_once st (normalize raw) now) (refl, refl, refl)
          ])

  -- Baseline, and the value from before the quiet: the first is some value, the second is `v`.
  abbrev IsQuietFrom : Text → WatchState → Type 0
  IsQuietFrom v st = ((last : Text) × (st.last_value ≡ some last)) × (quiet_from st ≡ some v)

  module _ (w : Watch) (tells : TellsChanges w.rule) where
    muted_check :
        (v raw : Text) (now : ℕ)
        → is_muted w now ≡ true
        → IsQuietFrom v w.state
        → ((evaluate_watch_for_run n starts w (reading_run raw) now).effects ≡ [])
          × IsQuietFrom v (evaluate_watch_for_run n starts w (reading_run raw) now).persisted
          × ((evaluate_watch_for_run n starts w (reading_run raw) now).persisted.muted_from
              ≡ some (some v))
    unfolding evaluate_watch_for_run decide_check effects_of
    muted_check v raw now m ((last, e), q) =
        let (kept, told, whole) = evaluate_changed w.rule tells w.state last raw now e in
        rw (m, q) (refl, ((normalize raw, kept), refl), refl)

    effects_lifted :
        (run : CheckedRun) (now : ℕ) (from : Option Text) (d : WatchDecision)
        → is_muted w now ≡ false
        → w.state.muted_from ≡ some from
        → d.broken ≡ false
        → effects_of n starts w run now d ≡ lifted_effects n starts w run now from d
    unfolding effects_of unmuted_effects
    effects_lifted run now from d m e b =
        rw m (ap (unmuted_effects n starts w run now d) e ∙ rw b refl)

    told-alert_only :
        (has_baseline : Bool) (from : Option Text) (to : Text)
        → w.action ≡ alert_only
        → act_and_tell starts w has_baseline from to ≡ told_changed from to ∷ []
    unfolding act_and_tell should_alert fire_watch_action
    told-alert_only true from to act = rw act refl
    told-alert_only false from to act = rw act refl

    news_changed :
        (v raw to : Text) (now : ℕ)
        → is_news n w (reading_run raw) now (some v) to ≡ not (v == normalize raw)
    unfolding is_news
    news_changed v raw to now =
        let (kept, told, whole) =
          evaluate_changed w.rule tells
            (record w.state { last_value = some v; pending_value = none; pending_count = some 0 }) v
            raw now refl in
        told

    lifted_changed :
        (v raw : Text) (now : ℕ) (d : WatchDecision)
        → d.state.last_value ≡ some (normalize raw)
        → w.action ≡ alert_only
        → lifted_effects n starts w (reading_run raw) now (some v) d
          ≡ (if v == normalize raw then [] else told_changed (some v) (normalize raw) ∷ [])
    unfolding lifted_effects
    lifted_changed v raw now d e act =
        rw
          (
            e,
            news_changed v raw (normalize raw) now,
            told-alert_only true (some v) (normalize raw) act,
          )
          (elim (Bool-cases (v == normalize raw)) [
            | inl same ↦ rw same refl
            | inr other ↦ rw other refl
          ])

    lifted_check :
        (v raw : Text) (now : ℕ)
        → is_muted w now ≡ false
        → IsQuietFrom v w.state
        → w.state.muted_from ≡ some (some v)
        → w.action ≡ alert_only
        → (evaluate_watch_for_run n starts w (reading_run raw) now).effects
          ≡ (if v == normalize raw then [] else told_changed (some v) (normalize raw) ∷ [])
    unfolding evaluate_watch_for_run decide_check
    lifted_check v raw now m ((last, e), q) from act =
        let d = evaluate n w.rule w.state raw now in
        let (kept, told, whole) = evaluate_changed w.rule tells w.state last raw now e in
        effects_lifted (reading_run raw) now (some v) d m from whole
        ∙ lifted_changed v raw now d kept act

  after_readings_quiet :
      (w : Watch) (v : Text) (checks : List (Text × ℕ))
      → TellsChanges w.rule
      → All (λ c. is_muted w c.1 ≡ true) checks
      → IsQuietFrom v w.state
      → w.state.muted_from ≡ some (some v)
      → IsQuietFrom v (after_readings w checks)
        × ((after_readings w checks).muted_from ≡ some (some v))
  unfolding after_readings
  after_readings_quiet w v [] tells m q from = (q, from)
  after_readings_quiet w v ((raw, at) ∷ checks) tells (m, ms) q from =
      let (none', q', from') = muted_check w tells v raw at m q in
      after_readings_quiet (after_check w (reading_run raw) at) v checks tells ms q' from'

  -- For a watch that tells of each change at once and only sends messages, with a baseline and no
  -- earlier mute: where it is muted and one or more runs in a row complete with a text read, and
  -- the very next run comes after the mute and completes with a text read, that run tells of one
  -- change, from the baseline before the mute, just where the text differs from that baseline,
  -- and of nothing else. Runs that fail or read nothing are not covered.
  pub evaluate_watch_for_run-lifted :
      (w : Watch) (v first raw : Text) (at now : ℕ) (checks : List (Text × ℕ))
      → TellsChanges w.rule
      → w.action ≡ alert_only
      → w.state.last_value ≡ some v
      → w.state.muted_from ≡ none
      → All (λ c. is_muted w c.1 ≡ true) ((first, at) ∷ checks)
      → is_muted w now ≡ false
      → Checked.effects (
          evaluate_watch_for_run n starts
            (record w { state = after_readings w ((first, at) ∷ checks) })
            (reading_run raw)
            now)
        ≡ (if v == normalize raw then [] else told_changed (some v) (normalize raw) ∷ [])
  unfolding after_readings
  evaluate_watch_for_run-lifted w v first raw at now checks tells act last from (m, ms) free =
      let quiet : quiet_from w.state ≡ some v = rw (from, last) refl in
      let (silent, q, from') = muted_check w tells v first at m ((v, last), quiet) in
      let (q', from'') =
        after_readings_quiet (after_check w (reading_run first) at) v checks tells ms q from' in
      lifted_check (record w { state = after_readings w ((first, at) ∷ checks) }) tells v raw now
        free q' from'' act
