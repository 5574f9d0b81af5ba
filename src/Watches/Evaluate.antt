-- ===== src/Watches/Evaluate.antt =====
-- lib/watches.ts: `matches`, `evaluate` and `evaluateFailure`.
use aemulus.Common.{
  ℕ, ◌+◌, ◌-◌, Bool, true, false, not, ◌&&◌, Option, none, some, ltb, nat_eq, ◌==◌, if◌then◌else◌,
  max,
}
use aemulus.Watches.{Text, text_Eq, is_empty, normalize, Numerals}
use aemulus.Watches.Rules.{changed, appears, disappears, WatchRule, satisfies}

pub record WatchState : Type 0 where
  pub last_value : Option Text
  pub pending_value : Option Text
  pub pending_count : Option ℕ
  pub last_alert_at : Option ℕ
  pub fail_streak : ℕ
  -- `undefined`, `null` or a text.
  pub muted_from : Option (Option Text)
  pub stalled_notice_at : Option ℕ

pub data Note : Type 0 where
  unreadable : Note
  seen : ℕ → ℕ → Note
  cooling : Note
  failing_repeatedly run_failed run_unfinished : Note
  not_captured : Text → Note

pub record WatchDecision : Type 0 where
  pub notify : Bool
  pub state : WatchState
  pub from : Option Text
  pub to : Option Text
  pub broken : Bool
  pub note : Option Note

-- `BROKEN_AFTER`.
abbrev pub broken_after : ℕ
broken_after = 3

abbrev pub empty_state : WatchState
empty_state = record {
  last_value = none;
  pending_value = none;
  pending_count = none;
  last_alert_at = none;
  fail_streak = 0;
  muted_from = none;
  stalled_notice_at = none;
}

abbrev pub silent : WatchState → Option Note → WatchDecision
silent st note = record {
  notify = false;
  state = st;
  from = none;
  to = none;
  broken = false;
  note = note;
}

abbrev pub or_failing : Option Note → Note
or_failing none = failing_repeatedly
or_failing (some note) = note

-- A check that could not be made.
unfoldable pub evaluate_failure : WatchState → Option Note → WatchDecision
evaluate_failure st note =
    let failed : WatchState = record st { fail_streak = st.fail_streak + 1 } in
    if nat_eq (st.fail_streak + 1) broken_after
    then record {
      notify = true;
      state = failed;
      from = none;
      to = none;
      broken = true;
      note = some (or_failing note);
    }
    else silent failed none

abbrev pub or_count : ℕ → Option ℕ → ℕ
or_count d none = d
or_count d (some n) = n

-- `value === next`, for a value that may be missing.
abbrev pub is_text : Option Text → Text → Bool
is_text none next = false
is_text (some t) next = t == next

-- The state in which a value became the baseline.
abbrev pub settled : WatchState → Text → WatchState
settled st next = record st {
  last_value = some next;
  pending_value = none;
  pending_count = some 0;
  fail_streak = 0;
}

-- `confirm`, at least 1.
abbrev pub confirmations : WatchRule → ℕ
confirmations rule = max 1 (or_count 1 rule.confirm)

-- For how many checks the candidate has held, this one counted.
unfoldable pub held : WatchState → Text → ℕ
held st next = if is_text st.pending_value next then or_count 0 st.pending_count + 1 else 1

unfoldable pub is_cooling : WatchRule → WatchState → ℕ → Bool
is_cooling rule st now = elim st.last_alert_at [
  | none ↦ false
  | some t ↦ ltb 0 (or_count 0 rule.cooldown_ms) && ltb (now - t) (or_count 0 rule.cooldown_ms)
]

unfoldable pub alert : WatchState → Text → ℕ → WatchDecision
alert st next now = record {
  notify = true;
  state = record {
    last_value = some next;
    pending_value = none;
    pending_count = some 0;
    last_alert_at = some now;
    fail_streak = 0;
    muted_from = none;
    stalled_notice_at = none;
  };
  from = st.last_value;
  to = some next;
  broken = false;
  note = none;
}

-- What `evaluate` does with a value that matched.
unfoldable pub on_hit : WatchRule → WatchState → Text → ℕ → WatchDecision
unfolding held is_cooling alert
on_hit rule st next now =
    if ltb 1 (confirmations rule) && ltb (held st next) (confirmations rule)
    then silent
        (record st {
          pending_value = some next;
          pending_count = some (held st next);
          fail_streak = 0;
        })
        (some (seen (held st next) (confirmations rule)))
    else if is_cooling rule st now
    then silent (settled st next) (some cooling)
    else alert st next now

-- The rest of `evaluate`, on what `matches` answered.
unfoldable pub on_match : WatchRule → WatchState → Text → ℕ → Option Bool → WatchDecision
unfolding on_hit
on_match rule st next now none = silent (record st { fail_streak = 0 }) (some unreadable)
on_match rule st next now (some false) = silent (settled st next) none
on_match rule st next now (some true) = on_hit rule st next now

abbrev pub has_changed : Option Text → Text → Bool
has_changed none next = false
has_changed (some prev) next = not (prev == next)

abbrev pub has_appeared : Option Text → Text → Bool
has_appeared none next = false
has_appeared (some prev) next = is_empty prev && not (is_empty next)

abbrev pub has_disappeared : Option Text → Text → Bool
has_disappeared none next = false
has_disappeared (some prev) next = not (is_empty prev) && is_empty next

module _ (n : Numerals) where
  -- `satisfies(rule, prev) === true`, for a previous value that may be missing.
  unfoldable pub was_satisfied : WatchRule → Option Text → Bool
  was_satisfied rule none = false
  was_satisfied rule (some prev) = elim (satisfies n rule prev) [ none ↦ false | some b ↦ b ]

  -- The `default` case of `matches`: the reading starts to satisfy the rule.
  unfoldable pub crosses : WatchRule → Option Text → Text → Option Bool
  crosses rule prev next = elim (satisfies n rule next) [
    | none ↦ none
    | some false ↦ some false
    | some true ↦ some (not (was_satisfied rule prev))
  ]

  unfoldable pub matches : WatchRule → Option Text → Text → Option Bool
  unfolding crosses
  matches rule prev next = elim rule.op [
    | changed ↦ some (has_changed prev next)
    | appears ↦ some (has_appeared prev next)
    | disappears ↦ some (has_disappeared prev next)
    | _ ↦ crosses rule prev next
  ]

  unfoldable pub evaluate : WatchRule → WatchState → Text → ℕ → WatchDecision
  unfolding on_match
  evaluate rule st raw now =
      on_match rule st (normalize raw) now (matches rule st.last_value (normalize raw))
