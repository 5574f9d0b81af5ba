-- ===== src/Watches/Tests.antt =====
-- lib/watches.ts, lib/watch-runner.ts and lib/wait.ts at concrete watches.
use aemulus.Common.{
  ℕ, ◌+◌, ◌*◌, ◌-◌, ◌≤◌, ◌<◌, ◌≡◌, refl, true, none, some, List, [], ◌∷◌, length, ltb,
  if◌then◌else◌, ◌==◌, arith,
}
use aemulus.Common.Texts.{units}
use aemulus.Watches.{
  Text, text_Eq, is_zero_width, is_space, without_zero_width, collapse, trim_start,
  put_unless_blank, trim_end, trim, normalize, is_digit, span, fraction, unsigned_at, number_at,
  first_number, Numerals, parse_number,
}
use aemulus.Watches.Rules.{WatchRule, changed, branch_span, plain_rule}
use aemulus.Common.Int.{pos}
use aemulus.Watches.Evaluate.{WatchState, empty_state}
use aemulus.Watches.Alerts.{AreSpaced, alert_times}
use aemulus.Watches.Paced.{told_times, told_times-AreSpaced}
use aemulus.Watches.Steady.{steady, alert_times-steady}
use aemulus.Watches.Runner.{
  alert_only, failed, CheckedRun, completed, Watch, told_changed, Checked, evaluate_watch_for_run,
}
use aemulus.Watches.Muting.{
  reading_run, after_readings, TellsChanges, evaluate_watch_for_run-lifted,
}
use aemulus.Watches.Missed.{evaluate_watch_for_run-early_mute, evaluate_watch_for_run-unconfirmed}
use aemulus.Watches.Waiting.{Poll, WaitStep, WaitOutcome, wait_for_step}
use aemulus.Watches.Waiting.Ending.{GoesOn, EndsAt, wait_for_step_ends}

-- Texts of digits are numbers; the others are not met here.
abbrev value_of : ℕ → Text → ℕ
value_of acc [] = acc
value_of acc (c ∷ s) = value_of (acc * 10 + (c - 48)) s

abbrev naturals : Numerals
naturals = record { Num = ℕ; finite_number = λ s. some (value_of 0 s); greater = λ a b. ltb b a }

normalized : normalize (units "  a \u{200b}  b ") ≡ units "a b"
unfolding normalize trim trim_end put_unless_blank trim_start collapse without_zero_width is_space
    is_zero_width
normalized = refl

amount_read : parse_number naturals (units "$1,249") ≡ some 1249
unfolding parse_number normalize trim trim_end put_unless_blank trim_start collapse
    without_zero_width is_space is_zero_width first_number number_at unsigned_at span fraction
    is_digit
amount_read = refl

whole_branch : branch_span (some (some (pos 3000))) ≡ 50
unfolding branch_span
whole_branch = refl

abbrev on_change : WatchRule
on_change = plain_rule (units "status") changed none

abbrev seen_a : WatchState
seen_a = record empty_state { last_value = some (units "a") }

abbrev twice : WatchRule
twice = record on_change { confirm = some 2 }

alert_times-steady_example :
    length (alert_times naturals on_change seen_a (steady (units "b") (10 ∷ 20 ∷ []))) ≤ 1
alert_times-steady_example = alert_times-steady naturals on_change (units "b") seen_a (10 ∷ 20 ∷ [])

abbrev paced : WatchRule
paced = record on_change { cooldown_ms = some 100 }

abbrev loud_watch : Watch
loud_watch = record { rule = paced; state = seen_a; muted_until = none; action = alert_only }

abbrev runs : List (CheckedRun × ℕ)
runs =
    (record { status = completed; raw = some (units "b") }, 10)
    ∷ (record { status = completed; raw = some (units "c") }, 20)
    ∷ (record { status = failed; raw = none }, 30)
    ∷ []

told_times-AreSpaced_example :
    AreSpaced 100 none (told_times naturals (λ skill value. true) loud_watch runs)
told_times-AreSpaced_example =
    told_times-AreSpaced naturals (λ skill value. true) loud_watch runs refl refl (omega arith)

abbrev muted_watch : Watch
muted_watch = record {
  rule = on_change;
  state = seen_a;
  muted_until = some 100;
  action = alert_only;
}

abbrev tells : TellsChanges naturals (λ skill value. true) on_change
tells = record { on_change = refl; at_once = refl; uncooled = refl }

evaluate_watch_for_run-lifted_example :
    Checked.effects (
      evaluate_watch_for_run naturals
        (λ skill value. true)
        (record muted_watch {
          state =
              after_readings naturals
                (λ skill value. true)
                muted_watch
                ((units "b", 50) ∷ (units "c", 60) ∷ []);
        })
        (reading_run (units "a"))
        200)
    ≡ (if units "a" == normalize (units "a")
        then []
        else told_changed (some (units "a")) (normalize (units "a")) ∷ [])
evaluate_watch_for_run-lifted_example =
    evaluate_watch_for_run-lifted naturals (λ skill value. true) muted_watch (units "a") (units "b")
      (units "a") 50 200 ((units "c", 60) ∷ []) tells refl refl refl (refl, (refl, tt)) refl

abbrev failed_run : CheckedRun
failed_run = record { status = failed; raw = none }

abbrev early : Watch
early = record muted_watch { state = record empty_state { muted_from = some none } }

evaluate_watch_for_run-early_mute_example :
    Checked.effects (evaluate_watch_for_run naturals (λ skill value. true) early failed_run 200)
    ≡ told_changed none [] ∷ []
evaluate_watch_for_run-early_mute_example =
    evaluate_watch_for_run-early_mute naturals (λ skill value. true) early failed_run 200 refl refl
      refl (omega arith) refl

abbrev unconfirmed : Watch
unconfirmed = record muted_watch {
  rule = twice;
  state = record seen_a { muted_from = some (some (units "a")) };
}

evaluate_watch_for_run-unconfirmed_example :
    Checked.effects (
      evaluate_watch_for_run naturals
        (λ skill value. true)
        unconfirmed
        (record { status = completed; raw = some (units "b") })
        200)
    ≡ []
evaluate_watch_for_run-unconfirmed_example =
    evaluate_watch_for_run-unconfirmed naturals (λ skill value. true) unconfirmed (units "b") 200
      (some (units "a")) (omega arith) refl refl

-- A page that shows a total from the third poll on.
abbrev page : ℕ → Poll
page j = record { reads = λ sel. if ltb j 2 then none else some (units "7"); now = 1000 + 500 * j }

abbrev wait_step : WaitStep
wait_step = record {
  wait_op = none;
  wait_value = none;
  wait_ms = some 4000;
  selectors = units "#total" ∷ [];
}

wait_for_step_ends_example :
    (k : ℕ) × (o : WaitOutcome) × (wait_for_step naturals wait_step 1000 90000 page ≡ some o)
    × EndsAt naturals wait_step 1000 90000 (page k) o
    × ((j : ℕ) → j < k → GoesOn naturals wait_step 1000 90000 (page j))
wait_for_step_ends_example =
    wait_for_step_ends naturals wait_step 1000 90000 page (λ j. omega arith) (λ h. cc)
