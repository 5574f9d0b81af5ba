-- ===== src/Schedules/Tests.antt =====
-- lib/schedules.ts and lib/scheduler.ts at concrete rows.
use aemulus.Common.{
  length, ltb, ℕ, ◌+◌, ◌*◌, ◌/◌, ◌%◌, ◌<◌, ◌≤◌, ◌≡◌, refl, true, false, none, some, [], ◌∷◌, arith,
}
use aemulus.Common.Int.{pos, negsuc}
use aemulus.Runs.Tiers.{TierConfig, compute_tier}
use aemulus.Watches.Rules.{changed}
use aemulus.Watches.{Numerals}
use aemulus.Watches.Evaluate.{empty_state}
use aemulus.Watches.Runner.{alert_only, completed, CheckedRun, Watch}
use aemulus.Schedules.{
  WatchView, Calendar, every10m, weekdays, cadence_ms, day_ms, ScheduleRow, wins, claim_schedule,
  set_watch_state, next_run_after, affordable_cadences, hourly, every6h, every12h, daily, weekly,
}
use aemulus.Schedules.Rolling.{
  IsForward, IsFirstSlot, next_slot, roll, next_slot_ends, next_slot-IsAnchored,
}
use aemulus.Schedules.Slots.{claimed, deactivated, won_claims, AreInTurn}
use aemulus.Schedules.Turns.{won_claims-AreInTurn}
use aemulus.Schedules.Firing.{Asked, fired, fire, start_at_level, tell_owner, Firing}
use aemulus.Schedules.Skipped.{IsDue, fire-IsDue, fire-gone}
use aemulus.Schedules.Notices.{Paces, last_notice, fire-Paces}

-- Days of 24 hours from a Thursday.
abbrev utc : Calendar
utc = record { get_day = λ d. (d / day_ms + 4) % 7; add_days = λ n d. d + n * day_ms }

utc-IsForward : IsForward utc
utc-IsForward = record { forward = λ n d. omega arith }

next_slot_ends_example :
    (s : ℕ) × ((next_slot utc weekdays 700000000 5 ≡ some s)
      × IsFirstSlot utc weekdays 700000000 5 s)
next_slot_ends_example = next_slot_ends utc weekdays 700000000 5 utc-IsForward

friday : next_run_after utc weekdays (day_ms + 1) ≡ 4 * day_ms + 1
unfolding next_run_after
friday = refl

found : next_slot utc every10m 1300000 100000 ≡ some 1900000
unfolding next_slot roll next_run_after
found = refl

next_slot-IsAnchored_example :
    (1300000 < 1900000)
    × ((1900000 ≤ 1300000 + cadence_ms every10m)
        × ((n : ℕ) × (1900000 ≡ 100000 + n * cadence_ms every10m)))
next_slot-IsAnchored_example =
    next_slot-IsAnchored utc every10m 1300000 100000 1900000 utc-IsForward refl (omega arith) found

abbrev row : ScheduleRow
row = record {
  id = "sch_1";
  owner = "w";
  skill_id = "sk";
  input = "{}";
  cadence = every10m;
  level = 2;
  active = true;
  last_run_id = none;
  last_run_at = none;
  next_run_at = 100000;
  created_at = 0;
  watch_rule = none;
  watch_state = none;
  notify = none;
  muted_until = none;
}

won_claims-AreInTurn_example : AreInTurn 100000 (
    won_claims utc "sch_1"
      (claimed "sch_1" 1300000 1900000
        ∷ claimed "sch_1" 1300001 1900000
        ∷ deactivated "sch_2"
        ∷ claimed "sch_1" 1900000 2500000
        ∷ [])
      (row ∷ []))
won_claims-AreInTurn_example =
    won_claims-AreInTurn "sch_1" utc 100000
      (claimed "sch_1" 1300000 1900000
        ∷ claimed "sch_1" 1300001 1900000
        ∷ deactivated "sch_2"
        ∷ claimed "sch_1" 1900000 2500000
        ∷ [])
      (row ∷ []) (omega arith) (tt, (tt, (tt, (tt, tt))))

won :
    won_claims utc "sch_1"
      (claimed "sch_1" 1300000 1900000
        ∷ claimed "sch_1" 1300001 1900000
        ∷ claimed "sch_1" 1900000 2500000
        ∷ [])
      (row ∷ [])
    ≡ (1300000, 1900000) ∷ (1900000, 2500000) ∷ []
unfolding won_claims wins claim_schedule
won = refl

abbrev config : TierConfig
config = record {
  mint = "token";
  whale_min = 10000000;
  pro_min = 1000000;
  holder_min = 1;
  quota_whale = negsuc 0;
  quota_pro = pos 50;
  quota_holder = pos 2;
  watch_whale = negsuc 0;
  watch_pro = pos 250;
  watch_holder = pos 0;
}

abbrev watched : ScheduleRow
watched = record row {
  watch_rule =
      some (record { key = []; op = changed; value = none; confirm = none; cooldown_ms = none });
}

abbrev asked : ℕ → ℕ → Asked
asked balance clock = record {
  skill = some (record { owner = "v"; published = true });
  balance = some balance;
  runs = [];
  started = some "run_1";
  clock = clock;
}

started :
    (fire utc config watched (asked 1000000 1300001) 1300000 (watched ∷ [])).outcome
    ≡ fired "run_1" true
unfolding fire next_slot roll next_run_after wins claim_schedule compute_tier start_at_level
started = refl

fire-IsDue_example :
    IsDue utc config watched (asked 1000000 1300001) 1300000 (watched ∷ []) "run_1" true
fire-IsDue_example =
    fire-IsDue utc config watched (asked 1000000 1300001) 1300000 (watched ∷ []) "run_1" true
      started

abbrev without_skill : Asked
without_skill = record (asked 1000000 1300001) { skill = none }

due_now : wins "sch_1" 1300000 (watched ∷ []) ≡ true
unfolding wins
due_now = refl

fire-gone_example :
    ((fire utc config watched without_skill 1300000 (watched ∷ [])).notices ≡ [])
    × (wins "sch_1" 2000000 (fire utc config watched without_skill 1300000 (watched ∷ [])).rows
        ≡ false)
fire-gone_example =
    fire-gone utc config watched without_skill 1300000 2000000 (watched ∷ []) utc-IsForward due_now
      refl

-- A holder with no watch checks a day is told, and 1000 seconds later not again.
abbrev first_skip : Firing
first_skip = fire utc config watched (asked 5 100000001) 100000000 (watched ∷ [])

fire-Paces_example :
    Paces
      (last_notice "sch_1" (watched ∷ []))
      100000001
      first_skip.notices
      (last_notice "sch_1" first_skip.rows)
fire-Paces_example = fire-Paces utc config watched (asked 5 100000001) 100000000 (watched ∷ [])

told_once :
    (length first_skip.notices ≡ 1)
    × ((fire utc config watched (asked 5 101000001) 101000000 first_skip.rows).notices ≡ [])
unfolding fire next_slot roll next_run_after wins claim_schedule compute_tier start_at_level
    tell_owner set_watch_state
told_once = (refl, refl)

abbrev checked : Watch
checked = record {
  rule = record { key = []; op = changed; value = none; confirm = none; cooldown_ms = none };
  state = record empty_state { last_value = some (97 ∷ []); stalled_notice_at = some 100000001 };
  muted_until = none;
  action = alert_only;
}

abbrev read_b : CheckedRun
read_b = record { status = completed; raw = some (98 ∷ []) }

abbrev naturals : Numerals
naturals = record { Num = ℕ; finite_number = λ s. none; greater = λ a b. ltb b a }

abbrev view : WatchView
view = record { owner = "w"; state = empty_state; notify = none }

paced : affordable_cadences (pos 24) ≡ hourly ∷ every6h ∷ every12h ∷ daily ∷ weekdays ∷ weekly ∷ []
unfolding affordable_cadences
paced = refl
