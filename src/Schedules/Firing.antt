-- ===== src/Schedules/Firing.antt =====
-- lib/scheduler.ts: one firing of a schedule, and a tick of the scheduler.
use aemulus.Common.{
  ℕ, ◌-◌, ◌*◌, Bool, true, false, not, ◌&&◌, String, string_Eq, Option, none, some, List, [], ◌∷◌,
  ◌++◌, ltb, ◌==◌,
}
use aemulus.Runs.{RunRow}
use aemulus.Runs.Tiers.{TierConfig, compute_tier, get_quota}
use aemulus.Watches.Evaluate.{WatchState}
use aemulus.Schedules.{
  Calendar, ScheduleRow, WatchView, get_watch, wins, claim_schedule, record_run, deactivate,
  set_watch_state, due_schedules,
}
use aemulus.Schedules.Rolling.{next_slot}

pub record SkillOwner : Type 0 where
  pub owner : String
  pub published : Bool

-- What the other parts answer in a firing: the skill, the balance of the owner, the runs, the run
-- that was started, none where that threw; and the time that the firing is dealt with.
pub record Asked : Type 0 where
  pub skill : Option SkillOwner
  pub balance : Option ℕ
  pub runs : List RunRow
  pub started : Option String
  pub clock : ℕ

pub data StallReason : Type 0 where
  quota_used tier_lost : StallReason

pub record Stalled : Type 0 where
  pub schedule_id : String
  pub owner : String
  pub reason : StallReason
  pub stopped : Bool
  pub notify : Option String

pub data FiringOutcome : Type 0 where
  lost gone unread ineligible exhausted not_started : FiringOutcome
  fired : String → Bool → FiringOutcome

pub record Firing : Type 0 where
  pub rows : List ScheduleRow
  pub notices : List Stalled
  pub outcome : FiringOutcome

abbrev pub stall_notice_every_ms : ℕ
stall_notice_every_ms = 20 * 60 * 60 * 1000

abbrev pub or_zero : Option ℕ → ℕ
or_zero none = 0
or_zero (some n) = n

abbrev pub is_watch : Option WatchView → Bool
is_watch none = false
is_watch (some w) = true

abbrev pub was_told : ℕ → WatchState → Bool
was_told clock state = ltb (clock - or_zero state.stalled_notice_at) stall_notice_every_ms

abbrev pub tell_watcher :
    String → StallReason → Bool → ℕ → FiringOutcome → List ScheduleRow → WatchView → Bool → Firing
tell_watcher id reason stopped clock outcome rows w true = record {
  rows = rows;
  notices = [];
  outcome = outcome;
}
tell_watcher id reason stopped clock outcome rows w false = record {
  rows = set_watch_state id (record w.state { stalled_notice_at = some clock }) rows;
  notices =
      record {
        schedule_id = id;
        owner = w.owner;
        reason = reason;
        stopped = stopped;
        notify = w.notify;
      }
      ∷ [];
  outcome = outcome;
}

-- `tellOwner`, and what the firing came to.
abbrev pub tell_if_watch :
    String → StallReason → Bool → ℕ → FiringOutcome → List ScheduleRow → Option WatchView → Firing
tell_if_watch id reason stopped clock outcome rows none = record {
  rows = rows;
  notices = [];
  outcome = outcome;
}
tell_if_watch id reason stopped clock outcome rows (some w) =
    tell_watcher id reason stopped clock outcome rows w (was_told clock w.state)

unfoldable pub tell_owner :
    String → StallReason → Bool → ℕ → FiringOutcome → List ScheduleRow → Firing
unfolding get_watch
tell_owner id reason stopped clock outcome rows =
    tell_if_watch id reason stopped clock outcome rows (get_watch id rows)

abbrev pub on_started : String → ℕ → Bool → List ScheduleRow → Option String → Firing
on_started id clock watch rows none = record { rows = rows; notices = []; outcome = not_started }
on_started id clock watch rows (some run) = record {
  rows = record_run id run clock rows;
  notices = [];
  outcome = fired run watch;
}

module _ (calendar : Calendar) (c : TierConfig) where
  -- `quota.ok`.
  abbrev pub on_quota : ScheduleRow → Asked → Bool → List ScheduleRow → Bool → Firing
  on_quota s asked watch rows false = tell_owner s.id quota_used false asked.clock exhausted rows
  on_quota s asked watch rows true = on_started s.id asked.clock watch rows asked.started

  unfoldable pub start_at_level : ScheduleRow → Asked → ℕ → List ScheduleRow → Firing
  unfolding get_quota get_watch
  start_at_level s asked level rows =
      let watch = is_watch (get_watch s.id rows) in
      on_quota s asked watch rows
        (get_quota c asked.runs s.owner level watch asked.clock).has_run_left

  abbrev pub on_allowed : ScheduleRow → Asked → ℕ → List ScheduleRow → Bool → Firing
  on_allowed s asked level rows false =
      tell_owner s.id tier_lost true asked.clock ineligible (deactivate s.id rows)
  on_allowed s asked level rows true = start_at_level s asked level rows

  abbrev pub on_balance : ScheduleRow → Asked → List ScheduleRow → Option ℕ → Firing
  on_balance s asked rows none = record { rows = rows; notices = []; outcome = unread }
  on_balance s asked rows (some balance) =
      on_allowed s asked (compute_tier c balance).level rows (compute_tier c balance).allowed

  -- `gatingEnabled()`.
  abbrev pub is_gated : Bool
  is_gated = not (c.mint == "")

  abbrev pub on_runnable : ScheduleRow → Asked → List ScheduleRow → Bool → Firing
  on_runnable s asked rows true = on_balance s asked rows asked.balance
  on_runnable s asked rows false = start_at_level s asked s.level rows

  abbrev pub is_runnable : ScheduleRow → Option SkillOwner → Bool
  is_runnable s none = false
  is_runnable s (some skill) = not (not (skill.owner == s.owner) && not skill.published)

  abbrev pub on_skill : ScheduleRow → Asked → List ScheduleRow → Bool → Firing
  on_skill s asked rows false = record { rows = deactivate s.id rows; notices = []; outcome = gone }
  on_skill s asked rows true = on_runnable s asked rows is_gated

  abbrev pub on_claim : ScheduleRow → Asked → List ScheduleRow → List ScheduleRow → Bool → Firing
  on_claim s asked rows claimed false = record { rows = rows; notices = []; outcome = lost }
  on_claim s asked rows claimed true = on_skill s asked claimed (is_runnable s asked.skill)

  -- A slot that the rolling did not reach is as a claim that is lost.
  abbrev pub at_slot : ScheduleRow → Asked → ℕ → List ScheduleRow → Option ℕ → Firing
  at_slot s asked now rows none = record { rows = rows; notices = []; outcome = lost }
  at_slot s asked now rows (some next) =
      on_claim s asked rows (claim_schedule s.id now next rows) (wins s.id now rows)

  unfoldable pub fire : ScheduleRow → Asked → ℕ → List ScheduleRow → Firing
  unfolding next_slot
  fire s asked now rows = at_slot s asked now rows (next_slot calendar s.cadence now s.next_run_at)

  -- The firings of the rows that were due, one after the other.
  unfoldable pub fire_each :
      (ScheduleRow → Asked)
      → ℕ
      → List ScheduleRow
      → List ScheduleRow
      → List ScheduleRow × List Stalled
  unfolding fire
  fire_each asks now [] rows = (rows, [])
  fire_each asks now (s ∷ due) rows =
      let f = fire s (asks s) now rows in
      let rest = fire_each asks now due f.rows in (rest.0, f.notices ++ rest.1)

  unfoldable pub run_due :
      (ScheduleRow → Asked) → ℕ → List ScheduleRow → List ScheduleRow × List Stalled
  unfolding fire_each due_schedules
  run_due asks now rows = fire_each asks now (due_schedules now rows) rows
