-- ===== src/Schedules.antt =====
-- lib/schedules.ts: the rows of the scheduled runs, and the writes to them.
pub mod Rolling
pub mod Firing
pub mod Watched
pub mod Slots
pub mod Turns
pub mod Notices
pub mod Forgotten
pub mod Skipped
mod Tests
use aemulus.Common.{
  ℕ, zero, suc, ◌+◌, ◌*◌, Bool, true, false, not, ◌&&◌, ◌||◌, String, string_Eq, Option, none, some,
  List, [], ◌∷◌, ◌++◌, map, length, ltb, leb, nat_eq, ◌==◌, if◌then◌else◌, keep, any, find, sort,
  take,
}
use aemulus.Common.Int.{ℤ, pos, negsuc}
use aemulus.Watches.Rules.{WatchRule}
use aemulus.Watches.Evaluate.{WatchState, empty_state}

pub data Cadence : Type 0 where
  every10m every15m every30m hourly every6h every12h daily weekdays weekly : Cadence

abbrev pub min_ms : ℕ
min_ms = 60000

abbrev pub hour_ms : ℕ
hour_ms = 3600000

abbrev pub day_ms : ℕ
day_ms = 86400000

abbrev pub cadence_ms : Cadence → ℕ
cadence_ms every10m = 10 * min_ms
cadence_ms every15m = 15 * min_ms
cadence_ms every30m = 30 * min_ms
cadence_ms hourly = hour_ms
cadence_ms every6h = 6 * hour_ms
cadence_ms every12h = 12 * hour_ms
cadence_ms daily = day_ms
cadence_ms weekdays = day_ms
cadence_ms weekly = 7 * day_ms

abbrev pub checks_per_day : Cadence → ℕ
checks_per_day every10m = 144
checks_per_day every15m = 96
checks_per_day every30m = 48
checks_per_day hourly = 24
checks_per_day every6h = 4
checks_per_day every12h = 2
checks_per_day daily = 1
checks_per_day weekdays = 1
checks_per_day weekly = 1

abbrev pub all_cadences : List Cadence
all_cadences =
    every10m ∷ every15m ∷ every30m ∷ hourly ∷ every6h ∷ every12h ∷ daily ∷ weekdays ∷ weekly ∷ []

unfoldable pub affordable_cadences : ℤ → List Cadence
affordable_cadences (negsuc k) = all_cadences
affordable_cadences (pos limit) = keep (λ c. leb (checks_per_day c) limit) all_cadences

-- What the code takes from `Date`: the day of the week, 0 for Sunday, and `setDate`.
pub record Calendar : Type 0 where
  pub get_day : ℕ → ℕ
  pub add_days : ℕ → ℕ → ℕ

abbrev pub past_weekend : Calendar → ℕ → ℕ
past_weekend calendar d =
    if nat_eq (calendar.get_day d) 6
    then calendar.add_days 2 d
    else if nat_eq (calendar.get_day d) 0
    then calendar.add_days 1 d
    else d

abbrev pub is_weekdays : Cadence → Bool
is_weekdays weekdays = true
is_weekdays c = false

unfoldable pub next_run_after : Calendar → Cadence → ℕ → ℕ
next_run_after calendar c from =
    if is_weekdays c then past_weekend calendar (from + day_ms) else from + cadence_ms c

-- A watch's `notify` and a schedule's `input` are kept as texts; the name of the tier, which stands for
-- its level, and the watch's action are left out.
pub record ScheduleRow : Type 0 where
  pub id : String
  pub owner : String
  pub skill_id : String
  pub input : String
  pub cadence : Cadence
  pub level : ℕ
  pub active : Bool
  pub last_run_id : Option String
  pub last_run_at : Option ℕ
  pub next_run_at : ℕ
  pub created_at : ℕ
  pub watch_rule : Option WatchRule
  pub watch_state : Option WatchState
  pub notify : Option String
  pub muted_until : Option ℕ

-- `UPDATE schedules SET ... WHERE ...`, and `rowsAffected > 0`.
unfoldable pub update_where :
    (ScheduleRow → Bool) → (ScheduleRow → ScheduleRow) → List ScheduleRow → List ScheduleRow
update_where p f [] = []
update_where p f (r ∷ rows) = (if p r then f r else r) ∷ update_where p f rows

abbrev pub has_id : String → ScheduleRow → Bool
has_id id r = r.id == id

abbrev pub is_own : String → String → ScheduleRow → Bool
is_own id owner r = (r.id == id) && (r.owner == owner)

unfoldable pub create_schedule :
    Calendar
    → String
    → String
    → String
    → String
    → Cadence
    → ℕ
    → ℕ
    → List ScheduleRow
    → List ScheduleRow
unfolding next_run_after
create_schedule calendar sid owner skill_id input cadence level now rows =
    rows
    ++ record {
      id = sid;
      owner = owner;
      skill_id = skill_id;
      input = input;
      cadence = cadence;
      level = level;
      active = true;
      last_run_id = none;
      last_run_at = none;
      next_run_at = next_run_after calendar cadence now;
      created_at = now;
      watch_rule = none;
      watch_state = none;
      notify = none;
      muted_until = none;
    }
      ∷ []

unfoldable pub count_active_schedules : String → List ScheduleRow → ℕ
count_active_schedules owner rows = length (keep (λ r. (r.owner == owner) && r.active) rows)

unfoldable pub count_all_schedules : String → List ScheduleRow → ℕ
count_all_schedules owner rows = length (keep (λ r. r.owner == owner) rows)

unfoldable pub set_schedule_active : String → String → Bool → List ScheduleRow → List ScheduleRow
unfolding update_where
set_schedule_active id owner active rows =
    update_where (is_own id owner) (λ r. record r { active = active }) rows

unfoldable pub delete_schedule : String → String → List ScheduleRow → List ScheduleRow
delete_schedule id owner rows = keep (λ r. not (is_own id owner r)) rows

-- `active = 1 AND next_run_at <= ?`.
abbrev pub is_ripe : ℕ → ScheduleRow → Bool
is_ripe now r = r.active && leb r.next_run_at now

unfoldable pub due_schedules : ℕ → List ScheduleRow → List ScheduleRow
due_schedules now rows =
    take 25 (sort (λ a b. ltb a.next_run_at b.next_run_at) (keep (is_ripe now) rows))

abbrev pub is_claimable : String → ℕ → ScheduleRow → Bool
is_claimable id now r = (r.id == id) && is_ripe now r

-- Whether the claim is won.
unfoldable pub wins : String → ℕ → List ScheduleRow → Bool
wins id now rows = any (is_claimable id now) rows

unfoldable pub claim_schedule : String → ℕ → ℕ → List ScheduleRow → List ScheduleRow
unfolding update_where
claim_schedule id now next rows =
    update_where (is_claimable id now) (λ r. record r { next_run_at = next }) rows

unfoldable pub record_run : String → String → ℕ → List ScheduleRow → List ScheduleRow
unfolding update_where
record_run id run now rows =
    update_where (has_id id) (λ r. record r { last_run_id = some run; last_run_at = some now }) rows

unfoldable pub deactivate : String → List ScheduleRow → List ScheduleRow
unfolding update_where
deactivate id rows = update_where (has_id id) (λ r. record r { active = false }) rows

unfoldable pub set_watch_state : String → WatchState → List ScheduleRow → List ScheduleRow
unfolding update_where
set_watch_state id state rows =
    update_where (has_id id) (λ r. record r { watch_state = some state }) rows

unfoldable pub mute_until : String → String → Option ℕ → List ScheduleRow → List ScheduleRow
unfolding update_where
mute_until id owner until rows =
    update_where (is_own id owner) (λ r. record r { muted_until = until }) rows

unfoldable pub set_watch_notify :
    String → String → Option String → List ScheduleRow → List ScheduleRow
unfolding update_where
set_watch_notify id owner notify rows =
    update_where (is_own id owner) (λ r. record r { notify = notify }) rows

unfoldable pub set_watch :
    String → String → WatchRule → Option String → List ScheduleRow → List ScheduleRow
unfolding update_where
set_watch id owner rule notify rows =
    update_where (is_own id owner)
      (λ r. record r { watch_rule = some rule; notify = notify; watch_state = some empty_state })
      rows

pub record WatchView : Type 0 where
  pub owner : String
  pub state : WatchState
  pub notify : Option String

abbrev pub or_fresh : Option WatchState → WatchState
or_fresh none = empty_state
or_fresh (some s) = s

-- A rule that does not parse is as none.
abbrev pub view_of : ScheduleRow → Option WatchRule → Option WatchView
view_of r none = none
view_of r (some rule) =
    some (record { owner = r.owner; state = or_fresh r.watch_state; notify = r.notify })

abbrev pub watch_of : Option ScheduleRow → Option WatchView
watch_of none = none
watch_of (some r) = view_of r r.watch_rule

unfoldable pub get_watch : String → List ScheduleRow → Option WatchView
get_watch id rows = watch_of (find (has_id id) rows)
