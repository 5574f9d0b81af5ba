-- ===== src/Schedules/Slots.antt =====
-- lib/schedules.ts: series of writes to the table, and the claims that they win.
use aemulus.Common.{
  ℕ, ◌≤◌, ◌≡◌, Bool, true, false, ◌&&◌, String, string_Eq, Option, List, [], ◌∷◌, ◌==◌,
}
use aemulus.Watches.Rules.{WatchRule}
use aemulus.Watches.Evaluate.{WatchState}
use aemulus.Schedules.{
  Calendar, Cadence, ScheduleRow, wins, claim_schedule, create_schedule, set_schedule_active,
  delete_schedule, record_run, deactivate, set_watch_state, mute_until, set_watch_notify, set_watch,
}

-- A write to the table, by the scheduler of some instance or by an owner.
pub data Write : Type 0 where
  claimed : String → ℕ → ℕ → Write
  created : String → String → String → String → Cadence → ℕ → ℕ → Write
  activated : String → String → Bool → Write
  deleted : String → String → Write
  ran : String → String → ℕ → Write
  deactivated : String → Write
  state_set : String → WatchState → Write
  muted : String → String → Option ℕ → Write
  notify_set : String → String → Option String → Write
  watch_set : String → String → WatchRule → Option String → Write

abbrev pub put_if : Bool → ℕ × ℕ → List (ℕ × ℕ) → List (ℕ × ℕ)
put_if true x xs = x ∷ xs
put_if false x xs = xs

module _ (calendar : Calendar) where
  unfoldable pub apply_write : Write → List ScheduleRow → List ScheduleRow
  apply_write (claimed id now next) rows = claim_schedule id now next rows
  apply_write (created sid owner skill_id input c level now) rows =
      create_schedule calendar sid owner skill_id input c level now rows
  apply_write (activated id owner active) rows = set_schedule_active id owner active rows
  apply_write (deleted id owner) rows = delete_schedule id owner rows
  apply_write (ran id run now) rows = record_run id run now rows
  apply_write (deactivated id) rows = deactivate id rows
  apply_write (state_set id state) rows = set_watch_state id state rows
  apply_write (muted id owner until) rows = mute_until id owner until rows
  apply_write (notify_set id owner notify) rows = set_watch_notify id owner notify rows
  apply_write (watch_set id owner rule notify) rows = set_watch id owner rule notify rows

  -- The claim of a schedule that a write makes, and whether it wins.
  abbrev pub won_now : String → Write → List ScheduleRow → List (ℕ × ℕ) → List (ℕ × ℕ)
  won_now sid (claimed id now next) rows rest =
      put_if (wins id now rows && (id == sid)) (now, next) rest
  won_now sid w rows rest = rest

  -- The claims of a schedule that are won: when, and the slot that each sets.
  unfoldable pub won_claims : String → List Write → List ScheduleRow → List (ℕ × ℕ)
  unfolding apply_write
  won_claims sid [] rows = []
  won_claims sid (w ∷ ws) rows = won_now sid w rows (won_claims sid ws (apply_write w rows))

-- Each claim is made no sooner than the slot that the one before set.
abbrev pub AreInTurn : ℕ → List (ℕ × ℕ) → Type 0
AreInTurn slot [] = Unit
AreInTurn slot ((now, next) ∷ claims) = (slot ≤ now) × AreInTurn next claims

-- At most one row, which is not due before the slot.
abbrev pub IsFrom : ℕ → List ScheduleRow → Type 0
IsFrom slot [] = Unit
IsFrom slot (r ∷ []) = slot ≤ r.next_run_at
IsFrom slot (r ∷ q ∷ rows) = ⊥

-- A new row does not take the id.
abbrev pub Spares : String → Write → Type 0
Spares sid (created id owner skill_id input c level now) = (id == sid) ≡ false
Spares sid w = Unit
