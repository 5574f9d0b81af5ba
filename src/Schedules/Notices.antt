-- ===== src/Schedules/Notices.antt =====
-- lib/scheduler.ts: what the owner of a watch is told of firings that were skipped.
use aemulus.Common.{
  ℕ, ◌-◌, ◌≡◌, refl, sym, ap, subst, inl, inr, Bool, true, false, String, string_Eq, Option, none,
  some, List, [], ◌∷◌, ltb, Option-cases, arith,
}
use aemulus.Runs.Tiers.{TierConfig, compute_tier}
use aemulus.Watches.Evaluate.{WatchState}
use aemulus.Watches.Alerts.{AreApart}
use aemulus.Schedules.{
  Calendar, ScheduleRow, WatchView, get_watch, wins, claim_schedule, deactivate,
}
use aemulus.Schedules.Rolling.{next_slot}
use aemulus.Schedules.Firing.{
  Asked, Stalled, StallReason, FiringOutcome, ineligible, exhausted, Firing, or_zero, quota_used,
  tier_lost, stall_notice_every_ms, was_told, tell_watcher, tell_if_watch, tell_owner, on_started,
  on_quota, start_at_level, on_allowed, on_balance, is_gated, is_runnable, on_skill, on_claim,
  at_slot, fire,
}
use aemulus.Schedules.Watched.{
  get_watch-claim_schedule, get_watch-deactivate, get_watch-record_run, get_watch-set_watch_state,
}

abbrev notice_at : Option WatchView → Option ℕ
notice_at none = none
notice_at (some w) = w.state.stalled_notice_at

-- When the owner was told last.
abbrev pub last_notice : String → List ScheduleRow → Option ℕ
last_notice id rows = notice_at (get_watch id rows)

-- Nothing is told and the last notice stands, or one notice is told apart from the last and noted.
abbrev pub Paces : Option ℕ → ℕ → List Stalled → Option ℕ → Type 0
Paces last clock [] last' = last' ≡ last
Paces last clock (n ∷ []) last' = AreApart stall_notice_every_ms last clock × (last' ≡ some clock)
Paces last clock (n ∷ m ∷ ns) last' = ⊥

module _ (id : String) (clock : ℕ) where
  abbrev Keeps : List ScheduleRow → Firing → Type 0
  Keeps rows f = Paces (last_notice id rows) clock f.notices (last_notice id f.rows)

  was_told-false :
      (state : WatchState)
      → was_told clock state ≡ false
      → AreApart stall_notice_every_ms state.stalled_notice_at clock
  was_told-false state h = elim (Option-cases state.stalled_notice_at) [
    | inl k ↦ rw k tt
    | inr (n, k) ↦
        rw k
          (ground (arith, subst (λ o. ltb (clock - or_zero o) stall_notice_every_ms ≡ false) k h))
  ]

  tell_watcher-Keeps :
      (reason : StallReason) (stopped : Bool) (o : FiringOutcome) (rows : List ScheduleRow)
      (w : WatchView) (b : Bool)
      → get_watch id rows ≡ some w
      → was_told clock w.state ≡ b
      → Keeps rows (tell_watcher id reason stopped clock o rows w b)
  tell_watcher-Keeps reason stopped o rows w true h k = refl
  tell_watcher-Keeps reason stopped o rows w false h k = (
    subst (λ x. AreApart stall_notice_every_ms x clock) (sym (ap notice_at h))
        (was_told-false w.state k),
    ap notice_at
        (get_watch-set_watch_state id (record w.state { stalled_notice_at = some clock }) rows w h),
  )

  tell_if_watch-Keeps :
      (reason : StallReason) (stopped : Bool) (o : FiringOutcome) (rows : List ScheduleRow)
      (w : Option WatchView)
      → get_watch id rows ≡ w
      → Keeps rows (tell_if_watch id reason stopped clock o rows w)
  tell_if_watch-Keeps reason stopped o rows none h = refl
  tell_if_watch-Keeps reason stopped o rows (some w) h =
      tell_watcher-Keeps reason stopped o rows w (was_told clock w.state) h refl

  tell_owner-Keeps :
      (reason : StallReason) (stopped : Bool) (o : FiringOutcome) (rows : List ScheduleRow)
      → Keeps rows (tell_owner id reason stopped clock o rows)
  unfolding tell_owner
  tell_owner-Keeps reason stopped o rows =
      tell_if_watch-Keeps reason stopped o rows (get_watch id rows) refl

  on_started-Keeps :
      (watch : Bool) (rows : List ScheduleRow) (started : Option String)
      → Keeps rows (on_started id clock watch rows started)
  on_started-Keeps watch rows none = refl
  on_started-Keeps watch rows (some run) = ap notice_at (get_watch-record_run id id run clock rows)

module _ (calendar : Calendar) (c : TierConfig) (s : ScheduleRow) (asked : Asked) where
  on_quota-Keeps :
      (watch : Bool) (rows : List ScheduleRow) (b : Bool)
      → Keeps s.id asked.clock rows (on_quota calendar c s asked watch rows b)
  on_quota-Keeps watch rows false =
      tell_owner-Keeps s.id asked.clock quota_used false exhausted rows
  on_quota-Keeps watch rows true = on_started-Keeps s.id asked.clock watch rows asked.started

  start_at_level-Keeps :
      (level : ℕ) (rows : List ScheduleRow)
      → Keeps s.id asked.clock rows (start_at_level calendar c s asked level rows)
  unfolding start_at_level
  start_at_level-Keeps level rows = on_quota-Keeps _ rows _

  on_allowed-Keeps :
      (level : ℕ) (rows : List ScheduleRow) (b : Bool)
      → Keeps s.id asked.clock rows (on_allowed calendar c s asked level rows b)
  on_allowed-Keeps level rows true = start_at_level-Keeps level rows
  on_allowed-Keeps level rows false =
      subst
        (λ x.
          Paces x asked.clock
            (tell_owner s.id tier_lost true asked.clock ineligible (deactivate s.id rows)).notices
            (last_notice s.id
              (tell_owner s.id tier_lost true asked.clock ineligible (deactivate s.id rows)).rows))
        (ap notice_at (get_watch-deactivate s.id s.id rows))
        (tell_owner-Keeps s.id asked.clock tier_lost true ineligible (deactivate s.id rows))

  on_balance-Keeps :
      (rows : List ScheduleRow) (balance : Option ℕ)
      → Keeps s.id asked.clock rows (on_balance calendar c s asked rows balance)
  on_balance-Keeps rows none = refl
  on_balance-Keeps rows (some n) =
      on_allowed-Keeps (compute_tier c n).level rows (compute_tier c n).allowed

  on_skill-Keeps :
      (rows : List ScheduleRow) (gated b : Bool)
      → is_gated calendar c ≡ gated
      → Keeps s.id asked.clock rows (on_skill calendar c s asked rows b)
  on_skill-Keeps rows gated false g = ap notice_at (get_watch-deactivate s.id s.id rows)
  on_skill-Keeps rows true true g = rw g (on_balance-Keeps rows asked.balance)
  on_skill-Keeps rows false true g = rw g (start_at_level-Keeps s.level rows)

  on_claim-Keeps :
      (rows : List ScheduleRow) (now next : ℕ) (b : Bool)
      → Keeps s.id asked.clock rows
          (on_claim calendar c s asked rows (claim_schedule s.id now next rows) b)
  on_claim-Keeps rows now next false = refl
  on_claim-Keeps rows now next true =
      subst
        (λ x.
          Paces x asked.clock
            (on_skill calendar c s asked (claim_schedule s.id now next rows)
              (is_runnable calendar c s asked.skill)).notices
            (last_notice s.id
              (on_skill calendar c s asked (claim_schedule s.id now next rows)
                (is_runnable calendar c s asked.skill)).rows))
        (ap notice_at (get_watch-claim_schedule s.id s.id now next rows))
        (on_skill-Keeps (claim_schedule s.id now next rows) (is_gated calendar c)
          (is_runnable calendar c s asked.skill) refl)

  at_slot-Keeps :
      (now : ℕ) (rows : List ScheduleRow) (slot : Option ℕ)
      → Keeps s.id asked.clock rows (at_slot calendar c s asked now rows slot)
  at_slot-Keeps now rows none = refl
  at_slot-Keeps now rows (some next) = on_claim-Keeps rows now next (wins s.id now rows)

module _ (calendar : Calendar) (c : TierConfig) where
  -- A firing tells the owner of at most one skipped check: either of none, and the time of the
  -- last notice that the watch's state holds is left as it was, or of one, at least 20 hours
  -- after that time where there is one, and its own time is put in its place.
  pub fire-Paces :
      (s : ScheduleRow) (asked : Asked) (now : ℕ) (rows : List ScheduleRow)
      → Paces
          (last_notice s.id rows)
          asked.clock
          (fire calendar c s asked now rows).notices
          (last_notice s.id (fire calendar c s asked now rows).rows)
  unfolding fire
  fire-Paces s asked now rows =
      at_slot-Keeps calendar c s asked now rows (next_slot calendar s.cadence now s.next_run_at)
