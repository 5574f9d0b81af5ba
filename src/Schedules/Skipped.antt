-- ===== src/Schedules/Skipped.antt =====
-- lib/scheduler.ts: what a firing came to, and what that takes.
use aemulus.Common.{
  ℕ, ◌≡◌, refl, sym, ap, ◌∙◌, subst, inl, inr, Bool, true, false, String, string_Eq, Option, none,
  some, List, [], ◌∷◌, Bool-cases, Option-cases, arith,
}
use aemulus.Runs.Tiers.{TierConfig, compute_tier, get_quota}
use aemulus.Schedules.Watched.{get_watch-claim_schedule}
use aemulus.Schedules.{
  update_where, Calendar, ScheduleRow, WatchView, get_watch, wins, claim_schedule, deactivate,
}
use aemulus.Schedules.Rolling.{IsForward, next_slot, next_slot_ends}
use aemulus.Schedules.Firing.{
  Asked, StallReason, FiringOutcome, gone, ineligible, exhausted, fired, is_watch, quota_used,
  tier_lost, was_told, tell_watcher, tell_owner, on_started, on_quota, start_at_level, on_allowed,
  on_balance, is_gated, on_runnable, is_runnable, on_skill, on_claim, at_slot, fire,
}

module _ (calendar : Calendar) (c : TierConfig) where
  -- The level that a run is metered at: the one that was stored, or where a token is configured, that of the balance that was read, which is to be allowed.
  abbrev pub HasLevel : ScheduleRow → Asked → ℕ → Bool → Type 0
  HasLevel s asked level false = level ≡ s.level
  HasLevel s asked level true =
      (balance : ℕ) × ((asked.balance ≡ some balance)
        × (((compute_tier c balance).allowed ≡ true) × ((compute_tier c balance).level ≡ level)))

  pub record IsEntitled (s : ScheduleRow) (asked : Asked) (watch : Bool) : Type 0 where
    pub level : ℕ
    pub level_of : HasLevel s asked level (is_gated calendar c)
    pub has_run_left : (get_quota c asked.runs s.owner level watch asked.clock).has_run_left ≡ true

  tell_owner-outcome :
      (id : String) (reason : StallReason) (stopped : Bool) (clock : ℕ) (o : FiringOutcome)
      (rows : List ScheduleRow)
      → (tell_owner id reason stopped clock o rows).outcome ≡ o
  unfolding tell_owner
  tell_owner-outcome id reason stopped clock o rows = elim (Option-cases (get_watch id rows)) [
    | inl k ↦ rw k refl
    | inr (w, k) ↦ rw k (told_outcome w (was_told clock w.state))
  ]
    where
      told_outcome :
          (w : WatchView) (b : Bool) → (tell_watcher id reason stopped clock o rows w b).outcome ≡ o
      told_outcome w true = refl
      told_outcome w false = refl

  on_started-fired :
      (id run : String) (clock : ℕ) (watch w : Bool) (rows : List ScheduleRow)
      (started : Option String)
      → (on_started id clock watch rows started).outcome ≡ fired run w
      → (started ≡ some run) × (watch ≡ w)
  on_started-fired id run clock watch w rows none h = absurd cc
  on_started-fired id run clock watch w rows (some r) h = (cc, cc)

  on_quota-fired :
      (s : ScheduleRow) (asked : Asked) (watch w : Bool) (rows : List ScheduleRow) (run : String)
      (b : Bool)
      → (on_quota calendar c s asked watch rows b).outcome ≡ fired run w
      → (b ≡ true) × ((asked.started ≡ some run) × (watch ≡ w))
  on_quota-fired s asked watch w rows run false h =
      let e = tell_owner-outcome s.id quota_used false asked.clock exhausted rows in absurd cc
  on_quota-fired s asked watch w rows run true h =
      (refl, on_started-fired s.id run asked.clock watch w rows asked.started h)

  start_at_level-fired :
      (s : ScheduleRow) (asked : Asked) (level : ℕ) (w : Bool) (rows : List ScheduleRow)
      (run : String)
      → (start_at_level calendar c s asked level rows).outcome ≡ fired run w
      → ((get_quota c asked.runs s.owner level w asked.clock).has_run_left ≡ true)
        × ((asked.started ≡ some run) × (is_watch (get_watch s.id rows) ≡ w))
  unfolding start_at_level
  start_at_level-fired s asked level w rows run h =
      let k =
        on_quota-fired s asked (is_watch (get_watch s.id rows)) w rows run
          (get_quota c asked.runs s.owner level (is_watch (get_watch s.id rows))
            asked.clock).has_run_left
          h in
      (
        subst (λ x. (get_quota c asked.runs s.owner level x asked.clock).has_run_left ≡ true) k.1.1
            k.0,
        k.1,
      )

  HasLevel-start :
      (s : ScheduleRow) (asked : Asked) (w : Bool) (rows : List ScheduleRow) (run : String)
      (level : ℕ)
      → HasLevel s asked level (is_gated calendar c)
      → (start_at_level calendar c s asked level rows).outcome ≡ fired run w
      → IsEntitled s asked w × ((asked.started ≡ some run) × (is_watch (get_watch s.id rows) ≡ w))
  HasLevel-start s asked w rows run level l h =
      let k = start_at_level-fired s asked level w rows run h in
      (record { level = level; level_of = l; has_run_left = k.0 }, k.1)

  on_balance-fired :
      (s : ScheduleRow) (asked : Asked) (w : Bool) (rows : List ScheduleRow) (run : String)
      (balance : Option ℕ)
      → asked.balance ≡ balance
      → is_gated calendar c ≡ true
      → (on_balance calendar c s asked rows balance).outcome ≡ fired run w
      → IsEntitled s asked w × ((asked.started ≡ some run) × (is_watch (get_watch s.id rows) ≡ w))
  on_balance-fired s asked w rows run none b g h = absurd cc
  on_balance-fired s asked w rows run (some n) b g h =
      elim (Bool-cases (compute_tier c n).allowed) [
        | inl a ↦
            HasLevel-start s asked w rows run (compute_tier c n).level
              (subst (HasLevel s asked (compute_tier c n).level) (sym g) (n, (b, (a, refl))))
              (subst
                (λ x.
                  (on_allowed calendar c s asked (compute_tier c n).level rows x).outcome
                  ≡ fired run w)
                a h)
        | inr a ↦
            let k : (on_allowed calendar c s asked (compute_tier c n).level rows false).outcome
                ≡ fired run w =
              subst
                (λ x.
                  (on_allowed calendar c s asked (compute_tier c n).level rows x).outcome
                  ≡ fired run w)
                a h in
            let e =
              tell_owner-outcome s.id tier_lost true asked.clock ineligible
                (deactivate s.id rows) in
            absurd cc
      ]

  on_runnable-fired :
      (s : ScheduleRow) (asked : Asked) (w : Bool) (rows : List ScheduleRow) (run : String)
      (b : Bool)
      → is_gated calendar c ≡ b
      → (on_runnable calendar c s asked rows b).outcome ≡ fired run w
      → IsEntitled s asked w × ((asked.started ≡ some run) × (is_watch (get_watch s.id rows) ≡ w))
  on_runnable-fired s asked w rows run true g h =
      on_balance-fired s asked w rows run asked.balance refl g h
  on_runnable-fired s asked w rows run false g h =
      HasLevel-start s asked w rows run s.level (subst (HasLevel s asked s.level) (sym g) refl) h

  on_skill-fired :
      (s : ScheduleRow) (asked : Asked) (w : Bool) (rows : List ScheduleRow) (run : String)
      (b : Bool)
      → (on_skill calendar c s asked rows b).outcome ≡ fired run w
      → (b ≡ true)
        × (IsEntitled s asked w
            × ((asked.started ≡ some run) × (is_watch (get_watch s.id rows) ≡ w)))
  on_skill-fired s asked w rows run false h = absurd cc
  on_skill-fired s asked w rows run true h =
      (refl, on_runnable-fired s asked w rows run (is_gated calendar c) refl h)

  -- What a run that a firing started rests on.
  pub record IsDue (s : ScheduleRow) (asked : Asked) (now : ℕ) (rows : List ScheduleRow)
      (run : String) (watch : Bool) : Type 0 where
    pub won : wins s.id now rows ≡ true
    pub runnable : is_runnable calendar c s asked.skill ≡ true
    pub entitled : IsEntitled s asked watch
    pub started : asked.started ≡ some run
    pub metered : is_watch (get_watch s.id rows) ≡ watch

  at_slot-fired :
      (s : ScheduleRow) (asked : Asked) (now : ℕ) (rows : List ScheduleRow) (run : String)
      (watch : Bool) (slot : Option ℕ)
      → (at_slot calendar c s asked now rows slot).outcome ≡ fired run watch
      → IsDue s asked now rows run watch
  at_slot-fired s asked now rows run watch none h = absurd cc
  at_slot-fired s asked now rows run watch (some next) h = elim (Bool-cases (wins s.id now rows)) [
    | inr lose ↦
        let k : (on_claim calendar c s asked rows (claim_schedule s.id now next rows) false).outcome
            ≡ fired run watch =
          subst
            (λ b.
              (on_claim calendar c s asked rows (claim_schedule s.id now next rows) b).outcome
              ≡ fired run watch)
            lose h in
        absurd cc
    | inl win ↦
        let k =
          on_skill-fired s asked watch (claim_schedule s.id now next rows) run
            (is_runnable calendar c s asked.skill)
            (subst
              (λ b.
                (on_claim calendar c s asked rows (claim_schedule s.id now next rows) b).outcome
                ≡ fired run watch)
              win h) in
        record {
          won = win;
          runnable = k.0;
          entitled = k.1.0;
          started = k.1.1.0;
          metered = ap is_watch (sym (get_watch-claim_schedule s.id s.id now next rows)) ∙ k.1.1.1;
        }
  ]

  -- A firing that starts a run has won its claim; the skill is there, and the owner's or
  -- published; where a token is configured the owner's balance was read and its tier allows runs;
  -- and the quota of the kind of run, a watch check just where the schedule has a watch, has a
  -- run left at the level of that tier, or at the stored level where no token is configured.
  pub fire-IsDue :
      (s : ScheduleRow) (asked : Asked) (now : ℕ) (rows : List ScheduleRow) (run : String)
      (watch : Bool)
      → (fire calendar c s asked now rows).outcome ≡ fired run watch
      → IsDue s asked now rows run watch
  unfolding fire
  fire-IsDue s asked now rows run watch h =
      at_slot-fired s asked now rows run watch (next_slot calendar s.cadence now s.next_run_at) h

  wins-deactivate :
      (id : String) (now : ℕ) (rows : List ScheduleRow) → wins id now (deactivate id rows) ≡ false
  unfolding wins deactivate update_where
  wins-deactivate id now [] = refl
  wins-deactivate id now (r ∷ rows) = ground (arith, wins-deactivate id now rows)

  -- Where adding days does not move a time back, a firing that has won its claim and whose skill
  -- is gone, or neither the owner's nor published, tells nobody, and no later claim of the
  -- schedule is won while it is as the firing left it.
  pub fire-gone :
      (s : ScheduleRow) (asked : Asked) (now later : ℕ) (rows : List ScheduleRow)
      → IsForward calendar
      → wins s.id now rows ≡ true
      → is_runnable calendar c s asked.skill ≡ false
      → ((fire calendar c s asked now rows).notices ≡ [])
        × (wins s.id later (fire calendar c s asked now rows).rows ≡ false)
  unfolding fire
  fire-gone s asked now later rows f w g =
      let found = next_slot_ends calendar s.cadence now s.next_run_at f in
      let e : at_slot calendar c s asked now rows (next_slot calendar s.cadence now s.next_run_at)
          ≡ record {
            rows = deactivate s.id (claim_schedule s.id now found.0 rows);
            notices = [];
            outcome = gone;
          } =
        ap (at_slot calendar c s asked now rows) found.1.0
        ∙ ap (on_claim calendar c s asked rows (claim_schedule s.id now found.0 rows)) w
        ∙ ap (on_skill calendar c s asked (claim_schedule s.id now found.0 rows)) g in
      (
        ap (λ x. x.notices) e,
        ap (λ x. wins s.id later x.rows) e
            ∙ wins-deactivate s.id later (claim_schedule s.id now found.0 rows),
      )
