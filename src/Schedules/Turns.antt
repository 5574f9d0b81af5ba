-- ===== src/Schedules/Turns.antt =====
-- lib/schedules.ts: whoever claims a firing, the firings of a schedule stand in order.
use mathlib.Core.List.{append-nil}
use aemulus.Common.{
  ℕ, ◌≤◌, ◌≡◌, refl, sym, ap, ◌∙◌, subst, inl, inr, Bool, true, false, ◌&&◌, String, string_Eq,
  List, [], ◌∷◌, ◌++◌, ◌==◌, keep, keep-yes, keep-no, keep-append, any, All, Bool-cases, arith,
}
use aemulus.Schedules.{
  Calendar, Cadence, ScheduleRow, update_where, has_id, is_claimable, wins, claim_schedule,
  create_schedule, set_schedule_active, delete_schedule, record_run, deactivate, set_watch_state,
  mute_until, set_watch_notify, set_watch,
}
use aemulus.Schedules.Slots.{
  Write, claimed, created, activated, deleted, ran, deactivated, state_set, muted, notify_set,
  watch_set, apply_write, put_if, won_claims, AreInTurn, IsFrom, Spares,
}

module _ (sid : String) where
  abbrev of_sid : List ScheduleRow → List ScheduleRow
  of_sid rows = keep (has_id sid) rows

  -- A write that leaves the ids as they are, at the rows of one of them.
  keep-update_where :
      (p : ScheduleRow → Bool) (f : ScheduleRow → ScheduleRow) (rows : List ScheduleRow)
      → ((r : ScheduleRow) → (f r).id ≡ r.id)
      → of_sid (update_where p f rows) ≡ update_where p f (of_sid rows)
  unfolding update_where
  keep-update_where p f [] k = refl
  keep-update_where p f (r ∷ rows) k = ground (arith, keep-update_where p f rows k, k r)

  IsFrom-update_where :
      (p : ScheduleRow → Bool) (f : ScheduleRow → ScheduleRow) (slot : ℕ) (rows : List ScheduleRow)
      → ((r : ScheduleRow) → (f r).next_run_at ≡ r.next_run_at)
      → IsFrom slot rows
      → IsFrom slot (update_where p f rows)
  unfolding update_where
  IsFrom-update_where p f slot [] k h = tt
  IsFrom-update_where p f slot (r ∷ []) k h = ground (arith, k r)
  IsFrom-update_where p f slot (r ∷ q ∷ rows) k h = absurd h

  keep-keep :
      (p q : ScheduleRow → Bool) (rows : List ScheduleRow)
      → keep q (keep p rows) ≡ keep p (keep q rows)
  keep-keep p q [] = refl
  keep-keep p q (r ∷ rows) = ground (arith, keep-keep p q rows)

  IsFrom-keep :
      (p : ScheduleRow → Bool) (slot : ℕ) (rows : List ScheduleRow)
      → IsFrom slot rows
      → IsFrom slot (keep p rows)
  IsFrom-keep p slot [] h = tt
  IsFrom-keep p slot (r ∷ []) h = elim (Bool-cases (p r)) [
    | inl k ↦ subst (IsFrom slot) (sym (keep-yes p r [] k)) h
    | inr k ↦ subst (IsFrom slot) (sym (keep-no p r [] k)) tt
  ]
  IsFrom-keep p slot (r ∷ q ∷ rows) h = absurd h

  keep-own : (rows : List ScheduleRow) → All (λ r. has_id sid r ≡ true) (of_sid rows)
  keep-own [] = tt
  keep-own (r ∷ rows) = elim (Bool-cases (has_id sid r)) [
    | inl k ↦ subst (All _) (sym (keep-yes (has_id sid) r rows k)) (k, keep-own rows)
    | inr k ↦ subst (All _) (sym (keep-no (has_id sid) r rows k)) (keep-own rows)
  ]

  -- Only the rows of the schedule let a claim of it win.
  wins-of_sid :
      (id : String) (now : ℕ) (rows : List ScheduleRow)
      → (wins id now rows && (id == sid)) ≡ (any (is_claimable id now) (of_sid rows) && (id == sid))
  unfolding wins
  wins-of_sid id now [] = refl
  wins-of_sid id now (r ∷ rows) = ground (
    arith,
    wins-of_sid id now rows,
    string_Eq.decides r.id sid,
    string_Eq.decides r.id id,
    string_Eq.decides id sid,
  )

  -- What a claim comes to, won or not.
  abbrev Turned : Bool → ℕ → ℕ → ℕ → List ScheduleRow → Type 0
  Turned true slot now next rows = (slot ≤ now) × IsFrom next rows
  Turned false slot now next rows = IsFrom slot rows

  claim_schedule-Turned :
      (id : String) (now next slot : ℕ) (rows : List ScheduleRow)
      → IsFrom slot rows
      → All (λ r. has_id sid r ≡ true) rows
      → Turned
          (any (is_claimable id now) rows && (id == sid))
          slot
          now
          next
          (claim_schedule id now next rows)
  unfolding claim_schedule update_where
  claim_schedule-Turned id now next slot [] h own = tt
  claim_schedule-Turned id now next slot (r ∷ []) h own =
      elim (Bool-cases (is_claimable id now r)) [
        | inl k ↦
            let same : (id == sid) ≡ true = ground (
              arith,
              string_Eq.decides r.id sid,
              string_Eq.decides r.id id,
              string_Eq.decides id sid,
            ) in
            rw k (rw same (ground arith, omega arith))
        | inr k ↦ rw k h
      ]
  claim_schedule-Turned id now next slot (r ∷ q ∷ rows) h own = absurd h

  -- What the table says of the schedule after each kind of write.
  apply_update :
      (p : ScheduleRow → Bool) (f : ScheduleRow → ScheduleRow) (slot : ℕ) (rows : List ScheduleRow)
      → ((r : ScheduleRow) → (f r).id ≡ r.id)
      → ((r : ScheduleRow) → (f r).next_run_at ≡ r.next_run_at)
      → IsFrom slot (of_sid rows)
      → IsFrom slot (of_sid (update_where p f rows))
  apply_update p f slot rows k n h =
      subst (IsFrom slot) (sym (keep-update_where p f rows k))
        (IsFrom-update_where p f slot (of_sid rows) n h)

  claim_schedule-of_sid :
      (id : String) (now next : ℕ) (rows : List ScheduleRow)
      → of_sid (claim_schedule id now next rows) ≡ claim_schedule id now next (of_sid rows)
  unfolding claim_schedule
  claim_schedule-of_sid id now next rows = keep-update_where _ _ rows (λ r. refl)

  create_schedule-of_sid :
      (calendar : Calendar) (id owner skill_id input : String) (c : Cadence) (level now : ℕ)
      (rows : List ScheduleRow)
      → (id == sid) ≡ false
      → of_sid (create_schedule calendar id owner skill_id input c level now rows) ≡ of_sid rows
  unfolding create_schedule
  create_schedule-of_sid calendar id owner skill_id input c level now rows e =
      keep-append (has_id sid) rows _
      ∙ ap (λ t. of_sid rows ++ t) (keep-no (has_id sid) _ [] e)
      ∙ append-nil (of_sid rows)

  delete_schedule-of_sid :
      (id owner : String) (slot : ℕ) (rows : List ScheduleRow)
      → IsFrom slot (of_sid rows)
      → IsFrom slot (of_sid (delete_schedule id owner rows))
  unfolding delete_schedule
  delete_schedule-of_sid id owner slot rows h =
      subst (IsFrom slot) (sym (keep-keep _ (has_id sid) rows)) (IsFrom-keep _ slot (of_sid rows) h)

  module _ (calendar : Calendar) where
    -- A claim of the schedule that is won is in turn, and sets its slot; all else leaves the slot.
    put_if-AreInTurn :
        (b : Bool) (slot now next : ℕ) (rows : List ScheduleRow) (rest : List (ℕ × ℕ))
        → Turned b slot now next rows
        → ((s : ℕ) → IsFrom s rows → AreInTurn s rest)
        → AreInTurn slot (put_if b (now, next) rest)
    put_if-AreInTurn true slot now next rows rest (t, f) k = (t, k next f)
    put_if-AreInTurn false slot now next rows rest f k = k slot f

    -- Where a schedule has at most one row, which is not due before a slot, and no later row
    -- takes its id: through every series of claims by any instances, with any times, and of
    -- creations, deletions and other writes by anyone, each claim of the schedule that is won is
    -- made no sooner than the slot which the won claim before it set.
    pub won_claims-AreInTurn :
        (slot : ℕ) (ws : List Write) (rows : List ScheduleRow)
        → IsFrom slot (keep (has_id sid) rows)
        → All (Spares sid) ws
        → AreInTurn slot (won_claims calendar sid ws rows)
    unfolding won_claims apply_write set_schedule_active record_run deactivate set_watch_state
        mute_until set_watch_notify set_watch
    won_claims-AreInTurn slot [] rows h s = tt
    won_claims-AreInTurn slot (claimed id now next ∷ ws) rows h (_, s) =
        put_if-AreInTurn (wins id now rows && (id == sid)) slot now next
          (of_sid (claim_schedule id now next rows))
          (won_claims calendar sid ws (claim_schedule id now next rows))
          (subst (λ b. Turned b slot now next (of_sid (claim_schedule id now next rows)))
            (sym (wins-of_sid id now rows))
            (subst (Turned (any (is_claimable id now) (of_sid rows) && (id == sid)) slot now next)
              (sym (claim_schedule-of_sid id now next rows))
              (claim_schedule-Turned id now next slot (of_sid rows) h (keep-own rows))))
          (λ k f. won_claims-AreInTurn k ws (claim_schedule id now next rows) f s)
    won_claims-AreInTurn slot (created id owner skill_id input c level now ∷ ws) rows h (e, s) =
        won_claims-AreInTurn slot ws _
          (subst (IsFrom slot)
            (sym (create_schedule-of_sid calendar id owner skill_id input c level now rows e)) h)
          s
    won_claims-AreInTurn slot (deleted id owner ∷ ws) rows h (_, s) =
        won_claims-AreInTurn slot ws _ (delete_schedule-of_sid id owner slot rows h) s
    won_claims-AreInTurn slot (activated id owner active ∷ ws) rows h (_, s) =
        won_claims-AreInTurn slot ws _ (apply_update _ _ slot rows (λ r. refl) (λ r. refl) h) s
    won_claims-AreInTurn slot (ran id run now ∷ ws) rows h (_, s) =
        won_claims-AreInTurn slot ws _ (apply_update _ _ slot rows (λ r. refl) (λ r. refl) h) s
    won_claims-AreInTurn slot (deactivated id ∷ ws) rows h (_, s) =
        won_claims-AreInTurn slot ws _ (apply_update _ _ slot rows (λ r. refl) (λ r. refl) h) s
    won_claims-AreInTurn slot (state_set id state ∷ ws) rows h (_, s) =
        won_claims-AreInTurn slot ws _ (apply_update _ _ slot rows (λ r. refl) (λ r. refl) h) s
    won_claims-AreInTurn slot (muted id owner until ∷ ws) rows h (_, s) =
        won_claims-AreInTurn slot ws _ (apply_update _ _ slot rows (λ r. refl) (λ r. refl) h) s
    won_claims-AreInTurn slot (notify_set id owner notify ∷ ws) rows h (_, s) =
        won_claims-AreInTurn slot ws _ (apply_update _ _ slot rows (λ r. refl) (λ r. refl) h) s
    won_claims-AreInTurn slot (watch_set id owner rule notify ∷ ws) rows h (_, s) =
        won_claims-AreInTurn slot ws _ (apply_update _ _ slot rows (λ r. refl) (λ r. refl) h) s
