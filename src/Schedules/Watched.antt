-- ===== src/Schedules/Watched.antt =====
-- lib/schedules.ts: the watch of a schedule, as the writes of a firing leave it.
use aemulus.Common.{
  ℕ, ◌≡◌, refl, sym, ap, ◌∙◌, subst, inl, inr, Bool, true, String, string_Eq, Option, none, some,
  List, [], ◌∷◌, ◌==◌, if◌then◌else◌, find, find-yes, find-no, Bool-cases,
}
use aemulus.Watches.Rules.{WatchRule}
use aemulus.Watches.Evaluate.{WatchState}
use aemulus.Schedules.{
  ScheduleRow, update_where, has_id, WatchView, view_of, watch_of, get_watch, claim_schedule,
  record_run, deactivate, set_watch_state,
}

abbrev put : (ScheduleRow → Bool) → (ScheduleRow → ScheduleRow) → ScheduleRow → ScheduleRow
put p f r = if p r then f r else r

abbrev through :
    (ScheduleRow → Bool) → (ScheduleRow → ScheduleRow) → Option ScheduleRow → Option ScheduleRow
through p f none = none
through p f (some r) = some (put p f r)

put-id :
    (id : String) (p : ScheduleRow → Bool) (f : ScheduleRow → ScheduleRow) (r : ScheduleRow)
    → ((r : ScheduleRow) → (f r).id ≡ r.id)
    → has_id id (put p f r) ≡ has_id id r
put-id id p f r k = elim (Bool-cases (p r)) [
  | inl y ↦ rw y (ap (λ x. x == id) (k r))
  | inr n ↦ rw n refl
]

find-update_where :
    (id : String) (p : ScheduleRow → Bool) (f : ScheduleRow → ScheduleRow) (rows : List ScheduleRow)
    → ((r : ScheduleRow) → (f r).id ≡ r.id)
    → find (has_id id) (update_where p f rows) ≡ through p f (find (has_id id) rows)
unfolding update_where
find-update_where id p f [] k = refl
find-update_where id p f (r ∷ rows) k =
    let e = put-id id p f r k in
    elim (Bool-cases (has_id id r)) [
      | inl y ↦
          find-yes (has_id id) (put p f r) (update_where p f rows) (e ∙ y)
          ∙ sym (ap (through p f) (find-yes (has_id id) r rows y))
      | inr n ↦
          find-no (has_id id) (put p f r) (update_where p f rows) (e ∙ n)
          ∙ find-update_where id p f rows k
          ∙ sym (ap (through p f) (find-no (has_id id) r rows n))
    ]

-- A write that leaves the watches as they are.
get_watch-update_where :
    (id : String) (p : ScheduleRow → Bool) (f : ScheduleRow → ScheduleRow) (rows : List ScheduleRow)
    → ((r : ScheduleRow) → (f r).id ≡ r.id)
    → ((r : ScheduleRow) → watch_of (some (f r)) ≡ watch_of (some r))
    → get_watch id (update_where p f rows) ≡ get_watch id rows
unfolding get_watch
get_watch-update_where id p f rows k w =
    ap watch_of (find-update_where id p f rows k) ∙ same (find (has_id id) rows)
  where
    same : (o : Option ScheduleRow) → watch_of (through p f o) ≡ watch_of o
    same none = refl
    same (some r) = elim (Bool-cases (p r)) [ inl y ↦ rw y (w r) | inr n ↦ rw n refl ]

pub get_watch-claim_schedule :
    (id sid : String) (now next : ℕ) (rows : List ScheduleRow)
    → get_watch id (claim_schedule sid now next rows) ≡ get_watch id rows
unfolding claim_schedule
get_watch-claim_schedule id sid now next rows =
    get_watch-update_where id _ _ rows (λ r. refl) (λ r. refl)

pub get_watch-deactivate :
    (id sid : String) (rows : List ScheduleRow)
    → get_watch id (deactivate sid rows) ≡ get_watch id rows
unfolding deactivate
get_watch-deactivate id sid rows = get_watch-update_where id _ _ rows (λ r. refl) (λ r. refl)

pub get_watch-record_run :
    (id sid run : String) (now : ℕ) (rows : List ScheduleRow)
    → get_watch id (record_run sid run now rows) ≡ get_watch id rows
unfolding record_run
get_watch-record_run id sid run now rows =
    get_watch-update_where id _ _ rows (λ r. refl) (λ r. refl)

find-has_id :
    (id : String) (rows : List ScheduleRow) (r : ScheduleRow)
    → find (has_id id) rows ≡ some r
    → has_id id r ≡ true
find-has_id id [] r h = absurd cc
find-has_id id (q ∷ rows) r h = elim (Bool-cases (has_id id q)) [
  | inl y ↦
      let e : q ≡ r = some-same (sym (find-yes (has_id id) q rows y) ∙ h) in
      subst (λ x. has_id id x ≡ true) e y
  | inr n ↦ find-has_id id rows r (sym (find-no (has_id id) q rows n) ∙ h)
]
  where
    some-same : {a b : ScheduleRow} → some a ≡ some b → a ≡ b
    some-same h = cc

abbrev with_state : WatchState → Option WatchView → Option WatchView
with_state state none = none
with_state state (some w) = some (record w { state = state })

abbrev stated : WatchState → ScheduleRow → ScheduleRow
stated state r = record r { watch_state = some state }

view_of-stated :
    (state : WatchState) (r : ScheduleRow) (rule : Option WatchRule)
    → view_of (stated state r) rule ≡ with_state state (view_of r rule)
view_of-stated state r none = refl
view_of-stated state r (some rule) = refl

set_found :
    (id : String) (state : WatchState) (o : Option ScheduleRow)
    → ((r : ScheduleRow) → o ≡ some r → has_id id r ≡ true)
    → watch_of (through (has_id id) (stated state) o) ≡ with_state state (watch_of o)
set_found id state none own = refl
set_found id state (some r) own = rw (own r refl) (view_of-stated state r r.watch_rule)

-- The state that is written is the one that the watch has then.
pub get_watch-set_watch_state :
    (id : String) (state : WatchState) (rows : List ScheduleRow) (w : WatchView)
    → get_watch id rows ≡ some w
    → get_watch id (set_watch_state id state rows) ≡ some (record w { state = state })
unfolding get_watch set_watch_state
get_watch-set_watch_state id state rows w h =
    ap watch_of (find-update_where id (has_id id) (stated state) rows (λ r. refl))
    ∙ set_found id state (find (has_id id) rows) (find-has_id id rows)
    ∙ ap (with_state state) h
