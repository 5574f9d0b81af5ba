-- ===== src/Schedules/Rolling.antt =====
-- lib/scheduler.ts: the slot that a firing is moved to.
use aemulus.Common.{
  ℕ, zero, suc, ◌+◌, ◌*◌, ◌<◌, ◌≤◌, ◌≡◌, refl, sym, ◌∙◌, inl, inr, false, Option, none, some, leb,
  nat_eq, if◌then◌else◌, Bool-cases, nat_eq_iff, subst, arith,
}
use aemulus.Schedules.{
  Calendar, Cadence, every10m, every15m, every30m, hourly, every6h, every12h, daily, weekdays,
  weekly, past_weekend, is_weekdays, cadence_ms, day_ms, next_run_after,
}

-- `while (next <= now) next = nextRunAfter(s.cadence, next)`; none where the fuel is not enough.
unfoldable pub roll : Calendar → Cadence → ℕ → ℕ → ℕ → Option ℕ
unfolding next_run_after
roll calendar c now zero next = none
roll calendar c now (suc fuel) next =
    let rest = roll calendar c now fuel (next_run_after calendar c next) in
    if leb next now then rest else some next

unfoldable pub next_slot : Calendar → Cadence → ℕ → ℕ → Option ℕ
unfolding roll next_run_after
next_slot calendar c now at = roll calendar c now (now + 2) (next_run_after calendar c at)

-- Adding days to a time does not move it back.
pub record IsForward (calendar : Calendar) : Type 0 where
  pub forward : (n d : ℕ) → d ≤ calendar.add_days n d

-- The n-th slot after a time.
abbrev pub slot : Calendar → Cadence → ℕ → ℕ → ℕ
slot calendar c at zero = at
slot calendar c at (suc n) = next_run_after calendar c (slot calendar c at n)

past_weekend-le : (calendar : Calendar) (d : ℕ) → IsForward calendar → d ≤ past_weekend calendar d
past_weekend-le calendar d f = ground (arith, f.forward 1 d, f.forward 2 d)

cadence_ms-positive : (c : Cadence) → 0 < cadence_ms c
cadence_ms-positive every10m = omega arith
cadence_ms-positive every15m = omega arith
cadence_ms-positive every30m = omega arith
cadence_ms-positive hourly = omega arith
cadence_ms-positive every6h = omega arith
cadence_ms-positive every12h = omega arith
cadence_ms-positive daily = omega arith
cadence_ms-positive weekdays = omega arith
cadence_ms-positive weekly = omega arith

next_run_after-gt :
    (calendar : Calendar) (c : Cadence) (from : ℕ)
    → IsForward calendar
    → from < next_run_after calendar c from
unfolding next_run_after
next_run_after-gt calendar c from f = elim (Bool-cases (is_weekdays c)) [
  | inl k ↦ rw k (omega (arith, past_weekend-le calendar (from + day_ms) f))
  | inr k ↦ rw k (omega (arith, cadence_ms-positive c))
]

-- A slot after a time is the first of the schedule's that is in the future.
pub record IsFirstSlot (calendar : Calendar) (c : Cadence) (now at s : ℕ) : Type 0 where
  pub steps : ℕ
  pub reached : slot calendar c at (suc steps) ≡ s
  pub future : now < s
  pub passed : (n : ℕ) → n < steps → slot calendar c at (suc n) ≤ now

below-suc : {P : ℕ → Type 0} (n : ℕ) → ((k : ℕ) → k < n → P k) → P n → (k : ℕ) → k < suc n → P k
below-suc {P} n p q k h = elim (Bool-cases (nat_eq k n)) [
  | inl e ↦ subst P (sym ((nat_eq_iff k n).0 e)) q
  | inr e ↦ p k (ground arith)
]

-- The fuel counts what time is left to the present.
roll_ends :
    (calendar : Calendar) (c : Cadence) (now at fuel n : ℕ)
    → IsForward calendar
    → now < slot calendar c at (suc n) + fuel
    → ((k : ℕ) → k < n → slot calendar c at (suc k) ≤ now)
    → (s : ℕ) × ((roll calendar c now (suc fuel) (slot calendar c at (suc n)) ≡ some s)
        × IsFirstSlot calendar c now at s)
unfolding roll
roll_ends calendar c now at zero n f h p =
    let k : leb (slot calendar c at (suc n)) now ≡ false = ground arith in
    (
      slot calendar c at (suc n),
      (rw k refl, record { steps = n; reached = refl; future = omega arith; passed = p }),
    )
roll_ends calendar c now at (suc fuel) n f h p =
    elim (Bool-cases (leb (slot calendar c at (suc n)) now)) [
      | inr k ↦ (
        slot calendar c at (suc n),
        (rw k refl, record { steps = n; reached = refl; future = ground arith; passed = p }),
      )
      | inl k ↦
          let found =
            roll_ends calendar c now at fuel (suc n) f
              (omega (arith, next_run_after-gt calendar c (slot calendar c at (suc n)) f))
              (below-suc n p (ground arith)) in
          (found.0, (rw k found.1.0, found.1.1))
    ]

-- Where adding days does not move a time back, the rolling of a schedule to its next slot ends,
-- at the first slot of its cadence after the present, counted from the slot that was due.
pub next_slot_ends :
    (calendar : Calendar) (c : Cadence) (now at : ℕ)
    → IsForward calendar
    → (s : ℕ) × ((next_slot calendar c now at ≡ some s) × IsFirstSlot calendar c now at s)
unfolding next_slot
next_slot_ends calendar c now at f =
    let e : now + 2 ≡ suc (now + 1) = omega arith in
    let found =
      roll_ends calendar c now at (now + 1) 0 f (omega arith) (λ k h. absurd (omega arith)) in
    (found.0, (rw e found.1.0, found.1.1))

slot-fixed :
    (calendar : Calendar) (c : Cadence) (at n : ℕ)
    → is_weekdays c ≡ false
    → slot calendar c at n ≡ at + n * cadence_ms c
unfolding next_run_after
slot-fixed calendar c at zero w = omega arith
slot-fixed calendar c at (suc n) w = rw w (omega (arith, slot-fixed calendar c at n w))

last-le :
    (calendar : Calendar) (c : Cadence) (now at k : ℕ)
    → at ≤ now
    → ((n : ℕ) → n < k → slot calendar c at (suc n) ≤ now)
    → slot calendar c at k ≤ now
last-le calendar c now at zero h p = h
last-le calendar c now at (suc k) h p = p k (omega arith)

-- Where adding days does not move a time back, for a cadence other than weekdays and a slot that
-- is due, the next slot is in the future by at most the cadence's interval, and a whole number of
-- intervals after the slot that was due.
pub next_slot-IsAnchored :
    (calendar : Calendar) (c : Cadence) (now at s : ℕ)
    → IsForward calendar
    → is_weekdays c ≡ false
    → at ≤ now
    → next_slot calendar c now at ≡ some s
    → (now < s) × ((s ≤ now + cadence_ms c) × ((n : ℕ) × (s ≡ at + n * cadence_ms c)))
next_slot-IsAnchored calendar c now at s f w h e =
    let found = next_slot_ends calendar c now at f in
    let found_at : next_slot calendar c now at ≡ some found.0 = found.1.0 in
    let same : found.0 ≡ s = cc in
    let first : IsFirstSlot calendar c now at s =
      subst (IsFirstSlot calendar c now at) same found.1.1 in
    let k = first.steps in
    let last = last-le calendar c now at k h first.passed in
    let e0 = slot-fixed calendar c at k w in
    let e1 = slot-fixed calendar c at (suc k) w in
    (first.future, (omega (arith, first.reached, last, e0, e1), (suc k, sym first.reached ∙ e1)))
