-- ===== src/Semaphore/Slots.antt =====
-- lib/semaphore.ts: never more slots in use than there are, and nobody waits while one is free.
use aemulus.Common.{
  ℕ, ◌+◌, ◌-◌, ◌≤◌, ◌<◌, ◌≡◌, refl, inl, inr, Bool, true, false, ◌&&◌, String, Option, none, some,
  List, [], ◌∷◌, ltb, if◌then◌else◌, Bool-cases, arith,
}
use aemulus.Semaphore.{Semaphore, acquire, release_to, release}

-- What the callers do, in order.
pub data Call : Type 0 where
  acquired : String → Call
  released : Call

-- The semaphore with the number of callers that hold a slot.
pub record Slots : Type 0 where
  pub sem : Semaphore
  pub held : ℕ

abbrev pub held_after : Option String → ℕ → ℕ
held_after none held = held - 1
held_after (some who) held = held - 1 + 1

module _ (max : ℕ) where
  unfoldable pub apply_call : Call → Slots → Slots
  unfolding acquire release
  apply_call (acquired who) x =
      let (s, at_once) = acquire max who x.sem in
      record { sem = s; held = if at_once then x.held + 1 else x.held }
  apply_call released x =
      let (s, next) = release x.sem in record { sem = s; held = held_after next x.held }

  unfoldable pub apply_calls : List Call → Slots → Slots
  apply_calls [] x = x
  apply_calls (c ∷ cs) x = apply_calls cs (apply_call c x)

  abbrev pub is_waited : List String → Bool
  is_waited [] = false
  is_waited (w ∷ ws) = true

  -- The count is the number of holders, and the slots are all in use while somebody waits.
  abbrev pub IsSound : Slots → Type 0
  IsSound x =
      (x.sem.active ≡ x.held)
      × (x.sem.active ≤ max)
      × ((is_waited x.sem.queue && ltb x.sem.active max) ≡ false)

  released-IsSound :
      (active held : ℕ) (queue : List String)
      → 0 < max
      → IsSound (record { sem = record { active = active; queue = queue }; held = held })
      → IsSound (
          apply_call released
            (record { sem = record { active = active; queue = queue }; held = held }))
  unfolding apply_call release release_to
  released-IsSound active held [] m (a, b, c) = (omega arith, omega arith, refl)
  released-IsSound active held (w ∷ ws) m (a, b, c) =
      let full : max ≤ active = ground arith in (omega arith, b, ground arith)

  acquired-IsSound :
      (who : String) (active held : ℕ) (queue : List String)
      → IsSound (record { sem = record { active = active; queue = queue }; held = held })
      → IsSound (
          apply_call
            (acquired who)
            (record { sem = record { active = active; queue = queue }; held = held }))
  unfolding apply_call acquire
  acquired-IsSound who active held queue (a, b, c) = elim (Bool-cases (ltb active max)) [
    | inl k ↦ rw k (omega arith, ground arith, by_waiters queue (ground arith))
    | inr k ↦ rw k (a, b, rw k (ground arith))
  ]
    where
      by_waiters :
          (q : List String) → is_waited q ≡ false → (is_waited q && ltb (active + 1) max) ≡ false
      by_waiters [] h = refl
      by_waiters (w ∷ ws) h = cc

  -- For a semaphore of at least one slot, through every series of calls: the count of slots in
  -- use is the number of callers that hold one, it is at most the number of slots, and while
  -- somebody waits no slot is free.
  pub apply_calls-IsSound :
      (cs : List Call) (x : Slots) → 0 < max → IsSound x → IsSound (apply_calls cs x)
  unfolding apply_calls
  apply_calls-IsSound [] x m h = h
  apply_calls-IsSound (acquired who ∷ cs) x m h =
      apply_calls-IsSound cs (apply_call (acquired who) x) m
        (acquired-IsSound who x.sem.active x.held x.sem.queue h)
  apply_calls-IsSound (released ∷ cs) x m h =
      apply_calls-IsSound cs (apply_call released x) m
        (released-IsSound x.sem.active x.held x.sem.queue m h)
