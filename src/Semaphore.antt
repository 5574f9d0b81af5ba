-- ===== src/Semaphore.antt =====
-- lib/semaphore.ts: the slots for runs that use a browser.
pub mod Slots
pub mod Order
mod Tests
use aemulus.Common.{
  ℕ, zero, suc, ◌+◌, ◌-◌, Bool, true, false, String, Option, none, some, List, [], ◌∷◌, ◌++◌,
  length, ltb, if◌then◌else◌,
}

-- A waiter is the resolution of a promise; here, its name.
pub record Semaphore : Type 0 where
  pub active : ℕ
  pub queue : List String

abbrev pub fresh : Semaphore
fresh = record { active = 0; queue = [] }

module _ (max : ℕ) where
  -- The state, and does the caller go on at once?
  unfoldable pub acquire : String → Semaphore → Semaphore × Bool
  acquire who s =
      if ltb s.active max
      then (record s { active = s.active + 1 }, true)
      else (record s { queue = s.queue ++ who ∷ [] }, false)

  unfoldable pub free : Semaphore → ℕ
  free s = max - s.active

-- The state, and the waiter that gets the slot; `Math.max(0, this.active - 1)` is the subtraction of ℕ.
unfoldable pub release_to : ℕ → List String → Semaphore × Option String
release_to active [] = (record { active = active - 1; queue = [] }, none)
release_to active (next ∷ queue) = (record { active = active; queue = queue }, some next)

unfoldable pub release : Semaphore → Semaphore × Option String
unfolding release_to
release s = release_to s.active s.queue
