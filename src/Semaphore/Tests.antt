-- ===== src/Semaphore/Tests.antt =====
-- lib/semaphore.ts at concrete calls.
use aemulus.Common.{◌≡◌, refl, String, List, [], ◌∷◌, ◌++◌, arith}
use aemulus.Semaphore.{Semaphore, fresh, acquire, release_to, release, free}
use aemulus.Semaphore.Slots.{
  Call, acquired, released, Slots, apply_calls, IsSound, apply_calls-IsSound,
}
use aemulus.Semaphore.Order.{served, releases, first_of, served-queue}

abbrev calls : List Call
calls = acquired "a" ∷ acquired "b" ∷ acquired "c" ∷ released ∷ released ∷ released ∷ released ∷ []

abbrev start : Slots
start = record { sem = fresh; held = 0 }

apply_calls-IsSound_example : IsSound 1 (apply_calls 1 calls start)
apply_calls-IsSound_example =
    apply_calls-IsSound 1 calls start (omega arith) (refl, omega arith, refl)

abbrev waiting : Semaphore
waiting = record { active = 1; queue = "b" ∷ "c" ∷ [] }

order : served 1 (released ∷ acquired "d" ∷ released ∷ released ∷ []) waiting ≡ "b" ∷ "c" ∷ "d" ∷ []
unfolding served acquire release release_to
order = refl

served-queue_example :
    (late : List String) × (served 1 (released ∷ acquired "d" ∷ released ∷ []) waiting
      ≡ first_of (releases (released ∷ acquired "d" ∷ released ∷ [])) ("b" ∷ "c" ∷ []) ++ late)
served-queue_example =
    served-queue 1 (released ∷ acquired "d" ∷ released ∷ []) 1 ("b" ∷ "c" ∷ []) []

slots_free : free 3 waiting ≡ 2
unfolding free
slots_free = refl
