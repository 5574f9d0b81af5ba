-- ===== src/Semaphore/Order.antt =====
-- lib/semaphore.ts: waiters are served in the order in which they came, one for each release.
use mathlib.Core.List.{append_assoc}
use aemulus.Common.{
  ℕ, zero, suc, ◌+◌, ◌≡◌, refl, ap, inl, inr, String, Option, none, some, List, [], ◌∷◌, ◌++◌, ltb,
  Bool-cases,
}
use aemulus.Semaphore.{Semaphore, acquire, release_to, release}
use aemulus.Semaphore.Slots.{Call, acquired, released}

abbrev pub to_list : Option String → List String
to_list none = []
to_list (some who) = who ∷ []

-- The waiters that calls let go on, in that order.
unfoldable pub served : ℕ → List Call → Semaphore → List String
unfolding acquire release
served max [] s = []
served max (acquired who ∷ cs) s = served max cs (acquire max who s).0
served max (released ∷ cs) s = let (after, next) = release s in to_list next ++ served max cs after

unfoldable pub releases : List Call → ℕ
releases [] = 0
releases (acquired who ∷ cs) = releases cs
releases (released ∷ cs) = suc (releases cs)

-- The waiters whom the releases reach.
unfoldable pub first_of : ℕ → List String → List String
first_of zero ws = []
first_of (suc k) [] = []
first_of (suc k) (w ∷ ws) = w ∷ first_of k ws

-- Of the callers that wait at the front of the queue, a series of calls lets go on as many as it
-- has releases, or all of them, in the order of the queue and before anybody else who waits.
pub served-queue :
    (max : ℕ) (cs : List Call) (active : ℕ) (ws rest : List String)
    → (late : List String) × (served max cs (record { active = active; queue = ws ++ rest })
        ≡ first_of (releases cs) ws ++ late)
unfolding served releases first_of release_to acquire release
served-queue max [] active ws rest = ([], refl)
served-queue max (released ∷ cs) active [] rest = (_, refl)
served-queue max (released ∷ cs) active (w ∷ ws) rest =
    let (late, e) = served-queue max cs active ws rest in (late, ap (λ x. w ∷ x) e)
served-queue max (acquired who ∷ cs) active ws rest = elim (Bool-cases (ltb active max)) [
  | inl k ↦ rw k (served-queue max cs (active + 1) ws rest)
  | inr k ↦
      rw (k, append_assoc ws rest (who ∷ [])) (served-queue max cs active ws (rest ++ who ∷ []))
]
