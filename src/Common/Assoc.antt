-- ===== src/Common/Assoc.antt =====
-- A JavaScript `Map`, or an object used as one: an association list with one entry for a key.

use mathlib.Core.Path.{◌≡◌, refl}
use mathlib.Core.Logic.{◌≢◌}
use mathlib.Core.List.{List, [], ◌∷◌}
use mathlib.Core.Option.{Option, none, some}
use native.Mathlib.Omega.{arith}
use aemulus.Common.Tests.{Eq, ◌==◌, if◌then◌else◌, ==_self}

module _ {ℓ κ} {K : Type ℓ} {V : Type κ} ⦃e : Eq K⦄ where
  unfoldable pub lookup : K → List (K × V) → Option V
  lookup k [] = none
  lookup k ((j, v) ∷ m) = if j == k then some v else lookup k m

  unfoldable pub put : K → V → List (K × V) → List (K × V)
  put k v [] = (k, v) ∷ []
  put k v ((j, w) ∷ m) = if j == k then (j, v) ∷ m else (j, w) ∷ put k v m

  pub lookup-put :
      (k j : K) (v : V) (m : List (K × V))
      → lookup j (put k v m) ≡ (if k == j then some v else lookup j m)
  unfolding lookup put
  lookup-put k j v [] = refl
  lookup-put k j v ((i, w) ∷ m) =
      ground (arith, e.decides k j, e.decides i k, e.decides i j, lookup-put k j v m)

  pub lookup-put_self : (k : K) (v : V) (m : List (K × V)) → lookup k (put k v m) ≡ some v
  lookup-put_self k v m = rw (lookup-put k k v m, ==_self k)

  pub lookup-put_ne :
      (k j : K) (v : V) (m : List (K × V)) → k ≢ j → lookup j (put k v m) ≡ lookup j m
  lookup-put_ne k j v m h = ground (arith, lookup-put k j v m, e.decides k j)
