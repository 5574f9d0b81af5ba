-- ===== src/RateLimit/Tests.antt =====
-- lib/ratelimit.ts at a concrete key.
use aemulus.Common.{◌≡◌, refl, true, false, List, ◌≤◌, string_Eq, [], ◌∷◌, length, lookup, arith}
use aemulus.RateLimit.{Limiter, maybe_sweep}
use aemulus.RateLimit.Window.{recent}
use aemulus.RateLimit.Reference.{Call, answers, reference, answers-reference}

abbrev limiter : Limiter
limiter = record { hits = ("ann", 10 ∷ 50 ∷ 70 ∷ []) ∷ []; sweep_counter = 4 }

in_bounds : length (recent "ann" 3 60 100 limiter) ≤ 3
unfolding maybe_sweep lookup
in_bounds = omega arith

abbrev calls : List Call
calls =
    record { who = "ann"; max = 2; window = 60; at = 10 }
    ∷ record { who = "bob"; max = 1; window = 5; at = 20 }
    ∷ record { who = "ann"; max = 2; window = 60; at = 30 }
    ∷ record { who = "ann"; max = 2; window = 60; at = 50 }
    ∷ record { who = "ann"; max = 2; window = 60; at = 70 }
    ∷ []

answers-reference_example :
    answers "ann" calls (record { hits = []; sweep_counter = 998 }) ≡ reference "ann" calls []
answers-reference_example =
    answers-reference "ann" 60 998 calls (omega arith)
      (omega arith, (omega arith, (omega arith, (omega arith, (omega arith, tt)))))
      (refl, (refl, (refl, (refl, (refl, tt)))))

referred : reference "ann" calls [] ≡ true ∷ true ∷ false ∷ true ∷ []
unfolding reference
referred = refl
