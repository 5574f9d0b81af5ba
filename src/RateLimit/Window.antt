-- ===== src/RateLimit/Window.antt =====
-- No key gets more than its maximum in a window.
use aemulus.Common.{
  ℕ, ◌+◌, ◌≤◌, ◌≡◌, String, string_Eq, some, List, [], ◌∷◌, ◌++◌, length, length-append, lookup,
  lookup-put_self, ltb, leb, Bool-cases, arith, inl, inr,
}
use aemulus.RateLimit.{Limiter, maybe_sweep, recent_hits, rate_limit}

module _ (key : String) (max window_ms now : ℕ) (l : Limiter) where
  -- The hits in the window, after the sweep that the call makes.
  abbrev pub recent : List ℕ
  recent = recent_hits key window_ms now (maybe_sweep now l)

  -- Where a key has at most its maximum of hits in the window, counted after the sweep, a call
  -- keeps at most the maximum of hits for it, is allowed just where there were fewer, and reports
  -- as remaining what the kept hits leave of the maximum.
  pub rate_limit-window :
      length recent ≤ max
      → (ts : List ℕ) × (lookup key (rate_limit key max window_ms now l).0.hits ≡ some ts)
        × (length ts ≤ max)
        × ((rate_limit key max window_ms now l).1.allowed ≡ ltb (length recent) max)
        × (((rate_limit key max window_ms now l).1.remaining + length ts) ≡ max)
  unfolding rate_limit
  rate_limit-window bound = elim (Bool-cases (leb max (length recent))) [
    | inl full ↦ (
      recent,
      rw full (lookup-put_self key recent (maybe_sweep now l).hits),
      bound,
      rw full (ground arith),
      rw full (ground arith),
    )
    | inr free ↦
        let size = length-append recent (now ∷ []) in
        (
          recent ++ now ∷ [],
          rw free (lookup-put_self key (recent ++ now ∷ []) (maybe_sweep now l).hits),
          ground (arith, size),
          rw free (ground arith),
          rw free (ground (arith, size)),
        )
  ]
