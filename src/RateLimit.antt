-- ===== src/RateLimit.antt =====
-- lib/ratelimit.ts: the sliding window of requests, for each key.
pub mod Window
mod Times
mod Hits
pub mod Reference
mod Tests
use aemulus.Common.{
  ℕ, zero, suc, ◌+◌, ◌-◌, Bool, true, false, not, ◌&&◌, ◌||◌, String, string_Eq, Option, none, some,
  List, [], ◌∷◌, ◌++◌, ◌==◌, if◌then◌else◌, keep, length, get_last_or, lookup, put, ltb, leb,
}

pub record RateResult : Type 0 where
  pub allowed : Bool
  pub remaining : ℕ
  pub retry_after_ms : ℕ

-- The map of hits, and the calls since it was swept.
pub record Limiter : Type 0 where
  pub hits : List (String × List ℕ)
  pub sweep_counter : ℕ

abbrev pub sweep_every : ℕ
sweep_every = 1000

abbrev pub sweep_max_age_ms : ℕ
sweep_max_age_ms = 3600000

-- The most recent hit is an hour old, or there is none; `t <= now - age` is written with a sum.
abbrev pub is_idle : ℕ → List ℕ → Bool
is_idle now [] = true
is_idle now (t ∷ ts) = leb (get_last_or t ts + sweep_max_age_ms) now

unfoldable pub maybe_sweep : ℕ → Limiter → Limiter
maybe_sweep now l =
    if ltb (l.sweep_counter + 1) sweep_every
    then record l { sweep_counter = l.sweep_counter + 1 }
    else record { hits = keep (λ e. not (is_idle now e.1)) l.hits; sweep_counter = 0 }

abbrev pub hits_of : Option (List ℕ) → List ℕ
hits_of none = []
hits_of (some ts) = ts

-- `t > now - windowMs`, written with a sum.
abbrev pub is_recent : ℕ → ℕ → ℕ → Bool
is_recent now window_ms t = ltb now (t + window_ms)

abbrev pub recent_hits : String → ℕ → ℕ → Limiter → List ℕ
recent_hits key window_ms now l = keep (is_recent now window_ms) (hits_of (lookup key l.hits))

-- `recent[0] + windowMs - now`, which is not a number where there is no hit: 0 stands for it here.
abbrev pub wait_of : ℕ → ℕ → List ℕ → ℕ
wait_of window_ms now [] = 0
wait_of window_ms now (t ∷ ts) = t + window_ms - now

unfoldable pub rate_limit : String → ℕ → ℕ → ℕ → Limiter → Limiter × RateResult
rate_limit key max window_ms now l0 =
    let l = maybe_sweep now l0 in
    let recent = recent_hits key window_ms now l in
    if leb max (length recent)
    then (
      record l { hits = put key recent l.hits },
      record { allowed = false; remaining = 0; retry_after_ms = wait_of window_ms now recent },
    )
    else (
      record l { hits = put key (recent ++ now ∷ []) l.hits },
      record { allowed = true; remaining = max - length (recent ++ now ∷ []); retry_after_ms = 0 },
    )
