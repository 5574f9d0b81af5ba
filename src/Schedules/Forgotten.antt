-- ===== src/Schedules/Forgotten.antt =====
-- lib/watches.ts and lib/scheduler.ts: an alert forgets when the owner was told of a skipped firing.
use aemulus.Common.{◌≡◌, true, false, none}
use aemulus.Watches.{Numerals}
use aemulus.Watches.Evaluate.{WatchDecision}

module _ (n : Numerals) where
  -- A decision to alert leaves no time of a stall notice.
  abbrev Forgets : WatchDecision → Type 0
  Forgets d = d.notify ≡ true → d.broken ≡ false → d.state.stalled_notice_at ≡ none
