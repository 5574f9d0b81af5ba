-- ===== src/Watches/Waiting.antt =====
-- lib/wait.ts: holding a step until the page satisfies it, or until time runs out. What the page
-- and the clock say at each poll is a function of the poll's number.
pub mod Ending
use aemulus.Common.{
  ℕ, zero, suc, ◌+◌, ◌-◌, ◌*◌, ◌/◌, ◌≤◌, ◌<◌, ◌≡◌, ◌≢◌, refl, ◌∙◌, subst, ◌⊎◌, inl, inr, Bool, true,
  false, Option, none, some, List, [], ◌∷◌, ◌++◌, ltb, leb, if◌then◌else◌, max, min, Bool-cases,
  Option-cases, arith,
}
use aemulus.Watches.{Text, collapse, trim, Numerals}
use aemulus.Watches.Rules.{WatchOp, appears, or_empty, find_op, holds}

-- A selector, as its text, and what a poll reads there: `none` where nothing is visible.
pub record Poll : Type 0 where
  pub reads : Text → Option Text
  pub now : ℕ

pub record WaitStep : Type 0 where
  pub wait_op : Option Text
  pub wait_value : Option Text
  pub wait_ms : Option ℕ
  pub selectors : List Text

pub data WaitNote : Type 0 where
  nothing_to_look_at : WaitNote
  was_there : ℕ → WaitNote
  timed_out : ℕ → Option Text → WaitNote
  run_out_of_time : ℕ → ℕ → Option Text → WaitNote

pub record WaitOutcome : Type 0 where
  pub met : Bool
  pub note : WaitNote
  pub selector_used : Text
  pub elapsed : ℕ
  pub cut_short : Bool

abbrev pub max_wait_ms : ℕ
max_wait_ms = 300000

-- `String(step.waitOp ?? "appears")`, as an operator.
abbrev pub op_of : Option Text → Option WatchOp
op_of none = some appears
op_of (some t) = find_op t

abbrev pub default_wait_ms : ℕ
default_wait_ms = 30000

abbrev pub wait_poll_ms : ℕ
wait_poll_ms = 500

abbrev pub or_default : Option ℕ → ℕ
or_default none = default_wait_ms
or_default (some ms) = ms

unfoldable pub wait_limit : WaitStep → ℕ
wait_limit step = min (max 1000 (or_default step.wait_ms)) max_wait_ms

unfoldable pub secs : ℕ → ℕ
secs ms = max 1 ((ms + 500) / 1000)

abbrev take : ℕ → Text → Text
take zero s = []
take (suc k) [] = []
take (suc k) (c ∷ s) = c ∷ take k s

abbrev is_longer : ℕ → Text → Bool
is_longer k [] = false
is_longer zero (c ∷ s) = true
is_longer (suc k) (c ∷ s) = is_longer k s

-- 8230 is the ellipsis.
unfoldable pub clip_text : Text → Text
unfolding trim collapse
clip_text s =
    let t = trim (collapse false s) in if is_longer 120 t then take 120 t ++ 8230 ∷ [] else t

-- The first selector that finds the element, with its reading.
unfoldable pub read_first : List Text → Poll → Option (Text × Text)
read_first [] p = none
read_first (sel ∷ selectors) p = elim (p.reads sel) [
  | none ↦ read_first selectors p
  | some r ↦ some (sel, r)
]

abbrev pub reading_at : List Text → Poll → Option Text
reading_at selectors p = elim (read_first selectors p) [ none ↦ none | some (sel, r) ↦ some r ]

-- What was read last, and under which selector.
pub record Seen : Type 0 where
  pub last : Option Text
  pub selector_used : Text

unfoldable pub see : List Text → Poll → Seen → Seen
see selectors p s = elim (read_first selectors p) [
  | none ↦ s
  | some (sel, r) ↦ record { last = some r; selector_used = sel }
]

abbrev pub clip_option : Option Text → Option Text
clip_option none = none
clip_option (some t) = some (clip_text t)

module _ (n : Numerals) (step : WaitStep) (started deadline : ℕ) where
  -- `until`.
  abbrev pub wait_until : ℕ
  wait_until = min (started + wait_limit step) deadline

  abbrev pub is_cut_short : Bool
  is_cut_short = ltb wait_until (started + wait_limit step)

  unfoldable pub met_outcome : Poll → Seen → WaitOutcome
  met_outcome p s = record {
    met = true;
    note = was_there (secs (p.now - started));
    selector_used = s.selector_used;
    elapsed = p.now - started;
    cut_short = false;
  }

  unfoldable pub missed_outcome : Poll → Seen → WaitOutcome
  missed_outcome p s = record {
    met = false;
    note =
        if is_cut_short
        then run_out_of_time (secs (p.now - started)) (secs (wait_limit step)) (clip_option s.last)
        else timed_out (secs (p.now - started)) (clip_option s.last);
    selector_used = s.selector_used;
    elapsed = p.now - started;
    cut_short = is_cut_short;
  }

  abbrev pub is_true : Option Bool → Bool
  is_true none = false
  is_true (some b) = b

  unfoldable pub holds_at : Poll → Bool
  holds_at p =
      is_true
        (holds n (op_of step.wait_op) (or_empty step.wait_value) (reading_at step.selectors p))

  -- The loop, from the poll with the given number, on as many polls as the fuel allows.
  unfoldable pub wait_loop : ℕ → (ℕ → Poll) → ℕ → Seen → Option WaitOutcome
  unfolding holds_at
  wait_loop zero polls i s = none
  wait_loop (suc fuel) polls i s =
      let seen = see step.selectors (polls i) s in
      let rest = wait_loop fuel polls (i + 1) seen in
      if holds_at (polls i)
      then some (met_outcome (polls i) seen)
      else if leb wait_until (polls i).now
      then some (missed_outcome (polls i) seen)
      else rest

  -- Polls are at least the waiting time apart, so that many are enough.
  abbrev pub wait_fuel : ℕ
  wait_fuel = suc (wait_limit step / wait_poll_ms + 1)

  -- By the selectors: with none there is nothing to look at.
  unfoldable pub wait_with : List Text → (ℕ → Poll) → Option WaitOutcome
  unfolding wait_loop
  wait_with [] polls = some (record {
    met = false;
    note = nothing_to_look_at;
    selector_used = [];
    elapsed = 0;
    cut_short = false;
  })
  wait_with (sel ∷ more) polls =
      wait_loop wait_fuel polls 0 (record { last = none; selector_used = [] })

  unfoldable pub wait_for_step : (ℕ → Poll) → Option WaitOutcome
  unfolding wait_with
  wait_for_step polls = wait_with step.selectors polls
