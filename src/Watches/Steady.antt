-- ===== src/Watches/Steady.antt =====
-- lib/watches.ts: a reading that stays as it is, over many checks.
use aemulus.Common.{
  ℕ, ◌≤◌, ◌≡◌, ◌≢◌, refl, inl, inr, Bool, true, false, not, ◌&&◌, Option, none, some, List, [], ◌∷◌,
  length, ltb, Bool-cases, arith,
}
use aemulus.Watches.{Text, text_Eq, normalize, Numerals}
use aemulus.Watches.Rules.{WatchRule}
use aemulus.Watches.Evaluate.{
  WatchState, WatchDecision, matches, on_match, on_hit, held, is_cooling, alert, evaluate,
  confirmations,
}
use aemulus.Watches.Crossing.{matches_same}
use aemulus.Watches.Alerts.{Check, decide, alert_times}

-- One reading at several times.
abbrev pub steady : Text → List ℕ → List Check
steady raw [] = []
steady raw (t ∷ ts) = record { reading = some raw; at = t } ∷ steady raw ts

module _ (n : Numerals) (rule : WatchRule) (raw : Text) where
  abbrev hit : WatchState → Option Bool
  hit st = matches n rule st.last_value (normalize raw)

  abbrev told : WatchDecision → Bool
  told d = d.notify && not d.broken

  -- A decision that leaves the watch quiet about this reading.
  abbrev Settles : WatchDecision → Type 0
  Settles d = hit d.state ≢ some true

  on_match_quiet :
      (st : WatchState) (now : ℕ) (h : Option Bool)
      → h ≡ hit st
      → h ≢ some true
      → (told (on_match rule st (normalize raw) now h) ≡ false)
        × Settles (on_match rule st (normalize raw) now h)
  unfolding on_match
  on_match_quiet st now none e q = (refl, rw (← e) q)
  on_match_quiet st now (some false) e q = (refl, matches_same n rule (normalize raw))
  on_match_quiet st now (some true) e q = absurd (q refl)

  quiet :
      (st : WatchState) (ts : List ℕ)
      → hit st ≢ some true
      → alert_times n rule st (steady raw ts) ≡ []
  unfolding alert_times decide evaluate
  quiet st [] q = refl
  quiet st (t ∷ ts) q =
      let (silent, settled) = on_match_quiet st t (hit st) refl q in
      rw silent (quiet (evaluate n rule st raw t).state ts settled)

  -- A value that matched: told, and then settled, or not told.
  on_hit-Settles :
      (st : WatchState) (now : ℕ)
      → told (on_hit rule st (normalize raw) now) ≡ true
      → Settles (on_hit rule st (normalize raw) now)
  unfolding on_hit alert
  on_hit-Settles st now =
      elim (Bool-cases
        (ltb 1 (confirmations rule) && ltb (held st (normalize raw)) (confirmations rule))) [
          | inl wait ↦ rw wait (λ h. cc)
          | inr ready ↦ rw ready (elim (Bool-cases (is_cooling rule st now)) [
            | inl cold ↦ rw cold (λ h. cc)
            | inr warm ↦ rw warm (λ h. matches_same n rule (normalize raw))
          ])
        ]

  evaluate-Settles :
      (st : WatchState) (now : ℕ) (h : Option Bool)
      → h ≡ hit st
      → told (on_match rule st (normalize raw) now h) ≡ true
      → Settles (on_match rule st (normalize raw) now h)
  unfolding on_match
  evaluate-Settles st now none e t = cc
  evaluate-Settles st now (some false) e t = cc
  evaluate-Settles st now (some true) e t = on_hit-Settles st now t

  -- A reading that is repeated is told of at most once.
  pub alert_times-steady :
      (st : WatchState) (ts : List ℕ) → length (alert_times n rule st (steady raw ts)) ≤ 1
  unfolding alert_times decide evaluate
  alert_times-steady st [] = omega arith
  alert_times-steady st (t ∷ ts) =
      let d = on_match rule st (normalize raw) t (hit st) in
      elim (Bool-cases (told d)) [
        | inl yes' ↦
            rw (yes', quiet d.state ts (evaluate-Settles st t (hit st) refl yes')) (omega arith)
        | inr no' ↦ rw no' (alert_times-steady d.state ts)
      ]

  -- The state of a candidate that has not held for long enough.
  abbrev pending : WatchState → WatchState
  pending st = record st {
    pending_value = some (normalize raw);
    pending_count = some (held st (normalize raw));
    fail_streak = 0;
  }
