-- ===== src/Watches/Alerts.antt =====
-- lib/watches.ts: the alerts of a watch as the evaluator alone decides over a series of checks, and what failed checks add up to.
use aemulus.Common.{
  ℕ, zero, suc, ◌+◌, ◌≤◌, ◌<◌, ◌≡◌, refl, inl, inr, Bool, true, false, not, ◌&&◌, Option, none,
  some, List, [], ◌∷◌, ltb, leb, nat_eq, if◌then◌else◌, Bool-cases, Option-cases, arith,
}
use aemulus.Watches.{Text, text_Eq, normalize, Numerals}
use aemulus.Watches.Rules.{WatchRule}
use aemulus.Watches.Evaluate.{
  WatchState, WatchDecision, broken_after, matches, on_match, on_hit, held, is_cooling, alert,
  evaluate, evaluate_failure, confirmations, or_count,
}

-- A check at a time: a reading, or none.
pub record Check : Type 0 where
  pub reading : Option Text
  pub at : ℕ

abbrev pub AreApart : ℕ → Option ℕ → ℕ → Type 0
AreApart gap none t = Unit
AreApart gap (some s) t = s + gap ≤ t

-- Each time is the gap, or more, after the one before.
abbrev pub AreSpaced : ℕ → Option ℕ → List ℕ → Type 0
AreSpaced gap last [] = Unit
AreSpaced gap last (t ∷ ts) = AreApart gap last t × AreSpaced gap (some t) ts

abbrev pub put_if : Bool → ℕ → List ℕ → List ℕ
put_if true t ts = t ∷ ts
put_if false t ts = ts

module _ (n : Numerals) (rule : WatchRule) where
  unfoldable pub decide : WatchState → Option Text → ℕ → WatchDecision
  decide st none now = evaluate_failure st none
  decide st (some raw) now = evaluate n rule st raw now

  -- When the evaluator decided to tell of a change, going on from its own states.
  unfoldable pub alert_times : WatchState → List Check → List ℕ
  unfolding decide
  alert_times st [] = []
  alert_times st (c ∷ checks) =
      let d = decide st c.reading c.at in
      put_if (d.notify && not d.broken) c.at (alert_times d.state checks)

  abbrev cooldown : ℕ
  cooldown = or_count 0 rule.cooldown_ms

  -- An alert is apart from the last one, and is noted; without an alert the last one stands.
  abbrev pub Paces : Bool → Option ℕ → ℕ → Option ℕ → Type 0
  Paces true last now last' = AreApart cooldown last now × (last' ≡ some now)
  Paces false last now last' = last' ≡ last

  abbrev pub IsPaced : WatchState → ℕ → WatchDecision → Type 0
  IsPaced st now d = Paces (d.notify && not d.broken) st.last_alert_at now d.state.last_alert_at

  warm-AreApart :
      (st : WatchState) (now : ℕ)
      → 0 < cooldown
      → is_cooling rule st now ≡ false
      → AreApart cooldown st.last_alert_at now
  unfolding is_cooling
  warm-AreApart st now h warm = elim (Option-cases st.last_alert_at) [
    | inl e ↦ rw e tt
    | inr (t, e) ↦ rw e (ground (arith, rw e at warm))
  ]

  on_hit-IsPaced :
      (st : WatchState) (next : Text) (now : ℕ)
      → 0 < cooldown
      → IsPaced st now (on_hit rule st next now)
  unfolding on_hit alert
  on_hit-IsPaced st next now h =
      elim (Bool-cases (ltb 1 (confirmations rule) && ltb (held st next) (confirmations rule))) [
        | inl wait ↦ rw wait refl
        | inr ready ↦ rw ready (elim (Bool-cases (is_cooling rule st now)) [
          | inl cold ↦ rw cold refl
          | inr warm ↦ rw warm (warm-AreApart st now h warm, refl)
        ])
      ]

  pub on_match-IsPaced :
      (st : WatchState) (next : Text) (now : ℕ) (hit : Option Bool)
      → 0 < cooldown
      → IsPaced st now (on_match rule st next now hit)
  unfolding on_match
  on_match-IsPaced st next now none h = refl
  on_match-IsPaced st next now (some false) h = refl
  on_match-IsPaced st next now (some true) h = on_hit-IsPaced st next now h

  decide-IsPaced :
      (st : WatchState) (reading : Option Text) (now : ℕ)
      → 0 < cooldown
      → IsPaced st now (decide st reading now)
  unfolding decide evaluate evaluate_failure
  decide-IsPaced st none now h = elim (Bool-cases (nat_eq (st.fail_streak + 1) broken_after)) [
    | inl third ↦ rw third refl
    | inr other ↦ rw other refl
  ]
  decide-IsPaced st (some raw) now h =
      on_match-IsPaced st (normalize raw) now (matches n rule st.last_value (normalize raw)) h

  put_if-AreSpaced :
      (told : Bool) (last : Option ℕ) (now : ℕ) (last' : Option ℕ) (ts : List ℕ)
      → Paces told last now last'
      → AreSpaced cooldown last' ts
      → AreSpaced cooldown last (put_if told now ts)
  put_if-AreSpaced true last now last' ts (apart, e) s = (apart, rw e at s)
  put_if-AreSpaced false last now last' ts e s = rw e at s

  -- With a cooldown over 0, the times at which the evaluator alone decides to alert, each decision
  -- going on from the state of the one before, are each at least the cooldown after the one before.
  pub alert_times-AreSpaced :
      (st : WatchState) (checks : List Check)
      → 0 < cooldown
      → AreSpaced cooldown st.last_alert_at (alert_times st checks)
  unfolding alert_times
  alert_times-AreSpaced st [] h = tt
  alert_times-AreSpaced st (c ∷ checks) h =
      put_if-AreSpaced _ _ c.at _ _ (decide-IsPaced st c.reading c.at h)
        (alert_times-AreSpaced (decide st c.reading c.at).state checks h)

-- The notices that a watch is broken, and the state, after so many failed checks.
unfoldable pub fail_checks : ℕ → WatchState → WatchState × ℕ
fail_checks zero st = (st, 0)
fail_checks (suc k) st =
    let d = evaluate_failure st none in
    let (last, notices) = fail_checks k d.state in
    (last, if d.notify && d.broken then notices + 1 else notices)

-- A series of failed checks finds the watch broken once, where the count of failures passes the limit.
pub fail_checks_once :
    (k : ℕ) (st : WatchState)
    → fail_checks k st ≡ (
      record st { fail_streak = st.fail_streak + k },
      if ltb st.fail_streak broken_after && leb broken_after (st.fail_streak + k) then 1 else 0,
    )
unfolding fail_checks evaluate_failure
fail_checks_once zero st = ground arith
fail_checks_once (suc k) st =
    ground (arith, fail_checks_once k (record st { fail_streak = st.fail_streak + 1 }))
