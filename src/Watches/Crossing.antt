-- ===== src/Watches/Crossing.antt =====
-- lib/watches.ts: a rule fires when its condition starts to hold.
use aemulus.Common.{◌≡◌, ◌≢◌, inl, inr, true, none, some, ==_self, Option-cases, arith}
use aemulus.Watches.{Text, text_Eq, Numerals}
use aemulus.Watches.Rules.{
  WatchOp, changed, equals, contains, not_contains, above, below, appears, disappears, WatchRule,
  satisfies,
}
use aemulus.Watches.Evaluate.{
  matches, crosses, was_satisfied, has_changed, has_appeared, has_disappeared,
}

module _ (n : Numerals) (rule : WatchRule) where
  crosses_same : (t : Text) → crosses n rule (some t) t ≢ some true
  unfolding crosses was_satisfied
  crosses_same t h = elim (Option-cases (satisfies n rule t)) [
    | inl e ↦ let h' : none ≡ some true = rw (e, crosses) at h in cc
    | inr (b, e) ↦ ground (arith, e, h)
  ]

  -- A reading does not match against itself.
  pub matches_same : (t : Text) → matches n rule (some t) t ≢ some true
  unfolding matches
  matches_same t h = by_op rule.op h
    where
      by_op :
          (op : WatchOp)
          → elim op [
            | changed ↦ some (has_changed (some t) t)
            | appears ↦ some (has_appeared (some t) t)
            | disappears ↦ some (has_disappeared (some t) t)
            | _ ↦ crosses n rule (some t) t
          ]
            ≡ some true
          → ⊥
      by_op changed h = ground (arith, ==_self t)
      by_op appears h = ground arith
      by_op disappears h = ground arith
      by_op equals h = crosses_same t h
      by_op contains h = crosses_same t h
      by_op not_contains h = crosses_same t h
      by_op above h = crosses_same t h
      by_op below h = crosses_same t h
