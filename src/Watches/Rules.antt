-- ===== src/Watches/Rules.antt =====
-- lib/watches.ts: the operators of a rule, one reading against an operand, and the rules that a
-- recording carries.
use aemulus.Common.{
  ℕ, Bool, true, false, not, ◌&&◌, ◌||◌, Option, none, some, List, [], ◌∷◌, ltb, ◌==◌,
  if◌then◌else◌, find, min, lookup,
}
use aemulus.Common.Int.{ℤ, pos, negsuc}
use aemulus.Common.Texts.{units}
use aemulus.Watches.{Text, text_Eq, is_empty, normalize, trim, includes, Numerals, parse_number}

pub data WatchOp : Type 0 where
  changed equals contains not_contains above below appears disappears : WatchOp

pub record WatchRule : Type 0 where
  pub key : Text
  pub op : WatchOp
  pub value : Option Text
  pub confirm : Option ℕ
  pub cooldown_ms : Option ℕ

abbrev pub or_empty : Option Text → Text
or_empty none = []
or_empty (some t) = t

-- `OPS_NEEDING_VALUE.includes(op)`.
abbrev pub needs_value : WatchOp → Bool
needs_value equals = true
needs_value contains = true
needs_value not_contains = true
needs_value above = true
needs_value below = true
needs_value _ = false

-- `NUMERIC_OPS.includes(op)`.
abbrev pub is_numeric : WatchOp → Bool
is_numeric above = true
is_numeric below = true
is_numeric _ = false

-- `WATCH_OPS`, with the operators' texts.
abbrev pub watch_ops : List (Text × WatchOp)
watch_ops =
    (units "changed", changed)
    ∷ (units "equals", equals)
    ∷ (units "contains", contains)
    ∷ (units "not_contains", not_contains)
    ∷ (units "above", above)
    ∷ (units "below", below)
    ∷ (units "appears", appears)
    ∷ (units "disappears", disappears)
    ∷ []

unfoldable pub find_op : Text → Option WatchOp
find_op t = lookup t watch_ops

-- What `recordedRule` and `ruleFitsCapture` read of a step: is its action `extract`, and the rest.
pub record CaptureStep : Type 0 where
  pub is_extract : Bool
  pub output_key : Option Text
  pub watch_op : Option Text
  pub watch_value : Option Text
  pub loop : Bool

unfoldable pub rule_is_usable : WatchRule → Bool
rule_is_usable rule =
    if needs_value rule.op then not (is_empty (trim (or_empty rule.value))) else true

abbrev pub is_loop : Option CaptureStep → Bool
is_loop none = false
is_loop (some s) = s.loop

unfoldable pub rule_fits_capture : WatchRule → List CaptureStep → Bool
rule_fits_capture rule steps =
    if is_numeric rule.op
    then not (is_loop (find (λ s. s.is_extract && or_empty s.output_key == rule.key) steps))
    else true

abbrev pub plain_rule : Text → WatchOp → Option Text → WatchRule
plain_rule key op value = record {
  key = key;
  op = op;
  value = value;
  confirm = none;
  cooldown_ms = none;
}

-- The rule of a step whose key and operator are known.
unfoldable pub rule_of_step : Text → WatchOp → Text → WatchRule
rule_of_step key op value =
    if needs_value op
    then if is_empty value then plain_rule key changed none else plain_rule key op (some value)
    else plain_rule key op none

-- The body of the loop of `recordedRule`; `none` is `continue`.
unfoldable pub step_rule : Text → CaptureStep → Option WatchRule
unfolding rule_of_step
step_rule want s =
    let key = trim (or_empty s.output_key) in
    if not s.is_extract || (not (is_empty want) && not (key == want)) || is_empty key
    then none
    else elim (find_op (trim (or_empty s.watch_op))) [
      | none ↦ none
      | some op ↦ some (rule_of_step key op (trim (or_empty s.watch_value)))
    ]

unfoldable pub first_rule : Text → List CaptureStep → Option WatchRule
first_rule want [] = none
first_rule want (s ∷ steps) = elim (step_rule want s) [
  | none ↦ first_rule want steps
  | some r ↦ some r
]

unfoldable pub recorded_rule : List CaptureStep → Option Text → Option WatchRule
recorded_rule steps for_key = first_rule (trim (or_empty for_key)) steps

-- `MAX_BRANCH_SPAN`.
abbrev pub max_branch_span : ℕ
max_branch_span = 50

-- A number as `Math.floor` leaves it: `none` if it is not finite.
unfoldable pub branch_span : Option (Option ℤ) → ℕ
branch_span none = 1
branch_span (some none) = 1
branch_span (some (some (negsuc n))) = 1
branch_span (some (some (pos n))) = if ltb n 1 then 1 else min max_branch_span n

module _ (n : Numerals) where
  open n use {Num, greater}

  abbrev compare_numbers : WatchOp → Option Num → Option Num → Option Bool
  compare_numbers above (some a) (some b) = some (greater a b)
  compare_numbers below (some a) (some b) = some (greater b a)
  compare_numbers _ _ _ = none

  -- `satisfies`; `none` is inconclusive.
  unfoldable pub satisfies : WatchRule → Text → Option Bool
  satisfies rule value = elim rule.op [
    | equals ↦ some (value == normalize (or_empty rule.value))
    | contains ↦ some (includes value (normalize (or_empty rule.value)))
    | not_contains ↦ some (not (includes value (normalize (or_empty rule.value))))
    | above ↦ compare_numbers above (parse_number n value) (parse_number n (or_empty rule.value))
    | below ↦ compare_numbers below (parse_number n value) (parse_number n (or_empty rule.value))
    | _ ↦ none
  ]

  -- `holds`: one reading of a wait, `none` where the element is not there.
  unfoldable pub holds : Option WatchOp → Text → Option Text → Option Bool
  holds none operand reading = none
  holds (some appears) operand none = some false
  holds (some appears) operand (some r) = some (not (is_empty (normalize r)))
  holds (some disappears) operand none = some true
  holds (some disappears) operand (some r) = some (is_empty (normalize r))
  holds (some changed) operand reading = none
  holds (some op) operand none = some false
  holds (some op) operand (some r) = satisfies (plain_rule [] op (some operand)) (normalize r)
