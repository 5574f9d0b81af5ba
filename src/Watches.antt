-- ===== src/Watches.antt =====
-- lib/watches.ts: deciding whether a value on a page changed. A text is its list of UTF-16 units.
pub mod Rules
pub mod Evaluate
pub mod Runner
pub mod Normal
pub mod Crossing
pub mod Alerts
pub mod Paced
pub mod Steady
pub mod Muting
pub mod Missed
pub mod Waiting
mod Tests
use mathlib.Core.List.{reverse}
unfoldable pub use aemulus.Common.Texts.{
  Text, same_text, text_Eq, is_empty, is_space, trim_start, put_unless_blank, trim_end, trim,
  is_prefix, includes,
}
use aemulus.Common.{
  ℕ, ◌+◌, ◌≡◌, refl, ◌↔◌, Bool, true, false, not, ◌&&◌, ◌||◌, Option, none, some, List, [], ◌∷◌,
  ◌++◌, ltb, leb, nat_eq, nat_eq_iff, if◌then◌else◌, Eq, keep, arith,
}

-- `[\u200b-\u200d\ufeff]`.
unfoldable pub is_zero_width : ℕ → Bool
is_zero_width c = leb 8203 c && leb c 8205 || nat_eq c 65279

-- `.replace(/[\u200b-\u200d\ufeff]/g, "")`.
unfoldable pub without_zero_width : Text → Text
without_zero_width s = keep (λ c. not (is_zero_width c)) s

-- `.replace(/\s+/g, " ")`; the flag says that the unit before was of a run that is written already.
unfoldable pub collapse : Bool → Text → Text
collapse in_run [] = []
collapse in_run (c ∷ s) = elim (is_space c) [
  | false ↦ c ∷ collapse false s
  | true ↦ elim in_run [ true ↦ collapse true s | false ↦ 32 ∷ collapse true s ]
]

unfoldable pub normalize : Text → Text
normalize s = trim (collapse false (without_zero_width s))

unfoldable pub is_digit : ℕ → Bool
is_digit c = leb 48 c && leb c 57

abbrev pub is_digit_or_comma : ℕ → Bool
is_digit_or_comma c = is_digit c || nat_eq c 44

-- The longest start of a text that consists of such units, and what follows it.
unfoldable pub span : (ℕ → Bool) → Text → Text × Text
span p [] = ([], [])
span p (c ∷ s) = let (run, rest) = span p s in if p c then (c ∷ run, rest) else ([], c ∷ s)

-- `\.?\d*`.
unfoldable pub fraction : Text → Text
fraction [] = []
fraction (c ∷ s) = if nat_eq c 46 then c ∷ (span is_digit s).0 else (span is_digit (c ∷ s)).0

-- `\d[\d,]*\.?\d*` at the start of a text.
unfoldable pub unsigned_at : Text → Option Text
unsigned_at [] = none
unsigned_at (c ∷ s) =
    let (run, rest) = span is_digit_or_comma s in
    if is_digit c then some (c ∷ run ++ fraction rest) else none

-- `-?` before it.
unfoldable pub number_at : Text → Option Text
number_at [] = none
number_at (c ∷ s) =
    if nat_eq c 45
    then elim (unsigned_at s) [ none ↦ none | some m ↦ some (c ∷ m) ]
    else unsigned_at (c ∷ s)

-- The first match of `/-?\d[\d,]*\.?\d*/`.
unfoldable pub first_number : Text → Option Text
first_number [] = none
first_number (c ∷ s) = elim (number_at (c ∷ s)) [ none ↦ first_number s | some m ↦ some m ]

-- JavaScript's numbers: `Number` of a text where that is finite, and `>`.
pub record Numerals : Type 1 where
  pub Num : Type 0
  pub finite_number : Text → Option Num
  pub greater : Num → Num → Bool

module _ (n : Numerals) where
  open n use {Num, finite_number}

  unfoldable pub parse_number : Text → Option Num
  parse_number s = elim (first_number (keep (λ c. not (is_space c)) (normalize s))) [
    | none ↦ none
    | some m ↦ finite_number (keep (λ c. not (nat_eq c 44)) m)
  ]
