-- ===== src/Csv/Cells.antt =====
-- lib/csv.ts: how one cell that was written is read.
use mathlib.Core.List.{append_assoc, append-nil}
use aemulus.Common.{
  ℕ, ◌≡◌, refl, sym, ap, ◌∙◌, inl, inr, Bool, true, false, ◌||◌, [], ◌∷◌, ◌++◌, nat_eq, nat_eq_iff,
  subst, any, Bool-cases, arith,
}
use aemulus.Common.Texts.{Text, is_empty}
use aemulus.Csv.{Row, scan, is_special, neutralize, double_quotes, quote_if_special, esc}

-- What follows a cell: the end, a comma or a line feed.
abbrev pub starts_apart : Text → Bool
starts_apart [] = true
starts_apart (c ∷ s) = nat_eq c 44 || nat_eq c 10

scan_plain :
    (field : Text) (row : Row) (v rest : Text)
    → any is_special v ≡ false
    → scan false field row (v ++ rest) ≡ scan false (field ++ v) row rest
unfolding scan
scan_plain field row [] rest h = rw (append-nil field)
scan_plain field row (c ∷ v) rest h =
    let step : scan false field row (c ∷ v ++ rest) ≡ scan false (field ++ c ∷ []) row (v ++ rest) =
      ground arith in
    step
    ∙ scan_plain (field ++ c ∷ []) row v rest (ground arith)
    ∙ ap (λ f. scan false f row rest) (append_assoc field (c ∷ []) v)

scan_other :
    (field : Text) (row : Row) (c : ℕ) (s : Text)
    → nat_eq c 34 ≡ false
    → is_empty s ≡ false
    → scan true field row (c ∷ s) ≡ scan true (field ++ c ∷ []) row s
unfolding scan
scan_other field row c [] h n = cc
scan_other field row c (d ∷ s) h n = ground (arith, h)

scan_closed :
    (field : Text) (row : Row) (rest : Text)
    → starts_apart rest ≡ true
    → scan true field row (34 ∷ rest) ≡ scan false field row rest
unfolding scan
scan_closed field row [] h = refl
scan_closed field row (d ∷ s) h = ground arith

not-is_empty : (v rest : Text) → is_empty (v ++ 34 ∷ rest) ≡ false
not-is_empty [] rest = refl
not-is_empty (c ∷ v) rest = refl

scan_pair :
    (field : Text) (row : Row) (s : Text)
    → scan true field row (34 ∷ 34 ∷ s) ≡ scan true (field ++ 34 ∷ []) row s
unfolding scan
scan_pair field row s = refl

scan_open : (row : Row) (s : Text) → scan false [] row (34 ∷ s) ≡ scan true [] row s
unfolding scan
scan_open row s = refl

scan_quoted :
    (field : Text) (row : Row) (v rest : Text)
    → starts_apart rest ≡ true
    → scan true field row (double_quotes v ++ 34 ∷ rest) ≡ scan false (field ++ v) row rest
unfolding double_quotes
scan_quoted field row [] rest h =
    scan_closed field row rest h ∙ ap (λ f. scan false f row rest) (sym (append-nil field))
scan_quoted field row (c ∷ v) rest h = elim (Bool-cases (nat_eq c 34)) [
  | inl quote ↦
      subst
        (λ x.
          scan true field row (double_quotes (x ∷ v) ++ 34 ∷ rest)
          ≡ scan false (field ++ x ∷ v) row rest)
        (sym ((nat_eq_iff c 34).0 quote))
        (scan_pair field row (double_quotes v ++ 34 ∷ rest)
          ∙ scan_quoted (field ++ 34 ∷ []) row v rest h
          ∙ ap (λ f. scan false f row rest) (append_assoc field (34 ∷ []) v))
  | inr other ↦ rw other (
      scan_other field row c (double_quotes v ++ 34 ∷ rest) other
        (not-is_empty (double_quotes v) rest)
      ∙ scan_quoted (field ++ c ∷ []) row v rest h
      ∙ ap (λ f. scan false f row rest) (append_assoc field (c ∷ []) v))
]

-- A cell that was written is read as the cell with its formula neutralized.
pub scan-esc :
    (row : Row) (v rest : Text)
    → starts_apart rest ≡ true
    → scan false [] row (esc v ++ rest) ≡ scan false (neutralize v) row rest
unfolding esc quote_if_special
scan-esc row v rest h = elim (Bool-cases (any is_special (neutralize v))) [
  | inr plain ↦ rw plain (scan_plain [] row (neutralize v) rest plain)
  | inl special ↦ rw special (
      scan_open row ((double_quotes (neutralize v) ++ 34 ∷ []) ++ rest)
      ∙ ap (scan true [] row) (append_assoc (double_quotes (neutralize v)) (34 ∷ []) rest)
      ∙ scan_quoted [] row (neutralize v) rest h)
]
