-- ===== src/Csv/RoundTrip.antt =====
-- lib/csv.ts: a table that was written is read back.
use mathlib.Core.List.{append_assoc, append-nil}
use aemulus.Common.{
  ℕ, ◌≡◌, ◌≢◌, refl, sym, ap, ◌∙◌, inl, inr, Bool, true, false, not, ◌||◌, List, [], ◌∷◌, ◌++◌, map,
  nat_eq, nat_eq_iff, subst, any, any-append, keep, All-map, keep-yes, keep-no, All, Bool-cases,
  arith,
}
use aemulus.Common.Texts.{Text, trim, trim_start, trim_end}
use aemulus.Csv.{
  Row, Record, last_rows, scan, is_blank, is_special, is_formula, neutralize, double_quotes,
  quote_if_special, esc, join, line, cell_of, grid_of, to_csv, without_bom, unix_lines, parse_csv,
}
use aemulus.Csv.Cells.{starts_apart, scan-esc}

abbrev kept : List Row → List Row
kept rows = keep (λ row. not (is_blank row)) rows

-- The end, or a line feed.
abbrev ends_line : Text → Bool
ends_line [] = true
ends_line (c ∷ s) = nat_eq c 10

-- The rows of what follows a line.
abbrev after : Text → List Row
after [] = []
after (c ∷ s) = scan false [] [] s

ends_line-apart : (rest : Text) → ends_line rest ≡ true → starts_apart rest ≡ true
ends_line-apart [] h = refl
ends_line-apart (c ∷ s) h = ground arith

-- At the end of a line the row is complete; an empty row at the end of the text is a blank one.
end_of_row :
    (field : Text) (row : Row) (rest : Text)
    → ends_line rest ≡ true
    → kept (scan false field row rest) ≡ kept ((row ++ field ∷ []) ∷ after rest)
unfolding scan last_rows trim trim_start trim_end
end_of_row [] [] [] h = refl
end_of_row [] (r ∷ row) [] h = refl
end_of_row (c ∷ field) [] [] h = refl
end_of_row (c ∷ field) (r ∷ row) [] h = refl
end_of_row field row (c ∷ s) h =
    subst (λ x. kept (scan false field row (x ∷ s)) ≡ kept ((row ++ field ∷ []) ∷ after (x ∷ s)))
      (sym ((nat_eq_iff c 10).0 h)) refl

scan_comma :
    (field : Text) (row : Row) (s : Text)
    → scan false field row (44 ∷ s) ≡ scan false [] (row ++ field ∷ []) s
unfolding scan
scan_comma field row s = refl

scan-line :
    (row : Row) (cell : Text) (cells : Row) (rest : Text)
    → ends_line rest ≡ true
    → kept (scan false [] row (line (cell ∷ cells) ++ rest))
      ≡ kept ((row ++ map neutralize (cell ∷ cells)) ∷ after rest)
unfolding join
scan-line row cell [] rest h =
    ap kept (scan-esc row cell rest (ends_line-apart rest h))
    ∙ end_of_row (neutralize cell) row rest h
scan-line row cell (next ∷ cells) rest h =
    ap (λ t. kept (scan false [] row t)) (append_assoc (esc cell) (44 ∷ line (next ∷ cells)) rest)
    ∙ ap kept (scan-esc row cell (44 ∷ line (next ∷ cells) ++ rest) refl)
    ∙ ap kept (scan_comma (neutralize cell) row (line (next ∷ cells) ++ rest))
    ∙ scan-line (row ++ neutralize cell ∷ []) next cells rest h
    ∙ ap (λ r. kept (r ∷ after rest))
        (append_assoc row (neutralize cell ∷ []) (map neutralize (next ∷ cells)))

abbrev has_no_cells : Row → Bool
has_no_cells [] = true
has_no_cells (c ∷ cs) = false

abbrev HasCells : Row → Type 0
HasCells row = has_no_cells row ≡ false

kept-cons : (r : Row) (xs ys : List Row) → kept xs ≡ kept ys → kept (r ∷ xs) ≡ kept (r ∷ ys)
kept-cons r xs ys h =
    let p : Row → Bool = λ row. not (is_blank row) in
    elim (Bool-cases (p r)) [
      | inl full ↦ rw (keep-yes p r xs full, keep-yes p r ys full) (ap (λ rest. r ∷ rest) h)
      | inr blank ↦ rw (keep-no p r xs blank, keep-no p r ys blank) h
    ]

scan-lines :
    (rows : List Row)
    → All HasCells rows
    → kept (scan false [] [] (join 10 (map line rows))) ≡ kept (map (map neutralize) rows)
unfolding join
scan-lines [] h = unfold scan in unfold last_rows in refl
scan-lines ([] ∷ rows) (h, hs) = cc
scan-lines ((cell ∷ cells) ∷ []) (h, hs) =
    ap (λ t. kept (scan false [] [] t)) (sym (append-nil (line (cell ∷ cells))))
    ∙ scan-line [] cell cells [] refl
scan-lines ((cell ∷ cells) ∷ next ∷ rows) (h, hs) =
    scan-line [] cell cells (10 ∷ join 10 (map line (next ∷ rows))) refl
    ∙ kept-cons (map neutralize (cell ∷ cells))
        (scan false [] [] (join 10 (map line (next ∷ rows)))) (map (map neutralize) (next ∷ rows))
        (scan-lines (next ∷ rows) hs)

-- A return, or a byte order mark.
abbrev pub is_lost : ℕ → Bool
is_lost c = nat_eq c 13 || nat_eq c 65279

abbrev pub IsKept : Text → Type 0
IsKept s = any is_lost s ≡ false

unix_lines-kept : (s : Text) → IsKept s → unix_lines s ≡ s
unfolding unix_lines
unix_lines-kept [] h = refl
unix_lines-kept (c ∷ []) h = ground arith
unix_lines-kept (c ∷ d ∷ s) h = ground (arith, unix_lines-kept (d ∷ s))

without_bom-kept : (s : Text) → IsKept s → without_bom s ≡ s
unfolding without_bom
without_bom-kept [] h = refl
without_bom-kept (c ∷ s) h = ground arith

append-IsKept : (s t : Text) → IsKept s → IsKept t → IsKept (s ++ t)
append-IsKept s t h k = rw (any-append is_lost s t, h, k) refl

double_quotes-IsKept : (s : Text) → IsKept s → IsKept (double_quotes s)
unfolding double_quotes
double_quotes-IsKept [] h = refl
double_quotes-IsKept (c ∷ s) h = ground (arith, double_quotes-IsKept s)

neutralize-IsKept : (s : Text) → IsKept s → IsKept (neutralize s)
unfolding neutralize
neutralize-IsKept s h = elim (Bool-cases (is_formula s)) [ inl f ↦ rw f h | inr f ↦ rw f h ]

esc-IsKept : (s : Text) → IsKept s → IsKept (esc s)
unfolding esc quote_if_special
esc-IsKept s h =
    let k = neutralize-IsKept s h in
    elim (Bool-cases (any is_special (neutralize s))) [
      | inr plain ↦ rw plain k
      | inl special ↦ rw special (
          append-IsKept (double_quotes (neutralize s)) (34 ∷ [])
            (double_quotes-IsKept (neutralize s) k) refl)
    ]

join-IsKept :
    (sep : ℕ) (ts : List Text) → is_lost sep ≡ false → All IsKept ts → IsKept (join sep ts)
unfolding join
join-IsKept sep [] s h = refl
join-IsKept sep (t ∷ []) s (h, hs) = h
join-IsKept sep (t ∷ u ∷ ts) s (h, hs) =
    append-IsKept t (sep ∷ join sep (u ∷ ts)) h (rw (s, join-IsKept sep (u ∷ ts) s hs) refl)

line-IsKept : (row : Row) → All IsKept row → IsKept (line row)
line-IsKept row h = join-IsKept 44 (map esc row) refl (All-map IsKept IsKept esc esc-IsKept row h)

grid-HasCells :
    (headers : List Text) (rows : List Record) → headers ≢ [] → All HasCells (grid_of headers rows)
grid-HasCells [] rows h = absurd (h refl)
grid-HasCells (x ∷ headers) rows h = (refl, all rows)
  where
    all : (rows : List Record) → All HasCells (map (λ r. map (cell_of r) (x ∷ headers)) rows)
    all [] = tt
    all (r ∷ rows) = (refl, all rows)

-- A table with some header, none of whose cells has a carriage return or a byte order mark, is
-- written as a text that parses to the header and the rows, each cell that begins like a formula
-- behind a single quote, less the rows in which every cell is blank.
pub parse_csv-to_csv :
    (headers : List Text) (rows : List Record)
    → headers ≢ []
    → All (All IsKept) (grid_of headers rows)
    → parse_csv (to_csv headers rows)
      ≡ keep (λ row. not (is_blank row)) (map (map neutralize) (grid_of headers rows))
unfolding parse_csv to_csv
parse_csv-to_csv headers rows some_header h =
    let text = join 10 (map line (grid_of headers rows)) in
    let k : IsKept text =
      join-IsKept 10 (map line (grid_of headers rows)) refl
        (All-map (All IsKept) IsKept line line-IsKept (grid_of headers rows) h) in
    rw (without_bom-kept text k, unix_lines-kept text k)
      (scan-lines (grid_of headers rows) (grid-HasCells headers rows some_header))
