-- ===== src/Csv.antt =====
-- lib/csv.ts: reading and writing tables as text, by UTF-16 unit.
pub mod Cells
pub mod RoundTrip
mod Tests
use aemulus.Common.{
  ℕ, zero, suc, Bool, true, false, not, ◌&&◌, ◌||◌, Option, none, some, List, [], ◌∷◌, ◌++◌, map,
  nat_eq, if◌then◌else◌, ◌==◌, keep, any, get_elem?, lookup,
}
use aemulus.Common.Texts.{Text, text_Eq, is_empty, is_space, trim}

-- `text.replace(/^\ufeff/, "")`.
unfoldable pub without_bom : Text → Text
without_bom [] = []
without_bom (c ∷ s) = if nat_eq c 65279 then s else c ∷ s

-- `.replace(/\r\n/g, "\n").replace(/\r/g, "\n")`: 13 is the return, 10 the line feed.
unfoldable pub unix_lines : Text → Text
unix_lines [] = []
unix_lines (c ∷ []) = (if nat_eq c 13 then 10 else c) ∷ []
unix_lines (c ∷ d ∷ s) =
    let rest = unix_lines (d ∷ s) in
    elim (nat_eq c 13) [
      | false ↦ c ∷ rest
      | true ↦ elim (nat_eq d 10) [ true ↦ rest | false ↦ 10 ∷ rest ]
    ]

abbrev pub Row : Type 0
Row = List Text

-- The trailing field and row.
unfoldable pub last_rows : Text → Row → List Row
last_rows [] [] = []
last_rows field row = (row ++ field ∷ []) ∷ []

-- The loop of `parseCsv`: 34 is the quote, 44 the comma.
unfoldable pub scan : Bool → Text → Row → Text → List Row
scan in_quotes field row [] = last_rows field row
scan true field row (c ∷ []) =
    if nat_eq c 34 then last_rows field row else last_rows (field ++ c ∷ []) row
scan true field row (c ∷ d ∷ s) = elim (nat_eq c 34) [
  | true ↦ elim (nat_eq d 34) [
    | true ↦ scan true (field ++ 34 ∷ []) row s
    | false ↦ scan false field row (d ∷ s)
  ]
  | false ↦ scan true (field ++ c ∷ []) row (d ∷ s)
]
scan false field row (c ∷ s) = elim (nat_eq c 34) [
  | true ↦ scan true field row s
  | false ↦ elim (nat_eq c 44) [
    | true ↦ scan false [] (row ++ field ∷ []) s
    | false ↦ elim (nat_eq c 10) [
      | true ↦ (row ++ field ∷ []) ∷ scan false [] [] s
      | false ↦ scan false (field ++ c ∷ []) row s
    ]
  ]
]

abbrev pub is_blank : Row → Bool
is_blank row = not (any (λ cell. not (is_empty (trim cell))) row)

unfoldable pub parse_csv : Text → List Row
unfolding scan without_bom unix_lines
parse_csv text = keep (λ row. not (is_blank row)) (scan false [] [] (unix_lines (without_bom text)))

-- `/^[=+\-@\t\r]/`.
unfoldable pub is_formula : Text → Bool
is_formula [] = false
is_formula (c ∷ s) =
    nat_eq c 61 || nat_eq c 43 || nat_eq c 45 || nat_eq c 64 || nat_eq c 9 || nat_eq c 13

-- 39 is the single quote.
unfoldable pub neutralize : Text → Text
unfolding is_formula
neutralize v = if is_formula v then 39 ∷ v else v

-- `/[",\n\r]/`.
abbrev pub is_special : ℕ → Bool
is_special c = nat_eq c 34 || nat_eq c 44 || nat_eq c 10 || nat_eq c 13

-- `s.replace(/"/g, '""')`.
unfoldable pub double_quotes : Text → Text
double_quotes [] = []
double_quotes (c ∷ s) = if nat_eq c 34 then 34 ∷ 34 ∷ double_quotes s else c ∷ double_quotes s

unfoldable pub quote_if_special : Text → Text
unfolding double_quotes
quote_if_special s = if any is_special s then 34 ∷ double_quotes s ++ 34 ∷ [] else s

unfoldable pub esc : Text → Text
unfolding neutralize quote_if_special
esc v = quote_if_special (neutralize v)

-- `Array.prototype.join` with one unit.
unfoldable pub join : ℕ → List Text → Text
join sep [] = []
join sep (t ∷ []) = t
join sep (t ∷ u ∷ ts) = t ++ sep ∷ join sep (u ∷ ts)

abbrev pub line : Row → Text
line cells = join 44 (map esc cells)

abbrev pub Record : Type 0
Record = List (Text × Text)

-- `r[h] ?? ""`.
abbrev pub cell_of : Record → Text → Text
cell_of r h = elim (lookup h r) [ none ↦ [] | some v ↦ v ]

-- The cells that are written: the headers, and a row for each record.
abbrev pub grid_of : List Text → List Record → List Row
grid_of headers rows = headers ∷ map (λ r. map (cell_of r) headers) rows

unfoldable pub to_csv : List Text → List Record → Text
unfolding join esc
to_csv headers rows = join 10 (map line (grid_of headers rows))

abbrev find_index_from : ℕ → (Text → Bool) → List Text → Option ℕ
find_index_from i p [] = none
find_index_from i p (t ∷ ts) = elim (p t) [ true ↦ some i | false ↦ find_index_from (suc i) p ts ]

-- `csvToRows`; lower case is the language's.
module _ (lower : Text → Text) where
  -- `.replace(/[\s_-]+/g, "")`.
  unfoldable pub norm : Text → Text
  norm s = keep (λ c. not (is_space c || nat_eq c 95 || nat_eq c 45)) (lower s)

  unfoldable pub col_for : List Text → Text → Option ℕ
  unfolding norm
  col_for header key = elim (find_index_from 0 (λ h. h == lower key) header) [
    | some i ↦ some i
    | none ↦ find_index_from 0 (λ h. norm h == norm key) header
  ]

  unfoldable pub cols_of : List Text → List Text → List (Text × ℕ)
  unfolding col_for
  cols_of header [] = []
  cols_of header (key ∷ keys) =
      let rest = cols_of header keys in
      elim (col_for header key) [ none ↦ rest | some i ↦ (key, i) ∷ rest ]

  abbrev is_missing : Option ℕ → Bool
  is_missing none = true
  is_missing (some i) = false

  unfoldable pub missing_of : List Text → List Text → List Text
  unfolding col_for
  missing_of header keys = keep (λ key. is_missing (col_for header key)) keys

  abbrev pub trimmed_cell : Option Text → Text
  trimmed_cell none = trim []
  trimmed_cell (some cell) = trim cell

  unfoldable pub record_of : List (Text × ℕ) → Row → Record
  record_of cols cells = map (λ c. (c.0, trimmed_cell (get_elem? cells c.1))) cols

  -- The records, and the keys that no header names. Of two equal keys the first entry is the one read.
  unfoldable pub csv_to_rows : Text → List Text → List Record × List Text
  unfolding cols_of missing_of record_of
  csv_to_rows text keys = elim (parse_csv text) [
    | [] ↦ ([], keys)
    | first ∷ [] ↦ ([], keys)
    | first ∷ row ∷ rows ↦
        let header = map (λ h. lower (trim h)) first in
        (map (record_of (cols_of header keys)) (row ∷ rows), missing_of header keys)
  ]
