-- ===== src/Csv/Tests.antt =====
-- lib/csv.ts at concrete tables.
use aemulus.Common.{◌≡◌, refl, not, List, [], ◌∷◌, map, keep, lookup}
use aemulus.Common.Texts.{
  Text, text_Eq, units, is_space, trim, trim_start, trim_end, put_unless_blank,
}
use aemulus.Csv.{
  Record, without_bom, unix_lines, scan, last_rows, is_blank, parse_csv, is_formula, neutralize,
  double_quotes, quote_if_special, esc, join, grid_of, to_csv, norm, col_for, cols_of, missing_of,
  record_of, csv_to_rows,
}
use aemulus.Csv.RoundTrip.{parse_csv-to_csv}

abbrev headers : List Text
headers = units "name" ∷ units "note" ∷ []

abbrev records : List Record
records =
    ((units "name", units "a,b") ∷ (units "note", units "say \"x\"") ∷ [])
    ∷ ((units "name", units "=1") ∷ [])
    ∷ []

written : to_csv headers records ≡ units "name,note\n\"a,b\",\"say \"\"x\"\"\"\n'=1,"
unfolding to_csv join esc quote_if_special neutralize is_formula double_quotes lookup
written = refl

parse_csv-to_csv_example :
    parse_csv (to_csv headers records)
    ≡ keep (λ row. not (is_blank row)) (map (map neutralize) (grid_of headers records))
unfolding lookup
parse_csv-to_csv_example =
    parse_csv-to_csv headers records (λ h. cc)
      ((refl, (refl, tt)), ((refl, (refl, tt)), ((refl, (refl, tt)), tt)))

read :
    csv_to_rows (λ s. s) (units "na_me,other\n 7 ,8\n") (units "name" ∷ units "note" ∷ [])
    ≡ (((units "name", units "7") ∷ []) ∷ [], units "note" ∷ [])
unfolding csv_to_rows parse_csv without_bom unix_lines scan last_rows trim trim_start trim_end
    put_unless_blank is_space cols_of col_for norm missing_of record_of
read = refl
