-- ===== src/Pages/Tests.antt =====
-- lib/pagination.ts at concrete rows. A time is written in strokes, and ids stand in the order of their lengths.
use aemulus.Common.{
  ℕ, zero, suc, ◌≡◌, refl, Bool, true, false, none, some, List, [], ◌∷◌, length, ltb, nat_eq, any,
  sort, insert_sorted, arith,
}
use aemulus.Common.Texts.{Text}
use aemulus.Csv.{join}
use aemulus.Pages.{
  Cursor, Coding, encode_cursor, decode_cursor, parse_limit, is_newer, list_page, select_page,
  to_page, page_of, split,
}
use aemulus.Pages.Order.{IsStrict}
use aemulus.Pages.Cursors.{IsAscii, IsPlain, CodingLaws}
use aemulus.Pages.Following.{follow, follow-all}

abbrev strokes : ℕ → Text
strokes zero = []
strokes (suc n) = 49 ∷ strokes n

abbrev in_strokes : Coding
in_strokes = record {
  Number = ℕ;
  read_number = λ t. length t;
  is_finite = λ n. true;
  is_positive = λ n. ltb 0 n;
  floor = λ n. n;
  print = strokes;
  to_base64url = λ t. t;
  from_base64url = λ t. t;
}

length-strokes : (n : ℕ) → length (strokes n) ≡ n
length-strokes zero = refl
length-strokes (suc n) = omega (arith, length-strokes n)

any-strokes : (n : ℕ) → any (λ c. nat_eq c 58) (strokes n) ≡ false
any-strokes zero = refl
any-strokes (suc n) = any-strokes n

IsAscii-strokes : (n : ℕ) → IsAscii (strokes n)
IsAscii-strokes zero = tt
IsAscii-strokes (suc n) = (omega arith, IsAscii-strokes n)

in_strokes_laws : CodingLaws in_strokes
in_strokes_laws = record {
  finite = λ n h. refl;
  read = λ n h. length-strokes n;
  digits = λ n h. any-strokes n;
  print_ascii = λ n h. IsAscii-strokes n;
  some_text = λ t h. h;
  back = λ t h. refl;
}

abbrev by_length : Text → Text → Bool
by_length s t = ltb (length s) (length t)

abbrev key : ℕ → Cursor
key n = record { created_at = 5; id = 65 ∷ strokes n }

key-IsPlain : (n : ℕ) → IsPlain (key n)
key-IsPlain n = record {
  some_id = refl;
  ascii = (omega arith, IsAscii-strokes n);
  safe = omega arith;
}

key-IsStrict : IsStrict (is_newer by_length key)
key-IsStrict = record { irreflexive = λ x. ground arith; transitive = λ x y z h k. ground arith }

abbrev rows : List ℕ
rows = 2 ∷ 7 ∷ 1 ∷ []

follow-all_example :
    follow in_strokes by_length key 4 rows 2 none ≡ some (sort (is_newer by_length key) rows)
follow-all_example =
    follow-all in_strokes by_length key key-IsStrict rows
      ((refl, (refl, tt)), ((refl, tt), (tt, tt))) 1 in_strokes_laws key-IsPlain 4 (omega arith)

followed : follow in_strokes by_length key 4 rows 2 none ≡ some (7 ∷ 2 ∷ 1 ∷ [])
unfolding follow list_page select_page to_page page_of decode_cursor encode_cursor split sort
    insert_sorted join
followed = refl

huge_limit : parse_limit in_strokes (some (strokes 120)) ≡ 100
unfolding parse_limit
huge_limit = refl
