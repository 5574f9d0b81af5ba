-- ===== src/Pages.antt =====
-- lib/pagination.ts: cursors and pages; `listRunsPage` of lib/runs.ts. Texts are of UTF-16 units.
pub mod Order
pub mod Following
pub mod Cursors
mod Tests
use aemulus.Common.{
  ℕ, zero, suc, ◌+◌, Bool, true, false, not, ◌&&◌, ◌||◌, String, string_Eq, Option, none, some,
  List, [], ◌∷◌, ◌++◌, map, length, ltb, nat_eq, ◌==◌, if◌then◌else◌, keep, sort, take, max, min,
}
use aemulus.Common.Texts.{Text, is_empty}
use aemulus.Csv.{join}

pub record Cursor : Type 0 where
  pub created_at : ℕ
  pub id : Text

pub record Page (A : Type 0) : Type 0 where
  pub items : List A
  pub next_cursor : Option Text

-- What the code takes from the language: `Number`, the text of a number, base64url of UTF-8.
pub record Coding : Type 1 where
  pub Number : Type 0
  pub read_number : Text → Number
  pub is_finite : Number → Bool
  pub is_positive : Number → Bool
  pub floor : Number → ℕ
  pub print : ℕ → Text
  pub to_base64url : Text → Text
  pub from_base64url : Text → Text

abbrev pub default_limit : ℕ
default_limit = 25

abbrev pub max_limit : ℕ
max_limit = 100

-- `split(":")`, 58 being the colon.
abbrev pub prepend : ℕ → List Text → List Text
prepend c [] = (c ∷ []) ∷ []
prepend c (t ∷ ts) = (c ∷ t) ∷ ts

unfoldable pub split : ℕ → Text → List Text
split sep [] = [] ∷ []
split sep (c ∷ s) = let rest = split sep s in if nat_eq c sep then [] ∷ rest else prepend c rest

-- `items[items.length - 1]`.
abbrev pub last_item : {A : Type 0} → List A → Option A
last_item [] = none
last_item (x ∷ []) = some x
last_item (x ∷ y ∷ xs) = last_item (y ∷ xs)

module _ (coding : Coding) where
  open coding use {read_number, is_finite, is_positive, floor, print, to_base64url, from_base64url}

  unfoldable pub parse_limit : Option Text → ℕ
  parse_limit none = default_limit
  parse_limit (some raw) =
      if is_empty raw
      then default_limit
      else if not (is_finite (read_number raw)) || not (is_positive (read_number raw))
      then default_limit
      else max 1 (min (floor (read_number raw)) max_limit)

  unfoldable pub encode_cursor : Cursor → Text
  encode_cursor c = to_base64url (print c.created_at ++ 58 ∷ c.id)

  -- The parts of a decoded text; a time is taken as a whole number.
  unfoldable pub cursor_of : List Text → Option Cursor
  cursor_of [] = none
  cursor_of (ts ∷ rest) =
      if not (is_finite (read_number ts)) || is_empty (join 58 rest)
      then none
      else some (record { created_at = floor (read_number ts); id = join 58 rest })

  unfoldable pub decode_cursor : Option Text → Option Cursor
  unfolding cursor_of
  decode_cursor none = none
  decode_cursor (some raw) =
      if is_empty raw then none else cursor_of (split 58 (from_base64url raw))

-- `precedes` is the database's order of ids.
module _ (precedes : Text → Text → Bool) where
  -- `created_at < ? OR (created_at = ? AND id < ?)`.
  abbrev pub is_after : Cursor → Cursor → Bool
  is_after c x =
      ltb x.created_at c.created_at || (nat_eq x.created_at c.created_at && precedes x.id c.id)

  abbrev pub keyset_clause : Option Cursor → Cursor → Bool
  keyset_clause none x = true
  keyset_clause (some c) x = is_after c x

  module _ {A : Type 0} (key : A → Cursor) where
    -- `ORDER BY created_at DESC, id DESC`.
    abbrev pub is_newer : A → A → Bool
    is_newer a b = is_after (key a) (key b)

    unfoldable pub select_page : List A → ℕ → Option Cursor → List A
    select_page rows limit cursor =
        take (limit + 1) (sort is_newer (keep (λ x. keyset_clause cursor (key x)) rows))

unfoldable pub page_of : {A : Type 0} → (A → Text) → Bool → List A → Page A
page_of encode more items = record {
  items = items;
  next_cursor = elim (last_item items) [
    | none ↦ none
    | some last ↦ if more then some (encode last) else none
  ];
}

unfoldable pub to_page : {A : Type 0} → List A → ℕ → (A → Text) → Page A
to_page rows limit encode =
    let more = ltb limit (length rows) in
    page_of encode more (if more then take limit rows else rows)

module _ (coding : Coding) (precedes : Text → Text → Bool) {A : Type 0} (key : A → Cursor) where
  -- A page of rows, as `listRunsPage` makes it from a wallet's.
  unfoldable pub list_page : List A → ℕ → Option Cursor → Page A
  unfolding select_page to_page
  list_page rows limit cursor =
      to_page (select_page precedes key rows limit cursor) limit (λ x. encode_cursor coding (key x))
