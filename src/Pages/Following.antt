-- ===== src/Pages/Following.antt =====
-- lib/pagination.ts: whoever follows the cursors reads each row once.
use mathlib.Core.List.{append_assoc}
use aemulus.Common.{
  ℕ, zero, suc, ◌+◌, ◌<◌, ◌≤◌, ◌≡◌, refl, sym, ap, ◌∙◌, subst, inl, inr, Bool, true, false, Option,
  none, some, List, [], ◌∷◌, ◌++◌, length, ltb, keep, sort, take, Bool-cases, arith,
}
use aemulus.Common.Texts.{Text}
use aemulus.Pages.Cursors.{IsPlain, CodingLaws, decode_cursor-encode_cursor}
use aemulus.Pages.{
  Cursor, Page, Coding, last_item, decode_cursor, encode_cursor, keyset_clause, is_newer,
  select_page, page_of, to_page, list_page,
}
use aemulus.Pages.Order.{
  IsStrict, AreApart, IsSorted, sort-IsSorted, sort-keep, keep-after, length-sort,
}

-- A list that is longer than a limit of at least one has a last item of its first page.
pub record Cut {A : Type 0} (limit : ℕ) (xs : List A) : Type 0 where
  pub init : List A
  pub last : A
  pub rest : List A
  pub first : take limit xs ≡ init ++ last ∷ []
  pub whole : xs ≡ init ++ last ∷ rest
  pub less : length rest < length xs

cut : {A : Type 0} (m : ℕ) (xs : List A) → suc m < length xs → Cut (suc m) xs
cut m [] h = absurd (omega arith)
cut zero (x ∷ xs) h = record {
  init = [];
  last = x;
  rest = xs;
  first = refl;
  whole = refl;
  less = omega arith;
}
cut (suc m) (x ∷ xs) h =
    let c = cut m xs (omega arith) in
    record {
      init = x ∷ c.init;
      last = c.last;
      rest = c.rest;
      first = ap (λ t. x ∷ t) c.first;
      whole = ap (λ t. x ∷ t) c.whole;
      less = omega (arith, c.less);
    }

last_item-append : {A : Type 0} (init : List A) (x : A) → last_item (init ++ x ∷ []) ≡ some x
last_item-append [] x = refl
last_item-append (y ∷ []) x = refl
last_item-append (y ∷ z ∷ init) x = last_item-append (z ∷ init) x

take-take : {A : Type 0} (m : ℕ) (xs : List A) → take m (take (suc m) xs) ≡ take m xs
take-take zero xs = refl
take-take (suc m) [] = refl
take-take (suc m) (x ∷ xs) = ap (λ t. x ∷ t) (take-take m xs)

take-all : {A : Type 0} (m : ℕ) (xs : List A) → length xs ≤ m → take (suc m) xs ≡ xs
take-all m [] h = refl
take-all zero (x ∷ xs) h = absurd (omega arith)
take-all (suc m) (x ∷ xs) h = ap (λ t. x ∷ t) (take-all m xs (omega arith))

length-take_more :
    {A : Type 0} (m : ℕ) (xs : List A) → m < length xs → length (take (suc m) xs) ≡ suc m
length-take_more m [] h = absurd (omega arith)
length-take_more zero (x ∷ xs) h = refl
length-take_more (suc m) (x ∷ xs) h = omega (arith, length-take_more m xs (omega arith))

keep-true : {A : Type 0} (xs : List A) → keep (λ x. true) xs ≡ xs
keep-true [] = refl
keep-true (x ∷ xs) = ap (λ t. x ∷ t) (keep-true xs)

page_of-false :
    {A : Type 0} (encode : A → Text) (xs : List A)
    → page_of encode false xs ≡ record { items = xs; next_cursor = none }
unfolding page_of
page_of-false encode xs = ground arith

page_of-true :
    {A : Type 0} (encode : A → Text) (init : List A) (x : A)
    → page_of encode true (init ++ x ∷ [])
      ≡ record { items = init ++ x ∷ []; next_cursor = some (encode x) }
unfolding page_of
page_of-true encode init x = ground (arith, last_item-append init x)

-- What a client does with a page: it ends, or it goes on with the next.
abbrev joined : {A : Type 0} → List A → Option (List A) → Option (List A)
joined items none = none
joined items (some more) = some (items ++ more)

abbrev pub go_on : {A : Type 0} → (Text → Option (List A)) → List A → Option Text → Option (List A)
go_on more items none = some items
go_on more items (some next) = joined items (more next)

module _ (coding : Coding) (precedes : Text → Text → Bool) {A : Type 0} (key : A → Cursor) where
  -- A client that follows the cursors, for at most so many pages; none where they are not enough.
  unfoldable pub follow : ℕ → List A → ℕ → Option Text → Option (List A)
  unfolding list_page
  follow zero rows limit raw = none
  follow (suc fuel) rows limit raw =
      let page = list_page coding precedes key rows limit (decode_cursor coding raw) in
      go_on (λ next. follow fuel rows limit (some next)) page.items page.next_cursor

  to_page-last :
      (m : ℕ) (xs : List A) (encode : A → Text)
      → length xs ≤ m
      → to_page (take (suc m) xs) m encode ≡ record { items = xs; next_cursor = none }
  unfolding to_page
  to_page-last m xs encode h =
      let full : ltb m (length xs) ≡ false = ground arith in
      ap (λ t. to_page t m encode) (take-all m xs h) ∙ rw full (page_of-false encode xs)

  to_page-more :
      (m : ℕ) (xs : List A) (encode : A → Text) (c : Cut (suc m) xs)
      → suc m < length xs
      → to_page (take (suc (suc m)) xs) (suc m) encode
        ≡ record { items = c.init ++ c.last ∷ []; next_cursor = some (encode c.last) }
  unfolding to_page
  to_page-more m xs encode c h =
      let more : ltb (suc m) (length (take (suc (suc m)) xs)) ≡ true =
        ground (arith, length-take_more (suc m) xs h) in
      rw more (
        ap (page_of encode true) (take-take (suc m) xs ∙ c.first)
        ∙ page_of-true encode c.init c.last)

  module _ (strict : IsStrict (is_newer precedes key)) (rows : List A)
      (apart : AreApart (is_newer precedes key) rows) (m : ℕ) (laws : CodingLaws coding)
      (plain : (x : A) → IsPlain (key x)) where
    round_trip : (x : A) → decode_cursor coding (some (encode_cursor coding (key x))) ≡ some (key x)
    round_trip x = decode_cursor-encode_cursor coding (key x) laws (plain x)

    abbrev listed : List A
    listed = sort (is_newer precedes key) rows

    abbrev selected : Option Cursor → List A
    selected cursor =
        sort (is_newer precedes key) (keep (λ x. keyset_clause precedes cursor (key x)) rows)

    list_page-selected :
        (cursor : Option Cursor)
        → list_page coding precedes key rows (suc m) cursor
          ≡ to_page
              (take (suc (suc m)) (selected cursor))
              (suc m)
              (λ x. encode_cursor coding (key x))
    unfolding list_page select_page
    list_page-selected cursor =
        let e : suc m + 1 ≡ suc (suc m) = omega arith in
        ap (λ k. to_page (take k (selected cursor)) (suc m) (λ x. encode_cursor coding (key x))) e

    -- After a row of the list, the cursor of the row selects the rest.
    selected-key :
        (done : List A) (c : A) (rest : List A)
        → listed ≡ done ++ c ∷ rest
        → selected (some (key c)) ≡ rest
    selected-key done c rest at =
        sort-keep (is_newer precedes key) strict (is_newer precedes key c) rows apart
        ∙ ap (keep (is_newer precedes key c)) at
        ∙ keep-after (is_newer precedes key) strict done c rest (
            subst (IsSorted (is_newer precedes key)) at
              (sort-IsSorted (is_newer precedes key) strict rows apart))

    follow-selected :
        (fuel : ℕ) (raw : Option Text) (done rest : List A)
        → listed ≡ done ++ rest
        → selected (decode_cursor coding raw) ≡ rest
        → length rest < fuel
        → follow fuel rows (suc m) raw ≡ some rest
    unfolding follow
    follow-selected zero raw done rest at sel f = absurd (omega arith)
    follow-selected (suc fuel) raw done rest at sel f =
        let page =
          list_page-selected (decode_cursor coding raw)
          ∙ ap (λ t. to_page (take (suc (suc m)) t) (suc m) (λ x. encode_cursor coding (key x)))
              sel in
        let after : Page A → Option (List A) =
          λ p. go_on (λ next. follow fuel rows (suc m) (some next)) p.items p.next_cursor in
        elim (Bool-cases (ltb (suc m) (length rest))) [
          | inr last ↦
              ap after (
                page ∙ to_page-last (suc m) rest (λ x. encode_cursor coding (key x)) (ground arith))
          | inl more ↦
              let c = cut m rest (ground arith) in
              let at' : listed ≡ (done ++ c.init) ++ c.last ∷ c.rest =
                at
                ∙ ap (λ t. done ++ t) c.whole
                ∙ sym (append_assoc done c.init (c.last ∷ c.rest)) in
              let at'' : listed ≡ ((done ++ c.init) ++ c.last ∷ []) ++ c.rest =
                at' ∙ sym (append_assoc (done ++ c.init) (c.last ∷ []) c.rest) in
              let next = encode_cursor coding (key c.last) in
              let rec : follow fuel rows (suc m) (some next) ≡ some c.rest =
                follow-selected fuel (some next) ((done ++ c.init) ++ c.last ∷ []) c.rest at''
                  (ap selected (round_trip c.last)
                    ∙ selected-key (done ++ c.init) c.last c.rest at')
                  (omega (arith, c.less)) in
              ap after
                (page ∙ to_page-more m rest (λ x. encode_cursor coding (key x)) c (ground arith))
              ∙ ap (joined (c.init ++ c.last ∷ [])) rec
              ∙ ap some (append_assoc c.init (c.last ∷ []) c.rest ∙ sym c.whole)
        ]

    -- Where the order of rows, newest first, is strict and sets any two rows apart, ids are of
    -- ASCII and not empty, times are below 2^53, numbers and base64url read back what they wrote
    -- of these, and the limit is at least one: a client that follows the cursors from the first
    -- page for more pages than there are rows comes to an end and has read every row once, in the
    -- order of the list.
    pub follow-all :
        (fuel : ℕ)
        → length rows < fuel
        → follow fuel rows (suc m) none ≡ some (sort (is_newer precedes key) rows)
    follow-all fuel f =
        follow-selected fuel none [] listed refl
          (unfold decode_cursor in ap (sort (is_newer precedes key)) (keep-true rows))
          (omega (arith, length-sort (is_newer precedes key) rows))
