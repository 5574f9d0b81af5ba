-- ===== src/Pages/Cursors.antt =====
-- lib/pagination.ts: a cursor is read back from its text.
use aemulus.Common.{
  ℕ, ◌≤◌, ◌<◌, ◌^◌, All, All-append, ◌≡◌, ◌≢◌, nat_eq_iff, refl, sym, subst, ap, ◌∙◌, Bool, true,
  false, not, ◌||◌, Option, none, some, List, [], ◌∷◌, ◌++◌, nat_eq, if◌then◌else◌, any, arith,
}
use aemulus.Common.Texts.{Text, is_empty}
use aemulus.Csv.{join}
use aemulus.Pages.{
  Cursor, Coding, prepend, split, parse_limit, encode_cursor, cursor_of, decode_cursor,
}

-- The integers below it are numbers of the language.
abbrev pub safe_bound : ℕ
safe_bound = 2 ^ 53

abbrev pub IsAscii : Text → Type 0
IsAscii t = All (λ u. u < 128) t

-- A cursor as rows have it: its id is of ASCII and not empty.
pub record IsPlain (c : Cursor) : Type 0 where
  pub some_id : is_empty c.id ≡ false
  pub ascii : IsAscii c.id
  pub safe : c.created_at < safe_bound

-- What the language does with the times and ids of rows: a time is printed without a colon and read
-- back, and an ASCII text that base64url encoded comes back whole.
pub record CodingLaws (coding : Coding) : Type 0 where
  pub finite :
      (n : ℕ) → n < safe_bound → coding.is_finite (coding.read_number (coding.print n)) ≡ true
  pub read : (n : ℕ) → n < safe_bound → coding.floor (coding.read_number (coding.print n)) ≡ n
  pub digits : (n : ℕ) → n < safe_bound → any (λ c. nat_eq c 58) (coding.print n) ≡ false
  pub print_ascii : (n : ℕ) → n < safe_bound → IsAscii (coding.print n)
  pub some_text : (t : Text) → is_empty t ≡ false → is_empty (coding.to_base64url t) ≡ false
  pub back : (t : Text) → IsAscii t → coding.from_base64url (coding.to_base64url t) ≡ t

join-prepend : (c : ℕ) (ts : List Text) → ts ≢ [] → join 58 (prepend c ts) ≡ c ∷ join 58 ts
unfolding join
join-prepend c [] h = absurd (h refl)
join-prepend c (t ∷ []) h = refl
join-prepend c (t ∷ u ∷ ts) h = refl

prepend-some : (c : ℕ) (ts : List Text) → prepend c ts ≢ []
prepend-some c [] h = cc
prepend-some c (t ∷ ts) h = cc

branch-some : (b : Bool) (c : ℕ) (ts : List Text) → (if b then [] ∷ ts else prepend c ts) ≢ []
branch-some true c ts h = cc
branch-some false c ts h = prepend-some c ts h

split-some : (s : Text) → split 58 s ≢ []
unfolding split
split-some [] = λ h. cc
split-some (c ∷ s) = branch-some (nat_eq c 58) c (split 58 s)

join_branch :
    (b : Bool) (c : ℕ) (ts : List Text)
    → ts ≢ []
    → (b ≡ true → c ≡ 58)
    → join 58 (if b then [] ∷ ts else prepend c ts) ≡ c ∷ join 58 ts
unfolding join
join_branch true c [] h k = absurd (h refl)
join_branch true c (t ∷ ts) h k = ap (λ x. x ∷ join 58 (t ∷ ts)) (sym (k refl))
join_branch false c ts h k = join-prepend c ts h

join-split : (s : Text) → join 58 (split 58 s) ≡ s
unfolding split
join-split [] = unfold join in refl
join-split (c ∷ s) =
    join_branch (nat_eq c 58) c (split 58 s) (split-some s) (λ k. (nat_eq_iff c 58).0 k)
    ∙ ap (λ x. c ∷ x) (join-split s)

or_false : (a b : Bool) → a || b ≡ false → (a ≡ false) × (b ≡ false)
or_false a b h = ground arith

split-append :
    (t s : Text) → any (λ c. nat_eq c 58) t ≡ false → split 58 (t ++ 58 ∷ s) ≡ t ∷ split 58 s
unfolding split
split-append [] s h = refl
split-append (c ∷ t) s h =
    let k = or_false (nat_eq c 58) (any (λ d. nat_eq d 58) t) h in
    ap (λ b. if b then [] ∷ split 58 (t ++ 58 ∷ s) else prepend c (split 58 (t ++ 58 ∷ s))) k.0
    ∙ ap (prepend c) (split-append t s k.1)

abbrev text_of : Coding → Cursor → Text
text_of coding c = coding.print c.created_at ++ 58 ∷ c.id

text_some : (t s : Text) → is_empty (t ++ 58 ∷ s) ≡ false
text_some [] s = refl
text_some (c ∷ t) s = refl

decoded :
    (coding : Coding) (raw : Text)
    → is_empty raw ≡ false
    → decode_cursor coding (some raw) ≡ cursor_of coding (split 58 (coding.from_base64url raw))
unfolding decode_cursor
decoded coding raw h = rw h

cursor_of_parts :
    (coding : Coding) (c : Cursor) (rest : List Text)
    → CodingLaws coding
    → IsPlain c
    → join 58 rest ≡ c.id
    → cursor_of coding (coding.print c.created_at ∷ rest) ≡ some c
unfolding cursor_of
cursor_of_parts coding c rest laws p j =
    subst
      (λ i.
        (if not (coding.is_finite (coding.read_number (coding.print c.created_at))) || is_empty i
          then none
          else some (record {
            created_at = coding.floor (coding.read_number (coding.print c.created_at));
            id = i;
          }))
        ≡ some c)
      (sym j)
      (rw (laws.finite c.created_at p.safe)
        (rw p.some_id (rw (laws.read c.created_at p.safe) refl)))

text_of-IsAscii :
    (coding : Coding) (c : Cursor) → CodingLaws coding → IsPlain c → IsAscii (text_of coding c)
text_of-IsAscii coding c laws p =
    All-append (λ u. u < 128) (coding.print c.created_at) (58 ∷ c.id)
      (laws.print_ascii c.created_at p.safe) (omega arith, p.ascii)

-- The cursor of a row is read back from its text.
pub decode_cursor-encode_cursor :
    (coding : Coding) (c : Cursor)
    → CodingLaws coding
    → IsPlain c
    → decode_cursor coding (some (encode_cursor coding c)) ≡ some c
unfolding encode_cursor
decode_cursor-encode_cursor coding c laws p =
    decoded coding (encode_cursor coding c)
      (laws.some_text (text_of coding c) (text_some (coding.print c.created_at) c.id))
    ∙ ap (λ t. cursor_of coding (split 58 t))
        (laws.back (text_of coding c) (text_of-IsAscii coding c laws p))
    ∙ ap (cursor_of coding)
        (split-append (coding.print c.created_at) c.id (laws.digits c.created_at p.safe))
    ∙ cursor_of_parts coding c (split 58 c.id) laws p (join-split c.id)

-- A limit that a client asks for is kept between 1 and 100.
pub parse_limit_bounds :
    (coding : Coding) (raw : Option Text)
    → (1 ≤ parse_limit coding raw) × (parse_limit coding raw ≤ 100)
unfolding parse_limit
parse_limit_bounds coding none = omega arith
parse_limit_bounds coding (some raw) = ground arith
