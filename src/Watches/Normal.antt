-- ===== src/Watches/Normal.antt =====
-- lib/watches.ts: `normalize` leaves what is normal as it is, and its results are normal.

use aemulus.Common.{
  ◌≡◌, refl, Bool, true, false, not, ◌&&◌, ◌||◌, [], ◌∷◌, nat_eq, if◌then◌else◌, arith,
}
use aemulus.Watches.{
  Text, is_empty, is_zero_width, is_space, without_zero_width, collapse, trim_start,
  put_unless_blank, trim_end, trim, normalize,
}

-- No zero-width unit; each space single and plain; `blank` says that the unit before was a space.
is_spaced : Bool → Text → Bool
is_spaced blank [] = true
is_spaced blank (c ∷ s) =
    not (is_zero_width c)
    && (if is_space c then nat_eq c 32 && not blank && is_spaced true s else is_spaced false s)

-- The same, with no space at the end.
is_tidy : Bool → Text → Bool
is_tidy blank [] = not blank
is_tidy blank (c ∷ s) =
    not (is_zero_width c)
    && (if is_space c then nat_eq c 32 && not blank && is_tidy true s else is_tidy false s)

unfoldable pub is_normal : Text → Bool
unfolding is_tidy
is_normal s = is_empty s || is_tidy true s

plain_space : is_space 32 ≡ true
unfolding is_space
plain_space = refl

plain_width : is_zero_width 32 ≡ false
unfolding is_zero_width
plain_width = refl

collapse-is_spaced :
    (blank : Bool) (s : Text) → is_spaced blank (collapse blank (without_zero_width s)) ≡ true
unfolding is_spaced collapse without_zero_width
collapse-is_spaced true [] = refl
collapse-is_spaced false [] = refl
collapse-is_spaced true (c ∷ s) =
    ground (arith, collapse-is_spaced true s, collapse-is_spaced false s, plain_space, plain_width)
collapse-is_spaced false (c ∷ s) =
    ground (arith, collapse-is_spaced true s, collapse-is_spaced false s, plain_space, plain_width)

-- Without the leading spaces, nothing stands before the first unit.
trim_start-is_spaced :
    (blank : Bool) (s : Text) → is_spaced blank s ≡ true → is_spaced true (trim_start s) ≡ true
unfolding is_spaced trim_start
trim_start-is_spaced blank [] h = refl
trim_start-is_spaced blank (c ∷ s) h = ground (arith, trim_start-is_spaced true s)

trim_end-is_tidy :
    (blank : Bool) (s : Text)
    → is_spaced blank s ≡ true
    → is_empty (trim_end s) || is_tidy blank (trim_end s) ≡ true
unfolding is_spaced is_tidy trim_end put_unless_blank
trim_end-is_tidy blank [] h = refl
trim_end-is_tidy blank (c ∷ s) h =
    ground (arith, trim_end-is_tidy true s, trim_end-is_tidy false s, empty_tidy (trim_end s))
  where
    empty_tidy : (t : Text) → is_empty t ≡ true → is_tidy false t ≡ true
    empty_tidy [] e = refl
    empty_tidy (c ∷ t) e = cc

-- The result of a normalization is in normal form.
pub normalize-is_normal : (s : Text) → is_normal (normalize s) ≡ true
unfolding normalize is_normal trim
normalize-is_normal s =
    trim_end-is_tidy true _ (trim_start-is_spaced false _ (collapse-is_spaced false s))

without_zero_width-tidy :
    (blank : Bool) (s : Text) → is_tidy blank s ≡ true → without_zero_width s ≡ s
unfolding is_tidy without_zero_width
without_zero_width-tidy blank [] h = refl
without_zero_width-tidy blank (c ∷ s) h =
    ground (arith, without_zero_width-tidy true s, without_zero_width-tidy false s)

collapse-tidy : (blank : Bool) (s : Text) → is_tidy blank s ≡ true → collapse blank s ≡ s
unfolding is_tidy collapse
collapse-tidy blank [] h = refl
collapse-tidy blank (c ∷ s) h = ground (arith, collapse-tidy true s, collapse-tidy false s)

trim_end-tidy : (blank : Bool) (s : Text) → is_tidy blank s ≡ true → trim_end s ≡ s
unfolding is_tidy trim_end put_unless_blank
trim_end-tidy blank [] h = refl
trim_end-tidy blank (c ∷ []) h = ground arith
trim_end-tidy blank (c ∷ d ∷ s) h =
    ground (arith, trim_end-tidy true (d ∷ s), trim_end-tidy false (d ∷ s))

trim_start-tidy : (s : Text) → is_tidy true s ≡ true → trim_start s ≡ s
unfolding is_tidy trim_start
trim_start-tidy [] h = refl
trim_start-tidy (c ∷ s) h = ground arith

spaced_of_first : (s : Text) → is_tidy true s ≡ true → is_tidy false s ≡ true
unfolding is_tidy
spaced_of_first [] h = refl
spaced_of_first (c ∷ s) h = ground arith

normalize_tidy : (s : Text) → is_tidy true s ≡ true → normalize s ≡ s
unfolding normalize trim
normalize_tidy s h =
    rw
      (
        without_zero_width-tidy true s h,
        collapse-tidy false s (spaced_of_first s h),
        trim_start-tidy s h,
        trim_end-tidy true s h,
      )
      refl

normalize_normal : (s : Text) → is_normal s ≡ true → normalize s ≡ s
unfolding is_normal normalize trim trim_end trim_start collapse without_zero_width
normalize_normal [] h = refl
normalize_normal (c ∷ s) h = normalize_tidy (c ∷ s) h

-- To normalize twice is to normalize once.
pub normalize-normalize : (s : Text) → normalize (normalize s) ≡ normalize s
normalize-normalize s = normalize_normal (normalize s) (normalize-is_normal s)
