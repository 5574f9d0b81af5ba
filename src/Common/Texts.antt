-- ===== src/Common/Texts.antt =====
-- Texts as lists of their UTF-16 units, and what the language does with them.
use Prim.Native.Char.{code}
use Prim.Native.Nat.{ℕ}
use Prim.Native.String.{String}
use mathlib.Core.Path.{◌≡◌}
use mathlib.Core.Logic.{◌↔◌}
use mathlib.Core.Bool.{Bool, true, false, ◌&&◌, ◌||◌}
use mathlib.Core.List.{List, [], ◌∷◌}
use native.Mathlib.Omega.{arith}
use aemulus.Common.Tests.{leb, nat_eq, if◌then◌else◌, Eq}

abbrev pub Text : Type 0
Text = List ℕ

abbrev pub same_text : Text → Text → Bool
same_text [] [] = true
same_text (a ∷ s) (b ∷ t) = nat_eq a b && same_text s t
same_text _ _ = false

pub same_text_iff : (s t : Text) → (same_text s t ≡ true) ↔ (s ≡ t)
same_text_iff [] [] = ground arith
same_text_iff [] (b ∷ t) = ground arith
same_text_iff (a ∷ s) [] = ground arith
same_text_iff (a ∷ s) (b ∷ t) = ground (arith, same_text_iff s t)

instance abbrev pub text_Eq : Eq Text
text_Eq = record { same = same_text; decides = same_text_iff }

abbrev pub is_empty : Text → Bool
is_empty [] = true
is_empty (c ∷ s) = false

abbrev pub units : String → Text
units String.[] = []
units (String.◌∷◌ c s) = code c ∷ units s

-- `\s`, and what `trim` removes.
unfoldable pub is_space : ℕ → Bool
is_space c =
    leb 9 c && leb c 13
    || nat_eq c 32
    || nat_eq c 160
    || nat_eq c 5760
    || leb 8192 c && leb c 8202
    || nat_eq c 8232
    || nat_eq c 8233
    || nat_eq c 8239
    || nat_eq c 8287
    || nat_eq c 12288
    || nat_eq c 65279

unfoldable pub trim_start : Text → Text
trim_start [] = []
trim_start (c ∷ s) = elim (is_space c) [ true ↦ trim_start s | false ↦ c ∷ s ]

unfoldable pub put_unless_blank : ℕ → Text → Text
put_unless_blank c rest = if is_space c && is_empty rest then [] else c ∷ rest

unfoldable pub trim_end : Text → Text
unfolding put_unless_blank
trim_end [] = []
trim_end (c ∷ s) = put_unless_blank c (trim_end s)

unfoldable pub trim : Text → Text
trim s = trim_end (trim_start s)

unfoldable pub is_prefix : Text → Text → Bool
is_prefix [] t = true
is_prefix (c ∷ s) [] = false
is_prefix (c ∷ s) (d ∷ t) = nat_eq c d && is_prefix s t

-- `String.prototype.includes`.
unfoldable pub includes : Text → Text → Bool
includes [] s = is_prefix s []
includes (c ∷ t) s = is_prefix s (c ∷ t) || includes t s
