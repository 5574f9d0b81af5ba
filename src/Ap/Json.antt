-- ===== src/Ap/Json.antt =====
-- JSON values, and `canonicalize` of lib/ap-controls/override-log.ts. A key whose value is
-- `undefined` is left out of an object here, as the code leaves it out of what it seals and stores.
use Prim.Native.String.{◌++◌ as text_append}
use aemulus.Common.{ℕ, Bool, String, List, [], ◌∷◌, if◌then◌else◌, sort}
use aemulus.Common.Int.{ℤ, pos}

-- A number of JSON: `decimal m k` is m / 10 ^ k.
pub data Number : Type 0 where
  decimal : ℤ → ℕ → Number

abbrev pub whole : ℕ → Number
whole n = decimal (pos n) 0

mutual
  pub data Json : Type 0 where
    null : Json
    bool : Bool → Json
    num : Number → Json
    str : String → Json
    arr : Items → Json
    obj : Fields → Json

  pub data Items : Type 0 where
    nil : Items
    cons : Json → Items → Items

  pub data Fields : Type 0 where
    end : Fields
    field : String → Json → Fields → Fields

-- What the code takes from the language: `JSON.stringify` of texts and numbers, `<` on texts.
pub record Printing : Type 0 where
  pub quote : String → String
  pub show : Number → String
  pub before : String → String → Bool

abbrev pub entry_text : String → String → String
entry_text quoted value = text_append quoted (text_append ":" value)

-- `Array.prototype.join(",")`.
unfoldable pub join : List String → String
join [] = ""
join (s ∷ []) = s
join (s ∷ r ∷ rest) = text_append s (text_append "," (join (r ∷ rest)))

abbrev pub braced : String → String → String → String
braced open' body close = text_append open' (text_append body close)

module _ (p : Printing) where
  open p use {quote, show, before}

  -- The entries of an object, sorted by key.
  unfoldable pub sorted_entries : List (String × String) → List (String × String)
  sorted_entries es = sort (λ a b. before a.0 b.0) es

  unfoldable pub entry_texts : List (String × String) → List String
  entry_texts [] = []
  entry_texts ((k, v) ∷ es) = entry_text (quote k) v ∷ entry_texts es

  unfoldable mutual
    pub canonicalize : Json → String
    canonicalize null = "null"
    canonicalize (bool b) = if b then "true" else "false"
    canonicalize (num n) = show n
    canonicalize (str s) = quote s
    canonicalize (arr xs) = braced "[" (join (canonical_items xs)) "]"
    canonicalize (obj fs) =
        braced "{" (join (entry_texts (sorted_entries (canonical_fields fs)))) "}"

    pub canonical_items : Items → List String
    canonical_items nil = []
    canonical_items (cons x xs) = canonicalize x ∷ canonical_items xs

    pub canonical_fields : Fields → List (String × String)
    canonical_fields end = []
    canonical_fields (field k v fs) = (k, canonicalize v) ∷ canonical_fields fs
