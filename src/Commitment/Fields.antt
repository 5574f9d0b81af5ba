-- ===== src/Commitment/Fields.antt =====
-- The fields of a run have different names, so each of them can be disclosed.
use aemulus.Common.{
  All-append, ℕ, ◌≡◌, ◌≢◌, refl, ap, ◌∙◌, some, true, String, List, [], ◌∷◌, ◌++◌, All, arith,
}
use aemulus.Commitment.{
  Texts, CommitField, Commitment, Disclosure, build_commitment, disclose_field, verify_disclosure,
  RunFields, prefixed, entries, commitment_fields,
}
use aemulus.Merkle.{Crypto}
use aemulus.Merkle.Inclusion.{HexRoundTrip}
use text.Mathlib.TextEquality.{eq_iff}
use aemulus.Commitment.Opening.{
  IsDistinct, Contains, build_commitment-total, disclose_field-build_commitment,
}
use Prim.Native.Char.{Char, code}
use Prim.Native.String.{◌++◌ as text_append}
use text.Mathlib.TextLemmas.{cons-append, append_cancel_left}

-- The keys of an object are different.
abbrev pub KeysDistinct : List (String × String) → Type 0
KeysDistinct [] = Unit
KeysDistinct (e ∷ es) = All (λ g. e.0 ≢ g.0) es × KeysDistinct es

first_code : String → ℕ
first_code String.[] = 0
first_code (String.◌∷◌ c s) = code c

first_code-append :
    (c : Char) (s k : String)
    → first_code (text_append (String.◌∷◌ c s) k) ≡ first_code (String.◌∷◌ c s)
unfolding first_code
first_code-append c s k = rw cons-append refl

-- A text that begins with another character is not under the prefix.
other_first :
    (c : Char) (s k text : String)
    → first_code text ≢ first_code (String.◌∷◌ c s)
    → text ≢ text_append (String.◌∷◌ c s) k
other_first c s k text n h = n (ap first_code h ∙ first_code-append c s k)

module _ (c : Char) (s : String) where
  All-prefixed :
      (name : String) (es : List (String × String))
      → ((k : String) → name ≢ text_append (String.◌∷◌ c s) k)
      → All (λ g. name ≢ g.name) (prefixed (String.◌∷◌ c s) es)
  unfolding prefixed
  All-prefixed name [] n = tt
  All-prefixed name ((k, v) ∷ es) n = (n k, All-prefixed name es n)

  All-prefixed_key :
      (k : String) (es : List (String × String))
      → All (λ g. k ≢ g.0) es
      → All (λ g. text_append (String.◌∷◌ c s) k ≢ g.name) (prefixed (String.◌∷◌ c s) es)
  unfolding prefixed
  All-prefixed_key k [] n = tt
  All-prefixed_key k ((j, v) ∷ es) (n, ns) =
      (λ h. n (append_cancel_left (String.◌∷◌ c s) k j h), All-prefixed_key k es ns)

  prefixed-IsDistinct :
      (es : List (String × String)) → KeysDistinct es → IsDistinct (prefixed (String.◌∷◌ c s) es)
  unfolding prefixed
  prefixed-IsDistinct [] d = tt
  prefixed-IsDistinct ((k, v) ∷ es) (n, d) = (All-prefixed_key k es n, prefixed-IsDistinct es d)

IsDistinct-append :
    (xs ys : List CommitField)
    → IsDistinct xs
    → IsDistinct ys
    → All (λ f. All (λ g. f.name ≢ g.name) ys) xs
    → IsDistinct (xs ++ ys)
IsDistinct-append [] ys dx dy apart = dy
IsDistinct-append (x ∷ xs) ys (n, dx) dy (a, apart) =
    (All-append _ xs ys n a, IsDistinct-append xs ys dx dy apart)

input-ne-output : (k j : String) → text_append "input." k ≢ text_append "output." j
unfolding first_code
input-ne-output k j =
    other_first "o" "utput." j (text_append "input." k)
      λ e. omega (arith, e, first_code-append "i" "nput." k)

-- A text that begins with an "s" is no input's and no output's name.
outside :
    (name : String) (run : RunFields)
    → first_code name ≡ 115
    → All
        (λ g. name ≢ g.name)
        (prefixed "input." run.input ++ prefixed "output." (entries run.output))
unfolding first_code
outside name run s =
    All-append _ (prefixed "input." run.input) (prefixed "output." (entries run.output))
      (All-prefixed "i" "nput." name run.input
        λ k. other_first "i" "nput." k name λ e. omega (arith, s, e))
      (All-prefixed "o" "utput." name (entries run.output)
        λ k. other_first "o" "utput." k name λ e. omega (arith, s, e))

inputs_apart :
    (es os : List (String × String))
    → All (λ f. All (λ g. f.name ≢ g.name) (prefixed "output." os)) (prefixed "input." es)
unfolding prefixed
inputs_apart [] os = tt
inputs_apart ((k, v) ∷ es) os =
    (All-prefixed "o" "utput." _ os (input-ne-output k), inputs_apart es os)

-- For a run whose input and output have different keys, the names of the fields that are
-- committed to are all different.
pub commitment_fields-IsDistinct :
    (run : RunFields)
    → KeysDistinct run.input
    → KeysDistinct (entries run.output)
    → IsDistinct (commitment_fields run)
unfolding commitment_fields first_code
commitment_fields-IsDistinct run di dt = (
  (λ e. ground (arith, eq_iff "skillId" "status"), outside "skillId" run refl),
  (
    outside "status" run refl,
    IsDistinct-append _ _ (prefixed-IsDistinct "i" "nput." run.input di)
        (prefixed-IsDistinct "o" "utput." (entries run.output) dt)
        (inputs_apart run.input (entries run.output)),
  ),
)

-- For a run whose input and output have different keys, salts that are not empty and hex encoding
-- that can be undone, a commitment to the run exists, and each of its fields has a disclosure
-- that shows the field's value and checks against the commitment's root.
pub disclose_field-commitment_fields :
    (c : Crypto) (t : Texts) (fresh : ℕ → String)
    → HexRoundTrip c
    → ((n : ℕ) → fresh n ≢ "")
    → (run : RunFields) (h : CommitField) → KeysDistinct run.input
    → KeysDistinct (entries run.output)
    → Contains h (commitment_fields run)
    → (made : Commitment) × (d : Disclosure) × (build_commitment c t fresh (commitment_fields run)
        ≡ some made)
      × (disclose_field c t (commitment_fields run) made.salts made.root h.name ≡ some d)
      × (d.value ≡ h.value)
      × (verify_disclosure c t made.root h.name d.value d.salt d.proof ≡ true)
disclose_field-commitment_fields c t fresh hex salted run h di dt member =
    let distinct = commitment_fields-IsDistinct run di dt in
    let (made, built) = build_commitment-total c t fresh hex (commitment_fields run) h member in
    let (d, e, name, value, ok) =
      disclose_field-build_commitment c t fresh hex salted _ h made distinct member built in
    (made, d, built, e, value, rw name at ok)
