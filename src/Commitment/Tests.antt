-- ===== src/Commitment/Tests.antt =====
-- lib/commitment.ts at a concrete run, with the toy hash.
use Prim.Native.Char.{code}
use mathlib.Core.Path.{ap₂}
use text.Mathlib.TextEquality.{eq_iff, Char-path}
use aemulus.Common.{
  ℕ, ◌≡◌, ◌≢◌, refl, ◌⊎◌, inl, inr, true, false, String, Option, none, some, [], ◌∷◌, arith,
}
use aemulus.Merkle.{Bytes, hash_leaf, climb, verify_proof, build_merkle, layers_from, pair_up}
use aemulus.Merkle.Binding.{Collision, head_eq, tail_eq}
use aemulus.Merkle.Tests.{toy, toy-HexRoundTrip, toy-Digests32}
use aemulus.Commitment.{
  Texts, CommitField, Commitment, Disclosure, RunFields, leaf_preimage, commitment_fields,
  build_commitment, disclose_field, verify_disclosure, prefixed, ordered, insert_field,
  fresh_leaves, leaf_hex,
}
use aemulus.Commitment.Encoding.{IsUtf8, verify_disclosure-binding}
use aemulus.Commitment.Opening.{Contains}
use aemulus.Commitment.Fields.{disclose_field-commitment_fields}

abbrev codes : String → Bytes
codes String.[] = []
codes (String.◌∷◌ c s) = code c ∷ codes s

abbrev texts : Texts
texts = record { utf8 = codes; before = λ a b. false }

codes-injective : IsUtf8 texts
codes-injective String.[] String.[] h = refl
codes-injective String.[] (String.◌∷◌ d r) h = cc
codes-injective (String.◌∷◌ c s) String.[] h = cc
codes-injective (String.◌∷◌ c s) (String.◌∷◌ d r) h =
    ap₂ String.◌∷◌ (Char-path c d (head_eq h)) (codes-injective s r (tail_eq h))

abbrev run : RunFields
run = record {
  skill_id = "pay";
  status = "completed";
  input = ("vendor", "Acme") ∷ [];
  output = some (("total", "9") ∷ []);
}

abbrev total : CommitField
total = record { name = "output.total"; value = "9" }

abbrev fresh : ℕ → String
fresh n = "salt"

fresh-real : (n : ℕ) → fresh n ≢ ""
fresh-real n e = ground (arith, eq_iff "salt" "")

total-in-run : Contains total (commitment_fields run)
unfolding commitment_fields prefixed
total-in-run = inr (inr (inr (inl refl)))

abbrev get_made : Option Commitment → Commitment
get_made none = record { root = ""; salts = [] }
get_made (some m) = m

abbrev made : Commitment
made = get_made (build_commitment toy texts fresh (commitment_fields run))

built : build_commitment toy texts fresh (commitment_fields run) ≡ some made
unfolding build_commitment build_merkle layers_from pair_up commitment_fields prefixed ordered
    insert_field fresh_leaves
built = refl

disclose_field-commitment_fields_example :
    (m : Commitment) × (d : Disclosure) × (build_commitment toy texts fresh (commitment_fields run)
      ≡ some m)
    × (disclose_field toy texts (commitment_fields run) m.salts m.root "output.total" ≡ some d)
    × (d.value ≡ "9")
    × (verify_disclosure toy texts m.root "output.total" d.value d.salt d.proof ≡ true)
disclose_field-commitment_fields_example =
    disclose_field-commitment_fields toy texts fresh toy-HexRoundTrip fresh-real run total (tt, tt)
      (tt, tt) total-in-run

-- A commitment to one field, and a value that the toy hash takes to the same digest.
abbrev colliding : CommitField
colliding = record { name = "output.total"; value = "F" }

abbrev root : String
root = toy.to_hex (hash_leaf toy (leaf_hex toy texts (fresh 0) total.name total.value))

opened : verify_disclosure toy texts root total.name total.value (fresh 0) [] ≡ true
unfolding verify_disclosure verify_proof climb leaf_hex leaf_preimage
opened = refl

opened_colliding : verify_disclosure toy texts root total.name colliding.value (fresh 0) [] ≡ true
unfolding verify_disclosure verify_proof climb leaf_hex leaf_preimage
opened_colliding = refl

verify_disclosure-binding_example :
    ((total.name ≡ total.name) × (total.value ≡ colliding.value) × (fresh 0 ≡ fresh 0))
    ⊎ Collision toy
verify_disclosure-binding_example =
    verify_disclosure-binding texts codes-injective toy toy-HexRoundTrip toy-Digests32 root
      total.name total.name total.value colliding.value (fresh 0) (fresh 0) [] []
      (omega arith, (omega arith, (omega arith, (omega arith, (omega arith, (omega arith, tt))))))
      refl opened opened_colliding
