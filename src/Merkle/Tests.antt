-- ===== src/Merkle/Tests.antt =====
-- lib/merkle.ts at concrete inputs, with a toy hash in place of SHA-256.

use aemulus.Common.{
  ℕ, zero, suc, ◌+◌, ◌*◌, ◌%◌, ◌≡◌, refl, ◌⊎◌, true, String, Option, none, some, List, [], ◌∷◌, ap,
}
use aemulus.Merkle.{
  Bytes, Crypto, Sibling, MerkleTree, build_merkle, siblings_from, layers_from, pair_up,
  proof_for_index, climb, verify_proof,
}
use aemulus.Merkle.Inclusion.{HexRoundTrip, verify_proof-proof_for_index}
use aemulus.Merkle.Binding.{Digests32, Collision, verify_proof-binding}

abbrev mix : ℕ → Bytes → ℕ
mix n [] = n
mix n (b ∷ bs) = mix ((n * 31 + b + 7) % 13) bs

abbrev zeros : ℕ → Bytes
zeros zero = []
zeros (suc n) = 0 ∷ zeros n

abbrev toy_sha256 : Bytes → Bytes
toy_sha256 b = mix 1 b ∷ zeros 31

abbrev tally : ℕ → String
tally zero = ""
tally (suc n) = String.◌∷◌ "1" (tally n)

abbrev count : String → ℕ
count String.[] = 0
count (String.◌∷◌ c s) = suc (count s)

abbrev toy_to_hex : Bytes → String
toy_to_hex [] = ""
toy_to_hex (n ∷ rest) = tally n

-- A hash with digests of 32 bytes, the first of which says it all.
abbrev pub toy : Crypto
toy = record { sha256 = toy_sha256; to_hex = toy_to_hex; from_hex = λ s. count s ∷ zeros 31 }

count-tally : (n : ℕ) → count (tally n) ≡ n
count-tally zero = refl
count-tally (suc n) = ap suc (count-tally n)

pub toy-HexRoundTrip : HexRoundTrip toy
toy-HexRoundTrip b = ap (λ n. n ∷ zeros 31) (count-tally (mix 1 b))

pub toy-Digests32 : Digests32 toy
toy-Digests32 b = refl

abbrev three : List String
three = "1" ∷ "11" ∷ "111" ∷ []

abbrev get_tree : Option MerkleTree → MerkleTree
get_tree none = record { root = ""; layers = [] }
get_tree (some t) = t

abbrev get_proof : Option (List Sibling) → List Sibling
get_proof none = []
get_proof (some p) = p

abbrev tree : MerkleTree
unfolding build_merkle
tree = get_tree (build_merkle toy three)

abbrev proof : List Sibling
unfolding proof_for_index
proof = get_proof (proof_for_index toy tree 2)

build_merkle-three : build_merkle toy three ≡ some tree
unfolding build_merkle layers_from pair_up
build_merkle-three = refl

verify_proof-three : verify_proof toy "111" proof tree.root ≡ true
unfolding verify_proof build_merkle layers_from pair_up proof_for_index siblings_from climb
verify_proof-three = refl

-- The toy hash takes another leaf to the same digest.
verify_proof-colliding : verify_proof toy "1111111111111111" proof tree.root ≡ true
unfolding verify_proof build_merkle layers_from pair_up proof_for_index siblings_from climb
verify_proof-colliding = refl

verify_proof-proof_for_index_example :
    (p : List Sibling) × (proof_for_index toy tree 2 ≡ some p)
    × (verify_proof toy "111" p tree.root ≡ true)
verify_proof-proof_for_index_example =
    verify_proof-proof_for_index toy toy-HexRoundTrip three tree 2 "111" build_merkle-three refl

verify_proof-binding_example :
    (toy.from_hex "111" ≡ toy.from_hex "1111111111111111") ⊎ Collision toy
verify_proof-binding_example =
    verify_proof-binding toy toy-HexRoundTrip toy-Digests32 "111" "1111111111111111" tree.root proof
      proof refl verify_proof-three verify_proof-colliding
