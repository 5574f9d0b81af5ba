-- ===== src/Merkle.antt =====
-- lib/merkle.ts: trees over receipt hashes, inclusion proofs and their check.
pub mod Levels
pub mod Inclusion
pub mod Binding
pub mod Tests
use aemulus.Common.{
  ℕ, zero, suc, ◌+◌, ◌-◌, ◌/◌, ◌%◌, Bool, ◌&&◌, String, string_Eq, Option, none, some, List, [],
  ◌∷◌, ◌++◌, map, length, get_elem?, get_last_or, ltb, nat_eq, ◌==◌, if◌then◌else◌, ◌>>=◌,
}

-- A Node `Buffer`.
abbrev pub Bytes : Type 0
Bytes = List ℕ

-- What the code takes from node:crypto and Buffer.
pub record Crypto : Type 0 where
  pub sha256 : Bytes → Bytes
  pub to_hex : Bytes → String
  pub from_hex : String → Bytes

pub record Sibling : Type 0 where
  pub hash : String
  pub left : Bool

pub record MerkleTree : Type 0 where
  pub root : String
  pub layers : List (List Bytes)

-- An odd level above the root duplicates its last node.
abbrev pub pad : List Bytes → List Bytes
pad [] = []
pad (x ∷ xs) =
    if ltb 1 (length (x ∷ xs)) && nat_eq (length (x ∷ xs) % 2) 1
    then (x ∷ xs) ++ get_last_or x xs ∷ []
    else x ∷ xs

-- The first node of the last layer; `none` where the code would read `undefined`.
abbrev pub top_node : List (List Bytes) → Option Bytes
top_node [] = none
top_node (nodes ∷ []) = get_elem? nodes 0
top_node (nodes ∷ next ∷ more) = top_node (next ∷ more)

module _ (c : Crypto) where
  open c use {sha256, to_hex, from_hex}

  abbrev pub hash_leaf : String → Bytes
  hash_leaf h = sha256 (0 ∷ from_hex h)

  abbrev pub hash_node : Bytes → Bytes → Bytes
  hash_node a b = sha256 (1 ∷ a ++ b)

  -- The inner loop; after padding no node is left over.
  unfoldable pub pair_up : List Bytes → List Bytes
  pair_up [] = []
  pair_up (a ∷ []) = []
  pair_up (a ∷ b ∷ rest) = hash_node a b ∷ pair_up rest

  -- The outer loop, on fuel: each round puts a padded level on the list.
  unfoldable pub layers_from : ℕ → List Bytes → Option (List (List Bytes))
  layers_from zero level = none
  layers_from (suc fuel) level =
      let padded = pad level in
      let above = layers_from fuel (pair_up padded) in
      if nat_eq (length padded) 1
      then some (padded ∷ [])
      else above >>= λ more. some (padded ∷ more)

  -- `none` is the exception for no leaves.
  unfoldable pub build_merkle : List String → Option MerkleTree
  build_merkle [] = none
  build_merkle (x ∷ xs) = do
    layers ← layers_from (length (x ∷ xs)) (map hash_leaf (x ∷ xs))
    top ← top_node layers
    some (record { root = to_hex top; layers = layers })

  unfoldable pub siblings_from : List (List Bytes) → ℕ → Option (List Sibling)
  siblings_from [] idx = some []
  siblings_from (nodes ∷ []) idx = some []
  siblings_from (nodes ∷ next ∷ more) idx = do
    let is_right = nat_eq (idx % 2) 1
    node ← get_elem? nodes (if is_right then idx - 1 else idx + 1)
    rest ← siblings_from (next ∷ more) (idx / 2)
    some (record { hash = to_hex node; left = is_right } ∷ rest)

  -- `none` is the exception for an index that has no sibling.
  unfoldable pub proof_for_index : MerkleTree → ℕ → Option (List Sibling)
  proof_for_index tree index = siblings_from tree.layers index

  -- One round of the loop of `verifyProof`.
  abbrev pub join : Bytes → Sibling → Bytes
  join node s =
      let sib = from_hex s.hash in if s.left then hash_node sib node else hash_node node sib

  unfoldable pub climb : Bytes → List Sibling → Bytes
  climb node [] = node
  climb node (s ∷ rest) = climb (join node s) rest

  unfoldable pub verify_proof : String → List Sibling → String → Bool
  verify_proof leaf proof root = to_hex (climb (hash_leaf leaf) proof) == root
