-- ===== src/Merkle/Levels.antt =====
-- The levels of a tree: padding, pairing, and the loop that builds them.
use aemulus.Common.{
  ℕ, zero, suc, ◌+◌, ◌*◌, ◌/◌, ◌%◌, ◌≤◌, ◌<◌, ◌≡◌, ◌⊎◌, inl, inr, false, some, List, [], ◌∷◌,
  length, length-append, get_elem?, get_elem?-append, get_last_or, nat_eq, >>=-eq-some, Bool-cases,
  arith,
}
use aemulus.Merkle.{Bytes, Crypto, pad, top_node, hash_node, pair_up, layers_from}

pub get_elem?-pad :
    (level : List Bytes) (i : ℕ) (node : Bytes)
    → get_elem? level i ≡ some node
    → get_elem? (pad level) i ≡ some node
get_elem?-pad [] i node h = h
get_elem?-pad (x ∷ xs) i node h =
    ground (arith, get_elem?-append (x ∷ xs) (get_last_or x xs ∷ []) i node h)

-- A padded level is the root alone or has an even number of nodes.
pub length-pad :
    (level : List Bytes)
    → 0 < length level
    → ((length (pad level) ≡ 1) × (length level ≡ 1))
      ⊎ ((length (pad level) % 2 ≡ 0)
          × (length (pad level) ≤ length level + 1)
          × (2 ≤ length level)
          × (length level ≤ length (pad level)))
length-pad [] h = elim h [ ]
length-pad (x ∷ xs) h = ground (arith, length-append (x ∷ xs) (get_last_or x xs ∷ []))

pub top_node-cons :
    (nodes : List Bytes) (more : List (List Bytes)) (top : Bytes)
    → top_node more ≡ some top
    → top_node (nodes ∷ more) ≡ some top
top_node-cons nodes [] top h = cc
top_node-cons nodes (next ∷ more) top h = h

module _ (c : Crypto) where
  length-pair_up : (xs : List Bytes) → length (pair_up c xs) ≡ length xs / 2
  unfolding pair_up
  length-pair_up [] = omega arith
  length-pair_up (a ∷ []) = omega arith
  length-pair_up (a ∷ b ∷ rest) = omega (arith, length-pair_up rest)

  -- The k-th node of the next level is the hash of nodes 2k and 2k + 1.
  pub get_elem?-pair_up :
      (xs : List Bytes) (k : ℕ) (a b : Bytes)
      → get_elem? xs (2 * k) ≡ some a
      → get_elem? xs (2 * k + 1) ≡ some b
      → get_elem? (pair_up c xs) k ≡ some (hash_node c a b)
  unfolding pair_up
  get_elem?-pair_up [] k a b h g = cc
  get_elem?-pair_up (x ∷ []) zero a b h g = cc
  get_elem?-pair_up (x ∷ []) (suc k) a b h g =
      let e : 2 * suc k ≡ suc (suc (2 * k)) = omega arith in let h' = rw e at h in cc h'
  get_elem?-pair_up (x ∷ y ∷ rest) zero a b h g = cc
  get_elem?-pair_up (x ∷ y ∷ rest) (suc k) a b h g =
      let e : 2 * suc k ≡ suc (suc (2 * k)) = omega arith in
      let e' : 2 * suc k + 1 ≡ suc (suc (2 * k + 1)) = omega arith in
      get_elem?-pair_up rest k a b (rw e at h) (rw e' at g)

  -- What one round of the outer loop gives.
  pub layers_from-cases :
      (fuel : ℕ) (level : List Bytes) (layers : List (List Bytes))
      → layers_from c (suc fuel) level ≡ some layers
      → ((length (pad level) ≡ 1) × (layers ≡ pad level ∷ []))
        ⊎ ((more : List (List Bytes)) × (layers_from c fuel (pair_up c (pad level)) ≡ some more)
            × (layers ≡ pad level ∷ more)
            × (nat_eq (length (pad level)) 1 ≡ false))
  unfolding layers_from
  layers_from-cases fuel level layers h = elim (Bool-cases (nat_eq (length (pad level)) 1)) [
    | inl last ↦ inl (ground arith, ground arith)
    | inr other ↦ let (more, rec, e) = >>=-eq-some _ _ (rw other at h) in inr (more, rec, cc, other)
  ]

  -- As many rounds as leaves are enough.
  pub layers_from-total :
      (fuel : ℕ) (level : List Bytes)
      → 0 < length level
      → length level ≤ fuel
      → (layers : List (List Bytes)) × (layers_from c fuel level ≡ some layers)
  unfolding layers_from
  layers_from-total zero level pos le = absurd (omega arith)
  layers_from-total (suc fuel) level pos le = elim (length-pad level pos) [
    | inl (one, _) ↦ (pad level ∷ [], rw one)
    | inr (even, short, two, long) ↦
        let other : nat_eq (length (pad level)) 1 ≡ false = ground arith in
        let (more, e) =
          layers_from-total fuel (pair_up c (pad level)) (omega (arith, length-pair_up (pad level)))
            (omega (arith, length-pair_up (pad level))) in
        (pad level ∷ more, rw (other, e))
  ]
