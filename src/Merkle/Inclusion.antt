-- ===== src/Merkle/Inclusion.antt =====
-- Every leaf of a built tree has a proof, and the proof checks against the root.
use aemulus.Common.{
  ◌++◌, All, All-get_elem?, get_last_or, ℕ, zero, suc, ◌+◌, ◌-◌, ◌*◌, ◌/◌, ◌%◌, ◌≡◌, ◌≢◌, refl, inl,
  inr, true, String, string_Eq, some, List, [], ◌∷◌, map, length, length-map, get_elem?,
  get_elem?-map, get_elem?-some, get_elem?-lt, nat_eq, if◌then◌else◌, >>=-eq-some, Bool-cases,
  ==_self, arith,
}
use aemulus.Merkle.{
  Bytes, Crypto, Sibling, MerkleTree, pad, top_node, hash_leaf, pair_up, layers_from, build_merkle,
  siblings_from, proof_for_index, join, climb, verify_proof,
}
use aemulus.Merkle.Levels.{
  get_elem?-pad, length-pad, top_node-cons, get_elem?-pair_up, layers_from-cases, layers_from-total,
}

-- Node's hex decoding undoes its hex encoding of a digest.
abbrev pub HexRoundTrip : Crypto → Type 0
HexRoundTrip c = (b : Bytes) → c.from_hex (c.to_hex (c.sha256 b)) ≡ c.sha256 b

-- The bytes that the hex encoding keeps.
abbrev Kept : Crypto → Bytes → Type 0
Kept c b = c.from_hex (c.to_hex b) ≡ b

All-last :
    (P : Bytes → Type 0) (x : Bytes) (xs : List Bytes) → P x → All P xs → P (get_last_or x xs)
All-last P x [] p ps = p
All-last P x (y ∷ xs) p (q, ps) = All-last P y xs q ps

All-snoc :
    (P : Bytes → Type 0) (xs : List Bytes) (y : Bytes) → All P xs → P y → All P (xs ++ y ∷ [])
All-snoc P [] y ps q = (q, tt)
All-snoc P (x ∷ xs) y (p, ps) q = (p, All-snoc P xs y ps q)

All-pad : (P : Bytes → Type 0) (level : List Bytes) → All P level → All P (pad level)
All-pad P [] ps = tt
All-pad P (x ∷ xs) ps =
    let more = All-snoc P (x ∷ xs) (get_last_or x xs) ps (All-last P x xs ps.0 ps.1) in
    ground (arith, more)

module _ (c : Crypto) (hex : HexRoundTrip c) where
  Kept-pair_up : (level : List Bytes) → All (Kept c) (pair_up c level)
  unfolding pair_up
  Kept-pair_up [] = tt
  Kept-pair_up (a ∷ []) = tt
  Kept-pair_up (a ∷ b ∷ rest) = (hex (1 ∷ a ++ b), Kept-pair_up rest)

  Kept-leaves : (leaves : List String) → All (Kept c) (map (hash_leaf c) leaves)
  Kept-leaves [] = tt
  Kept-leaves (x ∷ xs) = (hex (0 ∷ c.from_hex x), Kept-leaves xs)

  -- The sibling of a node of an even level, and the pair's node on the next level.
  sibling_at :
      (nodes : List Bytes) (i : ℕ) (node : Bytes)
      → All (Kept c) nodes
      → length nodes % 2 ≡ 0
      → get_elem? nodes i ≡ some node
      → (sib : Bytes) × (get_elem? nodes (if nat_eq (i % 2) 1 then i - 1 else i + 1) ≡ some sib)
        × (get_elem? (pair_up c nodes) (i / 2)
            ≡ some (join c node (record { hash = c.to_hex sib; left = nat_eq (i % 2) 1 })))
  sibling_at nodes i node kept even h = elim (Bool-cases (nat_eq (i % 2) 1)) [
    | inl right ↦
        let (sib, e) = get_elem?-some nodes (i - 1) (omega (arith, get_elem?-lt nodes i node h)) in
        let same = All-get_elem? (Kept c) nodes (i - 1) sib kept e in
        let low : 2 * (i / 2) ≡ i - 1 = ground arith in
        let high : 2 * (i / 2) + 1 ≡ i = ground arith in
        (
          sib,
          rw right e,
          rw (right, same) (get_elem?-pair_up c nodes (i / 2) sib node (rw low e) (rw high h)),
        )
    | inr left ↦
        let (sib, e) = get_elem?-some nodes (i + 1) (ground (arith, get_elem?-lt nodes i node h)) in
        let same = All-get_elem? (Kept c) nodes (i + 1) sib kept e in
        let low : 2 * (i / 2) ≡ i = ground arith in
        let high : 2 * (i / 2) + 1 ≡ i + 1 = ground arith in
        (
          sib,
          rw left e,
          rw (left, same) (get_elem?-pair_up c nodes (i / 2) node sib (rw low h) (rw high e)),
        )
  ]

  siblings_from-cons :
      (nodes : List Bytes) (more : List (List Bytes)) (i : ℕ) {top sib : Bytes}
      {rest : List Sibling}
      → top_node more ≡ some top
      → get_elem? nodes (if nat_eq (i % 2) 1 then i - 1 else i + 1) ≡ some sib
      → siblings_from c more (i / 2) ≡ some rest
      → siblings_from c (nodes ∷ more) i
        ≡ some (record { hash = c.to_hex sib; left = nat_eq (i % 2) 1 } ∷ rest)
  unfolding siblings_from
  siblings_from-cons nodes [] i t s r = cc
  siblings_from-cons nodes (next ∷ more) i t s r = rw (s, r)

  layers_from-climb :
      (fuel : ℕ) (level : List Bytes) (layers : List (List Bytes)) (i : ℕ) (node : Bytes)
      → All (Kept c) level
      → layers_from c fuel level ≡ some layers
      → get_elem? level i ≡ some node
      → (proof : List Sibling) × (siblings_from c layers i ≡ some proof)
        × (top_node layers ≡ some (climb c node proof))
  unfolding climb siblings_from layers_from
  layers_from-climb zero level layers i node kept h g = cc
  layers_from-climb (suc fuel) level layers i node kept h g =
      let at = get_elem?-pad level i node g in
      let below = get_elem?-lt (pad level) i node at in
      elim (layers_from-cases c fuel level layers h) [
        | inl (one, e) ↦ let first : i ≡ 0 = omega arith in ([], rw e refl, rw (e, ← first) at)
        | inr (more, rec, e, other) ↦
            let even : length (pad level) % 2 ≡ 0 =
              ground (arith, length-pad level (omega (arith, get_elem?-lt level i node g))) in
            let (sib, s, up) =
              sibling_at (pad level) i node (All-pad (Kept c) level kept) even at in
            let (rest, found, top) =
              layers_from-climb fuel _ more (i / 2) _ (Kept-pair_up (pad level)) rec up in
            (
              record { hash = c.to_hex sib; left = nat_eq (i % 2) 1 } ∷ rest,
              rw e (siblings_from-cons (pad level) more i top s found),
              rw e (top_node-cons (pad level) more _ top),
            )
      ]

  -- A tree is built from any list of leaves but the empty one, where hex encoding of digests can
  -- be undone: the rounds that the model allows are enough.
  pub build_merkle-total :
      (leaves : List String)
      → leaves ≢ []
      → (tree : MerkleTree) × (build_merkle c leaves ≡ some tree)
  unfolding build_merkle
  build_merkle-total [] h = absurd (h refl)
  build_merkle-total (x ∷ xs) h =
      let (layers, e) =
        layers_from-total c (length (x ∷ xs)) (map (hash_leaf c) (x ∷ xs)) (omega arith)
          (omega (arith, length-map (hash_leaf c) (x ∷ xs))) in
      let (proof, _, top) =
        layers_from-climb _ _ layers 0 (hash_leaf c x) (Kept-leaves (x ∷ xs)) e refl in
      (record { root = c.to_hex (climb c (hash_leaf c x) proof); layers = layers }, rw (e, top))

  -- What the parts of a built tree are.
  build_merkle-parts :
      (leaves : List String) (tree : MerkleTree)
      → build_merkle c leaves ≡ some tree
      → (top : Bytes) × (layers_from c (length leaves) (map (hash_leaf c) leaves)
          ≡ some tree.layers)
        × (top_node tree.layers ≡ some top)
        × (tree.root ≡ c.to_hex top)
  unfolding build_merkle
  build_merkle-parts [] tree h = cc
  build_merkle-parts (x ∷ xs) tree h =
      let (layers, e, h') = >>=-eq-some (layers_from c _ _) _ h in
      let (top, t, h'') = >>=-eq-some (top_node layers) _ h' in
      (top, ground arith, ground arith, ground arith)

  -- In a tree that was built from leaves, the proof for the index of any leaf exists, and the
  -- leaf with its proof checks against the tree's root, where hex encoding of digests can be
  -- undone.
  pub verify_proof-proof_for_index :
      (leaves : List String) (tree : MerkleTree) (i : ℕ) (leaf : String)
      → build_merkle c leaves ≡ some tree
      → get_elem? leaves i ≡ some leaf
      → (proof : List Sibling) × (proof_for_index c tree i ≡ some proof)
        × (verify_proof c leaf proof tree.root ≡ true)
  unfolding proof_for_index verify_proof
  verify_proof-proof_for_index leaves tree i leaf h g =
      let (top, e, t, root) = build_merkle-parts leaves tree h in
      let (proof, found, t') =
        layers_from-climb (length leaves) (map (hash_leaf c) leaves) tree.layers i
          (hash_leaf c leaf) (Kept-leaves leaves) e (get_elem?-map (hash_leaf c) leaves i leaf g) in
      let same : climb c (hash_leaf c leaf) proof ≡ top = cc in
      (proof, found, rw (same, root) (==_self (c.to_hex top)))
