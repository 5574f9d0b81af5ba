-- ===== src/Merkle/Binding.antt =====
-- A root binds the leaf at each position: two different leaves there give a collision of the hash.
use native.Mathlib.Decide.{ℕ_discrete}
use aemulus.Common.{
  ℕ, ◌≡◌, ◌≢◌, refl, sym, ap, ◌∙◌, ◌⊎◌, inl, inr, Bool, true, false, String, string_Eq,
  if◌then◌else◌, List, [], ◌∷◌, ◌++◌, map, length, length-append, ==_sound, arith,
}
use aemulus.Merkle.{Bytes, Crypto, Sibling, hash_leaf, hash_node, join, climb, verify_proof}
use aemulus.Merkle.Inclusion.{HexRoundTrip}

Bytes-discrete : Discrete Bytes
Bytes-discrete = hlevel ℕ_discrete

pub head_eq : {x y : ℕ} {xs ys : Bytes} → x ∷ xs ≡ y ∷ ys → x ≡ y
head_eq h = cc

pub tail_eq : {x y : ℕ} {xs ys : Bytes} → x ∷ xs ≡ y ∷ ys → xs ≡ ys
tail_eq h = cc

pub prefix_eq : (a b xs ys : Bytes) → length a ≡ length b → a ++ xs ≡ b ++ ys → a ≡ b
prefix_eq [] [] xs ys l h = refl
prefix_eq [] (y ∷ b) xs ys l h = absurd (omega arith)
prefix_eq (x ∷ a) [] xs ys l h = absurd (omega arith)
prefix_eq (x ∷ a) (y ∷ b) xs ys l h = cc (head_eq h, prefix_eq a b xs ys (omega arith) (tail_eq h))

suffix_eq : (xs ys a b : Bytes) → length a ≡ length b → xs ++ a ≡ ys ++ b → a ≡ b
suffix_eq [] [] a b l h = h
suffix_eq [] (y ∷ ys) a b l h = absurd (omega (arith, ap length h, length-append (y ∷ ys) b))
suffix_eq (x ∷ xs) [] a b l h = absurd (omega (arith, ap length h, length-append (x ∷ xs) a))
suffix_eq (x ∷ xs) (y ∷ ys) a b l h = suffix_eq xs ys a b l (tail_eq h)

-- Digests of SHA-256 have 32 bytes.
abbrev pub Digests32 : Crypto → Type 0
Digests32 c = (b : Bytes) → length (c.sha256 b) ≡ 32

-- Two inputs of the hash that differ and have one digest.
abbrev pub Collision : Crypto → Type 0
Collision c = (x : Bytes) × (y : Bytes) × (x ≢ y) × (c.sha256 x ≡ c.sha256 y)

abbrev pub sides : List Sibling → List Bool
sides = map (λ s. s.left)

module _ (c : Crypto) (hex : HexRoundTrip c) (digests : Digests32 c) where
  pub same_input : (x y : Bytes) → c.sha256 x ≡ c.sha256 y → (x ≡ y) ⊎ Collision c
  same_input x y h = elim (Bytes-discrete x y) [ yes e ↦ inl e | no n ↦ inr (x, y, n, h) ]

  join_sided :
      (a b u v : Bytes) (side : Bool)
      → length a ≡ length b
      → (if side then hash_node c u a else hash_node c a u)
        ≡ (if side then hash_node c v b else hash_node c b v)
      → (a ≡ b) ⊎ Collision c
  join_sided a b u v true l h = elim (same_input _ _ h) [
    | inl e ↦ inl (suffix_eq u v a b l (tail_eq e))
    | inr k ↦ inr k
  ]
  join_sided a b u v false l h = elim (same_input _ _ h) [
    | inl e ↦ inl (prefix_eq a b u v l (tail_eq e))
    | inr k ↦ inr k
  ]

  length-join : (a : Bytes) (s : Sibling) → length (join c a s) ≡ 32
  length-join a s =
      ground (arith, digests (1 ∷ c.from_hex s.hash ++ a), digests (1 ∷ a ++ c.from_hex s.hash))

  climb-binding :
      (p q : List Sibling) (a b : Bytes)
      → sides p ≡ sides q
      → length a ≡ 32
      → length b ≡ 32
      → climb c a p ≡ climb c b q
      → (a ≡ b) ⊎ Collision c
  unfolding climb
  climb-binding [] [] a b same la lb h = inl h
  climb-binding [] (t ∷ q) a b same la lb h = cc
  climb-binding (s ∷ p) [] a b same la lb h = cc
  climb-binding (s ∷ p) (t ∷ q) a b same la lb h =
      let turn : s.left ≡ t.left = cc in
      elim (climb-binding p q (join c a s) (join c b t) (cc) (length-join a s) (length-join b t)
        h) [
          | inl e ↦
              join_sided a b (c.from_hex s.hash) (c.from_hex t.hash) s.left (cc)
                (rw turn (rw turn at e))
          | inr k ↦ inr k
        ]

  climb-Kept :
      (p : List Sibling) (a : Bytes)
      → c.from_hex (c.to_hex a) ≡ a
      → c.from_hex (c.to_hex (climb c a p)) ≡ climb c a p
  unfolding climb
  climb-Kept [] a kept = kept
  climb-Kept (s ∷ p) a kept =
      climb-Kept p (join c a s)
        (ground (arith, hex (1 ∷ c.from_hex s.hash ++ a), hex (1 ∷ a ++ c.from_hex s.hash)))

  -- Two leaves that check against one root, by proofs that turn the same way at each level, are
  -- the same bytes, or the hash has a collision; digests have 32 bytes and their hex encoding can
  -- be undone.
  pub verify_proof-binding :
      (x y root : String) (p q : List Sibling)
      → sides p ≡ sides q
      → verify_proof c x p root ≡ true
      → verify_proof c y q root ≡ true
      → (c.from_hex x ≡ c.from_hex y) ⊎ Collision c
  unfolding verify_proof
  verify_proof-binding x y root p q same h g =
      let same_top : climb c (hash_leaf c x) p ≡ climb c (hash_leaf c y) q =
        sym (climb-Kept p _ (hex _))
        ∙ ap c.from_hex (==_sound _ root h ∙ sym (==_sound _ root g))
        ∙ climb-Kept q _ (hex _) in
      elim (climb-binding p q (hash_leaf c x) (hash_leaf c y) same (digests _) (digests _)
        same_top) [
          | inr k ↦ inr k
          | inl e ↦ elim (same_input _ _ e) [ inl e' ↦ inl (tail_eq e') | inr k ↦ inr k ]
        ]
