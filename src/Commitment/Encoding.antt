-- ===== src/Commitment/Encoding.antt =====
-- The length prefixes make the encoding of a leaf injective, so a root binds name, value and salt.

use aemulus.Common.{
  All, ℕ, ◌<◌, ◌≡◌, sym, ap, ◌∙◌, ◌⊎◌, inl, inr, true, String, List, [], ◌∷◌, ◌++◌, length, arith,
}
use aemulus.Merkle.{Bytes, Crypto, Sibling}
use aemulus.Merkle.Inclusion.{HexRoundTrip}
use aemulus.Merkle.Binding.{
  Digests32, Collision, sides, head_eq, tail_eq, prefix_eq, same_input, verify_proof-binding,
}
use aemulus.Commitment.{Texts, uint32_le, chunk, leaf_preimage, leaf_hex, verify_disclosure}

-- UTF-8 tells texts of Unicode characters apart.
abbrev pub IsUtf8 : Texts → Type 0
IsUtf8 t = (s r : String) → t.utf8 s ≡ t.utf8 r → s ≡ r

-- The length of a text's encoding fits in the four bytes of its prefix.
abbrev pub IsShort : Texts → String → Type 0
IsShort t s = length (t.utf8 s) < 4294967296

uint32_le-injective :
    (m n : ℕ) (xs ys : Bytes)
    → m < 4294967296
    → n < 4294967296
    → uint32_le m ++ xs ≡ uint32_le n ++ ys
    → (m ≡ n) × (xs ≡ ys)
uint32_le-injective m n xs ys hm hn h =
    let h1 = tail_eq h in
    let h2 = tail_eq h1 in
    let h3 = tail_eq h2 in
    (omega (arith, head_eq h, head_eq h1, head_eq h2, head_eq h3), tail_eq h3)

append_cancel : (a xs ys : Bytes) → a ++ xs ≡ a ++ ys → xs ≡ ys
append_cancel [] xs ys h = h
append_cancel (x ∷ a) xs ys h = append_cancel a xs ys (tail_eq h)

module _ (t : Texts) (u : IsUtf8 t) where
  chunk-injective :
      (s r : String) (xs ys : Bytes)
      → IsShort t s
      → IsShort t r
      → chunk t s ++ xs ≡ chunk t r ++ ys
      → (s ≡ r) × (xs ≡ ys)
  chunk-injective s r xs ys short short' h =
      let (len, rest) = uint32_le-injective _ _ _ _ short short' h in
      let same = prefix_eq (t.utf8 s) (t.utf8 r) xs ys len rest in
      (u s r same, append_cancel (t.utf8 s) xs ys (rest ∙ ap (λ b. b ++ ys) (sym same)))

  -- Where UTF-8 is injective, two leaves whose texts are shorter than 4 GB have one preimage only
  -- where salt, name and value are the same.
  pub leaf_preimage-injective :
      (s s' n n' v v' : String)
      → All (IsShort t) (s ∷ s' ∷ n ∷ n' ∷ v ∷ v' ∷ [])
      → leaf_preimage t s n v ≡ leaf_preimage t s' n' v'
      → (s ≡ s') × (n ≡ n') × (v ≡ v')
  unfolding leaf_preimage
  leaf_preimage-injective s s' n n' v v' (ls, (ls', (ln, (ln', (lv, (lv', _)))))) h =
      let h1 = append_cancel (chunk t "aemulus-commit-v2") _ _ h in
      let (salt, h2) = chunk-injective s s' _ _ ls ls' h1 in
      let (name, h3) = chunk-injective n n' _ _ ln ln' h2 in
      let (_, h4) = uint32_le-injective _ _ _ _ lv lv' h3 in (salt, name, u v v' h4)

  -- Under one root, two disclosures that check, whose texts are shorter than 4 GB and whose
  -- proofs turn the same way at each level, show the same field, value and salt, or the hash has
  -- a collision; the hash gives 32 bytes, hex encoding of digests can be undone, and UTF-8 is
  -- injective.
  pub verify_disclosure-binding :
      (c : Crypto)
      → HexRoundTrip c
      → Digests32 c
      → (root n n' v v' s s' : String) (p q : List Sibling)
      → All (IsShort t) (s ∷ s' ∷ n ∷ n' ∷ v ∷ v' ∷ [])
      → sides p ≡ sides q
      → verify_disclosure c t root n v s p ≡ true
      → verify_disclosure c t root n' v' s' q ≡ true
      → ((n ≡ n') × (v ≡ v') × (s ≡ s')) ⊎ Collision c
  unfolding verify_disclosure leaf_hex
  verify_disclosure-binding c hex digests root n n' v v' s s' p q short same h g =
      elim (verify_proof-binding c hex digests _ _ root p q same h g) [
        | inr k ↦ inr k
        | inl e ↦ elim (same_input c hex digests _ _ (sym (hex _) ∙ e ∙ hex _)) [
          | inr k ↦ inr k
          | inl e' ↦
              let (salt, name, value) = leaf_preimage-injective s s' n n' v v' short e' in
              inl (name, value, salt)
        ]
      ]
