-- ===== src/Commitment.antt =====
-- lib/commitment.ts: salted commitments to a run's fields, and the disclosure of one field.
pub mod Encoding
pub mod Opening
pub mod Fields
mod Tests
use Prim.Native.String.{◌++◌ as text_append}
use aemulus.Common.{
  ℕ, zero, suc, ◌+◌, ◌-◌, ◌*◌, ◌/◌, ◌%◌, Bool, true, false, ◌||◌, String, string_Eq, Option, none,
  some, List, [], ◌∷◌, ◌++◌, map, length, get_elem?, ◌==◌, if◌then◌else◌, ◌>>=◌, lookup, put,
}
use aemulus.Merkle.{Bytes, Crypto, Sibling, MerkleTree, build_merkle, proof_for_index, verify_proof}

-- What the code takes from the language: the UTF-8 encoding and `<` on texts.
pub record Texts : Type 0 where
  pub utf8 : String → Bytes
  pub before : String → String → Bool

pub record CommitField : Type 0 where
  pub name : String
  pub value : String

pub record Commitment : Type 0 where
  pub root : String
  pub salts : List (String × String)

pub record Disclosure : Type 0 where
  pub field : String
  pub value : String
  pub salt : String
  pub proof : List Sibling
  pub root : String

-- `writeUInt32LE`.
abbrev pub uint32_le : ℕ → Bytes
uint32_le n = (n % 256) ∷ (n / 256 % 256) ∷ (n / 65536 % 256) ∷ (n / 16777216 % 256) ∷ []

abbrev pub get_or_empty : Option String → String
get_or_empty none = ""
get_or_empty (some s) = s

-- `findIndex` for a field's name.
unfoldable pub index_of : String → List CommitField → Option ℕ
index_of name [] = none
index_of name (f ∷ fs) =
    let later = index_of name fs in if f.name == name then some 0 else later >>= λ i. some (suc i)

module _ (t : Texts) where
  open t use {utf8, before}

  -- One round of the loop of `leafPreimage`: a part behind its length.
  abbrev pub chunk : String → Bytes
  chunk part = uint32_le (length (utf8 part)) ++ utf8 part

  unfoldable pub leaf_preimage : String → String → String → Bytes
  leaf_preimage salt name value =
      chunk "aemulus-commit-v2" ++ (chunk salt ++ (chunk name ++ chunk value))

  -- A field goes behind those that stood after it and have a smaller name: the sort is stable.
  unfoldable pub insert_field : CommitField → List CommitField → List CommitField
  insert_field f [] = f ∷ []
  insert_field f (g ∷ gs) = if before g.name f.name then g ∷ insert_field f gs else f ∷ g ∷ gs

  unfoldable pub ordered : List CommitField → List CommitField
  ordered [] = []
  ordered (f ∷ fs) = insert_field f (ordered fs)

module _ (c : Crypto) (t : Texts) where
  open c use {sha256, to_hex}

  unfoldable pub leaf_hex : String → String → String → String
  leaf_hex salt name value = to_hex (sha256 (leaf_preimage t salt name value))

  -- The leaves of a commitment; `fresh n` is the salt of the n-th draw.
  unfoldable pub fresh_leaves : (ℕ → String) → ℕ → List CommitField → List String
  fresh_leaves fresh n [] = []
  fresh_leaves fresh n (f ∷ fs) = leaf_hex (fresh n) f.name f.value ∷ fresh_leaves fresh (n + 1) fs

  -- The salts that the same loop keeps.
  unfoldable pub fresh_salts :
      (ℕ → String) → ℕ → List CommitField → List (String × String) → List (String × String)
  fresh_salts fresh n [] salts = salts
  fresh_salts fresh n (f ∷ fs) salts = fresh_salts fresh (n + 1) fs (put f.name (fresh n) salts)

  unfoldable pub build_commitment : (ℕ → String) → List CommitField → Option Commitment
  build_commitment fresh fields = do
    let ord = ordered t fields
    tree ← build_merkle c (fresh_leaves fresh 0 ord)
    some (record { root = tree.root; salts = fresh_salts fresh 0 ord [] })

  -- The leaf of a field under kept salts; a missing salt reads as the empty text.
  abbrev pub salted_leaf : List (String × String) → CommitField → String
  salted_leaf salts f = leaf_hex (get_or_empty (lookup f.name salts)) f.name f.value

  unfoldable pub disclose_field :
      List CommitField → List (String × String) → String → String → Option Disclosure
  disclose_field fields salts root name = do
    let ord = ordered t fields
    index ← index_of name ord
    salt ← lookup name salts
    field ← get_elem? ord index
    tree ← build_merkle c (map (salted_leaf salts) ord)
    proof ← proof_for_index c tree index
    if salt == ""
        then none
        else some
            (record { field = name; value = field.value; salt = salt; proof = proof; root = root })

  unfoldable pub verify_disclosure : String → String → String → String → List Sibling → Bool
  verify_disclosure root field value salt proof =
      verify_proof c (leaf_hex salt field value) proof root

-- The entries of an object, under a prefix.
unfoldable pub prefixed : String → List (String × String) → List CommitField
prefixed prefix [] = []
prefixed prefix ((k, v) ∷ rest) =
    record { name = text_append prefix k; value = v } ∷ prefixed prefix rest

pub record RunFields : Type 0 where
  pub skill_id : String
  pub status : String
  pub input : List (String × String)
  pub output : Option (List (String × String))

abbrev pub entries : Option (List (String × String)) → List (String × String)
entries none = []
entries (some m) = m

unfoldable pub commitment_fields : RunFields → List CommitField
commitment_fields run =
    record { name = "skillId"; value = run.skill_id }
      ∷ record { name = "status"; value = run.status }
      ∷ prefixed "input." run.input
    ++ prefixed "output." (entries run.output)
