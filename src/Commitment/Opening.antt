-- ===== src/Commitment/Opening.antt =====
-- Every field of a committed run can be disclosed, and the disclosure checks against the root.
use mathlib.Core.Path.{ap₂}
use aemulus.Common.{
  ℕ, suc, ◌+◌, ◌≡◌, ◌≢◌, refl, sym, ap, ◌∙◌, ◌⊎◌, inl, inr, true, false, some, String, string_Eq,
  List, [], ◌∷◌, map, get_elem?, get_elem?-map, All, ◌==◌, Bool-cases, lookup, put, lookup-put_self,
  lookup-put_ne, ==_self, arith, >>=-eq-some,
}
use aemulus.Merkle.{Crypto, build_merkle}
use aemulus.Merkle.Inclusion.{HexRoundTrip, verify_proof-proof_for_index, build_merkle-total}
use aemulus.Commitment.{
  Texts, CommitField, Commitment, Disclosure, index_of, get_or_empty, insert_field, ordered,
  leaf_hex, fresh_leaves, fresh_salts, build_commitment, salted_leaf, disclose_field,
  verify_disclosure,
}

-- No two fields have one name.
abbrev pub IsDistinct : List CommitField → Type 0
IsDistinct [] = Unit
IsDistinct (f ∷ fs) = All (λ g. f.name ≢ g.name) fs × IsDistinct fs

-- The field stands among the fields.
abbrev pub Contains : CommitField → List CommitField → Type 0
Contains f [] = ⊥
Contains f (g ∷ gs) = (g ≡ f) ⊎ Contains f gs

module _ (t : Texts) where
  All-insert_field :
      (P : CommitField → Type 0) (f : CommitField) (fs : List CommitField)
      → P f
      → All P fs
      → All P (insert_field t f fs)
  unfolding insert_field
  All-insert_field P f [] p ps = (p, tt)
  All-insert_field P f (g ∷ gs) p (q, qs) = ground (arith, All-insert_field P f gs p qs)

  insert_field-IsDistinct :
      (f : CommitField) (fs : List CommitField)
      → All (λ g. f.name ≢ g.name) fs
      → IsDistinct fs
      → IsDistinct (insert_field t f fs)
  unfolding insert_field
  insert_field-IsDistinct f [] new d = (tt, tt)
  insert_field-IsDistinct f (g ∷ gs) (n, new) (apart, d) = ground (
    arith,
    insert_field-IsDistinct f gs new d,
    All-insert_field (λ h. g.name ≢ h.name) f gs (λ e. n (sym e)) apart,
  )

  All-ordered : (P : CommitField → Type 0) (fs : List CommitField) → All P fs → All P (ordered t fs)
  unfolding ordered
  All-ordered P [] ps = tt
  All-ordered P (f ∷ fs) (p, ps) = All-insert_field P f _ p (All-ordered P fs ps)

  ordered-IsDistinct : (fs : List CommitField) → IsDistinct fs → IsDistinct (ordered t fs)
  unfolding ordered
  ordered-IsDistinct [] d = tt
  ordered-IsDistinct (f ∷ fs) (new, d) =
      insert_field-IsDistinct f _ (All-ordered _ fs new) (ordered-IsDistinct fs d)

  Contains-insert_self :
      (f : CommitField) (fs : List CommitField) → Contains f (insert_field t f fs)
  unfolding insert_field
  Contains-insert_self f [] = inl refl
  Contains-insert_self f (g ∷ gs) = elim (Bool-cases (t.before g.name f.name)) [
    | inl later ↦ rw later (inr (Contains-insert_self f gs))
    | inr here ↦ rw here (inl refl)
  ]

  Contains-insert :
      (h f : CommitField) (fs : List CommitField) → Contains h fs → Contains h (insert_field t f fs)
  unfolding insert_field
  Contains-insert h f [] k = absurd k
  Contains-insert h f (g ∷ gs) (inl e) = elim (Bool-cases (t.before g.name f.name)) [
    | inl later ↦ rw later (inl e)
    | inr here ↦ rw here (inr (inl e))
  ]
  Contains-insert h f (g ∷ gs) (inr k) = elim (Bool-cases (t.before g.name f.name)) [
    | inl later ↦ rw later (inr (Contains-insert h f gs k))
    | inr here ↦ rw here (inr (inr k))
  ]

  Contains-ordered :
      (h : CommitField) (fs : List CommitField) → Contains h fs → Contains h (ordered t fs)
  unfolding ordered
  Contains-ordered h [] k = absurd k
  Contains-ordered h (f ∷ fs) (inl e) = rw (← e) (Contains-insert_self f (ordered t fs))
  Contains-ordered h (f ∷ fs) (inr k) = Contains-insert h f (ordered t fs) (Contains-ordered h fs k)

name-ne :
    (h f : CommitField) (fs : List CommitField)
    → All (λ g. f.name ≢ g.name) fs
    → Contains h fs
    → f.name ≢ h.name
name-ne h f [] new k = absurd k
name-ne h f (g ∷ gs) (n, new) (inl e) = λ same. n (same ∙ ap (λ x. x.name) (sym e))
name-ne h f (g ∷ gs) (n, new) (inr k) = name-ne h f gs new k

index_of-Contains :
    (h : CommitField) (fs : List CommitField)
    → IsDistinct fs
    → Contains h fs
    → (i : ℕ) × (index_of h.name fs ≡ some i) × (get_elem? fs i ≡ some h)
unfolding index_of
index_of-Contains h [] d k = absurd k
index_of-Contains h (f ∷ fs) (new, d) (inl e) = (0, rw (e, ==_self h.name), ap some e)
index_of-Contains h (f ∷ fs) (new, d) (inr k) =
    let (i, found, at) = index_of-Contains h fs d k in
    (suc i, ground (arith, found, string_Eq.decides f.name h.name, name-ne h f fs new k), at)

module _ (c : Crypto) (t : Texts) (fresh : ℕ → String) where
  lookup-fresh_salts_other :
      (n : ℕ) (name : String) (fs : List CommitField) (salts : List (String × String))
      → All (λ g. name ≢ g.name) fs
      → lookup name (fresh_salts c t fresh n fs salts) ≡ lookup name salts
  unfolding fresh_salts
  lookup-fresh_salts_other n name [] salts new = refl
  lookup-fresh_salts_other n name (f ∷ fs) salts (other, new) =
      lookup-fresh_salts_other (n + 1) name fs (put f.name (fresh n) salts) new
      ∙ lookup-put_ne f.name name (fresh n) salts (λ e. other (sym e))

  -- The kept salts give back the leaves of the commitment.
  salted_leaf-fresh_salts :
      (n : ℕ) (fs : List CommitField) (salts : List (String × String))
      → IsDistinct fs
      → map (salted_leaf c t (fresh_salts c t fresh n fs salts)) fs ≡ fresh_leaves c t fresh n fs
  unfolding fresh_salts fresh_leaves
  salted_leaf-fresh_salts n [] salts d = refl
  salted_leaf-fresh_salts n (f ∷ fs) salts (new, d) =
      let kept : List (String × String) = put f.name (fresh n) salts in
      let own =
        lookup-fresh_salts_other (n + 1) f.name fs kept new
        ∙ lookup-put_self f.name (fresh n) salts in
      ap₂ ◌∷◌ (ap (λ o. leaf_hex c t (get_or_empty o) f.name f.value) own)
        (salted_leaf-fresh_salts (n + 1) fs kept d)

  lookup-fresh_salts :
      (h : CommitField) (n : ℕ) (fs : List CommitField) (salts : List (String × String))
      → IsDistinct fs
      → Contains h fs
      → (k : ℕ) × (lookup h.name (fresh_salts c t fresh n fs salts) ≡ some (fresh k))
  unfolding fresh_salts
  lookup-fresh_salts h n [] salts d k = absurd k
  lookup-fresh_salts h n (f ∷ fs) salts (new, d) (inl e) = (
    n,
    rw (← e)
        (lookup-fresh_salts_other (n + 1) f.name fs _ new ∙ lookup-put_self f.name (fresh n) salts),
  )
  lookup-fresh_salts h n (f ∷ fs) salts (new, d) (inr k) = lookup-fresh_salts h (n + 1) fs _ d k

  fresh_leaves-ne-nil :
      (h : CommitField) (n : ℕ) (fs : List CommitField)
      → Contains h fs
      → fresh_leaves c t fresh n fs ≢ []
  unfolding fresh_leaves
  fresh_leaves-ne-nil h n [] k = absurd k
  fresh_leaves-ne-nil h n (f ∷ fs) k = λ e. cc

  -- A commitment is made of any list of fields that contains a field, where hex encoding of
  -- digests can be undone.
  pub build_commitment-total :
      HexRoundTrip c
      → (fields : List CommitField) (h : CommitField) → Contains h fields
      → (made : Commitment) × (build_commitment c t fresh fields ≡ some made)
  unfolding build_commitment
  build_commitment-total hex fields h k =
      let (tree, e) =
        build_merkle-total c hex (fresh_leaves c t fresh 0 (ordered t fields))
          (fresh_leaves-ne-nil h 0 (ordered t fields) (Contains-ordered t h fields k)) in
      (record { root = tree.root; salts = fresh_salts c t fresh 0 (ordered t fields) [] }, rw e)

  -- For fields with different names, of which a commitment was made with salts that are not
  -- empty, the disclosure of a field exists, carries the field's name and value, and checks
  -- against the commitment's root, where hex encoding of digests can be undone.
  pub disclose_field-build_commitment :
      HexRoundTrip c
      → ((n : ℕ) → fresh n ≢ "")
      → (fields : List CommitField) (h : CommitField) (made : Commitment) → IsDistinct fields
      → Contains h fields
      → build_commitment c t fresh fields ≡ some made
      → (d : Disclosure) × (disclose_field c t fields made.salts made.root h.name ≡ some d)
        × (d.field ≡ h.name)
        × (d.value ≡ h.value)
        × (verify_disclosure c t made.root d.field d.value d.salt d.proof ≡ true)
  unfolding build_commitment disclose_field verify_disclosure
  disclose_field-build_commitment hex salted fields h made distinct member built =
      let ord = ordered t fields in
      let d = ordered-IsDistinct t fields distinct in
      let k = Contains-ordered t h fields member in
      let (tree, e, e') = >>=-eq-some (build_merkle c (fresh_leaves c t fresh 0 ord)) _ built in
      let kept : made.salts ≡ fresh_salts c t fresh 0 ord [] = ground arith in
      let root : made.root ≡ tree.root = ground arith in
      let (i, found, at) = index_of-Contains h ord d k in
      let (m, salt) = lookup-fresh_salts h 0 ord [] d k in
      let same = salted_leaf-fresh_salts 0 ord [] d in
      let leaf : salted_leaf c t (fresh_salts c t fresh 0 ord []) h
          ≡ leaf_hex c t (fresh m) h.name h.value =
        ap (λ o. leaf_hex c t (get_or_empty o) h.name h.value) salt in
      let (proof, p, ok) =
        verify_proof-proof_for_index c hex (fresh_leaves c t fresh 0 ord) tree i
          (leaf_hex c t (fresh m) h.name h.value) e
          (rw (← same, ← leaf)
            (get_elem?-map (salted_leaf c t (fresh_salts c t fresh 0 ord [])) ord i h at)) in
      let real : (fresh m == "") ≡ false =
        ground (arith, string_Eq.decides (fresh m) "", salted m) in
      (
        record { field = h.name; value = h.value; salt = fresh m; proof = proof; root = made.root },
        rw (found, kept, salt, at, same, e, p, real),
        refl,
        refl,
        rw root ok,
      )
