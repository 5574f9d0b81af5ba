-- ===== src/Common/Sort.antt =====
-- `Array.prototype.sort`, which is stable, for a comparator that says when one item stands before
-- another.
use mathlib.Core.Path.{◌≡◌, refl}
use mathlib.Core.Logic.{inl, inr}
use mathlib.Core.Bool.{Bool, false}
use mathlib.Core.List.{List, [], ◌∷◌, ◌++◌, Perm}
use mathlib.Core.List.Perm
use native.Mathlib.Omega.{arith}
use aemulus.Common.Tests.{if◌then◌else◌, Bool-cases}
use aemulus.Common.Lists.{All}

module _ {ℓ} {A : Type ℓ} (before : A → A → Bool) where
  unfoldable pub insert_sorted : A → List A → List A
  insert_sorted x [] = x ∷ []
  insert_sorted x (y ∷ ys) = if before y x then y ∷ insert_sorted x ys else x ∷ y ∷ ys

  unfoldable pub sort : List A → List A
  sort [] = []
  sort (x ∷ xs) = insert_sorted x (sort xs)

  insert_sorted-append :
      (x r : A) (xs : List A)
      → before r x ≡ false
      → insert_sorted x (xs ++ r ∷ []) ≡ insert_sorted x xs ++ r ∷ []
  unfolding insert_sorted
  insert_sorted-append x r [] h = rw h
  insert_sorted-append x r (y ∷ ys) h = ground (arith, insert_sorted-append x r ys h)

  -- An item that stands before none of the others stays last.
  pub sort-append :
      (xs : List A) (r : A)
      → All (λ x. before r x ≡ false) xs
      → sort (xs ++ r ∷ []) ≡ sort xs ++ r ∷ []
  unfolding sort insert_sorted
  sort-append [] r h = refl
  sort-append (x ∷ xs) r (h, hs) = rw (sort-append xs r hs) (insert_sorted-append x r (sort xs) h)

  pub All-insert_sorted {κ} :
      (P : A → Type κ) (x : A) (xs : List A) → P x → All P xs → All P (insert_sorted x xs)
  unfolding insert_sorted
  All-insert_sorted P x [] p ps = (p, tt)
  All-insert_sorted P x (y ∷ ys) p (q, qs) = elim (Bool-cases (before y x)) [
    | inl later ↦ rw later (q, All-insert_sorted P x ys p qs)
    | inr here ↦ rw here (p, (q, qs))
  ]

  pub All-sort {κ} : (P : A → Type κ) (xs : List A) → All P xs → All P (sort xs)
  unfolding sort
  All-sort P [] ps = tt
  All-sort P (x ∷ xs) (p, ps) = All-insert_sorted P x (sort xs) p (All-sort P xs ps)

  pub All-insert_sorted_inv {κ} :
      (P : A → Type κ) (x : A) (xs : List A) → All P (insert_sorted x xs) → P x × All P xs
  unfolding insert_sorted
  All-insert_sorted_inv P x [] ps = ps
  All-insert_sorted_inv P x (y ∷ ys) ps = elim (Bool-cases (before y x)) [
    | inl later ↦
        let (q, ps') = rw (later, insert_sorted) at ps in
        let (p, qs) = All-insert_sorted_inv P x ys ps' in (p, (q, qs))
    | inr here ↦ rw (here, insert_sorted) at ps
  ]

  pub All-sort_inv {κ} : (P : A → Type κ) (xs : List A) → All P (sort xs) → All P xs
  unfolding sort
  All-sort_inv P [] ps = tt
  All-sort_inv P (x ∷ xs) ps =
      let (p, rest) = All-insert_sorted_inv P x (sort xs) ps in (p, All-sort_inv P xs rest)

  insert_sorted-perm : (x : A) (xs : List A) → Perm (insert_sorted x xs) (x ∷ xs)
  unfolding insert_sorted
  insert_sorted-perm x [] = Perm.rfl
  insert_sorted-perm x (y ∷ ys) = elim (Bool-cases (before y x)) [
    | inl later ↦ rw later (Perm.trans (Perm.cons y (insert_sorted-perm x ys)) (Perm.swap x y ys))
    | inr here ↦ rw here Perm.rfl
  ]

  -- Sorting loses no item and makes up none.
  pub sort-perm : (xs : List A) → Perm (sort xs) xs
  unfolding sort
  sort-perm [] = Perm.rfl
  sort-perm (x ∷ xs) = Perm.trans (insert_sorted-perm x (sort xs)) (Perm.cons x (sort-perm xs))
