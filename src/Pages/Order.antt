-- ===== src/Pages/Order.antt =====
-- lib/pagination.ts: the order of rows, and what a cursor selects of them.
use aemulus.Common.{
  suc, length, ◌≡◌, refl, sym, ap, ◌∙◌, subst, inl, inr, Bool, true, false, ◌||◌, List, [], ◌∷◌,
  ◌++◌, if◌then◌else◌, keep, keep-yes, keep-no, All, All-mono, All-insert_sorted, All-sort, sort,
  insert_sorted, Bool-cases, arith,
}

module _ {A : Type 0} (before : A → A → Bool) where
  -- No row stands before itself, and the order is transitive.
  pub record IsStrict : Type 0 where
    pub irreflexive : (x : A) → before x x ≡ false
    pub transitive : (x y z : A) → before x y ≡ true → before y z ≡ true → before x z ≡ true

  -- Of two rows one stands before the other.
  abbrev pub AreApart : List A → Type 0
  AreApart [] = Unit
  AreApart (x ∷ xs) = All (λ y. (before x y || before y x) ≡ true) xs × AreApart xs

  abbrev pub IsSorted : List A → Type 0
  IsSorted [] = Unit
  IsSorted (x ∷ xs) = All (λ y. before x y ≡ true) xs × IsSorted xs

  module _ (strict : IsStrict) where
    asym : (x y : A) → before x y ≡ true → before y x ≡ false
    asym x y h = ground (arith, strict.irreflexive x, strict.transitive x y x)

    insert_sorted-IsSorted :
        (x : A) (ys : List A)
        → All (λ y. (before x y || before y x) ≡ true) ys
        → IsSorted ys
        → IsSorted (insert_sorted before x ys)
    unfolding insert_sorted
    insert_sorted-IsSorted x [] c s = (tt, tt)
    insert_sorted-IsSorted x (y ∷ ys) (c, cs) (a, s) = elim (Bool-cases (before y x)) [
      | inl later ↦ rw later (
        All-insert_sorted before (λ z. before y z ≡ true) x ys later a,
        insert_sorted-IsSorted x ys cs s,
      )
      | inr sooner ↦
          let first : before x y ≡ true = ground arith in
          rw sooner ((first, All-mono _ _ (λ z h. strict.transitive x y z first h) ys a), (a, s))
    ]

    pub sort-IsSorted : (xs : List A) → AreApart xs → IsSorted (sort before xs)
    unfolding sort
    sort-IsSorted [] h = tt
    sort-IsSorted (x ∷ xs) (c, h) =
        insert_sorted-IsSorted x (sort before xs)
          (All-sort before (λ y. (before x y || before y x) ≡ true) xs c) (sort-IsSorted xs h)

    insert_sorted-first :
        (x : A) (zs : List A) → All (λ z. before x z ≡ true) zs → insert_sorted before x zs ≡ x ∷ zs
    unfolding insert_sorted
    insert_sorted-first x [] h = refl
    insert_sorted-first x (z ∷ zs) (h, hs) = rw (asym x z h)

    All-keep_of : (P : A → Type 0) (p : A → Bool) (xs : List A) → All P xs → All P (keep p xs)
    All-keep_of P p [] h = tt
    All-keep_of P p (x ∷ xs) (h, hs) = elim (Bool-cases (p x)) [
      | inl k ↦ subst (All P) (sym (keep-yes p x xs k)) (h, All-keep_of P p xs hs)
      | inr k ↦ subst (All P) (sym (keep-no p x xs k)) (All-keep_of P p xs hs)
    ]

    keep-insert_sorted :
        (p : A → Bool) (x : A) (ys : List A)
        → All (λ y. (before x y || before y x) ≡ true) ys
        → IsSorted ys
        → keep p (insert_sorted before x ys)
          ≡ (if p x then insert_sorted before x (keep p ys) else keep p ys)
    unfolding insert_sorted
    keep-insert_sorted p x [] c s = ground arith
    keep-insert_sorted p x (y ∷ ys) (c, cs) (a, s) = elim (Bool-cases (before y x)) [
      | inl later ↦ let rest = keep-insert_sorted p x ys cs s in rw later (ground (arith, rest))
      | inr sooner ↦
          let first : before x y ≡ true = ground arith in
          let all : All (λ z. before x z ≡ true) (y ∷ ys) =
            (first, All-mono _ _ (λ z h. strict.transitive x y z first h) ys a) in
          let front = insert_sorted-first x (keep p (y ∷ ys)) (All-keep_of _ p (y ∷ ys) all) in
          rw sooner (elim (Bool-cases (p x)) [
            | inl k ↦ keep-yes p x (y ∷ ys) k ∙ sym front ∙ rw k refl
            | inr k ↦ keep-no p x (y ∷ ys) k ∙ rw k refl
          ])
    ]

    -- Rows that are selected and then ordered are the ordered rows, selected.
    pub sort-keep :
        (p : A → Bool) (xs : List A)
        → AreApart xs
        → sort before (keep p xs) ≡ keep p (sort before xs)
    unfolding sort
    sort-keep p [] h = refl
    sort-keep p (x ∷ xs) (c, h) =
        let rest = sort-keep p xs h in
        let step =
          keep-insert_sorted p x (sort before xs)
            (All-sort before (λ y. (before x y || before y x) ≡ true) xs c) (sort-IsSorted xs h) in
        elim (Bool-cases (p x)) [
          | inl k ↦
              ap (sort before) (keep-yes p x xs k)
              ∙ ap (insert_sorted before x) rest
              ∙ sym (step ∙ rw k refl)
          | inr k ↦ ap (sort before) (keep-no p x xs k) ∙ rest ∙ sym (step ∙ rw k refl)
        ]

    -- The rows after one are those that follow it.
    keep_all : (c : A) (xs : List A) → All (λ y. before c y ≡ true) xs → keep (before c) xs ≡ xs
    keep_all c [] h = refl
    keep_all c (x ∷ xs) (h, hs) = keep-yes (before c) x xs h ∙ ap (λ r. x ∷ r) (keep_all c xs hs)

    All-at : (P : A → Type 0) (xs : List A) (c : A) (ys : List A) → All P (xs ++ c ∷ ys) → P c
    All-at P [] c ys (h, hs) = h
    All-at P (x ∷ xs) c ys (h, hs) = All-at P xs c ys hs

    pub keep-after :
        (done : List A) (c : A) (rest : List A)
        → IsSorted (done ++ c ∷ rest)
        → keep (before c) (done ++ c ∷ rest) ≡ rest
    keep-after [] c rest (a, s) =
        keep-no (before c) c rest (strict.irreflexive c) ∙ keep_all c rest a
    keep-after (d ∷ done) c rest (a, s) =
        keep-no (before c) d (done ++ c ∷ rest) (asym d c (All-at _ done c rest a))
        ∙ keep-after done c rest s

  length-insert_sorted :
      (x : A) (ys : List A) → length (insert_sorted before x ys) ≡ suc (length ys)
  unfolding insert_sorted
  length-insert_sorted x [] = refl
  length-insert_sorted x (y ∷ ys) = ground (arith, length-insert_sorted x ys)

  pub length-sort : (xs : List A) → length (sort before xs) ≡ length xs
  unfolding sort
  length-sort [] = refl
  length-sort (x ∷ xs) = length-insert_sorted x (sort before xs) ∙ ap suc (length-sort xs)
