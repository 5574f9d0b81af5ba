-- ===== src/Earnings/Balance.antt =====
-- Books that balance: a claim holds the sum of the rows under it, or none where its cancellation has begun, and no two claims have one id.
use aemulus.Common.{
  ◌≡◌, refl, sym, ap, ◌∙◌, subst, any, Bool, true, false, not, ◌&&◌, String, string_Eq, none, List,
  [], ◌∷◌, ◌++◌, map, ◌==◌, keep, find-yes, find-no, keep-yes, keep-no, find, All, All-mono,
  Bool-cases, ==_sound, arith, inl, inr,
}
use aemulus.Earnings.{
  Amounts, Earning, Claim, Ledger, amounts, is_under, is_pending, mark, unmark, is_unsettled,
}
use aemulus.Earnings.Marks.{
  amounts_selected, mark-amount, unmark-amount, is_under-mark_other, is_under-unmark_other, All-of,
}

module _ (a : Amounts) where
  open a use {Amount, sum}

  -- What a claim holds: the sum of the rows under it, or no row where its cancellation has begun.
  abbrev pub Holds : Bool → Amount → List Amount → Type 0
  Holds false amount xs = amount ≡ sum xs
  Holds true amount xs = xs ≡ []

  -- `gone` has the ids of the claims whose rows were released to cancel them.
  abbrev pub is_gone : List String → String → Bool
  is_gone gone id = any (λ g. g == id) gone

  abbrev pub Covers : List String → List (Earning a) → Claim a → Type 0
  Covers gone es c = Holds (is_gone gone c.id) c.amount (amounts a (keep (is_under a c.id) es))

  -- No two claims have one id: it is the table's primary key.
  abbrev pub Unique : List (Claim a) → Type 0
  Unique [] = Unit
  Unique (c ∷ cs) = All (λ (d : Claim a). (d.id == c.id) ≡ false) cs × Unique cs

  pub record IsBalanced (gone : List String) (l : Ledger a) : Type 0 where
    pub covered : All (Covers gone l.earnings) l.claims
    pub unique : Unique l.claims

  pub All-snoc :
      (P : Claim a → Type 0) (cs : List (Claim a)) (c : Claim a)
      → All P cs
      → P c
      → All P (cs ++ c ∷ [])
  All-snoc P [] c ps q = (q, tt)
  All-snoc P (d ∷ cs) c (p, ps) q = (p, All-snoc P cs c ps q)

  pub keep-new :
      (id : String) (es : List (Earning a)) (e : Earning a)
      → e.claim_id ≡ none
      → keep (is_under a id) (es ++ e ∷ []) ≡ keep (is_under a id) es
  keep-new id [] e o = ground (arith, o)
  keep-new id (x ∷ es) e o = ground (arith, keep-new id es e o)

  pub Covers-new :
      (gone : List String) (es : List (Earning a)) (e : Earning a) (cs : List (Claim a))
      → e.claim_id ≡ none
      → All (Covers gone es) cs
      → All (Covers gone (es ++ e ∷ [])) cs
  Covers-new gone es e cs o =
      All-mono (Covers gone es) (Covers gone (es ++ e ∷ []))
        (λ c h.
          subst (λ xs. Holds (is_gone gone c.id) c.amount (amounts a xs))
            (sym (keep-new c.id es e o)) h)
        cs

  pub All-keep :
      (P Q : Claim a → Type 0) (p : Claim a → Bool) (cs : List (Claim a))
      → All (λ c. P c × (p c ≡ true → P c → Q c)) cs
      → All Q (keep p cs)
  All-keep P Q p [] ps = tt
  All-keep P Q p (c ∷ cs) ((h, f), ps) = elim (Bool-cases (p c)) [
    | inl holds ↦ rw (keep-yes p c cs holds) (f holds h, All-keep P Q p cs ps)
    | inr fails ↦ rw (keep-no p c cs fails) (All-keep P Q p cs ps)
  ]

  pub All-both :
      (P Q : Claim a → Type 0) (cs : List (Claim a)) → All P cs → All Q cs → All (λ c. P c × Q c) cs
  All-both P Q [] ps qs = tt
  All-both P Q (c ∷ cs) (p, ps) (q, qs) = ((p, q), All-both P Q cs ps qs)

  pub All-claims : (P : Claim a → Type 0) → ((c : Claim a) → P c) → (cs : List (Claim a)) → All P cs
  All-claims P f [] = tt
  All-claims P f (c ∷ cs) = (f c, All-claims P f cs)

  pub Unique-keep : (p : Claim a → Bool) (cs : List (Claim a)) → Unique cs → Unique (keep p cs)
  Unique-keep p [] u = tt
  Unique-keep p (c ∷ cs) (n, u) = elim (Bool-cases (p c)) [
    | inl holds ↦
        rw (keep-yes p c cs holds)
          (All-keep _ _ p cs (All-both _ _ cs n (All-claims _ (λ d k h. h) cs)), Unique-keep p cs u)
    | inr fails ↦ rw (keep-no p c cs fails) (Unique-keep p cs u)
  ]

  pub All-ids :
      (f : Claim a → Claim a) (id : String) (cs : List (Claim a))
      → ((c : Claim a) → (f c).id ≡ c.id)
      → All (λ (d : Claim a). (d.id == id) ≡ false) cs
      → All (λ (d : Claim a). (d.id == id) ≡ false) (map f cs)
  All-ids f id [] same ps = tt
  All-ids f id (c ∷ cs) same (p, ps) = (rw (same c) p, All-ids f id cs same ps)

  pub Unique-map :
      (f : Claim a → Claim a) (cs : List (Claim a))
      → ((c : Claim a) → (f c).id ≡ c.id)
      → Unique cs
      → Unique (map f cs)
  Unique-map f [] same u = tt
  Unique-map f (c ∷ cs) same (n, u) =
      (All-ids f (f c).id cs same (rw (same c) n), Unique-map f cs same u)

  pub Unique-snoc :
      (cs : List (Claim a)) (c : Claim a)
      → All (λ (d : Claim a). (d.id == c.id) ≡ false) cs
      → Unique cs
      → Unique (cs ++ c ∷ [])
  Unique-snoc [] c fs u = (tt, tt)
  Unique-snoc (d ∷ cs) c (f, fs) (n, u) = (
    All-snoc _ cs c n (ground (arith, string_Eq.decides d.id c.id, string_Eq.decides c.id d.id)),
    Unique-snoc cs c fs u,
  )

  pub Covers-map :
      (gone : List String) (f : Earning a → Earning a) (es : List (Earning a)) (c : Claim a)
      → ((e : Earning a) → (f e).amount ≡ e.amount)
      → ((e : Earning a) → is_under a c.id (f e) ≡ is_under a c.id e)
      → Covers gone es c
      → Covers gone (map f es) c
  Covers-map gone f es c same under h =
      subst (Holds (is_gone gone c.id) c.amount)
        (sym
          (amounts_selected a (is_under a c.id) (is_under a c.id) f es same (All-of a _ under es)))
        h

  pub Covers-unmark :
      (gone : List String) (id : String) (es : List (Earning a)) (c : Claim a)
      → (c.id == id) ≡ false
      → Covers gone es c
      → Covers gone (map (unmark a id) es) c
  Covers-unmark gone id es c other =
      Covers-map gone (unmark a id) es c (unmark-amount a id)
        (λ e. is_under-unmark_other a c.id id e (λ h. ground (arith, string_Eq.decides c.id id)))

  released_empty :
      (id : String) (es : List (Earning a))
      → amounts a (keep (is_under a id) (map (unmark a id) es)) ≡ []
  released_empty id [] = refl
  released_empty id (e ∷ es) =
      ap (amounts a) (keep-no (is_under a id) (unmark a id e) (map (unmark a id) es) (ground arith))
      ∙ released_empty id es

  -- A claim whose rows are released holds none, and the others what they held.
  pub Covers-release :
      (gone : List String) (id : String) (es : List (Earning a)) (c : Claim a)
      → Covers gone es c
      → Covers (id ∷ gone) (map (unmark a id) es) c
  Covers-release gone id es c h = elim (Bool-cases (id == c.id)) [
    | inl same ↦
        let at : id ≡ c.id = ==_sound id c.id same in
        rw same (
          ap (λ i. amounts a (keep (is_under a c.id) (map (unmark a i) es))) at
          ∙ released_empty c.id es)
    | inr other ↦
        let apart : (c.id == id) ≡ false =
          ground (arith, string_Eq.decides id c.id, string_Eq.decides c.id id) in
        rw other (Covers-unmark gone id es c apart h)
  ]

  -- Where a claim that is not settled is rolled back, no claim with its id is kept.
  pub kept-other :
      (id : String) (cs : List (Claim a))
      → Unique cs
      → is_unsettled a (find (λ d. d.id == id) cs) ≡ true
      → All (λ (d : Claim a). not (d.id == id && is_pending a d) ≡ true → (d.id == id) ≡ false) cs
  kept-other id [] u h = tt
  kept-other id (d ∷ cs) (n, u) h = elim (Bool-cases (d.id == id)) [
    | inr other ↦ (
      (λ k. other),
      kept-other id cs u (sym (ap (is_unsettled a) (find-no (λ e. e.id == id) d cs other)) ∙ h),
    )
    | inl same ↦
        let at : d.id ≡ id = ==_sound d.id id same in
        let waits : is_pending a d ≡ true =
          sym (ap (is_unsettled a) (find-yes (λ e. e.id == id) d cs same)) ∙ h in
        (
          (λ k. ground (arith, same, waits)),
          All-mono (λ (e : Claim a). (e.id == d.id) ≡ false)
              (λ (e : Claim a). not (e.id == id && is_pending a e) ≡ true → (e.id == id) ≡ false)
              (λ e f k. rw (← at) f) cs n,
        )
  ]

  pub Covers-mark :
      (gone : List String) (id owner : String) (es : List (Earning a)) (cs : List (Claim a))
      → All (λ (c : Claim a). (c.id == id) ≡ false) cs
      → All (Covers gone es) cs
      → All (Covers gone (map (mark a id owner) es)) cs
  Covers-mark gone id owner es [] fs ps = tt
  Covers-mark gone id owner es (c ∷ cs) (f, fs) (p, ps) = (
    Covers-map gone (mark a id owner) es c (mark-amount a id owner)
        (λ e.
          is_under-mark_other a c.id id owner e (λ h. ground (arith, string_Eq.decides c.id id)))
        p,
    Covers-mark gone id owner es cs fs ps,
  )

  -- A change of the settlements alone.
  pub Covers-settled :
      (gone : List String) (f : Claim a → Claim a) (es : List (Earning a)) (cs : List (Claim a))
      → ((c : Claim a) → ((f c).id ≡ c.id) × ((f c).amount ≡ c.amount))
      → All (Covers gone es) cs
      → All (Covers gone es) (map f cs)
  Covers-settled gone f es [] same ps = tt
  Covers-settled gone f es (c ∷ cs) same (p, ps) =
      let (i, m) = same c in
      (
        subst (λ j. Holds (is_gone gone j) (f c).amount (amounts a (keep (is_under a j) es)))
            (sym i)
            (subst (λ x. Holds (is_gone gone c.id) x (amounts a (keep (is_under a c.id) es)))
              (sym m) p),
        Covers-settled gone f es cs same ps,
      )
