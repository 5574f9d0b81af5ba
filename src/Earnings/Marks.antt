-- ===== src/Earnings/Marks.antt =====
-- What marking and unmarking do to the sums over a claim's rows.
use mathlib.Core.Path.{ap₂}
use aemulus.Common.{
  ◌≡◌, ◌≢◌, refl, sym, ap, ◌∙◌, Bool, false, ◌&&◌, String, string_Eq, some, List, [], ◌∷◌, map,
  ◌==◌, keep, All, Option-cases, Bool-cases, ==_self, arith, inl, inr,
}
use aemulus.Earnings.{Amounts, Earning, amounts, is_open, is_under, mark, unmark}

module _ (a : Amounts) where
  -- Rows that a change keeps in the selection, with their amounts, keep the amounts selected.
  pub amounts_selected :
      (p q : Earning a → Bool) (f : Earning a → Earning a) (es : List (Earning a))
      → ((e : Earning a) → (f e).amount ≡ e.amount)
      → All (λ e. p (f e) ≡ q e) es
      → amounts a (keep p (map f es)) ≡ amounts a (keep q es)
  amounts_selected p q f [] same ps = refl
  amounts_selected p q f (e ∷ es) same (h, ps) =
      ground (arith, same e, amounts_selected p q f es same ps)

  pub mark-amount : (id owner : String) (e : Earning a) → (mark a id owner e).amount ≡ e.amount
  mark-amount id owner e = ground arith

  pub unmark-amount : (id : String) (e : Earning a) → (unmark a id e).amount ≡ e.amount
  unmark-amount id e = ground arith

  pub is_under-mark_other :
      (j id owner : String) (e : Earning a)
      → j ≢ id
      → is_under a j (mark a id owner e) ≡ is_under a j e
  is_under-mark_other j id owner e n = ground (arith, string_Eq.decides id j)

  pub is_under-unmark_other :
      (j id : String) (e : Earning a) → j ≢ id → is_under a j (unmark a id e) ≡ is_under a j e
  is_under-unmark_other j id e n = elim (Option-cases e.claim_id) [
    | inl h ↦ ground (arith, h)
    | inr (c, h) ↦ ground (arith, h, string_Eq.decides c j, string_Eq.decides c id)
  ]

  -- Rows that are not under a claim come under it by the mark just where they are the owner's and open.
  pub is_under-mark :
      (id owner : String) (e : Earning a)
      → is_under a id e ≡ false
      → is_under a id (mark a id owner e) ≡ (e.owner == owner && is_open a e)
  is_under-mark id owner e h = ground (arith, ==_self id)

  pub is_open-mark :
      (id owner : String) (e : Earning a)
      → ((mark a id owner e).owner == owner && is_open a (mark a id owner e)) ≡ false
  is_open-mark id owner e = ground arith

  unmark-mark :
      (id owner : String) (e : Earning a)
      → is_under a id e ≡ false
      → unmark a id (mark a id owner e) ≡ e
  unmark-mark id owner e h = elim (Option-cases e.claim_id) [
    | inr (c, k) ↦ ground (arith, k)
    | inl k ↦ elim (Bool-cases (e.owner == owner)) [
      | inr other ↦ ground (arith, k, other)
      | inl own ↦
          let marked : mark a id owner e ≡ record e { claim_id = some id } = rw (own, k) refl in
          ap (unmark a id) marked ∙ rw (==_self id) (ap (λ c. record e { claim_id = c }) (sym k))
    ]
  ]

  -- The rows are as they were before a mark that is undone.
  pub unmark-mark_every :
      (id owner : String) (es : List (Earning a))
      → All (λ e. is_under a id e ≡ false) es
      → map (unmark a id) (map (mark a id owner) es) ≡ es
  unmark-mark_every id owner [] ps = refl
  unmark-mark_every id owner (e ∷ es) (p, ps) =
      ap₂ ◌∷◌ (unmark-mark id owner e p) (unmark-mark_every id owner es ps)

  pub All-of {κ} :
      (P : Earning a → Type κ) → ((e : Earning a) → P e) → (es : List (Earning a)) → All P es
  All-of P f [] = tt
  All-of P f (e ∷ es) = (f e, All-of P f es)
