-- ===== src/RateLimit/Hits.antt =====
-- lib/ratelimit.ts: the map of hits, with one entry for a key, and what its sweep leaves.

use aemulus.Common.{
  ℕ, ◌≡◌, refl, sym, ap, ◌∙◌, subst, inl, inr, ◌⊎◌, Bool, true, false, not, String, string_Eq, none,
  List, [], ◌∷◌, ◌==◌, keep, keep-yes, keep-no, All, All-mono, All-keep, lookup, put, Bool-cases,
  ==_sound, arith,
}
use aemulus.RateLimit.{is_idle, hits_of}

-- The map has one entry for a key.
abbrev pub Unique : List (String × List ℕ) → Type 0
Unique [] = Unit
Unique (e ∷ m) = All (λ f. (f.0 == e.0) ≡ false) m × Unique m

pub Unique-keep :
    (p : String × List ℕ → Bool) (m : List (String × List ℕ)) → Unique m → Unique (keep p m)
Unique-keep p [] u = tt
Unique-keep p (e ∷ m) (n, u) = elim (Bool-cases (p e)) [
  | inl y ↦ subst Unique (sym (keep-yes p e m y)) (
    All-mono _ _ (λ f k. k.0) (keep p m) (All-keep (λ f. (f.0 == e.0) ≡ false) p m n),
    Unique-keep p m u,
  )
  | inr no_e ↦ subst Unique (sym (keep-no p e m no_e)) (Unique-keep p m u)
]

All-put :
    (j k : String) (v : List ℕ) (m : List (String × List ℕ))
    → (k == j) ≡ false
    → All (λ f. (f.0 == j) ≡ false) m
    → All (λ f. (f.0 == j) ≡ false) (put k v m)
unfolding put
All-put j k v [] h a = (h, tt)
All-put j k v ((i, w) ∷ m) h (b, a) = elim (Bool-cases (i == k)) [
  | inl y ↦ rw y (b, a)
  | inr n ↦ rw n (b, All-put j k v m h a)
]

pub Unique-put :
    (k : String) (v : List ℕ) (m : List (String × List ℕ)) → Unique m → Unique (put k v m)
unfolding put
Unique-put k v [] u = (tt, tt)
Unique-put k v ((i, w) ∷ m) (n, u) = elim (Bool-cases (i == k)) [
  | inl y ↦ rw y (n, u)
  | inr other ↦
      let apart : (k == i) ≡ false = ground (arith, string_Eq.decides k i, string_Eq.decides i k) in
      rw other (All-put i k v m apart n, Unique-put k v m u)
]

lookup-absent :
    (key : String) (p : String × List ℕ → Bool) (m : List (String × List ℕ))
    → All (λ f. (f.0 == key) ≡ false) m
    → lookup key (keep p m) ≡ none
unfolding lookup
lookup-absent key p [] a = refl
lookup-absent key p ((i, w) ∷ m) (b, a) = elim (Bool-cases (p (i, w))) [
  | inl y ↦ ap (lookup key) (keep-yes p (i, w) m y) ∙ rw b (lookup-absent key p m a)
  | inr n ↦ ap (lookup key) (keep-no p (i, w) m n) ∙ lookup-absent key p m a
]

-- The sweep leaves a key's hits, or drops them where they are idle.
abbrev pub IsSwept : ℕ → List ℕ → List ℕ → Type 0
IsSwept now before after = (after ≡ before) ⊎ ((after ≡ []) × (is_idle now before ≡ true))

pub swept :
    (key : String) (now : ℕ) (m : List (String × List ℕ))
    → Unique m
    → IsSwept now
        (hits_of (lookup key m))
        (hits_of (lookup key (keep (λ e. not (is_idle now e.1)) m)))
unfolding lookup
swept key now [] u = inl refl
swept key now ((i, w) ∷ m) (n, u) =
    let p : String × List ℕ → Bool = λ e. not (is_idle now e.1) in
    elim (Bool-cases (i == key)) [
      | inl y ↦ elim (Bool-cases (p (i, w))) [
        | inl k ↦ inl (ap (λ x. hits_of (lookup key x)) (keep-yes p (i, w) m k) ∙ rw y refl)
        | inr k ↦
            let at : i ≡ key = ==_sound i key y in
            let absent : All (λ f. (f.0 == key) ≡ false) m =
              subst (λ x. All (λ (f : String × List ℕ). (f.0 == x) ≡ false) m) at n in
            inr (
              ap (λ x. hits_of (lookup key x)) (keep-no p (i, w) m k)
                  ∙ ap hits_of (lookup-absent key p m absent),
              rw y (ground arith),
            )
      ]
      | inr o ↦
          let before : hits_of (lookup key m) ≡ hits_of (lookup key ((i, w) ∷ m)) = rw o refl in
          let after : hits_of (lookup key (keep p m)) ≡ hits_of (lookup key (keep p ((i, w) ∷ m))) =
            elim (Bool-cases (p (i, w))) [
              | inl k ↦ rw (keep-yes p (i, w) m k, o) refl
              | inr k ↦ rw (keep-no p (i, w) m k) refl
            ] in
          subst (λ x. IsSwept now (hits_of (lookup key ((i, w) ∷ m))) x) after
            (subst (λ x. IsSwept now x (hits_of (lookup key (keep p m)))) before
              (swept key now m u))
    ]
