-- ===== src/RateLimit/Times.antt =====
-- lib/ratelimit.ts: times in order, and those that a window holds.

use aemulus.Common.{
  ℕ, ◌≤◌, ◌≡◌, refl, sym, ap, ◌∙◌, subst, inl, inr, ◌⊎◌, Bool, true, false, string_Eq, List, [],
  ◌∷◌, ◌++◌, keep, keep-yes, keep-no, get_last_or, All, All-mono, All-keep, All-append, Bool-cases,
  arith,
}
use aemulus.RateLimit.{sweep_max_age_ms, is_idle, is_recent}

-- Times in order.
abbrev pub IsAscending : List ℕ → Type 0
IsAscending [] = Unit
IsAscending (t ∷ ts) = All (λ u. t ≤ u) ts × IsAscending ts

pub IsAscending-keep : (p : ℕ → Bool) (ts : List ℕ) → IsAscending ts → IsAscending (keep p ts)
IsAscending-keep p [] h = tt
IsAscending-keep p (t ∷ ts) (a, h) = elim (Bool-cases (p t)) [
  | inl y ↦ subst IsAscending (sym (keep-yes p t ts y)) (
    All-mono _ _ (λ u k. k.0) (keep p ts) (All-keep (λ u. t ≤ u) p ts a),
    IsAscending-keep p ts h,
  )
  | inr n ↦ subst IsAscending (sym (keep-no p t ts n)) (IsAscending-keep p ts h)
]

pub IsAscending-append :
    (ts : List ℕ) (now : ℕ) → IsAscending ts → All (λ u. u ≤ now) ts → IsAscending (ts ++ now ∷ [])
IsAscending-append [] now h b = (tt, tt)
IsAscending-append (t ∷ ts) now (a, h) (b, bs) =
    (All-append _ ts (now ∷ []) a (b, tt), IsAscending-append ts now h bs)

last-max : (t : ℕ) (ts : List ℕ) → IsAscending (t ∷ ts) → All (λ u. u ≤ get_last_or t ts) (t ∷ ts)
last-max t [] h = (omega arith, tt)
last-max t (u ∷ ts) ((a, rest), h) = let (b, bs) = last-max u ts h in (omega arith, (b, bs))

keep_nothing : (p : ℕ → Bool) (ts : List ℕ) → All (λ u. p u ≡ false) ts → keep p ts ≡ []
keep_nothing p [] h = refl
keep_nothing p (t ∷ ts) (h, hs) = keep-no p t ts h ∙ keep_nothing p ts hs

module _ (window : ℕ) where
  abbrev pub in_window : ℕ → List ℕ → List ℕ
  in_window now ts = keep (is_recent now window) ts

  -- What was out of the window stays out of it.
  pub in_window-again :
      (now later : ℕ) (ts : List ℕ)
      → now ≤ later
      → in_window later (in_window now ts) ≡ in_window later ts
  in_window-again now later [] h = refl
  in_window-again now later (t ∷ ts) h = elim (Bool-cases (is_recent now window t)) [
    | inl y ↦
        ap (in_window later) (keep-yes (is_recent now window) t ts y)
        ∙ same_head (in_window-again now later ts h) (Bool-cases (is_recent later window t))
    | inr n ↦
        let out : is_recent later window t ≡ false = ground arith in
        ap (in_window later) (keep-no (is_recent now window) t ts n)
        ∙ in_window-again now later ts h
        ∙ sym (keep-no (is_recent later window) t ts out)
  ]
    where
      same_head :
          in_window later (in_window now ts) ≡ in_window later ts
          → (is_recent later window t ≡ true) ⊎ (is_recent later window t ≡ false)
          → in_window later (t ∷ in_window now ts) ≡ in_window later (t ∷ ts)
      same_head rest (inl s) =
          keep-yes (is_recent later window) t (in_window now ts) s
          ∙ ap (λ x. t ∷ x) rest
          ∙ sym (keep-yes (is_recent later window) t ts s)
      same_head rest (inr s) =
          keep-no (is_recent later window) t (in_window now ts) s
          ∙ rest
          ∙ sym (keep-no (is_recent later window) t ts s)

  pub idle-in_window :
      (now later : ℕ) (ts : List ℕ)
      → window ≤ sweep_max_age_ms
      → now ≤ later
      → IsAscending ts
      → is_idle now ts ≡ true
      → in_window later ts ≡ []
  idle-in_window now later [] w h a i = refl
  idle-in_window now later (t ∷ ts) w h a i =
      keep_nothing (is_recent later window) (t ∷ ts)
        (All-mono _ _ (λ u k. ground arith) (t ∷ ts) (last-max t ts a))
