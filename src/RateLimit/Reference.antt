-- ===== src/RateLimit/Reference.antt =====
-- lib/ratelimit.ts: the limiter against a log of the calls that it allowed.
use mathlib.Core.Path.{ap₂}
use aemulus.Common.{
  ℕ, ◌+◌, ◌≤◌, ◌≡◌, refl, sym, ap, ◌∙◌, subst, inl, inr, Bool, true, false, not, ◌&&◌, ◌||◌, nat_eq,
  String, string_Eq, List, [], ◌∷◌, ◌++◌, length, ltb, leb, ◌==◌, keep, keep-append, All, All-mono,
  All-keep, All-append, lookup, put, lookup-put_self, lookup-put_ne, Bool-cases, ==_sound, arith,
}
use aemulus.RateLimit.{
  Limiter, sweep_every, sweep_max_age_ms, maybe_sweep, hits_of, is_recent, recent_hits, rate_limit,
}
use aemulus.RateLimit.Times.{
  IsAscending, IsAscending-keep, IsAscending-append, in_window, in_window-again, idle-in_window,
}
use aemulus.RateLimit.Hits.{Unique, Unique-keep, Unique-put, IsSwept, swept}

-- A call, and the answers to those of a key.
pub record Call : Type 0 where
  pub who : String
  pub max : ℕ
  pub window : ℕ
  pub at : ℕ

abbrev pub put_answer : Bool → Bool → List Bool → List Bool
put_answer true b bs = b ∷ bs
put_answer false b bs = bs

unfoldable pub answers : String → List Call → Limiter → List Bool
answers key [] l = []
answers key (c ∷ calls) l =
    put_answer (c.who == key) (rate_limit c.who c.max c.window c.at l).1.allowed
      (answers key calls (rate_limit c.who c.max c.window c.at l).0)

abbrev pub log_after : Bool → List ℕ → ℕ → List ℕ
log_after true log at = log ++ at ∷ []
log_after false log at = log

-- The reference keeps the times of all calls of the key that it allowed, and never drops one.
abbrev pub has_room : Call → List ℕ → Bool
has_room c log = ltb (length (keep (is_recent c.at c.window) log)) c.max

unfoldable pub reference : String → List Call → List ℕ → List Bool
reference key [] log = []
reference key (c ∷ calls) log =
    put_answer (c.who == key) (has_room c log)
      (reference key calls (log_after (c.who == key && has_room c log) log c.at))

abbrev pub InOrder : ℕ → List Call → Type 0
InOrder t [] = Unit
InOrder t (c ∷ calls) = (t ≤ c.at) × InOrder c.at calls

module _ (key : String) (window : ℕ) where
  -- The hits that the limiter has for the key are those of the log, as far as a later window sees.
  record Tracks (log : List ℕ) (t : ℕ) (ts : List ℕ) : Type 0 where
    ascending : IsAscending ts
    past : All (λ u. u ≤ t) ts
    same : (now : ℕ) → t ≤ now → in_window window now ts ≡ in_window window now log

  record IsSound (log : List ℕ) (t : ℕ) (l : Limiter) : Type 0 where
    tracks : Tracks log t (hits_of (lookup key l.hits))
    unique : Unique l.hits

  Tracks-later :
      (log : List ℕ) (t now : ℕ) (ts : List ℕ) → t ≤ now → Tracks log t ts → Tracks log now ts
  Tracks-later log t now ts h k = record {
    ascending = k.ascending;
    past = All-mono _ _ (λ u b. omega arith) ts k.past;
    same = λ later g. k.same later (omega arith);
  }

  Tracks-swept :
      (log : List ℕ) (now : ℕ) (before after : List ℕ)
      → window ≤ sweep_max_age_ms
      → Tracks log now before
      → IsSwept now before after
      → Tracks log now after
  Tracks-swept log now before after w k (inl e) = subst (Tracks log now) (sym e) k
  Tracks-swept log now before after w k (inr (e, i)) = subst (Tracks log now) (sym e) (record {
    ascending = tt;
    past = tt;
    same =
        λ later g. sym (idle-in_window window now later before w g k.ascending i) ∙ k.same later g;
  })

  maybe_sweep-IsSound :
      (log : List ℕ) (t now : ℕ) (l : Limiter)
      → window ≤ sweep_max_age_ms
      → t ≤ now
      → IsSound log t l
      → IsSound log now (maybe_sweep now l)
  unfolding maybe_sweep
  maybe_sweep-IsSound log t now l w h s =
      let k = Tracks-later log t now (hits_of (lookup key l.hits)) h s.tracks in
      elim (Bool-cases (ltb (l.sweep_counter + 1) sweep_every)) [
        | inl wait ↦ rw wait (record { tracks = k; unique = s.unique })
        | inr sweep ↦ rw sweep (record {
          tracks =
              Tracks-swept log now (hits_of (lookup key l.hits)) _ w k
                (swept key now l.hits s.unique);
          unique = Unique-keep _ l.hits s.unique;
        })
      ]

  Tracks-recent :
      (log : List ℕ) (now : ℕ) (ts : List ℕ) (allowed : Bool)
      → Tracks log now ts
      → Tracks (log_after allowed log now) now (log_after allowed (in_window window now ts) now)
  Tracks-recent log now ts false k = record {
    ascending = IsAscending-keep (is_recent now window) ts k.ascending;
    past = All-mono _ _ (λ u b. b.0) _ (All-keep (λ u. u ≤ now) (is_recent now window) ts k.past);
    same = λ later h. in_window-again window now later ts h ∙ k.same later h;
  }
  Tracks-recent log now ts true k =
      let below =
        All-mono _ _ (λ u b. b.0) _ (All-keep (λ u. u ≤ now) (is_recent now window) ts k.past) in
      record {
        ascending =
            IsAscending-append (in_window window now ts) now
              (IsAscending-keep (is_recent now window) ts k.ascending) below;
        past = All-append _ (in_window window now ts) (now ∷ []) below (omega arith, tt);
        same = λ later h.
            keep-append (is_recent later window) (in_window window now ts) (now ∷ [])
            ∙ ap (λ x. x ++ keep (is_recent later window) (now ∷ []))
                (in_window-again window now later ts h ∙ k.same later h)
            ∙ sym (keep-append (is_recent later window) log (now ∷ []));
      }

-- What a call answers, and what it leaves in the map.
rate_limit-allowed :
    (k : String) (max window now : ℕ) (l : Limiter)
    → (rate_limit k max window now l).1.allowed
      ≡ ltb (length (recent_hits k window now (maybe_sweep now l))) max
unfolding rate_limit
rate_limit-allowed k max window now l =
    elim (Bool-cases (leb max (length (recent_hits k window now (maybe_sweep now l))))) [
      | inl full ↦ rw full (ground arith)
      | inr free ↦ rw free (ground arith)
    ]

rate_limit-hits :
    (k : String) (max window now : ℕ) (l : Limiter)
    → (rate_limit k max window now l).0.hits
      ≡ put k
          (log_after
            (ltb (length (recent_hits k window now (maybe_sweep now l))) max)
            (recent_hits k window now (maybe_sweep now l))
            now)
          (maybe_sweep now l).hits
unfolding rate_limit
rate_limit-hits k max window now l =
    let recent = recent_hits k window now (maybe_sweep now l) in
    elim (Bool-cases (leb max (length recent))) [
      | inl full ↦ let shut : ltb (length recent) max ≡ false = ground arith in rw (full, shut) refl
      | inr free ↦ let room : ltb (length recent) max ≡ true = ground arith in rw (free, room) refl
    ]

module _ (key : String) (window : ℕ) (w : window ≤ sweep_max_age_ms) where
  own-IsSound :
      (log : List ℕ) (t max now : ℕ) (l : Limiter)
      → t ≤ now
      → IsSound key window log t l
      → ((rate_limit key max window now l).1.allowed ≡ ltb (length (in_window window now log)) max)
        × IsSound key window
            (log_after (ltb (length (in_window window now log)) max) log now)
            now
            (rate_limit key max window now l).0
  own-IsSound log t max now l h s =
      let swept = maybe_sweep-IsSound key window log t now l w h s in
      let ts = hits_of (lookup key (maybe_sweep now l).hits) in
      let e : in_window window now ts ≡ in_window window now log =
        swept.tracks.same now (omega arith) in
      let room : ltb (length (in_window window now ts)) max
          ≡ ltb (length (in_window window now log)) max =
        ap (λ x. ltb (length x) max) e in
      let b = ltb (length (in_window window now log)) max in
      let left : (rate_limit key max window now l).0.hits
          ≡ put key (log_after b (in_window window now ts) now) (maybe_sweep now l).hits =
        rate_limit-hits key max window now l
        ∙ ap (λ x. put key (log_after x (in_window window now ts) now) (maybe_sweep now l).hits)
            room in
      (
        rate_limit-allowed key max window now l ∙ room,
        record {
          tracks =
              subst (Tracks key window (log_after b log now) now)
                (sym (
                  ap (λ m. hits_of (lookup key m)) left
                  ∙ ap hits_of (
                      lookup-put_self key (log_after b (in_window window now ts) now)
                        (maybe_sweep now l).hits)))
                (Tracks-recent key window log now ts b swept.tracks);
          unique = subst Unique (sym left) (Unique-put key _ (maybe_sweep now l).hits swept.unique);
        },
      )

  abbrev Answered : List ℕ → ℕ → ℕ → Limiter → String → ℕ → Type 0
  Answered log max now l k window' =
      ((rate_limit k max window' now l).1.allowed ≡ ltb (length (in_window window' now log)) max)
      × IsSound key window (log_after (ltb (length (in_window window' now log)) max) log now) now
          (rate_limit k max window' now l).0

  own_call :
      (log : List ℕ) (t max window' now : ℕ) (k : String) (l : Limiter)
      → k ≡ key
      → window' ≡ window
      → t ≤ now
      → IsSound key window log t l
      → Answered log max now l k window'
  own_call log t max window' now k l e f h s =
      subst (λ x. Answered log max now l x window') (sym e)
        (subst (Answered log max now l key) (sym f) (own-IsSound log t max now l h s))

  other-IsSound :
      (log : List ℕ) (t max window' now : ℕ) (k : String) (l : Limiter)
      → (k == key) ≡ false
      → t ≤ now
      → IsSound key window log t l
      → IsSound key window log now (rate_limit k max window' now l).0
  other-IsSound log t max window' now k l o h s =
      let swept = maybe_sweep-IsSound key window log t now l w h s in
      let left = rate_limit-hits k max window' now l in
      record {
        tracks =
            subst (Tracks key window log now)
              (sym (
                ap (λ m. hits_of (lookup key m)) left
                ∙ ap hits_of (
                    lookup-put_ne k key _ (maybe_sweep now l).hits
                      (λ e. ground (arith, string_Eq.decides k key)))))
              swept.tracks;
        unique = subst Unique (sym left) (Unique-put k _ (maybe_sweep now l).hits swept.unique);
      }

  answers_from :
      (log : List ℕ) (t : ℕ) (l : Limiter) (calls : List Call)
      → IsSound key window log t l
      → InOrder t calls
      → All (λ c. (not (c.who == key) || nat_eq c.window window) ≡ true) calls
      → answers key calls l ≡ reference key calls log
  unfolding answers reference
  answers_from log t l [] s o a = refl
  answers_from log t l (c ∷ calls) s (h, o) (p, a) = elim (Bool-cases (c.who == key)) [
    | inl own ↦
        let same_window : c.window ≡ window = ground arith in
        let k =
          own_call log t c.max c.window c.at c.who l (==_sound c.who key own) same_window h s in
        rw own (
          ap₂ ◌∷◌ k.0 (
            answers_from (log_after (has_room c log) log c.at) c.at
              (rate_limit c.who c.max c.window c.at l).0 calls k.1 o a))
    | inr other ↦ rw other (
        answers_from log c.at (rate_limit c.who c.max c.window c.at l).0 calls
          (other-IsSound log t c.max c.window c.at c.who l other h s) o a)
  ]

-- From an empty map, over any series of calls by any keys at times that do not go back, in which
-- all calls of a key have one window of at most an hour: the calls of the key are allowed just as
-- by a reference that keeps the times of all calls of the key that it allowed, never drops one,
-- and allows a call where fewer of them than the call's maximum are in its window.
pub answers-reference :
    (key : String) (window counter : ℕ) (calls : List Call)
    → window ≤ 3600000
    → InOrder 0 calls
    → All (λ c. (not (c.who == key) || nat_eq c.window window) ≡ true) calls
    → answers key calls (record { hits = []; sweep_counter = counter }) ≡ reference key calls []
unfolding lookup
answers-reference key window counter calls w o a =
    answers_from key window w [] 0 (record { hits = []; sweep_counter = counter }) calls
      (record { tracks = record { ascending = tt; past = tt; same = λ now h. refl }; unique = tt })
      o a
