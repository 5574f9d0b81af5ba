-- ===== src/Jobs/Serving.antt =====
-- The job that a worker gets with no other worker about is the first that is due.

use aemulus.Common.{
  ℕ, suc, ◌≡◌, refl, subst, ◌∙◌, ◌⊎◌, true, false, String, string_Eq, none, some, List, [], ◌∷◌,
  any, All, Bool-cases, Option-cases, ==_self, arith, inl, inr,
}
use aemulus.Jobs.{
  Job, is_due, is_sooner, next_candidate, is_claimable, lock_job, find_job, claim_rounds,
  claim_next_job,
}
use aemulus.Jobs.Claiming.{
  IsFirst, next_candidate-skip, next_candidate-none, next_candidate-IsFirst,
}

next_candidate-claimable :
    (now : ℕ) (jobs : List Job) (c : Job)
    → next_candidate now jobs ≡ some c
    → any (is_claimable c.id) jobs ≡ true
unfolding next_candidate
next_candidate-claimable now [] c h = cc
next_candidate-claimable now (j ∷ js) c h = elim (Bool-cases (is_due now j)) [
  | inr other ↦
      let later = next_candidate-claimable now js c (next_candidate-skip now j js other ∙ h) in
      ground (arith, later)
  | inl due ↦ elim (Option-cases (next_candidate now js)) [
    | inl e ↦
        let h' = rw (due, next_candidate, e) at h in
        let same : j ≡ c = cc h' in
        subst (λ d. any (is_claimable d.id) (j ∷ js) ≡ true) same
          (ground (arith, due, ==_self j.id))
    | inr (k, e) ↦
        let later = next_candidate-claimable now js k e in
        elim (Bool-cases (is_sooner k j)) [
          | inl sooner ↦
              let h' = rw (due, next_candidate, e, sooner) at h in
              let same : k ≡ c = cc h' in
              subst (λ d. any (is_claimable d.id) (j ∷ js) ≡ true) same (ground (arith, later))
          | inr first ↦
              let h' = rw (due, next_candidate, e, first) at h in
              let same : j ≡ c = cc h' in
              subst (λ d. any (is_claimable d.id) (j ∷ js) ≡ true) same
                (ground (arith, due, ==_self j.id))
        ]
  ]
]

-- What a worker gets with no other worker about.
abbrev pub Served : ℕ → List Job → Type 0
Served now jobs =
    (c : Job) × IsFirst now jobs c
    × ((lock_job c.id now jobs).1 ≡ true)
    × (claim_next_job (λ k js. js) now jobs
        ≡ ((lock_job c.id now jobs).0, find_job c.id (lock_job c.id now jobs).0))

lock_job-flag :
    (id : String) (now : ℕ) (jobs : List Job)
    → any (is_claimable id) jobs ≡ true
    → (lock_job id now jobs).1 ≡ true
unfolding lock_job
lock_job-flag id now jobs h = h

claim_rounds-none :
    (k now : ℕ) (others : ℕ → List Job → List Job) (jobs : List Job)
    → next_candidate now jobs ≡ none
    → claim_rounds (suc k) others now jobs ≡ (jobs, none)
unfolding claim_rounds
claim_rounds-none k now others jobs e = rw (e, claim_rounds) refl

claim_rounds-first :
    (k now : ℕ) (others : ℕ → List Job → List Job) (jobs : List Job) (c : Job)
    → next_candidate now jobs ≡ some c
    → (lock_job c.id now (others k jobs)).1 ≡ true
    → claim_rounds (suc k) others now jobs
      ≡ ((lock_job c.id now (others k jobs)).0, find_job c.id (lock_job c.id now (others k jobs)).0)
unfolding claim_rounds
claim_rounds-first k now others jobs c e won = rw (e, claim_rounds, won) refl

-- With no other worker about, a claim either finds no job due and changes nothing, or locks a job
-- that is due, than which no due job is sooner by its time to run and then its creation, and
-- returns its row.
pub claim_next_job-alone :
    (now : ℕ) (jobs : List Job)
    → (All (λ k. is_due now k ≡ false) jobs × (claim_next_job (λ k js. js) now jobs ≡ (jobs, none)))
      ⊎ Served now jobs
unfolding claim_next_job
claim_next_job-alone now jobs = elim (Option-cases (next_candidate now jobs)) [
  | inl e ↦ inl (next_candidate-none now jobs e, claim_rounds-none 4 now (λ k js. js) jobs e)
  | inr (c, e) ↦
      let won = lock_job-flag c.id now jobs (next_candidate-claimable now jobs c e) in
      inr (
        c,
        next_candidate-IsFirst now jobs c e,
        won,
        claim_rounds-first 4 now (λ k js. js) jobs c e won,
      )
]
