-- ===== src/Jobs/Claiming.antt =====
-- Which job a worker gets, and that no other worker gets it too.
use mathlib.Core.Path.{ap₂}
use aemulus.Common.{
  ℕ, zero, suc, ◌≡◌, refl, sym, ap, subst, ◌∙◌, Bool, true, false, String, string_Eq, none, some,
  List, [], ◌∷◌, any, keep, All, All-mono, Bool-cases, Option-cases, arith, inl, inr,
}
use aemulus.Jobs.{
  Job, queued, update_where, is_due, is_sooner, next_candidate, is_claimable, lock, lock_job,
  find_job, claim_rounds, is_stuck, recover_stuck_jobs,
}
use aemulus.Jobs.Fence.{update_where-none}

unclaimable :
    (id : String) (now : ℕ) (jobs : List Job)
    → any (is_claimable id) (update_where (is_claimable id) (lock now) jobs) ≡ false
unclaimable id now [] = refl
unclaimable id now (j ∷ js) = ground (arith, unclaimable id now js)

-- After a lock of a job, a second lock of the same job wins nothing and changes nothing.
pub lock_job-again :
    (id : String) (now later : ℕ) (jobs : List Job)
    → lock_job id later (lock_job id now jobs).0 ≡ ((lock_job id now jobs).0, false)
unfolding lock_job
lock_job-again id now later jobs =
    let gone = unclaimable id now jobs in
    rw gone (ap (λ js. (js, false)) (update_where-none (is_claimable id) (lock later) _ gone))

-- The job that a round selects is due, and no job that is due is sooner.
abbrev pub IsFirst : ℕ → List Job → Job → Type 0
IsFirst now jobs c =
    (is_due now c ≡ true) × All (λ k. is_due now k ≡ true → is_sooner k c ≡ false) jobs

pub next_candidate-skip :
    (now : ℕ) (j : Job) (jobs : List Job)
    → is_due now j ≡ false
    → next_candidate now jobs ≡ next_candidate now (j ∷ jobs)
unfolding next_candidate
next_candidate-skip now j jobs other = rw other refl

not_sooner_trans :
    (m k j : Job) → is_sooner m k ≡ false → is_sooner k j ≡ false → is_sooner m j ≡ false
not_sooner_trans m k j h g = ground arith

not_sooner_self : (j : Job) → is_sooner j j ≡ false
not_sooner_self j = ground arith

sooner_asym : (j k : Job) → is_sooner k j ≡ true → is_sooner j k ≡ false
sooner_asym j k h = ground arith

pub next_candidate-none :
    (now : ℕ) (jobs : List Job)
    → next_candidate now jobs ≡ none
    → All (λ k. is_due now k ≡ false) jobs
unfolding next_candidate
next_candidate-none now [] h = tt
next_candidate-none now (j ∷ js) h = elim (Bool-cases (is_due now j)) [
  | inr other ↦ (other, next_candidate-none now js (next_candidate-skip now j js other ∙ h))
  | inl due ↦ elim (Option-cases (next_candidate now js)) [
    | inl e ↦ let h' = rw (due, next_candidate, e) at h in cc h'
    | inr (k, e) ↦ let h' = rw (due, next_candidate, e) at h in ground arith
  ]
]

pub next_candidate-IsFirst :
    (now : ℕ) (jobs : List Job) (c : Job) → next_candidate now jobs ≡ some c → IsFirst now jobs c
unfolding next_candidate
next_candidate-IsFirst now [] c h = cc
next_candidate-IsFirst now (j ∷ js) c h = elim (Bool-cases (is_due now j)) [
  | inr other ↦
      let (due, first) = next_candidate-IsFirst now js c (next_candidate-skip now j js other ∙ h) in
      (due, ((λ d. let x = sym other ∙ d in cc x), first))
  | inl due ↦ elim (Option-cases (next_candidate now js)) [
    | inl e ↦
        let h' = rw (due, next_candidate, e) at h in
        let same : j ≡ c = cc h' in
        subst (IsFirst now (j ∷ js)) same (
          due,
          (
            (λ d. not_sooner_self j),
            All-mono (λ k. is_due now k ≡ false) (λ k. is_due now k ≡ true → is_sooner k j ≡ false)
                (λ k f d. let x = sym f ∙ d in cc x) js (next_candidate-none now js e),
          ),
        )
    | inr (k, e) ↦
        let (due_k, first) = next_candidate-IsFirst now js k e in
        elim (Bool-cases (is_sooner k j)) [
          | inl sooner ↦
              let h' = rw (due, next_candidate, e, sooner) at h in
              let same : k ≡ c = cc h' in
              subst (IsFirst now (j ∷ js)) same (due_k, ((λ d. sooner_asym j k sooner), first))
          | inr later ↦
              let h' = rw (due, next_candidate, e, later) at h in
              let same : j ≡ c = cc h' in
              subst (IsFirst now (j ∷ js)) same (
                due,
                (
                  (λ d. not_sooner_self j),
                  All-mono (λ m. is_due now m ≡ true → is_sooner m k ≡ false)
                      (λ m. is_due now m ≡ true → is_sooner m j ≡ false)
                      (λ m f d. not_sooner_trans m k j (f d) later) js first,
                ),
              )
        ]
  ]
]

-- Whatever other workers write between the select and the update of a round, a job that a claim
-- returns is the row, found by its id, of a job that this claim's own update took from queued to
-- running.
pub claim_rounds-won :
    (k : ℕ) (others : ℕ → List Job → List Job) (now : ℕ) (jobs after : List Job) (j : Job)
    → claim_rounds k others now jobs ≡ (after, some j)
    → (id : String) × (mid : List Job) × (lock_job id now mid ≡ (after, true))
      × (find_job id after ≡ some j)
unfolding claim_rounds
claim_rounds-won zero others now jobs after j h = cc
claim_rounds-won (suc k) others now jobs after j h = elim (Option-cases (next_candidate now jobs)) [
  | inl e ↦ let h' = rw (e, claim_rounds) at h in cc h'
  | inr (c, e) ↦ elim (Bool-cases (lock_job c.id now (others k jobs)).1) [
    | inl won ↦
        let h' = rw (e, claim_rounds, won) at h in
        (
          c.id,
          others k jobs,
          ap₂ (λ x y. (x, y)) (ap (λ r. r.0) h') won,
          subst (λ x. find_job c.id x ≡ some j) (ap (λ r. r.0) h') (ap (λ r. r.1) h'),
        )
    | inr lost ↦
        let h' = rw (e, claim_rounds, lost) at h in
        claim_rounds-won k others now (lock_job c.id now (others k jobs)).0 after j h'
  ]
]

not_stuck :
    (awaiting : String → Bool) (now stale_ms : ℕ) (jobs : List Job)
    → keep (is_stuck awaiting now stale_ms) (
        update_where
          (is_stuck awaiting now stale_ms)
          (λ j. record j { status = queued; run_at = now })
          jobs)
      ≡ []
not_stuck awaiting now stale_ms [] = refl
not_stuck awaiting now stale_ms (j ∷ js) = ground (arith, not_stuck awaiting now stale_ms js)

same_awaiting :
    (awaiting : String → Bool) (now stale_ms : ℕ) (jobs : List Job)
    → keep
        (λ j. awaiting j.run_id)
        (update_where
          (is_stuck awaiting now stale_ms)
          (λ j. record j { status = queued; run_at = now })
          jobs)
      ≡ keep (λ j. awaiting j.run_id) jobs
same_awaiting awaiting now stale_ms [] = refl
same_awaiting awaiting now stale_ms (j ∷ js) =
    ground (arith, same_awaiting awaiting now stale_ms js)

-- After a recovery no stuck job is left, and the jobs of runs that wait for a person are all as
-- they were.
pub recover_stuck_jobs-effect :
    (awaiting : String → Bool) (now stale_ms : ℕ) (jobs : List Job)
    → (keep (is_stuck awaiting now stale_ms) (recover_stuck_jobs awaiting now stale_ms jobs).0 ≡ [])
      × (keep (λ j. awaiting j.run_id) (recover_stuck_jobs awaiting now stale_ms jobs).0
          ≡ keep (λ j. awaiting j.run_id) jobs)
unfolding recover_stuck_jobs
recover_stuck_jobs-effect awaiting now stale_ms jobs =
    (not_stuck awaiting now stale_ms jobs, same_awaiting awaiting now stale_ms jobs)
