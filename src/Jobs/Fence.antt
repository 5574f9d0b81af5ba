-- ===== src/Jobs/Fence.antt =====
-- A worker whose claim was superseded cannot touch the job.

use aemulus.Common.{
  ℕ, ◌≡◌, ◌≢◌, refl, ap, Bool, true, false, String, string_Eq, some, List, [], ◌∷◌, ◌==◌, any, ltb,
  All, All-mono, Bool-cases, ==_sound, arith, inl, inr,
}
use aemulus.Jobs.{
  Job, finished, update_where, is_claimable, lock, lock_job, find_job, is_fenced, complete_job,
  attempts_of, fail_job,
}

-- No two jobs have one id: it is the table's primary key.
abbrev pub Unique : List Job → Type 0
Unique [] = Unit
Unique (j ∷ js) = All (λ (k : Job). (k.id == j.id) ≡ false) js × Unique js

-- An update that meets no row changes nothing.
pub update_where-none :
    (p : Job → Bool) (f : Job → Job) (jobs : List Job)
    → any p jobs ≡ false
    → update_where p f jobs ≡ jobs
update_where-none p f [] h = refl
update_where-none p f (j ∷ js) h = ground (arith, update_where-none p f js)

other_unclaimed :
    (id : String) (jobs : List Job)
    → All (λ (k : Job). (k.id == id) ≡ false) jobs
    → any (is_claimable id) jobs ≡ false
other_unclaimed id [] ps = refl
other_unclaimed id (j ∷ js) (p, ps) = ground (arith, p, other_unclaimed id js ps)

other_unfenced :
    (id : String) (t t' : ℕ) (jobs : List Job)
    → All (λ (k : Job). (k.id == id) ≡ false) jobs
    → any (is_fenced id (some t)) (update_where (is_claimable id) (lock t') jobs) ≡ false
other_unfenced id t t' [] ps = refl
other_unfenced id t t' (j ∷ js) (p, ps) = ground (arith, p, other_unfenced id t t' js ps)

-- After a lock, no row with the job's id has an older lock.
lock-fenced :
    (id : String) (t t' : ℕ) (jobs : List Job)
    → t ≢ t'
    → Unique jobs
    → any (is_claimable id) jobs ≡ true
    → any (is_fenced id (some t)) (update_where (is_claimable id) (lock t') jobs) ≡ false
lock-fenced id t t' [] n u h = cc
lock-fenced id t t' (j ∷ js) n (new, u) h = elim (Bool-cases (j.id == id)) [
  | inr other ↦ ground (arith, other, lock-fenced id t t' js n u)
  | inl same ↦
      let at : j.id ≡ id = ==_sound j.id id same in
      let away =
        All-mono (λ (k : Job). (k.id == j.id) ≡ false) (λ (k : Job). (k.id == id) ≡ false)
          (λ k f. rw (← at) f) js new in
      ground (arith, same, other_unfenced id t t' js away, other_unclaimed id js away)
]

fail_job-unmet :
    (id error : String) (t now max_attempts : ℕ) (jobs : List Job)
    → any (is_fenced id (some t)) jobs ≡ false
    → fail_job id error max_attempts (some t) now jobs ≡ (jobs, true)
unfolding fail_job
fail_job-unmet id error t now max_attempts jobs h =
    elim (Bool-cases (ltb (attempts_of (find_job id jobs)) max_attempts)) [
      | inl more ↦ rw more (ap (λ js. (js, true)) (update_where-none _ _ jobs h))
      | inr last ↦ rw (last, h) (ap (λ js. (js, true)) (update_where-none _ _ jobs h))
    ]

-- Where ids are unique and a job was locked again at another time than a worker's claim, that
-- worker's completion and its failure both leave the queue as it was, and the failure reports a
-- retry.
pub lock_job-superseded :
    (id error : String) (t t' now max_attempts : ℕ) (jobs : List Job)
    → t ≢ t'
    → Unique jobs
    → (lock_job id t' jobs).1 ≡ true
    → (complete_job id (some t) (lock_job id t' jobs).0 ≡ (lock_job id t' jobs).0)
      × (fail_job id error max_attempts (some t) now (lock_job id t' jobs).0
          ≡ ((lock_job id t' jobs).0, true))
unfolding lock_job complete_job
lock_job-superseded id error t t' now max_attempts jobs n u won =
    let none_left = lock-fenced id t t' jobs n u won in
    (
      update_where-none (is_fenced id (some t)) (λ j. record j { status = finished }) _ none_left,
      fail_job-unmet id error t now max_attempts _ none_left,
    )
