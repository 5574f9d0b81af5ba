-- ===== src/Jobs/Tests.antt =====
-- lib/jobs.ts at a concrete queue.
use aemulus.Common.{ℕ, ◌≡◌, ◌≢◌, refl, true, String, Option, none, some, List, [], ◌∷◌, arith}
use aemulus.Jobs.{
  Job, JobStatus, queued, running, lock_job, find_job, claim_rounds, next_candidate, complete_job,
  fail_job,
}
use aemulus.Jobs.Fence.{Unique, lock_job-superseded}

abbrev job : String → JobStatus → ℕ → Option ℕ → Job
job id status run_at locked_at = record {
  id = id;
  run_id = id;
  runner = "ann";
  skill_id = "pay";
  input = "";
  overrides = "";
  status = status;
  attempts = 1;
  run_at = run_at;
  created_at = 1;
  locked_at = locked_at;
  last_error = none;
}

abbrev jobs : List Job
jobs = job "a" running 5 (some 10) ∷ job "b" queued 7 (some 3) ∷ job "c" queued 6 none ∷ []

jobs-Unique : Unique jobs
jobs-Unique = ((refl, (refl, tt)), ((refl, tt), (tt, tt)))

won : (lock_job "b" 20 jobs).1 ≡ true
unfolding lock_job
won = refl

abbrev old_lock : ℕ
old_lock = 3

different : old_lock ≢ 20
different h = omega (arith, h)

lock_job-superseded_example :
    (complete_job "b" (some 3) (lock_job "b" 20 jobs).0 ≡ (lock_job "b" 20 jobs).0)
    × (fail_job "b" "late" 3 (some 3) 25 (lock_job "b" 20 jobs).0
        ≡ ((lock_job "b" 20 jobs).0, true))
lock_job-superseded_example =
    lock_job-superseded "b" "late" 3 20 25 3 jobs different jobs-Unique won

claimed :
    claim_rounds 5 (λ k js. js) 20 jobs
    ≡ ((lock_job "c" 20 jobs).0, find_job "c" (lock_job "c" 20 jobs).0)
unfolding claim_rounds next_candidate lock_job
claimed = refl

abbrev locked_c : Job
locked_c = record (job "c" running 6 (some 20)) { attempts = 2 }

found : find_job "c" (lock_job "c" 20 jobs).0 ≡ some locked_c
unfolding lock_job
found = refl

claimed_c : claim_rounds 5 (λ k js. js) 20 jobs ≡ ((lock_job "c" 20 jobs).0, some locked_c)
claimed_c = rw (← found) claimed
