-- ===== src/Jobs.antt =====
-- lib/jobs.ts: the durable queue of run jobs. The table is a list of rows in the order of insertion.
pub mod Fence
pub mod Claiming
pub mod Serving
mod Tests
use aemulus.Common.{
  ℕ, zero, suc, ◌+◌, ◌-◌, ◌*◌, ◌^◌, min, Bool, true, false, not, ◌&&◌, ◌||◌, String, string_Eq,
  Option, none, some, List, [], ◌∷◌, ◌++◌, map, length, ◌==◌, if◌then◌else◌, any, find, keep, ltb,
  leb, nat_eq,
}

pub data JobStatus : Type 0 where
  queued running finished failed : JobStatus

-- `input` and `overrides` are the encrypted texts.
pub record Job : Type 0 where
  pub id : String
  pub run_id : String
  pub runner : String
  pub skill_id : String
  pub input : String
  pub overrides : String
  pub status : JobStatus
  pub attempts : ℕ
  pub run_at : ℕ
  pub created_at : ℕ
  pub locked_at : Option ℕ
  pub last_error : Option String

pub record NewJob : Type 0 where
  pub run_id : String
  pub runner : String
  pub skill_id : String
  pub input : String
  pub overrides : String

abbrev pub is_queued : Job → Bool
is_queued j = elim j.status [ queued ↦ true | running ↦ false | finished ↦ false | failed ↦ false ]

abbrev pub is_running : Job → Bool
is_running j = elim j.status [ queued ↦ false | running ↦ true | finished ↦ false | failed ↦ false ]

abbrev pub is_terminal : Job → Bool
is_terminal j = elim j.status [ queued ↦ false | running ↦ false | finished ↦ true | failed ↦ true ]

-- `UPDATE jobs SET … WHERE …`, and whether a row was affected.
abbrev pub update_where : (Job → Bool) → (Job → Job) → List Job → List Job
update_where p f = map (λ j. if p j then f j else j)

unfoldable pub enqueue_run_job : String → ℕ → NewJob → List Job → List Job
enqueue_run_job id now j jobs =
    jobs
    ++ record {
      id = id;
      run_id = j.run_id;
      runner = j.runner;
      skill_id = j.skill_id;
      input = j.input;
      overrides = j.overrides;
      status = queued;
      attempts = 0;
      run_at = now;
      created_at = now;
      locked_at = none;
      last_error = none;
    }
      ∷ []

abbrev pub is_due : ℕ → Job → Bool
is_due now j = is_queued j && leb j.run_at now

-- `ORDER BY run_at ASC, created_at ASC`.
abbrev pub is_sooner : Job → Job → Bool
is_sooner a b = ltb a.run_at b.run_at || (nat_eq a.run_at b.run_at && ltb a.created_at b.created_at)

-- The candidate of a round: of two rows in the same place the earlier one.
unfoldable pub next_candidate : ℕ → List Job → Option Job
next_candidate now [] = none
next_candidate now (j ∷ jobs) =
    let rest = next_candidate now jobs in
    if not (is_due now j)
    then rest
    else elim rest [ none ↦ some j | some k ↦ if is_sooner k j then some k else some j ]

abbrev pub is_claimable : String → Job → Bool
is_claimable id j = j.id == id && is_queued j

abbrev pub lock : ℕ → Job → Job
lock now j = record j { status = running; locked_at = some now; attempts = j.attempts + 1 }

-- The update that makes one worker the winner of a round.
unfoldable pub lock_job : String → ℕ → List Job → List Job × Bool
lock_job id now jobs = (update_where (is_claimable id) (lock now) jobs, any (is_claimable id) jobs)

abbrev pub find_job : String → List Job → Option Job
find_job id = find (λ j. j.id == id)

-- The rounds of `claimNextJob`, on fuel; `others k` is what other workers write between the select
-- and the update of a round with k rounds to go.
unfoldable pub claim_rounds : ℕ → (ℕ → List Job → List Job) → ℕ → List Job → List Job × Option Job
claim_rounds zero others now jobs = (jobs, none)
claim_rounds (suc k) others now jobs = elim (next_candidate now jobs) [
  | none ↦ (jobs, none)
  | some c ↦
      let (locked, won) = lock_job c.id now (others k jobs) in
      let lost = claim_rounds k others now locked in
      if won then (locked, find_job c.id locked) else lost
]

unfoldable pub claim_next_job : (ℕ → List Job → List Job) → ℕ → List Job → List Job × Option Job
claim_next_job others now jobs = claim_rounds 5 others now jobs

-- `locked_at = ?`, which is not true of NULL.
abbrev pub is_locked_at : ℕ → Job → Bool
is_locked_at t j = elim j.locked_at [ none ↦ false | some l ↦ nat_eq l t ]

-- The rows that a fenced statement for a job meets.
abbrev pub is_fenced : String → Option ℕ → Job → Bool
is_fenced id none j = j.id == id
is_fenced id (some t) j = j.id == id && is_locked_at t j

unfoldable pub complete_job : String → Option ℕ → List Job → List Job
complete_job id fence = update_where (is_fenced id fence) (λ j. record j { status = finished })

-- 1000 · 2 ^ (attempts - 1) ms and a minute at most; half a second where there was no attempt.
abbrev pub backoff : ℕ → ℕ
backoff zero = 500
backoff (suc n) = min 60000 (1000 * 2 ^ n)

abbrev pub attempts_of : Option Job → ℕ
attempts_of none = 0
attempts_of (some j) = j.attempts

abbrev pub is_given : Option ℕ → Bool
is_given none = false
is_given (some t) = true

-- `error` is cut to 500 characters by the caller's text here; the flag says "retried".
unfoldable pub fail_job : String → String → ℕ → Option ℕ → ℕ → List Job → List Job × Bool
fail_job id error max_attempts fence now jobs =
    let attempts = attempts_of (find_job id jobs) in
    if ltb attempts max_attempts
    then (
      update_where (is_fenced id fence)
          (λ j. record j {
            status = queued;
            run_at = now + backoff attempts;
            last_error = some error;
          })
          jobs,
      true,
    )
    else (
      update_where (is_fenced id fence) (λ j. record j { status = failed; last_error = some error })
          jobs,
      is_given fence && not (any (is_fenced id fence) jobs),
    )

-- Locked before `now - staleMs`.
abbrev pub is_stale : ℕ → ℕ → Job → Bool
is_stale now stale_ms j = elim j.locked_at [ none ↦ false | some l ↦ ltb (l + stale_ms) now ]

-- `awaiting` are the runs that wait for a person.
abbrev pub is_stuck : (String → Bool) → ℕ → ℕ → Job → Bool
is_stuck awaiting now stale_ms j =
    is_running j && (is_stale now stale_ms j && not (awaiting j.run_id))

unfoldable pub recover_stuck_jobs : (String → Bool) → ℕ → ℕ → List Job → List Job × ℕ
recover_stuck_jobs awaiting now stale_ms jobs = (
  update_where (is_stuck awaiting now stale_ms) (λ j. record j { status = queued; run_at = now })
      jobs,
  length (keep (is_stuck awaiting now stale_ms) jobs),
)

unfoldable pub prune_terminal_jobs : ℕ → ℕ → List Job → List Job × ℕ
prune_terminal_jobs now older_than_ms jobs = (
  keep (λ j. not (is_terminal j && ltb (j.created_at + older_than_ms) now)) jobs,
  length (keep (λ j. is_terminal j && ltb (j.created_at + older_than_ms) now) jobs),
)
