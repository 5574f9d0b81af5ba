-- ===== src/Runs/Tests.antt =====
-- lib/runs.ts and lib/quota.ts at concrete tables.
use aemulus.Common.{ℕ, ◌≡◌, refl, true, false, String, none, some, List, [], ◌∷◌, arith}
use aemulus.Common.Int.{pos, negsuc}
use aemulus.Runs.{
  RunRow, NewRun, running, completed, failed, new_row, has_room, create_run, count_recent_runs,
}
use aemulus.Runs.Tiers.{TierConfig, compute_tier, holder, tier}
use aemulus.Runs.Quota.{IsWithin, create_all, last_time, create_all-IsWithin}
use aemulus.Runs.Settling.{
  RunWrite, finish, set_status, set_output, claim, apply_writes, get_run, IsSettled,
  apply_writes-IsSettled,
}

abbrev asked : String → ℕ → NewRun
asked name time = record {
  id = name;
  owner = "wallet";
  skill_id = "skill";
  input = "{}";
  overrides = "{}";
  bulk_id = none;
  row_index = none;
  schedule_id = none;
  skill_version = some 2;
  is_watch = false;
  now = time;
}

abbrev three : List NewRun
three = asked "r1" 100 ∷ asked "r2" 101 ∷ asked "r3" 102 ∷ []

abbrev two_rows : List RunRow
two_rows = new_row (asked "r1" 100) ∷ new_row (asked "r2" 101) ∷ []

-- Of three requests under a limit of two, the third makes no run.
full : create_all 2 50 [] three ≡ two_rows
unfolding create_all create_run has_room count_recent_runs
full = refl

create_all-IsWithin_example : IsWithin 2 50 (last_time 100 three) (create_all 2 50 [] three)
create_all-IsWithin_example =
    create_all-IsWithin 2 50 100 [] three (omega arith, (omega arith, (omega arith, tt)))
      (λ owner watch. unfold count_recent_runs in omega arith)

abbrev config : TierConfig
config = record {
  mint = "token";
  whale_min = 10000000;
  pro_min = 1000000;
  holder_min = 1;
  quota_whale = negsuc 0;
  quota_pro = pos 50;
  quota_holder = pos 2;
  watch_whale = negsuc 0;
  watch_pro = pos 250;
  watch_holder = pos 48;
}

tier_of_one : compute_tier config 1 ≡ tier config holder 1 true
unfolding compute_tier
tier_of_one = refl

abbrev done_row : RunRow
done_row = record (new_row (asked "r1" 100)) {
  status = completed;
  result = some "ok";
  updated_at = 103;
}

abbrev later : List RunWrite
later =
    finish "r1" failed none (some "timed out") 104
    ∷ set_status "r1" running 105
    ∷ set_output "r1" (some "{}")
    ∷ claim "r1"
    ∷ []

apply_writes-IsSettled_example :
    IsSettled "r1" completed (some "ok") none (apply_writes later (done_row ∷ []))
apply_writes-IsSettled_example =
    apply_writes-IsSettled "r1" completed (some "ok") none later (done_row ∷ []) (record {
      row = done_row;
      found = unfold get_run in refl;
      terminal = refl;
      same_status = refl;
      same_result = refl;
      same_error = refl;
    })
