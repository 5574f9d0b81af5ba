-- ===== src/Runs.antt =====
-- lib/runs.ts: the table of runs, and its settlement.
pub mod Tiers
pub mod Quota
pub mod Settling
mod Tests
use aemulus.Common.{
  ℕ, zero, suc, ◌+◌, ◌-◌, Bool, true, false, not, ◌&&◌, ◌||◌, String, string_Eq, Option, none, some,
  List, [], ◌∷◌, ◌++◌, map, length, ltb, leb, nat_eq, ◌==◌, if◌then◌else◌, keep, any, find,
}
use aemulus.Common.Int.{ℤ, pos, negsuc, neg_part}

pub data RunStatus : Type 0 where
  running awaiting_input needs_review completed failed : RunStatus

-- `status NOT IN ('completed','failed','needs_review')`, negated.
abbrev pub is_terminal : RunStatus → Bool
is_terminal completed = true
is_terminal failed = true
is_terminal needs_review = true
is_terminal _ = false

pub record RunRow : Type 0 where
  pub id : String
  pub owner : String
  pub skill_id : String
  pub skill_version : Option ℕ
  pub status : RunStatus
  pub input : String
  pub overrides : String
  pub result : Option String
  pub error : Option String
  pub bulk_id : Option String
  pub row_index : Option ℕ
  pub schedule_id : Option String
  pub is_watch : Bool
  pub created_at : ℕ
  pub updated_at : ℕ
  pub output : Option String
  pub bookkept : Bool

pub record NewRun : Type 0 where
  pub id : String
  pub owner : String
  pub skill_id : String
  pub input : String
  pub overrides : String
  pub bulk_id : Option String
  pub row_index : Option ℕ
  pub schedule_id : Option String
  pub skill_version : Option ℕ
  pub is_watch : Bool
  pub now : ℕ

-- A limit below 0 is none.
pub record QuotaReserve : Type 0 where
  pub limit : ℤ
  pub window_ms : ℕ

abbrev pub same_flag : Bool → Bool → Bool
same_flag true b = b
same_flag false b = not b

abbrev pub is_counted : String → ℕ → Bool → RunRow → Bool
is_counted owner since watch r =
    r.owner == owner && (leb since r.created_at && same_flag r.is_watch watch)

unfoldable pub count_recent_runs : List RunRow → String → ℕ → Bool → ℕ
count_recent_runs rows owner since watch = length (keep (is_counted owner since watch) rows)

abbrev pub new_row : NewRun → RunRow
new_row n = record {
  id = n.id;
  owner = n.owner;
  skill_id = n.skill_id;
  skill_version = n.skill_version;
  status = running;
  input = n.input;
  overrides = n.overrides;
  result = none;
  error = none;
  bulk_id = n.bulk_id;
  row_index = n.row_index;
  schedule_id = n.schedule_id;
  is_watch = n.is_watch;
  created_at = n.now;
  updated_at = n.now;
  output = none;
  bookkept = false;
}

-- `COUNT(*) < limit` for a limit that counts.
unfoldable pub has_room : List RunRow → NewRun → Option QuotaReserve → Bool
unfolding count_recent_runs
has_room rows n none = true
has_room rows n (some q) = elim q.limit [
  | negsuc k ↦ true
  | pos limit ↦ ltb (count_recent_runs rows n.owner (n.now - q.window_ms) n.is_watch) limit
]

-- The count and the insert are one statement.
unfoldable pub create_run : List RunRow → NewRun → Option QuotaReserve → List RunRow × Option RunRow
unfolding has_room
create_run rows n reserve =
    if has_room rows n reserve then (rows ++ new_row n ∷ [], some (new_row n)) else (rows, none)

unfoldable pub update_run : String → (RunRow → Bool) → (RunRow → RunRow) → List RunRow → List RunRow
update_run id p f [] = []
update_run id p f (r ∷ rows) =
    let rest = update_run id p f rows in if r.id == id && p r then f r ∷ rest else r ∷ rest

abbrev pub is_open : RunRow → Bool
is_open r = not (is_terminal r.status)

unfoldable pub finish_run :
    String → RunStatus → Option String → Option String → ℕ → List RunRow → List RunRow
unfolding update_run
finish_run id status result error now rows =
    update_run id is_open
      (λ r. record r { status = status; result = result; error = error; updated_at = now }) rows

unfoldable pub set_run_status : String → RunStatus → ℕ → List RunRow → List RunRow
unfolding update_run
set_run_status id status now rows =
    update_run id is_open (λ r. record r { status = status; updated_at = now }) rows

-- An empty output is not written; it is none here.
unfoldable pub set_run_output : String → Option String → List RunRow → List RunRow
unfolding update_run
set_run_output id none rows = rows
set_run_output id (some output) rows =
    update_run id (λ r. true) (λ r. record r { output = some output }) rows

abbrev pub is_unkept : RunRow → Bool
is_unkept r = not r.bookkept

unfoldable pub claim_run_bookkeeping : String → List RunRow → List RunRow × Bool
unfolding update_run
claim_run_bookkeeping id rows = (
  update_run id is_unkept (λ r. record r { bookkept = true }) rows,
  any (λ r. r.id == id && is_unkept r) rows,
)

unfoldable pub is_run_bookkept : String → List RunRow → Bool
is_run_bookkept id rows = elim (find (λ r. r.id == id) rows) [ none ↦ false | some r ↦ r.bookkept ]

unfoldable pub has_run_skill : List RunRow → String → String → Bool
has_run_skill rows owner skill = any (λ r. r.owner == owner && r.skill_id == skill) rows

abbrev pub is_completed : RunStatus → Bool
is_completed completed = true
is_completed _ = false

unfoldable pub is_first_completed_run_by_runner : List RunRow → String → String → String → Bool
is_first_completed_run_by_runner rows skill runner id = not (
    any
      (λ r.
        r.skill_id == skill && (r.owner == runner && (is_completed r.status && not (r.id == id))))
      rows)
