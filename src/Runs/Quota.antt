-- ===== src/Runs/Quota.antt =====
-- lib/runs.ts and lib/quota.ts: a wallet's quota is never exceeded.
use aemulus.Common.{
  ℕ, ◌+◌, ◌-◌, ◌≤◌, ◌≡◌, refl, Bool, true, false, String, string_Eq, Option, none, some, List, [],
  ◌∷◌, ◌++◌, length-append, keep, keep-append, if◌then◌else◌, arith,
}
use aemulus.Common.Int.{ℤ, pos, negsuc}
use aemulus.Runs.{
  RunRow, NewRun, QuotaReserve, is_counted, count_recent_runs, new_row, has_room, create_run,
}
use aemulus.Runs.Tiers.{
  TierConfig, kind_limit, quota_reserve, get_quota, status_of, quota_window_ms,
}

-- A later start of the window counts no more.
count_recent_runs-le :
    (rows : List RunRow) (owner : String) (since since' : ℕ) (watch : Bool)
    → since ≤ since'
    → count_recent_runs rows owner since' watch ≤ count_recent_runs rows owner since watch
unfolding count_recent_runs
count_recent_runs-le [] owner since since' watch h = omega arith
count_recent_runs-le (r ∷ rows) owner since since' watch h =
    ground (arith, count_recent_runs-le rows owner since since' watch h)

-- No wallet has more runs of one kind in the window than the limit.
abbrev pub IsWithin : ℕ → ℕ → ℕ → List RunRow → Type 0
IsWithin limit window now rows =
    (owner : String) (watch : Bool) → count_recent_runs rows owner (now - window) watch ≤ limit

abbrev pub reserve_of : ℕ → ℕ → Option QuotaReserve
reserve_of limit window = some (record { limit = pos limit; window_ms = window })

count_recent_runs-append :
    (rows : List RunRow) (r : RunRow) (owner : String) (since : ℕ) (watch : Bool)
    → count_recent_runs (rows ++ r ∷ []) owner since watch
      ≡ count_recent_runs rows owner since watch + (if is_counted owner since watch r then 1 else 0)
unfolding count_recent_runs
count_recent_runs-append rows r owner since watch =
    let p = is_counted owner since watch in
    ground (arith, keep-append p rows (r ∷ []), length-append (keep p rows) (keep p (r ∷ [])))

create_run-IsWithin :
    (limit window : ℕ) (rows : List RunRow) (n : NewRun)
    → IsWithin limit window n.now rows
    → IsWithin limit window n.now (create_run rows n (reserve_of limit window)).0
unfolding create_run has_room
create_run-IsWithin limit window rows n h owner watch = ground (
  arith,
  h owner watch,
  string_Eq.decides n.owner owner,
  count_recent_runs-append rows (new_row n) owner (n.now - window) watch,
)

-- Requests in the order in which their writes are serialized.
unfoldable pub create_all : ℕ → ℕ → List RunRow → List NewRun → List RunRow
create_all limit window rows [] = rows
create_all limit window rows (n ∷ ns) =
    create_all limit window (create_run rows n (reserve_of limit window)).0 ns

-- Times that do not go back, from one on; and the last of them.
abbrev pub IsOrdered : ℕ → List NewRun → Type 0
IsOrdered start [] = Unit
IsOrdered start (n ∷ ns) = (start ≤ n.now) × IsOrdered n.now ns

abbrev pub last_time : ℕ → List NewRun → ℕ
last_time start [] = start
last_time start (n ∷ ns) = last_time n.now ns

-- For requests for runs under one limit and window, in the order in which the database takes them
-- and with times that do not go back: where no wallet has more runs of a kind in the window than
-- the limit at the start, none has at the end.
pub create_all-IsWithin :
    (limit window start : ℕ) (rows : List RunRow) (ns : List NewRun)
    → IsOrdered start ns
    → IsWithin limit window start rows
    → IsWithin limit window (last_time start ns) (create_all limit window rows ns)
unfolding create_all
create_all-IsWithin limit window start rows [] o h = h
create_all-IsWithin limit window start rows (n ∷ ns) (o, os) h =
    create_all-IsWithin limit window n.now (create_run rows n (reserve_of limit window)).0 ns os (
      create_run-IsWithin limit window rows n (λ owner watch. omega (
        arith,
        h owner watch,
        count_recent_runs-le rows owner (start - window) (n.now - window) watch (omega arith),
      )))

abbrev pub is_created : Option RunRow → Bool
is_created none = false
is_created (some r) = true

-- A wallet's quota shows a run left just where a request for a run of that kind, with the
-- reservation for its level and at that time, makes one.
pub get_quota-create_run :
    (c : TierConfig) (rows : List RunRow) (n : NewRun) (level : ℕ)
    → (get_quota c rows n.owner level n.is_watch n.now).has_run_left
      ≡ is_created (create_run rows n (some (quota_reserve c level n.is_watch))).1
unfolding get_quota create_run has_room quota_reserve
get_quota-create_run c rows n level = by_limit (kind_limit c level n.is_watch)
  where
    by_limit :
        (limit : ℤ)
        → (status_of c limit
            (count_recent_runs rows n.owner (n.now - quota_window_ms c) n.is_watch)).has_run_left
          ≡ is_created
              (create_run rows n (some (record { limit = limit; window_ms = quota_window_ms c }))).1
    by_limit (negsuc k) = refl
    by_limit (pos limit) = ground arith
