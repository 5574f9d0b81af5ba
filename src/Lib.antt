-- ===== src/Lib.antt =====
-- Aemulus records a task in the browser, replays it as a run, and proves afterwards what the run
-- did. This library models the parts of the server that keep evidence, authority, money and work
-- straight, in the directory lib/ of the repository.
--
-- Merkle models lib/merkle.ts. `layers_from` is the outer loop of `buildMerkle`, on as many rounds
-- as there are leaves, which is enough since a round halves the padded level; `pair_up` is its
-- inner loop, `climb` the loop of `verifyProof`. Commitment models lib/commitment.ts, whose leaves
-- go into these trees. SHA-256, hex and UTF-8 are parameters (`Crypto`, `Texts`): texts are of
-- Unicode characters, so a lone surrogate, which Node replaces, does not occur. A fresh salt is a
-- function of the number of the draw.
--
-- Ap models lib/ap-controls. Ap/Json has the JSON values and `canonicalize` of override-log.ts;
-- numbers in it are decimal. Ap/Store is store.ts: the tables `ap_events` and `ap_aggregate_head`
-- are `ApDb`, an aggregate is a `Key`. `prepare` is what `appendApEvent` decides from its reads of
-- the tail and of the head, `commit` its write batch, and `append_ap_event` the two with no other
-- writer between; Ap/Store/Races puts other writers between them. `verify_aggregate` is
-- `verifyAggregate`. Ap/Projections is projections.ts, with the up-casting of store.ts; its folds
-- read the streams of the store.
--
-- Ap/Bills is ledger.ts: the table `ledger_bill` is a `BillTable`, whose `last_no` is what
-- AUTOINCREMENT has given. Ap/Entering is qbo-submit.ts and decide.ts. `World` is the two tables
-- that they write; `others` is what other requests do between the making of a bill and its sealing.
-- The answer of lib/qbo is a parameter (`QboAnswer`), and so are new ids, as fields of the input.
--
-- OverrideLog models override-log.ts: `write_override_event` and `verify_override_chain`; an event
-- is turned into JSON by `event_json` and sealed over its canonical text. OverrideLog/Logging puts
-- it behind the evaluator of the controls.
--
-- Controls models schema.ts and evaluate.ts of lib/ap-controls, and their two sample
-- configurations. Numbers and their comparison are a parameter (`Numbers`), as JavaScript's are
-- floating; `trim` is a parameter too.
--
-- Earnings models lib/earnings.ts: the tables `earnings` and `claims` are a `Ledger`, with the unique index
-- of skill and runner. A cancellation is two writes, `release_rows` and `delete_claim`. `open_claim`
-- is the write batch of `claimEarnings`, `finish_claim` what follows the payout's answer, which is a
-- parameter; `settle_claim` and `rollback_claim` are the reconciliation's. Sums and signs of amounts
-- are a parameter (`Amounts`). Earnings/Steps takes the writes of all requests in any order.
--
-- Jobs models lib/jobs.ts: the table `jobs` is a list of rows. `claim_rounds` is the loop of
-- `claimNextJob`, on fuel that `claim_next_job` sets to the code's 5 rounds, with other workers'
-- writes as a function of the round. The status `done` is `finished` here.
--
-- Idempotency models lib/idempotency.ts: `with_idempotency` runs a handler, which is a function of
-- the server's other state, under the reservation of a key. Nonces models lib/nonce-store.ts, and
-- RateLimit the window and the sweep of lib/ratelimit.ts; RateLimit/Reference has a limiter that never
-- forgets beside it.
--
-- Watches models lib/watches.ts; a text there is the list of its UTF-16 units, so that the regular
-- expressions of `normalize` and `parseNumber` are written out. `finite_number` and `greater` of
-- `Numerals` are the language's. Watches/Runner is lib/watch-runner.ts with `fireWatchAction` of
-- lib/watch-action.ts: what leaves a check is a list of effects, and whether a chained run starts is
-- a parameter. Watches/Waiting is lib/wait.ts: `wait_loop` is the loop of `waitForStep`, on fuel of
-- two polls more than the waiting time holds polling intervals, which is enough where polls are
-- that far apart. Watches/Paced and Watches/Muting take series of checks through Watches/Runner, each from
-- the state that the one before left.
--
-- Csv models lib/csv.ts, on the same texts: `scan` is the loop of `parseCsv`, and `grid_of` the cells
-- that `toCsv` writes. Lower case is a parameter.
--
-- Orgs models lib/orgs.ts: `Teams` is its two tables, and a new id is an argument. A change of members
-- is one step, as its reads and its write are taken with no other between.
--
-- Runs models the table of runs of lib/runs.ts: its count and insert are one statement of the
-- database, so `create_run` is one step. The quotas are lib/quota.ts, the tiers those of
-- lib/solana.ts, with whole numbers; the input is kept as its text.
--
-- Semaphore is lib/semaphore.ts; a waiter is a name, and `release` answers with the one that gets the
-- slot. Semaphore/Slots counts the callers that hold a slot beside it.
--
-- Batches models lib/receipt-batch.ts over the columns of `runs` that it reads and writes, and its own
-- table (`Store`). `persist_from` is the loop over the leaves, `write_ok` says which of its writes
-- succeed; `on_claim`, `on_tree` and `persist` follow the body of `batchPendingReceipts`. Its trees are
-- those of Merkle.
--
-- Pages models lib/pagination.ts, and the listing of runs that uses it; `split` and `join` are of the
-- colon, and base64url and `Number` are parameters (`Coding`). Pages/Following has the client: `follow`
-- reads page after page, on fuel of one page more than there are rows.
--
-- Schedules models lib/schedules.ts: the table is a list of rows, and a claim's update and its count of
-- rows are one step (`claim_schedule`, `wins`). Schedules/Slots takes the writes of all instances and
-- owners in any order. Schedules/Rolling is the loop of lib/scheduler.ts that finds the next slot, on
-- fuel of two rounds more than the present in milliseconds, since each round moves on by one at least;
-- Schedules/Firing is the body of `runDue`, over the quota and the tiers of Runs, with `tellOwner`. The
-- day of the week and `setDate` are parameters (`Calendar`), and what other parts answer in a firing is
-- a record (`Asked`).
--
-- Not modelled: the permanent store of batches, steps, receipts and anchors of a run, the banner texts of the controls, reports over the tables, the schema and its
-- migration, encryption, and everything outside the files named above: browser automation, calls of
-- language models, of Telegram, Solana and Arweave, pages and routes, and the on-chain programs.
pub mod Common
pub mod Ap
pub mod Batches
pub mod Commitment
pub mod Controls
pub mod Csv
pub mod Earnings
pub mod Idempotency
pub mod Jobs
pub mod Merkle
pub mod Nonces
pub mod Orgs
pub mod OverrideLog
pub mod Pages
pub mod RateLimit
pub mod Runs
pub mod Schedules
pub mod Semaphore
pub mod Watches
