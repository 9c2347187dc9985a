-- ===== src/Queue/Process.antt =====
-- src/storage/telegram_queue.py: process_next, which claims one row, skips it if it is stale, makes its
-- Telegram call and settles it.
pub mod Claims
pub mod Cases
use tele_cli.Prelude.{
  ℕ, ℤ, String, Bool, true, false, ◌&&◌, ◌||◌, Option, none, some, List, [], ◌∷◌, ltb, leb, ◌==◌,
  nat_eq, string_eq, if◌then◌else◌,
}
use tele_cli.Queue.Types.{Status, queued, claimed, completed, failed, Payload, Row, Store}
use tele_cli.Queue.Errors.{Error, ErrorLiteral, retry_delay_from_error}
use tele_cli.Queue.Stale.{stale_row_reason}
use tele_cli.Queue.Deliver.{Call, Answer, returned, raised, execute_row}
use tele_cli.Queue.Enqueue.{is_queued, log_row_event}
use tele_cli.Queue.Outcome.{
  Settled, update_row, is_noop_error, settle_noop, settle_rate_limited, settle_failed,
}
use tele_cli.Queue.Outcome.Promote.{settle_delivered}

-- What the manager has from outside: the answers of the Telegram client, ast.literal_eval, the text of
-- a missing file's exception, the length of json_dumps, the uuid4 of new artifacts, its run id, and the
-- readings of the clock for the SELECT, for claimed_at and for the transaction that settles the row.
pub record Outside : Type 0 where
  pub answer : List Call → Call → Answer
  pub literal_eval : String → Option ErrorLiteral
  pub missing_text : String → String
  pub size : Payload → ℕ
  pub artifact_for : String → String
  pub run_id : String
  pub selected_at : ℕ
  pub claimed_at : ℕ
  pub settled_at : ℕ

-- WHERE status = 'queued' AND available_at <= ?
abbrev pub is_ready : ℕ → Row → Bool
is_ready now r = is_queued r.status && leb r.available_at now

-- ORDER BY priority ASC, created_at ASC
abbrev pub is_before : Row → Row → Bool
is_before r s =
    ltb r.priority s.priority || (r.priority == s.priority && ltb r.created_at s.created_at)

prefer : Row → Option Row → Option Row
prefer r none = some r
prefer r (some s) = if is_before s r then some s else some r

-- the SELECT of process_next; of rows that tie, the one inserted first
unfoldable pub select_next : ℕ → List Row → Option Row
unfolding prefer
select_next now [] = none
select_next now (r ∷ rs) =
    let rest = select_next now rs in if is_ready now r then prefer r rest else rest

unfoldable pub claim : String → ℕ → Row → Row
claim run_id now r = record r {
  status = claimed;
  claimed_by_run_id = some run_id;
  claimed_at = some now;
}

-- the UPDATE of the claim, and the event behind it
unfoldable pub claim_row : String → ℕ → Row → Store → Store
unfolding claim log_row_event
claim_row run_id now row s =
    log_row_event row.op_type "telegram.queue.claimed" row.queue_id
      (record s { rows = update_row row.queue_id (claim run_id now) s.rows })

unfoldable pub complete_stale : ℕ → Row → Row
complete_stale now r = record r {
  status = completed;
  completed_at = some now;
  last_error = none;
  claimed_by_run_id = none;
}

-- the UPDATE of _skip_claimed_row_if_stale, and the event behind it
unfoldable pub skip_stale : ℕ → Row → Store → Store
unfolding complete_stale log_row_event
skip_stale now row s =
    log_row_event row.op_type "telegram.queue.skipped_stale" row.queue_id
      (record s { rows = update_row row.queue_id (complete_stale now) s.rows })

-- the value of process_next: None, the dict of a skipped row, that of a settled row, or the exception
-- of a promotion whose artifact file is missing
pub data Outcome : Type 0 where
  idle : Outcome
  skipped : (queue_id reason : String) → Outcome
  settled : (queue_id : String) → Status → Option ℤ → Option String → Outcome
  crashed : Outcome

unfoldable pub status_event : Status → String
status_event queued = "telegram.queue.queued"
status_event claimed = "telegram.queue.claimed"
status_event completed = "telegram.queue.completed"
status_event failed = "telegram.queue.failed"

-- the events and the value at the end of process_next
unfoldable pub finish : Row → Settled → Outcome × Store
unfolding status_event log_row_event
finish row r = (
  settled row.queue_id r.final_status r.result r.error_text,
  log_row_event row.op_type (status_event r.final_status) row.queue_id r.store,
)

-- the end of process_next; an exception leaves the store as the claim left it
unfoldable pub conclude : Row → Store → List Call → Option Settled → Outcome × List Call × Store
unfolding finish
conclude row s calls none = (crashed, calls, s)
conclude row s calls (some r) = let (outcome, t) = finish row r in (outcome, calls, t)

module _ (o : Outside) where
  open o use {answer, literal_eval, missing_text, size, artifact_for, settled_at}

  unfoldable pub settle_error : Error → Option ℕ → Row → Store → Settled
  settle_error e none row s = settle_failed settled_at e row s
  settle_error e (some retry_after) row s = settle_rate_limited settled_at retry_after e row s

  -- the try around _execute_row
  unfoldable pub settle : Answer → Row → Store → Option Settled
  unfolding settle_error
  settle (returned message_id) row s =
      settle_delivered size artifact_for settled_at message_id row s
  settle (raised e) row s =
      if is_noop_error row.op_type e
      then some (settle_noop settled_at row s)
      else some (settle_error e (retry_delay_from_error literal_eval e) row s)

  -- process_next behind the claim: the outcome, the calls made and the store
  unfoldable pub process_claimed : Row → Store → Outcome × List Call × Store
  unfolding conclude
  process_claimed row s = elim (stale_row_reason row s) [
    | some reason ↦ (skipped row.queue_id reason, [], skip_stale settled_at row s)
    | none ↦
        let (result, calls) = execute_row answer missing_text s row in
        conclude row s calls (settle result row s)
  ]

  -- process_next
  unfoldable pub process_next : Store → Outcome × List Call × Store
  process_next s = elim (select_next o.selected_at s.rows) [
    | none ↦ (idle, [], s)
    | some row ↦ process_claimed row (claim_row o.run_id o.claimed_at row s)
  ]
