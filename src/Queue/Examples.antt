-- ===== src/Queue/Examples.antt =====
-- The theorems on src/storage/telegram_queue.py at a small table, and runs of its operations.
use tele_cli.Prelude.{
  ℕ, ◌+◌, ◌*◌, ◌≤◌, ◌≡◌, refl, pos, String, none, some, [], ◌∷◌, true, false, filter, arith,
}
use tele_cli.Queue.Types.{queued, completed, send_message, Payload, plain, Row, Store}
use tele_cli.Queue.Errors.{telegram_error, retry_delay_from_error}
use tele_cli.Queue.Backoff.{
  max_rate_limit_backoff_seconds, second, advance_global_pause, load_paused_until,
  load_backoff_seconds, is_paused,
}
use tele_cli.Queue.Backoff.Bounds.{advance_global_pause_bounds}
use tele_cli.Queue.Deliver.{
  Answer, returned, raised, execute_row, invoke_topic_aware, invoke_telegram,
}
use tele_cli.Queue.Enqueue.{Request, enqueue, is_pending_duplicate, drop_duplicates, new_row}
use tele_cli.Queue.Enqueue.Dedupe.{enqueue-single, row_of}
use tele_cli.Queue.Process.{
  claim_row, Outside, settled, idle, select_next, process_claimed, settle, process_next,
}
use tele_cli.Queue.Stale.{stale_row_reason}
use tele_cli.Queue.Outcome.{is_noop_error, settle_rate_limited}
use tele_cli.Queue.Outcome.Promote.{settle_delivered}
use tele_cli.Queue.Process.Claims.{Selected, select_next-Selected}
use tele_cli.Queue.Invariant.{IsConsistent}
use tele_cli.Queue.Invariant.Kept.{KeptAll}
use tele_cli.Queue.Invariant.Frame.{process_next-KeptAll}
use tele_cli.Queue.Invariant.Preserved.{Claimed, process_next-Claimed}
use tele_cli.Queue.Invariant.Consistent.{process_next-IsConsistent}
use tele_cli.Queue.Invariant.Inserted.{enqueue-IsConsistent}
use tele_cli.Queue.Invariant.Paused.{process_next-paused, process_next-rate_limited}

abbrev hello : Payload
hello = record {
  message_id = none;
  text = some "hello";
  parse_mode = none;
  caption = none;
  photo_path = none;
  document_path = none;
}

abbrev row : String → ℕ → ℕ → Row
row id created_at priority = record {
  queue_id = id;
  created_at = created_at;
  available_at = created_at;
  status = queued;
  op_type = send_message;
  chat_id = pos 7;
  topic_id = none;
  session_id = none;
  trace_id = none;
  message_group_id = none;
  telegram_message_id = none;
  dedupe_key = some "g:chunk:0";
  priority = priority;
  disable_notification = false;
  payload_json = plain hello;
  attempt_count = 0;
  last_error = none;
  claimed_by_run_id = none;
  claimed_at = none;
  completed_at = none;
}

abbrev two_rows : Store
two_rows = record {
  rows = row "a" 10 100 ∷ row "b" 20 50 ∷ [];
  rate_limit = none;
  sessions = [];
  chunks = [];
  artifacts = [];
  events = [];
}

two_rows-IsConsistent : IsConsistent two_rows
two_rows-IsConsistent = record {
  columns = ((refl, refl, refl), ((refl, refl, refl), tt));
  pause = ((λ _. omega arith), ((λ _. omega arith), tt));
  keys = (refl, (refl, tt));
}

abbrev paused_rows : Store
paused_rows = record two_rows {
  rows = record (row "a" 10 100) { available_at = 5000000 } ∷ [];
  rate_limit = some (record { paused_until = some 5000000; backoff_seconds = 4 });
}

paused_rows-IsConsistent : IsConsistent paused_rows
paused_rows-IsConsistent = record {
  columns = ((refl, refl, refl), tt);
  pause = ((λ _. omega arith), tt);
  keys = (refl, tt);
}

abbrev run_at : ℕ → Answer → Outside
run_at now a = record {
  answer = λ calls call. a;
  literal_eval = λ text. none;
  missing_text = λ ref. ref;
  size = λ p. 10;
  artifact_for = λ id. id;
  run_id = "run";
  selected_at = now;
  claimed_at = now;
  settled_at = now;
}

abbrev too_many : Answer
too_many = raised (telegram_error "429 Too Many Requests")

abbrev request : Request
request = record {
  queue_id = "c";
  op_type = send_message;
  payload = hello;
  chat_id = pos 7;
  topic_id = none;
  session_id = none;
  trace_id = none;
  message_group_id = none;
  telegram_message_id = none;
  dedupe_key = some "g:chunk:0";
  priority = 100;
  disable_notification = false;
}

-- the row with the smaller priority is claimed
select_second : select_next 100 two_rows.rows ≡ some (row "b" 20 50)
unfolding select_next
select_second = refl

sends :
    (process_next (run_at 100 (returned (some (pos 5)))) two_rows).0
    ≡ settled "b" completed (some (pos 5)) none
unfolding process_next select_next process_claimed stale_row_reason execute_row invoke_topic_aware
    invoke_telegram settle settle_delivered claim_row
sends = refl

requeues :
    (process_next (run_at 100 too_many) two_rows).0
    ≡ settled "b" queued none (some "429 Too Many Requests")
unfolding process_next select_next process_claimed stale_row_reason settle execute_row
    invoke_topic_aware invoke_telegram is_noop_error retry_delay_from_error settle_rate_limited
requeues = refl

advance_global_pause_bounds_example :
    let (until, backoff, t) = advance_global_pause 100 (some 9000000000) two_rows in
    (2 ≤ backoff)
    × (backoff ≤ max_rate_limit_backoff_seconds)
    × (until ≡ 100 + backoff * second)
    × (load_paused_until t ≡ some until)
    × (load_backoff_seconds t ≡ backoff)
    × (is_paused 100 t ≡ true)
advance_global_pause_bounds_example = advance_global_pause_bounds 100 (some 9000000000) two_rows

select_next-Selected_example : Selected 100 two_rows.rows (select_next 100 two_rows.rows)
select_next-Selected_example = select_next-Selected 100 two_rows.rows

process_next-KeptAll_example : KeptAll "b" two_rows (process_next (run_at 100 too_many) two_rows).2
process_next-KeptAll_example =
    process_next-KeptAll (run_at 100 too_many) two_rows (row "b" 20 50) select_second

process_next-Claimed_example : Claimed (row "b" 20 50) (process_next (run_at 100 too_many) two_rows)
process_next-Claimed_example =
    process_next-Claimed (run_at 100 too_many) two_rows (row "b" 20 50) two_rows-IsConsistent
      select_second

process_next-IsConsistent_example :
    IsConsistent (process_next (run_at 100 (returned (some (pos 5)))) two_rows).2
process_next-IsConsistent_example =
    process_next-IsConsistent (run_at 100 (returned (some (pos 5)))) two_rows two_rows-IsConsistent

enqueue-IsConsistent_example : IsConsistent (enqueue (λ p. 5000) "f" 30 40 request two_rows).1
enqueue-IsConsistent_example =
    enqueue-IsConsistent (λ p. 5000) "f" 30 40 request two_rows two_rows-IsConsistent

process_next-paused_example :
    process_next (run_at 100 too_many) paused_rows ≡ (idle, [], paused_rows)
process_next-paused_example =
    process_next-paused (run_at 100 too_many) paused_rows paused_rows-IsConsistent (omega arith)

process_next-rate_limited_example :
    process_next (run_at 2000099 too_many) (process_next (run_at 100 too_many) two_rows).2
    ≡ (idle, [], (process_next (run_at 100 too_many) two_rows).2)
process_next-rate_limited_example =
    process_next-rate_limited (run_at 100 too_many) (run_at 2000099 too_many) two_rows "b" none
      (some "429 Too Many Requests") two_rows-IsConsistent requeues (omega arith)

enqueues : (enqueue (λ p. 5000) "f" 30 40 request two_rows).0 ≡ some "c"
unfolding enqueue drop_duplicates new_row
enqueues = refl

enqueue-single_example :
    filter
      (is_pending_duplicate "g:chunk:0")
      (enqueue (λ p. 5000) "f" 30 40 request two_rows).1.rows
    ≡ row_of (λ p. 5000) "f" 30 40 request two_rows ∷ []
enqueue-single_example =
    enqueue-single (λ p. 5000) "f" 30 40 request two_rows "g:chunk:0" refl refl enqueues
