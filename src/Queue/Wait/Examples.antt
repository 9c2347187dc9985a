-- ===== src/Queue/Wait/Examples.antt =====
-- A wait whose second reading shows the row completed.
use tele_cli.Prelude.{ℤ, ◌≡◌, refl, pos, true, false, none, some, List, [], ◌∷◌, any}
use tele_cli.Queue.Types.{completed, claimed, send_message, plain, Row}
use tele_cli.Queue.Wait.{
  Waited, sent, Reading, wait_for_completion, wait_round, read_row, completed_result,
}
use tele_cli.Queue.Wait.Ends.{shows_sent, wait_for_completion_ends}

abbrev row : Row
row = record {
  queue_id = "a";
  created_at = 1;
  available_at = 1;
  status = completed;
  op_type = send_message;
  chat_id = pos 7;
  topic_id = none;
  session_id = none;
  trace_id = none;
  message_group_id = none;
  telegram_message_id = some (pos 5);
  dedupe_key = none;
  priority = 10;
  disable_notification = false;
  payload_json = plain (record {
    message_id = none;
    text = some "hello";
    parse_mode = none;
    caption = none;
    photo_path = none;
    document_path = none;
  });
  attempt_count = 1;
  last_error = none;
  claimed_by_run_id = some "run";
  claimed_at = some 2;
  completed_at = some 3;
}

abbrev readings : List Reading
readings =
    record {
      rows = record row { status = claimed; telegram_message_id = none } ∷ [];
      now = 2;
      past_deadline = false;
    }
    ∷ record { rows = row ∷ []; now = 3; past_deadline = true }
    ∷ []

waits : wait_for_completion (λ t. none) false "a" readings ≡ some (sent (pos 5))
unfolding wait_for_completion wait_round read_row completed_result
waits = refl

wait_for_completion_ends_example :
    (w : Waited) × (wait_for_completion (λ t. none) false "a" readings ≡ some w)
    × ((m : ℤ) → w ≡ sent m → any (shows_sent "a" m) readings ≡ true)
wait_for_completion_ends_example = wait_for_completion_ends (λ t. none) false "a" readings refl
