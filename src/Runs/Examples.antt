-- ===== src/Runs/Examples.antt =====
-- A run that starts behind one that was killed.
use tele_cli.Prelude.{ℕ, ◌≡◌, refl, pos, Bool, false, none, some, [], ◌∷◌, map}
use tele_cli.Queue.Types.{claimed, send_message, plain, Row}
use tele_cli.Runs.{
  Run, Tables, insert_run, start, release, release_each, release_claims, dead_run_ids,
  stale_run_ids, is_dead, is_gone, add_stale,
}
use tele_cli.Runs.Release.{settled_row, start-settled_row}

abbrev old_run : Run
old_run = record {
  run_id = "old";
  started_at = 1;
  stopped_at = none;
  version = "1";
  pid = some (pos 77);
  hostname = "h";
  state_dir = "d";
  exit_reason = none;
}

abbrev row : Row
row = record {
  queue_id = "a";
  created_at = 1;
  available_at = 1;
  status = claimed;
  op_type = send_message;
  chat_id = pos 7;
  topic_id = none;
  session_id = none;
  trace_id = none;
  message_group_id = none;
  telegram_message_id = none;
  dedupe_key = none;
  priority = 10;
  disable_notification = false;
  payload_json = plain (record {
    message_id = none;
    text = some "hello";
    parse_mode = none;
    caption = none;
    photo_path = none;
    document_path = none;
  });
  attempt_count = 0;
  last_error = none;
  claimed_by_run_id = some "old";
  claimed_at = some 2;
  completed_at = none;
}

abbrev tables : Tables
tables = record {
  runs = old_run ∷ [];
  queue = record {
    rows = row ∷ [];
    rate_limit = none;
    sessions = [];
    chunks = [];
    artifacts = [];
    events = [];
  };
}

abbrev nobody : ℕ → Bool
nobody pid = false

new_run : Run
new_run = record old_run { run_id = "new"; started_at = 9; pid = some (pos 78) }

start-tables : (start nobody new_run tables).queue.rows ≡ release row ∷ []
unfolding start new_run insert_run release release_each release_claims dead_run_ids stale_run_ids
    is_dead is_gone add_stale
start-tables = refl

start-settled_row_example :
    (start nobody new_run tables).queue.rows
    ≡ map (settled_row nobody (insert_run new_run tables.runs) new_run.run_id) tables.queue.rows
start-settled_row_example = start-settled_row nobody new_run tables
