-- ===== src/Notifications/Examples.antt =====
-- A session of the operator that has a thread, and one that has none.
use tele_cli.Prelude.{pos, none, some, [], ◌∷◌}
use tele_cli.Models.{SessionRecord, AuthState, new_session}
use tele_cli.Sessions.Types.{Tables}

abbrev operator : AuthState
operator = record {
  bot_token = "token";
  telegram_user_id = some (pos 7);
  telegram_chat_id = some (pos 7);
  telegram_topic_id = none;
  paired_at = some "noon";
  pairing_code = none;
  pending_user_id = none;
  pending_chat_id = none;
  pending_topic_id = none;
  pending_issued_at = none;
}

abbrev idle : SessionRecord
idle = new_session "b" "telegram" (some (pos 7)) (some (pos 7)) "2"

abbrev tables : Tables
tables = record {
  sessions =
      record (new_session "a" "telegram" (some (pos 7)) (some (pos 7)) "1") {
        thread_id = some "thread";
        active_turn_id = some "turn";
        status = "RUNNING_TURN";
      }
      ∷ idle
      ∷ [];
  short_memory = [];
  events = [];
  approvals = [];
  traces = [];
  message_groups = [];
  outbound_queue = [];
}
