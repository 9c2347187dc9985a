-- ===== src/Sessions/Examples.antt =====
-- Two sessions of one topic, of which the second replaces the first.
use tele_cli.Prelude.{◌≡◌, pos, String, true, none, some, Option, [], ◌∷◌, string_eq, WhenSome}
use tele_cli.Models.{AuthState, SessionRecord, new_session}
use tele_cli.Sessions.Types.{Tables, Workspace, matches_transport}
use tele_cli.Sessions.Rows.{lookup}
use tele_cli.Sessions.Upserts.{IsStable}
use tele_cli.Sessions.Detached.{Only}
use tele_cli.Sessions.Exclusive.{create_new_telegram_session-Only}
use tele_cli.Sessions.Telegram.{create_new_telegram_session}

abbrev operator : AuthState
operator = record {
  bot_token = "token";
  telegram_user_id = some (pos 7);
  telegram_chat_id = some (pos 7);
  telegram_topic_id = none;
  paired_at = some "noon";
  pairing_code = none;
  pending_user_id = none;
  pending_chat_id = none;
  pending_topic_id = none;
  pending_issued_at = none;
}

abbrev root : Option String → SessionRecord → Workspace
root visible s = record {
  workspace_id = "w";
  workspace_kind = "root";
  relpath = "workspace";
  agents_md_relpath = "workspace/AGENTS.md";
  long_memory_relpath = none;
  visible_name = none;
}

-- a session whose turn runs without a thread
abbrev first : SessionRecord
first = record (new_session "a" "telegram" (some (pos 7)) (some (pos 7)) "1") {
  active_turn_id = some "turn";
  status = "RUNNING_TURN";
  pending_output_text = "hello";
}

abbrev tables : Tables
tables = record {
  sessions = first ∷ [];
  short_memory = [];
  events = [];
  approvals = [];
  traces = [];
  message_groups = [];
  outbound_queue = [];
}

create_new_telegram_session-Only_example :
    let (result, after) = create_new_telegram_session root "2" "b" operator none none tables in
    Only (matches_transport operator none) "b" after.sessions
    × WhenSome
        (λ bound.
          (bound.session_id ≡ "b")
          × ((row : SessionRecord) × (lookup "b" after.sessions ≡ some row)
              × IsStable row
              × (row.transport ≡ "telegram")
              × (row.attached ≡ true)))
        result
create_new_telegram_session-Only_example =
    create_new_telegram_session-Only root "2" "b" operator none none tables
