-- ===== src/Models.antt =====
-- src/core/models.py: the dataclasses that several components share. A field of type str, int, bool,
-- Optional, list and dict is a String, a ℤ or ℕ, a Bool, an Option, a List and a list of pairs.
use tele_cli.Prelude.{ℕ, ℤ, String, Bool, true, Option, none, List, []}

pub record LockMetadata : Type 0 where
  pub pid : ℕ
  pub hostname : String
  pub username : String
  pub started_at : Option String
  pub mode : String
  pub timestamp : String
  pub app_version : String
  pub child_codex_pid : Option ℕ
  pub command : List String
  pub cwd : Option String

pub record SetupState : Type 0 where
  pub status : String
  pub pid : ℕ
  pub timestamp : String
  pub npm_installed : Bool
  pub codex_installed : Bool
  pub telegram_token_saved : Bool
  pub telegram_validated : Bool

pub record AuthState : Type 0 where
  pub bot_token : String
  pub telegram_user_id : Option ℤ
  pub telegram_chat_id : Option ℤ
  pub telegram_topic_id : Option ℤ
  pub pairing_code : Option String
  pub paired_at : Option String
  pub pending_user_id : Option ℤ
  pub pending_chat_id : Option ℤ
  pub pending_topic_id : Option ℤ
  pub pending_issued_at : Option String

pub record RuntimeState : Type 0 where
  pub session_id : String
  pub service_state : String
  pub codex_state : String
  pub telegram_state : String
  pub recorder_state : String
  pub debug_state : String
  pub codex_pid : Option ℕ
  pub started_at : String
  pub last_output_at : Option String

pub record SessionRecord : Type 0 where
  pub session_id : String
  pub transport : String
  pub transport_user_id : Option ℤ
  pub transport_chat_id : Option ℤ
  pub transport_topic_id : Option ℤ
  pub transport_channel : Option String
  pub workspace_id : Option String
  pub workspace_kind : Option String
  pub workspace_relpath : Option String
  pub agents_md_relpath : Option String
  pub long_memory_relpath : Option String
  pub visible_topic_name : Option String
  pub attached : Bool
  pub thread_id : Option String
  pub active_turn_id : Option String
  pub streaming_message_id : Option ℤ
  pub streaming_message_ids : List ℤ
  pub thinking_message_id : Option ℤ
  pub thinking_message_ids : List ℤ
  pub thinking_live_message_ids : List (String × ℤ)
  pub thinking_live_texts : List (String × String)
  pub thinking_sent_texts : List (String × String)
  pub thinking_history_order : List String
  pub thinking_history_by_source : List (String × String)
  pub streaming_output_text : String
  pub streaming_phase : String
  pub thinking_message_text : String
  pub thinking_history_text : String
  pub last_thinking_sent_text : String
  pub pending_output_text : String
  pub queued_user_input_text : String
  pub pending_output_updated_at : Option String
  pub last_completed_turn_id : Option String
  pub last_delivered_output_text : String
  pub current_trace_id : Option String
  pub status : String
  pub instructions_dirty : Bool
  pub last_seen_generation : ℕ
  pub created_at : String
  pub last_user_message_at : Option String
  pub last_agent_message_at : Option String

-- SessionRecord(session_id, transport, transport_user_id, transport_chat_id, created_at=...): the
-- fields with no default are given, the others have theirs.
unfoldable pub new_session :
    String → String → Option ℤ → Option ℤ → (created_at : String) → SessionRecord
new_session session_id transport transport_user_id transport_chat_id created_at = record {
  session_id = session_id;
  transport = transport;
  transport_user_id = transport_user_id;
  transport_chat_id = transport_chat_id;
  transport_topic_id = none;
  transport_channel = none;
  workspace_id = none;
  workspace_kind = none;
  workspace_relpath = none;
  agents_md_relpath = none;
  long_memory_relpath = none;
  visible_topic_name = none;
  attached = true;
  thread_id = none;
  active_turn_id = none;
  streaming_message_id = none;
  streaming_message_ids = [];
  thinking_message_id = none;
  thinking_message_ids = [];
  thinking_live_message_ids = [];
  thinking_live_texts = [];
  thinking_sent_texts = [];
  thinking_history_order = [];
  thinking_history_by_source = [];
  streaming_output_text = "";
  streaming_phase = "";
  thinking_message_text = "";
  thinking_history_text = "";
  last_thinking_sent_text = "";
  pending_output_text = "";
  queued_user_input_text = "";
  pending_output_updated_at = none;
  last_completed_turn_id = none;
  last_delivered_output_text = "";
  current_trace_id = none;
  status = "ACTIVE";
  instructions_dirty = true;
  last_seen_generation = 0;
  created_at = created_at;
  last_user_message_at = none;
  last_agent_message_at = none;
}
