-- ===== src/Queue/Types.antt =====
-- The rows of telegram_outbound_queue, the rate-limit row of app_state, and the state that the
-- delivery manager of src/storage/telegram_queue.py reads and writes. A timestamp is the number of
-- microseconds that it stands for: the texts of utc_now() have one offset and sort like the times.
-- The document in payload_json is kept as a value in place of its JSON text.
use tele_cli.Prelude.{ℕ, ℤ, String, Bool, Option, List}
use tele_cli.Models.{SessionRecord}

pub data Status : Type 0 where
  queued claimed completed failed : Status

pub data OpType : Type 0 where
  send_message edit_message delete_message typing send_photo send_document : OpType
  unsupported : String → OpType

-- the keys that the queue reads from or writes to a payload
pub record Payload : Type 0 where
  pub message_id : Option ℤ
  pub text : Option String
  pub parse_mode : Option String
  pub caption : Option String
  pub photo_path : Option String
  pub document_path : Option String

-- what payload_json holds: the payload, an artifact reference, or {"artifact": reference}
pub data Document : Type 0 where
  plain : Payload → Document
  reference : String → Document
  wrapped : String → Document

pub record Row : Type 0 where
  pub queue_id : String
  pub created_at : ℕ
  pub available_at : ℕ
  pub status : Status
  pub op_type : OpType
  pub chat_id : ℤ
  pub topic_id : Option ℤ
  pub session_id : Option String
  pub trace_id : Option String
  pub message_group_id : Option String
  pub telegram_message_id : Option ℤ
  pub dedupe_key : Option String
  pub priority : ℕ
  pub disable_notification : Bool
  pub payload_json : Document
  pub attempt_count : ℕ
  pub last_error : Option String
  pub claimed_by_run_id : Option String
  pub claimed_at : Option ℕ
  pub completed_at : Option ℕ

pub record RateLimit : Type 0 where
  pub paused_until : Option ℕ
  pub backoff_seconds : ℕ

-- one row of telegram_message_chunks
pub record Chunk : Type 0 where
  pub message_group_id : String
  pub chunk_index : ℤ
  pub telegram_message_id : Option ℤ
  pub rendered_html : String
  pub artifact_id : Option String
  pub created_at : ℕ
  pub updated_at : ℕ
  pub deleted_at : Option ℕ

-- TraceStore.log_event(event_type=...) about a row
pub record Event : Type 0 where
  pub event_type : String
  pub queue_id : String

pub record Store : Type 0 where
  pub rows : List Row  -- in the order of insertion
  pub rate_limit : Option RateLimit  -- the row telegram_delivery_backoff of app_state
  pub sessions : List SessionRecord
  pub chunks : List Chunk
  pub artifacts : List (String × Payload)  -- the files of kind telegram_queue_payload
  pub events : List Event  -- oldest first
