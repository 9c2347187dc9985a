-- ===== src/Queue/Enqueue.antt =====
-- src/storage/telegram_queue.py: enqueue, one transaction.
pub mod Dedupe
use tele_cli.Prelude.{
  ℕ, ℤ, String, Bool, true, false, ◌&&◌, not, Option, none, some, List, [], ◌∷◌, ◌++◌, ltb, ◌==◌,
  string_eq, option_eq, any, filter, if◌then◌else◌,
}
use tele_cli.Queue.Types.{
  Status, queued, OpType, typing, Payload, Document, plain, wrapped, Row, Store,
}
use tele_cli.Queue.Backoff.{load_paused_until, initial_available_at}

abbrev pub queue_payload_limit_bytes : ℕ
queue_payload_limit_bytes = 4096

abbrev pub is_queued : Status → Bool
is_queued queued = true
is_queued _ = false

-- _should_trace_op
unfoldable pub should_trace_op : OpType → Bool
should_trace_op typing = false
should_trace_op _ = true

-- self.traces.log_event(event_type=..., payload={"queue_id": ...}), if the operation is traced
unfoldable pub log_row_event : OpType → String → String → Store → Store
unfolding should_trace_op
log_row_event op_type event_type queue_id s =
    if should_trace_op op_type
    then record s {
      events = s.events ++ record { event_type = event_type; queue_id = queue_id } ∷ [];
    }
    else s

-- the keyword arguments of enqueue, and the uuid4 drawn for the row
pub record Request : Type 0 where
  pub queue_id : String
  pub op_type : OpType
  pub payload : Payload
  pub chat_id : ℤ
  pub topic_id : Option ℤ
  pub session_id : Option String
  pub trace_id : Option String
  pub message_group_id : Option String
  pub telegram_message_id : Option ℤ
  pub dedupe_key : Option String
  pub priority : ℕ
  pub disable_notification : Bool

-- `size` is the length of json_dumps(payload) in UTF-8, `artifact_id` the uuid4 of a new artifact.
module _ (size : Payload → ℕ) (artifact_id : String) where
  -- _encode_payload, and the same lines of enqueue: a long payload goes to an artifact file
  unfoldable pub encode_payload : Payload → Store → Document × Store
  encode_payload p s =
      if ltb queue_payload_limit_bytes (size p)
      then (wrapped artifact_id, record s { artifacts = (artifact_id, p) ∷ s.artifacts })
      else (plain p, s)

-- WHERE dedupe_key = ? AND status = 'queued'
abbrev pub is_pending_duplicate : String → Row → Bool
is_pending_duplicate key r = r.dedupe_key == some key && is_queued r.status

-- DELETE ... if dedupe_key
unfoldable pub drop_duplicates : Option String → List Row → List Row
drop_duplicates none rows = rows
drop_duplicates (some key) rows =
    if key == "" then rows else filter (λ r. not (is_pending_duplicate key r)) rows

unfoldable pub new_row : Request → Document → (created_at available_at : ℕ) → Row
new_row q document created_at available_at = record {
  queue_id = q.queue_id;
  created_at = created_at;
  available_at = available_at;
  status = queued;
  op_type = q.op_type;
  chat_id = q.chat_id;
  topic_id = q.topic_id;
  session_id = q.session_id;
  trace_id = q.trace_id;
  message_group_id = q.message_group_id;
  telegram_message_id = q.telegram_message_id;
  dedupe_key = q.dedupe_key;
  priority = q.priority;
  disable_notification = q.disable_notification;
  payload_json = document;
  attempt_count = 0;
  last_error = none;
  claimed_by_run_id = none;
  claimed_at = none;
  completed_at = none;
}

abbrev pub has_queue_id : String → List Row → Bool
has_queue_id id rows = any (λ r. r.queue_id == id) rows

-- INSERT of the row: the primary key is checked, and an IntegrityError rolls the transaction back
unfoldable pub insert_row : Row → Store → Option Store
insert_row r s =
    if has_queue_id r.queue_id s.rows then none else some (record s { rows = s.rows ++ r ∷ [] })

-- enqueue: the queue_id, or `none` for the IntegrityError, after which the store is as before (the
-- artifact file is deleted again). The clock is read for created_at and for available_at.
module _ (size : Payload → ℕ) (artifact_id : String) (created_at now : ℕ) where
  unfoldable pub enqueue : Request → Store → Option String × Store
  unfolding insert_row
  enqueue q s =
      let available_at = initial_available_at now (load_paused_until s) in
      let (document, t) = encode_payload size artifact_id q.payload s in
      let cleared = record t { rows = drop_duplicates q.dedupe_key s.rows } in
      elim (insert_row (new_row q document created_at available_at) cleared) [
        | none ↦ (none, s)
        | some u ↦ (some q.queue_id, log_row_event q.op_type "telegram.queue.enqueued" q.queue_id u)
      ]
