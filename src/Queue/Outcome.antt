-- ===== src/Queue/Outcome.antt =====
-- src/storage/telegram_queue.py: the transaction that ends a claimed row, for each way in which its
-- Telegram call can end (the branches of process_next behind _execute_row).
pub mod Promote
use tele_cli.Prelude.{
  ℕ, ◌+◌, ◌*◌, ℤ, String, Bool, true, false, ◌&&◌, ◌||◌, not, Option, none, some, List, [], ◌∷◌,
  ltb, ◌==◌, string_eq, int_eq, is_text, map, find, or_text, if◌then◌else◌,
}
use tele_cli.Queue.Types.{
  Status, queued, claimed, completed, failed, OpType, send_message, edit_message, delete_message,
  typing, send_photo, send_document, unsupported, Row, Chunk, Store,
}
use tele_cli.Queue.Errors.{
  Error, message, is_message_not_modified_error, is_message_not_found_error,
}
use tele_cli.Queue.Backoff.{advance_global_pause, clear_global_pause}
use tele_cli.Queue.Enqueue.{is_queued, log_row_event}
use tele_cli.Queue.ChunkKey.{chunk_index_from_dedupe_key}

-- UPDATE telegram_outbound_queue SET ... WHERE queue_id = ?
abbrev pub update_row : String → (Row → Row) → List Row → List Row
update_row id f rows = map (λ r. if r.queue_id == id then f r else r) rows

-- SELECT attempt_count ... WHERE queue_id = ?
unfoldable pub attempt_count_of : String → List Row → ℕ
attempt_count_of id rows = elim (find (λ r. r.queue_id == id) rows) [
  | none ↦ 0
  | some r ↦ r.attempt_count
]

abbrev pub is_edit : OpType → Bool
is_edit edit_message = true
is_edit _ = false

abbrev pub is_delete : OpType → Bool
is_delete delete_message = true
is_delete _ = false

abbrev pub is_send : OpType → Bool
is_send send_message = true
is_send _ = false

-- op_type in {"send_message", "send_photo", "send_document"}
abbrev pub makes_message : OpType → Bool
makes_message send_message = true
makes_message send_photo = true
makes_message send_document = true
makes_message _ = false

-- the errors that count as success: an edit that changes nothing, a message that is already gone
unfoldable pub is_noop_error : OpType → Error → Bool
is_noop_error op e =
    (is_edit op && is_message_not_modified_error (message e))
    || (is_delete op && is_message_not_found_error (message e))

-- _api_event_type(op_type, success=True)
unfoldable pub api_event_type : OpType → String
api_event_type send_message = "telegram.api.send.completed"
api_event_type edit_message = "telegram.api.edit.completed"
api_event_type delete_message = "telegram.api.delete.completed"
api_event_type typing = "telegram.api.typing.completed"
api_event_type send_photo = "telegram.api.send_photo.completed"
api_event_type send_document = "telegram.api.send_document.completed"
api_event_type (unsupported name) = "telegram.api.completed"

-- final_status, error_text, the message id of the result, and the store
pub record Settled : Type 0 where
  pub final_status : Status
  pub error_text : Option String
  pub result : Option ℤ
  pub store : Store

unfoldable pub mark_completed : ℕ → Row → Row
mark_completed now r = record r { status = completed; completed_at = some now; last_error = none }

-- the branch of an error that counts as success
unfoldable pub settle_noop : ℕ → Row → Store → Settled
unfolding mark_completed clear_global_pause api_event_type log_row_event
settle_noop now row s =
    let updated = record s { rows = update_row row.queue_id (mark_completed now) s.rows } in
    let cleared = clear_global_pause updated in
    record {
      final_status = completed;
      error_text = none;
      result = row.telegram_message_id;
      store = log_row_event row.op_type (api_event_type row.op_type) row.queue_id cleared;
    }

unfoldable pub requeue : ℕ → String → ℕ → Row → Row
requeue attempts error pause_until r = record r {
  status = queued;
  attempt_count = attempts;
  last_error = some error;
  available_at = pause_until;
  claimed_by_run_id = none;
  claimed_at = none;
}

-- SET available_at = CASE WHEN available_at < ? THEN ? ELSE available_at END WHERE status = 'queued'
unfoldable pub postpone : ℕ → Row → Row
postpone pause_until r =
    if is_queued r.status && ltb r.available_at pause_until
    then record r { available_at = pause_until }
    else r

-- the branch of a rate limit
unfoldable pub settle_rate_limited : ℕ → ℕ → Error → Row → Store → Settled
unfolding requeue postpone advance_global_pause log_row_event attempt_count_of message
settle_rate_limited now retry_after e row s =
    let attempts = attempt_count_of row.queue_id s.rows + 1 in
    let (pause_until, _, paused) = advance_global_pause now (some retry_after) s in
    let requeued = update_row row.queue_id (requeue attempts (message e) pause_until) paused.rows in
    record {
      final_status = queued;
      error_text = some (message e);
      result = none;
      store = log_row_event row.op_type "telegram.api.failed" row.queue_id (
          log_row_event row.op_type "telegram.queue.rate_limited" row.queue_id
            (record paused { rows = map (postpone pause_until) requeued }));
    }

unfoldable pub mark_failed : ℕ → String → ℕ → Row → Row
mark_failed attempts error now r = record r {
  status = failed;
  attempt_count = attempts;
  last_error = some error;
  completed_at = some now;
  claimed_by_run_id = none;
}

-- the branch of any other error
unfoldable pub settle_failed : ℕ → Error → Row → Store → Settled
unfolding mark_failed log_row_event attempt_count_of message
settle_failed now e row s =
    let attempts = attempt_count_of row.queue_id s.rows + 1 in
    record {
      final_status = failed;
      error_text = some (message e);
      result = none;
      store = log_row_event row.op_type "telegram.api.failed" row.queue_id (record s {
        rows = update_row row.queue_id (mark_failed attempts (message e) now) s.rows;
      });
    }

-- COALESCE(?, telegram_message_id)
abbrev pub coalesce : Option ℤ → Option ℤ → Option ℤ
coalesce none b = b
coalesce (some a) b = some a

unfoldable pub deliver_row : ℕ → Option ℤ → Row → Row
unfolding mark_completed
deliver_row now message_id r = record (mark_completed now r) {
  telegram_message_id = coalesce message_id r.telegram_message_id;
}

-- update_message_chunk_id of src/storage/telegram_groups.py
unfoldable pub update_message_chunk_id : String → ℤ → ℤ → ℕ → List Chunk → List Chunk
update_message_chunk_id group index message_id now chunks =
    map
      (λ c.
        if c.message_group_id == group && c.chunk_index == index && is_live c.deleted_at
        then record c { telegram_message_id = some message_id; updated_at = now }
        else c)
      chunks
  where
    is_live : Option ℕ → Bool
    is_live none = true
    is_live (some t) = false

-- the message id of a sent part of a message group is written to its chunk
unfoldable pub record_chunk : ℕ → Option ℤ → Row → Store → Store
unfolding update_message_chunk_id
record_chunk now none row s = s
record_chunk now (some message_id) row s =
    if is_text row.message_group_id && makes_message row.op_type
    then elim (chunk_index_from_dedupe_key row.dedupe_key) [
      | none ↦ s
      | some index ↦ record s {
        chunks =
            update_message_chunk_id (or_text row.message_group_id "") index message_id now s.chunks;
      }
    ]
    else s
