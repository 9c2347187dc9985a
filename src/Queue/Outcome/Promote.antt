-- ===== src/Queue/Outcome/Promote.antt =====
-- src/storage/telegram_queue.py: the branch of a delivered row, with _promote_pending_send_replacements.
use tele_cli.Prelude.{
  ℕ, ℤ, String, ◌&&◌, not, Option, none, some, List, [], ◌∷◌, ltb, ◌==◌, string_eq, option_eq,
  filter, or_text, if◌then◌else◌,
}
use tele_cli.Queue.Types.{completed, edit_message, Payload, Document, Row, Store}
use tele_cli.Queue.Backoff.{clear_global_pause}
use tele_cli.Queue.Deliver.{Loaded, loaded, missing, decode_payload}
use tele_cli.Queue.Enqueue.{encode_payload, log_row_event, is_pending_duplicate}
use tele_cli.Queue.Outcome.{Settled, is_send, api_event_type, update_row, deliver_row, record_chunk}

insert_by_created : Row → List Row → List Row
insert_by_created r [] = r ∷ []
insert_by_created r (x ∷ xs) =
    let later = insert_by_created r xs in
    if ltb r.created_at x.created_at then r ∷ x ∷ xs else x ∷ later

-- ORDER BY created_at ASC
sort_by_created : List Row → List Row
unfolding insert_by_created
sort_by_created rows = go rows []
  where
    go : List Row → List Row → List Row
    go [] sorted = sorted
    go (x ∷ xs) sorted = go xs (insert_by_created x sorted)

-- the rows that the SELECT of _promote_pending_send_replacements returns
unfoldable pub pending_replacements : String → String → List Row → List Row
unfolding sort_by_created
pending_replacements key current rows =
    sort_by_created (filter (λ r. is_pending_duplicate key r && not (r.queue_id == current)) rows)

unfoldable pub promoted_row : ℤ → Document → Row → Row
promoted_row message_id document r = record r {
  op_type = edit_message;
  telegram_message_id = some message_id;
  payload_json = document;
}

unfoldable pub promoted_payload : ℤ → Payload → Payload
promoted_payload message_id p = record {
  message_id = some message_id;
  text = some (or_text p.text "");
  parse_mode = p.parse_mode;
  caption = none;
  photo_path = none;
  document_path = none;
}

-- `size` is the length of json_dumps(payload) in UTF-8, `artifact_for` the uuid4 that is drawn for the
-- artifact of a row; `none` is the exception of a missing artifact file.
module _ (size : Payload → ℕ) (artifact_for : String → String) where
  unfoldable pub promote_loaded : ℤ → Row → Store → Loaded → Option Store
  unfolding promoted_row promoted_payload encode_payload
  promote_loaded message_id queued_row s (missing ref) = none
  promote_loaded message_id queued_row s (loaded p) =
      let (document, t) =
        encode_payload size (artifact_for queued_row.queue_id) (promoted_payload message_id p) s in
      some (record t {
        rows = update_row queued_row.queue_id (promoted_row message_id document) t.rows;
      })

  -- one round of the loop over the queued rows
  unfoldable pub promote_row : ℤ → Row → Store → Option Store
  unfolding promote_loaded decode_payload
  promote_row message_id queued_row s =
      if is_send queued_row.op_type
      then promote_loaded message_id queued_row s (decode_payload s queued_row.payload_json)
      else some s

  unfoldable pub promote_rows : ℤ → List Row → Store → Option Store
  unfolding promote_row
  promote_rows message_id [] s = some s
  promote_rows message_id (r ∷ rs) s = elim (promote_row message_id r s) [
    | none ↦ none
    | some t ↦ promote_rows message_id rs t
  ]

  -- _promote_pending_send_replacements
  unfoldable pub promote_pending : String → Option String → ℤ → Store → Option Store
  unfolding promote_rows pending_replacements
  promote_pending current none message_id s = some s
  promote_pending current (some key) message_id s =
      if key == ""
      then some s
      else promote_rows message_id (pending_replacements key current s.rows) s

  unfoldable pub promote_if_sent : Option ℤ → Row → Store → Option Store
  unfolding promote_pending
  promote_if_sent none row s = some s
  promote_if_sent (some message_id) row s =
      if is_send row.op_type
      then promote_pending row.queue_id row.dedupe_key message_id s
      else some s

  -- the branch of a call that returned; `none` rolls the transaction back and leaves process_next
  unfoldable pub settle_delivered : ℕ → Option ℤ → Row → Store → Option Settled
  unfolding promote_if_sent deliver_row clear_global_pause record_chunk api_event_type log_row_event
  settle_delivered now message_id row s =
      let delivered = record s {
        rows = update_row row.queue_id (deliver_row now message_id) s.rows;
      } in
      elim (promote_if_sent message_id row delivered) [
        | none ↦ none
        | some promoted ↦
            let cleared = clear_global_pause promoted in
            let chunked = record_chunk now message_id row cleared in
            some (record {
              final_status = completed;
              error_text = none;
              result = message_id;
              store = log_row_event row.op_type (api_event_type row.op_type) row.queue_id chunked;
            })
      ]
