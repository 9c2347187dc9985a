-- ===== src/Queue/Invariant/Steps.antt =====
-- The parts of the transactions of src/storage/telegram_queue.py keep what is known of every row.
use tele_cli.Prelude.{
  ℕ, String, Option, none, some, List, [], ◌∷◌, ◌==◌, string_eq, ℤ, if◌then◌else◌, All, All-map,
  All-mono, Bool-cases, Option-cases, inl, inr, map, is_text, ◌&&◌, ltb, WhenSome, WhenSome-some,
}
use tele_cli.Queue.Types.{Status, OpType, Payload, Row, Store}
use tele_cli.Queue.Deliver.{Loaded, loaded, missing, decode_payload}
use tele_cli.Queue.Backoff.{clear_global_pause}
use tele_cli.Queue.Enqueue.{
  log_row_event, should_trace_op, encode_payload, queue_payload_limit_bytes,
}
use tele_cli.Queue.Outcome.{record_chunk, is_send, makes_message}
use tele_cli.Queue.ChunkKey.{chunk_index_from_dedupe_key}
use tele_cli.Queue.Outcome.Promote.{
  promote_row, promote_loaded, promoted_row, promoted_payload, promote_rows, promote_pending,
  promote_if_sent, pending_replacements,
}
use tele_cli.Queue.Invariant.{pause_end}
use tele_cli.Queue.Invariant.Updates.{Known, promoted_row-Known, cleared-Known}

abbrev pub AllKnown : String → Status → Store → Type 0
AllKnown id st s = All (Known id st (pause_end s.rate_limit)) s.rows

-- an UPDATE of rows that leaves app_state alone
module _ (id : String) (st st' : Status) (f : Row → Row) (s : Store) where
  pub update-AllKnown :
      ((t : ℕ) (r : Row) → Known id st t r → Known id st' t (f r))
      → AllKnown id st s
      → AllKnown id st' (record s { rows = map f s.rows })
  update-AllKnown h = All-map _ _ f s.rows (h (pause_end s.rate_limit))

module _ (id : String) (st : Status) (s : Store) where
  pub log_row_event-AllKnown :
      (op : OpType) (event row_id : String)
      → AllKnown id st s
      → AllKnown id st (log_row_event op event row_id s)
  unfolding log_row_event
  log_row_event-AllKnown op event row_id h = elim (Bool-cases (should_trace_op op)) [
    | inl e ↦ rw e h
    | inr e ↦ rw e h
  ]

  pub clear_global_pause-AllKnown : AllKnown id st s → AllKnown id st (clear_global_pause s)
  unfolding clear_global_pause
  clear_global_pause-AllKnown h = elim (Option-cases s.rate_limit) [
    | inl e ↦ rw e (All-mono _ _ s.rows (cleared-Known id st (pause_end s.rate_limit)) h)
    | inr (r, e) ↦ rw e (All-mono _ _ s.rows (cleared-Known id st (pause_end s.rate_limit)) h)
  ]

  pub record_chunk-AllKnown :
      (now : ℕ) (message_id : Option ℤ) (row : Row)
      → AllKnown id st s
      → AllKnown id st (record_chunk now message_id row s)
  unfolding record_chunk
  record_chunk-AllKnown now none row h = h
  record_chunk-AllKnown now (some m) row h =
      elim (Bool-cases (is_text row.message_group_id && makes_message row.op_type)) [
        | inl e ↦ elim (Option-cases (chunk_index_from_dedupe_key row.dedupe_key)) [
          | inl e' ↦ rw (e, e') h
          | inr (index, e') ↦ rw (e, e') h
        ]
        | inr e ↦ rw e h
      ]

  -- the message id of a promotion, and the row that it changes
  module _ (size : Payload → ℕ) (artifact_for : String → String) (message_id : ℤ) where
    pub encode_payload-AllKnown :
        (artifact : String) (p : Payload)
        → AllKnown id st s
        → AllKnown id st (encode_payload size artifact p s).1
    unfolding encode_payload
    encode_payload-AllKnown artifact p h =
        elim (Bool-cases (ltb queue_payload_limit_bytes (size p))) [
          | inl e ↦ rw e h
          | inr e ↦ rw e h
        ]

module _ (size : Payload → ℕ) (artifact_for : String → String) (message_id : ℤ) where
  pub promote_loaded-AllKnown :
      (id : String) (st : Status) (r : Row) (s : Store) (l : Loaded)
      → AllKnown id st s
      → WhenSome (AllKnown id st) (promote_loaded size artifact_for message_id r s l)
  unfolding promote_loaded
  promote_loaded-AllKnown id st r s (missing ref) h = tt
  promote_loaded-AllKnown id st r s (loaded p) h =
      let (document, t) =
        encode_payload size (artifact_for r.queue_id) (promoted_payload message_id p) s in
      update-AllKnown id st st
        (λ x. if x.queue_id == r.queue_id then promoted_row message_id document x else x) t
        (λ b x. promoted_row-Known id b 0 x r.queue_id st message_id document)
        (encode_payload-AllKnown id st s size artifact_for message_id (artifact_for r.queue_id)
          (promoted_payload message_id p) h)

  pub promote_row-AllKnown :
      (id : String) (st : Status) (r : Row) (s : Store)
      → AllKnown id st s
      → WhenSome (AllKnown id st) (promote_row size artifact_for message_id r s)
  unfolding promote_row
  promote_row-AllKnown id st r s h = elim (Bool-cases (is_send r.op_type)) [
    | inl e ↦ rw e (promote_loaded-AllKnown id st r s (decode_payload s r.payload_json) h)
    | inr e ↦ rw e h
  ]

  pub promote_rows-AllKnown :
      (id : String) (st : Status) (rs : List Row) (s : Store)
      → AllKnown id st s
      → WhenSome (AllKnown id st) (promote_rows size artifact_for message_id rs s)
  unfolding promote_rows
  promote_rows-AllKnown id st [] s h = h
  promote_rows-AllKnown id st (r ∷ rs) s h =
      elim (Option-cases (promote_row size artifact_for message_id r s)) [
        | inl e ↦ rw (e, WhenSome) tt
        | inr (t, e) ↦
            rw (e, WhenSome)
              (promote_rows-AllKnown id st rs t
                (WhenSome-some (AllKnown id st) _ t e (promote_row-AllKnown id st r s h)))
      ]

  pub promote_pending-AllKnown :
      (id : String) (st : Status) (current : String) (key : Option String) (s : Store)
      → AllKnown id st s
      → WhenSome (AllKnown id st) (promote_pending size artifact_for current key message_id s)
  unfolding promote_pending
  promote_pending-AllKnown id st current none s h = h
  promote_pending-AllKnown id st current (some key) s h = elim (Bool-cases (key == "")) [
    | inl e ↦ rw e h
    | inr e ↦ rw e (promote_rows-AllKnown id st (pending_replacements key current s.rows) s h)
  ]

module _ (id : String) (st : Status) (size : Payload → ℕ) (artifact_for : String → String) where
  pub promote_if_sent-AllKnown :
      (message_id : Option ℤ) (row : Row) (s : Store)
      → AllKnown id st s
      → WhenSome (AllKnown id st) (promote_if_sent size artifact_for message_id row s)
  unfolding promote_if_sent
  promote_if_sent-AllKnown none row s h = h
  promote_if_sent-AllKnown (some m) row s h = elim (Bool-cases (is_send row.op_type)) [
    | inl e ↦
        rw e (promote_pending-AllKnown size artifact_for m id st row.queue_id row.dedupe_key s h)
    | inr e ↦ rw e h
  ]
