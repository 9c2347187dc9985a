-- ===== src/Queue/Invariant/Kept.antt =====
-- What process_next of src/storage/telegram_queue.py leaves alone in telegram_outbound_queue.
use tele_cli.Prelude.{
  ℕ, ◌≤◌, ◌≡◌, refl, String, Option, none, some, List, [], ◌∷◌, false, ◌==◌, string_eq, ℤ, arith,
  if◌then◌else◌, Each, Each-trans,
}
use tele_cli.Queue.Types.{OpType, Document, Payload, Row, Store}
use tele_cli.Queue.Backoff.{clear_global_pause}
use tele_cli.Queue.Enqueue.{log_row_event, encode_payload}
use tele_cli.Queue.Outcome.{
  mark_completed, requeue, postpone, mark_failed, deliver_row, record_chunk,
}
use tele_cli.Queue.Outcome.Promote.{promoted_row}
use tele_cli.Queue.Process.{claim, complete_stale}

-- the columns that say how far a row has come
abbrev pub SameProgress : Row → Row → Type 0
SameProgress r r' =
    (r'.status ≡ r.status)
    × (r'.attempt_count ≡ r.attempt_count)
    × (r'.last_error ≡ r.last_error)
    × (r'.claimed_by_run_id ≡ r.claimed_by_run_id)
    × (r'.claimed_at ≡ r.claimed_at)
    × (r'.completed_at ≡ r.completed_at)
    × (r.available_at ≤ r'.available_at)

pub record Kept (id : String) (r r' : Row) : Type 0 where
  pub queue_id : r'.queue_id ≡ r.queue_id
  pub created_at : r'.created_at ≡ r.created_at
  pub priority : r'.priority ≡ r.priority
  pub chat_id : r'.chat_id ≡ r.chat_id
  pub topic_id : r'.topic_id ≡ r.topic_id
  pub session_id : r'.session_id ≡ r.session_id
  pub trace_id : r'.trace_id ≡ r.trace_id
  pub dedupe_key : r'.dedupe_key ≡ r.dedupe_key
  pub message_group_id : r'.message_group_id ≡ r.message_group_id
  pub progress : (r.queue_id == id) ≡ false → SameProgress r r'

pub Kept-refl : (id : String) (r : Row) → Kept id r r
Kept-refl id r = ground arith

pub Kept-trans : (id : String) (x y z : Row) → Kept id x y → Kept id y z → Kept id x z
Kept-trans id x y z p q = ground arith

module _ (id : String) (now : ℕ) (r : Row) where
  pub claim-Kept :
      (run_id : String) → Kept id r (if r.queue_id == id then claim run_id now r else r)
  unfolding claim
  claim-Kept run_id = ground arith

  pub complete_stale-Kept : Kept id r (if r.queue_id == id then complete_stale now r else r)
  unfolding complete_stale
  complete_stale-Kept = ground arith

  pub mark_completed-Kept : Kept id r (if r.queue_id == id then mark_completed now r else r)
  unfolding mark_completed
  mark_completed-Kept = ground arith

  pub deliver_row-Kept :
      (message_id : Option ℤ)
      → Kept id r (if r.queue_id == id then deliver_row now message_id r else r)
  unfolding deliver_row
  deliver_row-Kept message_id = ground arith

  pub mark_failed-Kept :
      (attempts : ℕ) (error : String)
      → Kept id r (if r.queue_id == id then mark_failed attempts error now r else r)
  unfolding mark_failed
  mark_failed-Kept attempts error = ground arith

  pub requeue-Kept :
      (attempts : ℕ) (error : String)
      → Kept id r (if r.queue_id == id then requeue attempts error now r else r)
  unfolding requeue
  requeue-Kept attempts error = ground arith

  pub postpone-Kept : Kept id r (postpone now r)
  unfolding postpone
  postpone-Kept = ground arith

  pub promoted_row-Kept :
      (other : String) (message_id : ℤ) (document : Document)
      → Kept id r (if r.queue_id == other then promoted_row message_id document r else r)
  unfolding promoted_row
  promoted_row-Kept other message_id document = ground arith

abbrev pub KeptAll : String → Store → Store → Type 0
KeptAll id s s' = Each (Kept id) s.rows s'.rows

module _ (id : String) (s t u : Store) where
  pub KeptAll-trans : KeptAll id s t → KeptAll id t u → KeptAll id s u
  KeptAll-trans = Each-trans (Kept id) s.rows t.rows u.rows (Kept-trans id)

pub KeptAll-refl : (id : String) (s : Store) → KeptAll id s s
KeptAll-refl id s = rows-refl s.rows
  where
    rows-refl : (rows : List Row) → Each (Kept id) rows rows
    rows-refl [] = tt
    rows-refl (r ∷ rows) = (Kept-refl id r, rows-refl rows)

-- the parts that leave the rows as they are
pub rows-log_row_event :
    (op : OpType) (event id : String) (s : Store) → (log_row_event op event id s).rows ≡ s.rows
unfolding log_row_event
rows-log_row_event op event id s = ground arith

pub rows-clear_global_pause : (s : Store) → (clear_global_pause s).rows ≡ s.rows
unfolding clear_global_pause
rows-clear_global_pause s = ground arith

pub rows-record_chunk :
    (now : ℕ) (message_id : Option ℤ) (row : Row) (s : Store)
    → (record_chunk now message_id row s).rows ≡ s.rows
unfolding record_chunk
rows-record_chunk now none row s = refl
rows-record_chunk now (some m) row s = ground arith

pub rows-encode_payload :
    (size : Payload → ℕ) (artifact : String) (p : Payload) (s : Store)
    → (encode_payload size artifact p s).1.rows ≡ s.rows
unfolding encode_payload
rows-encode_payload size artifact p s = ground arith
