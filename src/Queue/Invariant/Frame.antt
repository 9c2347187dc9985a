-- ===== src/Queue/Invariant/Frame.antt =====
-- What process_next of src/storage/telegram_queue.py leaves alone in telegram_outbound_queue.
use tele_cli.Prelude.{
  ℕ, ◌≡◌, String, Option, none, some, List, [], ◌∷◌, ◌==◌, string_eq, ℤ, Each-map, Each-trans,
  Bool-cases, Option-cases, inl, inr, WhenSome, WhenSome-some,
}
use tele_cli.Queue.Types.{Payload, Row, Store}
use tele_cli.Queue.Errors.{Error, message, retry_delay_from_error}
use tele_cli.Queue.Deliver.{
  Call, Answer, returned, raised, Loaded, loaded, missing, decode_payload, execute_row,
}
use tele_cli.Queue.Stale.{stale_row_reason}
use tele_cli.Queue.Outcome.{
  deliver_row, settle_noop, settle_rate_limited, settle_failed, update_row, is_noop_error, is_send,
}
use tele_cli.Queue.Outcome.Promote.{
  promote_loaded, promote_row, promote_rows, promote_pending, promote_if_sent, settle_delivered,
  pending_replacements,
}
use tele_cli.Queue.Process.Cases.{process_claimed-live, process_claimed-stale, process_next-claims}
use tele_cli.Queue.Process.{
  Outside, select_next, claim_row, skip_stale, settle, settle_error, conclude, process_claimed,
  process_next,
}
use tele_cli.Queue.Invariant.Kept.{
  Kept, Kept-trans, claim-Kept, complete_stale-Kept, mark_completed-Kept, deliver_row-Kept,
  mark_failed-Kept, requeue-Kept, postpone-Kept, promoted_row-Kept, KeptAll, KeptAll-trans,
  KeptAll-refl, rows-log_row_event, rows-clear_global_pause, rows-record_chunk, rows-encode_payload,
}

module _ (id : String) (size : Payload → ℕ) (artifact_for : String → String) (message_id : ℤ) where
  promote_loaded-KeptAll :
      (r : Row) (s : Store) (l : Loaded)
      → WhenSome (KeptAll id s) (promote_loaded size artifact_for message_id r s l)
  unfolding promote_loaded
  promote_loaded-KeptAll r s (missing ref) = tt
  promote_loaded-KeptAll r s (loaded p) =
      rw rows-encode_payload
        (Each-map (Kept id) _ s.rows (λ x. promoted_row-Kept id 0 x r.queue_id message_id _))

  promote_row-KeptAll :
      (r : Row) (s : Store) → WhenSome (KeptAll id s) (promote_row size artifact_for message_id r s)
  unfolding promote_row
  promote_row-KeptAll r s = elim (Bool-cases (is_send r.op_type)) [
    | inl e ↦ rw e (promote_loaded-KeptAll r s (decode_payload s r.payload_json))
    | inr e ↦ rw e (KeptAll-refl id s)
  ]

  promote_rows-KeptAll :
      (rs : List Row) (s s' : Store)
      → KeptAll id s s'
      → WhenSome (KeptAll id s) (promote_rows size artifact_for message_id rs s')
  unfolding promote_rows
  promote_rows-KeptAll [] s s' k = k
  promote_rows-KeptAll (r ∷ rs) s s' k =
      elim (Option-cases (promote_row size artifact_for message_id r s')) [
        | inl e ↦ rw (e, WhenSome) tt
        | inr (t, e) ↦
            rw (e, WhenSome)
              (promote_rows-KeptAll rs s t (
                KeptAll-trans id s s' t k
                  (WhenSome-some (KeptAll id s') _ t e (promote_row-KeptAll r s'))))
      ]

  promote_pending-KeptAll :
      (current : String) (key : Option String) (s : Store)
      → WhenSome (KeptAll id s) (promote_pending size artifact_for current key message_id s)
  unfolding promote_pending
  promote_pending-KeptAll current none s = KeptAll-refl id s
  promote_pending-KeptAll current (some key) s = elim (Bool-cases (key == "")) [
    | inl e ↦ rw e (KeptAll-refl id s)
    | inr e ↦
        rw e
          (promote_rows-KeptAll (pending_replacements key current s.rows) s s (KeptAll-refl id s))
  ]

module _ (id : String) (size : Payload → ℕ) (artifact_for : String → String) where
  promote_if_sent-KeptAll :
      (message_id : Option ℤ) (row : Row) (s : Store)
      → WhenSome (KeptAll id s) (promote_if_sent size artifact_for message_id row s)
  unfolding promote_if_sent
  promote_if_sent-KeptAll none row s = KeptAll-refl id s
  promote_if_sent-KeptAll (some m) row s = elim (Bool-cases (is_send row.op_type)) [
    | inl e ↦ rw e (promote_pending-KeptAll id size artifact_for m row.queue_id row.dedupe_key s)
    | inr e ↦ rw e (KeptAll-refl id s)
  ]

module _ (now : ℕ) (row : Row) (s : Store) where
  settle_noop-KeptAll : KeptAll row.queue_id s (settle_noop now row s).store
  unfolding settle_noop
  settle_noop-KeptAll =
      rw (rows-log_row_event, rows-clear_global_pause)
        (Each-map (Kept row.queue_id) _ s.rows (mark_completed-Kept row.queue_id now))

  settle_failed-KeptAll : (e : Error) → KeptAll row.queue_id s (settle_failed now e row s).store
  unfolding settle_failed
  settle_failed-KeptAll e = rw rows-log_row_event (
      Each-map (Kept row.queue_id) _ s.rows
        (λ r. mark_failed-Kept row.queue_id now r _ (message e)))

  settle_rate_limited-KeptAll :
      (retry_after : ℕ) (e : Error)
      → KeptAll row.queue_id s (settle_rate_limited now retry_after e row s).store
  unfolding settle_rate_limited
  settle_rate_limited-KeptAll retry_after e =
      rw (rows-log_row_event, rows-log_row_event)
        (Each-trans (Kept row.queue_id) s.rows _ _ (Kept-trans row.queue_id)
          (Each-map (Kept row.queue_id) _ s.rows (λ r. requeue-Kept row.queue_id _ r _ (message e)))
          (Each-map (Kept row.queue_id) _ _ (postpone-Kept row.queue_id _)))

  settle_delivered-KeptAll :
      (size : Payload → ℕ) (artifact_for : String → String) (message_id : Option ℤ)
      → WhenSome
          (λ r. KeptAll row.queue_id s r.store)
          (settle_delivered size artifact_for now message_id row s)
  unfolding settle_delivered
  settle_delivered-KeptAll size artifact_for message_id =
      let delivered = record s {
        rows = update_row row.queue_id (deliver_row now message_id) s.rows;
      } in
      let first =
        Each-map (Kept row.queue_id) _ s.rows
          (λ r. deliver_row-Kept row.queue_id now r message_id) in
      elim (Option-cases (promote_if_sent size artifact_for message_id row delivered)) [
        | inl e ↦ rw (e, WhenSome) tt
        | inr (t, e) ↦
            rw (e, WhenSome)
              (rw (rows-log_row_event, rows-record_chunk, rows-clear_global_pause)
                (KeptAll-trans row.queue_id s delivered t first (
                  WhenSome-some (KeptAll row.queue_id delivered) _ t e (
                    promote_if_sent-KeptAll row.queue_id size artifact_for message_id row
                      delivered))))
      ]

module _ (o : Outside) (row : Row) (s : Store) where
  settle_error-KeptAll :
      (e : Error) (delay : Option ℕ) → KeptAll row.queue_id s (settle_error o e delay row s).store
  unfolding settle_error
  settle_error-KeptAll e none = settle_failed-KeptAll o.settled_at row s e
  settle_error-KeptAll e (some delay) = settle_rate_limited-KeptAll o.settled_at row s delay e

  settle-KeptAll : (a : Answer) → WhenSome (λ r. KeptAll row.queue_id s r.store) (settle o a row s)
  unfolding settle
  settle-KeptAll (returned message_id) =
      settle_delivered-KeptAll o.settled_at row s o.size o.artifact_for message_id
  settle-KeptAll (raised e) = elim (Bool-cases (is_noop_error row.op_type e)) [
    | inl noop ↦ rw noop (settle_noop-KeptAll o.settled_at row s)
    | inr other ↦ rw other (settle_error-KeptAll e (retry_delay_from_error o.literal_eval e))
  ]

  skip_stale-KeptAll : KeptAll row.queue_id s (skip_stale o.settled_at row s)
  unfolding skip_stale
  skip_stale-KeptAll =
      rw rows-log_row_event
        (Each-map (Kept row.queue_id) _ s.rows (complete_stale-Kept row.queue_id o.settled_at))

  conclude-KeptAll :
      (calls : List Call) (a : Answer)
      → KeptAll row.queue_id s (conclude row s calls (settle o a row s)).2
  unfolding conclude
  conclude-KeptAll calls a = elim (Option-cases (settle o a row s)) [
    | inl e ↦ rw e (KeptAll-refl row.queue_id s)
    | inr (r, e) ↦
        rw (e, rows-log_row_event)
          (WhenSome-some (λ x. KeptAll row.queue_id s x.store) _ r e (settle-KeptAll a))
  ]

  process_claimed-KeptAll : KeptAll row.queue_id s (process_claimed o row s).2
  process_claimed-KeptAll = elim (Option-cases (stale_row_reason row s)) [
    | inl e ↦
        let (a, calls) = execute_row o.answer o.missing_text s row in
        rw (process_claimed-live o row s e) (conclude-KeptAll calls a)
    | inr (reason, e) ↦ rw (process_claimed-stale o row s reason e) skip_stale-KeptAll
  ]

  claim_row-KeptAll :
      (run_id : String) (now : ℕ) → KeptAll row.queue_id s (claim_row run_id now row s)
  unfolding claim_row
  claim_row-KeptAll run_id now =
      rw rows-log_row_event
        (Each-map (Kept row.queue_id) _ s.rows (λ r. claim-Kept row.queue_id now r run_id))

-- Where process_next claims a row, every row of the table stays in its place with its key, its
-- creation time, priority, chat, topic, session, trace, dedupe key and message group, and every other
-- row keeps its status, attempts, error, claim and completion and is not made available earlier.
pub process_next-KeptAll :
    (o : Outside) (s : Store) (row : Row)
    → select_next o.selected_at s.rows ≡ some row
    → KeptAll row.queue_id s (process_next o s).2
process_next-KeptAll o s row e = rw (process_next-claims o s row e) (
    KeptAll-trans row.queue_id s (claim_row o.run_id o.claimed_at row s)
      (process_claimed o row (claim_row o.run_id o.claimed_at row s)).2
      (claim_row-KeptAll o row s o.run_id o.claimed_at)
      (process_claimed-KeptAll o row (claim_row o.run_id o.claimed_at row s)))
