-- ===== src/Queue/Invariant/Settles.antt =====
-- Each branch that settles a row in src/storage/telegram_queue.py leaves it in the status it returns.
use tele_cli.Prelude.{
  ℕ, ◌+◌, ◌*◌, String, Option, none, some, ◌==◌, string_eq, ℤ, if◌then◌else◌, All-map, Bool-cases,
  Option-cases, inl, inr, map, WhenSome, WhenSome-some,
}
use tele_cli.Queue.Types.{queued, claimed, completed, failed, Payload, Row, Store}
use tele_cli.Queue.Deliver.{Answer, returned, raised}
use tele_cli.Queue.Errors.{Error, message, retry_delay_from_error}
use tele_cli.Queue.Backoff.{load_backoff_seconds, next_backoff, second}
use tele_cli.Queue.Outcome.{
  Settled, mark_completed, requeue, postpone, mark_failed, deliver_row, settle_noop,
  settle_rate_limited, settle_failed, update_row, attempt_count_of, is_noop_error,
}
use tele_cli.Queue.Outcome.Promote.{promote_if_sent, settle_delivered}
use tele_cli.Queue.Process.{Outside, settle, settle_error}
use tele_cli.Queue.Invariant.{pause_end}
use tele_cli.Queue.Invariant.Updates.{
  Requeued, mark_completed-Known, deliver_row-Known, mark_failed-Known, requeue-Requeued,
  postpone-Known,
}
use tele_cli.Queue.Invariant.Steps.{
  AllKnown, update-AllKnown, log_row_event-AllKnown, clear_global_pause-AllKnown,
  record_chunk-AllKnown, promote_if_sent-AllKnown,
}

-- the two UPDATE statements of a rate limit, with the row of app_state
postponed-AllKnown :
    (id : String) (attempts until backoff : ℕ) (error : String) (s : Store)
    → AllKnown id claimed s
    → AllKnown id queued (record s {
      rows = map (postpone until) (update_row id (requeue attempts error until) s.rows);
      rate_limit = some (record { paused_until = some until; backoff_seconds = backoff });
    })
postponed-AllKnown id attempts until backoff error s h =
    All-map (Requeued id) _ (postpone until) _ (postpone-Known id until) (
      All-map _ _ _ s.rows
        (λ r. requeue-Requeued id (pause_end s.rate_limit) 0 r attempts until error) h)

-- the rows of a settled row's store, and the status that the branch names
abbrev pub Ends : Row → Settled → Type 0
Ends row r = AllKnown row.queue_id r.final_status r.store

module _ (now : ℕ) (row : Row) (s : Store) (h : AllKnown row.queue_id claimed s) where
  settle_noop-Ends : Ends row (settle_noop now row s)
  unfolding settle_noop
  settle_noop-Ends = log_row_event-AllKnown row.queue_id completed _ row.op_type _ row.queue_id (
      clear_global_pause-AllKnown row.queue_id completed _ (
        update-AllKnown row.queue_id claimed completed
          (λ r. if r.queue_id == row.queue_id then mark_completed now r else r) s
          (λ t r. mark_completed-Known row.queue_id t now r) h))

  settle_failed-Ends : (e : Error) → Ends row (settle_failed now e row s)
  unfolding settle_failed
  settle_failed-Ends e = log_row_event-AllKnown row.queue_id failed _ row.op_type _ row.queue_id (
      update-AllKnown row.queue_id claimed failed
        (λ r.
          if r.queue_id == row.queue_id
          then mark_failed (attempt_count_of row.queue_id s.rows + 1) (message e) now r
          else r)
        s
        (λ t r.
          mark_failed-Known row.queue_id t now r (attempt_count_of row.queue_id s.rows) (message e))
        h)

  settle_rate_limited-Ends :
      (retry_after : ℕ) (e : Error) → Ends row (settle_rate_limited now retry_after e row s)
  unfolding settle_rate_limited
  settle_rate_limited-Ends retry_after e =
      log_row_event-AllKnown row.queue_id queued _ row.op_type _ row.queue_id (
        log_row_event-AllKnown row.queue_id queued _ row.op_type _ row.queue_id (
          postponed-AllKnown row.queue_id (attempt_count_of row.queue_id s.rows + 1)
            (now + next_backoff (load_backoff_seconds s) (some retry_after) * second)
            (next_backoff (load_backoff_seconds s) (some retry_after)) (message e) s h))

  settle_delivered-Ends :
      (size : Payload → ℕ) (artifact_for : String → String) (message_id : Option ℤ)
      → WhenSome (Ends row) (settle_delivered size artifact_for now message_id row s)
  unfolding settle_delivered
  settle_delivered-Ends size artifact_for message_id =
      let delivered = record s {
        rows = update_row row.queue_id (deliver_row now message_id) s.rows;
      } in
      let known =
        promote_if_sent-AllKnown row.queue_id completed size artifact_for message_id row delivered (
          update-AllKnown row.queue_id claimed completed
            (λ r. if r.queue_id == row.queue_id then deliver_row now message_id r else r) s
            (λ t r. deliver_row-Known row.queue_id t now r message_id) h) in
      elim (Option-cases (promote_if_sent size artifact_for message_id row delivered)) [
        | inl e ↦ rw (e, WhenSome) tt
        | inr (t, e) ↦
            rw (e, WhenSome)
              (log_row_event-AllKnown row.queue_id completed _ row.op_type _ row.queue_id (
                record_chunk-AllKnown row.queue_id completed _ now message_id row (
                  clear_global_pause-AllKnown row.queue_id completed t
                    (WhenSome-some (AllKnown row.queue_id completed) _ t e known))))
      ]

module _ (o : Outside) (row : Row) (s : Store) (h : AllKnown row.queue_id claimed s) where
  settle_error-Ends : (e : Error) (delay : Option ℕ) → Ends row (settle_error o e delay row s)
  unfolding settle_error
  settle_error-Ends e none = settle_failed-Ends o.settled_at row s h e
  settle_error-Ends e (some delay) = settle_rate_limited-Ends o.settled_at row s h delay e

  pub settle-Ends : (a : Answer) → WhenSome (Ends row) (settle o a row s)
  unfolding settle
  settle-Ends (returned message_id) =
      settle_delivered-Ends o.settled_at row s h o.size o.artifact_for message_id
  settle-Ends (raised e) = elim (Bool-cases (is_noop_error row.op_type e)) [
    | inl noop ↦ rw noop (settle_noop-Ends o.settled_at row s h)
    | inr other ↦ rw other (settle_error-Ends e (retry_delay_from_error o.literal_eval e))
  ]
