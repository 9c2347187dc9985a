-- ===== src/Queue/Process/Cases.antt =====
-- The branches of process_next of src/storage/telegram_queue.py as equations.
use tele_cli.Prelude.{◌≡◌, String, none, some, []}
use tele_cli.Queue.Types.{Row, Store}
use tele_cli.Queue.Stale.{stale_row_reason}
use tele_cli.Queue.Deliver.{execute_row}
use tele_cli.Queue.Process.{
  Outside, idle, skipped, select_next, claim_row, skip_stale, settle, conclude, process_claimed,
  process_next,
}

module _ (o : Outside) (row : Row) (s : Store) where
  pub process_claimed-live :
      stale_row_reason row s ≡ none
      → process_claimed o row s ≡ (
          let (result, calls) = execute_row o.answer o.missing_text s row in
          conclude row s calls (settle o result row s))
  unfolding process_claimed
  process_claimed-live e = rw (e, process_claimed)

  pub process_claimed-stale :
      (reason : String)
      → stale_row_reason row s ≡ some reason
      → process_claimed o row s ≡ (skipped row.queue_id reason, [], skip_stale o.settled_at row s)
  unfolding process_claimed
  process_claimed-stale reason e = rw (e, process_claimed)

module _ (o : Outside) (s : Store) where
  pub process_next-idle : select_next o.selected_at s.rows ≡ none → process_next o s ≡ (idle, [], s)
  unfolding process_next
  process_next-idle e = rw (e, process_next)

  pub process_next-claims :
      (row : Row)
      → select_next o.selected_at s.rows ≡ some row
      → process_next o s ≡ process_claimed o row (claim_row o.run_id o.claimed_at row s)
  unfolding process_next
  process_next-claims row e = rw (e, process_next)
