-- ===== src/Queue/Invariant/Updates.antt =====
-- The UPDATE statements of src/storage/telegram_queue.py, one row at a time.
use tele_cli.Prelude.{ℕ, ◌+◌, ◌≡◌, String, Option, true, ◌==◌, string_eq, ℤ, arith, if◌then◌else◌}
use tele_cli.Queue.Types.{Status, queued, claimed, completed, failed, Document, Row}
use tele_cli.Queue.Outcome.{mark_completed, requeue, postpone, mark_failed, deliver_row}
use tele_cli.Queue.Outcome.Promote.{promoted_row}
use tele_cli.Queue.Process.{claim, complete_stale}
use tele_cli.Queue.Invariant.{Fits, WaitsFor}

-- What is known of a row before or after a step: its columns fit, it waits for the pause, and if it
-- is the row with the key, its status is the one named.
pub record Known (id : String) (st : Status) (t : ℕ) (r : Row) : Type 0 where
  pub fits : Fits r.status r
  pub waits : WaitsFor t r
  pub here : (r.queue_id == id) ≡ true → r.status ≡ st

-- between the two UPDATE statements of a rate limit
pub record Requeued (id : String) (r : Row) : Type 0 where
  pub fits : Fits r.status r
  pub here : (r.queue_id == id) ≡ true → r.status ≡ queued

pub postpone-Known :
    (id : String) (until : ℕ) (r : Row) → Requeued id r → Known id queued until (postpone until r)
unfolding postpone
postpone-Known id until r k = ground arith

module _ (id : String) (t now : ℕ) (r : Row) where
  pub claim-Known :
      (run_id : String)
      → Known id queued t r
      → Known id claimed t (if r.queue_id == id then claim run_id now r else r)
  unfolding claim
  claim-Known run_id k = ground (arith, k.fits, k.here)

  pub complete_stale-Known :
      Known id claimed t r
      → Known id completed t (if r.queue_id == id then complete_stale now r else r)
  unfolding complete_stale
  complete_stale-Known k = ground arith

  pub mark_completed-Known :
      Known id claimed t r
      → Known id completed t (if r.queue_id == id then mark_completed now r else r)
  unfolding mark_completed
  mark_completed-Known k = ground arith

  pub deliver_row-Known :
      (message_id : Option ℤ)
      → Known id claimed t r
      → Known id completed t (if r.queue_id == id then deliver_row now message_id r else r)
  unfolding deliver_row
  deliver_row-Known message_id k = ground arith

  pub mark_failed-Known :
      (attempts : ℕ) (error : String)
      → Known id claimed t r
      → Known id failed t (if r.queue_id == id then mark_failed (attempts + 1) error now r else r)
  unfolding mark_failed
  mark_failed-Known attempts error k = ground arith

  pub requeue-Requeued :
      (attempts until : ℕ) (error : String)
      → Known id claimed t r
      → Requeued id (if r.queue_id == id then requeue attempts error until r else r)
  unfolding requeue
  requeue-Requeued attempts until error k = ground arith

  pub promoted_row-Known :
      (other : String) (st : Status) (message_id : ℤ) (document : Document)
      → Known id st t r
      → Known id st t (if r.queue_id == other then promoted_row message_id document r else r)
  unfolding promoted_row
  promoted_row-Known other st message_id document k = ground arith

-- a pause that ends is waited for by every row
pub cleared-Known :
    (id : String) (st : Status) (t : ℕ) (r : Row) → Known id st t r → Known id st 0 r
cleared-Known id st t r k = record { fits = k.fits; waits = λ _. omega arith; here = k.here }
