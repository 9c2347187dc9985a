-- ===== src/Runs/Consistent.antt =====
-- The start of a run in src/storage/operations.py and the invariant of the delivery queue.
use tele_cli.Prelude.{ℕ, ◌≡◌, String, Bool, true, false, List, string_eq}
use tele_cli.Queue.Types.{Row}
use tele_cli.Runs.{Run, is_claimed}
use tele_cli.Runs.Release.{is_void}

module _ (process_exists : ℕ → Bool) (runs : List Run) (run_id : String) where
  -- the row's claim, if it has one, is that of this run or of a living one
  pub IsHeld : Row → Type 0
  IsHeld r =
      is_claimed r.status ≡ true → is_void process_exists runs run_id r.claimed_by_run_id ≡ false
