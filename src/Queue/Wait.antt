-- ===== src/Queue/Wait.antt =====
-- src/storage/telegram_queue.py: _wait_for_completion, the loop of enqueue_and_wait.
pub mod Ends
mod Examples
use tele_cli.Prelude.{
  ℕ, ℤ, String, Bool, true, false, ◌&&◌, ◌||◌, Option, none, some, List, [], ◌∷◌, ltb, ◌==◌,
  string_eq, find, or_text, if◌then◌else◌,
}
use tele_cli.Queue.Types.{queued, claimed, completed, failed, Row}
use tele_cli.Queue.Errors.{ErrorLiteral, retry_delay_from_error_text}
use tele_cli.Queue.Outcome.{makes_message}

-- what enqueue_and_wait returns or raises
pub data Waited : Type 0 where
  disappeared timed_out : Waited
  sent : ℤ → Waited
  finished : Waited
  failed_with : String → Waited
  still_queued : Waited

-- one reading of the row, of the wall clock and of the monotonic clock
pub record Reading : Type 0 where
  pub rows : List Row
  pub now : ℕ
  pub past_deadline : Bool

unfoldable pub completed_result : Row → Waited
completed_result r = elim r.telegram_message_id [
  | none ↦ finished
  | some id ↦ if makes_message r.op_type then sent id else finished
]

is_rate_limited : Option ℕ → Bool
is_rate_limited none = false
is_rate_limited (some delay) = true

module _ (literal_eval : String → Option ErrorLiteral) (allow_paused_return : Bool) where
  -- the tests of one round on the row; `none` waits
  unfoldable pub read_row : ℕ → Row → Option Waited
  unfolding completed_result is_rate_limited
  read_row now r = elim r.status [
    | completed ↦ some (completed_result r)
    | failed ↦ some (failed_with (or_text r.last_error "Telegram queue operation failed."))
    | queued ↦
        if ltb now r.available_at
          && (allow_paused_return
              || is_rate_limited
                  (retry_delay_from_error_text literal_eval (or_text r.last_error "")))
        then some still_queued
        else none
    | claimed ↦ none
  ]

  -- one round of the loop; `none` waits for the next one
  unfoldable pub wait_round : String → Reading → Option Waited
  unfolding read_row
  wait_round id reading = elim (find (λ r. r.queue_id == id) reading.rows) [
    | none ↦ some disappeared
    | some r ↦ elim (read_row reading.now r) [
      | some w ↦ some w
      | none ↦ if reading.past_deadline then some timed_out else none
    ]
  ]

  -- the loop over the readings that it takes; `none` if they end before it does
  unfoldable pub wait_for_completion : String → List Reading → Option Waited
  unfolding wait_round
  wait_for_completion id [] = none
  wait_for_completion id (reading ∷ later) =
      let rest = wait_for_completion id later in
      elim (wait_round id reading) [ some w ↦ some w | none ↦ rest ]
