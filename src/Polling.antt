-- ===== src/Polling.antt =====
-- src/runtime/service.py: the delays behind failures, and the thread that polls Telegram for updates.
pub mod Delays
pub mod Once
mod Examples
use tele_cli.Prelude.{
  ℕ, zero, suc, ◌+◌, ◌*◌, min, max, ℤ, pos, negsuc, String, Bool, true, false, not, ◌&&◌, ◌||◌,
  Option, none, some, List, [], ◌∷◌, ◌++◌, ◌==◌, nat_eq, leb, ltb, if◌then◌else◌,
}
use Prim.Native.Nat.{◌^◌, ◌-◌}

-- max(x, 0.0)
abbrev pub at_least_zero : ℤ → ℕ
at_least_zero (pos n) = n
at_least_zero (negsuc n) = 0

-- codex_restart_delay and telegram_retry_delay, with the two floats of the configuration in a unit of which both are
-- whole numbers. A float times 2**1024, which no float can be, raises OverflowError: none.
unfoldable pub retry_delay :
    (backoff_seconds backoff_max_seconds : ℤ) → (failure_count : ℕ) → Option ℕ
retry_delay backoff_seconds backoff_max_seconds failure_count =
    let base = at_least_zero backoff_seconds in
    let exponent = failure_count - 1 in
    if base == 0
    then some 0
    else if leb 1024 exponent
    then none
    else some (min (base * 2 ^ exponent) (max (at_least_zero backoff_max_seconds) base))

-- telegram_unexpected_retry_delay
unfoldable pub unexpected_retry_delay :
    (backoff_seconds backoff_max_seconds : ℤ) → (failure_count : ℕ) → Option ℕ
unfolding retry_delay
unexpected_retry_delay backoff_seconds backoff_max_seconds failure_count =
    if leb failure_count 1
    then some 0
    else retry_delay backoff_seconds backoff_max_seconds (failure_count - 1)

-- an update, with its update_id if that is an int
pub record Update : Type 0 where
  pub update_id : Option ℤ
  pub payload : String

-- The locals of worker, runtime_state.telegram_state (RUNNING or BACKOFF), all updates that were put into the
-- queue, and whether an exception has ended the thread.
pub record Poller : Type 0 where
  pub offset : Option ℤ
  pub telegram_failures : ℕ
  pub next_poll_at : ℕ
  pub is_backoff : Bool
  pub enqueued : List Update
  pub ended : Bool

-- the locals at the start of worker
unfoldable pub new_poller : Poller
new_poller = record {
  offset = none;
  telegram_failures = 0;
  next_poll_at = 0;
  is_backoff = false;
  enqueued = [];
  ended = false;
}

-- how get_updates ends, or another statement of the try block
pub data Answer : Type 0 where
  updates : List Update → Answer
  telegram_error : Answer
  other_error : Answer

-- update_id + 1
abbrev pub next_id : ℤ → ℤ
next_id (pos n) = pos (suc n)
next_id (negsuc zero) = pos 0
next_id (negsuc (suc n)) = negsuc n

abbrev pub next_offset : Option ℤ → Option ℤ → Option ℤ
next_offset none offset = offset
next_offset (some id) offset = some (next_id id)

-- the loop over the updates
unfoldable pub enqueue_each : List Update → Poller → Poller
enqueue_each [] p = p
enqueue_each (u ∷ us) p =
    enqueue_each us
      (record p { offset = next_offset u.update_id p.offset; enqueued = p.enqueued ++ u ∷ [] })

-- what an except clause does with its delay; an exception of the delay leaves worker
abbrev pub back_off : (now : ℕ) → Option ℕ → Poller → Poller
back_off now none p = record p { telegram_failures = suc p.telegram_failures; ended = true }
back_off now (some delay) p = record p {
  telegram_failures = suc p.telegram_failures;
  next_poll_at = now + delay;
  is_backoff = true;
}

module _ (backoff_seconds backoff_max_seconds : ℤ) where
  abbrev pub handle_answer : (now : ℕ) → Answer → Poller → Poller
  handle_answer now (updates us) p =
      enqueue_each us (record p { telegram_failures = 0; next_poll_at = 0; is_backoff = false })
  handle_answer now telegram_error p =
      back_off now (retry_delay backoff_seconds backoff_max_seconds (suc p.telegram_failures)) p
  handle_answer now other_error p =
      back_off now
        (unexpected_retry_delay backoff_seconds backoff_max_seconds (suc p.telegram_failures)) p

  -- One round of the loop of worker: `may_poll` where the gate is set and the queue empty, `later` the clock behind
  -- the call.
  unfoldable pub poll_round : (may_poll : Bool) → (now later : ℕ) → Answer → Poller → Poller
  poll_round may_poll now later answer p =
      if p.ended || not may_poll || ltb now p.next_poll_at then p else handle_answer later answer p
