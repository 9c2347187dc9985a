-- ===== src/Queue/Backoff/Bounds.antt =====
-- Bounds on the global pause of src/storage/telegram_queue.py.
use tele_cli.Prelude.{ℕ, ◌+◌, ◌*◌, ◌≤◌, ◌≡◌, Option, none, some, true, arith}
use tele_cli.Queue.Types.{Store}
use tele_cli.Queue.Backoff.{
  max_rate_limit_backoff_seconds, second, next_backoff, advance_global_pause, load_backoff_seconds,
  load_paused_until, is_paused,
}

pub next_backoff_bounds :
    (current : ℕ) (retry_after : Option ℕ)
    → (2 ≤ next_backoff current retry_after) × (next_backoff current retry_after ≤ 3600)
unfolding next_backoff
next_backoff_bounds current none = ground arith
next_backoff_bounds current (some r) = ground arith

-- Whatever the stored backoff and whatever the server's retry_after, a rate limit stores a backoff
-- of 2 to 3600 seconds, which is also what it returns, and pauses for exactly that long from now.
pub advance_global_pause_bounds :
    (now : ℕ) (retry_after : Option ℕ) (s : Store)
    → let (until, backoff, t) = advance_global_pause now retry_after s in
      (2 ≤ backoff)
      × (backoff ≤ max_rate_limit_backoff_seconds)
      × (until ≡ now + backoff * second)
      × (load_paused_until t ≡ some until)
      × (load_backoff_seconds t ≡ backoff)
      × (is_paused now t ≡ true)
unfolding advance_global_pause is_paused
advance_global_pause_bounds now retry_after s =
    ground (arith, next_backoff_bounds (load_backoff_seconds s) retry_after)
