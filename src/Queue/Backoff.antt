-- ===== src/Queue/Backoff.antt =====
-- src/storage/telegram_queue.py: the global pause after a rate limit, kept in app_state.
pub mod Bounds
use tele_cli.Prelude.{
  ℕ, ◌+◌, ◌*◌, ◌/◌, min, max, Bool, false, Option, none, some, ltb, if◌then◌else◌,
}
use tele_cli.Queue.Types.{RateLimit, Store}

abbrev pub max_rate_limit_backoff_seconds : ℕ
max_rate_limit_backoff_seconds = 3600

abbrev pub initial_rate_limit_backoff_seconds : ℕ
initial_rate_limit_backoff_seconds = 2

-- microseconds in a second
abbrev pub second : ℕ
second = 1000000

-- 0.05 s
abbrev pub queue_throttle : ℕ
queue_throttle = 50000

-- _load_paused_until
unfoldable pub load_paused_until : Store → Option ℕ
load_paused_until s = elim s.rate_limit [ none ↦ none | some r ↦ r.paused_until ]

-- _load_backoff_seconds
unfoldable pub load_backoff_seconds : Store → ℕ
load_backoff_seconds s = elim s.rate_limit [ none ↦ 0 | some r ↦ r.backoff_seconds ]

-- _save_rate_limit_state
unfoldable pub save_rate_limit_state : Option ℕ → ℕ → Store → Store
save_rate_limit_state paused_until backoff_seconds s = record s {
  rate_limit = some (record { paused_until = paused_until; backoff_seconds = backoff_seconds });
}

doubled_backoff : ℕ → ℕ
doubled_backoff current =
    if ltb current initial_rate_limit_backoff_seconds
    then initial_rate_limit_backoff_seconds
    else min (current * 2) max_rate_limit_backoff_seconds

-- next_backoff of _advance_global_pause; retry_after is in microseconds
unfoldable pub next_backoff : ℕ → Option ℕ → ℕ
unfolding doubled_backoff
next_backoff current none = min (doubled_backoff current) max_rate_limit_backoff_seconds
next_backoff current (some retry_after) =
    min (max (doubled_backoff current) (max (retry_after / second) 1))
      max_rate_limit_backoff_seconds

-- _advance_global_pause: the new paused_until, the new backoff and the store with them
unfoldable pub advance_global_pause : ℕ → Option ℕ → Store → ℕ × ℕ × Store
unfolding load_backoff_seconds save_rate_limit_state next_backoff
advance_global_pause now retry_after s =
    let backoff = next_backoff (load_backoff_seconds s) retry_after in
    let paused_until = now + backoff * second in
    (paused_until, backoff, save_rate_limit_state (some paused_until) backoff s)

-- _clear_global_pause
unfoldable pub clear_global_pause : Store → Store
unfolding save_rate_limit_state
clear_global_pause s = elim s.rate_limit [ none ↦ s | some r ↦ save_rate_limit_state none 0 s ]

-- _initial_available_at
unfoldable pub initial_available_at : ℕ → Option ℕ → ℕ
initial_available_at now none = now + queue_throttle
initial_available_at now (some paused_at) =
    if ltb (now + queue_throttle) paused_at then paused_at else now + queue_throttle

-- is_paused
unfoldable pub is_paused : ℕ → Store → Bool
unfolding load_paused_until
is_paused now s = elim (load_paused_until s) [ none ↦ false | some until ↦ ltb now until ]
