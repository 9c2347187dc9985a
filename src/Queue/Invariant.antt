-- ===== src/Queue/Invariant.antt =====
-- What holds of telegram_outbound_queue between two operations of src/storage/telegram_queue.py.
pub mod Updates
pub mod Steps
pub mod Settles
pub mod Kept
pub mod Frame
pub mod Preserved
pub mod Consistent
pub mod Inserted
pub mod Paused
use tele_cli.Prelude.{
  ℕ, ◌≤◌, ◌<◌, ◌≡◌, ◌≢◌, String, Option, none, some, List, [], ◌∷◌, Bool, true, false, any, ◌==◌,
  string_eq, All,
}
use tele_cli.Queue.Types.{Status, queued, claimed, completed, failed, Row, RateLimit, Store}

-- the columns that go with a status
abbrev pub Fits : Status → Row → Type 0
Fits queued r = (r.claimed_by_run_id ≡ none) × (r.claimed_at ≡ none) × (r.completed_at ≡ none)
Fits claimed r = (r.claimed_by_run_id ≢ none) × (r.claimed_at ≢ none) × (r.completed_at ≡ none)
Fits completed r = (r.completed_at ≢ none) × (r.last_error ≡ none)
Fits failed r = (r.completed_at ≢ none) × (r.last_error ≢ none) × (0 < r.attempt_count)

-- the time until which the queue is paused, 0 if it is not
abbrev pub pause_end : Option RateLimit → ℕ
pause_end none = 0
pause_end (some r) = elim r.paused_until [ none ↦ 0 | some t ↦ t ]

-- a queued row waits for the end of the pause
abbrev pub WaitsFor : ℕ → Row → Type 0
WaitsFor t r = r.status ≡ queued → t ≤ r.available_at

-- the primary key
abbrev pub Distinct : List Row → Type 0
Distinct [] = Unit
Distinct (r ∷ rows) = (any (λ x. x.queue_id == r.queue_id) rows ≡ false) × Distinct rows

pub record IsConsistent (s : Store) : Type 0 where
  pub columns : All (λ r. Fits r.status r) s.rows
  pub pause : All (WaitsFor (pause_end s.rate_limit)) s.rows
  pub keys : Distinct s.rows
