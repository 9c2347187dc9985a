-- ===== src/Agent/Supervise/Spaced.antt =====
-- The times at which maintain_codex_runtime of src/runtime/service.py starts the agent's process.
use tele_cli.Prelude.{◌≡◌, ℕ, ◌+◌, ◌≤◌, false, List, [], ◌∷◌}
use tele_cli.Agent.Supervise.{Round, Supervisor}

-- `gap` or more behind the first of the times, if there is one
abbrev pub IsPast : (gap : ℕ) → List ℕ → ℕ → Type 0
IsPast gap [] now = Unit
IsPast gap (t ∷ ts) now = t + gap ≤ now

-- each time is `gap` or more behind the one before; the last time stands first
abbrev pub IsSpaced : (gap : ℕ) → List ℕ → Type 0
IsSpaced gap [] = Unit
IsSpaced gap (t ∷ ts) = IsPast gap ts t × IsSpaced gap ts

-- time.monotonic: no round is before the one that precedes it
abbrev pub IsMonotonic : (last : ℕ) → List Round → Type 0
IsMonotonic last [] = Unit
IsMonotonic last (r ∷ rs) = (last ≤ r.now) × IsMonotonic r.now rs

record IsPaced (gap last : ℕ) (v : Supervisor) : Type 0 where
  spaced : IsSpaced gap v.started_at
  recent : IsPast 0 v.started_at last
  waits : v.has_codex ≡ false → v.ended ≡ false → IsPast gap v.started_at v.next_restart_at
