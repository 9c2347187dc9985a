-- ===== src/Notifications/Heard.antt =====
-- Which session resolve_notification_session of src/runtime/service.py finds.
use tele_cli.Prelude.{◌≡◌, ◌⊎◌, String, true, Option, none, some, ◌==◌, string_eq, option_eq}
use tele_cli.Models.{SessionRecord}
use tele_cli.Sessions.Types.{Tables, is_recoverable, is_writable}
use tele_cli.Sessions.Saving.{find_by_completed_turn_id}
use tele_cli.Notifications.{accepts_turn}

-- a session that can go on with the turn
Fits : (turn : Option String) → SessionRecord → Type 0
Fits turn s = (is_recoverable s ≡ true) × (accepts_turn s turn ≡ true)

-- a session of no thread that the operator can write to
IsFallback : SessionRecord → Type 0
IsFallback s = (is_writable s ≡ true) × (s.thread_id ≡ none)

-- the reason for which a notification is the session's
pub Reason : (turn thread : Option String) → Tables → SessionRecord → Type 0
Reason turn (some thread) t s = ((s.thread_id == some thread) ≡ true) × Fits turn s
Reason (some turn) none t s =
    (((s.active_turn_id == some turn) ≡ true) × Fits (some turn) s)
    ⊎ ((find_by_completed_turn_id turn t ≡ none) × IsFallback s)
Reason none none t s = IsFallback s
