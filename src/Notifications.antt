-- ===== src/Notifications.antt =====
-- src/runtime/service.py: to which session a notification of the agent belongs.
pub mod Heard
mod Examples
use tele_cli.Prelude.{
  String, Bool, true, false, not, ◌&&◌, Option, none, some, ◌==◌, string_eq, option_eq, is_text,
  is_set, if◌then◌else◌,
}
use tele_cli.Models.{SessionRecord, AuthState}
use tele_cli.Sessions.Types.{Tables, is_recoverable}
use tele_cli.Sessions.Local.{get_active_telegram_session}
use tele_cli.Sessions.Saving.{find_by_turn_id, find_by_thread_id, find_by_completed_turn_id}

-- _session_accepts_turn_notification; an id that is None or "" is `none`
unfoldable pub accepts_turn : SessionRecord → Option String → Bool
accepts_turn s none = true
accepts_turn s (some turn) =
    if s.active_turn_id == some turn then true else not (s.last_completed_turn_id == some turn)

-- _session_accepts_live_output_notification
unfoldable pub accepts_live_output : SessionRecord → (turn : Option String) → Bool
accepts_live_output s none =
    if is_text s.active_turn_id then true else not (is_text s.last_completed_turn_id)
accepts_live_output s (some turn) =
    if is_text s.active_turn_id
    then s.active_turn_id == some turn
    else not (is_text s.last_completed_turn_id)

-- `session is not None and ...`, with what is returned then
abbrev pub if_fit : (turn : Option String) → Option SessionRecord → Option SessionRecord
unfolding is_recoverable accepts_turn
if_fit turn none = none
if_fit turn (some s) = if is_recoverable s && accepts_turn s turn then some s else none

-- the lines from get_active_telegram_session on
abbrev pub if_threadless : Option SessionRecord → Option SessionRecord
if_threadless none = none
if_threadless (some s) = elim s.thread_id [ none ↦ some s | some thread ↦ none ]

-- the branch of a turn with no thread, where this session runs the turn and this one has completed it
abbrev pub by_turn :
    (turn : String)
    → (running completed : Option SessionRecord) → (active : Option SessionRecord)
    → Option SessionRecord
unfolding if_fit
by_turn turn running (some completed) active = if_fit (some turn) running
by_turn turn running none active = elim (if_fit (some turn) running) [
  | some s ↦ some s
  | none ↦ if_threadless active
]

-- resolve_notification_session: `turn` and `thread` are the ids as texts, `none` where they are missing or empty
unfoldable pub resolve_notification_session :
    AuthState → (turn thread : Option String) → Tables → Option SessionRecord
unfolding by_turn if_fit get_active_telegram_session find_by_turn_id find_by_thread_id
    find_by_completed_turn_id
resolve_notification_session auth turn (some thread) t = if_fit turn (find_by_thread_id thread t)
resolve_notification_session auth (some turn) none t =
    by_turn turn (find_by_turn_id turn t) (find_by_completed_turn_id turn t)
      (get_active_telegram_session auth none t)
resolve_notification_session auth none none t =
    if_threadless (get_active_telegram_session auth none t)
