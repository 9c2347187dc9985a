-- ===== src/Turns/Stale.antt =====
-- src/runtime/app_server_runtime.py: is_stale_active_turn.
use tele_cli.Prelude.{
  ℕ, ◌+◌, max, String, Bool, false, not, Option, none, some, ◌==◌, string_eq, is_text, leb,
  if◌then◌else◌,
}
use tele_cli.Models.{SessionRecord}

-- max of the candidates that are not None
unfoldable pub latest : Option ℕ → Option ℕ → Option ℕ
latest none b = b
latest (some a) none = some a
latest (some a) (some b) = some (max a b)

-- `parse` is datetime.fromisoformat with UTC for a missing zone, in microseconds; `none` is its ValueError
module _ (parse : String → Option ℕ) where
  unfoldable pub parse_session_timestamp : Option String → Option ℕ
  parse_session_timestamp none = none
  parse_session_timestamp (some value) = if value == "" then none else parse value

  unfoldable pub last_activity : SessionRecord → Option ℕ
  unfolding latest parse_session_timestamp
  last_activity s = latest (parse_session_timestamp s.last_user_message_at) (
      latest (parse_session_timestamp s.pending_output_updated_at)
        (parse_session_timestamp s.last_agent_message_at))

  -- is_stale_active_turn at the time `now`, with STALE_ACTIVE_TURN_SECONDS
  unfoldable pub is_stale_active_turn : (now : ℕ) → SessionRecord → Bool
  unfolding last_activity
  is_stale_active_turn now s =
      if not (is_text s.active_turn_id)
      then false
      else elim (last_activity s) [ none ↦ false | some t ↦ leb (t + 30000000) now ]
