-- ===== src/Queue/Stale.antt =====
-- src/storage/telegram_queue.py: when a claimed row is out of date (_stale_row_reason).
use tele_cli.Prelude.{
  String, Bool, true, false, ◌&&◌, ◌||◌, not, Option, none, some, ◌==◌, string_eq, option_eq, find,
  is_text, or_text, strip, startswith, ◌<>◌, if◌then◌else◌,
}
use tele_cli.Models.{SessionRecord}
use tele_cli.Queue.Types.{OpType, typing, Row, Store}

abbrev is_typing : OpType → Bool
is_typing typing = true
is_typing _ = false

-- _LIVE_PROGRESS_ACTIVE_STATUSES
live_progress_active : String → Bool
live_progress_active status =
    status == "RUNNING_TURN" || status == "INTERRUPTED" || status == "RECOVERING_TURN"

-- x or y or z or "session"
first_text : Option String → Option String → Option String → String
first_text a b c = or_text a (or_text b (or_text c "session"))

-- _live_progress_group_id
unfoldable pub live_progress_group_id : String → SessionRecord → String
unfolding first_text strip
live_progress_group_id session_id session =
    let base =
      first_text session.current_trace_id session.active_turn_id session.last_completed_turn_id in
    let timestamp = strip (or_text session.last_user_message_at "") in
    let trace_token = if timestamp == "" then base else base <> ":" <> timestamp in
    session_id <> ":live_progress:" <> trace_token

-- isinstance(x, str) and x
text_of : Option String → String
text_of o = or_text o ""

trace_advanced : Row → SessionRecord → Bool
unfolding text_of
trace_advanced row session = is_text row.trace_id && not (session.current_trace_id == row.trace_id)

typing_reason : Row → SessionRecord → Option String
unfolding live_progress_active trace_advanced
typing_reason row session =
    if not (live_progress_active session.status)
    then some ("session_status:" <> session.status)
    else if not (is_text session.active_turn_id)
    then some "no_active_turn"
    else if trace_advanced row session
    then some "trace_advanced"
    else none

progress_reason : Row → String → SessionRecord → Option String
unfolding live_progress_active live_progress_group_id text_of
progress_reason row session_id session =
    if not (live_progress_active session.status)
    then some ("session_status:" <> session.status)
    else if text_of row.message_group_id == live_progress_group_id session_id session
    then none
    else some "group_replaced"

session_reason : Row → String → Option SessionRecord → Option String
unfolding typing_reason progress_reason
session_reason row session_id none = some "session_missing"
session_reason row session_id (some session) =
    if not session.attached
    then some "session_detached"
    else if is_typing row.op_type
    then typing_reason row session
    else progress_reason row session_id session

-- the rows that can go stale: typing indicators and live progress of a session
is_live_row : Row → String → Bool
unfolding text_of
is_live_row row session_id =
    is_typing row.op_type
    || startswith (text_of row.message_group_id) (session_id <> ":live_progress:")

-- _stale_row_reason
unfoldable pub stale_row_reason : Row → Store → Option String
unfolding is_live_row session_reason
stale_row_reason row s = elim row.session_id [
  | none ↦ none
  | some session_id ↦
      if session_id == ""
      then none
      else if is_live_row row session_id
      then session_reason row session_id (find (λ r. r.session_id == session_id) s.sessions)
      else none
]
