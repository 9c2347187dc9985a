-- ===== src/Sessions/Local.antt =====
-- src/runtime/session_store.py: the queries, the output that waits to be delivered, and the recovery.
use tele_cli.Prelude.{
  String, Bool, ◌&&◌, Option, none, some, List, [], ◌==◌, string_eq, any, find, filter, strip,
  if◌then◌else◌, ℤ, reverse, option_eq, int_eq, ◌<>◌,
}
use tele_cli.Models.{SessionRecord, AuthState}
use tele_cli.Sessions.Types.{
  Tables, Workspace, matches_transport, matches_local_channel, is_writable, is_recoverable,
}
use tele_cli.Sessions.Rows.{load, save_session}

-- list_local_sessions
unfoldable pub list_local_sessions : String → Tables → List SessionRecord
unfolding load
list_local_sessions channel t =
    if strip channel == "" then [] else filter (matches_local_channel (strip channel)) (load t)

-- list_telegram_sessions
unfoldable pub list_telegram_sessions :
    AuthState → (topic_id : Option ℤ) → Tables → List SessionRecord
unfolding load
list_telegram_sessions auth topic_id t = filter (matches_transport auth topic_id) (load t)

-- get_current_local_session
unfoldable pub get_current_local_session : String → Tables → Option SessionRecord
unfolding list_local_sessions
get_current_local_session channel t =
    find (λ s. s.attached && is_recoverable s) (reverse (list_local_sessions channel t))

-- get_active_local_session
unfoldable pub get_active_local_session : String → Tables → Option SessionRecord
unfolding list_local_sessions
get_active_local_session channel t = find is_writable (reverse (list_local_sessions channel t))

-- get_active_telegram_session
unfoldable pub get_active_telegram_session :
    AuthState → (topic_id : Option ℤ) → Tables → Option SessionRecord
unfolding list_telegram_sessions
get_active_telegram_session auth topic_id t =
    find is_writable (reverse (list_telegram_sessions auth topic_id t))

-- get_current_telegram_session
unfoldable pub get_current_telegram_session :
    AuthState → (topic_id : Option ℤ) → Tables → Option SessionRecord
unfolding list_telegram_sessions
get_current_telegram_session auth topic_id t =
    find (λ s. s.attached && is_recoverable s) (reverse (list_telegram_sessions auth topic_id t))

-- has_recovering_session
unfoldable pub has_recovering_session : AuthState → (topic_id : Option ℤ) → Tables → Bool
unfolding list_telegram_sessions
has_recovering_session auth topic_id t =
    any (λ s. s.attached && s.status == "RECOVERING_TURN") (list_telegram_sessions auth topic_id t)

module _ (resolve : Option String → SessionRecord → Workspace) (now : String) where
  -- append_pending_output
  unfoldable pub append_pending_output : SessionRecord → String → Tables → SessionRecord × Tables
  unfolding save_session
  append_pending_output s text t =
      if text == ""
      then (s, t)
      else (let appended = record s {
        pending_output_text = s.pending_output_text <> text;
        pending_output_updated_at = some now;
      } in
          (appended, save_session resolve now appended t))

  -- consume_pending_output: the text, the session and the tables
  unfoldable pub consume_pending_output : SessionRecord → Tables → String × SessionRecord × Tables
  unfolding save_session
  consume_pending_output s t =
      let consumed = record s { pending_output_text = ""; pending_output_updated_at = none } in
      (s.pending_output_text, consumed, save_session resolve now consumed t)

  -- mark_delivered_output
  unfoldable pub mark_delivered_output : SessionRecord → String → Tables → SessionRecord × Tables
  unfolding save_session
  mark_delivered_output s text t =
      let marked = record s { last_delivered_output_text = text } in
      (marked, save_session resolve now marked t)

  -- mark_user_message
  unfoldable pub mark_user_message : SessionRecord → Tables → SessionRecord × Tables
  unfolding save_session
  mark_user_message s t =
      let marked = record s { last_user_message_at = some now } in
      (marked, save_session resolve now marked t)

  -- mark_agent_message
  unfoldable pub mark_agent_message : SessionRecord → Tables → SessionRecord × Tables
  unfolding save_session
  mark_agent_message s t =
      let marked = record s { last_agent_message_at = some now } in
      (marked, save_session resolve now marked t)
