-- ===== src/Turns/Sends.antt =====
-- src/runtime/app_server_runtime.py: send, interrupt and their local twins, and recover_inflight_sessions.
use tele_cli.Prelude.{
  ℤ, ℕ, String, Bool, true, false, not, ◌&&◌, ◌||◌, Option, none, some, List, [], ◌∷◌, ◌==◌,
  string_eq, is_text, or_text, strip, any, map, if◌then◌else◌,
}
use tele_cli.Models.{SessionRecord, AuthState}
use tele_cli.Sessions.Types.{Tables, Workspace}
use tele_cli.Sessions.Rows.{load, save_session}
use tele_cli.Sessions.Telegram.{get_or_create_telegram_session, get_or_create_local_session}
use tele_cli.Sessions.Local.{get_current_telegram_session, get_current_local_session}
use tele_cli.Sessions.Saving as Saving
use tele_cli.Turns.Stale.{is_stale_active_turn}
use tele_cli.Turns.Calls.{Outside, State, Ended, returned, raised}
use tele_cli.Turns.Dispatch.{start_or_steer_turn}

-- _scoped_auth
unfoldable pub scoped_auth : AuthState → (chat_id user_id : Option ℤ) → AuthState
scoped_auth auth chat_id user_id = record auth {
  telegram_chat_id = elim chat_id [ none ↦ auth.telegram_chat_id | some c ↦ some c ];
  telegram_user_id = elim user_id [ none ↦ auth.telegram_user_id | some u ↦ some u ];
}

-- send; `new_id` is uuid4()
unfoldable pub send :
    Outside
    → (new_id : String) → AuthState
    → (text : String) → (topic_id chat_id user_id : Option ℤ) → (visible : Option String)
    → (resumed_threads : List String) → Tables
    → Ended × State
unfolding scoped_auth get_or_create_telegram_session start_or_steer_turn
send o new_id auth text topic_id chat_id user_id visible resumed_threads t =
    let (s, found) =
      get_or_create_telegram_session o.resolve o.utc_now new_id (scoped_auth auth chat_id user_id)
        topic_id visible t in
    start_or_steer_turn o s text resumed_threads found

-- send_local; `none` is the ValueError of a channel with no name
unfoldable pub send_local :
    Outside
    → (new_id channel text : String) → (visible : Option String) → (resumed_threads : List String)
    → Tables
    → Option (Ended × State)
unfolding get_or_create_local_session save_session start_or_steer_turn
send_local o new_id channel text visible resumed_threads t =
    let name = strip (or_text visible "") in
    elim (get_or_create_local_session o.resolve o.utc_now new_id channel t) [
      | none ↦ none
      | some (s, found) ↦
          let named = record s { visible_topic_name = some name } in
          some (
            if name == ""
            then start_or_steer_turn o s text resumed_threads found
            else start_or_steer_turn o named text resumed_threads
                (save_session o.resolve o.utc_now named found))
    ]

-- what interrupt and interrupt_local do with the current session, with the turns that the server is told to
-- interrupt; the first flag says that turn_interrupt returns
unfoldable pub interrupt_current :
    Outside → (returns : Bool) → Option SessionRecord → Tables → Ended × Tables × List String
unfolding save_session
interrupt_current o returns none t = (returned false, t, [])
interrupt_current o returns (some s) t =
    let stopped = record s {
      active_turn_id = none;
      pending_output_text = "";
      status = "INTERRUPTED";
    } in
    if not (is_text s.active_turn_id)
    then (returned false, t, [])
    else if returns
    then (
      returned true,
      save_session o.resolve o.utc_now stopped t,
      or_text s.active_turn_id "" ∷ [],
    )
    else (raised, t, or_text s.active_turn_id "" ∷ [])

-- interrupt
unfoldable pub interrupt_topic :
    Outside
    → (returns : Bool) → AuthState
    → (topic_id chat_id user_id : Option ℤ) → Tables
    → Ended × Tables × List String
unfolding interrupt_current scoped_auth get_current_telegram_session
interrupt_topic o returns auth topic_id chat_id user_id t =
    interrupt_current o returns
      (get_current_telegram_session (scoped_auth auth chat_id user_id) topic_id t) t

-- interrupt_local
unfoldable pub interrupt_local :
    Outside → (returns : Bool) → (channel : String) → Tables → Ended × Tables × List String
unfolding interrupt_current get_current_local_session
interrupt_local o returns channel t =
    interrupt_current o returns (get_current_local_session channel t) t

-- the turn and what has been shown of it are forgotten, if there is something
unfoldable pub forget_turn : SessionRecord → SessionRecord
forget_turn s =
    let forgotten = record s {
      active_turn_id = none;
      pending_output_text = "";
      pending_output_updated_at = none;
      last_delivered_output_text = "";
      last_completed_turn_id = none;
      streaming_message_id = none;
      streaming_output_text = "";
      streaming_phase = "";
      thinking_message_id = none;
      thinking_message_text = "";
    } in
    if is_text s.active_turn_id
      || not (s.pending_output_text == "")
      || not (s.streaming_output_text == "")
      || not (s.thinking_message_text == "")
    then forgotten
    else s

-- the status is RECOVERING_TURN or RUNNING_TURN
unfoldable pub is_inflight : SessionRecord → Bool
is_inflight s = s.status == "RECOVERING_TURN" || s.status == "RUNNING_TURN"

module _ (parse : String → Option ℕ) (now : ℕ) where
  -- one round of the loop of recover_inflight_sessions: the session, and whether it is changed
  unfoldable pub recover_session : SessionRecord → SessionRecord × Bool
  unfolding is_inflight forget_turn is_stale_active_turn
  recover_session s =
      if not (is_inflight s)
      then (s, false)
      else if is_text s.active_turn_id && not (is_stale_active_turn parse now s)
      then (if s.status == "RUNNING_TURN"
          then (s, false)
          else (record s { status = "RUNNING_TURN" }, true))
      else (record (forget_turn s) { status = "ACTIVE" }, true)

  -- recover_inflight_sessions; `none` is the IntegrityError of save
  unfoldable pub recover_inflight_sessions :
      (resolve : Option String → SessionRecord → Workspace)
      → (utc_now : String) → Tables
      → Option Tables
  unfolding recover_session load Saving.save
  recover_inflight_sessions resolve utc_now t =
      if any (λ s. (recover_session s).1) (load t)
      then Saving.save resolve utc_now (map (λ s. (recover_session s).0) (load t)) t
      else some t
