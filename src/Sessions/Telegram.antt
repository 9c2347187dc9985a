-- ===== src/Sessions/Telegram.antt =====
-- src/runtime/session_store.py: the operations that find, replace and create a session. Those on a Telegram
-- topic and on a local channel differ in the test of a match and in the visible name.
use tele_cli.Prelude.{
  String, Bool, false, not, ◌&&◌, Option, none, some, List, [], ◌∷◌, ◌==◌, string_eq, is_text,
  get_last?, find, filter, strip, or_text, if◌then◌else◌, ℤ, option_eq,
}
use tele_cli.Models.{SessionRecord, AuthState, new_session}
use tele_cli.Sessions.Types.{
  Tables, Workspace, matches_transport, matches_local_channel, is_writable,
}
use tele_cli.Sessions.Rows.{
  load, bind_session, save_session, touch_short_memory, log_event, delete_prunable_session_ids,
  prunable_ids,
}

-- (visible_topic_name or "").strip() or None
unfoldable pub normalized_name : Option String → Option String
normalized_name visible =
    let name = strip (or_text visible "") in if name == "" then none else some name

-- next((s for s in matching if is_writable(s)), None), else matching[-1]
unfoldable pub attached_match : (SessionRecord → Bool) → List SessionRecord → Option SessionRecord
unfolding is_writable
attached_match is_match rows =
    let matching = filter (λ s. is_match s && s.attached) rows in
    elim (find is_writable matching) [ some s ↦ some s | none ↦ get_last? matching ]

-- the SessionRecord(...) of the telegram operations
unfoldable pub telegram_session :
    (new_id now : String) → AuthState → (topic_id : Option ℤ) → Option String → SessionRecord
unfolding new_session
telegram_session new_id now auth topic_id visible =
    record (new_session new_id "telegram" auth.telegram_user_id auth.telegram_chat_id now) {
      transport_topic_id = topic_id;
      visible_topic_name = visible;
    }

-- the SessionRecord(...) of the local operations
unfoldable pub local_session : (new_id now channel : String) → SessionRecord
unfolding new_session
local_session new_id now channel = record (new_session new_id "local" none none now) {
  transport_channel = some channel;
}

-- the session.replaced events, one for each session that the loop has detached
unfoldable pub log_replaced : String → List SessionRecord → Tables → Tables
unfolding log_event
log_replaced new_id [] t = t
log_replaced new_id (s ∷ replaced) t =
    log_replaced new_id replaced (log_event "session.replaced" (some new_id) t)

module _ (resolve : Option String → SessionRecord → Workspace) (now : String) where
  -- the new visible name of a reused session
  unfoldable pub rename : Option String → SessionRecord → Tables → SessionRecord × Tables
  unfolding save_session
  rename visible s t =
      if is_text visible && not (s.visible_topic_name == visible)
      then (let renamed = record s { visible_topic_name = visible } in
          (renamed, save_session resolve now renamed t))
      else (s, t)

  -- the lines from save_session(session) to the session.created event
  unfoldable pub store_new : Option String → SessionRecord → Tables → SessionRecord × Tables
  unfolding save_session bind_session touch_short_memory log_event
  store_new visible s t =
      let saved = save_session resolve now s t in
      let touched = record saved {
        short_memory = touch_short_memory now s.session_id saved.short_memory;
      } in
      (
        bind_session (resolve visible s) visible s,
        log_event "session.created" (some s.session_id) touched,
      )

  -- get_or_create_telegram_session
  unfoldable pub get_or_create_telegram_session :
      (new_id : String)
      → AuthState
      → (topic_id : Option ℤ) → (visible : Option String) → Tables
      → SessionRecord × Tables
  unfolding normalized_name attached_match rename store_new telegram_session load log_event
  get_or_create_telegram_session new_id auth topic_id visible t =
      let name = normalized_name visible in
      elim (attached_match (matches_transport auth topic_id) (load t)) [
        | some s ↦
            let (renamed, after) = rename name s t in
            (renamed, log_event "session.reused" (some s.session_id) after)
        | none ↦ store_new name (telegram_session new_id now auth topic_id name) t
      ]

  -- get_or_create_local_session; `none` is its ValueError
  unfoldable pub get_or_create_local_session :
      (new_id : String) → (channel : String) → Tables → Option (SessionRecord × Tables)
  unfolding attached_match store_new local_session load log_event
  get_or_create_local_session new_id channel t =
      if strip channel == ""
      then none
      else some (elim (attached_match (matches_local_channel (strip channel)) (load t)) [
        | some s ↦ (s, log_event "session.reused" (some s.session_id) t)
        | none ↦ store_new none (local_session new_id now (strip channel)) t
      ])

  -- the loop that detaches the sessions that match; the first list is what is left of state.sessions
  unfoldable pub detach_matching : (SessionRecord → Bool) → List SessionRecord → Tables → Tables
  unfolding save_session log_event
  detach_matching is_match [] t = t
  detach_matching is_match (s ∷ rest) t =
      let saved = save_session resolve now (record s { attached = false }) t in
      detach_matching is_match rest
        (if is_match s then log_event "session.detached" none saved else t)

  -- the lines behind _delete_prunable_session_ids, which gives the first argument; the last one has the
  -- changes that are committed before it
  unfoldable pub replace_pruned :
      Option Tables
      → (replaced : List SessionRecord) → Option String
      → SessionRecord
      → Tables
      → Option SessionRecord × Tables
  unfolding store_new log_replaced
  replace_pruned none replaced visible s detached = (none, detached)
  replace_pruned (some pruned) replaced visible s detached =
      let (bound, created) = store_new visible s pruned in
      (some bound, log_replaced s.session_id replaced created)

  -- what the two operations below share; `none` is the IntegrityError
  unfoldable pub replace_session :
      (SessionRecord → Bool)
      → Option String
      → SessionRecord
      → Tables
      → Option SessionRecord × Tables
  unfolding load detach_matching delete_prunable_session_ids prunable_ids replace_pruned
  replace_session is_match visible s t =
      let detached = detach_matching is_match (load t) t in
      replace_pruned (delete_prunable_session_ids (prunable_ids detached) detached)
        (filter is_match (load t)) visible s detached

  -- create_new_telegram_session
  unfoldable pub create_new_telegram_session :
      (new_id : String)
      → AuthState
      → (topic_id : Option ℤ) → (visible : Option String) → Tables
      → Option SessionRecord × Tables
  unfolding normalized_name replace_session telegram_session
  create_new_telegram_session new_id auth topic_id visible t =
      let name = normalized_name visible in
      replace_session (matches_transport auth topic_id) name
        (telegram_session new_id now auth topic_id name) t

  -- create_new_local_session, behind the test of the channel's name
  unfoldable pub create_new_local_session :
      (new_id : String) → (channel : String) → Tables → Option (Option SessionRecord × Tables)
  unfolding replace_session local_session
  create_new_local_session new_id channel t =
      if strip channel == ""
      then none
      else some (
          replace_session (matches_local_channel (strip channel)) none
            (local_session new_id now (strip channel)) t)
