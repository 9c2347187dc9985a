-- ===== src/Sessions/Rows.antt =====
-- src/runtime/session_store.py: how one session is read, stabilized, bound to its workspace, saved and deleted.
use tele_cli.Prelude.{
  String, Bool, not, ◌&&◌, Option, none, some, List, [], ◌∷◌, ◌++◌, ◌==◌, string_eq, is_text, any,
  find, filter, map, strip, or_text, ◌<>◌, if◌then◌else◌, option_eq,
}
use tele_cli.Models.{SessionRecord}
use tele_cli.Sessions.Types.{
  Tables, EventRow, ShortMemory, Workspace, order_rows, is_referenced, is_prunable_detached,
}

-- SessionStore.load
unfoldable pub load : Tables → List SessionRecord
load t = order_rows t.sessions

abbrev pub has_session_id : String → SessionRecord → Bool
has_session_id session_id s = s.session_id == session_id

-- _select_single_session("WHERE session_id = ?")
unfoldable pub lookup : String → List SessionRecord → Option SessionRecord
lookup session_id rows = find (has_session_id session_id) rows

unfoldable pub thread_of : Option SessionRecord → Option String
thread_of none = none
thread_of (some existing) = existing.thread_id

-- SessionStore._stabilize_session: the thread is taken from the row that is there, and a turn without
-- a thread is dropped
unfoldable pub adopt_thread : SessionRecord → Option SessionRecord → SessionRecord
unfolding thread_of
adopt_thread s existing =
    if is_text s.active_turn_id && not (is_text s.thread_id) && is_text (thread_of existing)
    then record s { thread_id = thread_of existing }
    else s

unfoldable pub without_turn : (status : String) → String
without_turn status = if status == "RUNNING_TURN" then "ACTIVE" else status

unfoldable pub drop_turn : SessionRecord → SessionRecord
unfolding without_turn
drop_turn s =
    if is_text s.active_turn_id && not (is_text s.thread_id)
    then record s { active_turn_id = none; status = without_turn s.status }
    else s

unfoldable pub stabilize_session : SessionRecord → Option SessionRecord → SessionRecord
unfolding adopt_thread drop_turn
stabilize_session s existing = drop_turn (adopt_thread s existing)

-- WorkspaceManager.bind_session, with the workspace that it has resolved
unfoldable pub bind_session : Workspace → (visible : Option String) → SessionRecord → SessionRecord
bind_session w visible s = record s {
  workspace_id = some w.workspace_id;
  workspace_kind = some w.workspace_kind;
  workspace_relpath = some w.relpath;
  agents_md_relpath = some w.agents_md_relpath;
  long_memory_relpath = w.long_memory_relpath;
  visible_topic_name =
      if is_text visible && not (strip (or_text visible "") == "")
      then some (strip (or_text visible ""))
      else if is_text w.visible_name
      then w.visible_name
      else s.visible_topic_name;
}

-- INSERT INTO sessions … ON CONFLICT(session_id) DO UPDATE of every other column
unfoldable pub upsert_row : SessionRecord → List SessionRecord → List SessionRecord
upsert_row s rows =
    if any (has_session_id s.session_id) rows
    then map (λ r. if r.session_id == s.session_id then s else r) rows
    else rows ++ s ∷ []

-- the insertion into session_short_memory of _upsert_session and _touch_short_memory
unfoldable pub touch_short_memory : (now : String) → String → List ShortMemory → List ShortMemory
touch_short_memory now session_id rows =
    let row : ShortMemory = record {
      session_id = session_id;
      short_memory_relpath = "memory/sessions/" <> session_id <> ".short_memory.md";
      updated_at = now;
    } in
    if any (λ r. r.session_id == session_id) rows
    then map (λ r. if r.session_id == session_id then row else r) rows
    else rows ++ row ∷ []

-- _upsert_session
unfoldable pub upsert_session : (now : String) → SessionRecord → Tables → Tables
unfolding upsert_row touch_short_memory
upsert_session now s t = record t {
  sessions = upsert_row s t.sessions;
  short_memory = touch_short_memory now s.session_id t.short_memory;
}

-- _log_session_event and the like; the session that an event names is in the table
unfoldable pub log_event : String → Option String → Tables → Tables
log_event event_type session_id t = record t {
  events =
      t.events
      ++ record { source = "session"; event_type = event_type; session_id = session_id } ∷ [];
}

-- `resolve` is WorkspaceManager.resolve_workspace_for_session, `now` is utc_now()
module _ (resolve : Option String → SessionRecord → Workspace) (now : String) where
  -- the row that save_session writes
  unfoldable pub saved_row : SessionRecord → Tables → SessionRecord
  unfolding stabilize_session bind_session lookup
  saved_row s t =
      let stabilized = stabilize_session s (lookup s.session_id t.sessions) in
      bind_session (resolve none stabilized) none stabilized

  -- SessionStore.save_session
  unfoldable pub save_session : SessionRecord → Tables → Tables
  unfolding saved_row upsert_session
  save_session s t = upsert_session now (saved_row s t) t

-- one of the sessions that _delete_prunable_session_ids may delete, when the events are these
unfoldable pub is_deletable : List String → List EventRow → Tables → SessionRecord → Bool
unfolding is_referenced
is_deletable ids events t s =
    any (λ i. i == s.session_id) ids
    && not (is_referenced t.approvals s.session_id)
    && not (is_referenced t.traces s.session_id)
    && not (is_referenced (map (λ e. e.session_id) events) s.session_id)
    && not (is_referenced t.message_groups s.session_id)

-- the UPDATE of events
unfoldable pub release_events : List String → List EventRow → List EventRow
release_events ids events =
    map
      (λ e.
        if e.source == "session" && any (λ i. some i == e.session_id) ids
        then record e { session_id = none }
        else e)
      events

-- SessionStore._delete_prunable_session_ids; `none` is the IntegrityError of a row of the outbound
-- queue that refers to a session to be deleted, after which the tables are as before
unfoldable pub delete_prunable_session_ids : List String → Tables → Option Tables
unfolding is_deletable release_events is_referenced
delete_prunable_session_ids [] t = some t
delete_prunable_session_ids (i ∷ ids) t =
    let events = release_events (i ∷ ids) t.events in
    let gone = is_deletable (i ∷ ids) events t in
    if any (λ s. gone s && is_referenced t.outbound_queue s.session_id) t.sessions
    then none
    else some (record t {
      sessions = filter (λ s. not (gone s)) t.sessions;
      short_memory =
          filter (λ m. not (any (λ s. gone s && s.session_id == m.session_id) t.sessions))
            t.short_memory;
      events = events;
    })

-- the ids that create_new_telegram_session and create_new_local_session pass to it
unfoldable pub prunable_ids : Tables → List String
unfolding load is_prunable_detached
prunable_ids t = map (λ s. s.session_id) (filter is_prunable_detached (load t))
