-- ===== src/Sessions/Saving.antt =====
-- src/runtime/session_store.py: the queries over all topics, the write of a whole state, and what calls it.
pub mod Written
use tele_cli.Prelude.{
  ℕ, ◌-◌, String, Bool, not, ◌&&◌, Option, none, some, List, [], ◌∷◌, ◌==◌, string_eq, option_eq,
  nat_eq, any, find, filter, map, length, is_text, if◌then◌else◌,
}
use tele_cli.Models.{SessionRecord}
use tele_cli.Sessions.Types.{Tables, Workspace, is_referenced, is_prunable_detached}
use tele_cli.Sessions.Rows.{load, bind_session, upsert_session, log_event}

-- list_all_telegram_sessions
unfoldable pub list_all_telegram_sessions : Tables → List SessionRecord
unfolding load
list_all_telegram_sessions t = filter (λ s. s.transport == "telegram") (load t)

-- find_by_turn_id, find_by_thread_id and find_by_completed_turn_id: the first row of the table
unfoldable pub find_by_turn_id : String → Tables → Option SessionRecord
find_by_turn_id turn_id t = find (λ s. s.active_turn_id == some turn_id) t.sessions

unfoldable pub find_by_thread_id : String → Tables → Option SessionRecord
find_by_thread_id thread_id t = find (λ s. s.thread_id == some thread_id) t.sessions

unfoldable pub find_by_completed_turn_id : String → Tables → Option SessionRecord
find_by_completed_turn_id turn_id t =
    find (λ s. s.last_completed_turn_id == some turn_id) t.sessions

-- a row that the DELETE of save removes, where these are the ids of the state
unfoldable pub is_dropped : (ids : List String) → Tables → SessionRecord → Bool
unfolding is_referenced
is_dropped ids t s =
    not (any (λ i. i == s.session_id) ids)
    && not (is_referenced t.approvals s.session_id)
    && not (is_referenced t.traces s.session_id)
    && not (is_referenced (map (λ e. e.session_id) t.events) s.session_id)
    && not (is_referenced t.message_groups s.session_id)

-- the loop of save that upserts
unfoldable pub upsert_all : (now : String) → List SessionRecord → Tables → Tables
unfolding upsert_session
upsert_all now [] t = t
upsert_all now (s ∷ sessions) t = upsert_all now sessions (upsert_session now s t)

-- the session.recovered events of mark_recovering_turns
log_recovered : List SessionRecord → Tables → Tables
unfolding log_event
log_recovered [] t = t
log_recovered (s ∷ sessions) t =
    log_recovered sessions (log_event "session.recovered" (some s.session_id) t)

-- a session that mark_recovering_turns changes
unfoldable pub is_running : SessionRecord → Bool
is_running s = s.status == "RUNNING_TURN" && is_text s.active_turn_id

as_recovering : SessionRecord → SessionRecord
as_recovering s = record s { status = "RECOVERING_TURN" }

module _ (resolve : Option String → SessionRecord → Workspace) (now : String) where
  -- SessionStore.save; `none` is the IntegrityError of a row of the outbound queue that refers to a row
  -- to be deleted
  unfoldable pub save : List SessionRecord → Tables → Option Tables
  unfolding is_dropped is_referenced upsert_all bind_session
  save sessions t =
      let gone = is_dropped (map (λ s. s.session_id) sessions) t in
      if any (λ s. gone s && is_referenced t.outbound_queue s.session_id) t.sessions
      then none
      else some (
          upsert_all now (map (λ s. bind_session (resolve none s) none s) sessions) (record t {
            sessions = filter (λ s. not (gone s)) t.sessions;
            short_memory =
                filter (λ m. not (any (λ s. gone s && s.session_id == m.session_id) t.sessions))
                  t.short_memory;
          }))

  -- prune_detached_sessions
  unfoldable pub prune_detached_sessions : Tables → Option (ℕ × Tables)
  unfolding save load is_prunable_detached
  prune_detached_sessions t =
      let kept = filter (λ s. not (is_prunable_detached s)) (load t) in
      if length (load t) - length kept == 0 then some (0, t) else elim (save kept t) [
        | none ↦ none
        | some after ↦ some (length (load t) - length (load after), after)
      ]

  -- mark_recovering_turns: the sessions that it returns, and the tables
  unfoldable pub mark_recovering_turns : Tables → Option (List SessionRecord × Tables)
  unfolding save load is_running as_recovering log_recovered
  mark_recovering_turns t =
      let marked = map (λ s. if is_running s then as_recovering s else s) (load t) in
      let recovering = map as_recovering (filter is_running (load t)) in
      if any is_running (load t)
      then elim (save marked t) [
        | none ↦ none
        | some after ↦ some (recovering, log_recovered recovering after)
      ]
      else some ([], t)
