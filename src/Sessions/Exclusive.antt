-- ===== src/Sessions/Exclusive.antt =====
-- src/runtime/session_store.py: at most one session is attached to a topic.
use tele_cli.Prelude.{
  ◌≡◌, subst, refl, ◌≢◌, sym, String, Bool, true, Option, none, some, List, [], ◌∷◌, string_eq,
  filter, All-mono, WhenSome, ℤ,
}
use mathlib.Core.List.{Memᴰ}
use tele_cli.Models.{SessionRecord, AuthState, new_session}
use tele_cli.Sessions.Types.{Tables, Workspace, matches_transport}
use tele_cli.Sessions.Rows.{
  load, lookup, bind_session, saved_row, log_event, delete_prunable_session_ids, prunable_ids,
}
use tele_cli.Sessions.Upserts.{IsStable, saved_row_lem, save_session-lookup}
use tele_cli.Sessions.Telegram.{
  detach_matching, log_replaced, replace_pruned, replace_session, store_new, telegram_session,
  create_new_telegram_session, normalized_name,
}
use tele_cli.Sessions.Detached.{
  is_open, Only, Left, save-All, ordered-Left, detach_matching-Left, delete-Left,
}

log_replaced-sessions :
    (i : String) (replaced : List SessionRecord) (t : Tables)
    → (log_replaced i replaced t).sessions ≡ t.sessions
unfolding log_replaced log_event
log_replaced-sessions i [] t = refl
log_replaced-sessions i (s ∷ replaced) t = log_replaced-sessions i replaced _

module _ (resolve : Option String → SessionRecord → Workspace) (now : String)
    (is_match : SessionRecord → Bool) (visible : Option String) (s : SessionRecord) where
  store_new-Only :
      (t : Tables)
      → Left is_match [] t.sessions
      → Only is_match s.session_id (store_new resolve now visible s t).1.sessions
  unfolding store_new log_event Left Only
  store_new-Only t h =
      save-All resolve now is_match (λ r. is_open is_match r ≡ true → r.session_id ≡ s.session_id) s
        t (λ o. (saved_row_lem resolve now s t).1)
        (All-mono (λ r. is_open is_match r ≡ true → Memᴰ r [])
          (λ r.
            r.session_id ≢ s.session_id → is_open is_match r ≡ true → r.session_id ≡ s.session_id)
          t.sessions (λ r m n o. elim (m o) [ ]) h)

  -- the session is in the table, under its id, with its transport, attached as it is
  pub StoredRow : SessionRecord → List SessionRecord → Type 0
  StoredRow bound rows =
      (bound.session_id ≡ s.session_id)
      × ((row : SessionRecord) × (lookup s.session_id rows ≡ some row)
          × IsStable row
          × (row.transport ≡ s.transport)
          × (row.attached ≡ s.attached))

  -- Nothing else that matches is attached, and a session that is returned is in the table.
  pub Stored : Option SessionRecord × Tables → Type 0
  Stored r =
      Only is_match s.session_id r.1.sessions × WhenSome (λ bound. StoredRow bound r.1.sessions) r.0

  none-Only : (rows : List SessionRecord) → Left is_match [] rows → Only is_match s.session_id rows
  unfolding Left Only
  none-Only rows h =
      All-mono (λ r. is_open is_match r ≡ true → Memᴰ r [])
        (λ r. is_open is_match r ≡ true → r.session_id ≡ s.session_id) rows
        (λ r m o. elim (m o) [ ]) h

  replace_pruned-Stored :
      (o : Option Tables) (replaced : List SessionRecord) (detached : Tables)
      → Left is_match [] detached.sessions
      → WhenSome (λ after. Left is_match [] after.sessions) o
      → Stored (replace_pruned resolve now o replaced visible s detached)
  unfolding replace_pruned Stored StoredRow store_new log_event bind_session
  replace_pruned-Stored none replaced detached l h = (none-Only detached.sessions l, tt)
  replace_pruned-Stored (some pruned) replaced detached l h =
      let created = (store_new resolve now visible s pruned).1 in
      let saved = save_session-lookup resolve now s pruned in
      subst
        (λ rows.
          Only is_match s.session_id rows
          × StoredRow (store_new resolve now visible s pruned).0 rows)
        (sym (log_replaced-sessions s.session_id replaced created))
        (
          store_new-Only pruned h,
          (refl, (saved_row resolve now s pruned, saved.0, saved.2, saved.4, saved.5)),
        )

  pub replace_session-Stored :
      (t : Tables) → Stored (replace_session resolve now is_match visible s t)
  unfolding replace_session load
  replace_session-Stored t =
      let detached = detach_matching resolve now is_match (load t) t in
      let closed =
        detach_matching-Left resolve now is_match (load t) t (ordered-Left is_match t.sessions) in
      replace_pruned-Stored (delete_prunable_session_ids (prunable_ids detached) detached)
        (filter is_match (load t)) detached closed
        (delete-Left is_match (prunable_ids detached) detached closed)

module _ (resolve : Option String → SessionRecord → Workspace) (now new_id : String)
    (auth : AuthState) (topic_id : Option ℤ) (visible : Option String) (t : Tables) where
  -- After create_new_telegram_session no session of the topic is attached but the one with the new id,
  -- also where it ends with an IntegrityError. Where it returns a session, that one has the new id and
  -- stands in the table, as an attached Telegram session whose turn, if it has one, has a thread.
  pub create_new_telegram_session-Only :
      let (result, after) =
        create_new_telegram_session resolve now new_id auth topic_id visible t in
      Only (matches_transport auth topic_id) new_id after.sessions
      × WhenSome
          (λ bound.
            (bound.session_id ≡ new_id)
            × ((row : SessionRecord) × (lookup new_id after.sessions ≡ some row)
                × IsStable row
                × (row.transport ≡ "telegram")
                × (row.attached ≡ true)))
          result
  unfolding create_new_telegram_session telegram_session new_session Stored StoredRow
  create_new_telegram_session-Only =
      let name = normalized_name visible in
      replace_session-Stored resolve now (matches_transport auth topic_id) name
        (telegram_session new_id now auth topic_id name) t
