-- ===== src/Sessions/Types.antt =====
-- The tables that src/runtime/session_store.py reads and writes, and the predicates on a session.
use tele_cli.Prelude.{
  String, Bool, true, false, not, ◌&&◌, ◌||◌, Option, none, some, List, [], ◌∷◌, ◌==◌, string_eq,
  option_eq, int_eq, nat_eq, any, if◌then◌else◌, ℤ,
}
use Prim.Native.Nat.{Ordering}
use Prim.Native.String.{compare}
use tele_cli.Models.{SessionRecord, AuthState}

-- a row of session_short_memory
pub record ShortMemory : Type 0 where
  pub session_id : String
  pub short_memory_relpath : String
  pub updated_at : String

-- a row of events, as far as the session store looks at it
pub record EventRow : Type 0 where
  pub source : String
  pub event_type : String
  pub session_id : Option String

-- The tables. A row of sessions is kept as the SessionRecord that it is read as. Of the other tables
-- with a reference to sessions there is the column session_id.
pub record Tables : Type 0 where
  pub sessions : List SessionRecord
  pub short_memory : List ShortMemory
  pub events : List EventRow
  pub approvals : List (Option String)
  pub traces : List (Option String)
  pub message_groups : List (Option String)
  pub outbound_queue : List (Option String)

-- the columns of a WorkspaceRecord that bind_session of src/runtime/workspaces.py copies
pub record Workspace : Type 0 where
  pub workspace_id : String
  pub workspace_kind : String
  pub relpath : String
  pub agents_md_relpath : String
  pub long_memory_relpath : Option String
  pub visible_name : Option String

-- SessionStore.is_writable
unfoldable pub is_writable : SessionRecord → Bool
is_writable session =
    session.attached
    && (session.status == "ACTIVE"
        || session.status == "RUNNING_TURN"
        || session.status == "INTERRUPTED"
        || session.status == "DELIVERING_FINAL")

-- SessionStore.is_recoverable
unfoldable pub is_recoverable : SessionRecord → Bool
is_recoverable session =
    session.status == "ACTIVE"
    || session.status == "RUNNING_TURN"
    || session.status == "INTERRUPTED"
    || session.status == "RECOVERING_TURN"
    || session.status == "DELIVERING_FINAL"

is_absent : Option String → Bool
is_absent none = true
is_absent (some s) = false

-- SessionStore.is_prunable_detached
unfoldable pub is_prunable_detached : SessionRecord → Bool
unfolding is_absent
is_prunable_detached session =
    not session.attached && is_absent session.active_turn_id && session.pending_output_text == ""

-- SessionStore._matches_transport
unfoldable pub matches_transport : AuthState → (topic_id : Option ℤ) → SessionRecord → Bool
matches_transport auth topic_id session =
    session.transport == "telegram"
    && session.transport_chat_id == auth.telegram_chat_id
    && session.transport_topic_id == topic_id

-- SessionStore._matches_local_channel
unfoldable pub matches_local_channel : String → SessionRecord → Bool
matches_local_channel channel session =
    session.transport == "local" && session.transport_channel == some channel

-- ORDER BY created_at, session_id
unfoldable pub is_ordered : SessionRecord → SessionRecord → Bool
is_ordered a b = elim (compare a.created_at b.created_at) [
  | Ordering.lt ↦ true
  | Ordering.gt ↦ false
  | Ordering.eq ↦ elim (compare a.session_id b.session_id) [ Ordering.gt ↦ false | _ ↦ true ]
]

unfoldable pub insert_ordered : SessionRecord → List SessionRecord → List SessionRecord
insert_ordered s [] = s ∷ []
insert_ordered s (r ∷ rows) =
    let rest = insert_ordered s rows in if is_ordered s r then s ∷ r ∷ rows else r ∷ rest

unfoldable pub order_rows : List SessionRecord → List SessionRecord
order_rows [] = []
order_rows (s ∷ rows) = insert_ordered s (order_rows rows)

-- a reference to this session is among the values of a column
unfoldable pub is_referenced : List (Option String) → String → Bool
is_referenced column session_id = any (λ r. r == some session_id) column
