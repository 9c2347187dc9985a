-- ===== src/Workspaces/Rows.antt =====
-- src/runtime/workspaces.py: the rows of the table workspaces, with the constraints of
-- src/storage/migrations/0002_workspace_memory.sql.
use tele_cli.Prelude.{
  ℤ, String, Bool, false, ◌&&◌, ◌||◌, Option, none, some, List, [], ◌∷◌, ◌++◌, ◌==◌, string_eq,
  option_eq, int_eq, any, map, if◌then◌else◌,
}

pub record WorkspaceRecord : Type 0 where
  pub workspace_id : String
  pub workspace_kind : String
  pub relpath : String
  pub agents_md_relpath : String
  pub long_memory_relpath : Option String
  pub transport_chat_id : Option ℤ
  pub transport_topic_id : Option ℤ
  pub local_channel : Option String
  pub visible_name : Option String
  pub initialized : Bool
  pub git_initialized : Bool
  pub submodule_initialized : Bool

-- WorkspaceRecord(workspace_id, workspace_kind, relpath, agents_md_relpath), the other fields as they default
unfoldable pub new_workspace :
    (workspace_id workspace_kind relpath agents_md_relpath : String) → WorkspaceRecord
new_workspace workspace_id workspace_kind relpath agents_md_relpath = record {
  workspace_id = workspace_id;
  workspace_kind = workspace_kind;
  relpath = relpath;
  agents_md_relpath = agents_md_relpath;
  long_memory_relpath = none;
  transport_chat_id = none;
  transport_topic_id = none;
  local_channel = none;
  visible_name = none;
  initialized = false;
  git_initialized = false;
  submodule_initialized = false;
}

-- a = b of SQL, where NULL equals nothing
abbrev pub sql_equals : Option ℤ → Option ℤ → Bool
sql_equals none b = false
sql_equals (some a) none = false
sql_equals (some a) (some b) = a == b

abbrev pub sql_equals_text : Option String → Option String → Bool
sql_equals_text none b = false
sql_equals_text (some a) none = false
sql_equals_text (some a) (some b) = a == b

-- workspace_kind = 'topic' AND transport_chat_id = ? AND transport_topic_id = ?
unfoldable pub is_topic_of : Option ℤ → Option ℤ → WorkspaceRecord → Bool
is_topic_of chat_id topic_id w =
    w.workspace_kind == "topic"
    && (sql_equals w.transport_chat_id chat_id && sql_equals w.transport_topic_id topic_id)

-- local_channel = ?
unfoldable pub is_channel_of : Option String → WorkspaceRecord → Bool
is_channel_of channel w = sql_equals_text w.local_channel channel

-- The primary key, relpath TEXT UNIQUE and the three unique indices: these rows cannot stand in one table.
unfoldable pub clashes : WorkspaceRecord → WorkspaceRecord → Bool
unfolding is_topic_of is_channel_of
clashes v w =
    w.workspace_id == v.workspace_id
    || w.relpath == v.relpath
    || (v.workspace_kind == "root" && w.workspace_kind == "root")
    || (v.workspace_kind == "topic" && is_topic_of v.transport_chat_id v.transport_topic_id w)
    || is_channel_of v.local_channel w

-- _insert_workspace; `none` is the IntegrityError
unfoldable pub insert_workspace :
    WorkspaceRecord → List WorkspaceRecord → Option (List WorkspaceRecord)
unfolding clashes
insert_workspace w rows = if any (clashes w) rows then none else some (rows ++ w ∷ [])

-- _save_workspace: the columns that the UPDATE sets are all but workspace_id and workspace_kind
unfoldable pub save_workspace : WorkspaceRecord → List WorkspaceRecord → List WorkspaceRecord
save_workspace w rows =
    map
      (λ r.
        if r.workspace_id == w.workspace_id
        then record w { workspace_id = r.workspace_id; workspace_kind = r.workspace_kind }
        else r)
      rows
