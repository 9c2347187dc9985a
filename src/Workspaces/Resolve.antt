-- ===== src/Workspaces/Resolve.antt =====
-- src/runtime/workspaces.py: the workspace of the root, of a topic or channel, and of a session.
pub mod Kept
pub mod Resolved
use tele_cli.Prelude.{
  ℤ, String, Bool, true, false, Option, none, some, List, [], ◌∷◌, ◌==◌, string_eq, option_eq, find,
  is_text, or_text, strip, ◌<>◌, if◌then◌else◌, ◌≡◌, refl,
}
use tele_cli.Models.{SessionRecord}
use tele_cli.Sessions.Types.{Workspace}
use tele_cli.Workspaces.Names.{default_topic_name, workspace_topic_name}
use tele_cli.Workspaces.Rows.{
  WorkspaceRecord, new_workspace, is_topic_of, is_channel_of, insert_workspace, save_workspace,
}
use tele_cli.Workspaces.Paths.{allocate_topic_relpath}

-- how an operation ends: with the ValueError, with the IntegrityError of an INSERT, or never
pub data Resolution : Type 0 where
  resolved : WorkspaceRecord → Resolution
  value_error integrity_error endless : Resolution

-- the lines that insert a new workspace and return it
unfoldable pub insert_new :
    WorkspaceRecord → List WorkspaceRecord → Resolution × List WorkspaceRecord
unfolding insert_workspace
insert_new w rows = elim (insert_workspace w rows) [
  | none ↦ (integrity_error, rows)
  | some after ↦ (resolved w, after)
]

-- get_or_create_root_workspace; `new_id` is uuid4()
unfoldable pub get_or_create_root_workspace :
    (new_id : String) → List WorkspaceRecord → Resolution × List WorkspaceRecord
unfolding insert_new new_workspace
get_or_create_root_workspace new_id rows = elim (find (λ w. w.workspace_kind == "root") rows) [
  | some w ↦ (resolved w, rows)
  | none ↦
      insert_new
        (record (new_workspace new_id "root" "workspace" "workspace/AGENTS.md") {
          long_memory_relpath = some "workspace/long_memory.md";
        })
        rows
]

-- (visible_name or workspace.visible_name or "").strip() or workspace.visible_name
unfoldable pub updated_name : (visible_name current : Option String) → Option String
unfolding strip
updated_name visible_name current =
    let name = strip (or_text visible_name (or_text current "")) in
    if name == "" then current else some name

-- what is done with the row that is found
unfoldable pub reuse :
    (visible_name : Option String)
    → WorkspaceRecord
    → List WorkspaceRecord
    → Resolution × List WorkspaceRecord
unfolding updated_name save_workspace
reuse visible_name w rows =
    let name = updated_name visible_name w.visible_name in
    let renamed = record w { visible_name = name } in
    if name == w.visible_name
    then (resolved w, rows)
    else (resolved renamed, save_workspace renamed rows)

-- the lines behind the two queries, which create the workspace of a topic or channel
unfoldable pub create_topic :
    (new_id : String)
    → (chat_id topic_id : Option ℤ) → (local_channel visible_name : Option String)
    → List WorkspaceRecord
    → Resolution × List WorkspaceRecord
unfolding insert_new new_workspace default_topic_name allocate_topic_relpath strip
create_topic new_id chat_id topic_id local_channel visible_name rows =
    let stripped = strip (or_text visible_name "") in
    let topic_name = if stripped == "" then default_topic_name topic_id else stripped in
    elim (allocate_topic_relpath rows topic_name chat_id topic_id local_channel) [
      | none ↦ (endless, rows)
      | some relpath ↦
          insert_new
            (record (new_workspace new_id "topic" relpath (relpath <> "/AGENTS.md")) {
              transport_chat_id = chat_id;
              transport_topic_id = topic_id;
              local_channel = local_channel;
              visible_name = some topic_name;
            })
            rows
    ]

-- the two queries; with a chat and no topic, none is made
unfoldable pub find_workspace :
    (chat_id topic_id : Option ℤ)
    → (local_channel : Option String) → List WorkspaceRecord
    → Option WorkspaceRecord
unfolding is_channel_of is_topic_of
find_workspace chat_id topic_id (some channel) rows = find (is_channel_of (some channel)) rows
find_workspace chat_id topic_id none rows = find (is_topic_of chat_id topic_id) rows

-- get_or_create_topic_workspace
unfoldable pub get_or_create_topic_workspace :
    (new_id : String)
    → (chat_id topic_id : Option ℤ) → (local_channel visible_name : Option String)
    → List WorkspaceRecord
    → Resolution × List WorkspaceRecord
unfolding find_workspace reuse create_topic
get_or_create_topic_workspace new_id none topic_id none visible_name rows = (value_error, rows)
get_or_create_topic_workspace new_id chat_id topic_id local_channel visible_name rows =
    elim (find_workspace chat_id topic_id local_channel rows) [
      | some w ↦ reuse visible_name w rows
      | none ↦ create_topic new_id chat_id topic_id local_channel visible_name rows
    ]

-- resolve_workspace_for_session
unfoldable pub resolve_workspace_for_session :
    (new_id : String)
    → SessionRecord
    → (visible : Option String) → List WorkspaceRecord
    → Resolution × List WorkspaceRecord
unfolding get_or_create_root_workspace get_or_create_topic_workspace workspace_topic_name strip
resolve_workspace_for_session new_id s visible rows =
    let stripped = strip (or_text s.transport_channel "main") in
    let channel = if stripped == "" then "main" else stripped in
    if s.transport == "local"
    then (if channel == "main"
        then get_or_create_root_workspace new_id rows
        else get_or_create_topic_workspace new_id none none (some channel)
            (some (or_text (workspace_topic_name s visible) channel)) rows)
    else elim s.transport_topic_id [
      | none ↦ get_or_create_root_workspace new_id rows
      | some topic_id ↦
          get_or_create_topic_workspace new_id s.transport_chat_id (some topic_id) none
            (workspace_topic_name s visible) rows
    ]

-- the columns of a WorkspaceRecord that bind_session copies
unfoldable pub as_workspace : WorkspaceRecord → Workspace
as_workspace w = record {
  workspace_id = w.workspace_id;
  workspace_kind = w.workspace_kind;
  relpath = w.relpath;
  agents_md_relpath = w.agents_md_relpath;
  long_memory_relpath = w.long_memory_relpath;
  visible_name = w.visible_name;
}
