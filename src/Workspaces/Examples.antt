-- ===== src/Workspaces/Examples.antt =====
-- A root, and the workspace of one topic, to which a second topic of the same title comes.
use tele_cli.Prelude.{pos, some, none, List, [], ◌∷◌, refl}
use tele_cli.Workspaces.Names.{sanitize_workspace_name}
use tele_cli.Workspaces.Names.Safe.{IsName, sanitize_workspace_name-IsName}
use tele_cli.Workspaces.Rows.{WorkspaceRecord, new_workspace, clashes}
use tele_cli.Workspaces.Paths.{allocate_topic_relpath}
use tele_cli.Workspaces.Paths.Free.{IsFreePath, allocate_topic_relpath-IsFreePath}
use tele_cli.Workspaces.Resolve.{get_or_create_topic_workspace}
use tele_cli.Workspaces.Resolve.Resolved.{Settled, get_or_create_topic_workspace-Settled}

abbrev root_row : WorkspaceRecord
root_row = new_workspace "r" "root" "workspace" "workspace/AGENTS.md"

abbrev bugs : WorkspaceRecord
bugs =
    record (new_workspace "w" "topic" "workspace/topics/Bugs" "workspace/topics/Bugs/AGENTS.md") {
      transport_chat_id = some (pos 7);
      transport_topic_id = some (pos 3);
      visible_name = some "Bugs";
    }

abbrev rows : List WorkspaceRecord
rows = root_row ∷ bugs ∷ []

sanitize_workspace_name-IsName_example : IsName (sanitize_workspace_name "  ../Bugs & more: 2026 ")
sanitize_workspace_name-IsName_example = sanitize_workspace_name-IsName "  ../Bugs & more: 2026 "

allocate_topic_relpath-IsFreePath_example :
    IsFreePath rows (allocate_topic_relpath rows "Bugs" (some (pos 7)) (some (pos 4)) none)
allocate_topic_relpath-IsFreePath_example =
    allocate_topic_relpath-IsFreePath rows "Bugs" (some (pos 7)) (some (pos 4)) none

get_or_create_topic_workspace-Settled_example :
    Settled
      (some (pos 7))
      (some (pos 4))
      none
      rows
      (get_or_create_topic_workspace "n" (some (pos 7)) (some (pos 4)) none (some "Bugs") rows)
unfolding new_workspace clashes
get_or_create_topic_workspace-Settled_example =
    get_or_create_topic_workspace-Settled "n" (some (pos 7)) (some (pos 4)) none (some "Bugs") rows
      tt refl (refl, (refl, tt))
