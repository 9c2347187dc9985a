-- ===== src/Workspaces.antt =====
-- src/runtime/workspaces.py: which directory belongs to a conversation. Names has the names of directories, Rows
-- the table of workspaces, Paths the directory of a new topic, Resolve the workspace of a topic, of a
-- channel and of a session. Files, git and the events that are logged are left out.
pub mod Names
pub mod Rows
pub mod Paths
pub mod Resolve
mod Examples
