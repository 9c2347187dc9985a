-- ===== src/Agent.antt =====
-- src/runtime/app_server_runtime.py and src/runtime/service.py: the agent's process. Json is what the server answers, States
-- what is concluded from it, Start the start of a session with the server, Supervise the restarts.
pub mod Json
pub mod States
pub mod Start
pub mod Supervise
mod Examples
