-- ===== src/Turns.antt =====
-- src/runtime/app_server_runtime.py: how a message of the operator becomes a turn of the agent. Stale tells a turn
-- that has died, Input is what the agent is given, Calls the calls of the agent's server, Dispatch the start or the
-- steering of a turn, Sends what calls it, the interrupts and the recovery at a start of the service, Recovery
-- what that leaves.
pub mod Stale
pub mod Input
pub mod Calls
pub mod Dispatch
pub mod Sends
pub mod Recovery
mod Examples
