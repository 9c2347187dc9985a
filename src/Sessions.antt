-- ===== src/Sessions.antt =====
-- src/runtime/session_store.py: the conversations of the service, one of them attached to each Telegram
-- topic or local channel. The parts stand in the modules below, the data in Sessions/Types.
pub mod Types
pub mod Rows
pub mod Telegram
pub mod Local
pub mod Saving
pub mod Upserts
pub mod Detached
pub mod Exclusive
mod Examples
