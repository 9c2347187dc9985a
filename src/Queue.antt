-- ===== src/Queue.antt =====
-- src/storage/telegram_queue.py: the outbound queue of Telegram operations in the table
-- telegram_outbound_queue, and src/integrations/telegram.py as far as the queue reads its errors.
pub mod Types
pub mod Errors
pub mod Backoff
pub mod Stale
pub mod Deliver
pub mod Enqueue
pub mod ChunkKey
pub mod Outcome
pub mod Process
pub mod Invariant
pub mod Wait
mod Examples
