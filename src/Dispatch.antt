-- ===== src/Dispatch.antt =====
-- backend/internal/dispatch: the back half of the transactional outbox.
pub mod Backoff
pub mod Outbox
pub mod Dispatcher
pub mod Pending
pub mod Marks
pub mod Inserted
pub mod Logged
pub mod Stays
pub mod Later
pub mod Rests
pub mod Waits
mod Examples
