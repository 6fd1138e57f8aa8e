-- ===== src/Order.antt =====
-- backend/internal/domain/order: the order aggregate, its snapshot, its floor updates.
pub mod Types
pub mod Status
pub mod Snapshot
pub mod Aggregate
pub mod Floor
pub mod Edges
pub mod History
pub mod Forward
pub mod Replay
pub mod Returned
pub mod Announced
pub mod Intake
pub mod Closed
pub mod Examples
