-- ===== src/StoreStatus.antt =====
-- backend/internal/domain/storestatus/status.go: whether a store takes orders, and when.
pub mod Hours
pub mod Schedule
pub mod Status
pub mod Slots
pub mod Ceiling
pub mod Opens
pub mod Promised
pub mod Offered
pub mod Computed
mod Examples
