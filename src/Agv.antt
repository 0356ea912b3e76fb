-- ===== src/Agv.antt =====
-- agv.go: a per-vehicle handle that publishes orders and instant actions.
pub mod Messages
pub mod Validation
pub mod Builder
pub mod Handle
pub mod Instant
mod Examples
