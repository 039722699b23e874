-- ===== src/Scheduling.antt =====
-- src/investment_manager/scheduling: trigger events, the trigger plan and its gate, the timing and
-- the batches of the coordinator.
pub mod Event
pub mod Plan
pub mod Gate
pub mod Batch
mod Examples
pub mod Timing
pub mod Admission
pub mod Coordinator
