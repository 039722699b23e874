-- ===== src/Execution.antt =====
-- src/investment_manager/execution: the groups of orders, their engine and store, the venues.
pub mod Leg
pub mod Order
pub mod Group
pub mod NewGroup
pub mod Effect
pub mod Store
pub mod Venue
pub mod Engine
pub mod Change
pub mod Reversal
pub mod LegSync
pub mod Triple
pub mod MockVenue
mod Examples
