-- ===== src/Accounting.antt =====
-- execution/group/accounting.py: the account that the visible facts of the orders determine.
pub mod Error
pub mod Position
pub mod History
pub mod Funding
pub mod Valuation
pub mod Projector
mod Examples
