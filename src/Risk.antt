-- ===== src/Risk.antt =====
-- src/investment_manager/risk/portfolio.py: how the risk engine sizes the sleeves of a target.
pub mod Policy
pub mod Exposure
pub mod Evaluate
pub mod Scale
pub mod Reduced
pub mod Holding
mod Examples
