-- ===== src/Kernel.antt =====
-- src/investment_manager/kernel: identities, points in time.
pub mod Decimal
pub mod Signed
use ai_investment_manager.Prelude.{ℕ, ◌*◌, List}

-- The first argument of `stable_id` in the calls that the other modules model.
pub data Prefix : Type 0 where
  analysis_trigger analysis_trigger_plan trigger_batch : Prefix
  execution_leg group_order mock_product_order order_observation : Prefix

-- `stable_id`: a digest of its parts. Identities are only compared, so they are numbers, which
-- are ordered as the texts are.
abbrev pub StableId : Type 0
StableId = Prefix → List ℕ → ℕ

-- An instant in UTC, in microseconds.
abbrev pub Time : Type 0
Time = ℕ

-- `timedelta(seconds=n)`
abbrev pub seconds : ℕ → ℕ
seconds n = n * 1000000
