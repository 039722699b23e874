-- ===== src/Accounting/Error.antt =====
-- The exceptions of execution/group/accounting.py and of the models it builds; market/models.py:
-- `InstrumentProduct.SPOT`.
use ai_investment_manager.Prelude.{ℕ, Bool, ◌==◌}
use ai_investment_manager.Execution.Leg.{InstrumentId}

-- The exceptions of the accounting; `unpriced` is a failed `assert`.
pub data AccountError : Type 0 where
  unpriced missing_key spot_negative groups_repeated sleeves_repeated quotes_unordered :
      AccountError
  observations_uncovered observation_outside observation_foreign observation_regressed :
      AccountError
  funding_unordered sleeve_missing quote_missing cash_negative previous_foreign : AccountError
  field_invalid attribution_unreconciled leg_direction legs_outside high_water_low observed_late :
      AccountError
  entries_unordered sleeves_unreconciled equity_unreconciled : AccountError

-- `InstrumentProduct.SPOT`, as a number.
abbrev pub spot_product : ℕ
spot_product = 0

abbrev pub is_spot : InstrumentId → Bool
is_spot instrument = instrument.product == spot_product
