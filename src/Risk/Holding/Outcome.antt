-- ===== src/Risk/Holding/Outcome.antt =====
-- risk/portfolio.py: what the outcome of `PortfolioRiskEngine.review_holding` says.
use ai_investment_manager.Prelude.{Bool, not, ◌&&◌}
use ai_investment_manager.Prelude.Dict.{Dict}
use ai_investment_manager.Risk.Exposure.{Exposure}
use ai_investment_manager.Risk.Holding.{RuleResult, is_gating}

abbrev pub is_undecided : RuleResult → Bool
is_undecided r = is_gating r.rule_id && not r.passed

abbrev pub is_exceeded : RuleResult → Bool
is_exceeded r = not (is_gating r.rule_id) && not r.passed
