-- ===== src/Lib.antt =====
-- Verification of the AI investment manager (Python, src/investment_manager).
--
-- The program turns evidence into forecasts and portfolio targets, lets its risk engine clamp
-- them, and executes what is authorised against product venues. This library models its
-- deterministic core, function by function, and proves what makes it correct.
--
-- Parts and files:
-- - Prelude: sequences, `sorted`, dictionaries and errors as Python has them.
-- - Kernel: src/investment_manager/kernel. An identity is a number, since identities are only
--   compared; `stable_id` (a SHA-256 digest) is a parameter. An instant is a number of
--   microseconds in UTC, so `require_utc` is the identity.
-- - Scheduling: src/investment_manager/scheduling/models.py. Event holds `AnalysisTriggerEvent` and
--   `build_trigger_event`, Plan the trigger plan with its constructors, Gate `TriggerPlanGate.apply`,
--   Admission the interval between analysis calls, Timing the accepted triggers, the rule periods
--   and `trigger_reconsideration`, Batch the members and the constructor of a trigger batch. The
--   payload dictionaries of the workflow are read as the records that they serialise. Coordinator is
--   scheduling/workflows.py: the state of `TriggerCoordinatorWorkflow` and its signals,
--   Coordinator/Pending what a turn does with the pending triggers, and
--   Coordinator/Loop `run` as steps between the points where it waits, for a change, for the activity
--   and for the child workflows; a signal may come at each. That a wait ends, and when, is an input.
-- - Execution: src/investment_manager/execution. Leg, Order, Group and NewGroup hold the models of
--   group/models.py and venue/product.py with their validators; a plan and its trades have the fields
--   that the group reads. Change and Reversal hold the pure parts of group/engine.py, LegSync
--   `_sync_leg` and `_stop_target`, Engine `start` and `run_once`. Store is group/repository.py on
--   the rows of its tables, Venue the interface of a product venue and the record of observations,
--   MockVenue venue/product_mock.py. The methods are effects (Effect): they pass the state on and
--   keep what they have written when they raise; Triple has the rules by which conditions before
--   and after them are derived. The engine takes any venue as an argument.
--
-- - Accounting: src/investment_manager/execution/group/accounting.py. Position holds
--   `_apply_position` and `_apply_cash`, History the visible orders, Funding the increments of fills
--   and `_funding_pnl`, Valuation the positions, the equity and the diagnostic costs, Projector
--   `project`. The dictionaries that the methods change are passed on, and dropped where they raise.
-- - Risk: src/investment_manager/risk/portfolio.py. Policy holds the policy and `_new_risk_allowed`,
--   Exposure `_global_scale`, Evaluate `evaluate` with the checks of the approved target. Holding
--   is `review_holding`, Holding/Review its rules and the authorization to reduce. The rule results
--   that only record the checks of `evaluate`, and the identities of the records, are left out.
-- - Portfolio: portfolio/models.py (the account snapshot with its validators) and the fields of
--   forecast/models.py and risk/portfolio.py that it reads.
--
-- The validators of the totals and of the snapshot compare sums for equality. Python rounds the sums
-- to 28 significant digits before it does; here they are exact, so that a refusal that comes from
-- this rounding is not modelled (Portfolio/Account).
--
-- A `Decimal` is a count of 10^-18 (Kernel/Decimal): sums, differences and orders are exact, and
-- products and quotients are rounded half to even to that unit, where Python rounds to 28 significant
-- digits; of the theorems, the one on the orders of the mock venue looks at a quotient, half of a quantity,
-- and the one on what the risk engine approves at a product with a scale that is not above one. Where a value can be negative it is an integer (Prelude/Int, Kernel/Signed). Loops are structural recursions, so nothing needs fuel.
--
-- Not modelled: the database sessions (a method is one transaction, and the two halves of `save`
-- can be separated), lengths and patterns of texts, the HTTP adapter of Binance, the loading of the
-- facts of an account, the portfolio decision, and the parts that are I/O.
pub mod Accounting
pub mod Execution
pub mod Kernel
pub mod Portfolio
pub mod Prelude
pub mod Risk
pub mod Scheduling
