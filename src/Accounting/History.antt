-- ===== src/Accounting/History.antt =====
-- execution/group/accounting.py: `_groups`, `_sleeves`, `_quotes`, `_visible_order_history`,
-- `_latest_orders`; execution/venue/observation.py: `ProductOrderObservation`, whose digests are
-- not modelled.
use ai_investment_manager.Prelude.{
  ℕ, Bool, false, not, ◌&&◌, ◌||◌, Option, none, some, List, [], ◌∷◌, ◌++◌, map, any, select,
  is_unique, dedup, same, leb, ltb, tuple_less, ◌==◌, Result, ok, raise_if, ◌>>◌, ◌>>=◌,
}
use ai_investment_manager.Prelude.Dict.{Dict, get, has_key, put, index_by, values}
use ai_investment_manager.Prelude.Sorting.{sorted}
use ai_investment_manager.Kernel.{Time}
use ai_investment_manager.Kernel.Decimal.{Decimal}
use ai_investment_manager.Execution.Leg.{
  InstrumentId, same_instrument, is_side, ExecutionLeg, role_value,
}
use ai_investment_manager.Execution.Order.{ProductOrder}
use ai_investment_manager.Execution.Group.{ExecutionGroup}
use ai_investment_manager.Portfolio.Account.{is_sorted_set}
use ai_investment_manager.Portfolio.Target.{ApprovedSleeve}
use ai_investment_manager.Accounting.Error.{
  AccountError, groups_repeated, sleeves_repeated, quotes_unordered, observations_uncovered,
  observation_outside, observation_foreign, observation_regressed,
}

pub record ProductOrderObservation : Type 0 where
  pub available_at : Time
  pub order : ProductOrder

-- The fields of a quote that the projection reads.
pub record ValuationQuote : Type 0 where
  pub instrument : InstrumentId
  pub as_of : Time
  pub bid : Decimal
  pub ask : Decimal

abbrev pub starts_before : ExecutionGroup → ExecutionGroup → Bool
starts_before a b = tuple_less (a.started_at ∷ a.group_id ∷ []) (b.started_at ∷ b.group_id ∷ [])

abbrev pub started : Time → List ExecutionGroup → List ExecutionGroup
started as_of groups = select (λ g. leb g.started_at as_of) groups

unfoldable pub visible_groups :
    List ExecutionGroup → Time → Result AccountError (List ExecutionGroup)
visible_groups groups as_of = do
  raise_if (not (is_unique (map (λ g. g.group_id) (started as_of groups)))) groups_repeated
  ok (sorted starts_before (started as_of groups))

unfoldable pub index_sleeves : List ApprovedSleeve → Result AccountError (Dict ApprovedSleeve)
index_sleeves sleeves = do
  raise_if (not (is_unique (map (λ s. s.sleeve_id) sleeves))) sleeves_repeated
  ok (index_by (λ s. s.sleeve_id) [] sleeves)

unfoldable pub index_quotes : List ValuationQuote → Time → Result AccountError (Dict ValuationQuote)
index_quotes quotes as_of = do
  raise_if
      (not (is_sorted_set (map (λ q. q.instrument.key) quotes))
        || any (λ q. not (q.as_of == as_of)) quotes)
      quotes_unordered
  ok (index_by (λ q. q.instrument.key) [] quotes)

unfoldable pub all_legs : List ExecutionGroup → List ExecutionLeg
all_legs [] = []
all_legs (g ∷ groups) = g.target_legs ++ g.compensation_legs ++ all_legs groups

-- `leg_by_client`
unfoldable pub index_legs : List ExecutionGroup → Dict ExecutionLeg
unfolding all_legs
index_legs groups = index_by (λ leg. leg.client_order_id) [] (all_legs groups)

-- The contract of the leg that an order must have kept.
abbrev pub is_contract : ExecutionLeg → ProductOrder → Bool
is_contract leg order =
    order.execution_leg_id == leg.execution_leg_id
    && same_instrument order.instrument leg.instrument
    && is_side order.side leg.side
    && order.requested_quantity == leg.requested_quantity

abbrev pub keeps_contract : Option ExecutionLeg → ProductOrder → Bool
keeps_contract none order = false
keeps_contract (some leg) order = is_contract leg order

unfoldable pub check_observation :
    Dict ExecutionLeg → Time → ℕ → ProductOrderObservation → Result AccountError Unit
check_observation legs as_of group_id o = do
  raise_if
      (ltb as_of o.available_at
        || not (o.order.group_id == group_id)
        || not (has_key o.order.client_order_id legs))
      observation_outside
  raise_if (not (keeps_contract (get o.order.client_order_id legs) o.order)) observation_foreign

unfoldable pub check_observations :
    Dict ExecutionLeg → Time → ℕ → List ProductOrderObservation → Result AccountError Unit
unfolding check_observation
check_observations legs as_of group_id [] = ok tt
check_observations legs as_of group_id (o ∷ os) = do
  check_observation legs as_of group_id o
  check_observations legs as_of group_id os

-- The loop over the groups' observations; its result is `observations`.
unfoldable pub collect :
    Dict ExecutionLeg
    → Time
    → Dict (List ProductOrderObservation)
    → Result AccountError (List ProductOrderObservation)
unfolding check_observations
collect legs as_of [] = ok []
collect legs as_of ((group_id, os) ∷ d) = do
  check_observations legs as_of group_id os
  rest ← collect legs as_of d
  ok (os ++ rest)

abbrev pub role_of : Option ExecutionLeg → ℕ
role_of none = 0
role_of (some leg) = role_value leg.role

-- Targets before compensations: the key of the sort.
unfoldable pub history_key : Dict ExecutionLeg → ProductOrderObservation → List ℕ
history_key legs o =
    o.available_at
    ∷ o.order.observed_at
    ∷ role_of (get o.order.client_order_id legs)
    ∷ o.order.client_order_id
    ∷ []

abbrev pub in_order :
    Dict ExecutionLeg → List ProductOrderObservation → List ProductOrderObservation
in_order legs found = sorted (λ a b. tuple_less (history_key legs a) (history_key legs b)) found

-- Whether an order goes behind its previous observation.
abbrev pub regresses : Option ProductOrder → ProductOrder → Bool
regresses none order = false
regresses (some previous) order =
    ltb order.observed_at previous.observed_at
    || ltb order.filled_quantity previous.filled_quantity
    || ltb order.fee previous.fee

unfoldable pub check_progress :
    Dict ProductOrder → List ProductOrderObservation → Result AccountError Unit
check_progress seen [] = ok tt
check_progress seen (o ∷ os) = do
  raise_if (regresses (get o.order.client_order_id seen) o.order) observation_regressed
  check_progress (put o.order.client_order_id o.order seen) os

abbrev pub keys : {V : Type 0} → Dict V → List ℕ
keys d = map (λ e. e.0) d

-- `set(xs) == set(ys)`
abbrev pub same_set : List ℕ → List ℕ → Bool
same_set xs ys = same (sorted ltb (dedup xs)) (sorted ltb (dedup ys))

unfoldable pub visible_order_history :
    List ExecutionGroup
    → Dict (List ProductOrderObservation)
    → Time
    → Result AccountError (List ProductOrderObservation)
unfolding index_legs collect history_key check_progress
visible_order_history groups observations as_of = do
  raise_if (not (same_set (keys observations) (map (λ g. g.group_id) groups)))
      observations_uncovered
  found ← collect (index_legs groups) as_of observations
  check_progress [] (in_order (index_legs groups) found)
  ok (in_order (index_legs groups) found)

abbrev pub latest_before : ProductOrderObservation → ProductOrderObservation → Bool
latest_before a b =
    tuple_less (a.order.observed_at ∷ a.available_at ∷ a.order.client_order_id ∷ [])
      (b.order.observed_at ∷ b.available_at ∷ b.order.client_order_id ∷ [])

unfoldable pub latest_orders : List ProductOrderObservation → List ProductOrderObservation
latest_orders history =
    sorted latest_before (values (index_by (λ o. o.order.client_order_id) [] history))
