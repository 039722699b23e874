-- ===== src/Execution/Venue.antt =====
-- execution/venue/product.py: `ProductOrderVenue`; execution/venue/observation.py: what the engine
-- records of a venue's facts. `World` is the state that the engine's methods change.
use ai_investment_manager.Prelude.{
  ℕ, Bool, true, false, Option, List, [], ◌∷◌, ◌++◌, any, if◌then◌else◌, Result, ok,
}
use ai_investment_manager.Kernel.{Time}
use ai_investment_manager.Execution.Leg.{Error, ExecutionLeg}
use ai_investment_manager.Execution.Order.{ProductOrder, same_order}
use ai_investment_manager.Execution.Effect.{Effect}
use ai_investment_manager.Execution.Store.{Tables}

-- The operations of a venue on its own state.
pub record ProductOrderVenue (V : Type 0) : Type 0 where
  pub query : ℕ → Effect V (Option ProductOrder)
  pub submit : ExecutionLeg → Time → Effect V ProductOrder
  pub cancel : ℕ → Time → Effect V (Option ProductOrder)

pub record World (V : Type 0) : Type 0 where
  pub venue : V
  pub tables : Tables
  pub observations : List (ProductOrder × Time)

module _ {V A : Type 0} where
  abbrev pub put_venue : World V → Result Error A × V → Result Error A × World V
  put_venue w (r, v) = (r, record w { venue = v })

  abbrev pub put_tables : World V → Result Error A × Tables → Result Error A × World V
  put_tables w (r, t) = (r, record w { tables = t })

  -- A call of the venue, and one of the store.
  unfoldable pub on_venue : Effect V A → Effect (World V) A
  on_venue call w = put_venue w (call w.venue)

  unfoldable pub on_tables : Effect Tables A → Effect (World V) A
  on_tables call w = put_tables w (call w.tables)

-- `ProductOrderObservationStore.record`: a fact keeps the first instant at which it was seen. The
-- digest of a fact is the fact.
unfoldable pub record_observation : {V : Type 0} → ProductOrder → Time → Effect (World V) Bool
unfolding same_order
record_observation order available_at w =
    if any (λ seen. same_order seen.0 order) w.observations
    then (ok false, w)
    else (ok true, record w { observations = w.observations ++ (order, available_at) ∷ [] })
