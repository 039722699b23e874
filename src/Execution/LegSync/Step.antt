-- ===== src/Execution/LegSync/Step.antt =====
-- What a reconciliation does to a leg, to the venue and to the tables.
use ai_investment_manager.Prelude.{
  ℕ, ◌≡◌, refl, Bool, true, false, not, ◌&&◌, inl, inr, Bool-cases, Option, none, some, Result, err,
  ok, arith,
}
use ai_investment_manager.Kernel.{Time}
use ai_investment_manager.Execution.Leg.{Error, pending, is_status, terminal, ExecutionLeg}
use ai_investment_manager.Execution.Order.{ProductOrder, order_terminal, execution_leg_from_order}
use ai_investment_manager.Execution.Effect.{Effect, return}
use ai_investment_manager.Execution.Venue.{
  ProductOrderVenue, World, put_venue, on_venue, record_observation,
}
use ai_investment_manager.Execution.Store.{Tables}
use ai_investment_manager.Execution.LegSync.{
  observe, submit_leg, settle_leg, answer_leg, try_query, reconcile_leg, sync_leg,
  cancel_unless_terminal, cancel_leg, stopped_leg, stop_target,
}
use ai_investment_manager.Execution.Triple.{
  Triple, Outcome, >>=-Triple, >>-Triple, if-Triple, except_unknown-Triple, lift-Triple,
  return-Triple,
}

-- Only the facts that a venue reports have changed.
abbrev pub KeepsContract : ExecutionLeg → ExecutionLeg → Type 0
KeepsContract a b = b ≡ record a {
  status = b.status;
  filled_quantity = b.filled_quantity;
  average_fill_price = b.average_fill_price;
  fee = b.fee;
  venue_order_id = b.venue_order_id;
  observed_at = b.observed_at;
}

-- A leg that has ended stays as it is.
abbrev pub LegStep : ExecutionLeg → ExecutionLeg → Type 0
LegStep a b = KeepsContract a b × (terminal a.status ≡ true → b ≡ a)

execution_leg_from_order-KeepsContract :
    (leg : ExecutionLeg) (order : ProductOrder) (b : ExecutionLeg)
    → execution_leg_from_order leg order ≡ ok b
    → KeepsContract leg b
unfolding execution_leg_from_order
execution_leg_from_order-KeepsContract leg order b h = ground arith

module _ {V : Type 0} (venue : ProductOrderVenue V) (J : V → Type 0) (X : Tables → Type 0)
    (Permitted : ExecutionLeg → Type 0)
    (query_keeps : (id : ℕ) (v : V) → J v → J (venue.query id v).1)
    (submit_keeps : (leg : ExecutionLeg)
      → Permitted leg
      → (t : Time) (v : V) → J v
      → J (venue.submit leg t v).1)
    (cancel_keeps : (id : ℕ) (t : Time) (v : V) → J v → J (venue.cancel id t v).1) where
  abbrev pub Kept : World V → Type 0
  Kept w = J w.venue × X w.tables

  put_venue-Outcome :
      {A : Type 0} (w : World V) (r : Result Error A × V)
      → J r.1
      → X w.tables
      → Outcome (λ a. Kept) Kept (put_venue w r)
  unfolding Outcome
  put_venue-Outcome w (err e, v) h k = (h, k)
  put_venue-Outcome w (ok a, v) h k = (h, k)

  on_venue-Triple :
      {A : Type 0} (call : Effect V A)
      → ((v : V) → J v → J (call v).1)
      → Triple Kept (on_venue call) (λ _. Kept) Kept
  unfolding on_venue
  on_venue-Triple call h = record {
    run = λ w k. put_venue-Outcome w (call w.venue) (h w.venue k.0) k.1;
  }

  record_observation-Triple :
      (order : ProductOrder) (t : Time) → Triple Kept (record_observation order t) (λ _. Kept) Kept
  unfolding record_observation Outcome
  record_observation-Triple order t = record { run = λ w k. ground arith }

  abbrev Stepped : ExecutionLeg → ExecutionLeg → World V → Type 0
  Stepped leg b w = Kept w × LegStep leg b

  observe-Triple :
      (leg : ExecutionLeg) (order : ProductOrder) (t : Time)
      → terminal leg.status ≡ false
      → Triple Kept (observe venue leg order t) (Stepped leg) Kept
  unfolding observe
  observe-Triple leg order t h =
      >>-Triple (record_observation order t) _ (record_observation-Triple order t) (
        lift-Triple (execution_leg_from_order leg order)
          (λ b e w k. (k, (execution_leg_from_order-KeepsContract leg order b e, λ j. cc)))
          (λ w k. k))

  try_query-Triple : (leg : ExecutionLeg) → Triple Kept (try_query venue leg) (λ _. Kept) Kept
  unfolding try_query
  try_query-Triple leg =
      except_unknown-Triple _ (return none)
        (>>=-Triple (on_venue (venue.query leg.client_order_id)) _
          (on_venue-Triple (venue.query leg.client_order_id) (query_keeps leg.client_order_id))
          (λ seen. return-Triple (some seen) (λ w k. k)))
        (return-Triple none (λ w k. k))

  submit_leg-Triple :
      (leg : ExecutionLeg) (t : Time)
      → Permitted leg
      → Triple Kept (submit_leg venue leg t) (λ _. Kept) Kept
  unfolding submit_leg
  submit_leg-Triple leg t h =
      except_unknown-Triple _ _
        (>>=-Triple (on_venue (venue.submit leg t)) _
          (on_venue-Triple (venue.submit leg t) (submit_keeps leg h t))
          (λ order. return-Triple (some order) (λ w k. k)))
        (except_unknown-Triple _ _
          (on_venue-Triple (venue.query leg.client_order_id) (query_keeps leg.client_order_id))
          (return-Triple none (λ w k. k)))

  settle_leg-Triple :
      (leg : ExecutionLeg) (t : Time) (allow : Bool) (seen : Option ProductOrder)
      → terminal leg.status ≡ false
      → Triple Kept (settle_leg venue leg t allow seen) (Stepped leg) Kept
  unfolding settle_leg
  settle_leg-Triple leg t allow (some order) h = observe-Triple leg order t h
  settle_leg-Triple leg t allow none h = return-Triple _ (λ w k. (
    k,
    elim (Bool-cases (not allow && is_status leg.status pending)) [
      | inl e ↦ rw e (refl, λ j. cc)
      | inr e ↦ rw e (refl, λ j. cc)
    ],
  ))

  answer_leg-Triple :
      (leg : ExecutionLeg) (t : Time) (allow : Bool) (seen : Option ProductOrder)
      → terminal leg.status ≡ false
      → (allow ≡ true → Permitted leg)
      → Triple Kept (answer_leg venue leg t allow seen) (Stepped leg) Kept
  unfolding answer_leg
  answer_leg-Triple leg t allow (some order) h p = settle_leg-Triple leg t allow (some order) h
  answer_leg-Triple leg t true none h p =
      >>=-Triple _ _ (submit_leg-Triple leg t (p refl))
        (λ seen. settle_leg-Triple leg t true seen h)
  answer_leg-Triple leg t false none h p = settle_leg-Triple leg t false none h

  reconcile_leg-Triple :
      (leg : ExecutionLeg) (t : Time) (allow : Bool) (seen : Option (Option ProductOrder))
      → terminal leg.status ≡ false
      → (allow ≡ true → Permitted leg)
      → Triple Kept (reconcile_leg venue leg t allow seen) (Stepped leg) Kept
  unfolding reconcile_leg
  reconcile_leg-Triple leg t allow none h p = return-Triple _ (λ w k. (k, (refl, λ j. cc)))
  reconcile_leg-Triple leg t allow (some seen) h p = answer_leg-Triple leg t allow seen h p

  -- `_sync_leg` submits a leg only where that is permitted.
  pub sync_leg-Triple :
      (t : Time) (allow : Bool) (leg : ExecutionLeg)
      → (allow ≡ true → terminal leg.status ≡ false → Permitted leg)
      → Triple Kept (sync_leg venue t allow leg) (Stepped leg) Kept
  unfolding sync_leg
  sync_leg-Triple t allow leg p =
      if-Triple (terminal leg.status) _ _ (λ e. return-Triple leg (λ w k. (k, (refl, λ j. refl))))
        (λ e.
          >>=-Triple _ _ (try_query-Triple leg)
            (λ seen. reconcile_leg-Triple leg t allow seen e (λ a. p a e)))

  cancel_unless_terminal-Triple :
      (leg : ExecutionLeg) (t : Time) (seen : Option ProductOrder)
      → Triple Kept (cancel_unless_terminal venue leg t seen) (λ _. Kept) Kept
  unfolding cancel_unless_terminal
  cancel_unless_terminal-Triple leg t none =
      on_venue-Triple (venue.cancel leg.client_order_id t) (cancel_keeps leg.client_order_id t)
  cancel_unless_terminal-Triple leg t (some order) =
      if-Triple (order_terminal order.status) _ _ (λ e. return-Triple (some order) (λ w k. k))
        (λ e.
          on_venue-Triple (venue.cancel leg.client_order_id t) (cancel_keeps leg.client_order_id t))

  cancel_leg-Triple :
      (leg : ExecutionLeg) (t : Time) → Triple Kept (cancel_leg venue leg t) (λ _. Kept) Kept
  unfolding cancel_leg
  cancel_leg-Triple leg t =
      except_unknown-Triple _ _
        (>>=-Triple _ _
          (>>=-Triple _ _
            (on_venue-Triple (venue.query leg.client_order_id) (query_keeps leg.client_order_id))
            (cancel_unless_terminal-Triple leg t))
          (λ seen. return-Triple (some seen) (λ w k. k)))
        (try_query-Triple leg)

  stopped_leg-Triple :
      (leg : ExecutionLeg) (t : Time) (seen : Option (Option ProductOrder))
      → terminal leg.status ≡ false
      → Triple Kept (stopped_leg venue leg t seen) (Stepped leg) Kept
  unfolding stopped_leg
  stopped_leg-Triple leg t none h = return-Triple _ (λ w k. (k, (refl, λ j. cc)))
  stopped_leg-Triple leg t (some none) h = return-Triple _ (λ w k. (k, (refl, λ j. cc)))
  stopped_leg-Triple leg t (some (some order)) h = observe-Triple leg order t h

  -- `_stop_target` submits nothing.
  pub stop_target-Triple :
      (t : Time) (leg : ExecutionLeg) → Triple Kept (stop_target venue t leg) (Stepped leg) Kept
  unfolding stop_target
  stop_target-Triple t leg =
      if-Triple (terminal leg.status) _ _ (λ e. return-Triple leg (λ w k. (k, (refl, λ j. refl))))
        (λ e. >>=-Triple _ _ (cancel_leg-Triple leg t) (λ seen. stopped_leg-Triple leg t seen e))
