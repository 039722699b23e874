-- ===== src/Execution/Engine/Run.antt =====
-- `run_once` keeps the group legal and submits what is permitted.
use ai_investment_manager.Prelude.{
  All-members, Matched, ℕ, ◌+◌, ◌≡◌, refl, ap, inl, inr, Bool, true, false, none, some, List, all,
  is_nonempty, All, All-map, All-Unit, ltb, ltb→lt, arith,
}
use ai_investment_manager.Kernel.{StableId, Time}
use ai_investment_manager.Execution.Leg.{past_instant, ExecutionLeg, terminal}
use ai_investment_manager.Execution.Group.{
  ExecutionGroup, compensating, hedged, flat, is_group, group_terminal, same_legs, is_filled,
  is_terminal, residual_quantities,
}
use ai_investment_manager.Execution.Change.{
  no_changes, changed, unhedged_since, must_compensate, next_status, evolve,
}
use ai_investment_manager.Execution.Reversal.{ensure_compensation_legs}
use ai_investment_manager.Execution.Effect.{for_each}
use ai_investment_manager.Execution.Venue.{ProductOrderVenue, World}
use ai_investment_manager.Execution.LegSync.{sync_leg, stop_target}
use ai_investment_manager.Execution.Triple.{
  Triple, >>=-Triple, if-Triple, lift-Triple, return-Triple, from-Triple, assume-Triple,
  drop-Triple, raise-Triple, weaken-Triple, for_each-Triple,
}
use ai_investment_manager.Execution.LegSync.Step.{LegStep, sync_leg-Triple, stop_target-Triple}
use ai_investment_manager.Execution.Engine.{
  save_flat, save_compensations, settle_compensations, reverse_fills, compensate, reconcile_group,
  execute, advance,
}
use ai_investment_manager.Execution.Engine.Statuses.{
  to_flat, IsRunning, to_compensating, to_hedged, to_running, next_status-IsRunning, IsSound-status,
  GroupStep-status, observation, IsObserved, IsRunning-of_status,
}
use ai_investment_manager.Execution.Engine.Progress.{Matched-refl}
use ai_investment_manager.Execution.Engine.Persist.{
  Stored, At, Legal, persist-Triple, save_changes-Triple, evolve-IsSound,
}
use ai_investment_manager.Execution.Engine.Permission.{IsPermitted, IsSound-Reverses}

module _ (digest : StableId) {V : Type 0} (venue : ProductOrderVenue V) (J : V → Type 0)
    (first : ExecutionGroup) (as_of : Time)
    (query_keeps : (id : ℕ) (v : V) → J v → J (venue.query id v).1)
    (submit_keeps : (leg : ExecutionLeg)
      → IsPermitted first as_of leg
      → (t : Time) (v : V) → J v
      → J (venue.submit leg t v).1)
    (cancel_keeps : (id : ℕ) (t : Time) (v : V) → J v → J (venue.cancel id t v).1) where
  abbrev Row : ExecutionGroup → World V → Type 0
  Row = At digest venue J first

  abbrev Fails : World V → Type 0
  Fails = Legal digest venue J first

  sync_legs-Triple :
      (g : ExecutionGroup) (allow : Bool) (legs : List ExecutionLeg)
      → All (λ leg. allow ≡ true → terminal leg.status ≡ false → IsPermitted first as_of leg) legs
      → Triple
          (Row g)
          (for_each (sync_leg venue as_of allow) legs)
          (λ ys w. Row g w × Matched LegStep legs ys)
          Fails
  sync_legs-Triple g allow legs r = from-Triple λ k.
      weaken-Triple
        (for_each-Triple _ LegStep (sync_leg venue as_of allow)
          (λ leg p.
            sync_leg-Triple venue J (Stored digest venue J first g) (IsPermitted first as_of)
              query_keeps submit_keeps cancel_keeps as_of allow leg p)
          legs r)
        (λ ys w p. ((p.0, k), p.1)) (λ w p. (g, (p, k)))

  stop_targets-Triple :
      (g : ExecutionGroup) (legs : List ExecutionLeg)
      → Triple
          (Row g)
          (for_each (stop_target venue as_of) legs)
          (λ ys w. Row g w × Matched LegStep legs ys)
          Fails
  stop_targets-Triple g legs = from-Triple λ k.
      weaken-Triple
        (for_each-Triple (λ _. Unit) LegStep (stop_target venue as_of)
          (λ leg p.
            stop_target-Triple venue J (Stored digest venue J first g) (IsPermitted first as_of)
              query_keeps submit_keeps cancel_keeps as_of leg)
          legs (All-Unit legs))
        (λ ys w p. ((p.0, k), p.1)) (λ w p. (g, (p, k)))

  save_flat-Triple :
      (g : ExecutionGroup)
      → g.status ≡ compensating
      → Triple (Row g) (save_flat digest venue g as_of) Row Fails
  unfolding save_flat changed
  save_flat-Triple g e =
      weaken-Triple
        (save_changes-Triple digest venue J first g as_of
          record no_changes { status = some flat; unhedged_since = some none }
          (Matched-refl g.target_legs) (to_flat g.status e))
        (λ h w p. p.0) (λ w p. p)

  save_compensations-Triple :
      (g : ExecutionGroup) (legs : List ExecutionLeg)
      → g.status ≡ compensating
      → Triple
          (Row g)
          (save_compensations digest venue g as_of legs)
          (λ h w. Row h w × (h.status ≡ compensating))
          Fails
  unfolding save_compensations changed
  save_compensations-Triple g legs e =
      save_changes-Triple digest venue J first g as_of
        record no_changes { status = some compensating; compensation_legs = some legs }
        (Matched-refl g.target_legs) (to_compensating g.status (inl e))

  settle_compensations-Triple :
      (g : ExecutionGroup)
      → g.status ≡ compensating
      → Triple (Row g) (settle_compensations digest venue g as_of) Row Fails
  unfolding settle_compensations
  settle_compensations-Triple g e = from-Triple λ k.
      >>=-Triple _ _
        (assume-Triple k (
          sync_legs-Triple g true g.compensation_legs
            (All-map (λ leg r a b. inr r) g.compensation_legs (IsSound-Reverses first g k.0 k.1))))
        (λ legs. drop-Triple (
          >>=-Triple _ _ (save_compensations-Triple g legs e) (λ h. from-Triple λ c.
            if-Triple (is_nonempty (residual_quantities h)) _ _ (λ _. return-Triple h (λ w p. p))
              (λ _. save_flat-Triple h c))))

  reverse_fills-Triple :
      (g : ExecutionGroup)
      → g.status ≡ compensating
      → Triple (Row g) (reverse_fills digest venue g as_of) Row Fails
  unfolding reverse_fills
  reverse_fills-Triple g e =
      >>=-Triple _ _
        (lift-Triple (ensure_compensation_legs digest g) (λ legs r w p. p) (λ w p. (g, p)))
        (λ legs.
          >>=-Triple _ _
            (if-Triple (same_legs legs g.compensation_legs) _ _
              (λ _. return-Triple g (λ w p. (p, e))) (λ _. save_compensations-Triple g legs e))
            (λ h. from-Triple λ c.
              if-Triple (is_nonempty (residual_quantities h)) _ _
                (λ _. settle_compensations-Triple h c) (λ _. save_flat-Triple h c)))

  pub compensate-Triple :
      (g : ExecutionGroup)
      → g.status ≡ compensating
      → Triple (Row g) (compensate digest venue g as_of) Row Fails
  unfolding compensate changed
  compensate-Triple g e = >>=-Triple _ _ (stop_targets-Triple g g.target_legs) (λ targets.
      from-Triple λ m.
        >>=-Triple _ _
          (save_changes-Triple digest venue J first g as_of
            record no_changes { status = some compensating; target_legs = some targets } m
            (to_compensating g.status (inl e)))
          (λ h. from-Triple λ c.
            if-Triple (all is_terminal h.target_legs) _ _ (λ _. reverse_fills-Triple h c)
              (λ _. return-Triple h (λ w p. p))))

  reconcile_group-Triple :
      (g : ExecutionGroup) (targets : List ExecutionLeg)
      → IsRunning g.status
      → Matched LegStep g.target_legs targets
      → Triple (Row g) (reconcile_group digest venue g as_of targets) Row Fails
  unfolding reconcile_group changed
  reconcile_group-Triple g targets e m =
      >>=-Triple _ _
        (lift-Triple (evolve digest g as_of (observation g targets as_of))
          (λ observed r w p.
            (p, evolve-IsSound digest g as_of (observation g targets as_of) observed r))
          (λ w p. (g, p)))
        (λ observed. from-Triple λ (f : IsObserved g targets as_of observed).
          if-Triple (must_compensate observed as_of) _ _
            (λ _.
              >>=-Triple _ _
                (persist-Triple digest venue J first g _
                  (GroupStep-status g observed as_of targets (unhedged_since g targets as_of)
                    compensating f.0 m (to_compensating g.status (inr e)))
                  (IsSound-status observed compensating (g.revision + 1) (inl refl) f.1) refl)
                (λ started. from-Triple λ q. compensate-Triple started (ap (λ x. x.status) q)))
            (λ _.
              weaken-Triple
                (persist-Triple digest venue J first g _
                  (GroupStep-status g observed as_of targets (unhedged_since g targets as_of)
                    (next_status observed targets) f.0 m
                    (to_running g.status (next_status observed targets) e
                      (next_status-IsRunning observed targets)))
                  (IsSound-status observed (next_status observed targets) (g.revision + 1)
                    (inr (next_status-IsRunning observed targets)) f.1)
                  refl)
                (λ h w p. p.0) (λ w p. p)))

  execute-Triple :
      IsRunning first.status → Triple (Row first) (execute digest venue first as_of) Row Fails
  unfolding execute changed
  execute-Triple e =
      >>=-Triple _ _
        (sync_legs-Triple first (ltb as_of first.valid_until) first.target_legs (
          All-map (λ leg r a b. inl (ltb→lt as_of first.valid_until a, r)) first.target_legs
            (All-members first.target_legs)))
        (λ targets. from-Triple λ m.
          if-Triple (all is_filled targets) _ _
            (λ _.
              weaken-Triple
                (save_changes-Triple digest venue J first first as_of
                  record no_changes {
                    status = some hedged;
                    target_legs = some targets;
                    unhedged_since = some none;
                  }
                  m (to_hedged first.status e))
                (λ h w p. p.0) (λ w p. p))
            (λ _. reconcile_group-Triple first targets e m))

  pub advance-Triple : Triple (Row first) (advance digest venue first as_of) Row Fails
  unfolding advance
  advance-Triple =
      if-Triple (ltb as_of first.updated_at) _ _
        (λ _. raise-Triple past_instant (λ w p. (first, p)))
        (λ _.
          if-Triple (group_terminal first.status) _ _ (λ _. return-Triple first (λ w p. p))
            (λ h.
              if-Triple (is_group first.status compensating) _ _
                (λ e. compensate-Triple first (ground arith))
                (λ e. execute-Triple (IsRunning-of_status first.status h e))))
