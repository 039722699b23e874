-- ===== src/Execution/Reversal/Commitment.antt =====
-- What the compensations of a target reverse, and what the loop over the targets adds.
use ai_investment_manager.Prelude.{
  ℕ, ◌+◌, ◌-◌, ◌≤◌, ◌≡◌, ◌≢◌, refl, sym, ◌∙◌, subst, Bool, true, false, ◌||◌, inl, inr, Bool-cases,
  List, [], ◌∷◌, ◌++◌, leb, if◌then◌else◌, ok, >>=-eq-ok, ◌>>=◌, All, All-map, Pairs, arith,
}
use ai_investment_manager.Prelude.Sorting.{place, sorted}
use ai_investment_manager.Kernel.{StableId}
use ai_investment_manager.Kernel.Decimal.{Decimal}
use ai_investment_manager.Execution.Leg.{
  pending, terminal, ExecutionLeg, checked_leg, compensation_leg,
}
use ai_investment_manager.Execution.Group.{ExecutionGroup, leg_before}
use ai_investment_manager.Execution.Reversal.{
  of_leg, reversed_quantity, last_attempt, has_active, reverse_target, reverse_targets,
  ensure_compensation_legs,
}

-- What a compensation has reversed, or may still reverse.
abbrev pub committed_by : ExecutionLeg → Decimal
committed_by leg = if terminal leg.status then leg.filled_quantity else leg.requested_quantity

-- What the compensations of one planned leg reverse, all that they may still fill included.
unfoldable pub committed : ℕ → List ExecutionLeg → Decimal
committed p [] = 0
committed p (leg ∷ legs) =
    let rest = committed p legs in if of_leg p leg then committed_by leg + rest else rest

-- The compensations reverse no more than the target has filled, and all of it while one of them
-- is active.
abbrev pub IsWithin : List ExecutionLeg → ExecutionLeg → Type 0
IsWithin compensations t =
    (committed t.planned_leg_id compensations ≤ t.filled_quantity)
    × (has_active t.planned_leg_id compensations ≡ true
        → committed t.planned_leg_id compensations ≡ t.filled_quantity)

abbrev pub IsCovered : List ExecutionLeg → ExecutionLeg → Type 0
IsCovered compensations t = committed t.planned_leg_id compensations ≡ t.filled_quantity

pub inactive_committed :
    (p : ℕ) (legs : List ExecutionLeg)
    → has_active p legs ≡ false
    → committed p legs ≡ reversed_quantity p legs
unfolding committed has_active reversed_quantity
inactive_committed p [] h = refl
inactive_committed p (leg ∷ legs) h = ground (arith, inactive_committed p legs)

pub committed-append :
    (p : ℕ) (legs : List ExecutionLeg) (leg : ExecutionLeg)
    → committed p (legs ++ leg ∷ [])
      ≡ (if of_leg p leg then committed p legs + committed_by leg else committed p legs)
unfolding committed
committed-append p [] leg = ground arith
committed-append p (x ∷ legs) leg = ground (arith, committed-append p legs leg)

pub has_active-append :
    (p : ℕ) (legs : List ExecutionLeg) (leg : ExecutionLeg)
    → of_leg p leg ≡ false
    → has_active p (legs ++ leg ∷ []) ≡ has_active p legs
unfolding has_active
has_active-append p [] leg h = ground arith
has_active-append p (x ∷ legs) leg h = ground (arith, has_active-append p legs leg h)

-- The new leg of a target.
pub compensation_leg_lem :
    (digest : StableId) (t : ExecutionLeg) (q n : ℕ) (leg : ExecutionLeg)
    → compensation_leg digest t q n ≡ ok leg
    → (leg.planned_leg_id ≡ t.planned_leg_id)
      × (leg.requested_quantity ≡ q)
      × (leg.status ≡ pending)
unfolding compensation_leg checked_leg
compensation_leg_lem digest t q n leg h = ground arith

pub pending_committed :
    (leg : ExecutionLeg) → leg.status ≡ pending → committed_by leg ≡ leg.requested_quantity
unfolding terminal
pending_committed leg h = rw h refl

-- One step covers its target and leaves the others alone.
pub AddsFor : ExecutionLeg → List ExecutionLeg → List ExecutionLeg → Type 0
AddsFor t before after =
    IsCovered after t
    × ((p : ℕ)
        → p ≢ t.planned_leg_id
        → (committed p after ≡ committed p before) × (has_active p after ≡ has_active p before))

pub added_leg :
    (t leg : ExecutionLeg) (legs : List ExecutionLeg)
    → has_active t.planned_leg_id legs ≡ false
    → leb t.filled_quantity (reversed_quantity t.planned_leg_id legs) ≡ false
    → leg.planned_leg_id ≡ t.planned_leg_id
    → leg.requested_quantity ≡ t.filled_quantity - reversed_quantity t.planned_leg_id legs
    → leg.status ≡ pending
    → AddsFor t legs (legs ++ leg ∷ [])
unfolding AddsFor
added_leg t leg legs a b e q s =
    let c = committed-append t.planned_leg_id legs leg in
    let d = inactive_committed t.planned_leg_id legs a in
    let f = pending_committed leg s in
    (
      ground arith,
      λ p n.
          let o : of_leg p leg ≡ false = ground arith in
          (committed-append p legs leg ∙ (rw o refl), has_active-append p legs leg o),
    )

-- The test that passes a target over.
abbrev pub needs_nothing : ExecutionLeg → List ExecutionLeg → Bool
needs_nothing t legs =
    leb t.filled_quantity (reversed_quantity t.planned_leg_id legs)
    || has_active t.planned_leg_id legs

pub same_legs_cover :
    (t : ExecutionLeg) (legs : List ExecutionLeg)
    → IsWithin legs t
    → needs_nothing t legs ≡ true
    → AddsFor t legs legs
unfolding AddsFor
same_legs_cover t legs w h = elim (Bool-cases (has_active t.planned_leg_id legs)) [
  | inl e ↦ (w.1 e, λ p n. (refl, refl))
  | inr e ↦
      let d = inactive_committed t.planned_leg_id legs e in (ground arith, λ p n. (refl, refl))
]

pub reverse_target-AddsFor :
    (digest : StableId) (t : ExecutionLeg) (legs after : List ExecutionLeg)
    → IsWithin legs t
    → reverse_target digest legs t ≡ ok after
    → AddsFor t legs after
unfolding reverse_target
reverse_target-AddsFor digest t legs after w h = elim (Bool-cases (needs_nothing t legs)) [
  | inl e ↦
      let k : ok legs ≡ ok after = rw e at h in
      let same : legs ≡ after = cc in
      subst (λ x. AddsFor t legs x) same (same_legs_cover t legs w e)
  | inr e ↦
      let k : (compensation_leg digest t
              (t.filled_quantity - reversed_quantity t.planned_leg_id legs)
              (1 + last_attempt t.planned_leg_id legs)
            >>= λ added. ok (legs ++ added ∷ []))
          ≡ ok after =
        rw e at h in
      let left : (has_active t.planned_leg_id legs ≡ false)
          × (leb t.filled_quantity (reversed_quantity t.planned_leg_id legs) ≡ false) =
        ground arith in
      let b = >>=-eq-ok _ _ k in
      let same : legs ++ b.0 ∷ [] ≡ after = cc in
      let f = compensation_leg_lem digest t _ _ b.0 b.1 in
      subst (λ x. AddsFor t legs x) same (added_leg t b.0 legs left.0 left.1 f.0 f.1 f.2)
]

pub IsWithin-after :
    (t : ExecutionLeg) (legs after : List ExecutionLeg) (targets : List ExecutionLeg)
    → AddsFor t legs after
    → All (λ u. t.planned_leg_id ≢ u.planned_leg_id) targets
    → All (IsWithin legs) targets
    → All (IsWithin after) targets
unfolding AddsFor
IsWithin-after t legs after [] a n w = tt
IsWithin-after t legs after (u ∷ targets) a n w =
    let k = a.1 u.planned_leg_id (λ e. n.0 (sym e)) in
    (rw (k.0, k.1) w.0, IsWithin-after t legs after targets a n.1 w.1)

-- The loop leaves the compensations of other planned legs alone.
pub reverse_targets_others :
    (digest : StableId) (p : ℕ) (targets legs after : List ExecutionLeg)
    → All (λ t. p ≢ t.planned_leg_id) targets
    → All (IsWithin legs) targets
    → Pairs (λ a b. a.planned_leg_id ≢ b.planned_leg_id) targets
    → reverse_targets digest legs targets ≡ ok after
    → committed p after ≡ committed p legs
unfolding reverse_targets AddsFor
reverse_targets_others digest p [] legs after n w d h = cc
reverse_targets_others digest p (t ∷ targets) legs after n w d h =
    let b = >>=-eq-ok (reverse_target digest legs t) _ h in
    let a = reverse_target-AddsFor digest t legs b.0 w.0 b.1 in
    reverse_targets_others digest p targets b.0 after n.1
      (IsWithin-after t legs b.0 targets a d.0 w.1) d.1 b.2
    ∙ (a.1 p n.0).0

pub reverse_targets_cover :
    (digest : StableId) (targets legs after : List ExecutionLeg)
    → All (IsWithin legs) targets
    → Pairs (λ a b. a.planned_leg_id ≢ b.planned_leg_id) targets
    → reverse_targets digest legs targets ≡ ok after
    → All (IsCovered after) targets
unfolding reverse_targets AddsFor
reverse_targets_cover digest [] legs after w d h = tt
reverse_targets_cover digest (t ∷ targets) legs after w d h =
    let b = >>=-eq-ok (reverse_target digest legs t) _ h in
    let a = reverse_target-AddsFor digest t legs b.0 w.0 b.1 in
    let later = IsWithin-after t legs b.0 targets a d.0 w.1 in
    (
      reverse_targets_others digest t.planned_leg_id targets b.0 after d.0 later d.1 b.2 ∙ a.0,
      reverse_targets_cover digest targets b.0 after later d.1 b.2,
    )

pub committed-place :
    (p : ℕ) (leg : ExecutionLeg) (legs : List ExecutionLeg)
    → committed p (place leg_before leg legs) ≡ committed p (leg ∷ legs)
unfolding committed place
committed-place p leg [] = refl
committed-place p leg (x ∷ legs) = ground (arith, committed-place p leg legs)

pub committed-sorted :
    (p : ℕ) (legs : List ExecutionLeg) → committed p (sorted leg_before legs) ≡ committed p legs
unfolding committed sorted
committed-sorted p [] = refl
committed-sorted p (leg ∷ legs) =
    let a = committed-place p leg (sorted leg_before legs) in
    let b = committed-sorted p legs in ground arith

pub IsCovered-after :
    (digest : StableId) (g : ExecutionGroup) (after : List ExecutionLeg)
    → All (IsWithin g.compensation_legs) g.target_legs
    → Pairs (λ a b. a.planned_leg_id ≢ b.planned_leg_id) g.target_legs
    → ensure_compensation_legs digest g ≡ ok after
    → All (IsCovered after) g.target_legs
unfolding ensure_compensation_legs
IsCovered-after digest g after w d h =
    let b = >>=-eq-ok (reverse_targets digest g.compensation_legs g.target_legs) _ h in
    let same : sorted leg_before b.0 ≡ after = cc in
    All-map (λ t c. subst (λ x. IsCovered x t) same (committed-sorted t.planned_leg_id b.0 ∙ c))
      g.target_legs (reverse_targets_cover digest g.target_legs g.compensation_legs b.0 w d b.1)
