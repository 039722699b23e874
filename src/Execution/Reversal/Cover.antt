-- ===== src/Execution/Reversal/Cover.antt =====
-- `_ensure_compensation_legs` reverses every fill exactly once.
use ai_investment_manager.Prelude.{
  ℕ, ◌+◌, ◌-◌, ◌≤◌, ◌<◌, ◌≡◌, ◌≢◌, refl, true, false, ◌||◌, inl, inr, Bool-cases, List, [], ◌∷◌,
  ◌++◌, ltb, lt→ltb, ◌==◌, ok, ok-injective, after_ok, ◌>>=◌, All, All-map, All-append, All-members,
  Any, ◌⊎◌, Pairs, arith,
}
use mathlib.Core.Bool.{xor}
use ai_investment_manager.Prelude.Sorting.{sorted, All-sorted}
use ai_investment_manager.Kernel.{StableId}
use ai_investment_manager.Execution.Leg.{
  terminal, compensation, pending, opposite, ExecutionLeg, checked_leg, compensation_leg,
}
use ai_investment_manager.Execution.Group.{ExecutionGroup, leg_before}
use ai_investment_manager.Execution.Reversal.Commitment.{
  IsWithin, IsCovered, needs_nothing, IsCovered-after,
}
use ai_investment_manager.Execution.Reversal.{
  reversed_quantity, last_attempt, reverse_target, reverse_targets, ensure_compensation_legs,
}

-- A target that has ended, as the engine finds it.
abbrev pub IsStopped : ExecutionLeg → Type 0
IsStopped t = (terminal t.status ≡ true) × (ltb 0 t.reference_price ≡ true)

same_number : (n : ℕ) → (n == n) ≡ true
same_number n = ground arith

compensation_leg_ok :
    (digest : StableId) (t : ExecutionLeg) (q n : ℕ)
    → IsStopped t
    → 0 < q
    → q ≤ t.filled_quantity
    → (leg : ExecutionLeg) × (compensation_leg digest t q (1 + n) ≡ ok leg)
unfolding compensation_leg checked_leg xor
compensation_leg_ok digest t q n s a b =
    let fits : (q == 0 || ltb t.filled_quantity q) ≡ false = ground arith in
    let attempted : (1 + n == 0) ≡ false = ground arith in
    let positive : ltb 0 q ≡ true = lt→ltb 0 q a in
    let room : ltb q 0 ≡ false = ground arith in
    rw (s.0, fits, attempted, positive, s.1, same_number, same_number, room) (_, refl)

reverse_target_total :
    (digest : StableId) (t : ExecutionLeg) (legs : List ExecutionLeg)
    → IsStopped t
    → (after : List ExecutionLeg) × (reverse_target digest legs t ≡ ok after)
unfolding reverse_target
reverse_target_total digest t legs s = elim (Bool-cases (needs_nothing t legs)) [
  | inl e ↦ rw e (legs, refl)
  | inr e ↦
      let r =
        compensation_leg_ok digest t (t.filled_quantity - reversed_quantity t.planned_leg_id legs)
          (last_attempt t.planned_leg_id legs) s (ground arith) (omega arith) in
      rw (e, r.1) (legs ++ r.0 ∷ [], refl)
]

reverse_targets_total :
    (digest : StableId) (targets legs : List ExecutionLeg)
    → All IsStopped targets
    → (after : List ExecutionLeg) × (reverse_targets digest legs targets ≡ ok after)
unfolding reverse_targets
reverse_targets_total digest [] legs s = (legs, refl)
reverse_targets_total digest (t ∷ targets) legs s =
    let k = reverse_target_total digest t legs s.0 in
    rw k.1 (reverse_targets_total digest targets k.0 s.1)

-- The leg reverses the target: a new order for the same instrument at the same price, on the other
-- side, for no more than the target has filled.
abbrev pub IsNewReversal : ExecutionLeg → ExecutionLeg → Type 0
IsNewReversal leg t =
    (leg.planned_leg_id ≡ t.planned_leg_id)
    × (leg.role ≡ compensation)
    × (leg.status ≡ pending)
    × (leg.instrument ≡ t.instrument)
    × (leg.side ≡ opposite t.side)
    × (leg.reference_price ≡ t.reference_price)
    × (leg.requested_quantity ≤ t.filled_quantity)

compensation_leg-IsNewReversal :
    (digest : StableId) (t : ExecutionLeg) (q n : ℕ) (leg : ExecutionLeg)
    → compensation_leg digest t q n ≡ ok leg
    → IsNewReversal leg t
unfolding compensation_leg checked_leg
compensation_leg-IsNewReversal digest t q n leg h = ground arith

module _ (digest : StableId) (P : ExecutionLeg → Type 0) where
  -- What holds of the compensations and of all new reversals of a target holds after its step.
  reverse_target-All :
      (t : ExecutionLeg) (legs : List ExecutionLeg) {after : List ExecutionLeg}
      → ((leg : ExecutionLeg) → IsNewReversal leg t → P leg)
      → All P legs
      → reverse_target digest legs t ≡ ok after
      → All P after
  unfolding reverse_target
  reverse_target-All t legs {after} new p h = elim (Bool-cases (needs_nothing t legs)) [
    | inl e ↦
        let k : ok legs ≡ ok after = rw e at h in
        let same : legs ≡ after = ok-injective k in rw (← same) p
    | inr e ↦
        let k : (compensation_leg digest t
                (t.filled_quantity - reversed_quantity t.planned_leg_id legs)
                (1 + last_attempt t.planned_leg_id legs)
              >>= λ added. ok (legs ++ added ∷ []))
            ≡ ok after =
          rw e at h in
        after_ok _ _ k λ added made last.
          let same : legs ++ added ∷ [] ≡ after = ok-injective last in
          rw (← same) (
            All-append P legs (added ∷ []) p
              (new added (compensation_leg-IsNewReversal digest t _ _ added made), tt))
  ]

  reverse_targets-All :
      (targets legs : List ExecutionLeg) {after : List ExecutionLeg}
      → All (λ t. (leg : ExecutionLeg) → IsNewReversal leg t → P leg) targets
      → All P legs
      → reverse_targets digest legs targets ≡ ok after
      → All P after
  unfolding reverse_targets
  reverse_targets-All [] legs new p h = rw (← ok-injective h) p
  reverse_targets-All (t ∷ targets) legs new p h =
      after_ok (reverse_target digest legs t) _ h λ next first rest.
        reverse_targets-All targets next new.1 (reverse_target-All t legs new.0 p first) rest

-- A leg that the group had, or a new reversal of one of its targets.
abbrev pub IsAccounted : ExecutionGroup → ExecutionLeg → Type 0
IsAccounted g leg = Any (λ c. c ≡ leg) g.compensation_legs ⊎ Any (IsNewReversal leg) g.target_legs

-- Each element has what any one of the list has.
All-of_Any :
    {A : Type 0} (Q : A → A → Type 0) (xs : List A) → All (λ t. (y : A) → Q y t → Any (Q y) xs) xs
All-of_Any Q [] = tt
All-of_Any Q (x ∷ xs) = (λ y h. inl h, All-map (λ t k y h. inr (k y h)) xs (All-of_Any Q xs))

-- Where the targets have ended, are of different planned legs and have filled no less than their
-- compensations reverse, and all of it while one of these is active, the engine makes compensations
-- that reverse exactly what every target has filled, counting what the active ones may still fill.
-- Each of them the group had before, or it is a pending order against one of the targets: on the
-- other side, for the same instrument and at the same price, for no more than that has filled.
pub ensure_compensation_legs_cover :
    (digest : StableId) (g : ExecutionGroup)
    → All IsStopped g.target_legs
    → All (IsWithin g.compensation_legs) g.target_legs
    → Pairs (λ a b. a.planned_leg_id ≢ b.planned_leg_id) g.target_legs
    → (after : List ExecutionLeg) × (ensure_compensation_legs digest g ≡ ok after)
      × All (IsCovered after) g.target_legs
      × All (IsAccounted g) after
unfolding ensure_compensation_legs
ensure_compensation_legs_cover digest g s w d =
    let r = reverse_targets_total digest g.target_legs g.compensation_legs s in
    let e : ensure_compensation_legs digest g ≡ ok (sorted leg_before r.0) = rw r.1 refl in
    let new =
      All-map (λ t k leg h. inr (k leg h)) g.target_legs (All-of_Any IsNewReversal g.target_legs) in
    let had = All-map (λ leg h. inl h) g.compensation_legs (All-members g.compensation_legs) in
    (
      sorted leg_before r.0,
      e,
      IsCovered-after digest g (sorted leg_before r.0) w d e,
      All-sorted leg_before (IsAccounted g) r.0 (
          reverse_targets-All digest (IsAccounted g) g.target_legs g.compensation_legs new had r.1),
    )
