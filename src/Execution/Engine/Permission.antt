-- ===== src/Execution/Engine/Permission.antt =====
-- The orders that the engine may submit.
use ai_investment_manager.Prelude.{
  Matched, ℕ, ◌≡◌, refl, ◌<◌, ◌⊎◌, inl, inr, true, false, not, Bool-cases, Option, none, some, List,
  [], ◌∷◌, any, ok, All, All-map, Any, Any-map, ap, ◌∙◌, ◌≤◌, arith,
}
use ai_investment_manager.Prelude.Dict.{Dict, get, index_by, get-index_by}
use ai_investment_manager.Kernel.{Time}
use ai_investment_manager.Execution.Leg.{ExecutionLeg, terminal, is_side, same_instrument}
use ai_investment_manager.Execution.Group.{ExecutionGroup, reverses, check_compensations}
use ai_investment_manager.Execution.LegSync.Step.{LegStep}
use ai_investment_manager.Execution.Engine.Progress.{GroupStep, IsSound}

-- The leg reverses the target leg: the same instrument and price, the other side, and, if the target
-- has ended, no more than it has filled.
abbrev pub IsReversal : ExecutionLeg → ExecutionLeg → Type 0
IsReversal leg a =
    (same_instrument leg.instrument a.instrument ≡ true)
    × (is_side leg.side a.side ≡ false)
    × (leg.reference_price ≡ a.reference_price)
    × ((terminal a.status ≡ false) ⊎ (leg.requested_quantity ≤ a.filled_quantity))

-- The leg reverses one of the group's target legs.
abbrev pub Reverses : ExecutionGroup → ExecutionLeg → Type 0
Reverses g leg = Any (IsReversal leg) g.target_legs

reverses-fields :
    (leg t : ExecutionLeg)
    → reverses leg (some t) ≡ true
    → (same_instrument leg.instrument t.instrument ≡ true)
      × (is_side leg.side t.side ≡ false)
      × (leg.reference_price ≡ t.reference_price)
      × (leg.requested_quantity ≤ t.filled_quantity)
reverses-fields leg t h = ground arith

-- What reverses a later state of a target leg reverses the target leg.
earlier-IsReversal :
    (leg t a : ExecutionLeg) → reverses leg (some t) ≡ true → LegStep a t → IsReversal leg a
earlier-IsReversal leg t a h k =
    let f = reverses-fields leg t h in
    let i : t.instrument ≡ a.instrument = ap (λ x. x.instrument) k.0 in
    let s : t.side ≡ a.side = ap (λ x. x.side) k.0 in
    let p : t.reference_price ≡ a.reference_price = ap (λ x. x.reference_price) k.0 in
    (
      rw (← i) f.0,
      rw (← s) f.1,
      f.2 ∙ p,
      elim (Bool-cases (terminal a.status)) [ inl e ↦ inr (rw (← k.1 e) f.3) | inr e ↦ inl e ],
    )

-- A target leg while the group is valid, or a reversal.
abbrev pub IsPermitted : ExecutionGroup → Time → ExecutionLeg → Type 0
IsPermitted g as_of leg =
    (as_of < g.valid_until) × Any (λ a. a ≡ leg) g.target_legs ⊎ Reverses g leg

-- The predecessor of a leg.
earlier_leg :
    (xs ys : List ExecutionLeg) (t : ExecutionLeg)
    → Matched LegStep xs ys
    → Any (λ y. y ≡ t) ys
    → Any (λ a. LegStep a t) xs
earlier_leg [] [] t m h = h
earlier_leg [] (y ∷ ys) t m h = elim m [ ]
earlier_leg (x ∷ xs) [] t m h = elim m [ ]
earlier_leg (x ∷ xs) (y ∷ ys) t m (inl e) = inl (rw e at m.0)
earlier_leg (x ∷ xs) (y ∷ ys) t m (inr h) = inr (earlier_leg xs ys t m.1 h)

found_target :
    (leg : ExecutionLeg) (found : Option ExecutionLeg)
    → not (reverses leg found) ≡ false
    → (t : ExecutionLeg) × (found ≡ some t) × (reverses leg (some t) ≡ true)
found_target leg none h = cc
found_target leg (some t) h =
    (t, refl, elim (Bool-cases (reverses leg (some t))) [ inl e ↦ e | inr e ↦ ground arith ])

reverses-All :
    (d : Dict ExecutionLeg) (legs : List ExecutionLeg)
    → any (λ leg. not (reverses leg (get leg.planned_leg_id d))) legs ≡ false
    → All
        (λ leg.
          (t : ExecutionLeg) × (get leg.planned_leg_id d ≡ some t) × (reverses leg (some t) ≡ true))
        legs
reverses-All d [] h = tt
reverses-All d (leg ∷ legs) h =
    (found_target leg (get leg.planned_leg_id d) (ground arith), reverses-All d legs (ground arith))

pub check_compensations-All :
    (d : Dict ExecutionLeg) (legs : List ExecutionLeg)
    → check_compensations d legs ≡ ok tt
    → All
        (λ leg.
          (t : ExecutionLeg) × (get leg.planned_leg_id d ≡ some t) × (reverses leg (some t) ≡ true))
        legs
unfolding check_compensations
check_compensations-All d legs h = reverses-All d legs (ground arith)

get_nothing : (k : ℕ) (t : ExecutionLeg) → get k [] ≡ some t → ⊥
unfolding get
get_nothing k t h = cc

-- The compensations of a legal successor reverse fills of the first group's targets.
pub IsSound-Reverses :
    (g h : ExecutionGroup) → GroupStep g h → IsSound h → All (Reverses g) h.compensation_legs
IsSound-Reverses g h s q =
    All-map
      (λ leg r.
        let earlier : Any (λ a. LegStep a r.0) g.target_legs =
          elim (get-index_by (λ t. t.planned_leg_id) leg.planned_leg_id [] h.target_legs r.0 r.1) [
            | inl e ↦ elim (get_nothing leg.planned_leg_id r.0 e) [ ]
            | inr a ↦ earlier_leg g.target_legs h.target_legs r.0 s.legs a
          ] in
        Any-map (λ a k. earlier-IsReversal leg r.0 a r.2 k) g.target_legs earlier)
      h.compensation_legs
      (check_compensations-All (index_by (λ t. t.planned_leg_id) [] h.target_legs)
        h.compensation_legs q.compensated)
