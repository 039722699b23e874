-- ===== src/Execution/Engine/Legality.antt =====
-- What `run_once` guarantees about the row of a group and about the venue.
use ai_investment_manager.Prelude.{ℕ, ◌≡◌, refl, some, ◌++◌, Result, err, ok}
use ai_investment_manager.Kernel.{StableId, Time}
use ai_investment_manager.Execution.Leg.{Error, buy, sell, ExecutionLeg}
use ai_investment_manager.Execution.Group.{ExecutionGroup, flat}
use ai_investment_manager.Execution.Group.Balance.{filled_on, residual_quantities_balanced}
use ai_investment_manager.Execution.Store.{group}
use ai_investment_manager.Execution.Effect.{◌>>=◌, continue}
use ai_investment_manager.Execution.Venue.{ProductOrderVenue, World}
use ai_investment_manager.Execution.Triple.{Outcome}
use ai_investment_manager.Execution.Engine.{read_group, advance_found, advance, run_once}
use ai_investment_manager.Execution.Engine.Progress.{GroupStep, GroupStep-refl, IsSound}
use ai_investment_manager.Execution.Engine.Permission.{IsPermitted}
use ai_investment_manager.Execution.Engine.Run.{advance-Triple}

-- The row of the first group is h.
abbrev pub HasRow : {V : Type 0} → ExecutionGroup → ExecutionGroup → World V → Type 0
HasRow first h w = group first.group_id w.tables ≡ some h

-- The row of the group is a sound successor of the first.
abbrev pub IsLegal : {V : Type 0} → ExecutionGroup → ExecutionGroup → World V → Type 0
IsLegal first h w = HasRow first h w × GroupStep first h × IsSound h

run_once_found :
    {V : Type 0} (digest : StableId) (venue : ProductOrderVenue V) (first : ExecutionGroup)
    (as_of : Time) (w : World V)
    → HasRow first first w
    → run_once digest venue first.group_id as_of w ≡ advance digest venue first as_of w
unfolding run_once read_group advance_found ◌>>=◌ continue
run_once_found digest venue first as_of w h = rw h refl

split-Outcome :
    {V : Type 0} (J : V → Type 0) (first : ExecutionGroup)
    (r : Result Error ExecutionGroup × World V)
    → Outcome
        (λ h w. (J w.venue × HasRow first h w) × (GroupStep first h × IsSound h))
        (λ w.
          (h : ExecutionGroup) × ((J w.venue × HasRow first h w) × (GroupStep first h × IsSound h)))
        r
    → J r.1.venue × Outcome (IsLegal first) (λ w. (h : ExecutionGroup) × IsLegal first h w) r
unfolding Outcome
split-Outcome J first (ok h, w) o = (o.0.0, (o.0.1, o.1.0, o.1.1))
split-Outcome J first (err e, w) (h, o) = (o.0.0, (h, (o.0.1, o.1.0, o.1.1)))

run_once-Outcome :
    {V : Type 0} (digest : StableId) (venue : ProductOrderVenue V) (J : V → Type 0)
    (first : ExecutionGroup) (as_of : Time) (w : World V)
    → ((id : ℕ) (v : V) → J v → J (venue.query id v).1)
    → ((leg : ExecutionLeg)
        → IsPermitted first as_of leg
        → (t : Time) (v : V) → J v
        → J (venue.submit leg t v).1)
    → ((id : ℕ) (t : Time) (v : V) → J v → J (venue.cancel id t v).1)
    → HasRow first first w
    → IsSound first
    → J w.venue
    → J (run_once digest venue first.group_id as_of w).1.venue
      × Outcome
          (IsLegal first)
          (λ u. (h : ExecutionGroup) × IsLegal first h u)
          (run_once digest venue first.group_id as_of w)
run_once-Outcome digest venue J first as_of w q s c h sound j =
    rw (run_once_found digest venue first as_of w h) (
      split-Outcome J first (advance digest venue first as_of w) (
        (advance-Triple digest venue J first as_of q s c).run w
          ((j, h), (GroupStep-refl first, sound))))

-- A run of the engine on a sound group, whatever the venue answers, returns the group that the
-- store then holds; it has kept the frozen contract and the contract of every target leg, changed
-- no ended target leg, lowered no revision, moved its status along the table of transitions, and is
-- sound. Where the run raises, the store holds a group of which the same is true.
pub run_once-IsLegal :
    {V : Type 0} (digest : StableId) (venue : ProductOrderVenue V) (first : ExecutionGroup)
    (as_of : Time) (w : World V)
    → HasRow first first w
    → IsSound first
    → Outcome
        (IsLegal first)
        (λ u. (h : ExecutionGroup) × IsLegal first h u)
        (run_once digest venue first.group_id as_of w)
run_once-IsLegal digest venue first as_of w h sound =
    (run_once-Outcome digest venue (λ _. Unit) first as_of w (λ _ _ _. tt) (λ _ _ _ _ _. tt)
      (λ _ _ _ _. tt) h sound tt).1

-- All that a run does to the venue is to query, to cancel, and to submit, before the group's end
-- of validity, its target legs, or reversals of these: for the same instrument and at the same
-- price, on the other side, and for no more than the target leg has filled where that had ended
-- before the run. So a property of the venue's state that these calls keep holds after the run,
-- also where it raises.
pub run_once_submissions :
    {V : Type 0} (digest : StableId) (venue : ProductOrderVenue V) (J : V → Type 0)
    (first : ExecutionGroup) (as_of : Time) (w : World V)
    → ((id : ℕ) (v : V) → J v → J (venue.query id v).1)
    → ((leg : ExecutionLeg)
        → IsPermitted first as_of leg
        → (t : Time) (v : V) → J v
        → J (venue.submit leg t v).1)
    → ((id : ℕ) (t : Time) (v : V) → J v → J (venue.cancel id t v).1)
    → HasRow first first w
    → IsSound first
    → J w.venue
    → J (run_once digest venue first.group_id as_of w).1.venue
run_once_submissions digest venue J first as_of w q s c h sound j =
    (run_once-Outcome digest venue J first as_of w q s c h sound j).0

-- A group that a run returns as flat has bought as much of every instrument as it has sold.
pub run_once_flat :
    {V : Type 0} (digest : StableId) (venue : ProductOrderVenue V) (first : ExecutionGroup)
    (as_of : Time) (w u : World V) (h : ExecutionGroup) (key : ℕ)
    → HasRow first first w
    → IsSound first
    → run_once digest venue first.group_id as_of w ≡ (ok h, u)
    → h.status ≡ flat
    → filled_on buy key (h.target_legs ++ h.compensation_legs)
      ≡ filled_on sell key (h.target_legs ++ h.compensation_legs)
unfolding Outcome
run_once_flat digest venue first as_of w u h key row sound e f =
    let legal : IsLegal first h u =
      rw e at (run_once-IsLegal digest venue first as_of w row sound) in
    residual_quantities_balanced h key (legal.2.flat_empty (rw f refl))
