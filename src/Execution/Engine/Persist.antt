-- ===== src/Execution/Engine/Persist.antt =====
-- `_evolve`, `_persist` and `_save` keep the row of the group legal.
use ai_investment_manager.Prelude.{
  Matched, ℕ, ◌+◌, ◌≡◌, refl, sym, ◌∙◌, ap, subst, true, some, Result, err, ok, >>=-eq-ok, ◌>>=◌,
  arith,
}
use ai_investment_manager.Kernel.{StableId, Time}
use ai_investment_manager.Execution.Leg.{Error}
use ai_investment_manager.Execution.Group.{
  ExecutionGroup, same_group, residual_quantities, checked_group,
}
use ai_investment_manager.Execution.Change.{Changes, changed, unchanged, check_kept_legs, evolve}
use ai_investment_manager.Execution.Store.{Tables, group, save}
use ai_investment_manager.Execution.Store.Saving.{same_group-revision, save-Triple}
use ai_investment_manager.Execution.Effect.{Effect}
use ai_investment_manager.Execution.Venue.{ProductOrderVenue, World, put_tables, on_tables}
use ai_investment_manager.Execution.Triple.{
  Triple, Outcome, >>=-Triple, >>-Triple, if-Triple, lift-Triple, return-Triple, from-Triple,
  weaken-Triple,
}
use ai_investment_manager.Execution.LegSync.Step.{LegStep}
use ai_investment_manager.Execution.Engine.{persist, save_changes}
use ai_investment_manager.Execution.Engine.Progress.{
  Moves, GroupStep, GroupStep-trans, IsSound, checked_group-IsSound,
}

pub evolve-IsSound :
    (digest : StableId) (g : ExecutionGroup) (as_of : Time) (c : Changes) (h : ExecutionGroup)
    → evolve digest g as_of c ≡ ok h
    → (h ≡ record (changed g c) { updated_at = as_of }) × IsSound h
unfolding evolve
evolve-IsSound digest g as_of c h e =
    let new : ExecutionGroup = record (changed g c) { updated_at = as_of } in
    let a =
      >>=-eq-ok (check_kept_legs digest c.target_legs g.target_legs)
        (λ _.
          check_kept_legs digest c.compensation_legs g.compensation_legs >>= λ _. checked_group new)
        e in
    let b =
      >>=-eq-ok (check_kept_legs digest c.compensation_legs g.compensation_legs)
        (λ _. checked_group new) a.2 in
    let k = checked_group-IsSound new h b.2 in (k.0, rw k.0 k.1)

-- The revision and the times are no part of what the validator relates.
pub IsSound-revision :
    (g : ExecutionGroup) (n : ℕ) → IsSound g → IsSound (record g { revision = n })
unfolding residual_quantities
IsSound-revision g n h = record {
  compensated = h.compensated;
  hedged_filled = h.hedged_filled;
  flat_empty = h.flat_empty;
}

pub evolved-GroupStep :
    (g : ExecutionGroup) (as_of : Time) (c : Changes) (h : ExecutionGroup)
    → h ≡ record (changed g c) { updated_at = as_of }
    → Matched LegStep g.target_legs (changed g c).target_legs
    → Moves g.status (changed g c).status
    → GroupStep g (record h { revision = g.revision + 1 })
unfolding changed
evolved-GroupStep g as_of c h e m p =
    rw e record { frozen = ground arith; legs = m; revision = omega arith; path = p }

same_group-status : (a b : ExecutionGroup) → same_group a b ≡ true → b.status ≡ a.status
unfolding same_group
same_group-status a b h = ground arith

absurd_next : (a b : ℕ) → a ≡ b → b ≡ a + 1 → ⊥
absurd_next a b h k = omega (arith, h, k)

module _ (digest : StableId) {V : Type 0} (venue : ProductOrderVenue V) (J : V → Type 0)
    (first : ExecutionGroup) where
  abbrev pub Known : ExecutionGroup → Type 0
  Known h = GroupStep first h × IsSound h

  abbrev pub Stored : ExecutionGroup → Tables → Type 0
  Stored h t = group first.group_id t ≡ some h

  -- The row of the group is h.
  abbrev pub At : ExecutionGroup → World V → Type 0
  At h w = (J w.venue × Stored h w.tables) × Known h

  -- The row of the group is some legal successor of the first.
  abbrev pub Legal : World V → Type 0
  Legal w = (h : ExecutionGroup) × At h w

  put_tables-Outcome :
      {A : Type 0} (P : A → Tables → Type 0) (E : Tables → Type 0) (w : World V)
      (r : Result Error A × Tables)
      → J w.venue
      → Outcome P E r
      → Outcome (λ a u. J u.venue × P a u.tables) (λ u. J u.venue × E u.tables) (put_tables w r)
  unfolding Outcome
  put_tables-Outcome P E w (ok a, t) j h = (j, h)
  put_tables-Outcome P E w (err e, t) j h = (j, h)

  on_tables-Triple :
      {A : Type 0} {I : Tables → Type 0} {P : A → Tables → Type 0} {E : Tables → Type 0}
      (call : Effect Tables A)
      → Triple I call P E
      → Triple
          (λ w. J w.venue × I w.tables)
          (on_tables call)
          (λ a w. J w.venue × P a w.tables)
          (λ w. J w.venue × E w.tables)
  unfolding on_tables
  on_tables-Triple {P = P} {E = E} call h = record {
    run = λ w i. put_tables-Outcome P E w (call w.tables) i.0 (h.run w.tables i.1);
  }

  save_row-Triple :
      (current updated : ExecutionGroup)
      → Known current
      → GroupStep current updated
      → IsSound updated
      → updated.revision ≡ current.revision + 1
      → Triple
          (λ w. J w.venue × Stored current w.tables)
          (on_tables (save updated current.revision))
          (λ b w. At updated w)
          Legal
  save_row-Triple current updated k s q e =
      let t = GroupStep-trans first current updated k.0 s in
      let h =
        subst
          (λ id.
            Triple (λ u. group id u ≡ some current) (save updated current.revision)
              (λ b u. group id u ≡ some updated) (λ u. group id u ≡ some current))
          t.frozen.0 (save-Triple updated current e) in
      weaken-Triple (on_tables-Triple (save updated current.revision) h) (λ b w p. (p, (t, q)))
        (λ w p. (current, (p, k)))

  -- `_persist` of the next revision.
  pub persist-Triple :
      (current updated : ExecutionGroup)
      → GroupStep current updated
      → IsSound updated
      → updated.revision ≡ current.revision + 1
      → Triple
          (At current)
          (persist digest venue current updated)
          (λ r w. At r w × (r ≡ updated))
          Legal
  unfolding persist
  persist-Triple current updated s q e = from-Triple λ k.
      if-Triple (same_group current updated) _ _
        (λ t. let n = same_group-revision current updated t in elim (absurd_next _ _ n e) [ ])
        (λ t.
          >>-Triple _ _ (save_row-Triple current updated k s q e)
            (return-Triple updated (λ w p. (p, refl))))

  -- A change of a group that keeps the contracts of its legs and moves its status along the table.
  pub save_changes-Triple :
      (g : ExecutionGroup) (as_of : Time) (c : Changes)
      → Matched LegStep g.target_legs (changed g c).target_legs
      → Moves g.status (changed g c).status
      → Triple
          (At g)
          (save_changes digest venue g as_of c)
          (λ h w. At h w × (h.status ≡ (changed g c).status))
          Legal
  unfolding save_changes
  save_changes-Triple g as_of c m p =
      if-Triple (unchanged g c) _ _
        (λ e. return-Triple g (λ w k. (k, sym (same_group-status g (changed g c) e))))
        (λ e.
          >>=-Triple _ _
            (lift-Triple (evolve digest g as_of c)
              (λ h r w k. (k, evolve-IsSound digest g as_of c h r)) (λ w k. (g, k)))
            (λ h. from-Triple λ f.
              weaken-Triple
                (persist-Triple g (record h { revision = g.revision + 1 })
                  (evolved-GroupStep g as_of c h f.0 m p) (IsSound-revision h (g.revision + 1) f.1)
                  refl)
                (λ r w q. (q.0, ap (λ x. x.status) q.1 ∙ ap (λ x. x.status) f.0)) (λ w l. l)))
