-- ===== src/Execution/Store/Saving.antt =====
-- `save` on a row that is current.
use ai_investment_manager.Prelude.{
  ℕ, ◌+◌, ◌≡◌, refl, sym, Bool, true, false, inl, inr, Bool-cases, some, List, [], ◌∷◌, any, ◌==◌,
  Result, err, ok, ◌>>◌, Result-cases, All, arith,
}
use ai_investment_manager.Execution.Leg.{Error, concurrent_update}
use ai_investment_manager.Execution.Group.{ExecutionGroup, same_group}
use ai_investment_manager.Execution.Triple.{Triple, Outcome}
use ai_investment_manager.Execution.Store.{
  Tables, find, group, is_current, update_rows, commit, needs_save, write_if_needed,
  check_transition, save,
}

pub same_group-revision : (a b : ExecutionGroup) → same_group a b ≡ true → a.revision ≡ b.revision
unfolding same_group
same_group-revision a b h = ground arith

-- The row that `group` finds is replaced.
find-update_rows :
    (g current : ExecutionGroup) (rows : List ExecutionGroup)
    → find (λ row. row.group_id == g.group_id) rows ≡ some current
    → (any (is_current g current.revision) rows ≡ true)
      × (find (λ row. row.group_id == g.group_id) (update_rows g current.revision rows) ≡ some g)
unfolding update_rows
find-update_rows g current [] h = cc
find-update_rows g current (row ∷ rows) h = ground (arith, find-update_rows g current rows)

same_group_next : (a b : ExecutionGroup) → b.revision ≡ a.revision + 1 → same_group a b ≡ false
same_group_next a b h = elim (Bool-cases (same_group a b)) [
  | inl e ↦ let k = same_group-revision a b e in ground arith
  | inr e ↦ e
]

needs_save_current :
    (g current : ExecutionGroup) (t : Tables)
    → group g.group_id t ≡ some current
    → g.revision ≡ current.revision + 1
    → needs_save g current.revision t ≡ (check_transition current g >> ok true)
unfolding needs_save
needs_save_current g current t h e = let k = same_group_next current g e in ground arith

commit_current :
    (g current : ExecutionGroup) (t : Tables)
    → group g.group_id t ≡ some current
    → commit g current.revision t
      ≡ (ok true, record t { execution_groups = update_rows g current.revision t.execution_groups })
unfolding commit group
commit_current g current t h =
    let k = find-update_rows g current t.execution_groups h in rw k.0 refl

abbrev pub with_row : ExecutionGroup → ExecutionGroup → Tables → Tables
with_row g current t = record t {
  execution_groups = update_rows g current.revision t.execution_groups;
}

-- On a current row `save` is the check of the transition and the update.
abbrev pub checked_write :
    ExecutionGroup → ExecutionGroup → Tables → Result Error Unit → Result Error Bool × Tables
checked_write g current t (err e) = (err e, t)
checked_write g current t (ok _) = (ok true, with_row g current t)

write_checked :
    (g current : ExecutionGroup) (t : Tables) (checked : Result Error Unit)
    → commit g current.revision t ≡ (ok true, with_row g current t)
    → write_if_needed g current.revision (checked >> ok true) t ≡ checked_write g current t checked
unfolding write_if_needed
write_checked g current t (err e) h = refl
write_checked g current t (ok u) h = h

pub save_current :
    (g current : ExecutionGroup) (t : Tables)
    → group g.group_id t ≡ some current
    → g.revision ≡ current.revision + 1
    → save g current.revision t ≡ checked_write g current t (check_transition current g)
unfolding save
save_current g current t h e =
    rw (needs_save_current g current t h e)
      (write_checked g current t (check_transition current g) (commit_current g current t h))

written :
    (g current : ExecutionGroup) (t : Tables)
    → group g.group_id t ≡ some current
    → group g.group_id (with_row g current t) ≡ some g
unfolding group
written g current t h = (find-update_rows g current t.execution_groups h).1

-- A raising `save` writes nothing, and a `save` that returns has put the group into its row.
pub save-Triple :
    (g current : ExecutionGroup)
    → g.revision ≡ current.revision + 1
    → Triple
        (λ t. group g.group_id t ≡ some current)
        (save g current.revision)
        (λ b t. group g.group_id t ≡ some g)
        (λ t. group g.group_id t ≡ some current)
unfolding Outcome
save-Triple g current e = record {
  run = λ t h. rw (save_current g current t h e) (elim (Result-cases (check_transition current g)) [
    | inl k ↦ rw k.1 h
    | inr k ↦ rw k.1 (written g current t h)
  ]);
}

-- No other row has the identity.
abbrev pub IsOnlyRow : ExecutionGroup → List ExecutionGroup → Type 0
IsOnlyRow current rows =
    All (λ row. row.group_id ≡ current.group_id → row.revision ≡ current.revision) rows

no_current_row :
    (mine other current : ExecutionGroup) (rows : List ExecutionGroup)
    → mine.group_id ≡ other.group_id
    → other.group_id ≡ current.group_id
    → other.revision ≡ current.revision + 1
    → IsOnlyRow current rows
    → any (is_current mine current.revision) (update_rows other current.revision rows) ≡ false
unfolding update_rows
no_current_row mine other current [] i j n o = refl
no_current_row mine other current (row ∷ rows) i j n o =
    ground (arith, no_current_row mine other current rows i j n o.1)

found_id :
    (id : ℕ) (c : ExecutionGroup) (rows : List ExecutionGroup)
    → find (λ row. row.group_id == id) rows ≡ some c
    → c.group_id ≡ id
found_id id c [] h = cc
found_id id c (row ∷ rows) h = ground (arith, found_id id c rows)

checked_write_ok :
    (g current : ExecutionGroup) (t u : Tables) (checked : Result Error Unit)
    → checked_write g current t checked ≡ (ok true, u)
    → u ≡ with_row g current t
checked_write_ok g current t u (err e) h = cc
checked_write_ok g current t u (ok _) h = cc

commit_late :
    (mine other current : ExecutionGroup) (u : Tables)
    → any (is_current mine current.revision) u.execution_groups ≡ false
    → group mine.group_id u ≡ some other
    → same_group other mine ≡ false
    → commit mine current.revision u ≡ (err concurrent_update, u)
unfolding commit
commit_late mine other current u a b c = rw (a, b, c) refl

-- Two writers that have read the same row: once one of them has saved its successor, a different
-- successor of the same revision is refused, whenever it comes to its update, and the row is not
-- touched.
pub commit_exclusive :
    (mine other current : ExecutionGroup) (t u : Tables)
    → group other.group_id t ≡ some current
    → other.revision ≡ current.revision + 1
    → mine.group_id ≡ other.group_id
    → same_group other mine ≡ false
    → IsOnlyRow current t.execution_groups
    → save other current.revision t ≡ (ok true, u)
    → commit mine current.revision u ≡ (err concurrent_update, u)
unfolding group
commit_exclusive mine other current t u r n i d q h =
    let checked : checked_write other current t (check_transition current other) ≡ (ok true, u) =
      rw (save_current other current t r n) at h in
    let e = checked_write_ok other current t u (check_transition current other) checked in
    let id = found_id other.group_id current t.execution_groups r in
    rw e (
      commit_late mine other current (with_row other current t)
        (no_current_row mine other current t.execution_groups i (sym id) n q)
        (rw i (written other current t r)) d)
