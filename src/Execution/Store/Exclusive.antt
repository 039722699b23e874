-- ===== src/Execution/Store/Exclusive.antt =====
-- One group of a sleeve at a time.
use ai_investment_manager.Prelude.{
  ℕ, ◌≡◌, ◌≢◌, refl, sym, ◌∙◌, subst, ◌⊎◌, inl, inr, Bool, true, false, not, ◌&&◌, Bool-cases, none,
  some, Option-cases, List, [], ◌∷◌, ◌++◌, any, ◌==◌, if◌then◌else◌, Result, err, ok, Result-cases,
  All, All-map, Pairs, ◌>>◌, raise_if, arith, All-append,
}
use ai_investment_manager.Kernel.{StableId}
use ai_investment_manager.Execution.Leg.{Error, not_initial}
use ai_investment_manager.Execution.Group.{ExecutionGroup, group_terminal, same_group}
use ai_investment_manager.Execution.Store.{
  Tables, find, group, active_for_sleeve, allowed, is_current, update_rows, commit, needs_save,
  write_if_needed, save, check_initial, record_group, same_plan,
}
use ai_investment_manager.Execution.Store.Progression.{IsTransition, save-IsTransition}

-- Two rows have different identities, and of one sleeve one of them at least has ended.
abbrev pub IsCompatible : ExecutionGroup → ExecutionGroup → Type 0
IsCompatible a b =
    (a.group_id ≢ b.group_id)
    × (a.sleeve_id ≡ b.sleeve_id
        → (group_terminal a.status ≡ true) ⊎ (group_terminal b.status ≡ true))

abbrev pub IsExclusive : Tables → Type 0
IsExclusive t = Pairs IsCompatible t.execution_groups

Pairs-append_one :
    (g : ExecutionGroup) (rows : List ExecutionGroup)
    → Pairs IsCompatible rows
    → All (λ row. IsCompatible row g) rows
    → Pairs IsCompatible (rows ++ g ∷ [])
Pairs-append_one g [] p a = (tt, tt)
Pairs-append_one g (row ∷ rows) p a =
    (All-append (IsCompatible row) rows (g ∷ []) p.0 (a.0, tt), Pairs-append_one g rows p.1 a.1)

-- What is not found fails the test everywhere.
new_row-All :
    (g : ExecutionGroup) (rows : List ExecutionGroup)
    → find (λ row. row.group_id == g.group_id) rows ≡ none
    → find (λ row. row.sleeve_id == g.sleeve_id && not (group_terminal row.status)) rows ≡ none
    → All (λ row. IsCompatible row g) rows
new_row-All g [] h k = tt
new_row-All g (row ∷ rows) h k = (
  (
    λ e. ground arith,
    λ s. elim (Bool-cases (group_terminal row.status)) [ inl t ↦ inl t | inr t ↦ ground arith ],
  ),
  new_row-All g rows (ground arith) (ground arith),
)

-- The update of one row, as a function of the row.
abbrev updated_row : ExecutionGroup → ℕ → ExecutionGroup → ExecutionGroup
updated_row g e row = if is_current g e row then g else row

-- An update keeps the identity and the sleeve, and does not reopen an ended group.
abbrev Keeps : ExecutionGroup → ExecutionGroup → Type 0
Keeps a b =
    (b.group_id ≡ a.group_id)
    × (b.sleeve_id ≡ a.sleeve_id)
    × (group_terminal a.status ≡ true → group_terminal b.status ≡ true)

IsCompatible-kept :
    (a b c d : ExecutionGroup) → Keeps a c → Keeps b d → IsCompatible a b → IsCompatible c d
IsCompatible-kept a b c d h k p = (
  λ e. p.0 (sym h.0 ∙ e ∙ k.0),
  λ s. elim (p.1 (sym h.1 ∙ s ∙ k.1)) [ inl t ↦ inl (h.2 t) | inr t ↦ inr (k.2 t) ],
)

All-IsCompatible :
    (g a c : ExecutionGroup) (e : ℕ) (rows : List ExecutionGroup)
    → Keeps a c
    → All (λ row. Keeps row (updated_row g e row)) rows
    → All (IsCompatible a) rows
    → All (IsCompatible c) (update_rows g e rows)
unfolding update_rows
All-IsCompatible g a c e [] h k p = tt
All-IsCompatible g a c e (row ∷ rows) h k p = (
  IsCompatible-kept a row c (updated_row g e row) h k.0 p.0,
  All-IsCompatible g a c e rows h k.1 p.1,
)

Pairs-update_rows :
    (g : ExecutionGroup) (e : ℕ) (rows : List ExecutionGroup)
    → All (λ row. Keeps row (updated_row g e row)) rows
    → Pairs IsCompatible rows
    → Pairs IsCompatible (update_rows g e rows)
unfolding update_rows
Pairs-update_rows g e [] k p = tt
Pairs-update_rows g e (row ∷ rows) k p = (
  All-IsCompatible g row (updated_row g e row) e rows k.0 k.1 p.0,
  Pairs-update_rows g e rows k.1 p.1,
)

-- With different identities only the row that is found has the identity.
other_id :
    (row r g : ExecutionGroup)
    → (row.group_id == g.group_id) ≡ true
    → r.group_id ≡ g.group_id
    → row.group_id ≡ r.group_id
other_id row r g c e = ground arith

found-All :
    (g current : ExecutionGroup) (rows : List ExecutionGroup)
    → Pairs IsCompatible rows
    → find (λ row. row.group_id == g.group_id) rows ≡ some current
    → All (λ row. row.group_id ≡ g.group_id → row ≡ current) rows
found-All g current [] p h = tt
found-All g current (row ∷ rows) p h = elim (Bool-cases (row.group_id == g.group_id)) [
  | inl c ↦
      let k : some row ≡ some current = rw c at h in
      ((λ e. cc), All-map (λ r q e. elim (q.0 (other_id row r g c e)) [ ]) rows p.0)
  | inr c ↦
      let k : find (λ row. row.group_id == g.group_id) rows ≡ some current = rw c at h in
      ((λ e. ground arith), found-All g current rows p.1 k)
]

transition-Keeps : (a b : ExecutionGroup) → IsTransition a b → Keeps a b
unfolding allowed group_terminal
transition-Keeps a b h =
    let f = h.0 in let m = h.2 in (ground arith, ground arith, λ t. ground arith)

updated_row-Keeps :
    (g current row : ExecutionGroup) (e : ℕ)
    → IsTransition current g
    → (row.group_id ≡ g.group_id → row ≡ current)
    → Keeps row (updated_row g e row)
updated_row-Keeps g current row e h k = elim (Bool-cases (is_current g e row)) [
  | inl c ↦
      let id : row.group_id ≡ g.group_id = ground arith in
      rw c (subst (λ r. Keeps r g) (sym (k id)) (transition-Keeps current g h))
  | inr c ↦ rw c (refl, refl, λ t. t)
]

abbrev rewritten : ExecutionGroup → ℕ → Tables → Tables
rewritten g e t = record t { execution_groups = update_rows g e t.execution_groups }

commit_state :
    (g : ExecutionGroup) (e : ℕ) (t : Tables)
    → ((commit g e t).1 ≡ t) ⊎ (commit g e t ≡ (ok true, rewritten g e t))
unfolding commit
commit_state g e t = elim (Bool-cases (any (is_current g e) t.execution_groups)) [
  | inl c ↦ inr (rw c refl)
  | inr c ↦ inl (elim (Option-cases (group g.group_id t)) [
    | inl n ↦ rw (c, n) refl
    | inr s ↦ elim (Bool-cases (same_group s.0 g)) [
      | inl d ↦ rw (c, s.1, d) refl
      | inr d ↦ rw (c, s.1, d) refl
    ]
  ])
]

write_state :
    (g : ExecutionGroup) (e : ℕ) (needed : Result Error Bool) (t : Tables)
    → ((write_if_needed g e needed t).1 ≡ t)
      ⊎ (write_if_needed g e needed t ≡ (ok true, rewritten g e t))
unfolding write_if_needed
write_state g e (err raised) t = inl refl
write_state g e (ok false) t = inl refl
write_state g e (ok true) t = commit_state g e t

save_state :
    (g : ExecutionGroup) (e : ℕ) (t : Tables)
    → ((save g e t).1 ≡ t) ⊎ (save g e t ≡ (ok true, rewritten g e t))
unfolding save
save_state g e t = write_state g e (needs_save g e t) t

pub save-IsExclusive :
    (g : ExecutionGroup) (e : ℕ) (t : Tables) → IsExclusive t → IsExclusive (save g e t).1
unfolding group
save-IsExclusive g e t x = elim (save_state g e t) [
  | inl k ↦ rw k x
  | inr k ↦
      let s = save-IsTransition g e t (rewritten g e t) k in
      rw k (
        Pairs-update_rows g e t.execution_groups
          (All-map (λ row f. updated_row-Keeps g s.0 row e s.2 f) t.execution_groups
            (found-All g s.0 t.execution_groups x s.1))
          x)
]

record_group-IsExclusive :
    (digest : StableId) (g : ExecutionGroup) (t : Tables)
    → IsExclusive t
    → IsExclusive (record_group digest g t).1
unfolding record_group group active_for_sleeve
record_group-IsExclusive digest g t x =
    elim (Result-cases (raise_if (not (g.revision == 0)) not_initial >> check_initial digest g t)) [
      | inl e ↦ rw (record_group, e.1) x
      | inr c ↦ elim (Option-cases (group g.group_id t)) [
        | inr s ↦ elim (Bool-cases (same_group s.0 g)) [
          | inl d ↦ rw (record_group, c.1, s.1, d) x
          | inr d ↦ rw (record_group, c.1, s.1, d) x
        ]
        | inl n ↦ elim (Option-cases (active_for_sleeve g.sleeve_id t)) [
          | inr a ↦ rw (record_group, c.1, n, a.1) x
          | inl a ↦ elim (Bool-cases (any (same_plan g) t.execution_groups)) [
            | inl d ↦ rw (record_group, c.1, n, a, d) x
            | inr d ↦
                rw (record_group, c.1, n, a, d)
                  (Pairs-append_one g t.execution_groups x (new_row-All g t.execution_groups n a))
          ]
        ]
      ]
    ]

-- A call that writes.
pub data Write : Type 0 where
  record_call : ExecutionGroup → Write
  save_call : ExecutionGroup → ℕ → Write

-- The tables after a call, and after several; a call that raises writes nothing.
abbrev pub after_write : StableId → Write → Tables → Tables
after_write digest (record_call g) t = (record_group digest g t).1
after_write digest (save_call g e) t = (save g e t).1

abbrev pub after_writes : StableId → List Write → Tables → Tables
after_writes digest [] t = t
after_writes digest (w ∷ ws) t = after_writes digest ws (after_write digest w t)

-- Whatever groups are recorded and saved, in whatever order and by whatever callers, no identity
-- stands twice in the table, and of every sleeve at most one group has not ended, where that holds
-- at first.
pub after_writes-IsExclusive :
    (digest : StableId) (writes : List Write) (t : Tables)
    → IsExclusive t
    → IsExclusive (after_writes digest writes t)
after_writes-IsExclusive digest [] t x = x
after_writes-IsExclusive digest (record_call g ∷ ws) t x =
    after_writes-IsExclusive digest ws (record_group digest g t).1
      (record_group-IsExclusive digest g t x)
after_writes-IsExclusive digest (save_call g e ∷ ws) t x =
    after_writes-IsExclusive digest ws (save g e t).1 (save-IsExclusive g e t x)
