-- ===== src/Prelude/Dict/Order.antt =====
-- What `sorted(d.items())`, a comprehension and a map of the values leave of a dictionary.
use mathlib.Core.Path.{◌≡◌, refl, ◌∙◌}
use mathlib.Core.Bool.{Bool, false}
use mathlib.Core.Logic.{inl, inr}
use mathlib.Core.Option.{none, some, some-injective}
use mathlib.Core.List.{[], ◌∷◌}
use Prim.Native.Nat.{ℕ}
use native.Mathlib.Omega.{arith}
use ai_investment_manager.Prelude.Tests.{Bool-cases, ◌==◌, if◌then◌else◌}
use ai_investment_manager.Prelude.Lists.{select}
use ai_investment_manager.Prelude.Predicates.{All}
use ai_investment_manager.Prelude.Sorting.{place, sorted}
use ai_investment_manager.Prelude.Dict.{Dict, get, put, remove, HasUniqueKeys}

module _ {V : Type 0} where
  -- What holds of all entries holds of one that is found.
  pub All-get_key :
      (P : ℕ → V → Type 0) (k : ℕ) (d : Dict V) {v : V}
      → All (λ e. P e.0 e.1) d
      → get k d ≡ some v
      → P k v
  unfolding get
  All-get_key P k [] a h = cc
  All-get_key P k ((j, x) ∷ d) {v} a h = elim (Bool-cases (k == j)) [
    | inl e ↦
        let f : some x ≡ some v = rw e at h in
        let g : x ≡ v = cc in let i : k ≡ j = ground arith in rw (i, ← g) a.0
    | inr e ↦ let f : get k d ≡ some v = rw e at h in All-get_key P k d a.1 f
  ]

  pub All-put_key :
      (P : ℕ → V → Type 0) (k : ℕ) (v : V) (d : Dict V)
      → All (λ e. P e.0 e.1) d
      → P k v
      → All (λ e. P e.0 e.1) (put k v d)
  unfolding put
  All-put_key P k v [] a h = (h, tt)
  All-put_key P k v (e ∷ d) a h = elim (Bool-cases (k == e.0)) [
    | inl c ↦ rw c (h, a.1)
    | inr c ↦ rw c (a.0, All-put_key P k v d a.1 h)
  ]

  pub All-remove : (P : ℕ × V → Type 0) (k : ℕ) (d : Dict V) → All P d → All P (remove k d)
  unfolding remove
  All-remove P k [] a = tt
  All-remove P k (e ∷ d) a = elim (Bool-cases (k == e.0)) [
    | inl c ↦ rw c a.1
    | inr c ↦ rw c (a.0, All-remove P k d a.1)
  ]

  -- In a dictionary every entry is found by its key.
  entries_later :
      (j : ℕ) (x : V) (d e : Dict V)
      → get j e ≡ none
      → All (λ u. get u.0 d ≡ some u.1) e
      → All (λ u. get u.0 ((j, x) ∷ d) ≡ some u.1) e
  unfolding get
  entries_later j x d [] n h = tt
  entries_later j x d ((i, y) ∷ e) n h = (ground arith, entries_later j x d e (ground arith) h.1)

  pub entries-get : (d : Dict V) → HasUniqueKeys d → All (λ e. get e.0 d ≡ some e.1) d
  unfolding get
  entries-get [] u = tt
  entries-get ((j, x) ∷ d) u = (ground arith, entries_later j x d d u.0 (entries-get d u.1))

  module _ (before : ℕ × V → ℕ × V → Bool) where
    get-place :
        (k : ℕ) (e : ℕ × V) (d : Dict V)
        → get e.0 d ≡ none
        → get k (place before e d) ≡ get k (e ∷ d)
    unfolding get place
    get-place k e [] n = refl
    get-place k e ((j, x) ∷ d) n = ground (arith, get-place k e d)

    place-HasUniqueKeys :
        (e : ℕ × V) (d : Dict V) → HasUniqueKeys (e ∷ d) → HasUniqueKeys (place before e d)
    unfolding get place
    place-HasUniqueKeys e [] u = u
    place-HasUniqueKeys e ((j, x) ∷ d) u = elim (Bool-cases (before (j, x) e)) [
      | inl c ↦
          let n : get e.0 d ≡ none = ground arith in
          let m : get j d ≡ none = u.1.0 in
          let l : get j (place before e d) ≡ none = ground (arith, get-place j e d n) in
          rw c (l, place-HasUniqueKeys e d (n, u.1.1))
      | inr c ↦ rw c u
    ]

    pub get-sorted : (k : ℕ) (d : Dict V) → HasUniqueKeys d → get k (sorted before d) ≡ get k d
    unfolding sorted get
    get-sorted k [] u = refl
    get-sorted k ((j, x) ∷ d) u =
        let n = get-place k (j, x) (sorted before d) (get-sorted j d u.1 ∙ u.0) in
        ground (arith, n, get-sorted k d u.1)

    pub sorted-HasUniqueKeys : (d : Dict V) → HasUniqueKeys d → HasUniqueKeys (sorted before d)
    unfolding sorted
    sorted-HasUniqueKeys [] u = tt
    sorted-HasUniqueKeys ((j, x) ∷ d) u =
        place-HasUniqueKeys (j, x) (sorted before d)
          (get-sorted j d u.1 ∙ u.0, sorted-HasUniqueKeys d u.1)

  -- A comprehension keeps the entries that pass.
  pub get-select-none :
      (test : ℕ × V → Bool) (k : ℕ) (d : Dict V) → get k d ≡ none → get k (select test d) ≡ none
  unfolding get
  get-select-none test k [] n = refl
  get-select-none test k ((j, x) ∷ d) n = ground (arith, get-select-none test k d)

  get-select_head :
      (test : ℕ × V → Bool) (j : ℕ) (x : V) (d : Dict V)
      → get j (select test d) ≡ none
      → get j (select test ((j, x) ∷ d)) ≡ (if test (j, x) then some x else none)
  unfolding get
  get-select_head test j x d n = elim (Bool-cases (test (j, x))) [
    | inl e ↦ rw e (ground arith)
    | inr e ↦ rw e n
  ]

  get-select_later :
      (test : ℕ × V → Bool) (k j : ℕ) (x : V) (d : Dict V)
      → k == j ≡ false
      → get k (select test ((j, x) ∷ d)) ≡ get k (select test d)
  unfolding get
  get-select_later test k j x d e = elim (Bool-cases (test (j, x))) [
    | inl c ↦ rw c (rw e refl)
    | inr c ↦ rw c refl
  ]

  pub get-select :
      (test : ℕ × V → Bool) (k : ℕ) (d : Dict V) {v : V}
      → HasUniqueKeys d
      → get k d ≡ some v
      → get k (select test d) ≡ (if test (k, v) then some v else none)
  unfolding get
  get-select test k [] u h = cc
  get-select test k ((j, x) ∷ d) {v} u h = elim (Bool-cases (k == j)) [
    | inl e ↦
        let h' : some x ≡ some v = rw e at h in
        let i : k ≡ j = ground arith in
        let n : get k (select test d) ≡ none = get-select-none test k d (rw i u.0) in
        rw (i, ← some-injective _ _ h') (get-select_head test j x d (rw (← i) n))
    | inr e ↦
        let h' : get k d ≡ some v = rw e at h in
        get-select_later test k j x d e ∙ get-select test k d u.1 h'
  ]

  pub select-HasUniqueKeys :
      (test : ℕ × V → Bool) (d : Dict V) → HasUniqueKeys d → HasUniqueKeys (select test d)
  select-HasUniqueKeys test [] u = tt
  select-HasUniqueKeys test ((j, x) ∷ d) u = elim (Bool-cases (test (j, x))) [
    | inl e ↦ rw e (get-select-none test j d u.0, select-HasUniqueKeys test d u.1)
    | inr e ↦ rw e (select-HasUniqueKeys test d u.1)
  ]
