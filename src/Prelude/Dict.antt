-- ===== src/Prelude/Dict.antt =====
-- A Python `dict` keyed by identities, in insertion order.
pub mod Order
use Prim.Native.Nat.{ℕ, suc}
use mathlib.Core.Path.{◌≡◌, refl, ap, subst}
use mathlib.Core.Bool.{Bool}
use mathlib.Core.Logic.{◌≢◌, ◌⊎◌, inl, inr}
use mathlib.Core.Option.{Option, none, some}
use mathlib.Core.List.{List, [], ◌∷◌}
use native.Mathlib.Omega.{arith}
use ai_investment_manager.Prelude.Tests.{Bool-cases, ◌==◌, if◌then◌else◌, is_some}
use ai_investment_manager.Prelude.Lists.{length}
use ai_investment_manager.Prelude.Predicates.{All, Any}

abbrev pub Dict : Type 0 → Type 0
Dict V = List (ℕ × V)

module _ {V : Type 0} where
  -- `d.get(k)`
  unfoldable pub get : ℕ → Dict V → Option V
  get k [] = none
  get k ((j, v) ∷ d) = if k == j then some v else get k d

  -- `k in d`
  abbrev pub has_key : ℕ → Dict V → Bool
  has_key k d = is_some (get k d)

  -- `d[k] = v`
  unfoldable pub put : ℕ → V → Dict V → Dict V
  put k v [] = (k, v) ∷ []
  put k v (e ∷ d) = if k == e.0 then (k, v) ∷ d else e ∷ put k v d

  -- `del d[k]`
  unfoldable pub remove : ℕ → Dict V → Dict V
  remove k [] = []
  remove k (e ∷ d) = if k == e.0 then d else e ∷ remove k d

  -- `d.values()`
  unfoldable pub values : Dict V → List V
  values [] = []
  values ((k, v) ∷ d) = v ∷ values d

  -- `{key(v): v for v in xs}`
  unfoldable pub index_by : (V → ℕ) → Dict V → List V → Dict V
  unfolding put
  index_by key d [] = d
  index_by key d (v ∷ vs) = index_by key (put (key v) v d) vs

  -- No key stands twice.
  abbrev pub HasUniqueKeys : Dict V → Type 0
  HasUniqueKeys [] = Unit
  HasUniqueKeys ((k, v) ∷ d) = (get k d ≡ none) × HasUniqueKeys d

  pub get-put :
      (j k : ℕ) (v : V) (d : Dict V) → get j (put k v d) ≡ (if j == k then some v else get j d)
  unfolding get put
  get-put j k v [] = refl
  get-put j k v (e ∷ d) = ground (arith, get-put j k v d)

  pub put-HasUniqueKeys : (k : ℕ) (v : V) (d : Dict V) → HasUniqueKeys d → HasUniqueKeys (put k v d)
  unfolding get put
  put-HasUniqueKeys k v [] h = (refl, tt)
  put-HasUniqueKeys k v (e ∷ d) h = ground (arith, put-HasUniqueKeys k v d h.1, get-put e.0 k v d)

  pub get-remove_ne : (j k : ℕ) (d : Dict V) → j ≢ k → get j (remove k d) ≡ get j d
  unfolding get remove
  get-remove_ne j k [] h = refl
  get-remove_ne j k (e ∷ d) h = ground (arith, get-remove_ne j k d h)

  pub get-remove_self : (k : ℕ) (d : Dict V) → HasUniqueKeys d → get k (remove k d) ≡ none
  unfolding get remove
  get-remove_self k [] h = refl
  get-remove_self k (e ∷ d) h = ground (arith, get-remove_self k d h.1)

  pub remove-HasUniqueKeys : (k : ℕ) (d : Dict V) → HasUniqueKeys d → HasUniqueKeys (remove k d)
  unfolding get remove
  remove-HasUniqueKeys k [] h = tt
  remove-HasUniqueKeys k (e ∷ d) h =
      ground (arith, remove-HasUniqueKeys k d h.1, get-remove_ne e.0 k d)

  pub index_by-HasUniqueKeys :
      (key : V → ℕ) (d : Dict V) (vs : List V) → HasUniqueKeys d → HasUniqueKeys (index_by key d vs)
  unfolding index_by
  index_by-HasUniqueKeys key d [] h = h
  index_by-HasUniqueKeys key d (v ∷ vs) h =
      index_by-HasUniqueKeys key (put (key v) v d) vs (put-HasUniqueKeys (key v) v d h)

  -- A value of the dictionary stands in the sequence, or was there before.
  pub get-index_by :
      (key : V → ℕ) (k : ℕ) (d : Dict V) (vs : List V) (v : V)
      → get k (index_by key d vs) ≡ some v
      → (get k d ≡ some v) ⊎ Any (λ x. x ≡ v) vs
  unfolding index_by
  get-index_by key k d [] v h = inl h
  get-index_by key k d (x ∷ xs) v h = elim (get-index_by key k (put (key x) x d) xs v h) [
    | inl e ↦ let g = get-put k (key x) x d in ground arith
    | inr a ↦ inr (inr a)
  ]

  -- What holds of all values holds of a value that is found, and is kept by an update.
  pub All-get :
      (P : V → Type 0) (k : ℕ) (d : Dict V) (v : V) → All (λ e. P e.1) d → get k d ≡ some v → P v
  unfolding get
  All-get P k [] v a h = cc
  All-get P k ((j, x) ∷ d) v a h = elim (Bool-cases (k == j)) [
    | inl e ↦ let f : some x ≡ some v = rw e at h in let g : x ≡ v = cc in subst P g a.0
    | inr e ↦ let f : get k d ≡ some v = rw e at h in All-get P k d v a.1 f
  ]

  pub All-put :
      (P : V → Type 0) (k : ℕ) (v : V) (d : Dict V)
      → All (λ e. P e.1) d
      → P v
      → All (λ e. P e.1) (put k v d)
  unfolding put
  All-put P k v [] a h = (h, tt)
  All-put P k v (e ∷ d) a h = elim (Bool-cases (k == e.0)) [
    | inl c ↦ rw c (h, a.1)
    | inr c ↦ rw c (a.0, All-put P k v d a.1 h)
  ]

pub length-values : {V : Type 0} (d : Dict V) → length (values d) ≡ length d
unfolding values
length-values [] = refl
length-values (e ∷ d) = ap suc (length-values d)
