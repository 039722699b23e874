-- ===== src/Execution/Effect.antt =====
-- The methods of the execution components: they change a state, and what they have changed stays
-- when they raise.
use ai_investment_manager.Prelude.{List, [], ◌∷◌, Result, err, ok}
use ai_investment_manager.Execution.Leg.{Error, unknown_venue_result}

abbrev pub Effect : Type 0 → Type 0 → Type 0
Effect S A = S → Result Error A × S

module _ {S : Type 0} where
  abbrev pub return : {A : Type 0} → A → Effect S A
  return a s = (ok a, s)

  abbrev pub raise : {A : Type 0} → Error → Effect S A
  raise e s = (err e, s)

  -- A computation that does not read the state.
  abbrev pub lift : {A : Type 0} → Result Error A → Effect S A
  lift r s = (r, s)

  unfoldable pub continue :
      {A B : Type 0} → Result Error A × S → (A → Effect S B) → Result Error B × S
  continue (err e, s) next = (err e, s)
  continue (ok a, s) next = next a s

  infixl 5 ◌>>◌ ◌>>=◌
  -- The next step reads the state that the first one left.
  unfoldable pub ◌>>=◌ : {A B : Type 0} → Effect S A → (A → Effect S B) → Effect S B
  unfolding continue
  (first >>= next) s = continue (first s) next

  unfoldable pub ◌>>◌ : {A B : Type 0} → Effect S A → Effect S B → Effect S B
  unfolding ◌>>=◌
  first >> next = first >>= λ _. next

  unfoldable pub rescue : {A : Type 0} → Result Error A × S → Effect S A → Result Error A × S
  rescue (ok a, s) handler = (ok a, s)
  rescue (err unknown_venue_result, s) handler = handler s
  rescue (err e, s) handler = (err e, s)

  -- `try: body / except UnknownVenueResult: handler`
  unfoldable pub except_unknown : {A : Type 0} → Effect S A → Effect S A → Effect S A
  unfolding rescue
  except_unknown body handler s = rescue (body s) handler

  -- `tuple(f(x) for x in xs)`
  unfoldable pub for_each : {A B : Type 0} → (A → Effect S B) → List A → Effect S (List B)
  unfolding ◌>>=◌
  for_each f [] = return []
  for_each f (x ∷ xs) = do y ← f x; ys ← for_each f xs; return (y ∷ ys)
