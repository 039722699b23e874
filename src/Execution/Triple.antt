-- ===== src/Execution/Triple.antt =====
-- Reasoning about effects: conditions on the state before, on the value and the state after, and on
-- the state that an exception leaves.
use ai_investment_manager.Prelude.{
  Matched, ◌≡◌, refl, Bool, true, false, List, [], ◌∷◌, Result, err, ok, All, if◌then◌else◌,
}
use ai_investment_manager.Execution.Leg.{Error, unknown_venue_result}
use ai_investment_manager.Execution.Effect.{
  Effect, return, raise, lift, ◌>>=◌, ◌>>◌, continue, rescue, except_unknown, for_each,
}

module _ {S : Type 0} where
  unfoldable pub Outcome :
      {A : Type 0} → (A → S → Type 0) → (S → Type 0) → Result Error A × S → Type 0
  Outcome P E (ok a, s) = P a s
  Outcome P E (err e, s) = E s

  -- From a state with I the call ends with P, or raises and leaves E.
  pub record Triple {A : Type 0} (I : S → Type 0) (call : Effect S A) (P : A → S → Type 0)
      (E : S → Type 0) : Type 0 where
    pub run : (s : S) → I s → Outcome P E (call s)

  weaken-Outcome :
      {A : Type 0} (P Q : A → S → Type 0) (E F : S → Type 0) (r : Result Error A × S)
      → Outcome P E r
      → ((a : A) (s : S) → P a s → Q a s)
      → ((s : S) → E s → F s)
      → Outcome Q F r
  unfolding Outcome
  weaken-Outcome P Q E F (ok a, s) h k l = k a s h
  weaken-Outcome P Q E F (err e, s) h k l = l s h

  module _ {E : S → Type 0} where
    continue-Outcome :
        {A B : Type 0} (P : A → S → Type 0) (Q : B → S → Type 0) (next : A → Effect S B)
        (r : Result Error A × S)
        → Outcome P E r
        → ((a : A) → Triple (P a) (next a) Q E)
        → Outcome Q E (continue r next)
    unfolding continue Outcome
    continue-Outcome P Q next (ok a, s) h k = (k a).run s h
    continue-Outcome P Q next (err e, s) h k = h

    pub >>=-Triple :
        {A B : Type 0} {I : S → Type 0} {P : A → S → Type 0} {Q : B → S → Type 0}
        (first : Effect S A) (next : A → Effect S B)
        → Triple I first P E
        → ((a : A) → Triple (P a) (next a) Q E)
        → Triple I (first >>= next) Q E
    unfolding ◌>>=◌
    >>=-Triple first next h k = record {
      run = λ s i. continue-Outcome _ _ next (first s) (h.run s i) k;
    }

    pub >>-Triple :
        {A B : Type 0} {I J : S → Type 0} {Q : B → S → Type 0} (first : Effect S A)
        (next : Effect S B)
        → Triple I first (λ a. J) E
        → Triple J next Q E
        → Triple I (first >> next) Q E
    unfolding ◌>>◌
    >>-Triple first next h k = >>=-Triple first (λ _. next) h (λ _. k)

    pub if-Triple :
        {A : Type 0} {I : S → Type 0} {P : A → S → Type 0} (test : Bool) (taken other : Effect S A)
        → (test ≡ true → Triple I taken P E)
        → (test ≡ false → Triple I other P E)
        → Triple I (if test then taken else other) P E
    if-Triple true taken other h k = h refl
    if-Triple false taken other h k = k refl

    rescue-Outcome :
        {A : Type 0} (P : A → S → Type 0) (handler : Effect S A) (r : Result Error A × S)
        → Outcome P E r
        → Triple E handler P E
        → Outcome P E (rescue r handler)
    unfolding rescue Outcome
    rescue-Outcome P handler (ok a, s) h k = h
    rescue-Outcome P handler (err unknown_venue_result, s) h k = k.run s h
    rescue-Outcome P handler (err e, s) h k = h

    pub except_unknown-Triple :
        {A : Type 0} {I : S → Type 0} {P : A → S → Type 0} (body handler : Effect S A)
        → Triple I body P E
        → Triple E handler P E
        → Triple I (except_unknown body handler) P E
    unfolding except_unknown
    except_unknown-Triple body handler h k = record {
      run = λ s i. rescue-Outcome _ handler (body s) (h.run s i) k;
    }

    pub lift-Triple :
        {A : Type 0} {I : S → Type 0} {P : A → S → Type 0} (r : Result Error A)
        → ((a : A) → r ≡ ok a → (s : S) → I s → P a s)
        → ((s : S) → I s → E s)
        → Triple I (lift r) P E
    unfolding Outcome
    lift-Triple (ok a) h k = record { run = λ s i. h a refl s i }
    lift-Triple (err e) h k = record { run = λ s i. k s i }

    pub return-Triple :
        {A : Type 0} {I : S → Type 0} {P : A → S → Type 0} (a : A)
        → ((s : S) → I s → P a s)
        → Triple I (return a) P E
    unfolding Outcome
    return-Triple a h = record { run = h }

    pub raise-Triple :
        {A : Type 0} {I : S → Type 0} {P : A → S → Type 0} (e : Error)
        → ((s : S) → I s → E s)
        → Triple I (raise e) P E
    unfolding Outcome
    raise-Triple e h = record { run = h }

    -- A condition that does not depend on the state can be assumed.
    pub from-Triple :
        {A : Type 0} {I : S → Type 0} {X : Type 0} {call : Effect S A} {P : A → S → Type 0}
        → (X → Triple I call P E)
        → Triple (λ s. I s × X) call P E
    from-Triple h = record { run = λ s i. (h i.1).run s i.0 }

    pub assume-Triple :
        {A : Type 0} {I : S → Type 0} {X : Type 0} {call : Effect S A} {P : A → S → Type 0}
        → X
        → Triple (λ s. I s × X) call P E
        → Triple I call P E
    assume-Triple x h = record { run = λ s i. h.run s (i, x) }

    pub drop-Triple :
        {A : Type 0} {I : S → Type 0} {X : S → Type 0} {call : Effect S A} {P : A → S → Type 0}
        → Triple I call P E
        → Triple (λ s. I s × X s) call P E
    drop-Triple h = record { run = λ s i. h.run s i.0 }

    -- A loop over values that all satisfy R keeps the condition on the state and gives pairs in Q.
    pub for_each-Triple :
        {A B : Type 0} {I : S → Type 0} (R : A → Type 0) (Q : A → B → Type 0) (f : A → Effect S B)
        → ((a : A) → R a → Triple I (f a) (λ b s. I s × Q a b) E)
        → (xs : List A) → All R xs
        → Triple I (for_each f xs) (λ ys s. I s × Matched Q xs ys) E
    unfolding for_each
    for_each-Triple R Q f h [] r = return-Triple [] λ s i. (i, tt)
    for_each-Triple R Q f h (x ∷ xs) r =
        >>=-Triple (f x) (λ y. for_each f xs >>= λ ys. return (y ∷ ys)) (h x r.0)
          λ y. from-Triple λ q.
            >>=-Triple (for_each f xs) (λ ys. return (y ∷ ys)) (for_each-Triple R Q f h xs r.1)
              λ ys. return-Triple (y ∷ ys) λ s p. (p.0, (q, p.1))

  pub weaken-Triple :
      {A : Type 0} {I : S → Type 0} {call : Effect S A} {P Q : A → S → Type 0} {E F : S → Type 0}
      → Triple I call P E
      → ((a : A) (s : S) → P a s → Q a s)
      → ((s : S) → E s → F s)
      → Triple I call Q F
  weaken-Triple {P = P} {Q = Q} {E = E} {F = F} h k l = record {
    run = λ s i. weaken-Outcome P Q E F _ (h.run s i) k l;
  }
