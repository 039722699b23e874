-- ===== src/Scheduling/Batch/Members.antt =====
-- A batch takes the most urgent of the pending triggers, as many as fit.
use mathlib.Core.List.{Perm, perm_middle, append_assoc}
use mathlib.Core.List.Perm
use ai_investment_manager.Prelude.{
  ℕ, zero, suc, ◌≤◌, ◌≡◌, refl, Bool, true, not, Bool-cases, List, [], ◌∷◌, ◌++◌, select, take,
  length, length-take, ok, All, All-map, All-append, All-select, All-Unit, Pairs, inl, inr, arith,
  All-take, Any,
}
use ai_investment_manager.Prelude.Sorting.{
  sorted, sorted-perm, sorted-Pairs, length-sorted, All-sorted, Any-sorted,
}
use ai_investment_manager.Kernel.{Time}
use ai_investment_manager.Scheduling.Event.{TriggerEvent}
use ai_investment_manager.Scheduling.Batch.{
  is_urgent, comes_before, urgent_only, select_trigger_batch_members,
}

module _ {A : Type 0} where
  -- `xs[n:]`
  abbrev pub drop : ℕ → List A → List A
  drop zero xs = xs
  drop (suc n) [] = []
  drop (suc n) (x ∷ xs) = drop n xs

  take-append-drop : (n : ℕ) (xs : List A) → take n xs ++ drop n xs ≡ xs
  take-append-drop zero xs = refl
  take-append-drop (suc n) [] = refl
  take-append-drop (suc n) (x ∷ xs) = rw (take-append-drop n xs)

  All-drop : (P : A → Type 0) (n : ℕ) (xs : List A) → All P xs → All P (drop n xs)
  All-drop P zero xs h = h
  All-drop P (suc n) [] h = h
  All-drop P (suc n) (x ∷ xs) h = All-drop P n xs h.1

  -- In an ordered list what is taken stands before what is left.
  Pairs-split :
      (R : A → A → Type 0) (n : ℕ) (xs : List A)
      → Pairs R xs
      → All (λ s. All (R s) (drop n xs)) (take n xs)
  Pairs-split R zero xs h = tt
  Pairs-split R (suc n) [] h = tt
  Pairs-split R (suc n) (x ∷ xs) h = (All-drop (R x) n xs h.0, Pairs-split R n xs h.1)

  -- What a test keeps and what it drops are the whole.
  select-perm :
      (test : A → Bool) (xs : List A) → Perm (select test xs ++ select (λ x. not (test x)) xs) xs
  select-perm test [] = Perm.refl []
  select-perm test (x ∷ xs) = elim (Bool-cases (test x)) [
    | inl e ↦ rw e (Perm.cons x (select-perm test xs))
    | inr e ↦ rw e (
        Perm.trans (perm_middle (select test xs) (select (λ y. not (test y)) xs))
          (Perm.cons x (select-perm test xs)))
  ]

abbrev pub AtMost : TriggerEvent → TriggerEvent → Type 0
AtMost x y = y.priority ≤ x.priority

-- A selection of the pending triggers: with what is left it is all of them, each once; it is not
-- larger than the limit, and not empty if anything is pending; nothing that is left has a higher
-- priority than anything that is taken.
pub record IsSelection (pending : List TriggerEvent) (limit : ℕ) (taken : List TriggerEvent)
    : Type 0 where
  pub left : List TriggerEvent
  pub whole : Perm (taken ++ left) pending
  pub fits : length taken ≤ limit
  pub progress : 1 ≤ length pending → 1 ≤ length taken
  pub foremost : All (λ s. All (AtMost s) left) taken

module _ (text : Time → ℕ) where
  ordered : (pending : List TriggerEvent) → Pairs AtMost (sorted (comes_before text) pending)
  ordered =
      sorted-Pairs (comes_before text) AtMost (λ x y h. ground arith) (λ x y h. ground arith)
        (λ x y z h k. omega arith)

take_nonempty : {A : Type 0} (n : ℕ) (xs : List A) → 1 ≤ n → 1 ≤ length xs → 1 ≤ length (take n xs)
take_nonempty zero xs h k = absurd (omega arith)
take_nonempty (suc n) [] h k = k
take_nonempty (suc n) (x ∷ xs) h k = omega arith

prefix-IsSelection :
    (xs : List TriggerEvent) (n : ℕ) → Pairs AtMost xs → 1 ≤ n → IsSelection xs n (take n xs)
prefix-IsSelection xs n h pos = record {
  left = drop n xs;
  whole = rw (take-append-drop n xs) (Perm.refl xs);
  fits = length-take n xs;
  progress = take_nonempty n xs pos;
  foremost = Pairs-split AtMost n xs h;
}

abbrev is_ordinary : TriggerEvent → Bool
is_ordinary e = not (is_urgent e)

urgent-AtMost :
    (e s : TriggerEvent) (xs : List TriggerEvent)
    → is_urgent e ≡ true
    → is_urgent s ≡ true
    → All (AtMost e) xs
    → All (AtMost s) xs
urgent-AtMost e s xs he hs = All-map (λ x h. ground (arith, h)) xs

urgent-IsSelection :
    (e : TriggerEvent) (es : List TriggerEvent) (n : ℕ)
    → is_urgent e ≡ true
    → Pairs AtMost (e ∷ es)
    → 1 ≤ n
    → IsSelection (e ∷ es) n (take n (select is_urgent (e ∷ es)))
urgent-IsSelection e es n urgent h pos =
    let xs = e ∷ es in
    let kept = select is_urgent xs in
    let all : All (AtMost e) xs = (omega arith, h.0) in
    let part = λ (test : TriggerEvent → Bool).
      All-map (λ x k. k.0) (select test xs) (All-select (AtMost e) test xs all) in
    record {
      left = drop n kept ++ select is_ordinary xs;
      whole = rw (← append_assoc) (rw (take-append-drop n kept) (select-perm is_urgent xs));
      fits = length-take n kept;
      progress = λ _. take_nonempty n kept pos (rw urgent (omega arith));
      foremost =
          All-map
            (λ s k. urgent-AtMost e s _ urgent k (
              All-append (AtMost e) (drop n kept) (select is_ordinary xs)
                (All-drop (AtMost e) n kept (part is_urgent)) (part is_ordinary)))
            (take n kept)
            (All-take _ n kept
              (All-map (λ x k. k.1) kept (All-select (AtMost e) is_urgent xs all)));
    }

urgent_only-IsSelection :
    (xs : List TriggerEvent) (n : ℕ)
    → Pairs AtMost xs
    → 1 ≤ n
    → IsSelection xs n (take n (urgent_only xs))
unfolding urgent_only
urgent_only-IsSelection [] n h pos = prefix-IsSelection [] n h pos
urgent_only-IsSelection (e ∷ es) n h pos = elim (Bool-cases (is_urgent e)) [
  | inl u ↦ rw u (rw u at (urgent-IsSelection e es n u h pos))
  | inr u ↦ rw u (prefix-IsSelection (e ∷ es) n h pos)
]

-- A batch of a positive size is a selection of the pending triggers: a part of them, no larger than
-- the size, not empty where something is pending, that leaves nothing of a higher priority.
pub select_trigger_batch_members-IsSelection :
    (text : Time → ℕ) (pending : List TriggerEvent) (limit : ℕ)
    → 1 ≤ limit
    → (taken : List TriggerEvent) × (select_trigger_batch_members text pending limit ≡ ok taken)
      × IsSelection pending limit taken
unfolding select_trigger_batch_members
select_trigger_batch_members-IsSelection text pending limit pos =
    let xs = sorted (comes_before text) pending in
    let s = urgent_only-IsSelection xs limit (ordered text pending) pos in
    (
      take limit (urgent_only xs),
      ground arith,
      record {
        left = s.left;
        whole = Perm.trans s.whole (sorted-perm (comes_before text) pending);
        fits = s.fits;
        progress = λ h. s.progress (omega (arith, length-sorted (comes_before text) pending));
        foremost = s.foremost;
      },
    )

head_urgent :
    (e : TriggerEvent) (es : List TriggerEvent)
    → All (AtMost e) es
    → e.priority ≤ 100
    → Any (λ x. is_urgent x ≡ true) (e ∷ es)
    → is_urgent e ≡ true
head_urgent e es h bound (inl u) = u
head_urgent e [] h bound (inr k) = elim k [ ]
head_urgent e (x ∷ es) h bound (inr (inl u)) = ground (arith, h.0)
head_urgent e (x ∷ es) h bound (inr (inr k)) = head_urgent e es h.1 bound (inr k)

urgent_only-All :
    (xs : List TriggerEvent)
    → Pairs AtMost xs
    → All (λ x. x.priority ≤ 100) xs
    → Any (λ x. is_urgent x ≡ true) xs
    → All (λ x. is_urgent x ≡ true) (urgent_only xs)
unfolding urgent_only
urgent_only-All [] h bound k = tt
urgent_only-All (e ∷ es) h bound k =
    let u = head_urgent e es h.0 bound.0 k in
    let kept = select is_urgent (e ∷ es) in
    let all = All-select (λ _. Unit) is_urgent (e ∷ es) (All-Unit (e ∷ es)) in
    rw u (rw u at (All-map (λ x p. p.1) kept all))

-- A batch never mixes immediate triggers with ordinary ones: where some pending trigger has the
-- priority 100 and none a higher one, every member has it.
pub select_trigger_batch_members_urgent :
    (text : Time → ℕ) (pending : List TriggerEvent) (limit : ℕ) {taken : List TriggerEvent}
    → All (λ x. x.priority ≤ 100) pending
    → Any (λ x. is_urgent x ≡ true) pending
    → select_trigger_batch_members text pending limit ≡ ok taken
    → All (λ x. is_urgent x ≡ true) taken
unfolding select_trigger_batch_members
select_trigger_batch_members_urgent text pending limit {taken} bound some_urgent h =
    let xs = sorted (comes_before text) pending in
    let same : take limit (urgent_only xs) ≡ taken = ground arith in
    rw (← same) (
      All-take _ limit (urgent_only xs) (
        urgent_only-All xs (ordered text pending)
          (All-sorted (comes_before text) (λ x. x.priority ≤ 100) pending bound)
          (Any-sorted (comes_before text) _ pending some_urgent)))
