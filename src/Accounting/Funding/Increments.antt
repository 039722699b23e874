-- ===== src/Accounting/Funding/Increments.antt =====
-- The increments of a history divide the cumulative fills of its orders.
use ai_investment_manager.Prelude.{
  ℕ, ◌+◌, ◌-◌, ◌≡◌, ◌≤◌, refl, sym, ◌∙◌, subst, false, not, Option, none, some, List, [], ◌∷◌, ◌==◌,
  ltb, map, total, if◌then◌else◌, Bool-cases, inl, inr, Result, ok, after_ok, ok-injective,
  raise_if-eq-ok, arith, All, All-map, All-both,
}
use mathlib.Core.Option.{some-injective}
use ai_investment_manager.Prelude.Dict.{
  Dict, get, put, get-put, index_by, values, index_by-HasUniqueKeys,
}
use ai_investment_manager.Prelude.Dict.Order.{entries-get, All-put_key}
use ai_investment_manager.Prelude.Sorting.{All-sorted, total-sorted}
use ai_investment_manager.Kernel.{Time}
use ai_investment_manager.Execution.Group.{ExecutionGroup}
use ai_investment_manager.Execution.Order.{ProductOrder}
use ai_investment_manager.Accounting.Error.{
  AccountError, observation_regressed, observations_uncovered,
}
use ai_investment_manager.Accounting.Position.{Fill, priced}
use ai_investment_manager.Accounting.History.{
  ProductOrderObservation, check_progress, regresses, visible_order_history, latest_before,
  latest_orders, same_set, keys, collect, index_legs, in_order,
}
use ai_investment_manager.Accounting.Funding.{
  previous_quantity, increment, push_increment, increments, fill_before, incremental_fills,
}

-- What an order has filled after the last of its observations.
abbrev pub last_filled : ℕ → List ProductOrderObservation → ℕ → ℕ
last_filled client [] before = before
last_filled client (o ∷ os) before =
    last_filled client os
      (if client == o.order.client_order_id then o.order.filled_quantity else before)

abbrev pub filled_by : ℕ → Fill → ℕ
filled_by client fill = if client == fill.client_order_id then fill.filled_quantity else 0

quantity-put :
    (client key : ℕ) (order : ProductOrder) (seen : Dict ProductOrder)
    → previous_quantity (get client (put key order seen))
      ≡ (if client == key then order.filled_quantity else previous_quantity (get client seen))
quantity-put client key order seen = elim (Bool-cases (client == key)) [
  | inl e ↦ rw (get-put client key order seen, e) refl
  | inr e ↦ rw (get-put client key order seen, e) refl
]

not_regressed :
    (previous : Option ProductOrder) (order : ProductOrder)
    → regresses previous order ≡ false
    → previous_quantity previous ≤ order.filled_quantity
not_regressed none order h = omega arith
not_regressed (some previous) order h = ground arith

-- What one observation adds to the increments of an order.
abbrev added : ℕ → ProductOrder → Dict ProductOrder → ℕ
added client order seen =
    if client == order.client_order_id
    then order.filled_quantity - previous_quantity (get order.client_order_id seen)
    else 0

-- One observation of the history.
step_total :
    (client : ℕ) (order : ProductOrder) (seen : Dict ProductOrder) (sum : ℕ)
    → previous_quantity (get order.client_order_id seen) ≤ order.filled_quantity
    → added client order seen + sum + previous_quantity (get client seen)
      ≡ sum
        + (if client == order.client_order_id
            then order.filled_quantity
            else previous_quantity (get client seen))
step_total client order seen sum h = elim (Bool-cases (client == order.client_order_id)) [
  | inl e ↦ let i : client ≡ order.client_order_id = ground arith in rw (e, i) (omega (arith, h))
  | inr e ↦ rw e (omega arith)
]

record Pushed (client : ℕ) (order : ProductOrder) (seen : Dict ProductOrder)
    (later : Result AccountError (List Fill)) (fills : List Fill) : Type 0 where
  rest : List Fill
  rest_later : later ≡ ok rest
  sum : total (filled_by client) fills ≡ added client order seen + total (filled_by client) rest

push_increment-Pushed :
    (client : ℕ) (order : ProductOrder) (seen : Dict ProductOrder)
    (later : Result AccountError (List Fill)) {fills : List Fill}
    → push_increment (get order.client_order_id seen) order later ≡ ok fills
    → Pushed client order seen later fills
unfolding push_increment increment
push_increment-Pushed client order seen later h =
    after_ok (priced order.average_fill_price) _ h λ price _ h1.
      after_ok later _ h1
        λ rest e h2. record { rest = rest; rest_later = e; sum = rw (← ok-injective h2) refl }

increments-total :
    (client : ℕ) (os : List ProductOrderObservation) (seen : Dict ProductOrder) {fills : List Fill}
    → check_progress seen os ≡ ok tt
    → increments seen os ≡ ok fills
    → total (filled_by client) fills + previous_quantity (get client seen)
      ≡ last_filled client os (previous_quantity (get client seen))
unfolding check_progress increments
increments-total client [] seen h k = rw (← ok-injective k) (omega arith)
increments-total client (o ∷ os) seen {fills} h k =
    let g =
      raise_if-eq-ok (regresses (get o.order.client_order_id seen) o.order) observation_regressed _
        h in
    let grown = not_regressed _ o.order g.0 in
    let next = put o.order.client_order_id o.order seen in
    let later = λ (rest : List Fill) (e : increments next os ≡ ok rest).
      subst (λ q. total (filled_by client) rest + q ≡ last_filled client os q)
        (quantity-put client o.order.client_order_id o.order seen)
        (increments-total client os next g.1 e) in
    elim (Bool-cases
      (ltb (previous_quantity (get o.order.client_order_id seen)) o.order.filled_quantity)) [
        | inl c ↦
            let k' : push_increment (get o.order.client_order_id seen) o.order (increments next os)
                ≡ ok fills =
              rw c at k in
            let p = push_increment-Pushed client o.order seen (increments next os) k' in
            omega (
              arith,
              p.sum,
              later p.rest p.rest_later,
              step_total client o.order seen (total (filled_by client) p.rest) grown,
            )
        | inr c ↦
            let k' : increments next os ≡ ok fills = rw c at k in
            let none_added : added client o.order seen ≡ 0 = ground arith in
            omega (
              arith,
              none_added,
              later fills k',
              step_total client o.order seen (total (filled_by client) fills) grown,
            )
      ]

-- The observation that a dictionary by client keeps is the last one.
unfoldable IsLast : ℕ → Dict ProductOrderObservation → ℕ → Type 0
IsLast client d before =
    (o : ProductOrderObservation) → get client d ≡ some o → o.order.filled_quantity ≡ before

put-IsLast :
    (client : ℕ) (x : ProductOrderObservation) (d : Dict ProductOrderObservation) (before : ℕ)
    → IsLast client d before
    → IsLast client
        (put x.order.client_order_id x d)
        (if client == x.order.client_order_id then x.order.filled_quantity else before)
unfolding IsLast
put-IsLast client x d before h o e =
    let g = get-put client x.order.client_order_id x d in
    elim (Bool-cases (client == x.order.client_order_id)) [
      | inl c ↦ let f : some x ≡ some o = rw (g, c) at e in rw (c, some-injective _ _ f) refl
      | inr c ↦ let f : get client d ≡ some o = rw (g, c) at e in rw c (h o f)
    ]

index_by-IsLast :
    (client : ℕ) (os : List ProductOrderObservation) (d : Dict ProductOrderObservation) (before : ℕ)
    → IsLast client d before
    → IsLast client (index_by (λ o. o.order.client_order_id) d os) (last_filled client os before)
unfolding index_by
index_by-IsLast client [] d before h = h
index_by-IsLast client (x ∷ os) d before h =
    index_by-IsLast client os (put x.order.client_order_id x d)
      (if client == x.order.client_order_id then x.order.filled_quantity else before)
      (put-IsLast client x d before h)

-- Every entry of the dictionary stands under its own client.
index_by-keyed :
    (os : List ProductOrderObservation) (d : Dict ProductOrderObservation)
    → All (λ e. e.1.order.client_order_id ≡ e.0) d
    → All (λ e. e.1.order.client_order_id ≡ e.0) (index_by (λ o. o.order.client_order_id) d os)
unfolding index_by
index_by-keyed [] d h = h
index_by-keyed (x ∷ os) d h =
    index_by-keyed os (put x.order.client_order_id x d)
      (All-put_key (λ k o. o.order.client_order_id ≡ k) x.order.client_order_id x d h refl)

All-values : {V : Type 0} (P : V → Type 0) (d : Dict V) → All (λ e. P e.1) d → All P (values d)
unfolding values
All-values P [] h = tt
All-values P (e ∷ d) h = (h.0, All-values P d h.1)

unfoldable AtLast : List ProductOrderObservation → ProductOrderObservation → Type 0
AtLast history o = o.order.filled_quantity ≡ last_filled o.order.client_order_id history 0

none_before : (client before : ℕ) → IsLast client [] before
unfolding IsLast get
none_before client before o e = cc

latest_orders-AtLast :
    (history : List ProductOrderObservation) → All (AtLast history) (latest_orders history)
unfolding latest_orders AtLast IsLast
latest_orders-AtLast history =
    let d = index_by (λ o. o.order.client_order_id) [] history in
    let unique = index_by-HasUniqueKeys (λ o. o.order.client_order_id) [] history tt in
    let both =
      All-both (λ e. e.1.order.client_order_id ≡ e.0) (λ e. get e.0 d ≡ some e.1) d
        (index_by-keyed history [] tt) (entries-get d unique) in
    All-sorted latest_before (AtLast history) (values d) (
      All-values (AtLast history) d (
        All-map
          (λ e b.
            index_by-IsLast e.1.order.client_order_id history [] 0
              (none_before e.1.order.client_order_id 0) e.1
              (subst (λ c. get c d ≡ some e.1) (sym b.0) b.1))
          d both))

visible_order_history-progress :
    (groups : List ExecutionGroup) (observations : Dict (List ProductOrderObservation))
    (as_of : Time) {history : List ProductOrderObservation}
    → visible_order_history groups observations as_of ≡ ok history
    → check_progress [] history ≡ ok tt
unfolding visible_order_history
visible_order_history-progress groups observations as_of h =
    let covered = not (same_set (keys observations) (map (λ g. g.group_id) groups)) in
    let a = raise_if-eq-ok covered observations_uncovered _ h in
    after_ok (collect (index_legs groups) as_of observations) _ a.1 λ found _ h1.
      after_ok (check_progress [] (in_order (index_legs groups) found)) _ h1
        λ done e h2. rw (← ok-injective h2) e

incremental-sums :
    (history : List ProductOrderObservation) {fills : List Fill}
    → check_progress [] history ≡ ok tt
    → incremental_fills history ≡ ok fills
    → (client : ℕ) → total (filled_by client) fills ≡ last_filled client history 0
unfolding incremental_fills get
incremental-sums history h k client = after_ok (increments [] history) _ k λ fills e h1.
    rw (← ok-injective h1) (
      omega (
        arith,
        total-sorted (filled_by client) fill_before fills,
        increments-total client history [] h e,
      ))

-- Where the history of the orders is accepted, the increments that the funding is computed from add
-- up, for every order, to what the order has filled at the end of the history, which is what the
-- account is computed from; an order that the history does not know has no increment.
pub incremental_fills-total :
    (groups : List ExecutionGroup) (observations : Dict (List ProductOrderObservation))
    (as_of : Time) (history : List ProductOrderObservation) (fills : List Fill)
    → visible_order_history groups observations as_of ≡ ok history
    → incremental_fills history ≡ ok fills
    → ((client : ℕ) → total (filled_by client) fills ≡ last_filled client history 0)
      × All
          (λ o. total (filled_by o.order.client_order_id) fills ≡ o.order.filled_quantity)
          (latest_orders history)
unfolding visible_order_history incremental_fills AtLast
incremental_fills-total groups observations as_of history fills h k =
    let progress = visible_order_history-progress groups observations as_of h in
    let sums = incremental-sums history progress k in
    (
      sums,
      All-map (λ o l. sums o.order.client_order_id ∙ sym l) (latest_orders history)
          (latest_orders-AtLast history),
    )
