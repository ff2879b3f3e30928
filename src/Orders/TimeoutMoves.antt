-- ===== src/Orders/TimeoutMoves.antt =====
-- What the acceptance timeout does to the status of an order that is delivered or cancelled.
use patheya_express_platform.Common.{
  ℕ, ◌≡◌, ◌⊎◌, inl, inr, refl, ap, ◌∙◌, true, some, arith, includes, Option-cases, Bool-cases,
  ◌===◌,
}
use patheya_express_platform.Schema.{OrderStatus, order_status_eq, payment_status_eq}
use patheya_express_platform.Orders.Store.{
  Store, Order, find_order_by_id, set_orders, pending_with_id, transition_if_pending,
}
use patheya_express_platform.Orders.Status.{
  terminal_order_statuses, handle_acceptance_timeout, timeout_status, timed_out,
}
use patheya_express_platform.Orders.Moves.{HasStatus, rows-HasStatus, set-HasStatus}

timed_out-rows :
    (k : ℕ) (to : OrderStatus) (s : Store)
    → (timed_out k to (transition_if_pending k to s) ≡ s)
      ⊎ ((timed_out k to (transition_if_pending k to s)).orders
          ≡ (set_orders (pending_with_id k) (λ o'. record o' { status = to }) s).orders)
unfolding transition_if_pending
timed_out-rows k to s = ground arith

timeout_found :
    (k : ℕ) (s : Store) (o : Order)
    → find_order_by_id k s ≡ some o
    → let to = timeout_status (s.restaurant o.restaurant_id) in
      (handle_acceptance_timeout k s ≡ s)
      ⊎ ((o.status ≡ OrderStatus.pending)
          × (handle_acceptance_timeout k s ≡ timed_out k to (transition_if_pending k to s)))
unfolding handle_acceptance_timeout
timeout_found k s o e = elim (Bool-cases (o.status === OrderStatus.pending)) [
  | inl c ↦ inr (ground arith, rw (e, handle_acceptance_timeout, c) refl)
  | inr c ↦ inl (rw (e, handle_acceptance_timeout, c) refl)
]

timeout_cases :
    (k : ℕ) (s : Store)
    → (handle_acceptance_timeout k s ≡ s)
      ⊎ ((o : Order) × (find_order_by_id k s ≡ some o)
          × (o.status ≡ OrderStatus.pending)
          × ((handle_acceptance_timeout k s).orders
              ≡ (set_orders
                  (pending_with_id k)
                  (λ o'. record o' { status = timeout_status (s.restaurant o.restaurant_id) })
                  s).orders))
unfolding handle_acceptance_timeout
timeout_cases k s = elim (Option-cases (find_order_by_id k s)) [
  | inl e ↦ inl (rw (e, handle_acceptance_timeout) refl)
  | inr (o, e) ↦ elim (timeout_found k s o e) [
    | inl h ↦ inl h
    | inr (p, h) ↦ elim (timed_out-rows k (timeout_status (s.restaurant o.restaurant_id)) s) [
      | inl r ↦ inl (h ∙ r)
      | inr r ↦ inr (o, e, p, ap (λ t. t.orders) h ∙ r)
    ]
  ]
]

pub timeout-HasStatus :
    (j k : ℕ) (st : OrderStatus) (s : Store)
    → includes terminal_order_statuses st ≡ true
    → HasStatus j st s
    → HasStatus j st (handle_acceptance_timeout k s)
timeout-HasStatus j k st s closed h = elim (timeout_cases k s) [
  | inl e ↦ rw e h
  | inr (o, f, p, e) ↦
      rows-HasStatus j st
        (set_orders (pending_with_id k)
          (λ o'. record o' { status = timeout_status (s.restaurant o.restaurant_id) }) s)
        (handle_acceptance_timeout k s) e
        (set-HasStatus j st (pending_with_id k)
          (λ o'. record o' { status = timeout_status (s.restaurant o.restaurant_id) }) s (λ x. refl)
          (λ x g c. absurd (ground arith)) h)
]
