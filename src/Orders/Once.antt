-- ===== src/Orders/Once.antt =====
-- Paying for an order a second time, and the acceptance timeout of an order.
use patheya_express_platform.Common.{
  ℕ, ◌≡◌, inl, inr, refl, ap, ◌∙◌, true, false, some, List, [], ◌∷◌, arith, ok, find, count, ◌==◌,
  ◌===◌,
}
use patheya_express_platform.Common.Table.{find-update_where, find_holds}
use patheya_express_platform.Schema.{OrderStatus, order_status_eq, PaymentStatus, payment_status_eq}
use patheya_express_platform.Orders.Store.{
  Store, Order, find_order_by_id, has_order_id, with_status, set_orders, with_payment_status,
}
use patheya_express_platform.Orders.Payment.{mark_order_paid}
use patheya_express_platform.Orders.Store.{pending_with_id, transition_if_pending}
use patheya_express_platform.Orders.Status.{handle_acceptance_timeout, timeout_status, timed_out}
use patheya_express_platform.Orders.Paid.{paid_store, confirmed_store, paid-find, paid_cases}

settled-read :
    (k now : ℕ) (t : Store) (q : Order)
    → find_order_by_id k t ≡ some q
    → q.payment_status ≡ PaymentStatus.paid
    → mark_order_paid k now t ≡ (ok tt, t)
unfolding mark_order_paid
settled-read k now t q e h = rw (e, mark_order_paid) (ground arith)

confirmed-find :
    (k now : ℕ) (s : Store) (o : Order)
    → find_order_by_id k s ≡ some o
    → find_order_by_id k (confirmed_store k now o s)
      ≡ some (with_status OrderStatus.confirmed now o)
unfolding find_order_by_id
confirmed-find k now s o e =
    find-update_where (has_order_id k) (has_order_id k) (with_status OrderStatus.confirmed now)
      s.orders (λ x. refl)
    ∙ rw e (ground (arith, find_holds (has_order_id k) o s.orders e))

-- A payment that is announced a second time, by a webhook or a retry, changes nothing.
pub paid_twice :
    (k now later : ℕ) (s : Store)
    → let t = (mark_order_paid k now s).1 in mark_order_paid k later t ≡ (ok tt, t)
paid_twice k now later s = elim (paid_cases k now s) [
  | inl e ↦ rw (e now) (e later)
  | inr (o, e, inl r) ↦ rw r (
      settled-read k later (paid_store k s) (with_payment_status PaymentStatus.paid o)
        (paid-find k s o e) refl)
  | inr (o, e, inr (p, r)) ↦ rw r (
      settled-read k later
        (confirmed_store k now (with_payment_status PaymentStatus.paid o) (paid_store k s))
        (with_status OrderStatus.confirmed now (with_payment_status PaymentStatus.paid o))
        (confirmed-find k now (paid_store k s) (with_payment_status PaymentStatus.paid o)
          (paid-find k s o e))
        refl)
]

pending-count_rows :
    (k : ℕ) (os : List Order) (o : Order)
    → find (has_order_id k) os ≡ some o
    → o.status ≡ OrderStatus.pending
    → (count (pending_with_id k) os == 0) ≡ false
pending-count_rows k [] o e p = cc
pending-count_rows k (x ∷ os) o e p = ground (arith, pending-count_rows k os o)

pending-count :
    (k : ℕ) (s : Store) (o : Order)
    → find_order_by_id k s ≡ some o
    → o.status ≡ OrderStatus.pending
    → (count (pending_with_id k) s.orders == 0) ≡ false
unfolding find_order_by_id
pending-count k s o e p = pending-count_rows k s.orders o e p

pending-find :
    (k : ℕ) (st : OrderStatus) (s : Store) (o : Order)
    → find_order_by_id k s ≡ some o
    → o.status ≡ OrderStatus.pending
    → find_order_by_id k (set_orders (pending_with_id k) (λ x. record x { status = st }) s)
      ≡ some (record o { status = st })
unfolding find_order_by_id
pending-find k st s o e p =
    find-update_where (has_order_id k) (pending_with_id k) (λ x. record x { status = st }) s.orders
      (λ x. refl)
    ∙ rw e (ground (arith, find_holds (has_order_id k) o s.orders e))

transition_run :
    (k : ℕ) (st : OrderStatus) (s : Store) (o : Order)
    → find_order_by_id k s ≡ some o
    → o.status ≡ OrderStatus.pending
    → transition_if_pending k st s ≡ (
      some (record o { status = st }),
      set_orders (pending_with_id k) (λ x. record x { status = st }) s,
    )
unfolding transition_if_pending
transition_run k st s o e p = rw (pending-count k s o e p, pending-find k st s o e p) refl

timeout_run :
    (k : ℕ) (s : Store) (o : Order)
    → find_order_by_id k s ≡ some o
    → o.status ≡ OrderStatus.pending
    → let to = timeout_status (s.restaurant o.restaurant_id) in
      handle_acceptance_timeout k s
      ≡ timed_out k to (
        some (record o { status = to }),
        set_orders (pending_with_id k) (λ x. record x { status = to }) s,
      )
unfolding handle_acceptance_timeout
timeout_run k s o e p =
    let waiting : (o.status === OrderStatus.pending) ≡ true = ground arith in
    rw (e, handle_acceptance_timeout, waiting)
      (ap (timed_out k (timeout_status (s.restaurant o.restaurant_id)))
        (transition_run k (timeout_status (s.restaurant o.restaurant_id)) s o e p))

pub timeout_decides :
    (k : ℕ) (s : Store) (o : Order)
    → find_order_by_id k s ≡ some o
    → o.status ≡ OrderStatus.pending
    → find_order_by_id k (handle_acceptance_timeout k s)
      ≡ some (record o { status = timeout_status (s.restaurant o.restaurant_id) })
timeout_decides k s o e p = rw (timeout_run k s o e p) (
    unfold find_order_by_id in
    pending-find k (timeout_status (s.restaurant o.restaurant_id)) s o e p)
