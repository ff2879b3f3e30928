-- ===== src/Orders/Race.antt =====
-- An acceptance that has been checked before the acceptance timeout of its order and is written
-- after it.
use patheya_express_platform.Common.{ℕ, ◌≡◌, ap, ◌∙◌, some}
use patheya_express_platform.Schema.{OrderStatus}
use patheya_express_platform.Orders.Store.{Store, Order, find_order_by_id, with_status}
use patheya_express_platform.Orders.Status.{handle_acceptance_timeout, timeout_status, apply_status}
use patheya_express_platform.Orders.Gates.{apply_run, moved_store-Moved}
use patheya_express_platform.Orders.Once.{timeout_decides}

-- The write of a status change does not look at the status that it overwrites: where the timeout
-- has cancelled an order and an acceptance that was checked before it is written after it, the order
-- is cancelled first and confirmed in the end.
pub late_accept_wins :
    (k by now : ℕ) (s : Store) (o : Order)
    → find_order_by_id k s ≡ some o
    → o.status ≡ OrderStatus.pending
    → timeout_status (s.restaurant o.restaurant_id) ≡ OrderStatus.cancelled
    → let t = handle_acceptance_timeout k s in
      let cancelled = record o { status = OrderStatus.cancelled } in
      (find_order_by_id k t ≡ some cancelled)
      × (find_order_by_id k (apply_status k OrderStatus.confirmed by now t).1
          ≡ some (with_status OrderStatus.confirmed now cancelled))
late_accept_wins k by now s o e p c =
    let t = handle_acceptance_timeout k s in
    let cancelled : Order = record o { status = OrderStatus.cancelled } in
    let first : find_order_by_id k t ≡ some cancelled =
      timeout_decides k s o e p ∙ ap (λ st. some (record o { status = st })) c in
    (
      first,
      rw (apply_run k OrderStatus.confirmed by now t cancelled first)
          (moved_store-Moved k OrderStatus.confirmed by now t cancelled first).0,
    )
