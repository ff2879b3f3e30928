-- ===== src/Orders/Moves.antt =====
-- What each operation on an order does to the status of an order that is delivered or cancelled.
use patheya_express_platform.Common.{
  ℕ, ◌≡◌, ◌⊎◌, inl, inr, refl, ◌∙◌, Bool, true, false, Option, none, some, List, arith, includes,
  Option-cases, Bool-cases, ◌===◌,
}
use patheya_express_platform.Common.Table.{find-update_where}
use patheya_express_platform.Schema.{
  OrderStatus, order_status_eq, PaymentStatus, payment_status_eq, PaymentMode,
}
use patheya_express_platform.Orders.Access.{AuthenticatedUser}
use patheya_express_platform.Orders.Store.{
  Store, Order, find_order_by_id, has_order_id, with_status, set_orders, switchable,
  switch_payment_mode_if_eligible, payment_claimable, with_payment_status, claim_payment_status,
}
use patheya_express_platform.Orders.Status.{
  order_status_transitions, terminal_order_statuses, update_order_status, admin_cancel_order,
  force_complete_order,
}
use patheya_express_platform.Orders.Payment.{
  not_paid, mark_order_paid, mark_order_payment_failed, switch_to_cod, switch_found, switch_mode,
}
use patheya_express_platform.Orders.Paid.{paid_store, confirmed_store, paid-find, paid_cases}
use patheya_express_platform.Orders.Gates.{
  find_order_by_id-id, write_run, update_cases, moved_store, after_status-rows,
}

abbrev pub HasStatus : ℕ → OrderStatus → Store → Type 0
HasStatus j st s = (o : Order) × (find_order_by_id j s ≡ some o) × (o.status ≡ st)

-- Writing to some rows keeps the status of an order that the write does not move.
pub set-HasStatus :
    (j : ℕ) (st : OrderStatus) (q : Order → Bool) (f : Order → Order) (s : Store)
    → ((o : Order) → has_order_id j (f o) ≡ has_order_id j o)
    → ((o : Order) → find_order_by_id j s ≡ some o → q o ≡ true → (f o).status ≡ o.status)
    → HasStatus j st s
    → HasStatus j st (set_orders q f s)
unfolding find_order_by_id
set-HasStatus j st q f s key same (o, e, h) = elim (Bool-cases (q o)) [
  | inl c ↦ (
    f o,
    find-update_where (has_order_id j) q f s.orders key ∙ rw e (ground arith),
    same o e c ∙ h,
  )
  | inr c ↦ (o, find-update_where (has_order_id j) q f s.orders key ∙ rw e (ground arith), h)
]

pub rows-HasStatus :
    (j : ℕ) (st : OrderStatus) (s t : Store)
    → t.orders ≡ s.orders
    → HasStatus j st s
    → HasStatus j st t
unfolding find_order_by_id
rows-HasStatus j st s t e (o, f, h) = (o, (rw e f), h)

pub claim-HasStatus :
    (j k : ℕ) (st : OrderStatus) (allowed : List PaymentStatus) (next : PaymentStatus) (s : Store)
    → HasStatus j st s
    → HasStatus j st (claim_payment_status k allowed next s).1
unfolding claim_payment_status
claim-HasStatus j k st allowed next s h =
    set-HasStatus j st (payment_claimable k allowed) (with_payment_status next) s (λ o. refl)
      (λ o e c. refl) h

-- The status of order `j` is written only where the one that is read is not terminal.
pub write-HasStatus :
    (j k : ℕ) (st to : OrderStatus) (now : ℕ) (s : Store) (o : Order)
    → find_order_by_id k s ≡ some o
    → includes terminal_order_statuses o.status ≡ false
    → includes terminal_order_statuses st ≡ true
    → HasStatus j st s
    → HasStatus j st (set_orders (has_order_id k) (with_status to now) s)
write-HasStatus j k st to now s o e moving closed (p, f, h) =
    set-HasStatus j st (has_order_id k) (with_status to now) s (λ x. refl)
      (λ x g c. absurd (ground (arith, find_order_by_id-id j s x g))) (p, f, h)

pub update-HasStatus :
    (j k : ℕ) (st to : OrderStatus) (user : AuthenticatedUser) (now : ℕ) (s : Store)
    → includes terminal_order_statuses st ≡ true
    → HasStatus j st s
    → HasStatus j st (update_order_status k to user now s).1
update-HasStatus j k st to user now s closed h = elim (update_cases k to user now s) [
  | inl (x, e) ↦ rw e h
  | inr (o, f, a, e) ↦ rw e (
      rows-HasStatus j st (set_orders (has_order_id k) (with_status to now) s)
        (moved_store k to user.user_id now o s) (after_status-rows to (with_status to now o) _).0
        (write-HasStatus j k st to now s o f
          (unfold order_status_transitions in ground (arith, a.legal)) closed h))
]

confirmed-HasStatus :
    (j k : ℕ) (st : OrderStatus) (now : ℕ) (s : Store) (o : Order)
    → find_order_by_id k s ≡ some o
    → o.status ≡ OrderStatus.pending
    → includes terminal_order_statuses st ≡ true
    → HasStatus j st s
    → HasStatus j st
        (confirmed_store k now (with_payment_status PaymentStatus.paid o) (paid_store k s))
confirmed-HasStatus j k st now s o e p closed h =
    rows-HasStatus j st
      (set_orders (has_order_id k) (with_status OrderStatus.confirmed now) (paid_store k s)) _ refl
      (write-HasStatus j k st OrderStatus.confirmed now (paid_store k s)
        (with_payment_status PaymentStatus.paid o) (paid-find k s o e) (ground arith) closed
        (set-HasStatus j st (payment_claimable k not_paid) (with_payment_status PaymentStatus.paid)
          s (λ x. refl) (λ x f c. refl) h))

pub paid-HasStatus :
    (j k : ℕ) (st : OrderStatus) (now : ℕ) (s : Store)
    → includes terminal_order_statuses st ≡ true
    → HasStatus j st s
    → HasStatus j st (mark_order_paid k now s).1
paid-HasStatus j k st now s closed h = elim (paid_cases k now s) [
  | inl e ↦ rw (e now) h
  | inr (o, e, inl r) ↦ rw r (
      set-HasStatus j st (payment_claimable k not_paid) (with_payment_status PaymentStatus.paid) s
        (λ x. refl) (λ x f c. refl) h)
  | inr (o, e, inr (p, r)) ↦ rw r (confirmed-HasStatus j k st now s o e p closed h)
]

pub failed-HasStatus :
    (j k : ℕ) (st : OrderStatus) (s : Store)
    → HasStatus j st s
    → HasStatus j st (mark_order_payment_failed k s)
unfolding mark_order_payment_failed
failed-HasStatus j k st s h = elim (Option-cases (find_order_by_id k s)) [
  | inl e ↦ rw (e, mark_order_payment_failed) h
  | inr (o, e) ↦ elim (Bool-cases (o.payment_status === PaymentStatus.paid)) [
    | inl c ↦ rw (e, mark_order_payment_failed, c) h
    | inr c ↦
        rw (e, mark_order_payment_failed, c)
          (claim-HasStatus j k st not_paid PaymentStatus.failed s h)
  ]
]

switch_found-rows :
    (o : Order) (user : AuthenticatedUser) (s : Store)
    → ((switch_found o user s).1 ≡ s)
      ⊎ ((switch_found o user s).1
          ≡ set_orders (switchable o.id) (λ x. record x { payment_mode = PaymentMode.cod }) s)
unfolding switch_found switch_mode switch_payment_mode_if_eligible
switch_found-rows o user s = ground arith

switch_rows :
    (k : ℕ) (user : AuthenticatedUser) (s : Store)
    → ((switch_to_cod k user s).1 ≡ s)
      ⊎ ((o : Order) × ((switch_to_cod k user s).1
            ≡ set_orders (switchable o.id) (λ x. record x { payment_mode = PaymentMode.cod }) s))
unfolding switch_to_cod
switch_rows k user s = elim (Option-cases (find_order_by_id k s)) [
  | inl e ↦ inl (rw (e, switch_to_cod) refl)
  | inr (o, e) ↦ elim (switch_found-rows o user s) [
    | inl r ↦ inl (rw (e, switch_to_cod) r)
    | inr r ↦ inr (o, rw (e, switch_to_cod) r)
  ]
]

pub switch-HasStatus :
    (j k : ℕ) (st : OrderStatus) (user : AuthenticatedUser) (s : Store)
    → HasStatus j st s
    → HasStatus j st (switch_to_cod k user s).1
switch-HasStatus j k st user s h = elim (switch_rows k user s) [
  | inl e ↦ rw e h
  | inr (o, e) ↦ rw e (
      set-HasStatus j st (switchable o.id) (λ x. record x { payment_mode = PaymentMode.cod }) s
        (λ x. refl) (λ x f c. refl) h)
]

-- What the admin's two overrides write, each only to an order that is not terminal.
pub override_rows :
    (k now : ℕ) (s : Store) (o : Order)
    → find_order_by_id k s ≡ some o
    → includes terminal_order_statuses o.status ≡ false
    → ((admin_cancel_order k now s).1.orders
        ≡ (set_orders (has_order_id k) (with_status OrderStatus.cancelled now) s).orders)
      × ((force_complete_order k now s).1.orders
          ≡ (set_orders (has_order_id k) (with_status OrderStatus.delivered now) s).orders)
unfolding admin_cancel_order force_complete_order
override_rows k now s o e c = (
  rw (e, c, write_run k OrderStatus.cancelled now s o e) (ground arith),
  rw (e, c, write_run k OrderStatus.delivered now s o e) (ground arith),
)

pub override_none :
    (k now : ℕ) (s : Store) (o : Option Order)
    → find_order_by_id k s ≡ o
    → (o ≡ none) ⊎ ((p : Order) × (o ≡ some p) × (includes terminal_order_statuses p.status ≡ true))
    → ((admin_cancel_order k now s).1 ≡ s) × ((force_complete_order k now s).1 ≡ s)
unfolding admin_cancel_order force_complete_order
override_none k now s none e h = (rw e refl, rw e refl)
override_none k now s (some p) e h = (rw e (ground arith), rw e (ground arith))
