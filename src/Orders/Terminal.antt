-- ===== src/Orders/Terminal.antt =====
-- Every operation on an order, and the orders that no such operation moves again.
use patheya_express_platform.Common.{
  ℕ, ◌≡◌, ◌⊎◌, inl, inr, refl, Bool, true, false, Option, none, some, List, [], ◌∷◌, arith,
  includes, Bool-cases,
}
use patheya_express_platform.Schema.{OrderStatus, order_status_eq, PaymentStatus, payment_status_eq}
use patheya_express_platform.Orders.Access.{AuthenticatedUser}
use patheya_express_platform.Orders.Store.{
  Store, Order, find_order_by_id, has_order_id, update_by_id, with_status, set_orders,
  claim_payment_status,
}
use patheya_express_platform.Orders.Status.{
  terminal_order_statuses, update_order_status, handle_acceptance_timeout, admin_cancel_order,
  force_complete_order, assign_delivery_partner,
}
use patheya_express_platform.Orders.Payment.{
  mark_order_paid, mark_order_payment_failed, switch_to_cod,
}
use patheya_express_platform.Orders.TimeoutMoves.{timeout-HasStatus}
use patheya_express_platform.Orders.Moves.{
  HasStatus, claim-HasStatus, set-HasStatus, rows-HasStatus, write-HasStatus, update-HasStatus,
  paid-HasStatus, failed-HasStatus, switch-HasStatus, override_rows, override_none,
}

-- A call of the service, with what it is called with.
pub data Call : Type 0 where
  updates : (id : ℕ) → OrderStatus → AuthenticatedUser → (now : ℕ) → Call
  times_out : (id : ℕ) → Call
  pays : (id now : ℕ) → Call
  fails_payment : (id : ℕ) → Call
  switches_to_cod : (id : ℕ) → AuthenticatedUser → Call
  admin_cancels force_completes : (id now : ℕ) → Call
  assigns : (known : ℕ → Bool) (id partner_id : ℕ) → Call
  claims_payment : (id : ℕ) → List PaymentStatus → PaymentStatus → Call

pub perform : Call → Store → Store
perform (updates id st user now) s = (update_order_status id st user now s).1
perform (times_out id) s = handle_acceptance_timeout id s
perform (pays id now) s = (mark_order_paid id now s).1
perform (fails_payment id) s = mark_order_payment_failed id s
perform (switches_to_cod id user) s = (switch_to_cod id user s).1
perform (admin_cancels id now) s = (admin_cancel_order id now s).1
perform (force_completes id now) s = (force_complete_order id now s).1
perform (assigns known id partner_id) s = (assign_delivery_partner known id partner_id s).1
perform (claims_payment id allowed next) s = (claim_payment_status id allowed next s).1

pub run : List Call → Store → Store
run [] s = s
run (c ∷ cs) s = run cs (perform c s)

terminal_cases :
    (o : Option Order)
    → (o ≡ none)
      ⊎ ((p : Order) × (o ≡ some p) × (includes terminal_order_statuses p.status ≡ true))
      ⊎ ((p : Order) × (o ≡ some p) × (includes terminal_order_statuses p.status ≡ false))
terminal_cases none = inl refl
terminal_cases (some p) = elim (Bool-cases (includes terminal_order_statuses p.status)) [
  | inl c ↦ inr (inl (p, refl, c))
  | inr c ↦ inr (inr (p, refl, c))
]

override-HasStatus :
    (j k now : ℕ) (st : OrderStatus) (s : Store)
    → includes terminal_order_statuses st ≡ true
    → HasStatus j st s
    → HasStatus j st (admin_cancel_order k now s).1
      × HasStatus j st (force_complete_order k now s).1
override-HasStatus j k now st s closed h = elim (terminal_cases (find_order_by_id k s)) [
  | inl e ↦
      let same = override_none k now s (find_order_by_id k s) refl (inl e) in
      (rw (same.0) h, rw (same.1) h)
  | inr (inl e) ↦
      let same = override_none k now s (find_order_by_id k s) refl (inr e) in
      (rw (same.0) h, rw (same.1) h)
  | inr (inr (p, e, c)) ↦
      let rows = override_rows k now s p e c in
      (
        rows-HasStatus j st (set_orders (has_order_id k) (with_status OrderStatus.cancelled now) s)
            (admin_cancel_order k now s).1 rows.0
            (write-HasStatus j k st OrderStatus.cancelled now s p e c closed h),
        rows-HasStatus j st (set_orders (has_order_id k) (with_status OrderStatus.delivered now) s)
            (force_complete_order k now s).1 rows.1
            (write-HasStatus j k st OrderStatus.delivered now s p e c closed h),
      )
]

assign-rows :
    (known : ℕ → Bool) (k partner : ℕ) (s : Store)
    → ((assign_delivery_partner known k partner s).1 ≡ s)
      ⊎ ((assign_delivery_partner known k partner s).1
          ≡ set_orders (has_order_id k) (λ o. record o { delivery_partner_id = some partner }) s)
unfolding assign_delivery_partner update_by_id
assign-rows known k partner s = ground arith

perform-HasStatus :
    (c : Call) (j : ℕ) (st : OrderStatus) (s : Store)
    → includes terminal_order_statuses st ≡ true
    → HasStatus j st s
    → HasStatus j st (perform c s)
unfolding perform
perform-HasStatus (updates id to user now) j st s closed h =
    update-HasStatus j id st to user now s closed h
perform-HasStatus (times_out id) j st s closed h = timeout-HasStatus j id st s closed h
perform-HasStatus (pays id now) j st s closed h = paid-HasStatus j id st now s closed h
perform-HasStatus (fails_payment id) j st s closed h = failed-HasStatus j id st s h
perform-HasStatus (switches_to_cod id user) j st s closed h = switch-HasStatus j id st user s h
perform-HasStatus (admin_cancels id now) j st s closed h =
    (override-HasStatus j id now st s closed h).0
perform-HasStatus (force_completes id now) j st s closed h =
    (override-HasStatus j id now st s closed h).1
perform-HasStatus (assigns known id partner) j st s closed h =
    elim (assign-rows known id partner s) [
      | inl e ↦ rw e h
      | inr e ↦ rw e (
          set-HasStatus j st (has_order_id id)
            (λ o. record o { delivery_partner_id = some partner }) s (λ x. refl) (λ x f c. refl) h)
    ]
perform-HasStatus (claims_payment id allowed next) j st s closed h =
    claim-HasStatus j id st allowed next s h

-- An order that is delivered or cancelled keeps that status through any sequence of calls, each of
-- which reads what the one before it left.
pub terminal_stays :
    (cs : List Call) (j : ℕ) (st : OrderStatus) (s : Store)
    → includes terminal_order_statuses st ≡ true
    → HasStatus j st s
    → HasStatus j st (run cs s)
unfolding run
terminal_stays [] j st s closed h = h
terminal_stays (c ∷ cs) j st s closed h =
    terminal_stays cs j st (perform c s) closed (perform-HasStatus c j st s closed h)
