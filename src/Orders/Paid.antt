-- ===== src/Orders/Paid.antt =====
-- What markOrderPaid leaves.
use patheya_express_platform.Common.{
  ℕ, ◌≡◌, ◌⊎◌, inl, inr, refl, sym, ◌∙◌, none, some, arith, ok, count, Option-cases, Bool-cases,
  ◌==◌, ◌===◌,
}
use patheya_express_platform.Common.Table.{find-update_where, find_holds}
use patheya_express_platform.Schema.{OrderStatus, order_status_eq, PaymentStatus, payment_status_eq}
use patheya_express_platform.Orders.Store.{
  Store, Order, find_order_by_id, has_order_id, with_status, set_orders, payment_claimable,
  with_payment_status, claim_payment_status,
}
use patheya_express_platform.Orders.Status.{record_status}
use patheya_express_platform.Orders.Payment.{not_paid, mark_order_paid, confirm_paid}
use patheya_express_platform.Orders.Gates.{find_order_by_id-id, write_run}

abbrev pub paid_store : ℕ → Store → Store
paid_store k s =
    set_orders (payment_claimable k not_paid) (with_payment_status PaymentStatus.paid) s

abbrev pub confirmed_store : ℕ → ℕ → Order → Store → Store
confirmed_store k now o s =
    record_status k OrderStatus.confirmed none (with_status OrderStatus.confirmed now o)
      (set_orders (has_order_id k) (with_status OrderStatus.confirmed now) s)

pub paid-find :
    (k : ℕ) (s : Store) (o : Order)
    → find_order_by_id k s ≡ some o
    → find_order_by_id k (paid_store k s) ≡ some (with_payment_status PaymentStatus.paid o)
unfolding find_order_by_id
paid-find k s o e =
    find-update_where (has_order_id k) (payment_claimable k not_paid)
      (with_payment_status PaymentStatus.paid) s.orders (λ x. refl)
    ∙ rw e (ground (arith, find_holds (has_order_id k) o s.orders e))

mark_read :
    (k now : ℕ) (s : Store) (o : Order)
    → find_order_by_id k s ≡ some o
    → ((n : ℕ) → mark_order_paid k n s ≡ (ok tt, s))
      ⊎ (mark_order_paid k now s ≡ confirm_paid o now (paid_store k s))
unfolding mark_order_paid claim_payment_status
mark_read k now s o e = elim (Bool-cases (o.payment_status === PaymentStatus.paid)) [
  | inl c ↦ inl (λ n. rw (e, mark_order_paid, c) refl)
  | inr c ↦ elim (Bool-cases (count (payment_claimable k not_paid) s.orders == 0)) [
    | inl d ↦ inl (λ n. rw (e, mark_order_paid, c, d) refl)
    | inr d ↦ inr (rw (e, mark_order_paid, c, d) refl)
  ]
]

confirm_cases :
    (k now : ℕ) (s : Store) (o p : Order)
    → o.id ≡ k
    → find_order_by_id k s ≡ some p
    → (confirm_paid o now s ≡ (ok tt, s))
      ⊎ ((o.status ≡ OrderStatus.pending)
          × (confirm_paid o now s ≡ (ok tt, confirmed_store k now p s)))
unfolding confirm_paid
confirm_cases k now s o p key e = elim (Bool-cases (o.status === OrderStatus.pending)) [
  | inl c ↦ inr (
    ground arith,
    rw⁻¹ key (rw (c, write_run o.id OrderStatus.confirmed now s p (rw (sym key) at e)) refl),
  )
  | inr c ↦ inl (rw c refl)
]

-- The three ways a call can go: nothing to do, paid, and paid and confirmed.
pub paid_cases :
    (k now : ℕ) (s : Store)
    → ((n : ℕ) → mark_order_paid k n s ≡ (ok tt, s))
      ⊎ ((o : Order) × (find_order_by_id k s ≡ some o)
          × ((mark_order_paid k now s ≡ (ok tt, paid_store k s))
              ⊎ ((o.status ≡ OrderStatus.pending)
                  × (mark_order_paid k now s ≡ (
                    ok tt,
                    confirmed_store k now
                        (with_payment_status PaymentStatus.paid o)
                        (paid_store k s),
                  )))))
unfolding mark_order_paid
paid_cases k now s = elim (Option-cases (find_order_by_id k s)) [
  | inl e ↦ inl (λ n. rw (e, mark_order_paid) refl)
  | inr (o, e) ↦ elim (mark_read k now s o e) [
    | inl h ↦ inl h
    | inr h ↦
        elim (confirm_cases k now (paid_store k s) o (with_payment_status PaymentStatus.paid o)
          (find_order_by_id-id k s o e) (paid-find k s o e)) [
            | inl c ↦ inr (o, e, inl (h ∙ c))
            | inr (p, c) ↦ inr (o, e, inr (p, h ∙ c))
          ]
  ]
]
