-- ===== src/Orders/Refunds.antt =====
-- Refunding an order: what an error undoes, and that a refund happens once.
use patheya_express_platform.Common.{
  ℕ, ◌≡◌, ◌⊎◌, inl, inr, refl, sym, ap, ◌∙◌, true, false, Option, none, some, List, [], ◌∷◌, arith,
  ok, err, Exception, conflict, not_found, Result, includes, find, count, Option-cases, Bool-cases,
  ◌==◌,
}
use patheya_express_platform.Common.Table.{
  find-update_where, map_found, IsKeyed, IsKeyed-update_where, count-claim,
}
use patheya_express_platform.Schema.{PaymentStatus, payment_status_eq}
use patheya_express_platform.Payments.Service.{PaymentProvider}
use patheya_express_platform.Orders.Store.{
  Store, Order, find_order_by_id, has_order_id, set_orders, payment_claimable, with_payment_status,
  claim_payment_status,
}
use patheya_express_platform.Orders.Gates.{find_order_by_id-id}
use patheya_express_platform.Orders.Payment.{
  Platform, refund_order, refund_claimed_order, refund_online, revert_claim,
}

-- The ids of orders are a key.
abbrev pub IsKeyedOrders : ℕ → Platform → Type 0
IsKeyedOrders n s = IsKeyed (λ (o : Order). o.id) n s.order_rows.orders

abbrev only_paid : List PaymentStatus
only_paid = PaymentStatus.paid ∷ []

abbrev only_refunded : List PaymentStatus
only_refunded = PaymentStatus.refunded ∷ []

abbrev claimed_orders : ℕ → Store → Store
claimed_orders id s =
    set_orders (payment_claimable id only_paid) (with_payment_status PaymentStatus.refunded) s

abbrev under_claim : ℕ → Platform → Platform
under_claim id s = record s { order_rows = claimed_orders id s.order_rows }

body-orders :
    (provider : PaymentProvider) (o : Order) (amount : Option ℕ) (s : Platform)
    → (refund_claimed_order provider o amount s).1.order_rows.orders ≡ s.order_rows.orders
unfolding refund_claimed_order refund_online
body-orders provider o amount s = ground arith

body-ok :
    (provider : PaymentProvider) (o q : Order) (amount : Option ℕ) (s t : Platform)
    → refund_claimed_order provider o amount s ≡ (ok q, t)
    → find_order_by_id o.id t.order_rows ≡ some q
unfolding refund_claimed_order refund_online
body-ok provider o q amount s t run = ground arith

refund_cases :
    (provider : PaymentProvider) (id : ℕ) (amount : Option ℕ) (s : Platform)
    → ((e : Exception) × (refund_order provider id amount s ≡ (err e, s)))
      ⊎ ((o : Order) × (find_order_by_id id s.order_rows ≡ some o)
          × ((count (payment_claimable id only_paid) s.order_rows.orders == 0) ≡ false)
          × (refund_order provider id amount s
              ≡ revert_claim provider id
                  (refund_claimed_order provider o amount (under_claim id s))))
unfolding refund_order claim_payment_status
refund_cases provider id amount s = elim (Option-cases (find_order_by_id id s.order_rows)) [
  | inl e ↦ inl (not_found, rw (e, refund_order) refl)
  | inr (o, e) ↦
      elim (Bool-cases (count (payment_claimable id only_paid) s.order_rows.orders == 0)) [
        | inl c ↦ inl (conflict, rw (e, refund_order, c) refl)
        | inr c ↦ inr (o, e, c, rw (e, refund_order, c) refl)
      ]
]

-- Only a paid order is claimed.
claimed-paid :
    (n id : ℕ) (s : Platform) (o : Order)
    → IsKeyedOrders n s
    → find_order_by_id id s.order_rows ≡ some o
    → (count (payment_claimable id only_paid) s.order_rows.orders == 0) ≡ false
    → o.payment_status ≡ PaymentStatus.paid
unfolding find_order_by_id
claimed-paid n id s o b e c = ground (
  arith,
  count-claim (λ (x : Order). x.id) (λ x. includes only_paid x.payment_status) id n
      s.order_rows.orders b,
)

claim-find :
    (j id : ℕ) (allowed : List PaymentStatus) (next : PaymentStatus) (s : Store)
    → find_order_by_id j (set_orders (payment_claimable id allowed) (with_payment_status next) s)
      ≡ map_found (payment_claimable id allowed) (with_payment_status next) (find_order_by_id j s)
unfolding find_order_by_id
claim-find j id allowed next s =
    find-update_where (has_order_id j) (payment_claimable id allowed) (with_payment_status next)
      s.orders (λ x. refl)

same_rows :
    (j : ℕ) (s t : Store) → s.orders ≡ t.orders → find_order_by_id j s ≡ find_order_by_id j t
unfolding find_order_by_id
same_rows j s t e = ap (find (has_order_id j)) e

-- Claiming and reverting leaves an order as it was, if it was paid.
round_trip :
    (id : ℕ) (found : Option Order)
    → ((p : Order) → found ≡ some p → (p.id == id) ≡ true → p.payment_status ≡ PaymentStatus.paid)
    → map_found (payment_claimable id only_refunded) (with_payment_status PaymentStatus.paid) (
        map_found
          (payment_claimable id only_paid)
          (with_payment_status PaymentStatus.refunded)
          found)
      ≡ found
round_trip id none paid = refl
round_trip id (some p) paid = ground (arith, paid p refl)

reverted-find :
    (provider : PaymentProvider) (n j id : ℕ) (o : Order) (amount : Option ℕ) (s : Platform)
    → IsKeyedOrders n s
    → find_order_by_id id s.order_rows ≡ some o
    → o.payment_status ≡ PaymentStatus.paid
    → find_order_by_id j
        (claim_payment_status id only_refunded PaymentStatus.paid
          (refund_claimed_order provider o amount (under_claim id s)).1.order_rows).1
      ≡ find_order_by_id j s.order_rows
unfolding claim_payment_status
reverted-find provider n j id o amount s b e paid =
    claim-find j id only_refunded PaymentStatus.paid
      (refund_claimed_order provider o amount (under_claim id s)).1.order_rows
    ∙ ap (map_found (payment_claimable id only_refunded) (with_payment_status PaymentStatus.paid)) (
        same_rows j (refund_claimed_order provider o amount (under_claim id s)).1.order_rows
          (claimed_orders id s.order_rows) (body-orders provider o amount (under_claim id s))
        ∙ claim-find j id only_paid PaymentStatus.refunded s.order_rows)
    ∙ round_trip id (find_order_by_id j s.order_rows)
        (λ p f c. ground (arith, find_order_by_id-id j s.order_rows p f))

reverted :
    (provider : PaymentProvider) (j id : ℕ) (outcome : Result Order × Platform) (t : Platform)
    (x : Exception)
    → revert_claim provider id outcome ≡ (err x, t)
    → find_order_by_id j t.order_rows
      ≡ find_order_by_id j
          (claim_payment_status id only_refunded PaymentStatus.paid outcome.1.order_rows).1
reverted provider j id (ok o, s) t x run = absurd (ground arith)
reverted provider j id (err e, s) t x run = sym (ap (λ r. find_order_by_id j r.1.order_rows) run)

-- A refund of an order that fails, at whatever step, leaves every order as it was.
pub refund_reverts :
    (provider : PaymentProvider) (n j id : ℕ) (amount : Option ℕ) (s t : Platform) (x : Exception)
    → IsKeyedOrders n s
    → refund_order provider id amount s ≡ (err x, t)
    → find_order_by_id j t.order_rows ≡ find_order_by_id j s.order_rows
refund_reverts provider n j id amount s t x b run = elim (refund_cases provider id amount s) [
  | inl (y, e) ↦ let same : t ≡ s = ground arith in rw same refl
  | inr (o, e, c, r) ↦
      let back = reverted-find provider n j id o amount s b e (claimed-paid n id s o b e c) in
      reverted provider j id (refund_claimed_order provider o amount (under_claim id s)) t x
        (sym r ∙ run)
      ∙ back
]

kept :
    (provider : PaymentProvider) (id : ℕ) (outcome : Result Order × Platform) (t : Platform)
    (q : Order)
    → revert_claim provider id outcome ≡ (ok q, t)
    → outcome ≡ (ok q, t)
kept provider id (ok o, s) t q run = run
kept provider id (err e, s) t q run = absurd (ground arith)

claimed-find :
    (id : ℕ) (s : Store) (o : Order)
    → find_order_by_id id s ≡ some o
    → o.payment_status ≡ PaymentStatus.paid
    → find_order_by_id id (claimed_orders id s)
      ≡ some (with_payment_status PaymentStatus.refunded o)
claimed-find id s o e paid =
    claim-find id id only_paid PaymentStatus.refunded s
    ∙ rw e (ground (arith, find_order_by_id-id id s o e))

refund_conflict :
    (provider : PaymentProvider) (id : ℕ) (amount : Option ℕ) (t : Platform) (q : Order)
    → find_order_by_id id t.order_rows ≡ some q
    → (count (payment_claimable id only_paid) t.order_rows.orders == 0) ≡ true
    → refund_order provider id amount t ≡ (err conflict, t)
unfolding refund_order claim_payment_status
refund_conflict provider id amount t q e c = rw (e, refund_order, c) refl

-- An order that stands as refunded is not claimed again.
none_paid :
    (n id : ℕ) (t : Platform) (q : Order)
    → IsKeyedOrders n t
    → find_order_by_id id t.order_rows ≡ some q
    → q.payment_status ≡ PaymentStatus.refunded
    → (count (payment_claimable id only_paid) t.order_rows.orders == 0) ≡ true
unfolding find_order_by_id
none_paid n id t q b e h = ground (
  arith,
  count-claim (λ (x : Order). x.id) (λ x. includes only_paid x.payment_status) id n
      t.order_rows.orders b,
)

refused_again :
    (provider : PaymentProvider) (n id : ℕ) (amount : Option ℕ) (t : Platform) (q : Order)
    → IsKeyedOrders n t
    → find_order_by_id id t.order_rows ≡ some q
    → q.payment_status ≡ PaymentStatus.refunded
    → refund_order provider id amount t ≡ (err conflict, t)
refused_again provider n id amount t q b e h =
    refund_conflict provider id amount t q e (none_paid n id t q b e h)

claimed-keyed :
    (n id : ℕ) (s t : Platform)
    → IsKeyedOrders n s
    → t.order_rows.orders ≡ (claimed_orders id s.order_rows).orders
    → IsKeyedOrders n t
claimed-keyed n id s t b rows = rw rows (
    IsKeyed-update_where (λ (x : Order). x.id) (payment_claimable id only_paid)
      (with_payment_status PaymentStatus.refunded) n s.order_rows.orders (λ x. refl) b)

-- A refund of an order that succeeds leaves the order refunded, and no second refund of it gets
-- past the claim: it is a conflict and changes nothing.
pub refund_happens_once :
    (provider : PaymentProvider) (n id : ℕ) (amount second : Option ℕ) (s t : Platform) (q : Order)
    → IsKeyedOrders n s
    → refund_order provider id amount s ≡ (ok q, t)
    → (find_order_by_id id t.order_rows ≡ some q)
      × (q.payment_status ≡ PaymentStatus.refunded)
      × (refund_order provider id second t ≡ (err conflict, t))
refund_happens_once provider n id amount second s t q b run =
    elim (refund_cases provider id amount s) [
      | inl (y, e) ↦ absurd (ground arith)
      | inr (o, e, c, r) ↦
          let made =
            kept provider id (refund_claimed_order provider o amount (under_claim id s)) t q
              (sym r ∙ run) in
          let rows : t.order_rows.orders ≡ (claimed_orders id s.order_rows).orders =
            sym (ap (λ z. z.1.order_rows.orders) made)
            ∙ body-orders provider o amount (under_claim id s) in
          let claimed =
            same_rows id t.order_rows (claimed_orders id s.order_rows) rows
            ∙ claimed-find id s.order_rows o e (claimed-paid n id s o b e c) in
          let found =
            ap (λ k. find_order_by_id k t.order_rows)
              (sym (find_order_by_id-id id s.order_rows o e))
            ∙ body-ok provider o q amount (under_claim id s) t made in
          let refunded : q.payment_status ≡ PaymentStatus.refunded = ground arith in
          (
            found,
            refunded,
            refused_again provider n id second t q (claimed-keyed n id s t b rows) found refunded,
          )
    ]
