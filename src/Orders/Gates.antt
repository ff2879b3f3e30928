-- ===== src/Orders/Gates.antt =====
-- What updateOrderStatus lets through, and what it leaves.
use patheya_express_platform.Common.{
  ℕ, ◌≡◌, ◌⊎◌, inl, inr, refl, sym, ap, ◌∙◌, true, some, ◌∷◌, arith, ok, err, Exception,
  bad_request, forbidden, conflict, not_found, includes, Option-cases, ==_iff,
}
use patheya_express_platform.Common.Table.{find-update_where, find_holds}
use patheya_express_platform.Schema.{OrderStatus, order_status_eq}
use patheya_express_platform.Orders.Access.{AuthenticatedUser, can_access_order}
use patheya_express_platform.Orders.Store.{
  Store, Order, find_order_by_id, has_order_id, write_status, update_by_id, with_status, set_orders,
}
use patheya_express_platform.Orders.Status.{
  order_status_transitions, actor_allowed, payment_eligible, proof_verified, photo_verified,
  assert_status_change, apply_status, update_order_status, after_status, record_status,
}

-- All that must hold for an order to be moved to a status.
pub record IsAllowed (o : Order) (st : OrderStatus) (user : AuthenticatedUser) (s : Store)
    : Type 0 where
  pub access :
      can_access_order (s.restaurant o.restaurant_id) o.customer_id o.delivery_partner_id user
      ≡ true
  pub legal : includes (order_status_transitions o.status) st ≡ true
  pub actor : actor_allowed st user ≡ true
  pub paid : payment_eligible o st ≡ true
  pub proof : proof_verified o.id st user s ≡ true
  pub photo : photo_verified o.id st user s ≡ true

guard_cases :
    (o : Order) (st : OrderStatus) (user : AuthenticatedUser) (s : Store)
    → (IsAllowed o st user s × (assert_status_change o st user s ≡ (ok tt, s)))
      ⊎ (assert_status_change o st user s ≡ (err forbidden, s))
      ⊎ (assert_status_change o st user s ≡ (err bad_request, s))
      ⊎ (assert_status_change o st user s ≡ (err conflict, s))
unfolding assert_status_change
guard_cases o st user s = ground arith

pub find_order_by_id-id :
    (id : ℕ) (s : Store) (o : Order) → find_order_by_id id s ≡ some o → o.id ≡ id
unfolding find_order_by_id
find_order_by_id-id id s o e = (==_iff o.id id).0 (find_holds (has_order_id id) o s.orders e)

-- The write of a status to an order that is there.
pub write_run :
    (id : ℕ) (st : OrderStatus) (now : ℕ) (s : Store) (o : Order)
    → find_order_by_id id s ≡ some o
    → write_status id st now s
      ≡ (ok (with_status st now o), set_orders (has_order_id id) (with_status st now) s)
unfolding write_status find_order_by_id
write_run id st now s o e = rw (e, update_by_id) refl

pub after_status-rows :
    (st : OrderStatus) (o : Order) (s : Store)
    → ((after_status st o s).orders ≡ s.orders) × ((after_status st o s).history ≡ s.history)
after_status-rows st o s = ground arith

abbrev pub Moved : ℕ → OrderStatus → ℕ → ℕ → Order → Store → Store → Type 0
Moved id st by now o s t =
    (find_order_by_id id t ≡ some (with_status st now o))
    × (t.history ≡ record { order_id = id; status = st; changed_by_id = some by } ∷ s.history)

written-find :
    (id : ℕ) (st : OrderStatus) (now : ℕ) (s : Store) (o : Order)
    → find_order_by_id id s ≡ some o
    → find_order_by_id id (set_orders (has_order_id id) (with_status st now) s)
      ≡ some (with_status st now o)
unfolding find_order_by_id
written-find id st now s o e =
    find-update_where (has_order_id id) (has_order_id id) (with_status st now) s.orders (λ x. refl)
    ∙ rw e (ground (arith, find_holds (has_order_id id) o s.orders e))

-- The store that a status change leaves.
abbrev pub moved_store : ℕ → OrderStatus → ℕ → ℕ → Order → Store → Store
moved_store id st by now o s = after_status st (with_status st now o) (
    record_status id st (some by) (with_status st now o)
      (set_orders (has_order_id id) (with_status st now) s))

pub apply_run :
    (id : ℕ) (st : OrderStatus) (by now : ℕ) (s : Store) (o : Order)
    → find_order_by_id id s ≡ some o
    → apply_status id st by now s ≡ (ok (with_status st now o), moved_store id st by now o s)
unfolding apply_status
apply_run id st by now s o e = rw (write_run id st now s o e) refl

pub moved_store-Moved :
    (id : ℕ) (st : OrderStatus) (by now : ℕ) (s : Store) (o : Order)
    → find_order_by_id id s ≡ some o
    → Moved id st by now o s (moved_store id st by now o s)
moved_store-Moved id st by now s o e =
    let rows = after_status-rows st (with_status st now o) (
      record_status id st (some by) (with_status st now o)
        (set_orders (has_order_id id) (with_status st now) s)) in
    ((unfold find_order_by_id in rw (rows.0) (written-find id st now s o e)), rows.1)

pub update_cases :
    (id : ℕ) (st : OrderStatus) (user : AuthenticatedUser) (now : ℕ) (s : Store)
    → ((e : Exception) × (update_order_status id st user now s ≡ (err e, s)))
      ⊎ ((o : Order) × (find_order_by_id id s ≡ some o)
          × IsAllowed o st user s
          × (update_order_status id st user now s
              ≡ (ok (with_status st now o), moved_store id st user.user_id now o s)))
unfolding update_order_status
update_cases id st user now s = elim (Option-cases (find_order_by_id id s)) [
  | inl e ↦ inl (not_found, rw e refl)
  | inr (o, e) ↦ elim (guard_cases o st user s) [
    | inl (a, g) ↦ inr (o, e, a, rw (e, g) (apply_run id st user.user_id now s o e))
    | inr (inl g) ↦ inl (forbidden, rw (e, g) refl)
    | inr (inr (inl g)) ↦ inl (bad_request, rw (e, g) refl)
    | inr (inr (inr g)) ↦ inl (conflict, rw (e, g) refl)
  ]
]

-- A status update that succeeds was allowed: the user has access to the order, the transition is
-- legal, it is his to make, the order is paid for or COD if it is accepted, and the proofs that a
-- delivery partner needs are there. It leaves the order in the new status, with a history entry.
pub update_gated :
    (id : ℕ) (st : OrderStatus) (user : AuthenticatedUser) (now : ℕ) (s t : Store) (q : Order)
    → update_order_status id st user now s ≡ (ok q, t)
    → (o : Order) × (find_order_by_id id s ≡ some o)
      × IsAllowed o st user s
      × (q ≡ with_status st now o)
      × Moved id st user.user_id now o s t
update_gated id st user now s t q run = elim (update_cases id st user now s) [
  | inl (e, h) ↦ absurd (ground arith)
  | inr (o, e, a, h) ↦
      let same = sym run ∙ h in
      let rows : t ≡ moved_store id st user.user_id now o s = ap (λ r. r.1) same in
      (o, e, a, ground arith, rw rows (moved_store-Moved id st user.user_id now s o e))
]

-- A status update that is refused changes nothing.
pub update_refused :
    (id : ℕ) (st : OrderStatus) (user : AuthenticatedUser) (now : ℕ) (s t : Store) (x : Exception)
    → update_order_status id st user now s ≡ (err x, t)
    → t ≡ s
update_refused id st user now s t x run = elim (update_cases id st user now s) [
  | inl (e, h) ↦ ground arith
  | inr (o, e, a, h) ↦ absurd (ground arith)
]
