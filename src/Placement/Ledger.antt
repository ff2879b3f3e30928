-- ===== src/Placement/Ledger.antt =====
-- The coupon of a placement: what the ledger is after an order that was not made.
use patheya_express_platform.Common.{
  ℕ, suc, ◌≡◌, ◌⊎◌, inl, inr, refl, ap, ◌∙◌, Option, none, some, List, ◌∷◌, map, any, Result,
  Exception, ok, err, bad_request, not_found, unique_violation, Bool-cases, Option-cases, Unchanged,
  after, pure,
}
use patheya_express_platform.Schema.{Coupon}
use patheya_express_platform.Pricing.{subtotal_calculate}
use patheya_express_platform.Coupons
use patheya_express_platform.Coupons.{
  ReserveParams, reserve_with_retries, release_redemption, finalize_redemption,
}
use patheya_express_platform.Coupons.Invariant.{IsValid}
use patheya_express_platform.Coupons.Undo.{
  SameLedger, reserve-release, reserve_with_retries-Unchanged,
}
use patheya_express_platform.Placement.Items.{OrderItem, order_items}
use patheya_express_platform.Placement.Place.{
  Store, PlacedOrder, CreateOrderDto, AddressRequest, Circumstances, has_key, check_address,
  reserve_coupon, reserve_params, new_order, settle, insert_order, place_order_internal, pricable,
  lift_coupons, belongs_to,
}
use patheya_express_platform.Placement.Steps.{settle_ok}

-- Either nothing is left of the call, no order and no redemption, or one order is added.
abbrev pub AllOrNothing : Store → Result PlacedOrder × Store → Type 0
AllOrNothing s (r, t) =
    ((t.orders ≡ s.orders) × SameLedger s.coupons t.coupons)
    ⊎ ((o : PlacedOrder) × (t.orders ≡ o ∷ s.orders))

-- The reservation of a placement, in hand when the insertion fails.
abbrev IsUndone : Option (Coupon × ℕ) → Store → Store → Type 0
IsUndone none s t = t ≡ s
IsUndone (some (c, id)) s t =
    (t.orders ≡ s.orders)
    × (let (r, u) = release_redemption c.id id t.coupons in (r ≡ ok tt) × SameLedger s.coupons u)

settle_err-SameLedger :
    (res : Option (Coupon × ℕ)) (c key : ℕ) (e : Exception) (s t : Store)
    → IsUndone res s t
    → let (r, u) = settle res c key (err e, t) in
      (u.orders ≡ s.orders) × SameLedger s.coupons u.coupons
unfolding settle
settle_err-SameLedger none c key e s t same = rw same (refl, (refl, λ j. refl))
settle_err-SameLedger (some (coupon, id)) c key e s t (orders, (released, same)) =
    rw released (orders, same)

insert_order-AllOrNothing :
    (w : Circumstances) (c : ℕ) (dto : CreateOrderDto) (items : List OrderItem)
    (res : Option (Coupon × ℕ)) (s t : Store)
    → IsUndone res s t
    → t.orders ≡ s.orders
    → AllOrNothing s (insert_order w c dto items res t)
unfolding insert_order
insert_order-AllOrNothing w c dto items res s t undone same = elim (Option-cases w.failure) [
  | inr (e, h) ↦ inl (rw h (settle_err-SameLedger res c dto.idempotency_key e s t undone))
  | inl h ↦ elim (Bool-cases (any (has_key c dto.idempotency_key) t.orders)) [
    | inl clash ↦ inl (
        rw (h, clash) (settle_err-SameLedger res c dto.idempotency_key unique_violation s t undone))
    | inr fresh ↦
        let o = new_order t.next_id c dto items res in
        let u = record t { orders = o ∷ t.orders; next_id = suc t.next_id } in
        let (orders, _) = settle_ok res c dto.idempotency_key o u in
        inr (rw (h, fresh) (o, orders ∙ ap (λ os. o ∷ os) same))
  ]
]

reserved-AllOrNothing :
    (w : Circumstances) (c : ℕ) (dto : CreateOrderDto) (items : List OrderItem) (s : Store)
    (r : Result (Coupon × ℕ) × Coupons.Store)
    → Unchanged s.coupons r
    → ((coupon : Coupon) (id : ℕ) (t : Coupons.Store)
        → r ≡ (ok (coupon, id), t)
        → let (q, u) = release_redemption coupon.id id t in (q ≡ ok tt) × SameLedger s.coupons u)
    → AllOrNothing s
        (after (after (lift_coupons s r) (λ v. pure (some v))) (insert_order w c dto items))
reserved-AllOrNothing w c dto items s (err e, t) same undone =
    inl (refl, (ap (λ u. u.redemptions) same, λ j. ap (λ u. u.coupon j) same))
reserved-AllOrNothing w c dto items s (ok (coupon, id), t) same undone =
    insert_order-AllOrNothing w c dto items (some (coupon, id)) s (record s { coupons = t })
      (refl, undone coupon id t refl) refl

reserve_coupon-AllOrNothing :
    (w : Circumstances) (c : ℕ) (dto : CreateOrderDto) (items : List OrderItem) (s : Store)
    → IsValid s.coupons
    → AllOrNothing s (after (reserve_coupon w c dto items s) (insert_order w c dto items))
unfolding insert_order
reserve_coupon-AllOrNothing w c dto items s v = elim (Option-cases dto.coupon_code) [
  | inl h ↦ rw h (insert_order-AllOrNothing w c dto items none s s refl refl)
  | inr (code, h) ↦
      let p = reserve_params c code dto.restaurant_id (subtotal_calculate (map pricable items)) in
      rw h (
        reserved-AllOrNothing w c dto items s
          (reserve_with_retries w.aborted w.normal_form p w.now s.coupons)
          (reserve_with_retries-Unchanged w.aborted w.normal_form p w.now s.coupons)
          (λ coupon id t run.
            reserve-release w.aborted w.normal_form p w.now s.coupons t coupon id v run))
]

no_items : (s : Store) (e : Exception) → AllOrNothing s (err e, s)
no_items s e = inl (refl, (refl, λ j. refl))

checked-AllOrNothing :
    (w : Circumstances) (c : ℕ) (dto : CreateOrderDto) (s : Store) (r : Result (List OrderItem))
    → IsValid s.coupons
    → AllOrNothing s (
        after
          (r, s)
          (λ items t. after (reserve_coupon w c dto items t) (insert_order w c dto items)))
checked-AllOrNothing w c dto s (err e) v = no_items s e
checked-AllOrNothing w c dto s (ok items) v = reserve_coupon-AllOrNothing w c dto items s v

addressed :
    (c : ℕ) (a : AddressRequest) (s : Store)
    → ((e : Exception) × (check_address c a s ≡ (err e, s))) ⊎ (check_address c a s ≡ (ok tt, s))
addressed c (AddressRequest.saved id) s = elim (Bool-cases (belongs_to (s.address_owner id) c)) [
  | inl h ↦ rw h (inr refl)
  | inr h ↦ rw h (inl (not_found, refl))
]
addressed c AddressRequest.written s = inr refl
addressed c AddressRequest.missing s = inl (bad_request, refl)

-- However a placement fails, at the address, an item, the coupon, the insertion or a lost race, the
-- coupon ledger keeps no trace of it: a call that adds no order leaves the redemptions and every
-- coupon's counter as they were, and the orders too; the only other outcome is one order added. The
-- ledger is valid before.
pub all_or_nothing :
    (w : Circumstances) (c : ℕ) (dto : CreateOrderDto) (s : Store)
    → IsValid s.coupons
    → AllOrNothing s (place_order_internal w c dto s)
unfolding place_order_internal
all_or_nothing w c dto s v = elim (addressed c dto.address s) [
  | inl (e, h) ↦ rw h (no_items s e)
  | inr h ↦ rw h (checked-AllOrNothing w c dto s (order_items s.menu dto.restaurant_id dto.items) v)
]
