-- ===== src/Placement/Steps.antt =====
-- What a placement does to the orders, whatever comes of its coupon.
use patheya_express_platform.Common.{
  ℕ, suc, ◌≡◌, ◌⊎◌, inl, inr, refl, sym, ap, ◌∙◌, true, false, Option, none, some, List, ◌∷◌, map,
  arith, any, Action, Result, Exception, ok, err, unique_violation, Bool-cases, Option-cases, after,
}
use patheya_express_platform.Schema.{Coupon}
use patheya_express_platform.Pricing.{subtotal_calculate}
use patheya_express_platform.Coupons
use patheya_express_platform.Coupons.{
  ReserveParams, reserve_with_retries, release_redemption, finalize_redemption,
}
use patheya_express_platform.Placement.Items.{OrderItem, order_items}
use patheya_express_platform.Placement.Place.{
  Store, PlacedOrder, CreateOrderDto, AddressRequest, Circumstances, has_key,
  find_order_by_idempotency_key, check_address, reserve_coupon, reserve_params, new_order, settle,
  insert_order, place_order_internal, pricable, lost_race, is_unique_violation, on_coupons,
}

pub Result-cases {ℓ} :
    {A : Type ℓ} (r : Result A) → ((e : Exception) × (r ≡ err e)) ⊎ ((a : A) × (r ≡ ok a))
Result-cases (ok a) = inr (a, refl)
Result-cases (err e) = inl (e, refl)

-- The orders stay, and a call that answers answers with the order that has the key.
abbrev pub Keeps : ℕ → ℕ → Store → Result PlacedOrder × Store → Type 0
Keeps customer_id key s (r, t) =
    (t.orders ≡ s.orders)
    × ((o : PlacedOrder) → r ≡ ok o → find_order_by_idempotency_key customer_id key s ≡ some o)

-- An order is put in front, the only one of its key, and a call that answers answers with it.
abbrev pub Adds : ℕ → ℕ → Store → Result PlacedOrder × Store → Type 0
Adds customer_id key s (r, t) =
    (o : PlacedOrder) × (t.orders ≡ o ∷ s.orders)
    × (o.customer_id ≡ customer_id)
    × (o.idempotency_key ≡ key)
    × (any (has_key customer_id key) s.orders ≡ false)
    × ((p : PlacedOrder) → r ≡ ok p → p ≡ o)

lost_race-Keeps : (c key : ℕ) (e : Exception) (s : Store) → Keeps c key s (lost_race c key e s)
lost_race-Keeps c key e s = elim (Bool-cases (is_unique_violation e)) [
  | inr other ↦ rw other (refl, λ o q. absurd cc)
  | inl clash ↦ elim (Option-cases (find_order_by_idempotency_key c key s)) [
    | inl h ↦ rw (clash, h) (refl, λ o q. absurd cc)
    | inr (o, h) ↦ rw (clash, h) (refl, λ p q. cc)
  ]
]

-- A call on the coupons that precedes a step which keeps the orders.
after-Keeps :
    {A : Type 0} (c key : ℕ) (s : Store) (m : Action Coupons.Store A)
    (k : A → Action Store PlacedOrder)
    → ((a : A) (t : Store) → Keeps c key t (k a t))
    → Keeps c key s (after (on_coupons m s) k)
after-Keeps c key s m k keeps = elim (Result-cases (m s.coupons).0) [
  | inl (e, h) ↦ rw h (refl, λ o q. absurd cc)
  | inr (a, h) ↦ rw h (keeps a (record s { coupons = (m s.coupons).1 }))
]

settle_err-Keeps :
    (res : Option (Coupon × ℕ)) (c key : ℕ) (e : Exception) (s : Store)
    → Keeps c key s (settle res c key (err e, s))
unfolding settle
settle_err-Keeps none c key e s = lost_race-Keeps c key e s
settle_err-Keeps (some (coupon, id)) c key e s =
    after-Keeps c key s (release_redemption coupon.id id) (λ _. lost_race c key e)
      (λ _ t. lost_race-Keeps c key e t)

pub settle_ok :
    (res : Option (Coupon × ℕ)) (c key : ℕ) (o : PlacedOrder) (s : Store)
    → let (r, t) = settle res c key (ok o, s) in
      (t.orders ≡ s.orders) × ((p : PlacedOrder) → r ≡ ok p → p ≡ o)
unfolding settle
settle_ok none c key o s = (refl, λ p q. cc)
settle_ok (some (coupon, id)) c key o s =
    elim (Result-cases (finalize_redemption id o.id o.pricing.discount_amount s.coupons).0) [
      | inl (e, h) ↦ rw h (refl, λ p q. absurd cc)
      | inr (a, h) ↦ rw h (refl, λ p q. cc)
    ]

pub has_key_own :
    (c key : ℕ) (o : PlacedOrder)
    → has_key c key o ≡ true
    → (o.customer_id ≡ c) × (o.idempotency_key ≡ key)
has_key_own c key o h = (ground arith, ground arith)

pub has_key_made :
    (c key : ℕ) (o : PlacedOrder)
    → o.customer_id ≡ c
    → o.idempotency_key ≡ key
    → has_key c key o ≡ true
has_key_made c key o own keyed = ground arith

insert_order-Outcome :
    (w : Circumstances) (c : ℕ) (dto : CreateOrderDto) (items : List OrderItem)
    (res : Option (Coupon × ℕ)) (s : Store)
    → Keeps c dto.idempotency_key s (insert_order w c dto items res s)
      ⊎ Adds c dto.idempotency_key s (insert_order w c dto items res s)
unfolding insert_order
insert_order-Outcome w c dto items res s = elim (Option-cases w.failure) [
  | inr (e, h) ↦ inl (rw h (settle_err-Keeps res c dto.idempotency_key e s))
  | inl h ↦ elim (Bool-cases (any (has_key c dto.idempotency_key) s.orders)) [
    | inl clash ↦
        inl (rw (h, clash) (settle_err-Keeps res c dto.idempotency_key unique_violation s))
    | inr fresh ↦
        let o = new_order s.next_id c dto items res in
        let t = record s { orders = o ∷ s.orders; next_id = suc s.next_id } in
        let (orders, answer) = settle_ok res c dto.idempotency_key o t in
        inr (rw (h, fresh) (o, orders, refl, refl, refl, answer))
  ]
]

abbrev pub Outcome : ℕ → ℕ → Store → Result PlacedOrder × Store → Type 0
Outcome c key s r = Keeps c key s r ⊎ Adds c key s r

same_orders :
    (c key : ℕ) (s t : Store) (r : Result PlacedOrder × Store)
    → t.orders ≡ s.orders
    → Outcome c key t r
    → Outcome c key s r
same_orders c key s t r same (inl (orders, answer)) =
    inl (orders ∙ same, λ o q. rw (sym same) (answer o q))
same_orders c key s t r same (inr (o, orders, own, keyed, fresh, answer)) =
    inr (o, orders ∙ ap (λ os. o ∷ os) same, own, keyed, rw (sym same) fresh, answer)

-- A part of a placement that leaves the orders, before the rest of it.
after-Outcome :
    {A : Type 0} (c key : ℕ) (s : Store) (r : Result A × Store) (k : A → Action Store PlacedOrder)
    → r.1.orders ≡ s.orders
    → ((a : A) (t : Store) → Outcome c key t (k a t))
    → Outcome c key s (after r k)
after-Outcome c key s (ok a, t) k same rest = same_orders c key s t (k a t) same (rest a t)
after-Outcome c key s (err e, t) k same rest = inl (same, λ o q. absurd cc)

check_address-orders :
    (c : ℕ) (a : AddressRequest) (s : Store) → (check_address c a s).1.orders ≡ s.orders
check_address-orders c (AddressRequest.saved id) s = refl
check_address-orders c AddressRequest.written s = refl
check_address-orders c AddressRequest.missing s = refl

reserve_coupon-orders :
    (w : Circumstances) (c : ℕ) (dto : CreateOrderDto) (items : List OrderItem) (s : Store)
    → (reserve_coupon w c dto items s).1.orders ≡ s.orders
reserve_coupon-orders w c dto items s = elim (Option-cases dto.coupon_code) [
  | inl h ↦ rw h refl
  | inr (code, h) ↦
      elim (Result-cases
        (reserve_with_retries w.aborted w.normal_form
          (reserve_params c code dto.restaurant_id (subtotal_calculate (map pricable items))) w.now
          s.coupons).0) [ inl (e, q) ↦ rw (h, q) refl | inr (a, q) ↦ rw (h, q) refl ]
]

pub place_order_internal-Outcome :
    (w : Circumstances) (c : ℕ) (dto : CreateOrderDto) (s : Store)
    → Outcome c dto.idempotency_key s (place_order_internal w c dto s)
unfolding place_order_internal
place_order_internal-Outcome w c dto s =
    let key = dto.idempotency_key in
    after-Outcome c key s (check_address c dto.address s) _ (check_address-orders c dto.address s)
      λ _ t.
        after-Outcome c key t (order_items t.menu dto.restaurant_id dto.items, t) _ refl
          λ items u.
            after-Outcome c key u (reserve_coupon w c dto items u) _
              (reserve_coupon-orders w c dto items u) (insert_order-Outcome w c dto items)
