-- ===== src/Placement/Place.antt =====
-- placeOrder and placeOrderInternal of modules/orders/services/orders.service.ts: the idempotency
-- key, the coupon that is reserved around the insertion of the order, and what a failure gives back.
use patheya_express_platform.Common.{
  ℕ, suc, ◌*◌, Bool, true, false, ◌&&◌, Option, none, some, List, ◌∷◌, ◌==◌, if◌then◌else◌, find,
  any, map, Action, Result, Exception, ok, err, bad_request, not_found, conflict, unique_violation,
  ◌>>=◌, ◌>>◌, pure, throw, gets, modify,
}
use patheya_express_platform.Schema.{Coupon}
use patheya_express_platform.Pricing.{
  PricableOrderItem, PricingResult, calculate, subtotal_calculate,
}
use patheya_express_platform.Coupons
use patheya_express_platform.Coupons.{
  ReserveParams, reserve_with_retries, release_redemption, finalize_redemption,
}
use patheya_express_platform.Placement.Items.{MenuItem, ItemRequest, OrderItem, order_items, lift}

-- `addressId`, `deliveryAddress`, or neither.
pub data AddressRequest : Type 0 where
  saved : (address_id : ℕ) → AddressRequest
  written : AddressRequest
  missing : AddressRequest

pub record CreateOrderDto : Type 0 where
  pub restaurant_id : ℕ
  pub address : AddressRequest
  pub items : List ItemRequest
  pub coupon_code : Option ℕ
  pub idempotency_key : ℕ

pub record PlacedOrder : Type 0 where
  pub id : ℕ
  pub customer_id : ℕ
  pub restaurant_id : ℕ
  pub idempotency_key : ℕ
  pub items : List OrderItem
  pub coupon_id : Option ℕ
  pub pricing : PricingResult

-- What follows a placed order, newest first.
pub data Event : Type 0 where
  placed_in_history : (order_id changed_by : ℕ) → Event
  timeout_scheduled : (order_id : ℕ) (delay_ms : ℕ) → Event
  order_placed : (order_id customer_id restaurant_id : ℕ) → Event

pub record Store : Type 0 where
  pub menu : List MenuItem
  pub address_owner : (address_id : ℕ) → Option ℕ
  pub acceptance_timeout_minutes : (restaurant_id : ℕ) → Option ℕ
  pub orders : List PlacedOrder
  pub next_id : ℕ
  pub coupons : Coupons.Store
  pub events : List Event

abbrev pub has_key : ℕ → ℕ → PlacedOrder → Bool
has_key customer_id key o = (o.customer_id == customer_id) && (o.idempotency_key == key)

-- `findOrderByIdempotencyKey`
abbrev pub find_order_by_idempotency_key : ℕ → ℕ → Store → Option PlacedOrder
find_order_by_idempotency_key customer_id key s = find (has_key customer_id key) s.orders

-- `createOrder` under the unique index on customer and key. `failure` is any other way in which the
-- insertion fails, a clash of the order number among them.
abbrev pub create_order : Option Exception → PlacedOrder → Action Store PlacedOrder
create_order (some e) o s = (err e, s)
create_order none o s =
    if any (has_key o.customer_id o.idempotency_key) s.orders
    then (err unique_violation, s)
    else (ok o, record s { orders = o ∷ s.orders; next_id = suc s.next_id })

abbrev pub lift_coupons : {A : Type 0} → Store → Result A × Coupons.Store → Result A × Store
lift_coupons s (r, c) = (r, record s { coupons = c })

-- A call of CouponsService.
abbrev pub on_coupons : {A : Type 0} → Action Coupons.Store A → Action Store A
on_coupons m s = lift_coupons s (m s.coupons)

abbrev pub belongs_to : Option ℕ → ℕ → Bool
belongs_to none customer_id = false
belongs_to (some owner) customer_id = owner == customer_id

-- The address, `findByIdForCustomer` where it is a saved one.
abbrev pub check_address : ℕ → AddressRequest → Action Store (Unit {0})
check_address customer_id (saved id) s =
    (if belongs_to (s.address_owner id) customer_id then ok tt else err not_found, s)
check_address customer_id written s = (ok tt, s)
check_address customer_id missing s = (err bad_request, s)

abbrev pub pricable : OrderItem → PricableOrderItem
pricable i = record { total_price = i.total_price }

abbrev pub reserve_params : ℕ → ℕ → ℕ → ℕ → ReserveParams
reserve_params customer_id code restaurant_id subtotal = record {
  user_id = customer_id;
  code = code;
  restaurant_id = restaurant_id;
  subtotal = subtotal;
}

-- What the call is given beside its arguments: the time, the attempts that Postgres aborts, the
-- normal form of a coupon code, and how the insertion fails if it does.
pub record Circumstances : Type 0 where
  pub now : ℕ
  pub aborted : ℕ → Bool
  pub normal_form : ℕ → ℕ
  pub failure : Option Exception

-- The reservation, where a code is given.
abbrev pub reserve_coupon :
    Circumstances → ℕ → CreateOrderDto → List OrderItem → Action Store (Option (Coupon × ℕ))
reserve_coupon w customer_id dto items = elim (dto.coupon_code) [
  | none ↦ pure none
  | some code ↦
      on_coupons (
        reserve_with_retries w.aborted w.normal_form
          (reserve_params customer_id code dto.restaurant_id
            (subtotal_calculate (map pricable items)))
          w.now)
      >>= λ r. pure (some r)
]

abbrev pub coupon_of : Option (Coupon × ℕ) → Option Coupon
coupon_of none = none
coupon_of (some (c, id)) = some c

abbrev coupon_id_of : Option (Coupon × ℕ) → Option ℕ
coupon_id_of none = none
coupon_id_of (some (c, id)) = some c.id

abbrev pub new_order : ℕ → ℕ → CreateOrderDto → List OrderItem → Option (Coupon × ℕ) → PlacedOrder
new_order id customer_id dto items reservation = record {
  id = id;
  customer_id = customer_id;
  restaurant_id = dto.restaurant_id;
  idempotency_key = dto.idempotency_key;
  items = items;
  coupon_id = coupon_id_of reservation;
  pricing = calculate (map pricable items) (coupon_of reservation);
}

-- `releaseRedemption` in the catch block.
abbrev pub release_reservation : Option (Coupon × ℕ) → Action Store (Unit {0})
release_reservation none = pure tt
release_reservation (some (c, id)) = on_coupons (release_redemption c.id id)

abbrev pub finalize_reservation : Option (Coupon × ℕ) → PlacedOrder → Action Store (Unit {0})
finalize_reservation none o = pure tt
finalize_reservation (some (c, id)) o =
    on_coupons (finalize_redemption id o.id o.pricing.discount_amount)

abbrev timeout_ms : Option ℕ → ℕ
timeout_ms none = 10 * 60 * 1000
timeout_ms (some minutes) = minutes * 60 * 1000

-- The three writes after the order: history, acceptance timeout and event.
abbrev pub announce : PlacedOrder → Store → Store
announce o s = record s {
  events =
      order_placed o.id o.customer_id o.restaurant_id
      ∷ timeout_scheduled o.id (timeout_ms (s.acceptance_timeout_minutes o.restaurant_id))
      ∷ placed_in_history o.id o.customer_id
      ∷ s.events;
}

-- The order that won, after a violation of the unique index.
abbrev winner_or : Option PlacedOrder → Exception → Result PlacedOrder
winner_or none e = err e
winner_or (some o) e = ok o

abbrev pub is_unique_violation : Exception → Bool
is_unique_violation unique_violation = true
is_unique_violation e = false

abbrev pub lost_race : ℕ → ℕ → Exception → Action Store PlacedOrder
lost_race customer_id key e s = (
  if is_unique_violation e
      then winner_or (find_order_by_idempotency_key customer_id key s) e
      else err e,
  s,
)

-- What follows the insertion: the catch block, or the rest of the placement.
unfoldable pub settle :
    Option (Coupon × ℕ) → ℕ → ℕ → Result PlacedOrder × Store → Result PlacedOrder × Store
settle reservation customer_id key (ok o, s) =
    (finalize_reservation reservation o >> modify (announce o) >> pure o) s
settle reservation customer_id key (err e, s) =
    (release_reservation reservation >> lost_race customer_id key e) s

-- The insertion and what follows it.
unfoldable pub insert_order :
    Circumstances
    → ℕ
    → CreateOrderDto
    → List OrderItem
    → Option (Coupon × ℕ)
    → Action Store PlacedOrder
unfolding settle
insert_order w customer_id dto items reservation s =
    settle reservation customer_id dto.idempotency_key
      (create_order w.failure (new_order s.next_id customer_id dto items reservation) s)

-- `placeOrderInternal`
unfoldable pub place_order_internal : Circumstances → ℕ → CreateOrderDto → Action Store PlacedOrder
unfolding insert_order
place_order_internal w customer_id dto = do
  check_address customer_id dto.address
  menu ← gets (λ s. s.menu)
  items ← lift (order_items menu dto.restaurant_id dto.items)
  reservation ← reserve_coupon w customer_id dto items
  insert_order w customer_id dto items reservation

-- The answer of the lock in Redis.
pub data Lock : Type 0 where
  acquired taken unavailable : Lock

abbrev pub locked : Lock → Action Store (Unit {0})
locked acquired = pure tt
locked taken = throw conflict
locked unavailable = pure tt

-- `placeOrder`
unfoldable pub place_order : Lock → Circumstances → ℕ → CreateOrderDto → Action Store PlacedOrder
unfolding place_order_internal
place_order lock w customer_id dto s =
    elim (find_order_by_idempotency_key customer_id dto.idempotency_key s) [
      | some o ↦ (ok o, s)
      | none ↦ (locked lock >> place_order_internal w customer_id dto) s
    ]
