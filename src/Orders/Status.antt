-- ===== src/Orders/Status.antt =====
-- The operations of services/orders.service.ts that move the status of an order.
use patheya_express_platform.Common.{
  ℕ, Bool, true, false, not, ◌||◌, Option, none, some, List, [], ◌∷◌, ◌===◌, includes,
  if◌then◌else◌, Action, ok, err, bad_request, forbidden, not_found, conflict, ◌>>=◌, ◌>>◌, pure,
  throw_if, or_throw, gets, modify,
}
use patheya_express_platform.Schema.{
  OrderStatus, order_status_eq, PaymentStatus, payment_status_eq, PaymentMode, payment_mode_eq,
  UserRole, user_role_eq, DeliveryProofType, DeliveryProofOtpStatus, delivery_proof_otp_status_eq,
}
use patheya_express_platform.Orders.Access.{
  AuthenticatedUser, Restaurant, is_admin, is_restaurant_staff, can_access_order,
}
use patheya_express_platform.Orders.Store.{
  Store, Order, ProofOtp, status_changed, order_ready, timing_recorded, partner_released,
  acceptance_timeout, status_audited, find_order_by_id, publish, write_status,
  transition_if_pending, create_status_history, find_otp, has_photo, update_by_id,
}

unfoldable pub order_status_transitions : OrderStatus → List OrderStatus
order_status_transitions OrderStatus.pending = OrderStatus.confirmed ∷ OrderStatus.cancelled ∷ []
order_status_transitions OrderStatus.confirmed = OrderStatus.preparing ∷ OrderStatus.cancelled ∷ []
order_status_transitions OrderStatus.preparing = OrderStatus.ready_for_pickup ∷ []
order_status_transitions OrderStatus.ready_for_pickup = OrderStatus.out_for_delivery ∷ []
order_status_transitions OrderStatus.out_for_delivery = OrderStatus.delivered ∷ []
order_status_transitions OrderStatus.delivered = []
order_status_transitions OrderStatus.cancelled = []

abbrev pub restaurant_only_statuses : List OrderStatus
restaurant_only_statuses =
    OrderStatus.confirmed ∷ OrderStatus.preparing ∷ OrderStatus.ready_for_pickup ∷ []

abbrev pub delivery_partner_only_statuses : List OrderStatus
delivery_partner_only_statuses = OrderStatus.out_for_delivery ∷ OrderStatus.delivered ∷ []

abbrev pub terminal_order_statuses : List OrderStatus
terminal_order_statuses = OrderStatus.delivered ∷ OrderStatus.cancelled ∷ []

-- `REQUIRED_PROOF_TYPE_FOR_STATUS` and `REQUIRED_PHOTO_TYPE_FOR_STATUS`
abbrev pub required_proof_type : OrderStatus → Option DeliveryProofType
required_proof_type OrderStatus.out_for_delivery = some DeliveryProofType.pickup
required_proof_type OrderStatus.delivered = some DeliveryProofType.delivery
required_proof_type OrderStatus.pending = none
required_proof_type OrderStatus.confirmed = none
required_proof_type OrderStatus.preparing = none
required_proof_type OrderStatus.ready_for_pickup = none
required_proof_type OrderStatus.cancelled = none

abbrev pub required_photo_type : OrderStatus → Option DeliveryProofType
required_photo_type OrderStatus.out_for_delivery = some DeliveryProofType.pickup
required_photo_type OrderStatus.delivered = none
required_photo_type OrderStatus.pending = none
required_photo_type OrderStatus.confirmed = none
required_photo_type OrderStatus.preparing = none
required_photo_type OrderStatus.ready_for_pickup = none
required_photo_type OrderStatus.cancelled = none

abbrev pub is_partner : AuthenticatedUser → Bool
is_partner user = user.role === UserRole.delivery_partner

-- The test of `assertActorAllowedForStatus`
unfoldable pub actor_allowed : OrderStatus → AuthenticatedUser → Bool
actor_allowed st user =
    if includes restaurant_only_statuses st
    then is_restaurant_staff user || is_admin user
    else if includes delivery_partner_only_statuses st
    then is_partner user || is_admin user
    else true

-- The test of `assertPaymentEligibleForAcceptance`
unfoldable pub payment_eligible : Order → OrderStatus → Bool
payment_eligible o st =
    if not (st === OrderStatus.confirmed)
    then true
    else if o.payment_mode === PaymentMode.cod
    then true
    else o.payment_status === PaymentStatus.paid

abbrev is_verified : Option ProofOtp → Bool
is_verified none = false
is_verified (some otp) = otp.status === DeliveryProofOtpStatus.verified

abbrev otp_verified : ℕ → Option DeliveryProofType → Store → Bool
otp_verified id none s = true
otp_verified id (some type) s = is_verified (find_otp id type s)

abbrev photo_taken : ℕ → Option DeliveryProofType → Store → Bool
photo_taken id none s = true
photo_taken id (some type) s = has_photo id type s

-- The tests of `assertProofVerifiedForStatus` and of `assertPhotoVerifiedForStatus`
unfoldable pub proof_verified : ℕ → OrderStatus → AuthenticatedUser → Store → Bool
proof_verified id st user s =
    if not (is_partner user) then true else otp_verified id (required_proof_type st) s

unfoldable pub photo_verified : ℕ → OrderStatus → AuthenticatedUser → Store → Bool
photo_verified id st user s =
    if not (is_partner user) then true else photo_taken id (required_photo_type st) s

abbrev pub release_partner : Option ℕ → ℕ → Store → Store
release_partner none id s = s
release_partner (some partner) id s = publish (partner_released partner id) s

-- What `updateOrderStatus` does after the write, by the status written.
abbrev pub after_status : OrderStatus → Order → Store → Store
after_status OrderStatus.ready_for_pickup o s = publish (order_ready o.id o.restaurant_id) s
after_status OrderStatus.delivered o s =
    release_partner o.delivery_partner_id o.id (publish (timing_recorded o.id) s)
after_status OrderStatus.pending o s = s
after_status OrderStatus.confirmed o s = s
after_status OrderStatus.preparing o s = s
after_status OrderStatus.out_for_delivery o s = s
after_status OrderStatus.cancelled o s = s

abbrev pub record_status : ℕ → OrderStatus → Option ℕ → Order → Store → Store
record_status id st by o s =
    publish (status_changed o.id o.status) (create_status_history id st by s)

-- The write and what follows it, up to the side effects of a cancellation.
unfoldable pub apply_status : ℕ → OrderStatus → ℕ → ℕ → Action Store Order
apply_status id st by now = do
  updated ← write_status id st now
  modify (record_status id st (some by) updated)
  modify (after_status st updated)
  pure updated

-- The guards of `updateOrderStatus`, on the order as it was read.
unfoldable pub assert_status_change :
    Order → OrderStatus → AuthenticatedUser → Action Store (Unit {0})
assert_status_change o st user s =
    if not
      (can_access_order (s.restaurant o.restaurant_id) o.customer_id o.delivery_partner_id user)
    then (err forbidden, s)
    else if not (includes (order_status_transitions o.status) st)
    then (err bad_request, s)
    else if not (actor_allowed st user)
    then (err forbidden, s)
    else if not (payment_eligible o st)
    then (err conflict, s)
    else if not (proof_verified o.id st user s)
    then (err forbidden, s)
    else if not (photo_verified o.id st user s)
    then (err forbidden, s)
    else (ok tt, s)

-- `updateOrderStatus`; the side effects of a cancellation are `cancellation_side_effects`.
unfoldable pub update_order_status : ℕ → OrderStatus → AuthenticatedUser → ℕ → Action Store Order
update_order_status id st user now = do
  order ← or_throw (← gets (find_order_by_id id)) not_found
  assert_status_change order st user
  apply_status id st user.user_id now

abbrev auto_accepts : Option Restaurant → Bool
auto_accepts none = false
auto_accepts (some r) = r.auto_accept_orders

abbrev pub timeout_status : Option Restaurant → OrderStatus
timeout_status r = if auto_accepts r then OrderStatus.confirmed else OrderStatus.cancelled

-- What `handleAcceptanceTimeout` writes once its compare-and-swap has won.
abbrev pub timed_out : ℕ → OrderStatus → Option Order × Store → Store
timed_out id st (none, s) = s
timed_out id st (some o, s) =
    publish (acceptance_timeout o.restaurant_id id st)
      (record_status id st none o (publish (status_audited id st) s))

-- `handleAcceptanceTimeout`
unfoldable pub handle_acceptance_timeout : ℕ → Store → Store
handle_acceptance_timeout id s = elim (find_order_by_id id s) [
  | none ↦ s
  | some o ↦
      let next = timeout_status (s.restaurant o.restaurant_id) in
      if not (o.status === OrderStatus.pending)
      then s
      else timed_out id next (transition_if_pending id next s)
]

-- `adminCancelOrder`, up to the side effects of the cancellation.
unfoldable pub admin_cancel_order : ℕ → ℕ → Action Store Order
admin_cancel_order id now = do
  order ← or_throw (← gets (find_order_by_id id)) not_found
  throw_if (includes terminal_order_statuses order.status) bad_request
  updated ← write_status id OrderStatus.cancelled now
  modify (create_status_history id OrderStatus.cancelled none)
  modify (release_partner order.delivery_partner_id id)
  pure updated

-- `forceCompleteOrder`
unfoldable pub force_complete_order : ℕ → ℕ → Action Store Order
force_complete_order id now = do
  order ← or_throw (← gets (find_order_by_id id)) not_found
  throw_if (includes terminal_order_statuses order.status) bad_request
  updated ← write_status id OrderStatus.delivered now
  modify (create_status_history id OrderStatus.delivered none)
  modify (release_partner order.delivery_partner_id id)
  pure updated

-- `assignDeliveryPartner`; `is_known_partner` is `findPartnerByUserId` of the delivery module.
unfoldable pub assign_delivery_partner : (ℕ → Bool) → ℕ → ℕ → Action Store Order
assign_delivery_partner is_known_partner id partner_id = do
  order ← or_throw (← gets (find_order_by_id id)) not_found
  throw_if (includes terminal_order_statuses order.status) bad_request
  throw_if (not (is_known_partner partner_id)) not_found
  update_by_id id (λ o. record o { delivery_partner_id = some partner_id })
