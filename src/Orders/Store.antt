-- ===== src/Orders/Store.antt =====
-- The rows of an order and repositories/orders.repository.ts, with the rows of delivery proofs that
-- the status gates read. Amounts are in paise.
use patheya_express_platform.Common.{
  ℕ, Bool, not, ◌&&◌, Option, none, some, List, ◌∷◌, ◌==◌, ◌===◌, includes, find, count, any,
  if◌then◌else◌, Action, ok, err, record_missing,
}
use patheya_express_platform.Common.Table.{update_where}
use patheya_express_platform.Schema.{
  OrderStatus, order_status_eq, PaymentStatus, payment_status_eq, PaymentMode, DeliveryProofType,
  delivery_proof_type_eq, DeliveryProofOtpStatus,
}
use patheya_express_platform.Orders.Access.{Restaurant}

pub record Order : Type 0 where
  pub id : ℕ
  pub customer_id : ℕ
  pub restaurant_id : ℕ
  pub delivery_partner_id : Option ℕ
  pub status : OrderStatus
  pub payment_status : PaymentStatus
  pub payment_mode : PaymentMode
  pub total_amount : ℕ
  pub wallet_amount_used : ℕ
  pub delivered_at : Option ℕ

pub record StatusHistory : Type 0 where
  pub order_id : ℕ
  pub status : OrderStatus
  pub changed_by_id : Option ℕ

-- Rows of `delivery_proof_otps` and `delivery_proof_photos`, unique by order and type.
pub record ProofOtp : Type 0 where
  pub order_id : ℕ
  pub type : DeliveryProofType
  pub otp_hash : ℕ
  pub status : DeliveryProofOtpStatus
  pub attempts : ℕ
  pub max_attempts : ℕ
  pub expires_at : ℕ
  pub verified_at : Option ℕ

pub record ProofPhoto : Type 0 where
  pub order_id : ℕ
  pub type : DeliveryProofType

-- What the operations publish and ask of other modules, newest first.
pub data Event : Type 0 where
  status_changed : (order_id : ℕ) → OrderStatus → Event
  order_ready : (order_id restaurant_id : ℕ) → Event
  timing_recorded : (order_id : ℕ) → Event
  partner_released : (partner_id order_id : ℕ) → Event
  acceptance_timeout : (restaurant_id order_id : ℕ) → OrderStatus → Event
  status_audited : (order_id : ℕ) → OrderStatus → Event
  wallet_refund : (order_id amount : ℕ) → Event
  refund_audited : (order_id amount : ℕ) → Event

pub record Store : Type 0 where
  pub orders : List Order
  pub history : List StatusHistory
  pub otps : List ProofOtp
  pub photos : List ProofPhoto
  pub restaurant : ℕ → Option Restaurant
  pub events : List Event

abbrev pub has_order_id : ℕ → Order → Bool
has_order_id id o = o.id == id

unfoldable pub find_order_by_id : ℕ → Store → Option Order
find_order_by_id id s = find (has_order_id id) s.orders

abbrev pub publish : Event → Store → Store
publish e s = record s { events = e ∷ s.events }

abbrev pub set_orders : (Order → Bool) → (Order → Order) → Store → Store
set_orders q f s = record s { orders = update_where q f s.orders }

-- `deliveredAt` is set together with DELIVERED.
abbrev pub with_status : OrderStatus → ℕ → Order → Order
with_status st now o = record o {
  status = st;
  delivered_at = if st === OrderStatus.delivered then some now else o.delivered_at;
}

-- Prisma's `update` by id: the row that it returns, or P2025.
unfoldable pub update_by_id : ℕ → (Order → Order) → Action Store Order
update_by_id id f s = elim (find (has_order_id id) s.orders) [
  | none ↦ (err record_missing, s)
  | some o ↦ (ok (f o), set_orders (has_order_id id) f s)
]

-- `updateOrderStatus` of the repository, and `markDelivered` at DELIVERED.
unfoldable pub write_status : ℕ → OrderStatus → ℕ → Action Store Order
unfolding update_by_id
write_status id st now = update_by_id id (with_status st now)

abbrev pub pending_with_id : ℕ → Order → Bool
pending_with_id id o = (o.id == id) && (o.status === OrderStatus.pending)

-- `transitionIfPending`: none when no row was pending.
unfoldable pub transition_if_pending : ℕ → OrderStatus → Store → Option Order × Store
unfolding find_order_by_id
transition_if_pending id st s =
    let t = set_orders (pending_with_id id) (λ o. record o { status = st }) s in
    if count (pending_with_id id) s.orders == 0 then (none, s) else (find_order_by_id id t, t)

abbrev pub switchable : ℕ → Order → Bool
switchable id o = pending_with_id id o && not (o.payment_status === PaymentStatus.paid)

-- `switchPaymentModeIfEligible`
unfoldable pub switch_payment_mode_if_eligible : ℕ → PaymentMode → Store → Option Order × Store
unfolding find_order_by_id
switch_payment_mode_if_eligible id mode s =
    let t = set_orders (switchable id) (λ o. record o { payment_mode = mode }) s in
    if count (switchable id) s.orders == 0 then (none, s) else (find_order_by_id id t, t)

abbrev pub payment_claimable : ℕ → List PaymentStatus → Order → Bool
payment_claimable id allowed o = (o.id == id) && includes allowed o.payment_status

abbrev pub with_payment_status : PaymentStatus → Order → Order
with_payment_status st o = record o { payment_status = st }

-- `claimPaymentStatusTransition`: the count of rows that it moved, and the table after.
unfoldable pub claim_payment_status : ℕ → List PaymentStatus → PaymentStatus → Store → ℕ × Store
claim_payment_status id allowed next s = (
  count (payment_claimable id allowed) s.orders,
  set_orders (payment_claimable id allowed) (with_payment_status next) s,
)

abbrev pub create_status_history : ℕ → OrderStatus → Option ℕ → Store → Store
create_status_history id st by s = record s {
  history = record { order_id = id; status = st; changed_by_id = by } ∷ s.history;
}

abbrev pub is_otp : ℕ → DeliveryProofType → ProofOtp → Bool
is_otp id type o = (o.order_id == id) && (o.type === type)

-- `deliveryProofOtp.findUnique` and `deliveryProofPhoto.findUnique`
abbrev pub find_otp : ℕ → DeliveryProofType → Store → Option ProofOtp
find_otp id type s = find (is_otp id type) s.otps

abbrev pub has_photo : ℕ → DeliveryProofType → Store → Bool
has_photo id type s = any (λ p. (p.order_id == id) && (p.type === type)) s.photos
