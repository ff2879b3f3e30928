-- ===== src/Schema/Sales.antt =====
-- The enums of an order and of its money, from prisma/schema.prisma, each with its equality.
use patheya_express_platform.Common.{ℕ, ◌≡◌, ◌↔◌, Bool, true, ◌==◌, Eq, arith}

pub data UserRole : Type 0 where
  customer restaurant_owner restaurant_manager delivery_partner support_agent admin super_admin
        dispatch_manager :
      UserRole

abbrev user_role_code : UserRole → ℕ
user_role_code UserRole.customer = 0
user_role_code UserRole.restaurant_owner = 1
user_role_code UserRole.restaurant_manager = 2
user_role_code UserRole.delivery_partner = 3
user_role_code UserRole.support_agent = 4
user_role_code UserRole.admin = 5
user_role_code UserRole.super_admin = 6
user_role_code UserRole.dispatch_manager = 7

abbrev user_role_beq : UserRole → UserRole → Bool
user_role_beq a b = user_role_code a == user_role_code b

pub user_role_beq_iff : (a b : UserRole) → (user_role_beq a b ≡ true) ↔ (a ≡ b)
user_role_beq_iff a b = ground arith

instance abbrev pub user_role_eq : Eq UserRole
user_role_eq = record { beq = user_role_beq; beq_iff = user_role_beq_iff }

pub data OrderStatus : Type 0 where
  pending confirmed preparing ready_for_pickup out_for_delivery delivered cancelled : OrderStatus

abbrev order_status_code : OrderStatus → ℕ
order_status_code OrderStatus.pending = 0
order_status_code OrderStatus.confirmed = 1
order_status_code OrderStatus.preparing = 2
order_status_code OrderStatus.ready_for_pickup = 3
order_status_code OrderStatus.out_for_delivery = 4
order_status_code OrderStatus.delivered = 5
order_status_code OrderStatus.cancelled = 6

abbrev order_status_beq : OrderStatus → OrderStatus → Bool
order_status_beq a b = order_status_code a == order_status_code b

pub order_status_beq_iff : (a b : OrderStatus) → (order_status_beq a b ≡ true) ↔ (a ≡ b)
order_status_beq_iff a b = ground arith

instance abbrev pub order_status_eq : Eq OrderStatus
order_status_eq = record { beq = order_status_beq; beq_iff = order_status_beq_iff }

pub data PaymentStatus : Type 0 where
  pending paid failed refunded : PaymentStatus

abbrev payment_status_code : PaymentStatus → ℕ
payment_status_code PaymentStatus.pending = 0
payment_status_code PaymentStatus.paid = 1
payment_status_code PaymentStatus.failed = 2
payment_status_code PaymentStatus.refunded = 3

abbrev payment_status_beq : PaymentStatus → PaymentStatus → Bool
payment_status_beq a b = payment_status_code a == payment_status_code b

pub payment_status_beq_iff : (a b : PaymentStatus) → (payment_status_beq a b ≡ true) ↔ (a ≡ b)
payment_status_beq_iff a b = ground arith

instance abbrev pub payment_status_eq : Eq PaymentStatus
payment_status_eq = record { beq = payment_status_beq; beq_iff = payment_status_beq_iff }

pub data PaymentMode : Type 0 where
  online cod : PaymentMode

abbrev payment_mode_code : PaymentMode → ℕ
payment_mode_code PaymentMode.online = 0
payment_mode_code PaymentMode.cod = 1

abbrev payment_mode_beq : PaymentMode → PaymentMode → Bool
payment_mode_beq a b = payment_mode_code a == payment_mode_code b

pub payment_mode_beq_iff : (a b : PaymentMode) → (payment_mode_beq a b ≡ true) ↔ (a ≡ b)
payment_mode_beq_iff a b = ground arith

instance abbrev pub payment_mode_eq : Eq PaymentMode
payment_mode_eq = record { beq = payment_mode_beq; beq_iff = payment_mode_beq_iff }

pub data TransactionStatus : Type 0 where
  pending success failed refunded : TransactionStatus

abbrev transaction_status_code : TransactionStatus → ℕ
transaction_status_code TransactionStatus.pending = 0
transaction_status_code TransactionStatus.success = 1
transaction_status_code TransactionStatus.failed = 2
transaction_status_code TransactionStatus.refunded = 3

abbrev transaction_status_beq : TransactionStatus → TransactionStatus → Bool
transaction_status_beq a b = transaction_status_code a == transaction_status_code b

pub transaction_status_beq_iff :
    (a b : TransactionStatus) → (transaction_status_beq a b ≡ true) ↔ (a ≡ b)
transaction_status_beq_iff a b = ground arith

instance abbrev pub transaction_status_eq : Eq TransactionStatus
transaction_status_eq = record {
  beq = transaction_status_beq;
  beq_iff = transaction_status_beq_iff;
}
