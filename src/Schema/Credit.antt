-- ===== src/Schema/Credit.antt =====
-- The enums of coupons and of the wallet, from prisma/schema.prisma, each with its equality.
use patheya_express_platform.Common.{ℕ, Option, ◌≡◌, ◌↔◌, Bool, true, ◌==◌, Eq, arith}

pub data CouponType : Type 0 where
  percentage flat free_delivery : CouponType

abbrev coupon_type_code : CouponType → ℕ
coupon_type_code CouponType.percentage = 0
coupon_type_code CouponType.flat = 1
coupon_type_code CouponType.free_delivery = 2

abbrev coupon_type_beq : CouponType → CouponType → Bool
coupon_type_beq a b = coupon_type_code a == coupon_type_code b

pub coupon_type_beq_iff : (a b : CouponType) → (coupon_type_beq a b ≡ true) ↔ (a ≡ b)
coupon_type_beq_iff a b = ground arith

instance abbrev pub coupon_type_eq : Eq CouponType
coupon_type_eq = record { beq = coupon_type_beq; beq_iff = coupon_type_beq_iff }

pub data CouponScope : Type 0 where
  platform restaurant : CouponScope

abbrev coupon_scope_code : CouponScope → ℕ
coupon_scope_code CouponScope.platform = 0
coupon_scope_code CouponScope.restaurant = 1

abbrev coupon_scope_beq : CouponScope → CouponScope → Bool
coupon_scope_beq a b = coupon_scope_code a == coupon_scope_code b

pub coupon_scope_beq_iff : (a b : CouponScope) → (coupon_scope_beq a b ≡ true) ↔ (a ≡ b)
coupon_scope_beq_iff a b = ground arith

instance abbrev pub coupon_scope_eq : Eq CouponScope
coupon_scope_eq = record { beq = coupon_scope_beq; beq_iff = coupon_scope_beq_iff }

pub data WalletTransactionType : Type 0 where
  cashback referral_reward refund_credit order_payment admin_adjustment : WalletTransactionType

abbrev wallet_transaction_type_code : WalletTransactionType → ℕ
wallet_transaction_type_code WalletTransactionType.cashback = 0
wallet_transaction_type_code WalletTransactionType.referral_reward = 1
wallet_transaction_type_code WalletTransactionType.refund_credit = 2
wallet_transaction_type_code WalletTransactionType.order_payment = 3
wallet_transaction_type_code WalletTransactionType.admin_adjustment = 4

abbrev wallet_transaction_type_beq : WalletTransactionType → WalletTransactionType → Bool
wallet_transaction_type_beq a b = wallet_transaction_type_code a == wallet_transaction_type_code b

pub wallet_transaction_type_beq_iff :
    (a b : WalletTransactionType) → (wallet_transaction_type_beq a b ≡ true) ↔ (a ≡ b)
wallet_transaction_type_beq_iff a b = ground arith

instance abbrev pub wallet_transaction_type_eq : Eq WalletTransactionType
wallet_transaction_type_eq = record {
  beq = wallet_transaction_type_beq;
  beq_iff = wallet_transaction_type_beq_iff;
}

pub data WalletTransactionStatus : Type 0 where
  completed reversed : WalletTransactionStatus

abbrev wallet_transaction_status_code : WalletTransactionStatus → ℕ
wallet_transaction_status_code WalletTransactionStatus.completed = 0
wallet_transaction_status_code WalletTransactionStatus.reversed = 1

abbrev wallet_transaction_status_beq : WalletTransactionStatus → WalletTransactionStatus → Bool
wallet_transaction_status_beq a b =
    wallet_transaction_status_code a == wallet_transaction_status_code b

pub wallet_transaction_status_beq_iff :
    (a b : WalletTransactionStatus) → (wallet_transaction_status_beq a b ≡ true) ↔ (a ≡ b)
wallet_transaction_status_beq_iff a b = ground arith

instance abbrev pub wallet_transaction_status_eq : Eq WalletTransactionStatus
wallet_transaction_status_eq = record {
  beq = wallet_transaction_status_beq;
  beq_iff = wallet_transaction_status_beq_iff;
}

-- A row of `coupons`. Amounts are in paise, and `value` is in hundredths: of a percentage point
-- for a percentage coupon, of a rupee for a flat one. Codes and ids are only compared.
pub record Coupon : Type 0 where
  pub id : ℕ
  pub code : ℕ
  pub type : CouponType
  pub value : ℕ
  pub max_discount_amount : Option ℕ
  pub min_order_amount : ℕ
  pub scope : CouponScope
  pub restaurant_id : Option ℕ
  pub usage_limit : Option ℕ
  pub usage_per_user : ℕ
  pub total_used : ℕ
  pub starts_at : ℕ
  pub ends_at : ℕ
  pub active : Bool
