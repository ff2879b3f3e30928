-- ===== src/Pricing/Coupons.antt =====
-- What CouponCalculator may do to a price.
use patheya_express_platform.Common.{ℕ, ◌*◌, ◌≤◌, ◌≡◌, ◌↔◌, true, Option, none, some, arith}
use patheya_express_platform.Schema.{Coupon, CouponType}
use patheya_express_platform.Pricing.{micros_per_paisa, calculate_type, coupon_calculate}

calculate_type-le :
    (t : CouponType) (paise : ℕ) (c : Coupon)
    → (calculate_type t paise c).discount_amount ≤ paise * micros_per_paisa
unfolding calculate_type
calculate_type-le CouponType.percentage paise c = omega arith
calculate_type-le CouponType.flat paise c = omega arith
calculate_type-le CouponType.free_delivery paise c = omega arith

pub discount-le-subtotal :
    (paise : ℕ) (c : Option Coupon)
    → (coupon_calculate paise c).discount_amount ≤ paise * micros_per_paisa
unfolding coupon_calculate
discount-le-subtotal paise none = omega arith
discount-le-subtotal paise (some c) = calculate_type-le c.type paise c

calculate_type_cap :
    (t : CouponType) (paise limit : ℕ) (c : Coupon)
    → t ≡ CouponType.percentage
    → c.max_discount_amount ≡ some limit
    → (calculate_type t paise c).discount_amount ≤ limit * micros_per_paisa
unfolding calculate_type
calculate_type_cap t paise limit c p h = ground arith

-- Whatever the coupon, the discount is at most the subtotal; a percentage coupon with a cap gives
-- at most its cap as well; and delivery becomes free exactly for a FREE_DELIVERY coupon.
pub coupon_bounds :
    (paise : ℕ) (c : Coupon)
    → let r = coupon_calculate paise (some c) in
      (r.discount_amount ≤ paise * micros_per_paisa)
      × ((limit : ℕ)
          → c.type ≡ CouponType.percentage
          → c.max_discount_amount ≡ some limit
          → r.discount_amount ≤ limit * micros_per_paisa)
      × ((r.free_delivery ≡ true) ↔ (c.type ≡ CouponType.free_delivery))
unfolding coupon_calculate
coupon_bounds paise c = (
  calculate_type-le c.type paise c,
  (λ limit p h. calculate_type_cap c.type paise limit c p h),
  ground arith,
)
