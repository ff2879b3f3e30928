-- ===== src/Pricing/Examples.antt =====
-- The pricing engine on a cart of two items, 250.00 and 149.50 rupees.
use patheya_express_platform.Common.{◌+◌, ◌-◌, ◌*◌, ◌≤◌, ◌≡◌, refl, true, none, some, List, [], ◌∷◌}
use patheya_express_platform.Common.Int.{pos, ◌+ℤ◌, ◌-ℤ◌, ◌≤ℤ◌}
use patheya_express_platform.Schema.{Coupon, CouponType, CouponScope}
use patheya_express_platform.Pricing.{
  PricableOrderItem, micros_per_paisa, coupon_calculate, subtotal_calculate, delivery_fee_calculate,
  tax_calculate, calculate,
}
use patheya_express_platform.Pricing.Laws.{sum_items, calculate_total}

abbrev cart : List PricableOrderItem
cart = record { total_price = 25000 } ∷ record { total_price = 14950 } ∷ []

-- 12.50% off, at most 40 rupees.
abbrev percent_coupon : Coupon
percent_coupon = record {
  id = 1;
  code = 11;
  type = CouponType.percentage;
  value = 1250;
  max_discount_amount = some 4000;
  min_order_amount = 0;
  scope = CouponScope.platform;
  restaurant_id = none;
  usage_limit = none;
  usage_per_user = 1;
  total_used = 0;
  starts_at = 0;
  ends_at = 100;
  active = true;
}

abbrev free_delivery_coupon : Coupon
free_delivery_coupon = record percent_coupon { type = CouponType.free_delivery }

-- 399.50 - 40.00 + 40.00 + 19.975 rupees: the cap of 40 cuts the discount of 49.9375.
cart_total : (calculate cart (some percent_coupon)).total_amount ≡ pos 419475000
unfolding calculate subtotal_calculate delivery_fee_calculate tax_calculate coupon_calculate ◌+ℤ◌
    ◌-ℤ◌
cart_total = refl

cart_free_delivery : (calculate cart (some free_delivery_coupon)).total_amount ≡ pos 419475000
unfolding calculate subtotal_calculate delivery_fee_calculate tax_calculate coupon_calculate ◌+ℤ◌
    ◌-ℤ◌
cart_free_delivery = refl

calculate_total_example :
    let r = calculate cart (some percent_coupon) in
    (r.subtotal ≡ sum_items cart * micros_per_paisa)
    × (r.discount_amount ≤ r.subtotal)
    × (r.total_amount ≡ pos (r.subtotal - r.discount_amount + r.delivery_fee + r.tax_amount))
    × (pos (r.delivery_fee + r.tax_amount) ≤ℤ r.total_amount)
calculate_total_example = calculate_total cart (some percent_coupon)
