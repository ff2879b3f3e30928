-- ===== src/Pricing.antt =====
-- The pricing engine: modules/pricing/pricing.service.ts and its calculators.
-- Item totals, subtotals and coupon amounts enter in paise (the columns are Decimal(10, 2)). The
-- engine's results are in micro-rupees (1 paisa is 10,000), in which the 5% tax and a percentage
-- with two decimals are exact; the source computes the same figures in doubles.
use patheya_express_platform.Common.{
  ℕ, ◌+◌, ◌*◌, min, Bool, true, false, Option, none, some, List, [], ◌∷◌, ◌++◌, ltb, if◌then◌else◌,
}
use patheya_express_platform.Common.Int.{ℤ, pos, ◌+ℤ◌, ◌-ℤ◌}
use patheya_express_platform.Schema.{Coupon, CouponType}
pub mod Laws
pub mod Coupons
mod Examples

pub record PricableOrderItem : Type 0 where
  pub total_price : ℕ

-- `items.reduce((sum, item) => sum + item.totalPrice, 0)`, from the left.
reduce_total : ℕ → List PricableOrderItem → ℕ
reduce_total sum [] = sum
reduce_total sum (item ∷ items) = reduce_total (sum + item.total_price) items

pub subtotal_calculate : List PricableOrderItem → ℕ
unfolding reduce_total
subtotal_calculate items = reduce_total 0 items

abbrev pub micros_per_paisa : ℕ
micros_per_paisa = 10000

-- `FLAT_DELIVERY_FEE`, 40 rupees.
abbrev pub flat_delivery_fee : ℕ
flat_delivery_fee = 40000000

pub delivery_fee_calculate : ℕ
delivery_fee_calculate = flat_delivery_fee

-- `subtotal * FLAT_TAX_RATE`: 5% of a paisa is 500 micro-rupees.
pub tax_calculate : ℕ → ℕ
tax_calculate subtotal = subtotal * 500

pub record CouponCalculationResult : Type 0 where
  pub discount_amount : ℕ
  pub free_delivery : Bool

-- The percentage of a subtotal in paise, in micro-rupees.
abbrev raw_discount : ℕ → Coupon → ℕ
raw_discount subtotal coupon = subtotal * coupon.value

capped_discount : ℕ → Option ℕ → ℕ
capped_discount raw none = raw
capped_discount raw (some limit) = min raw (limit * micros_per_paisa)

-- The three branches on `coupon.type`.
calculate_type : CouponType → ℕ → Coupon → CouponCalculationResult
unfolding capped_discount
calculate_type CouponType.free_delivery subtotal coupon = record {
  discount_amount = 0;
  free_delivery = true;
}
calculate_type CouponType.flat subtotal coupon = record {
  discount_amount = min (coupon.value * micros_per_paisa) (subtotal * micros_per_paisa);
  free_delivery = false;
}
calculate_type CouponType.percentage subtotal coupon = record {
  discount_amount =
      min (capped_discount (raw_discount subtotal coupon) coupon.max_discount_amount)
        (subtotal * micros_per_paisa);
  free_delivery = false;
}

pub coupon_calculate : ℕ → Option Coupon → CouponCalculationResult
unfolding calculate_type
coupon_calculate subtotal none = record { discount_amount = 0; free_delivery = false }
coupon_calculate subtotal (some coupon) = calculate_type coupon.type subtotal coupon

pub data Label : Type 0 where
  subtotal_line discount_line delivery_fee_line tax_line total_line : Label

pub record PricingLine : Type 0 where
  pub label : Label
  pub amount : ℤ

pub record PricingResult : Type 0 where
  pub subtotal : ℕ
  pub delivery_fee : ℕ
  pub tax_amount : ℕ
  pub discount_amount : ℕ
  pub wallet_amount : ℕ
  pub platform_fee : ℕ
  pub total_amount : ℤ
  pub pricing_breakdown : List PricingLine

abbrev line : Label → ℤ → PricingLine
line label amount = record { label = label; amount = amount }

discount_lines : ℕ → List PricingLine
discount_lines discount =
    if ltb 0 discount then line Label.discount_line (pos 0 -ℤ pos discount) ∷ [] else []

abbrev total_of : ℕ → ℕ → ℕ → ℕ → ℕ → ℕ → ℤ
total_of subtotal discount fee tax platform wallet =
    pos subtotal -ℤ pos discount +ℤ pos fee +ℤ pos tax +ℤ pos platform -ℤ pos wallet

-- `PricingEngineService.calculate`
pub calculate : List PricableOrderItem → Option Coupon → PricingResult
unfolding discount_lines
calculate items coupon =
    let paise = subtotal_calculate items in
    let subtotal = paise * micros_per_paisa in
    let applied = coupon_calculate paise coupon in
    let fee = if applied.free_delivery then 0 else delivery_fee_calculate in
    let tax = tax_calculate paise in
    let discount = applied.discount_amount in
    let total = total_of subtotal discount fee tax 0 0 in
    record {
      subtotal = subtotal;
      delivery_fee = fee;
      tax_amount = tax;
      discount_amount = discount;
      wallet_amount = 0;
      platform_fee = 0;
      total_amount = total;
      pricing_breakdown =
          line Label.subtotal_line (pos subtotal)
          ∷ (discount_lines discount
              ++ (line Label.delivery_fee_line (pos fee)
                  ∷ line Label.tax_line (pos tax)
                  ∷ line Label.total_line total
                  ∷ []));
    }
