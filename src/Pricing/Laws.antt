-- ===== src/Pricing/Laws.antt =====
-- The total of a priced cart: what it is made of, and how a coupon changes it.
use patheya_express_platform.Common.{
  ℕ, ◌+◌, ◌-◌, ◌*◌, ◌≤◌, ◌≡◌, zero, suc, refl, ap, ◌∙◌, ◌++◌, Bool, true, false, if◌then◌else◌,
  Option, none, some, List, [], ◌∷◌, arith,
}
use patheya_express_platform.Common.Int.{ℤ, pos, ◌+ℤ◌, ◌-ℤ◌, ◌≤ℤ◌, int_laws}
use patheya_express_platform.Schema.{Coupon}
use patheya_express_platform.Pricing.{
  PricableOrderItem, PricingLine, micros_per_paisa, subtotal_calculate, coupon_calculate, calculate,
  reduce_total, discount_lines, tax_calculate, delivery_fee_calculate, total_of,
}
use patheya_express_platform.Pricing.Coupons.{discount-le-subtotal}

abbrev pub sum_items : List PricableOrderItem → ℕ
sum_items [] = 0
sum_items (item ∷ items) = item.total_price + sum_items items

reduce_total-sum :
    (acc : ℕ) (items : List PricableOrderItem) → reduce_total acc items ≡ acc + sum_items items
unfolding reduce_total
reduce_total-sum acc [] = omega arith
reduce_total-sum acc (item ∷ items) = omega (arith, reduce_total-sum (acc + item.total_price) items)

-- The amounts of a breakdown, added up.
abbrev pub sum_lines : List PricingLine → ℤ
sum_lines [] = pos 0
sum_lines (l ∷ ls) = l.amount +ℤ sum_lines ls

-- The subtotal of any cart is the sum of its items, and its total is that less the discount, plus
-- fee and tax, where no subtraction goes below zero; so it is at least fee and tax together.
pub calculate_total :
    (items : List PricableOrderItem) (c : Option Coupon)
    → let r = calculate items c in
      (r.subtotal ≡ sum_items items * micros_per_paisa)
      × (r.discount_amount ≤ r.subtotal)
      × (r.total_amount ≡ pos (r.subtotal - r.discount_amount + r.delivery_fee + r.tax_amount))
      × (pos (r.delivery_fee + r.tax_amount) ≤ℤ r.total_amount)
unfolding calculate subtotal_calculate
calculate_total items c =
    let paise = subtotal_calculate items in
    let bound = discount-le-subtotal paise c in
    (
      ap (λ n. n * micros_per_paisa) (reduce_total-sum 0 items ∙ omega arith),
      bound,
      omega (int_laws, bound),
      omega (int_laws, bound),
    )

sum_lines-discount :
    (d : ℕ) (rest : List PricingLine)
    → sum_lines (discount_lines d ++ rest) ≡ sum_lines rest -ℤ pos d
unfolding discount_lines
sum_lines-discount zero rest = omega int_laws
sum_lines-discount (suc d) rest = grind int_laws

-- All lines of the breakdown, the last of which is the total, add up to twice the total.
pub breakdown_adds_up :
    (items : List PricableOrderItem) (c : Option Coupon)
    → let r = calculate items c in sum_lines r.pricing_breakdown ≡ r.total_amount +ℤ r.total_amount
unfolding calculate
breakdown_adds_up items c =
    rw (sum_lines-discount (coupon_calculate (subtotal_calculate items) c).discount_amount _)
      (omega int_laws)

total_of_saves :
    (s d fee base t : ℕ)
    → fee ≤ base
    → (total_of s d fee t 0 0 +ℤ pos (d + (base - fee)) ≡ total_of s 0 base t 0 0)
      × (total_of s d fee t 0 0 ≤ℤ total_of s 0 base t 0 0)
total_of_saves s d fee base t h = (omega int_laws, omega int_laws)

waived-le : (free : Bool) (base : ℕ) → (if free then 0 else base) ≤ base
waived-le true base = omega arith
waived-le false base = omega arith

-- A coupon leaves subtotal and tax alone, and lowers the total by exactly its discount and the
-- delivery fee that it waives, so the total with a coupon is at most the total without.
pub coupon_saves :
    (items : List PricableOrderItem) (c : Coupon)
    → let r = calculate items (some c) in
      let plain = calculate items none in
      (r.subtotal ≡ plain.subtotal)
      × (r.tax_amount ≡ plain.tax_amount)
      × (r.total_amount +ℤ pos (r.discount_amount + (plain.delivery_fee - r.delivery_fee))
          ≡ plain.total_amount)
      × (r.total_amount ≤ℤ plain.total_amount)
unfolding calculate coupon_calculate
coupon_saves items c =
    let paise = subtotal_calculate items in
    let applied = coupon_calculate paise (some c) in
    let free = applied.free_delivery in
    let saves =
      total_of_saves (paise * micros_per_paisa) applied.discount_amount
        (if free then 0 else delivery_fee_calculate) delivery_fee_calculate (tax_calculate paise)
        (waived-le free delivery_fee_calculate) in
    (refl, refl, saves.0, saves.1)
