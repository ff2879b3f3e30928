-- ===== src/Coupons/Eligibility.antt =====
-- Which coupons `assertCouponEligible` lets through.
use patheya_express_platform.Common.{
  ℕ, ◌≤◌, ◌<◌, ◌≡◌, ◌↔◌, true, Option, none, some, ◌⊎◌, ok, err, bad_request, arith,
}
use patheya_express_platform.Schema.{Coupon, CouponScope, coupon_scope_eq}
use patheya_express_platform.Coupons.{Store, assert_coupon_eligible}

-- The limit of a coupon, as a statement.
abbrev pub HasRoom : Option ℕ → ℕ → Type 0
HasRoom none used = Unit
HasRoom (some limit) used = used < limit

-- The seven rules, independent of the order in which the code tests them.
pub record IsEligible (c : Coupon) (restaurant subtotal redeemed now : ℕ) : Type 0 where
  pub is_active : c.active ≡ true
  pub started : c.starts_at ≤ now
  pub not_ended : now ≤ c.ends_at
  pub minimum : c.min_order_amount ≤ subtotal
  pub here : c.scope ≡ CouponScope.restaurant → c.restaurant_id ≡ some restaurant
  pub room : HasRoom c.usage_limit c.total_used
  pub per_user : redeemed < c.usage_per_user

pub eligible_unchanged :
    (c : Coupon) (r sub n now : ℕ) (s : Store) → (assert_coupon_eligible c r sub n now s).1 ≡ s
unfolding assert_coupon_eligible
eligible_unchanged c r sub n now s = ground arith

-- The check passes exactly for the coupons that meet all seven rules.
pub IsEligible-iff :
    (c : Coupon) (r sub n now : ℕ) (s : Store)
    → ((assert_coupon_eligible c r sub n now s).0 ≡ ok tt) ↔ IsEligible c r sub n now
unfolding assert_coupon_eligible
IsEligible-iff c r sub n now s = ((λ h. ground arith), (λ e. ground arith))

-- Both outcomes of the check, as what `reserveRedemption` meets them.
pub IsEligible-cases :
    (c : Coupon) (r sub n now : ℕ) (s : Store)
    → (IsEligible c r sub n now × (assert_coupon_eligible c r sub n now s ≡ (ok tt, s)))
      ⊎ (assert_coupon_eligible c r sub n now s ≡ (err bad_request, s))
unfolding assert_coupon_eligible
IsEligible-cases c r sub n now s = ground arith
