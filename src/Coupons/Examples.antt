-- ===== src/Coupons/Examples.antt =====
-- A coupon with two uses, one of them taken.
use patheya_express_platform.Common.{
  ℕ, ◌≡◌, ◌↔◌, refl, Bool, true, Option, none, some, [], ◌∷◌, arith, ok, err, bad_request, ◌==◌,
  if◌then◌else◌,
}
use patheya_express_platform.Schema.{Coupon, CouponType, CouponScope}
use patheya_express_platform.Coupons.{
  Store, CouponRedemption, ReserveParams, assert_coupon_eligible, count_user_redemptions,
  reserve_seen, reserve_redemption, find_by_code, release_for_order,
}
use patheya_express_platform.Coupons.Eligibility.{IsEligible, IsEligible-iff}
use patheya_express_platform.Coupons.Invariant.{
  IsValid, Reach, start, next, reserve, release_order, Reach-IsValid,
}

abbrev welcome : Coupon
welcome = record {
  id = 1;
  code = 11;
  type = CouponType.flat;
  value = 5000;
  max_discount_amount = none;
  min_order_amount = 20000;
  scope = CouponScope.restaurant;
  restaurant_id = some 4;
  usage_limit = some 2;
  usage_per_user = 1;
  total_used = 1;
  starts_at = 10;
  ends_at = 90;
  active = true;
}

abbrev taken : CouponRedemption
taken = record { id = 0; coupon_id = 1; user_id = 7; order_id = some 70; discount_amount = 5000 }

abbrev one_coupon : ℕ → Option Coupon
one_coupon id = if id == 1 then some welcome else none

abbrev store : Store
store = record {
  coupon = one_coupon;
  id_of_code = λ code. if code == 11 then some 1 else none;
  redemptions = taken ∷ [];
  next_id = 1;
}

abbrev checkout : ReserveParams
checkout = record { user_id = 8; code = 11; restaurant_id = 4; subtotal = 25000 }

abbrev rival : ReserveParams
rival = record checkout { user_id = 9 }

store-IsValid : IsValid store
store-IsValid = record {
  fresh = omega arith;
  linked = λ o. ground arith;
  coupons = λ id c e. record {
    keyed = ground arith;
    counted = ground arith;
    within = λ limit l. ground arith;
    per_user = λ user. ground arith;
  };
}

-- The owner of the first redemption is refused a second one.
second_use_refused :
    (reserve_redemption (record checkout { user_id = 7 }) 50 store).0 ≡ err bad_request
unfolding reserve_redemption find_by_code reserve_seen assert_coupon_eligible count_user_redemptions
second_use_refused = refl

IsEligible-iff_example :
    ((assert_coupon_eligible welcome 4 25000 0 50 store).0 ≡ ok tt)
    ↔ IsEligible welcome 4 25000 0 50
IsEligible-iff_example = IsEligible-iff welcome 4 25000 0 50 store

abbrev after_checkout : Store
after_checkout = (reserve_seen welcome checkout 50 store).1

abbrev history : Reach store (release_for_order 70 after_checkout).1
history =
    next
      (next start (
        reserve welcome welcome checkout 50 refl
          (record { same_id = refl; same_limit = refl; same_per_user = refl })))
      (release_order 70)

Reach-IsValid_example : IsValid (release_for_order 70 after_checkout).1
Reach-IsValid_example = Reach-IsValid history store-IsValid

abbrev aborted_once : ℕ → Bool
aborted_once attempt = attempt == 0
