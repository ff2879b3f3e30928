-- ===== src/Coupons.antt =====
-- Coupon redemption: modules/coupons/coupons.util.ts, repositories/coupons.repository.ts and
-- services/coupons.service.ts. The rows of `coupons` are a map from ids, their unique codes a map to
-- ids; the rows of `coupon_redemptions` are a list, newest first, and a new id is a fresh number.
pub mod Eligibility
pub mod Ledger
pub mod Invariant
pub mod Release
pub mod Undo
pub mod Race
mod Examples
use patheya_express_platform.Common.{
  ℕ, suc, ◌+◌, ◌-◌, ◌≡◌, Bool, true, false, not, ◌&&◌, ◌||◌, Option, none, some, List, [], ◌∷◌, ltb,
  leb, ◌==◌, is_id, ◌===◌, if◌then◌else◌, find, filter, count, any, Action, Result, ok, err,
  bad_request, not_found, record_missing, unique_violation, ◌>>=◌, ◌>>◌, pure, throw, throw_if,
  or_throw, gets, modify, transaction, retry, max_serialization_retries,
}
use patheya_express_platform.Schema.{Coupon, CouponScope, coupon_scope_eq}

pub record CouponRedemption : Type 0 where
  pub id : ℕ
  pub coupon_id : ℕ
  pub user_id : ℕ
  pub order_id : Option ℕ
  pub discount_amount : ℕ

pub record Store : Type 0 where
  pub coupon : ℕ → Option Coupon
  pub id_of_code : ℕ → Option ℕ
  pub redemptions : List CouponRedemption
  pub next_id : ℕ

-- `coupon.usageLimit !== null && coupon.totalUsed >= coupon.usageLimit`
abbrev limit_reached : Option ℕ → ℕ → Bool
limit_reached none used = false
limit_reached (some limit) used = leb limit used

abbrev wrong_restaurant : CouponScope → Option ℕ → ℕ → Bool
wrong_restaurant scope own restaurant =
    (scope === CouponScope.restaurant) && not (is_id own restaurant)

-- `assertCouponEligible`
pub assert_coupon_eligible : Coupon → ℕ → ℕ → ℕ → ℕ → Action Store (Unit {0})
assert_coupon_eligible coupon restaurant_id subtotal user_redemption_count now = do
  throw_if (not coupon.active) bad_request
  throw_if (ltb now coupon.starts_at) bad_request
  throw_if (ltb coupon.ends_at now) bad_request
  throw_if (ltb subtotal coupon.min_order_amount) bad_request
  throw_if (wrong_restaurant coupon.scope coupon.restaurant_id restaurant_id) bad_request
  throw_if (limit_reached coupon.usage_limit coupon.total_used) bad_request
  throw_if (leb coupon.usage_per_user user_redemption_count) bad_request

abbrev pub of_coupon : ℕ → CouponRedemption → Bool
of_coupon coupon_id r = r.coupon_id == coupon_id

abbrev pub of_user : ℕ → ℕ → CouponRedemption → Bool
of_user coupon_id user_id r = (r.coupon_id == coupon_id) && (r.user_id == user_id)

abbrev pub of_order : ℕ → CouponRedemption → Bool
of_order order_id r = is_id r.order_id order_id

abbrev pub by_id : ℕ → CouponRedemption → Bool
by_id id r = r.id == id

pub find_by_code : ℕ → Store → Option Coupon
find_by_code code s = elim (s.id_of_code code) [ none ↦ none | some id ↦ s.coupon id ]

-- `countUserRedemptions`, and the same count inside `reserveRedemption`.
pub count_user_redemptions : ℕ → ℕ → Store → ℕ
count_user_redemptions coupon_id user_id s = count (of_user coupon_id user_id) s.redemptions

abbrev put_coupon : ℕ → Coupon → Store → Store
put_coupon id c s = record s { coupon = λ j. if j == id then some c else s.coupon j }

abbrev pub increment : Coupon → Coupon
increment c = record c { total_used = suc c.total_used }

abbrev pub decrement : Coupon → Coupon
decrement c = record c { total_used = c.total_used - 1 }

-- The `where` of the claim: the limit is the one that was read, the count is the row's own.
claim_open : Option ℕ → Coupon → Bool
claim_open none c = true
claim_open (some limit) c = ltb c.total_used limit

-- `tx.coupon.updateMany({ where, data: { totalUsed: { increment: 1 } } })`, and the throw on a
-- count of 0.
pub claim_usage : Coupon → Action Store (Unit {0})
unfolding claim_open
claim_usage seen s = elim (s.coupon seen.id) [
  | none ↦ (err bad_request, s)
  | some c ↦
      if claim_open seen.usage_limit c
      then (ok tt, put_coupon seen.id (increment c) s)
      else (err bad_request, s)
]

pub create_redemption : ℕ → ℕ → Action Store ℕ
create_redemption coupon_id user_id s = (
  ok s.next_id,
  record s {
    redemptions =
        record {
          id = s.next_id;
          coupon_id = coupon_id;
          user_id = user_id;
          order_id = none;
          discount_amount = 0;
        }
        ∷ s.redemptions;
    next_id = suc s.next_id;
  },
)

pub record ReserveParams : Type 0 where
  pub user_id : ℕ
  pub code : ℕ
  pub restaurant_id : ℕ
  pub subtotal : ℕ

-- The body of the transaction once the coupon has been read as `seen`. Under READ COMMITTED other
-- transactions may have committed in between; the advisory lock keeps out those of the same user.
pub reserve_seen : Coupon → ReserveParams → ℕ → Action Store (Coupon × ℕ)
reserve_seen seen p now = transaction (do
  user_redemptions ← gets (count_user_redemptions seen.id p.user_id)
  assert_coupon_eligible seen p.restaurant_id p.subtotal user_redemptions now
  claim_usage seen
  id ← create_redemption seen.id p.user_id
  pure (seen, id))

-- `CouponsRepository.reserveRedemption`
pub reserve_redemption : ReserveParams → ℕ → Action Store (Coupon × ℕ)
reserve_redemption p now s = elim (find_by_code p.code s) [
  | none ↦ (err not_found, s)
  | some coupon ↦ reserve_seen coupon p now s
]

-- `CouponsService.reserveRedemption`: the same with retries, on a code in its normal form.
pub reserve_with_retries : (ℕ → Bool) → (ℕ → ℕ) → ReserveParams → ℕ → Action Store (Coupon × ℕ)
reserve_with_retries aborted normal_form p now =
    retry max_serialization_retries aborted 0
      (reserve_redemption (record p { code = normal_form p.code }) now)

-- `CouponsService.assertUsable`, the preview that reserves nothing.
pub assert_usable : (ℕ → ℕ) → ReserveParams → ℕ → Action Store Coupon
assert_usable normal_form p now = do
  coupon ← or_throw (← gets (find_by_code (normal_form p.code))) not_found
  user_redemptions ← gets (count_user_redemptions coupon.id p.user_id)
  assert_coupon_eligible coupon p.restaurant_id p.subtotal user_redemptions now
  pure coupon

-- Prisma's `delete` by id throws P2025 when no row has the id.
delete_redemption : ℕ → Action Store (Unit {0})
delete_redemption id s =
    if any (by_id id) s.redemptions
    then (ok tt, record s { redemptions = filter (λ r. not (by_id id r)) s.redemptions })
    else (err record_missing, s)

decrement_used : ℕ → Action Store (Unit {0})
decrement_used coupon_id s = elim (s.coupon coupon_id) [
  | none ↦ (err record_missing, s)
  | some c ↦ (ok tt, put_coupon coupon_id (decrement c) s)
]

-- `CouponsRepository.releaseRedemption`
pub release_redemption : ℕ → ℕ → Action Store (Unit {0})
unfolding delete_redemption decrement_used
release_redemption coupon_id redemption_id =
    transaction (delete_redemption redemption_id >> decrement_used coupon_id)

unfoldable pub find_redemption_by_order_id : ℕ → Store → Option CouponRedemption
find_redemption_by_order_id order_id s = find (of_order order_id) s.redemptions

-- The `catch` of `releaseForOrder`: P2025 is no error.
abbrev swallow_missing : Result (Unit {0}) × Store → Result (Unit {0}) × Store
swallow_missing (ok a, s) = (ok a, s)
swallow_missing (err record_missing, s) = (ok tt, s)
swallow_missing (err e, s) = (err e, s)

-- `CouponsService.releaseForOrder`
unfoldable pub release_for_order : ℕ → Action Store (Unit {0})
release_for_order order_id s = elim (find_redemption_by_order_id order_id s) [
  | none ↦ (ok tt, s)
  | some r ↦ swallow_missing (release_redemption r.coupon_id r.id s)
]

abbrev finalize_row : ℕ → ℕ → ℕ → CouponRedemption → CouponRedemption
finalize_row id order_id discount r =
    if by_id id r then record r { order_id = some order_id; discount_amount = discount } else r

pub finalize_rows : ℕ → ℕ → ℕ → List CouponRedemption → List CouponRedemption
finalize_rows id order_id discount [] = []
finalize_rows id order_id discount (r ∷ rs) =
    finalize_row id order_id discount r ∷ finalize_rows id order_id discount rs

-- `finalizeRedemption`: `orderId` is unique, so another row of the same order is refused.
pub finalize_redemption : ℕ → ℕ → ℕ → Action Store (Unit {0})
finalize_redemption id order_id discount s =
    if not (any (by_id id) s.redemptions)
    then (err record_missing, s)
    else if any (λ r. of_order order_id r && not (by_id id r)) s.redemptions
    then (err unique_violation, s)
    else (ok tt, record s { redemptions = finalize_rows id order_id discount s.redemptions })
