-- ===== src/Placement/Examples.antt =====
-- Placements at concrete inputs: the runs that the properties of this component are applied to.
use patheya_express_platform.Common.{
  ◌≡◌, refl, true, false, none, some, List, [], ◌∷◌, arith, provider_error, ◌==◌, if◌then◌else◌,
}
use patheya_express_platform.Schema.{Coupon, CouponType, CouponScope}
use patheya_express_platform.Coupons
use patheya_express_platform.Coupons.{
  reserve_with_retries, reserve_redemption, find_by_code, reserve_seen, assert_coupon_eligible,
  count_user_redemptions, claim_usage, create_redemption, release_redemption, finalize_redemption,
}
use patheya_express_platform.Coupons.Invariant.{IsValid}
use patheya_express_platform.Placement.Items.{
  MenuItem, ItemRequest, OrderItem, build_items, build_item, choose_options,
}
use patheya_express_platform.Placement.Place.{
  Store, CreateOrderDto, AddressRequest, Circumstances, Lock, place_order, place_order_internal,
  insert_order, settle,
}
use patheya_express_platform.Placement.Once.{start, next, placed, replay}
use patheya_express_platform.Placement.Ledger.{AllOrNothing, all_or_nothing}
use patheya_express_platform.Placement.Register.{Put, view, place_order_refines}
use patheya_express_platform.Placement.Menu.{AllPriced, order_items-AllPriced}

abbrev thali : MenuItem
thali = record {
  id = 5;
  restaurant_id = 4;
  base_price = 12000;
  is_available = true;
  variants = record { id = 51; price = 15000 } ∷ [];
  addons =
      record {
        min_selection = 0;
        max_selection = 2;
        options = record { id = 91; price = 2000; is_available = true } ∷ [];
      }
      ∷ [];
}

abbrev two_thalis : ItemRequest
two_thalis = record {
  menu_item_id = 5;
  variant_id = some 51;
  addon_option_ids = 91 ∷ [];
  quantity = 2;
}

abbrev monsoon : Coupon
monsoon = record {
  id = 1;
  code = 11;
  type = CouponType.flat;
  value = 5000;
  max_discount_amount = none;
  min_order_amount = 20000;
  scope = CouponScope.restaurant;
  restaurant_id = some 4;
  usage_limit = some 2;
  usage_per_user = 1;
  total_used = 0;
  starts_at = 10;
  ends_at = 90;
  active = true;
}

abbrev ledger : Coupons.Store
ledger = record {
  coupon = λ id. if id == 1 then some monsoon else none;
  id_of_code = λ code. if code == 11 then some 1 else none;
  redemptions = [];
  next_id = 0;
}

ledger-IsValid : IsValid ledger
ledger-IsValid = record {
  fresh = tt;
  linked = λ o. omega arith;
  coupons = λ id c e. record {
    keyed = ground arith;
    counted = ground arith;
    within = λ limit l. ground arith;
    per_user = λ user. ground arith;
  };
}

abbrev store : Store
store = record {
  menu = thali ∷ [];
  address_owner = λ id. some 8;
  acceptance_timeout_minutes = λ restaurant. none;
  orders = [];
  next_id = 100;
  coupons = ledger;
  events = [];
}

abbrev basket : CreateOrderDto
basket = record {
  restaurant_id = 4;
  address = AddressRequest.saved 3;
  items = two_thalis ∷ [];
  coupon_code = some 11;
  idempotency_key = 77;
}

abbrev calm : Circumstances
calm = record { now = 50; aborted = λ attempt. false; normal_form = λ code. code; failure = none }

-- The insertion fails after the coupon was reserved.
abbrev outage : Circumstances
outage = record calm { failure = some provider_error }

abbrev without_coupon : CreateOrderDto
without_coupon = record basket { coupon_code = none }

-- Another customer's placement comes between the two calls.
replay_example :
    place_order Lock.unavailable outage 8 basket
      (place_order Lock.acquired calm 9 without_coupon
        (place_order Lock.acquired calm 8 without_coupon store).1).1
    ≡ (
      (place_order Lock.acquired calm 8 without_coupon store).0,
      (place_order Lock.acquired calm 9 without_coupon
          (place_order Lock.acquired calm 8 without_coupon store).1).1,
    )
unfolding place_order place_order_internal insert_order settle build_items build_item choose_options
replay_example =
    replay Lock.acquired Lock.unavailable calm outage 8 without_coupon basket store _ _ refl
      (next start (placed Lock.acquired calm 9 without_coupon)) refl

all_or_nothing_example : AllOrNothing store (place_order_internal outage 8 basket store)
all_or_nothing_example = all_or_nothing outage 8 basket store ledger-IsValid

place_order_refines_example :
    (let (r, t) = place_order Lock.acquired calm 8 basket store in Put 8 77 (view store) r (view t))
    × (let (r, t) = place_order_internal calm 8 basket store in Put 8 77 (view store) r (view t))
place_order_refines_example = place_order_refines Lock.acquired calm 8 basket store

abbrev two_priced : List OrderItem
two_priced =
    record {
      menu_item_id = 5;
      variant_id = some 51;
      quantity = 2;
      unit_price = 15000;
      total_price = 34000;
      addon_options = record { addon_option_id = 91; price = 2000 } ∷ [];
    }
    ∷ []

order_items-AllPriced_example : AllPriced (thali ∷ []) 4 (two_thalis ∷ []) two_priced
unfolding build_items build_item choose_options
order_items-AllPriced_example =
    order_items-AllPriced (thali ∷ []) 4 (two_thalis ∷ []) two_priced refl
