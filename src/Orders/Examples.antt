-- ===== src/Orders/Examples.antt =====
-- Orders at concrete inputs: the runs that the properties of this component are applied to.
use patheya_express_platform.Common.{
  ◌≡◌, refl, true, false, none, some, List, [], ◌∷◌, arith, ok, err, conflict, bad_request,
  provider_error,
}
use patheya_express_platform.Schema.{
  OrderStatus, order_status_eq, PaymentStatus, PaymentMode, UserRole, TransactionStatus,
  DeliveryProofType, DeliveryProofOtpStatus,
}
use patheya_express_platform.Common.Int.{pos, ◌+ℤ◌}
use patheya_express_platform.Coupons
use patheya_express_platform.Payments
use patheya_express_platform.Payments.Service.{PaymentProvider}
use patheya_express_platform.Orders.Access.{AuthenticatedUser, Restaurant, can_access_order}
use patheya_express_platform.Orders.Store.{
  Store, Order, find_order_by_id, write_status, update_by_id, with_status, claim_payment_status,
}
use patheya_express_platform.Orders.Status.{
  update_order_status, assert_status_change, apply_status, actor_allowed, payment_eligible,
  proof_verified, photo_verified, order_status_transitions, handle_acceptance_timeout,
}
use patheya_express_platform.Orders.Payment.{
  Platform, refund_order, refund_claimed_order, refund_online, refund_share,
}
use patheya_express_platform.Orders.Gates.{IsAllowed, Moved, update_gated}
use patheya_express_platform.Orders.Moves.{HasStatus}
use patheya_express_platform.Orders.Terminal.{pays, times_out, run, terminal_stays}
use patheya_express_platform.Orders.Race.{late_accept_wins}
use patheya_express_platform.Orders.Refunds.{refund_reverts, refund_happens_once}

abbrev an_order : OrderStatus → PaymentStatus → Order
an_order st pay = record {
  id = 7;
  customer_id = 3;
  restaurant_id = 5;
  delivery_partner_id = some 9;
  status = st;
  payment_status = pay;
  payment_mode = PaymentMode.online;
  total_amount = 6000;
  wallet_amount_used = 1000;
  delivered_at = none;
}

abbrev a_restaurant : Restaurant
a_restaurant = record { owner_id = 4; staff = []; auto_accept_orders = true }

abbrev rows : OrderStatus → PaymentStatus → Store
rows st pay = record {
  orders = an_order st pay ∷ [];
  history = [];
  otps =
      record {
        order_id = 7;
        type = DeliveryProofType.pickup;
        otp_hash = 0;
        status = DeliveryProofOtpStatus.verified;
        attempts = 0;
        max_attempts = 5;
        expires_at = 50;
        verified_at = some 40;
      }
      ∷ [];
  photos = record { order_id = 7; type = DeliveryProofType.pickup } ∷ [];
  restaurant = λ id. some a_restaurant;
  events = [];
}

abbrev partner : AuthenticatedUser
partner = record { user_id = 9; role = UserRole.delivery_partner }

abbrev picked_up : Store
picked_up =
    (update_order_status 7 OrderStatus.out_for_delivery partner 100
      (rows OrderStatus.ready_for_pickup PaymentStatus.paid)).1

abbrev picked_up_order : Order
picked_up_order = an_order OrderStatus.out_for_delivery PaymentStatus.paid

pick_up :
    update_order_status 7 OrderStatus.out_for_delivery partner 100
      (rows OrderStatus.ready_for_pickup PaymentStatus.paid)
    ≡ (ok picked_up_order, picked_up)
unfolding update_order_status assert_status_change apply_status actor_allowed payment_eligible
    proof_verified photo_verified order_status_transitions find_order_by_id write_status
    update_by_id can_access_order
pick_up = refl

update_gated_example :
    (o : Order) × (find_order_by_id 7 (rows OrderStatus.ready_for_pickup PaymentStatus.paid)
      ≡ some o)
    × IsAllowed o OrderStatus.out_for_delivery partner
        (rows OrderStatus.ready_for_pickup PaymentStatus.paid)
    × (picked_up_order ≡ with_status OrderStatus.out_for_delivery 100 o)
    × Moved 7 OrderStatus.out_for_delivery 9 100 o
        (rows OrderStatus.ready_for_pickup PaymentStatus.paid)
        picked_up
update_gated_example =
    update_gated 7 OrderStatus.out_for_delivery partner 100
      (rows OrderStatus.ready_for_pickup PaymentStatus.paid) picked_up picked_up_order pick_up

too_early :
    update_order_status 7 OrderStatus.delivered partner 100
      (rows OrderStatus.ready_for_pickup PaymentStatus.paid)
    ≡ (err bad_request, rows OrderStatus.ready_for_pickup PaymentStatus.paid)
unfolding update_order_status assert_status_change order_status_transitions find_order_by_id
    can_access_order
too_early = refl

found :
    (st : OrderStatus) (pay : PaymentStatus)
    → find_order_by_id 7 (rows st pay) ≡ some (an_order st pay)
unfolding find_order_by_id
found st pay = refl

terminal_stays_example :
    HasStatus 7 OrderStatus.cancelled
      (run (pays 7 100 ∷ times_out 7 ∷ []) (rows OrderStatus.cancelled PaymentStatus.pending))
terminal_stays_example =
    terminal_stays (pays 7 100 ∷ times_out 7 ∷ []) 7 OrderStatus.cancelled
      (rows OrderStatus.cancelled PaymentStatus.pending) refl
      (
        an_order OrderStatus.cancelled PaymentStatus.pending,
        found OrderStatus.cancelled PaymentStatus.pending,
        refl,
      )

abbrev payment : Payments.Store.Payment
payment = record {
  id = 1;
  order_id = 7;
  amount = pos 5000;
  status = TransactionStatus.success;
  provider_order_id = some 70;
  provider_payment_id = some 700;
  method = none;
  attempt_number = 1;
  is_active = true;
}

abbrev platform : List Payments.Store.Payment → Platform
platform payments = record {
  order_rows = rows OrderStatus.cancelled PaymentStatus.paid;
  payment_rows = record {
    payments = payments;
    refunds = [];
    next_payment_id = 2;
    next_refund_id = 1;
    events = [];
  };
  coupon_rows = record {
    coupon = λ id. none;
    id_of_code = λ code. none;
    redemptions = [];
    next_id = 1;
  };
}

abbrev provider : PaymentProvider
provider = record {
  create_order = λ amount order attempt. err provider_error;
  verify_payment_signature = λ p. false;
  verify_webhook_signature = λ body signature. false;
  refund = λ id amount. ok 900;
  fetch_payment = λ id. err provider_error;
  fetch_order_payments = λ id. err provider_error;
}

abbrev refunded : Platform
refunded = (refund_order provider 7 none (platform (payment ∷ []))).1

refund_run :
    refund_order provider 7 none (platform (payment ∷ []))
    ≡ (ok (an_order OrderStatus.cancelled PaymentStatus.refunded), refunded)
unfolding refund_order refund_claimed_order refund_online refund_share find_order_by_id
    claim_payment_status Payments.Store.find_active_payment_for_order Payments.Refund.refund_payment
    Payments.Refund.refund_after_claim Payments.Refund.refund_claimed
    Payments.Refund.complete_refund Payments.Store.claim_refund Payments.Store.find_by_id
    Payments.Store.claim_refund_of Payments.Store.finalize_refund_success
    Payments.Store.claim_status_transition ◌+ℤ◌ Coupons.release_for_order
    Coupons.find_redemption_by_order_id
refund_run = refl

refund_happens_once_example :
    (find_order_by_id 7 refunded.order_rows
      ≡ some (an_order OrderStatus.cancelled PaymentStatus.refunded))
    × (PaymentStatus.refunded ≡ PaymentStatus.refunded)
    × (refund_order provider 7 (some 100) refunded ≡ (err conflict, refunded))
refund_happens_once_example =
    refund_happens_once provider 8 7 none (some 100) (platform (payment ∷ [])) refunded
      (an_order OrderStatus.cancelled PaymentStatus.refunded) (omega arith, tt) refund_run

abbrev reverted : Platform
reverted = (refund_order provider 7 none (platform [])).1

revert_run : refund_order provider 7 none (platform []) ≡ (err bad_request, reverted)
unfolding refund_order refund_claimed_order refund_online refund_share find_order_by_id
    claim_payment_status Payments.Store.find_active_payment_for_order
revert_run = refl

refund_reverts_example :
    find_order_by_id 7 reverted.order_rows ≡ find_order_by_id 7 (platform []).order_rows
refund_reverts_example =
    refund_reverts provider 8 7 7 none (platform []) reverted bad_request (omega arith, tt)
      revert_run

abbrev manual : Restaurant
manual = record { owner_id = 4; staff = []; auto_accept_orders = false }

abbrev manual_rows : Store
manual_rows = record (rows OrderStatus.pending PaymentStatus.paid) {
  restaurant = λ id. some manual;
}

found_manual :
    find_order_by_id 7 manual_rows ≡ some (an_order OrderStatus.pending PaymentStatus.paid)
unfolding find_order_by_id
found_manual = refl

late_accept_wins_example :
    (find_order_by_id 7 (handle_acceptance_timeout 7 manual_rows)
      ≡ some (an_order OrderStatus.cancelled PaymentStatus.paid))
    × (find_order_by_id 7
          (apply_status 7 OrderStatus.confirmed 4 100 (handle_acceptance_timeout 7 manual_rows)).1
        ≡ some (an_order OrderStatus.confirmed PaymentStatus.paid))
late_accept_wins_example =
    late_accept_wins 7 4 100 manual_rows (an_order OrderStatus.pending PaymentStatus.paid)
      found_manual refl refl
