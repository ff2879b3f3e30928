-- ===== src/Delivery/Examples.antt =====
-- Delivery proofs at concrete inputs: the runs that the properties of this component are applied to.
use patheya_express_platform.Common.{
  ℕ, ◌≡◌, refl, none, some, List, [], ◌∷◌, arith, ok, err, Exception, ◌==◌,
}
use patheya_express_platform.Schema.{
  OrderStatus, order_status_eq, PaymentStatus, PaymentMode, UserRole, DeliveryProofType,
  DeliveryProofOtpStatus,
}
use patheya_express_platform.Orders.Access.{AuthenticatedUser}
use patheya_express_platform.Orders.Store.{Store, Order, ProofOtp, find_order_by_id, find_otp}
use patheya_express_platform.Delivery.Proof.{
  Bcrypt, generate, verify, target_order_status, fresh_otp,
}
use patheya_express_platform.Delivery.Handover.{code_completes}
use patheya_express_platform.Delivery.Lockout.{Guess, guesses, guesses_run_out}

-- A hash that shows the code stands in for bcrypt.
abbrev plain : Bcrypt
plain = record { hash = λ salt code. code; compare = λ code otp_hash. code == otp_hash }

abbrev an_order : Order
an_order = record {
  id = 7;
  customer_id = 3;
  restaurant_id = 5;
  delivery_partner_id = some 9;
  status = OrderStatus.out_for_delivery;
  payment_status = PaymentStatus.paid;
  payment_mode = PaymentMode.online;
  total_amount = 6000;
  wallet_amount_used = 0;
  delivered_at = none;
}

abbrev partner : AuthenticatedUser
partner = record { user_id = 9; role = UserRole.delivery_partner }

abbrev on_the_way : Store
on_the_way = record {
  orders = an_order ∷ [];
  history = [];
  otps = [];
  photos = [];
  restaurant = λ id. none;
  events = [];
}

abbrev code_sent : Store
code_sent = (generate plain 7 DeliveryProofType.delivery 123456 1 partner 1000 on_the_way).1

code_generated :
    generate plain 7 DeliveryProofType.delivery 123456 1 partner 1000 on_the_way
    ≡ (ok tt, code_sent)
unfolding generate find_order_by_id
code_generated = refl

order_found : find_order_by_id 7 on_the_way ≡ some an_order
unfolding find_order_by_id
order_found = refl

code_completes_example :
    (q : Order) × (u : Store) × (verify plain 7 DeliveryProofType.delivery 123456 partner 2000
        code_sent
      ≡ (ok q, u))
    × (find_order_by_id 7 u ≡ some q)
    × (q.status ≡ target_order_status DeliveryProofType.delivery)
code_completes_example =
    code_completes plain (λ salt code. ground arith) 7 DeliveryProofType.delivery 123456 1 1000 2000
      partner partner on_the_way code_sent an_order code_generated order_found refl refl
      (omega arith)

abbrev wrong : ℕ → Guess
wrong code = record { code = code; user = partner; now = 2000 }

abbrev five : List Guess
five = wrong 1 ∷ wrong 2 ∷ wrong 3 ∷ wrong 4 ∷ wrong 5 ∷ []

abbrev an_otp : ProofOtp
an_otp = fresh_otp 7 DeliveryProofType.delivery 123456 601000 5

guessed_order : find_order_by_id 7 code_sent ≡ some an_order
unfolding find_order_by_id generate
guessed_order = refl

guessed_otp : find_otp 7 DeliveryProofType.delivery code_sent ≡ some an_otp
unfolding find_order_by_id generate
guessed_otp = refl

guesses_run_out_example :
    (x : Exception) × (verify plain 7 DeliveryProofType.delivery 123456 partner 3000
        (guesses plain 7 DeliveryProofType.delivery five code_sent)
      ≡ (err x, guesses plain 7 DeliveryProofType.delivery five code_sent))
guesses_run_out_example =
    guesses_run_out plain 7 DeliveryProofType.delivery an_order an_otp 123456 601000 code_sent five
      (record { code = 123456; user = partner; now = 3000 }) guessed_order refl guessed_otp
      (refl, refl, refl, refl, refl)
      ((refl, refl), ((refl, refl), ((refl, refl), ((refl, refl), ((refl, refl), tt)))))
      (omega arith)

abbrev locked_otp : ProofOtp
locked_otp = record an_otp { status = DeliveryProofOtpStatus.exceeded; attempts = 5 }

abbrev locked_store : Store
locked_store = record on_the_way { otps = locked_otp ∷ [] }
