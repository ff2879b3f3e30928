-- ===== src/Delivery/Proof.antt =====
-- services/proof.service.ts and repositories/proof.repository.ts: the OTPs and the pickup photo
-- that gate the last two steps of an order. The rows and the gates themselves are those of Orders.
use patheya_express_platform.Common.{
  ℕ, suc, ◌+◌, ◌*◌, Bool, true, false, not, ◌&&◌, ◌||◌, none, some, ◌∷◌, ltb, leb, is_id, ◌===◌,
  if◌then◌else◌, any, Action, ok, err, bad_request, forbidden, not_found, conflict, provider_error,
  ◌>>=◌, ◌>>◌, throw_if, or_throw, gets, modify,
}
use patheya_express_platform.Common.Table.{update_where}
use patheya_express_platform.Schema.{
  OrderStatus, order_status_eq, user_role_eq, DeliveryProofType, delivery_proof_type_eq,
  DeliveryProofOtpStatus, delivery_proof_otp_status_eq,
}
use patheya_express_platform.Orders.Access.{AuthenticatedUser, is_admin}
use patheya_express_platform.Orders.Store.{
  Store, Order, ProofOtp, ProofPhoto, find_order_by_id, find_otp, is_otp, has_photo,
}
use patheya_express_platform.Orders.Status.{update_order_status, is_partner}

-- `bcrypt`, which PasswordService calls: a hash depends on a random salt.
pub record Bcrypt : Type 0 where
  pub hash : (salt code : ℕ) → ℕ
  pub compare : (code otp_hash : ℕ) → Bool

-- `OTP_EXPIRY_MINUTES` in milliseconds, and `MAX_ATTEMPTS`.
abbrev pub otp_expiry : ℕ
otp_expiry = 10 * 60000

abbrev pub max_attempts : ℕ
max_attempts = 5

abbrev pub required_order_status : DeliveryProofType → OrderStatus
required_order_status DeliveryProofType.pickup = OrderStatus.ready_for_pickup
required_order_status DeliveryProofType.delivery = OrderStatus.out_for_delivery

abbrev pub target_order_status : DeliveryProofType → OrderStatus
target_order_status DeliveryProofType.pickup = OrderStatus.out_for_delivery
target_order_status DeliveryProofType.delivery = OrderStatus.delivered

-- The test of `assertAssignedPartner`
abbrev pub is_assigned_partner : Order → AuthenticatedUser → Bool
is_assigned_partner o user =
    is_admin user || (is_partner user && is_id o.delivery_partner_id user.user_id)

abbrev pub set_otp : ℕ → DeliveryProofType → (ProofOtp → ProofOtp) → Store → Store
set_otp id type f s = record s { otps = update_where (is_otp id type) f s.otps }

abbrev pub fresh_otp : ℕ → DeliveryProofType → ℕ → ℕ → ℕ → ProofOtp
fresh_otp id type otp_hash expires_at limit = record {
  order_id = id;
  type = type;
  otp_hash = otp_hash;
  status = DeliveryProofOtpStatus.pending;
  attempts = 0;
  max_attempts = limit;
  expires_at = expires_at;
  verified_at = none;
}

abbrev pub reset_otp : ℕ → ℕ → ℕ → ProofOtp → ProofOtp
reset_otp otp_hash expires_at limit otp = record otp {
  otp_hash = otp_hash;
  status = DeliveryProofOtpStatus.pending;
  attempts = 0;
  max_attempts = limit;
  expires_at = expires_at;
  verified_at = none;
}

-- `upsertOtp`: the unique row of an order and a type is written over, or made.
unfoldable pub upsert_otp : ℕ → DeliveryProofType → ℕ → ℕ → ℕ → Store → Store
upsert_otp id type otp_hash expires_at limit s =
    if any (is_otp id type) s.otps
    then set_otp id type (reset_otp otp_hash expires_at limit) s
    else record s { otps = fresh_otp id type otp_hash expires_at limit ∷ s.otps }

-- `incrementAttempts`, `markStatus` and `markVerified`: writes by the id of the row.
abbrev pub missed : Bool → ProofOtp → ProofOtp
missed exceeded otp = record otp {
  attempts = suc otp.attempts;
  status = if exceeded then DeliveryProofOtpStatus.exceeded else otp.status;
}

abbrev pub expired : ProofOtp → ProofOtp
expired otp = record otp { status = DeliveryProofOtpStatus.expired }

abbrev pub verified : ℕ → ProofOtp → ProofOtp
verified now otp = record otp { status = DeliveryProofOtpStatus.verified; verified_at = some now }

-- `generate`: a code and a salt are drawn, and the code goes to the customer.
unfoldable pub generate :
    Bcrypt
    → ℕ
    → DeliveryProofType
    → (code salt : ℕ) → AuthenticatedUser
    → ℕ
    → Action Store (Unit {0})
unfolding upsert_otp
generate bcrypt id type code salt user now = do
  order ← or_throw (← gets (find_order_by_id id)) not_found
  throw_if (not (is_assigned_partner order user)) forbidden
  throw_if (not (order.status === required_order_status type)) bad_request
  modify (upsert_otp id type (bcrypt.hash salt code) (now + otp_expiry) max_attempts)

-- The branches of `verify` on the row that it has read.
unfoldable pub check_code :
    Bcrypt → ℕ → DeliveryProofType → ℕ → ℕ → ProofOtp → Action Store (Unit {0})
check_code bcrypt id type code now otp s =
    if otp.status === DeliveryProofOtpStatus.verified
    then (err conflict, s)
    else if otp.status === DeliveryProofOtpStatus.exceeded
    then (err forbidden, s)
    else if otp.status === DeliveryProofOtpStatus.expired
    then (err bad_request, s)
    else if ltb otp.expires_at now
    then (err bad_request, set_otp id type expired s)
    else if bcrypt.compare code otp.otp_hash
    then (ok tt, set_otp id type (verified now) s)
    else if leb otp.max_attempts (suc otp.attempts)
    then (err forbidden, set_otp id type (missed true) s)
    else (err bad_request, set_otp id type (missed false) s)

-- The photo that `verify` asks for before a pickup.
abbrev pub photo_there : ℕ → DeliveryProofType → Store → Bool
photo_there id DeliveryProofType.pickup s = has_photo id DeliveryProofType.pickup s
photo_there id DeliveryProofType.delivery s = true

-- `verify`
unfoldable pub verify :
    Bcrypt → ℕ → DeliveryProofType → ℕ → AuthenticatedUser → ℕ → Action Store Order
verify bcrypt id type code user now = do
  order ← or_throw (← gets (find_order_by_id id)) not_found
  throw_if (not (is_assigned_partner order user)) forbidden
  throw_if (not (← gets (photo_there id type))) forbidden
  otp ← or_throw (← gets (find_otp id type)) not_found
  check_code bcrypt id type code now otp
  update_order_status id (target_order_status type) user now

abbrev pickup_photo : ℕ → ProofPhoto
pickup_photo id = record { order_id = id; type = DeliveryProofType.pickup }

-- `createPhoto` under its unique index, and the catch of a violation.
unfoldable pub create_photo : ℕ → Action Store (Unit {0})
create_photo id s =
    if has_photo id DeliveryProofType.pickup s
    then (err conflict, s)
    else (ok tt, record s { photos = pickup_photo id ∷ s.photos })

-- `uploadPickupPhoto`; `existing` is whether it has found a photo, and `stored` whether the storage
-- takes the file.
unfoldable pub upload_pickup_photo : Bool → Bool → ℕ → AuthenticatedUser → Action Store (Unit {0})
unfolding create_photo
upload_pickup_photo existing stored id user = do
  order ← or_throw (← gets (find_order_by_id id)) not_found
  throw_if (not (is_assigned_partner order user)) forbidden
  throw_if (not (order.status === required_order_status DeliveryProofType.pickup)) bad_request
  throw_if existing conflict
  throw_if (not stored) provider_error
  create_photo id
