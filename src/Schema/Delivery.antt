-- ===== src/Schema/Delivery.antt =====
-- The enums of delivery, its proofs and restaurant staff, from prisma/schema.prisma, each with its equality.
use patheya_express_platform.Common.{ℕ, ◌≡◌, ◌↔◌, Bool, true, ◌==◌, Eq, arith}

pub data AssignmentStatus : Type 0 where
  pending assigned accepted rejected expired completed : AssignmentStatus

abbrev assignment_status_code : AssignmentStatus → ℕ
assignment_status_code AssignmentStatus.pending = 0
assignment_status_code AssignmentStatus.assigned = 1
assignment_status_code AssignmentStatus.accepted = 2
assignment_status_code AssignmentStatus.rejected = 3
assignment_status_code AssignmentStatus.expired = 4
assignment_status_code AssignmentStatus.completed = 5

abbrev assignment_status_beq : AssignmentStatus → AssignmentStatus → Bool
assignment_status_beq a b = assignment_status_code a == assignment_status_code b

pub assignment_status_beq_iff :
    (a b : AssignmentStatus) → (assignment_status_beq a b ≡ true) ↔ (a ≡ b)
assignment_status_beq_iff a b = ground arith

instance abbrev pub assignment_status_eq : Eq AssignmentStatus
assignment_status_eq = record { beq = assignment_status_beq; beq_iff = assignment_status_beq_iff }

pub data DeliveryPartnerStatus : Type 0 where
  offline available on_delivery suspended : DeliveryPartnerStatus

abbrev delivery_partner_status_code : DeliveryPartnerStatus → ℕ
delivery_partner_status_code DeliveryPartnerStatus.offline = 0
delivery_partner_status_code DeliveryPartnerStatus.available = 1
delivery_partner_status_code DeliveryPartnerStatus.on_delivery = 2
delivery_partner_status_code DeliveryPartnerStatus.suspended = 3

abbrev delivery_partner_status_beq : DeliveryPartnerStatus → DeliveryPartnerStatus → Bool
delivery_partner_status_beq a b = delivery_partner_status_code a == delivery_partner_status_code b

pub delivery_partner_status_beq_iff :
    (a b : DeliveryPartnerStatus) → (delivery_partner_status_beq a b ≡ true) ↔ (a ≡ b)
delivery_partner_status_beq_iff a b = ground arith

instance abbrev pub delivery_partner_status_eq : Eq DeliveryPartnerStatus
delivery_partner_status_eq = record {
  beq = delivery_partner_status_beq;
  beq_iff = delivery_partner_status_beq_iff;
}

pub data DeliveryProofType : Type 0 where
  pickup delivery : DeliveryProofType

abbrev delivery_proof_type_code : DeliveryProofType → ℕ
delivery_proof_type_code DeliveryProofType.pickup = 0
delivery_proof_type_code DeliveryProofType.delivery = 1

abbrev delivery_proof_type_beq : DeliveryProofType → DeliveryProofType → Bool
delivery_proof_type_beq a b = delivery_proof_type_code a == delivery_proof_type_code b

pub delivery_proof_type_beq_iff :
    (a b : DeliveryProofType) → (delivery_proof_type_beq a b ≡ true) ↔ (a ≡ b)
delivery_proof_type_beq_iff a b = ground arith

instance abbrev pub delivery_proof_type_eq : Eq DeliveryProofType
delivery_proof_type_eq = record {
  beq = delivery_proof_type_beq;
  beq_iff = delivery_proof_type_beq_iff;
}

pub data DeliveryProofOtpStatus : Type 0 where
  pending verified expired exceeded : DeliveryProofOtpStatus

abbrev delivery_proof_otp_status_code : DeliveryProofOtpStatus → ℕ
delivery_proof_otp_status_code DeliveryProofOtpStatus.pending = 0
delivery_proof_otp_status_code DeliveryProofOtpStatus.verified = 1
delivery_proof_otp_status_code DeliveryProofOtpStatus.expired = 2
delivery_proof_otp_status_code DeliveryProofOtpStatus.exceeded = 3

abbrev delivery_proof_otp_status_beq : DeliveryProofOtpStatus → DeliveryProofOtpStatus → Bool
delivery_proof_otp_status_beq a b =
    delivery_proof_otp_status_code a == delivery_proof_otp_status_code b

pub delivery_proof_otp_status_beq_iff :
    (a b : DeliveryProofOtpStatus) → (delivery_proof_otp_status_beq a b ≡ true) ↔ (a ≡ b)
delivery_proof_otp_status_beq_iff a b = ground arith

instance abbrev pub delivery_proof_otp_status_eq : Eq DeliveryProofOtpStatus
delivery_proof_otp_status_eq = record {
  beq = delivery_proof_otp_status_beq;
  beq_iff = delivery_proof_otp_status_beq_iff;
}

pub data RestaurantStaffRole : Type 0 where
  owner co_owner branch_manager kitchen_manager finance_manager staff : RestaurantStaffRole

abbrev restaurant_staff_role_code : RestaurantStaffRole → ℕ
restaurant_staff_role_code RestaurantStaffRole.owner = 0
restaurant_staff_role_code RestaurantStaffRole.co_owner = 1
restaurant_staff_role_code RestaurantStaffRole.branch_manager = 2
restaurant_staff_role_code RestaurantStaffRole.kitchen_manager = 3
restaurant_staff_role_code RestaurantStaffRole.finance_manager = 4
restaurant_staff_role_code RestaurantStaffRole.staff = 5

abbrev restaurant_staff_role_beq : RestaurantStaffRole → RestaurantStaffRole → Bool
restaurant_staff_role_beq a b = restaurant_staff_role_code a == restaurant_staff_role_code b

pub restaurant_staff_role_beq_iff :
    (a b : RestaurantStaffRole) → (restaurant_staff_role_beq a b ≡ true) ↔ (a ≡ b)
restaurant_staff_role_beq_iff a b = ground arith

instance abbrev pub restaurant_staff_role_eq : Eq RestaurantStaffRole
restaurant_staff_role_eq = record {
  beq = restaurant_staff_role_beq;
  beq_iff = restaurant_staff_role_beq_iff;
}
