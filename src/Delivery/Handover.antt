-- ===== src/Delivery/Handover.antt =====
-- The OTP of an order and its status together: a code that was generated completes the step that it
-- is for.
use patheya_express_platform.Common.{
  ℕ, ◌+◌, ◌≤◌, ◌≡◌, inl, inr, refl, ap, ◌∙◌, true, some, List, [], ◌∷◌, arith, ok, any, find,
  Option-cases, Bool-cases,
}
use patheya_express_platform.Common.Table.{map_found, find-update_where, find_holds}
use patheya_express_platform.Schema.{
  OrderStatus, order_status_eq, user_role_eq, DeliveryProofType, delivery_proof_type_eq,
  DeliveryProofOtpStatus, delivery_proof_otp_status_eq,
}
use patheya_express_platform.Orders.Access.{AuthenticatedUser, can_access_order}
use patheya_express_platform.Orders.Store.{
  Store, Order, ProofOtp, find_order_by_id, find_otp, is_otp, with_status,
}
use patheya_express_platform.Orders.Status.{
  order_status_transitions, actor_allowed, payment_eligible, proof_verified, photo_verified,
  assert_status_change, update_order_status,
}
use patheya_express_platform.Orders.Gates.{
  apply_run, moved_store, moved_store-Moved, find_order_by_id-id,
}
use patheya_express_platform.Delivery.Proof.{
  Bcrypt, otp_expiry, max_attempts, required_order_status, target_order_status, is_assigned_partner,
  set_otp, fresh_otp, reset_otp, upsert_otp, verified, generate, check_code, photo_there, verify,
}

-- What `generate` leaves for the order and the type.
abbrev pub IsFresh : ProofOtp → ℕ → ℕ → Type 0
IsFresh r otp_hash expires_at =
    (r.status ≡ DeliveryProofOtpStatus.pending)
    × (r.otp_hash ≡ otp_hash)
    × (r.attempts ≡ 0)
    × (r.max_attempts ≡ max_attempts)
    × (r.expires_at ≡ expires_at)

pub set_otp-find :
    (id : ℕ) (type : DeliveryProofType) (f : ProofOtp → ProofOtp) (s : Store) (r : ProofOtp)
    → ((x : ProofOtp) → is_otp id type (f x) ≡ is_otp id type x)
    → find_otp id type s ≡ some r
    → find_otp id type (set_otp id type f s) ≡ some (f r)
set_otp-find id type f s r key e =
    find-update_where (is_otp id type) (is_otp id type) f s.otps key
    ∙ ap (map_found (is_otp id type) f) e
    ∙ ground (arith, find_holds (is_otp id type) r s.otps e)

any-find :
    (id : ℕ) (type : DeliveryProofType) (rows : List ProofOtp)
    → any (is_otp id type) rows ≡ true
    → (r : ProofOtp) × (find (is_otp id type) rows ≡ some r)
any-find id type [] h = absurd (ground arith)
any-find id type (x ∷ rows) h = elim (Bool-cases (is_otp id type x)) [
  | inl c ↦ (x, rw c refl)
  | inr c ↦ let (r, e) = any-find id type rows (ground (arith, c)) in (r, rw c e)
]

pub upsert_otp-find :
    (id : ℕ) (type : DeliveryProofType) (otp_hash expires_at : ℕ) (s : Store)
    → (r : ProofOtp) × (find_otp id type (upsert_otp id type otp_hash expires_at max_attempts s)
        ≡ some r)
      × IsFresh r otp_hash expires_at
unfolding upsert_otp
upsert_otp-find id type otp_hash expires_at s = elim (Bool-cases (any (is_otp id type) s.otps)) [
  | inl c ↦
      let (r, e) = any-find id type s.otps c in
      (
        reset_otp otp_hash expires_at max_attempts r,
        rw c (set_otp-find id type (reset_otp otp_hash expires_at max_attempts) s r (λ x. refl) e),
        (refl, refl, refl, refl, refl),
      )
  | inr c ↦ (
    fresh_otp id type otp_hash expires_at max_attempts,
    rw c (ground (arith, delivery_proof_type_eq.beq_iff type type)),
    (refl, refl, refl, refl, refl),
  )
]

upsert_otp-find_order :
    (id k : ℕ) (type : DeliveryProofType) (otp_hash expires_at : ℕ) (s : Store)
    → find_order_by_id k (upsert_otp id type otp_hash expires_at max_attempts s)
      ≡ find_order_by_id k s
unfolding upsert_otp find_order_by_id
upsert_otp-find_order id k type otp_hash expires_at s = ground arith

upsert_otp-photo_there :
    (id : ℕ) (type : DeliveryProofType) (otp_hash expires_at : ℕ) (s : Store)
    → photo_there id type (upsert_otp id type otp_hash expires_at max_attempts s)
      ≡ photo_there id type s
unfolding upsert_otp
upsert_otp-photo_there id DeliveryProofType.pickup otp_hash expires_at s = ground arith
upsert_otp-photo_there id DeliveryProofType.delivery otp_hash expires_at s = refl

-- The step that a proof is for is legal, its partner's to make, and nothing that must be paid for.
target_allowed :
    (id : ℕ) (type : DeliveryProofType) (user : AuthenticatedUser) (s : Store) (o : Order)
    (r : ProofOtp)
    → is_assigned_partner o user ≡ true
    → o.status ≡ required_order_status type
    → o.id ≡ id
    → find_otp id type s ≡ some r
    → r.status ≡ DeliveryProofOtpStatus.verified
    → photo_there id type s ≡ true
    → assert_status_change o (target_order_status type) user s ≡ (ok tt, s)
unfolding assert_status_change order_status_transitions actor_allowed payment_eligible
    proof_verified photo_verified can_access_order
target_allowed id DeliveryProofType.pickup user s o r a st k e v h =
    rw (k, st) (ground (arith, a, e, v, h))
target_allowed id DeliveryProofType.delivery user s o r a st k e v h =
    rw (k, st) (ground (arith, a, e, v, h))

-- The row that `verify` reads is one that it accepts.
pub accepted :
    (bcrypt : Bcrypt) (id : ℕ) (type : DeliveryProofType) (code now : ℕ) (r : ProofOtp) (s : Store)
    → r.status ≡ DeliveryProofOtpStatus.pending
    → now ≤ r.expires_at
    → bcrypt.compare code r.otp_hash ≡ true
    → check_code bcrypt id type code now r s ≡ (ok tt, set_otp id type (verified now) s)
unfolding check_code
accepted bcrypt id type code now r s st time match = ground (arith, st, match)

update_runs :
    (id : ℕ) (st : OrderStatus) (user : AuthenticatedUser) (now : ℕ) (s : Store) (o : Order)
    → find_order_by_id id s ≡ some o
    → assert_status_change o st user s ≡ (ok tt, s)
    → update_order_status id st user now s
      ≡ (ok (with_status st now o), moved_store id st user.user_id now o s)
unfolding update_order_status
update_runs id st user now s o e g = rw (e, g) (apply_run id st user.user_id now s o e)

pub set_otp-find_order :
    (id k : ℕ) (type : DeliveryProofType) (f : ProofOtp → ProofOtp) (s : Store)
    → find_order_by_id k (set_otp id type f s) ≡ find_order_by_id k s
unfolding find_order_by_id
set_otp-find_order id k type f s = refl

pub set_otp-photo_there :
    (id : ℕ) (type : DeliveryProofType) (f : ProofOtp → ProofOtp) (s : Store)
    → photo_there id type (set_otp id type f s) ≡ photo_there id type s
set_otp-photo_there id DeliveryProofType.pickup f s = refl
set_otp-photo_there id DeliveryProofType.delivery f s = refl

pub verify_run :
    (bcrypt : Bcrypt) (id : ℕ) (type : DeliveryProofType) (code now : ℕ) (user : AuthenticatedUser)
    (s : Store) (o : Order) (r : ProofOtp)
    → find_order_by_id id s ≡ some o
    → is_assigned_partner o user ≡ true
    → o.status ≡ required_order_status type
    → photo_there id type s ≡ true
    → find_otp id type s ≡ some r
    → r.status ≡ DeliveryProofOtpStatus.pending
    → now ≤ r.expires_at
    → bcrypt.compare code r.otp_hash ≡ true
    → verify bcrypt id type code user now s ≡ (
      ok (with_status (target_order_status type) now o),
      moved_store id
          (target_order_status type)
          user.user_id
          now
          o
          (set_otp id type (verified now) s),
    )
unfolding verify
verify_run bcrypt id type code now user s o r e a st h f p time match =
    let u = set_otp id type (verified now) s in
    let e' : find_order_by_id id u ≡ some o = set_otp-find_order id id type (verified now) s ∙ e in
    let allowed =
      target_allowed id type user u o (verified now r) a st (find_order_by_id-id id s o e)
        (set_otp-find id type (verified now) s r (λ x. refl) f) refl
        (set_otp-photo_there id type (verified now) s ∙ h) in
    rw (e, a, h, f, accepted bcrypt id type code now r s p time match)
      (update_runs id (target_order_status type) user now u o e' allowed)

generate_cases :
    (bcrypt : Bcrypt) (id : ℕ) (type : DeliveryProofType) (code salt now : ℕ)
    (user : AuthenticatedUser) (s t : Store)
    → generate bcrypt id type code salt user now s ≡ (ok tt, t)
    → (o : Order) × (find_order_by_id id s ≡ some o)
      × (o.status ≡ required_order_status type)
      × (t ≡ upsert_otp id type (bcrypt.hash salt code) (now + otp_expiry) max_attempts s)
unfolding generate
generate_cases bcrypt id type code salt now user s t run =
    elim (Option-cases (find_order_by_id id s)) [
      | inl e ↦ absurd (ground (arith, e))
      | inr (o, e) ↦ (
        o,
        e,
        ground (arith, e, order_status_eq.beq_iff o.status (required_order_status type)),
        ground (arith, e),
      )
    ]

-- A code completes its step: once one has been generated for an order, the assigned partner or an
-- admin who gives it back within the ten minutes moves the order on, to OUT_FOR_DELIVERY for the
-- pickup and to DELIVERED for the delivery. For the pickup the photo must be there.
pub code_completes :
    (bcrypt : Bcrypt)
    → ((salt code : ℕ) → bcrypt.compare code (bcrypt.hash salt code) ≡ true)
    → (id : ℕ) (type : DeliveryProofType) (code salt generated now : ℕ)
      (user partner : AuthenticatedUser) (s t : Store) (o : Order)
    → generate bcrypt id type code salt user generated s ≡ (ok tt, t)
    → find_order_by_id id s ≡ some o
    → is_assigned_partner o partner ≡ true
    → photo_there id type s ≡ true
    → now ≤ generated + otp_expiry
    → (q : Order) × (u : Store) × (verify bcrypt id type code partner now t ≡ (ok q, u))
      × (find_order_by_id id u ≡ some q)
      × (q.status ≡ target_order_status type)
code_completes bcrypt law id type code salt generated now user partner s t o run e a h time =
    let (p, f, st, to) = generate_cases bcrypt id type code salt generated user s t run in
    let (r, g, fresh) =
      upsert_otp-find id type (bcrypt.hash salt code) (generated + otp_expiry) s in
    let same : p ≡ o = ground arith in
    let e' : find_order_by_id id t ≡ some o =
      rw to
        (upsert_otp-find_order id id type (bcrypt.hash salt code) (generated + otp_expiry) s ∙ e) in
    let h' : photo_there id type t ≡ true =
      rw to
        (upsert_otp-photo_there id type (bcrypt.hash salt code) (generated + otp_expiry) s ∙ h) in
    let run =
      verify_run bcrypt id type code now partner t o r e' a (rw (← same) st) h' (rw to g) fresh.0
        (omega (arith, fresh.4)) (rw (fresh.1) (law salt code)) in
    (
      with_status (target_order_status type) now o,
      moved_store id (target_order_status type) partner.user_id now o
          (set_otp id type (verified now) t),
      run,
      (moved_store-Moved id (target_order_status type) partner.user_id now
          (set_otp id type (verified now) t) o
          (set_otp-find_order id id type (verified now) t ∙ e')).0,
      refl,
    )
