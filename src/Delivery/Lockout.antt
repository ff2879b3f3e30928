-- ===== src/Delivery/Lockout.antt =====
-- What is left of an OTP after wrong codes.
use patheya_express_platform.Common.{
  ℕ, suc, ◌+◌, ◌≤◌, ◌<◌, ◌≡◌, ◌⊎◌, inl, inr, refl, ◌∙◌, true, false, some, List, [], ◌∷◌, arith,
  err, Exception, bad_request, forbidden, All, length, Bool-cases,
}
use patheya_express_platform.Schema.{
  DeliveryProofType, delivery_proof_type_eq, DeliveryProofOtpStatus, delivery_proof_otp_status_eq,
}
use patheya_express_platform.Orders.Access.{AuthenticatedUser}
use patheya_express_platform.Orders.Store.{Store, Order, ProofOtp, find_order_by_id, find_otp}
use patheya_express_platform.Delivery.Proof.{
  Bcrypt, is_assigned_partner, set_otp, missed, expired, check_code, photo_there, verify,
  max_attempts,
}
use patheya_express_platform.Delivery.Handover.{
  IsFresh, set_otp-find, set_otp-find_order, set_otp-photo_there,
}

-- A call of `verify`.
pub record Guess : Type 0 where
  pub code : ℕ
  pub user : AuthenticatedUser
  pub now : ℕ

abbrev pub IsClosed : ProofOtp → Type 0
IsClosed r =
    (r.status ≡ DeliveryProofOtpStatus.exceeded) ⊎ (r.status ≡ DeliveryProofOtpStatus.expired)

-- After `k` wrong codes.
abbrev pub IsSpent : ℕ → ProofOtp → Type 0
IsSpent k r =
    IsClosed r
    ⊎ ((r.status ≡ DeliveryProofOtpStatus.pending)
        × (k ≤ r.attempts)
        × (r.attempts < r.max_attempts))

module _ (bcrypt : Bcrypt) (id : ℕ) (type : DeliveryProofType) where
  pub guess : Guess → Store → Store
  guess g s = (verify bcrypt id type g.code g.user g.now s).1

  pub guesses : List Guess → Store → Store
  guesses [] s = s
  guesses (g ∷ gs) s = guesses gs (guess g s)

  closed_check :
      (code now : ℕ) (r : ProofOtp) (s : Store)
      → IsClosed r
      → (x : Exception) × (check_code bcrypt id type code now r s ≡ (err x, s))
  unfolding check_code
  closed_check code now r s (inl c) = (forbidden, ground (arith, c))
  closed_check code now r s (inr c) = (bad_request, ground (arith, c))

  -- A wrong code on a row that is pending.
  wrong_check :
      (code now : ℕ) (r : ProofOtp) (s : Store)
      → r.status ≡ DeliveryProofOtpStatus.pending
      → bcrypt.compare code r.otp_hash ≡ false
      → (check_code bcrypt id type code now r s ≡ (err bad_request, set_otp id type expired s))
        ⊎ ((r.max_attempts ≤ suc r.attempts)
            × (check_code bcrypt id type code now r s
                ≡ (err forbidden, set_otp id type (missed true) s)))
        ⊎ ((suc r.attempts < r.max_attempts)
            × (check_code bcrypt id type code now r s
                ≡ (err bad_request, set_otp id type (missed false) s)))
  unfolding check_code
  wrong_check code now r s p w = ground (arith, p, w)

  module _ (o : Order) (otp_hash limit : ℕ) where
    -- The order, its photo and its OTP after `k` wrong codes.
    pub record IsGuessed (k : ℕ) (s : Store) : Type 0 where
      pub order : find_order_by_id id s ≡ some o
      pub photo : photo_there id type s ≡ true
      pub row : ProofOtp
      pub found : find_otp id type s ≡ some row
      pub same_hash : row.otp_hash ≡ otp_hash
      pub same_limit : row.max_attempts ≡ limit
      pub spent : IsSpent k row

    -- The run of `verify` up to the check of the code, which ends it here.
    verify_refused :
        (g : Guess) (k : ℕ) (s t : Store) (x : Exception) (b : IsGuessed k s)
        → is_assigned_partner o g.user ≡ true
        → check_code bcrypt id type g.code g.now b.row s ≡ (err x, t)
        → verify bcrypt id type g.code g.user g.now s ≡ (err x, t)
    unfolding verify
    verify_refused g k s t x b a c = rw (b.order, a, b.photo, b.found, c) refl

    moved-IsGuessed :
        (k : ℕ) (s : Store) (f : ProofOtp → ProofOtp) (b : IsGuessed k s)
        → ((r : ProofOtp)
            → ((f r).order_id ≡ r.order_id)
              × ((f r).type ≡ r.type)
              × ((f r).otp_hash ≡ r.otp_hash)
              × ((f r).max_attempts ≡ r.max_attempts))
        → IsSpent (suc k) (f b.row)
        → IsGuessed (suc k) (set_otp id type f s)
    moved-IsGuessed k s f b same spent = record {
      order = set_otp-find_order id id type f s ∙ b.order;
      photo = set_otp-photo_there id type f s ∙ b.photo;
      row = f b.row;
      found = set_otp-find id type f s b.row (λ x. ground (arith, same x)) b.found;
      same_hash = (same b.row).2 ∙ b.same_hash;
      same_limit = (same b.row).3 ∙ b.same_limit;
      spent = spent;
    }

    guess-IsGuessed :
        (g : Guess) (k : ℕ) (s : Store)
        → is_assigned_partner o g.user ≡ true
        → bcrypt.compare g.code otp_hash ≡ false
        → IsGuessed k s
        → IsGuessed (suc k) (guess g s)
    unfolding guess
    guess-IsGuessed g k s a w b = elim b.spent [
      | inl c ↦
          let (x, e) = closed_check g.code g.now b.row s c in
          rw (guess, verify_refused g k s s x b a e)
            (record {
              order = b.order;
              photo = b.photo;
              row = b.row;
              found = b.found;
              same_hash = b.same_hash;
              same_limit = b.same_limit;
              spent = inl c;
            })
      | inr (p, tried, left) ↦
          let w' : bcrypt.compare g.code b.row.otp_hash ≡ false = rw (b.same_hash) w in
          elim (wrong_check g.code g.now b.row s p w') [
            | inl e ↦
                rw (guess, verify_refused g k s (set_otp id type expired s) bad_request b a e)
                  (moved-IsGuessed k s expired b (λ r. (refl, refl, refl, refl)) (inl (inr refl)))
            | inr (inl (full, e)) ↦
                rw (guess, verify_refused g k s (set_otp id type (missed true) s) forbidden b a e)
                  (moved-IsGuessed k s (missed true) b (λ r. (refl, refl, refl, refl))
                    (inl (inl refl)))
            | inr (inr (open_still, e)) ↦
                rw
                  (guess, verify_refused g k s (set_otp id type (missed false) s) bad_request b a e)
                  (moved-IsGuessed k s (missed false) b (λ r. (refl, refl, refl, refl))
                    (inr (p, omega arith, open_still)))
          ]
    ]

    abbrev IsWrong : Guess → Type 0
    IsWrong g = (is_assigned_partner o g.user ≡ true) × (bcrypt.compare g.code otp_hash ≡ false)

    guesses-IsGuessed :
        (gs : List Guess) (k n : ℕ) (s : Store)
        → n ≡ length gs + k
        → All IsWrong gs
        → IsGuessed k s
        → IsGuessed n (guesses gs s)
    unfolding guesses
    guesses-IsGuessed [] k n s e w b = let same : n ≡ k = omega arith in rw same b
    guesses-IsGuessed (g ∷ gs) k n s e w b =
        guesses-IsGuessed gs (suc k) n (guess g s) (omega arith) w.1
          (guess-IsGuessed g k s w.0.0 w.0.1 b)

    -- No call of `verify` gets past a row that has been guessed at as often as it allows.
    locked :
        (n : ℕ) (g : Guess) (s : Store)
        → limit ≤ n
        → IsGuessed n s
        → (x : Exception) × (verify bcrypt id type g.code g.user g.now s ≡ (err x, s))
    unfolding verify
    locked n g s enough b = elim (Bool-cases (is_assigned_partner o g.user)) [
      | inr a ↦ (forbidden, rw (b.order, a) refl)
      | inl a ↦ elim b.spent [
        | inl c ↦
            let (x, e) = closed_check g.code g.now b.row s c in (x, verify_refused g n s s x b a e)
        | inr (p, tried, left) ↦ absurd (omega (arith, b.same_limit))
      ]
    ]

-- Wrong codes run out: after five wrong codes for an OTP that `generate` has just made, given by
-- whoever may give them, at whatever times, no code is accepted any more, the right one included,
-- and no call changes anything.
pub guesses_run_out :
    (bcrypt : Bcrypt) (id : ℕ) (type : DeliveryProofType) (o : Order) (r : ProofOtp)
    (otp_hash expires_at : ℕ) (s : Store) (gs : List Guess) (later : Guess)
    → find_order_by_id id s ≡ some o
    → photo_there id type s ≡ true
    → find_otp id type s ≡ some r
    → IsFresh r otp_hash expires_at
    → All (λ g. (is_assigned_partner o g.user ≡ true) × (bcrypt.compare g.code otp_hash ≡ false)) gs
    → max_attempts ≤ length gs
    → let t = guesses bcrypt id type gs s in
      (x : Exception) × (verify bcrypt id type later.code later.user later.now t ≡ (err x, t))
guesses_run_out bcrypt id type o r otp_hash expires_at s gs later e h f fresh wrong enough =
    locked bcrypt id type o otp_hash max_attempts (length gs) later (guesses bcrypt id type gs s)
      enough
      (guesses-IsGuessed bcrypt id type o otp_hash max_attempts gs 0 (length gs) s (omega arith)
        wrong
        (record {
          order = e;
          photo = h;
          row = r;
          found = f;
          same_hash = fresh.1;
          same_limit = fresh.3;
          spent = inr (fresh.0, omega arith, omega (arith, fresh.2, fresh.3));
        }))
