-- ===== src/Coupons/Release.antt =====
-- A slot that is claimed and given back, and the retries around a reservation.
use patheya_express_platform.Common.{
  ℕ, ◌≡◌, ◌⊎◌, inl, inr, refl, Bool, true, ◌&&◌, none, some, List, [], ◌∷◌, arith, ok, err,
  serialization_failure, find, count, Option-cases, if◌then◌else◌,
}
use patheya_express_platform.Schema.{Coupon}
use patheya_express_platform.Coupons.{
  Store, CouponRedemption, ReserveParams, of_order, increment, decrement, reserve_seen,
  reserve_redemption, reserve_with_retries, release_redemption, release_for_order,
  find_redemption_by_order_id,
}
use patheya_express_platform.Coupons.Ledger.{
  Below, drop_row, drop_row_above, find-by_id, count-drop_row,
}
use patheya_express_platform.Coupons.Invariant.{
  IsValid, reserve_seen_cases, reserved, release_cases, released,
}

decrement-increment : (c : Coupon) → decrement (increment c) ≡ c
decrement-increment c = ground arith

abbrev new_row : Coupon → ReserveParams → Store → CouponRedemption
new_row seen p s = record {
  id = s.next_id;
  coupon_id = seen.id;
  user_id = p.user_id;
  order_id = none;
  discount_amount = 0;
}

release-reserved :
    (seen c : Coupon) (p : ReserveParams) (s : Store)
    → Below s.next_id s.redemptions
    → s.coupon seen.id ≡ some c
    → let (r, u) = release_redemption seen.id s.next_id (reserved seen c p s) in
      (r ≡ ok tt) × (u.redemptions ≡ s.redemptions) × ((j : ℕ) → u.coupon j ≡ s.coupon j)
release-reserved seen c p s b e =
    elim (release_cases (new_row seen p s) (reserved seen c p s) (ground arith)) [
      | inl (_, gone) ↦ absurd (ground arith)
      | inr (d, found, done) ↦ rw done (
        refl,
        ground (arith, drop_row_above s.next_id s.next_id s.redemptions b),
        λ j. ground (arith, decrement-increment c),
      )
    ]

-- An order attempt that fails gives its slot back: releasing what was just reserved restores the
-- ledger and every coupon's row.
pub release-reserve :
    (seen c : Coupon) (p : ReserveParams) (now : ℕ) (s t : Store) (id : ℕ)
    → IsValid s
    → s.coupon seen.id ≡ some c
    → reserve_seen seen p now s ≡ (ok (seen, id), t)
    → let (r, u) = release_redemption seen.id id t in
      (r ≡ ok tt) × (u.redemptions ≡ s.redemptions) × ((j : ℕ) → u.coupon j ≡ s.coupon j)
release-reserve seen c p now s t id v e done = elim (reserve_seen_cases seen c p now s e) [
  | inl failed ↦ absurd (cc)
  | inr (_, _, made) ↦
      let ids : id ≡ s.next_id = cc in
      let stores : t ≡ reserved seen c p s = cc in
      rw (ids, stores) (release-reserved seen c p s v.fresh e)
]

find-count :
    (q : CouponRedemption → Bool) (rs : List CouponRedemption) → count q rs ≡ 0 → find q rs ≡ none
find-count q [] h = refl
find-count q (r ∷ rs) h = ground (arith, find-count q rs)

find_holds :
    (q : CouponRedemption → Bool) (r : CouponRedemption) (rs : List CouponRedemption)
    → find q rs ≡ some r
    → q r ≡ true
find_holds q r [] h = cc
find_holds q r (x ∷ rs) h = ground (arith, find_holds q r rs)

release_order_none :
    (o : ℕ) (s : Store)
    → find (of_order o) s.redemptions ≡ none
    → release_for_order o s ≡ (ok tt, s)
unfolding release_for_order find_redemption_by_order_id
release_order_none o s e = rw (e, release_for_order)

-- What `releaseForOrder` does where the order has a redemption.
release_order_cases :
    (o : ℕ) (r : CouponRedemption) (s : Store)
    → IsValid s
    → find (of_order o) s.redemptions ≡ some r
    → (release_for_order o s ≡ (ok tt, s))
      ⊎ ((c : Coupon) × (release_for_order o s ≡ (ok tt, released r c s)))
unfolding release_for_order find_redemption_by_order_id
release_order_cases o r s v e =
    elim (release_cases r s (find-by_id (of_order o) s.next_id r s.redemptions v.fresh e).1) [
      | inl (missing, _) ↦ inl (rw (e, release_for_order, missing))
      | inr (c, _, done) ↦ inr (c, rw (e, release_for_order, done))
    ]

none_left :
    (o : ℕ) (r : CouponRedemption) (s : Store)
    → IsValid s
    → find (of_order o) s.redemptions ≡ some r
    → find (of_order o) (drop_row r.id s.redemptions) ≡ none
none_left o r s v e = find-count (of_order o) (drop_row r.id s.redemptions) (
    ground (
      arith,
      v.linked o,
      find_holds (of_order o) r s.redemptions e,
      count-drop_row (of_order o) r.id s.next_id r s.redemptions v.fresh
          (find-by_id (of_order o) s.next_id r s.redemptions v.fresh e).1,
    ))

-- Cancelling and refunding the same order release its coupon once: a second call changes nothing.
pub release_twice :
    (o : ℕ) (s : Store)
    → IsValid s
    → let t = (release_for_order o s).1 in release_for_order o t ≡ (ok tt, t)
release_twice o s v = elim (Option-cases (find (of_order o) s.redemptions)) [
  | inl e ↦ let once = release_order_none o s e in rw once once
  | inr (r, e) ↦ elim (release_order_cases o r s v e) [
    | inl same ↦ rw same same
    | inr (c, done) ↦ rw done (release_order_none o (released r c s) (none_left o r s v e))
  ]
]

-- With at most two aborted attempts a reservation comes to what it would have been without them,
-- and with three the caller gets the serialization failure and no slot is taken.
pub reserve_retries :
    (aborted : ℕ → Bool) (normal_form : ℕ → ℕ) (p : ReserveParams) (now : ℕ) (s : Store)
    → reserve_with_retries aborted normal_form p now s ≡ (
        if aborted 0 && aborted 1 && aborted 2
        then (err serialization_failure, s)
        else reserve_redemption (record p { code = normal_form p.code }) now s)
unfolding reserve_with_retries
reserve_retries aborted normal_form p now s = ground arith
