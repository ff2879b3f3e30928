-- ===== src/Coupons/Invariant.antt =====
-- What concurrent checkouts, cancellations and refunds keep true of the coupon tables.
use patheya_express_platform.Common.{
  ℕ, suc, ◌≤◌, ◌<◌, ◌≡◌, ◌⊎◌, inl, inr, refl, not, ◌&&◌, sym, ◌∙◌, none, some, ◌∷◌, arith, ok, err,
  bad_request, record_missing, find, count, any, Option-cases, Bool-cases, if◌then◌else◌, ◌==◌,
}
use patheya_express_platform.Schema.{Coupon}
use patheya_express_platform.Coupons.{
  Store, CouponRedemption, ReserveParams, of_coupon, of_user, of_order, by_id, increment, decrement,
  reserve_seen, release_redemption, release_for_order, finalize_redemption, finalize_rows,
  claim_usage, create_redemption, count_user_redemptions, find_redemption_by_order_id,
}
use patheya_express_platform.Coupons.Eligibility.{IsEligible, IsEligible-cases}
use patheya_express_platform.Coupons.Ledger.{
  Below, drop_row, drop_row-Below, finalize_rows-Below, count-drop_row, find-by_id, find-any,
  count-finalize_rows, count-finalize_order,
}

-- What must hold of one coupon in a store: it is stored under its id, its counter is the number of
-- its rows, neither the total limit nor the limit of any user is exceeded.
pub record IsCounted (s : Store) (id : ℕ) (c : Coupon) : Type 0 where
  pub keyed : c.id ≡ id
  pub counted : c.total_used ≡ count (of_coupon id) s.redemptions
  pub within : (limit : ℕ) → c.usage_limit ≡ some limit → c.total_used ≤ limit
  pub per_user : (user : ℕ) → count (of_user id user) s.redemptions ≤ c.usage_per_user

pub record IsValid (s : Store) : Type 0 where
  pub fresh : Below s.next_id s.redemptions
  pub linked : (order_id : ℕ) → count (of_order order_id) s.redemptions ≤ 1
  pub coupons : (id : ℕ) (c : Coupon) → s.coupon id ≡ some c → IsCounted s id c

-- An older reading of a coupon row: other customers may have used it since, and no administrator
-- has edited it.
pub record IsReadingOf (seen c : Coupon) : Type 0 where
  pub same_id : seen.id ≡ c.id
  pub same_limit : seen.usage_limit ≡ c.usage_limit
  pub same_per_user : seen.usage_per_user ≡ c.usage_per_user

-- One committed transaction of any customer.
pub data Step (s : Store) : Store → Type 0 where
  reserve :
      (seen c : Coupon) (p : ReserveParams) (now : ℕ)
      → s.coupon seen.id ≡ some c
      → IsReadingOf seen c
      → Step s (reserve_seen seen p now s).1
  release :
      (r : CouponRedemption)
      → find (by_id r.id) s.redemptions ≡ some r
      → Step s (release_redemption r.coupon_id r.id s).1
  release_order : (order_id : ℕ) → Step s (release_for_order order_id s).1
  finalize : (id order_id discount : ℕ) → Step s (finalize_redemption id order_id discount s).1

pub data Reach (s : Store) : Store → Type 0 where
  start : Reach s s
  next : {t u : Store} → Reach s t → Step t u → Reach s u

-- The store after a successful reservation.
abbrev pub reserved : Coupon → Coupon → ReserveParams → Store → Store
reserved seen c p s = record s {
  coupon = λ j. if j == seen.id then some (increment c) else s.coupon j;
  redemptions =
      record {
        id = s.next_id;
        coupon_id = seen.id;
        user_id = p.user_id;
        order_id = none;
        discount_amount = 0;
      }
      ∷ s.redemptions;
  next_id = suc s.next_id;
}

pub reserve_seen_cases :
    (seen c : Coupon) (p : ReserveParams) (now : ℕ) (s : Store)
    → s.coupon seen.id ≡ some c
    → (reserve_seen seen p now s ≡ (err bad_request, s))
      ⊎ (IsEligible seen p.restaurant_id p.subtotal
            (count (of_user seen.id p.user_id) s.redemptions)
            now
          × ((limit : ℕ) → seen.usage_limit ≡ some limit → c.total_used < limit)
          × (reserve_seen seen p now s ≡ (ok (seen, s.next_id), reserved seen c p s)))
unfolding reserve_seen claim_usage create_redemption count_user_redemptions
reserve_seen_cases seen c p now s e =
    let n = count (of_user seen.id p.user_id) s.redemptions in
    ground (arith, IsEligible-cases seen p.restaurant_id p.subtotal n now s)

reserved-IsCounted :
    (seen c : Coupon) (p : ReserveParams) (now : ℕ) (s : Store) (j : ℕ) (d : Coupon)
    → IsValid s
    → s.coupon seen.id ≡ some c
    → IsReadingOf seen c
    → IsEligible seen p.restaurant_id p.subtotal
        (count (of_user seen.id p.user_id) s.redemptions)
        now
    → ((limit : ℕ) → seen.usage_limit ≡ some limit → c.total_used < limit)
    → (reserved seen c p s).coupon j ≡ some d
    → IsCounted (reserved seen c p s) j d
reserved-IsCounted seen c p now s j d v e old el room h = record {
  keyed = ground (arith, v.coupons j d, (v.coupons seen.id c e).keyed);
  counted = ground (arith, v.coupons j d, (v.coupons seen.id c e).counted);
  within = λ limit l. ground (
    arith,
    v.coupons j d,
    room limit,
    (λ (q : s.coupon j ≡ some d). (v.coupons j d q).within limit l),
  );
  per_user = λ user. ground (
    arith,
    (v.coupons seen.id c e).per_user user,
    (λ (q : s.coupon j ≡ some d). (v.coupons j d q).per_user user),
  );
}

reserve-IsValid :
    (seen c : Coupon) (p : ReserveParams) (now : ℕ) (s : Store)
    → IsValid s
    → s.coupon seen.id ≡ some c
    → IsReadingOf seen c
    → IsValid (reserve_seen seen p now s).1
reserve-IsValid seen c p now s v e old = elim (reserve_seen_cases seen c p now s e) [
  | inl same ↦ rw same v
  | inr (el, room, done) ↦ rw done (record {
    fresh = (omega arith, v.fresh);
    linked = v.linked;
    coupons = λ j d h. reserved-IsCounted seen c p now s j d v e old el room h;
  })
]

-- The store after a release of `r`.
abbrev pub released : CouponRedemption → Coupon → Store → Store
released r c s = record s {
  coupon = λ j. if j == r.coupon_id then some (decrement c) else s.coupon j;
  redemptions = drop_row r.id s.redemptions;
}

pub release_cases :
    (r : CouponRedemption) (s : Store)
    → find (by_id r.id) s.redemptions ≡ some r
    → ((release_redemption r.coupon_id r.id s ≡ (err record_missing, s))
        × (s.coupon r.coupon_id ≡ none))
      ⊎ ((c : Coupon) × (s.coupon r.coupon_id ≡ some c)
          × (release_redemption r.coupon_id r.id s ≡ (ok tt, released r c s)))
unfolding release_redemption
release_cases r s f = elim (Option-cases (s.coupon r.coupon_id)) [
  | inl e ↦ inl (rw (find-any (by_id r.id) r s.redemptions f, e), e)
  | inr (c, e) ↦ inr (c, e, rw (find-any (by_id r.id) r s.redemptions f, e))
]

released-IsCounted :
    (r : CouponRedemption) (c : Coupon) (s : Store) (j : ℕ) (d : Coupon)
    → IsValid s
    → find (by_id r.id) s.redemptions ≡ some r
    → s.coupon r.coupon_id ≡ some c
    → (released r c s).coupon j ≡ some d
    → IsCounted (released r c s) j d
released-IsCounted r c s j d v f e h = record {
  keyed = ground (arith, v.coupons j d, (v.coupons r.coupon_id c e).keyed);
  counted = ground (
    arith,
    v.coupons j d,
    (v.coupons r.coupon_id c e).counted,
    count-drop_row (of_coupon j) r.id s.next_id r s.redemptions v.fresh f,
  );
  within = λ limit l. ground (
    arith,
    (v.coupons r.coupon_id c e).within limit,
    (λ (q : s.coupon j ≡ some d). (v.coupons j d q).within limit l),
  );
  per_user = λ user. ground (
    arith,
    (v.coupons r.coupon_id c e).per_user user,
    (λ (q : s.coupon j ≡ some d). (v.coupons j d q).per_user user),
    count-drop_row (of_user j user) r.id s.next_id r s.redemptions v.fresh f,
  );
}

release-IsValid :
    (r : CouponRedemption) (s : Store)
    → IsValid s
    → find (by_id r.id) s.redemptions ≡ some r
    → IsValid (release_redemption r.coupon_id r.id s).1
release-IsValid r s v f = elim (release_cases r s f) [
  | inl (same, _) ↦ rw same v
  | inr (c, e, done) ↦ rw done (record {
    fresh = drop_row-Below r.id s.next_id s.redemptions v.fresh;
    linked = λ o.
        omega
          (arith, v.linked o, count-drop_row (of_order o) r.id s.next_id r s.redemptions v.fresh f);
    coupons = λ j d h. released-IsCounted r c s j d v f e h;
  })
]

release_order-IsValid : (o : ℕ) (s : Store) → IsValid s → IsValid (release_for_order o s).1
unfolding release_for_order find_redemption_by_order_id
release_order-IsValid o s v = elim (Option-cases (find (of_order o) s.redemptions)) [
  | inl e ↦ rw (e, release_for_order) v
  | inr (r, e) ↦
      let f = (find-by_id (of_order o) s.next_id r s.redemptions v.fresh e).1 in
      elim (release_cases r s f) [
        | inl (missing, _) ↦ rw (e, release_for_order, missing) v
        | inr (c, _, done) ↦ rw (e, release_for_order, done) (rw done at (release-IsValid r s v f))
      ]
]

finalize-IsValid : (id o d : ℕ) (s : Store) → IsValid s → IsValid (finalize_redemption id o d s).1
unfolding finalize_redemption
finalize-IsValid id o d s v = elim (Bool-cases (not (any (by_id id) s.redemptions))) [
  | inl missing ↦ rw missing v
  | inr found ↦ elim (Bool-cases (any (λ r. of_order o r && not (by_id id r)) s.redemptions)) [
    | inl taken ↦ rw (found, taken) v
    | inr free ↦
        rw (found, free)
          (record {
            fresh = finalize_rows-Below id o d s.next_id s.redemptions v.fresh;
            linked = λ k.
                count-finalize_order id o d k s.next_id s.redemptions v.fresh free (v.linked k);
            coupons = λ j c h. finalized j c (v.coupons j c h);
          })
  ]
]
  where
    finalized :
        (j : ℕ) (c : Coupon)
        → IsCounted s j c
        → IsCounted (record s { redemptions = finalize_rows id o d s.redemptions }) j c
    finalized j c k = record {
      keyed = k.keyed;
      counted =
          k.counted ∙ sym (count-finalize_rows (of_coupon j) id o d s.redemptions (λ r. refl));
      within = k.within;
      per_user = λ user.
          rw (count-finalize_rows (of_user j user) id o d s.redemptions (λ r. refl))
            (k.per_user user);
    }

pub Step-IsValid : {s t : Store} → Step s t → IsValid s → IsValid t
Step-IsValid {s} (reserve seen c p now e old) v = reserve-IsValid seen c p now s v e old
Step-IsValid {s} (release r f) v = release-IsValid r s v f
Step-IsValid {s} (release_order o) v = release_order-IsValid o s v
Step-IsValid {s} (finalize id o d) v = finalize-IsValid id o d s v

-- After any sequence of committed transactions, in which each reservation may have checked a stale
-- count of uses, every coupon's counter is still the number of its redemptions, within its total
-- limit, no customer holds more redemptions of a coupon than it allows, and no order has two.
pub Reach-IsValid : {s t : Store} → Reach s t → IsValid s → IsValid t
Reach-IsValid start v = v
Reach-IsValid (next r st) v = Step-IsValid st (Reach-IsValid r v)
