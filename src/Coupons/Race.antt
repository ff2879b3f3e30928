-- ===== src/Coupons/Race.antt =====
-- Customers that race for the last use of a coupon, after all have read the same row.
use patheya_express_platform.Common.{ℕ, suc, ◌≡◌, inl, inr, some, arith, ok, err, bad_request}
use patheya_express_platform.Schema.{Coupon}
use patheya_express_platform.Coupons.{Store, ReserveParams, increment, reserve_seen}
use patheya_express_platform.Coupons.Invariant.{reserve_seen_cases, reserved}

reserved-coupon :
    (seen c : Coupon) (p : ReserveParams) (s : Store)
    → (reserved seen c p s).coupon seen.id ≡ some (increment c)
reserved-coupon seen c p s = ground arith

-- Where one use is left, the first reservation to commit takes it; a second one that had read the
-- coupon before, by any customer, is refused and writes nothing.
pub last_use :
    (seen c : Coupon) (limit : ℕ) (p q : ReserveParams) (now later id : ℕ) (s t : Store)
    → s.coupon seen.id ≡ some c
    → seen.usage_limit ≡ some limit
    → limit ≡ suc c.total_used
    → reserve_seen seen p now s ≡ (ok (seen, id), t)
    → reserve_seen seen q later t ≡ (err bad_request, t)
last_use seen c limit p q now later id s t e l one done =
    elim (reserve_seen_cases seen c p now s e) [
      | inl failed ↦ absurd (ground arith)
      | inr (_, _, made) ↦
          let stores : t ≡ reserved seen c p s = cc in
          rw stores (second (reserved seen c p s) (reserved-coupon seen c p s))
    ]
  where
    second :
        (u : Store)
        → u.coupon seen.id ≡ some (increment c)
        → reserve_seen seen q later u ≡ (err bad_request, u)
    second u f = elim (reserve_seen_cases seen (increment c) q later u f) [
      | inl refused ↦ refused
      | inr (_, room, _) ↦ absurd (omega (arith, room limit l))
    ]
