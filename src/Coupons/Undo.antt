-- ===== src/Coupons/Undo.antt =====
-- A reservation that fails, and one that is given back: either leaves the coupons as they were.
use mathlib.Core.Path.{subst}
use patheya_express_platform.Common.{
  ℕ, ◌≡◌, inl, inr, refl, sym, Bool, ◌&&◌, some, arith, Result, ok, err, Bool-cases, Option-cases,
  Unchanged, committed,
}
use patheya_express_platform.Schema.{Coupon}
use patheya_express_platform.Coupons.{
  Store, ReserveParams, find_by_code, reserve_seen, reserve_redemption, reserve_with_retries,
  release_redemption,
}
use patheya_express_platform.Coupons.Invariant.{IsValid, reserve_seen_cases}
use patheya_express_platform.Coupons.Release.{reserve_retries, release-reserve}

committed-Unchanged : {S A : Type 0} (s : S) (r : Result A × S) → Unchanged s (committed s r)
committed-Unchanged s (ok a, t) = tt
committed-Unchanged s (err e, t) = refl

-- A reservation that fails takes nothing.
reserve_redemption-Unchanged :
    (p : ReserveParams) (now : ℕ) (s : Store) → Unchanged s (reserve_redemption p now s)
unfolding reserve_redemption reserve_seen
reserve_redemption-Unchanged p now s = elim (Option-cases (find_by_code p.code s)) [
  | inl e ↦ rw (e, reserve_redemption) refl
  | inr (c, e) ↦ rw (e, reserve_redemption) (committed-Unchanged s _)
]

pub reserve_with_retries-Unchanged :
    (aborted : ℕ → Bool) (normal_form : ℕ → ℕ) (p : ReserveParams) (now : ℕ) (s : Store)
    → Unchanged s (reserve_with_retries aborted normal_form p now s)
reserve_with_retries-Unchanged aborted normal_form p now s =
    elim (Bool-cases (aborted 0 && aborted 1 && aborted 2)) [
      | inl h ↦ rw (reserve_retries aborted normal_form p now s, h) refl
      | inr h ↦
          rw (reserve_retries aborted normal_form p now s, h)
            (reserve_redemption-Unchanged (record p { code = normal_form p.code }) now s)
    ]

found_code :
    (code : ℕ) (s : Store) (c : Coupon)
    → IsValid s
    → find_by_code code s ≡ some c
    → s.coupon c.id ≡ some c
unfolding find_by_code
found_code code s c v e = elim (Option-cases (s.id_of_code code)) [
  | inl h ↦ absurd (ground (arith, h))
  | inr (id, h) ↦
      let row : s.coupon id ≡ some c = ground (arith, h) in
      subst (λ k. s.coupon k ≡ some c) (sym (v.coupons id c row).keyed) row
]

-- The two stores agree on redemptions and coupons.
abbrev pub SameLedger : Store → Store → Type 0
SameLedger s t = (t.redemptions ≡ s.redemptions) × ((j : ℕ) → t.coupon j ≡ s.coupon j)

undone :
    {c seen : Coupon} (id : ℕ) (s t : Store)
    → c ≡ seen
    → let (r, u) = release_redemption seen.id id t in
      (r ≡ ok tt) × (u.redemptions ≡ s.redemptions) × ((j : ℕ) → u.coupon j ≡ s.coupon j)
      → let (r, u) = release_redemption c.id id t in (r ≡ ok tt) × SameLedger s u
undone id s t same (a, b, d) = rw same (a, (b, d))

reserved-release :
    (p : ReserveParams) (now : ℕ) (s t : Store) (c : Coupon) (id : ℕ)
    → IsValid s
    → reserve_redemption p now s ≡ (ok (c, id), t)
    → let (r, u) = release_redemption c.id id t in (r ≡ ok tt) × SameLedger s u
unfolding reserve_redemption
reserved-release p now s t c id v run = elim (Option-cases (find_by_code p.code s)) [
  | inl e ↦ absurd (ground (arith, e))
  | inr (seen, e) ↦
      let row = found_code p.code s seen v e in
      let done : reserve_seen seen p now s ≡ (ok (c, id), t) = ground (arith, e) in
      elim (reserve_seen_cases seen seen p now s row) [
        | inl failed ↦ absurd (ground (arith, failed))
        | inr (el, room, made) ↦
            let same : c ≡ seen = ground (arith, made) in
            undone id s t same (release-reserve seen seen p now s t id v row (rw same at done))
      ]
]

-- A reservation that succeeds is undone by its release.
pub reserve-release :
    (aborted : ℕ → Bool) (normal_form : ℕ → ℕ) (p : ReserveParams) (now : ℕ) (s t : Store)
    (c : Coupon) (id : ℕ)
    → IsValid s
    → reserve_with_retries aborted normal_form p now s ≡ (ok (c, id), t)
    → let (r, u) = release_redemption c.id id t in (r ≡ ok tt) × SameLedger s u
reserve-release aborted normal_form p now s t c id v run =
    elim (Bool-cases (aborted 0 && aborted 1 && aborted 2)) [
      | inl h ↦ absurd (ground (arith, reserve_retries aborted normal_form p now s, h))
      | inr h ↦
          reserved-release (record p { code = normal_form p.code }) now s t c id v
            (ground (arith, reserve_retries aborted normal_form p now s, h))
    ]
