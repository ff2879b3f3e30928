-- ===== src/Coupons/Ledger.antt =====
-- The rows of `coupon_redemptions`: fresh ids, and how often a test holds after each write.
use patheya_express_platform.Common.{
  ℕ, ◌+◌, ◌≤◌, ◌<◌, ◌≡◌, ◌≢◌, refl, Bool, true, false, not, ◌&&◌, List, [], ◌∷◌, some, arith,
  if◌then◌else◌, find, filter, count, any,
}
use native.Mathlib.Decide.{ℕ_discrete}
use patheya_express_platform.Coupons.{CouponRedemption, of_order, by_id, finalize_rows}

-- Ids fall along the list, newest first, and stay under the bound: a primary key.
abbrev pub Below : ℕ → List CouponRedemption → Type 0
Below n [] = Unit {0}
Below n (r ∷ rs) = (r.id < n) × Below r.id rs

abbrev pub drop_row : ℕ → List CouponRedemption → List CouponRedemption
drop_row id = filter (λ r. not (by_id id r))

pub Below-mono : {m n : ℕ} (rs : List CouponRedemption) → m ≤ n → Below m rs → Below n rs
Below-mono [] h b = tt
Below-mono (r ∷ rs) h b = (omega arith, b.1)

pub drop_row-Below : (id n : ℕ) (rs : List CouponRedemption) → Below n rs → Below n (drop_row id rs)
drop_row-Below id n [] b = tt
drop_row-Below id n (r ∷ rs) b =
    ground (arith, drop_row-Below id r.id rs b.1, Below-mono {m = r.id} {n = n} (drop_row id rs))

pub finalize_rows-Below :
    (id o d n : ℕ) (rs : List CouponRedemption) → Below n rs → Below n (finalize_rows id o d rs)
unfolding finalize_rows
finalize_rows-Below id o d n [] b = tt
finalize_rows-Below id o d n (r ∷ rs) b = ground (arith, finalize_rows-Below id o d r.id rs b.1)

pub drop_row_above :
    (id n : ℕ) (rs : List CouponRedemption) → Below n rs → n ≤ id → drop_row id rs ≡ rs
drop_row_above id n [] b h = refl
drop_row_above id n (r ∷ rs) b h = ground (arith, drop_row_above id r.id rs b.1)

pub any_above :
    (id n : ℕ) (rs : List CouponRedemption) → Below n rs → n ≤ id → any (by_id id) rs ≡ false
any_above id n [] b h = refl
any_above id n (r ∷ rs) b h = ground (arith, any_above id r.id rs b.1)

-- After a deletion the count falls by the deleted row's share.
pub count-drop_row :
    (q : CouponRedemption → Bool) (id n : ℕ) (x : CouponRedemption) (rs : List CouponRedemption)
    → Below n rs
    → find (by_id id) rs ≡ some x
    → count q rs ≡ count q (drop_row id rs) + (if q x then 1 else 0)
count-drop_row q id n x [] b h = cc
count-drop_row q id n x (r ∷ rs) b h =
    ground (arith, drop_row_above id r.id rs b.1, count-drop_row q id r.id x rs b.1)

-- A row that any test finds is the one found by its id.
pub find-by_id :
    (q : CouponRedemption → Bool) (n : ℕ) (x : CouponRedemption) (rs : List CouponRedemption)
    → Below n rs
    → find q rs ≡ some x
    → (x.id < n) × (find (by_id x.id) rs ≡ some x)
find-by_id q n x [] b h = cc
find-by_id q n x (r ∷ rs) b h = ground (arith, find-by_id q r.id x rs b.1)

pub find-any :
    (q : CouponRedemption → Bool) (x : CouponRedemption) (rs : List CouponRedemption)
    → find q rs ≡ some x
    → any q rs ≡ true
find-any q x [] h = cc
find-any q x (r ∷ rs) h = ground (arith, find-any q x rs)

-- Linking a row to its order changes neither its coupon nor its user.
pub count-finalize_rows :
    (q : CouponRedemption → Bool) (id o d : ℕ) (rs : List CouponRedemption)
    → ((r : CouponRedemption) → q (record r { order_id = some o; discount_amount = d }) ≡ q r)
    → count q (finalize_rows id o d rs) ≡ count q rs
unfolding finalize_rows
count-finalize_rows q id o d [] h = refl
count-finalize_rows q id o d (r ∷ rs) h = ground (arith, h r, count-finalize_rows q id o d rs h)

finalize_rows_above :
    (id o d n : ℕ) (rs : List CouponRedemption) → Below n rs → n ≤ id → finalize_rows id o d rs ≡ rs
unfolding finalize_rows
finalize_rows_above id o d n [] b h = refl
finalize_rows_above id o d n (r ∷ rs) b h = ground (arith, finalize_rows_above id o d r.id rs b.1)

-- No row but the one with this id belongs to the order.
abbrev pub taken_by_other : ℕ → ℕ → List CouponRedemption → Bool
taken_by_other id o = any (λ r. of_order o r && not (by_id id r))

count_free :
    (id o n : ℕ) (rs : List CouponRedemption)
    → Below n rs
    → n ≤ id
    → taken_by_other id o rs ≡ false
    → count (of_order o) rs ≡ 0
count_free id o n [] b h f = refl
count_free id o n (r ∷ rs) b h f = ground (arith, count_free id o r.id rs b.1)

count-finalize_own :
    (id o d n : ℕ) (rs : List CouponRedemption)
    → Below n rs
    → taken_by_other id o rs ≡ false
    → count (of_order o) (finalize_rows id o d rs) ≤ 1
unfolding finalize_rows
count-finalize_own id o d n [] b f = omega arith
count-finalize_own id o d n (r ∷ rs) b f = ground (
  arith,
  finalize_rows_above id o d r.id rs b.1,
  count_free id o r.id rs b.1,
  count-finalize_own id o d r.id rs b.1,
)

count-finalize_ne :
    (id o d k : ℕ) (rs : List CouponRedemption)
    → k ≢ o
    → count (of_order k) (finalize_rows id o d rs) ≤ count (of_order k) rs
unfolding finalize_rows
count-finalize_ne id o d k [] ne = omega arith
count-finalize_ne id o d k (r ∷ rs) ne = ground (arith, count-finalize_ne id o d k rs ne)

-- A row that is linked to a free order leaves every order with one row at most.
pub count-finalize_order :
    (id o d k n : ℕ) (rs : List CouponRedemption)
    → Below n rs
    → taken_by_other id o rs ≡ false
    → count (of_order k) rs ≤ 1
    → count (of_order k) (finalize_rows id o d rs) ≤ 1
count-finalize_order id o d k n rs b f h = elim (ℕ_discrete k o) [
  | yes same ↦ rw same (count-finalize_own id o d n rs b f)
  | no ne ↦ omega (arith, count-finalize_ne id o d k rs ne)
]
