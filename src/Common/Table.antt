-- ===== src/Common/Table.antt =====
-- A table as the list of its rows, newest first: what a `where` clause finds and what an
-- `updateMany` leaves. Rows carry a key, the primary key, which falls along the list.
use Prim.Native.Nat.{ℕ, ◌+◌, ◌≤◌, ◌<◌}
use mathlib.Core.Path.{◌≡◌, refl}
use mathlib.Core.Logic.{inl, inr}
use mathlib.Core.Bool.{Bool, true, false, ◌&&◌}
use mathlib.Core.List.{List, [], ◌∷◌}
use mathlib.Core.Option.{Option, none, some}
use native.Mathlib.Omega.{arith}
use patheya_express_platform.Common.Tests.{if◌then◌else◌, ◌==◌, Bool-cases}
use patheya_express_platform.Common.Lists.{find, count, All}

module _ {ℓ} {A : Type ℓ} where
  -- `updateMany({ where: q, data })`
  abbrev pub update_where : (A → Bool) → (A → A) → List A → List A
  update_where q f [] = []
  update_where q f (x ∷ xs) = (if q x then f x else x) ∷ update_where q f xs

  abbrev pub map_found : (A → Bool) → (A → A) → Option A → Option A
  map_found q f none = none
  map_found q f (some x) = some (if q x then f x else x)

  pub find-update_where :
      (p q : A → Bool) (f : A → A) (xs : List A)
      → ((x : A) → p (f x) ≡ p x)
      → find p (update_where q f xs) ≡ map_found q f (find p xs)
  find-update_where p q f [] h = refl
  find-update_where p q f (x ∷ xs) h = ground (arith, h x, find-update_where p q f xs h)

  pub count-update_where :
      (p q : A → Bool) (f : A → A) (xs : List A)
      → ((x : A) → p (f x) ≡ p x)
      → count p (update_where q f xs) ≡ count p xs
  count-update_where p q f [] h = refl
  count-update_where p q f (x ∷ xs) h = ground (arith, h x, count-update_where p q f xs h)

  -- A second update is void where the first leaves no row that it selects.
  pub update_where_again :
      (q : A → Bool) (f g : A → A) (xs : List A)
      → ((x : A) → q x ≡ true → q (f x) ≡ false)
      → update_where q g (update_where q f xs) ≡ update_where q f xs
  update_where_again q f g [] h = refl
  update_where_again q f g (x ∷ xs) h = ground (arith, h x, update_where_again q f g xs h)

  pub All-update_where {κ} :
      (P : A → Type κ) (q : A → Bool) (f : A → A) (xs : List A)
      → ((x : A) → P x → P (f x))
      → All P xs
      → All P (update_where q f xs)
  All-update_where P q f [] keeps h = tt
  All-update_where P q f (x ∷ xs) keeps h = elim (Bool-cases (q x)) [
    | inl hit ↦ rw hit (keeps x h.0, All-update_where P q f xs keeps h.1)
    | inr miss ↦ rw miss (h.0, All-update_where P q f xs keeps h.1)
  ]

  pub find-count : (q : A → Bool) (xs : List A) → count q xs ≡ 0 → find q xs ≡ none
  find-count q [] h = refl
  find-count q (x ∷ xs) h = ground (arith, find-count q xs)

  pub find_holds : (q : A → Bool) (x : A) (xs : List A) → find q xs ≡ some x → q x ≡ true
  find_holds q x [] h = cc
  find_holds q x (y ∷ xs) h = ground (arith, find_holds q x xs)

module _ {ℓ} {A : Type ℓ} (key : A → ℕ) where
  abbrev pub IsKeyed : ℕ → List A → Type 0
  IsKeyed n [] = Unit {0}
  IsKeyed n (x ∷ xs) = (key x < n) × IsKeyed (key x) xs

  abbrev pub has_key : ℕ → A → Bool
  has_key k x = key x == k

  pub IsKeyed-update_where :
      (q : A → Bool) (f : A → A) (n : ℕ) (xs : List A)
      → ((x : A) → key (f x) ≡ key x)
      → IsKeyed n xs
      → IsKeyed n (update_where q f xs)
  IsKeyed-update_where q f n [] h b = tt
  IsKeyed-update_where q f n (x ∷ xs) h b =
      ground (arith, h x, IsKeyed-update_where q f (key x) xs h b.1)

  pub find_above : (k n : ℕ) (xs : List A) → IsKeyed n xs → n ≤ k → find (has_key k) xs ≡ none
  find_above k n [] b h = refl
  find_above k n (x ∷ xs) b h = ground (arith, find_above k (key x) xs b.1)

  count_above :
      (q : A → Bool) (k n : ℕ) (xs : List A)
      → IsKeyed n xs
      → n ≤ k
      → count (λ x. has_key k x && q x) xs ≡ 0
  count_above q k n [] b h = refl
  count_above q k n (x ∷ xs) b h = ground (arith, count_above q k (key x) xs b.1)

  abbrev pub one_if : (A → Bool) → Option A → ℕ
  one_if q none = 0
  one_if q (some x) = if q x then 1 else 0

  -- A claim on one row by its key affects one row or none, as the row stands.
  pub count-claim :
      (q : A → Bool) (k n : ℕ) (xs : List A)
      → IsKeyed n xs
      → count (λ x. has_key k x && q x) xs ≡ one_if q (find (has_key k) xs)
  count-claim q k n [] b = refl
  count-claim q k n (x ∷ xs) b =
      ground (arith, count_above q k (key x) xs b.1, count-claim q k (key x) xs b.1)

module _ {ℓ} {A : Type ℓ} where
  pub update_where_none :
      (q : A → Bool) (f : A → A) (xs : List A) → count q xs ≡ 0 → update_where q f xs ≡ xs
  update_where_none q f [] h = refl
  update_where_none q f (x ∷ xs) h = ground (arith, update_where_none q f xs)

module _ {ℓ} {A : Type ℓ} (key : A → ℕ) where
  update_above :
      (g : A → Bool) (f : A → A) (k n : ℕ) (xs : List A)
      → IsKeyed key n xs
      → n ≤ k
      → update_where (λ y. has_key key k y && g y) f xs ≡ xs
  update_above g f k n [] b h = refl
  update_above g f k n (x ∷ xs) b h = ground (arith, update_above g f k (key x) xs b.1)

  -- A claim that moves the row of key `k` exchanges its share of a count for its new one.
  pub count-update_one :
      (q g : A → Bool) (f : A → A) (k n : ℕ) (x : A) (xs : List A)
      → IsKeyed key n xs
      → find (has_key key k) xs ≡ some x
      → g x ≡ true
      → count q (update_where (λ y. has_key key k y && g y) f xs) + (if q x then 1 else 0)
        ≡ count q xs + (if q (f x) then 1 else 0)
  count-update_one q g f k n x [] b e h = cc
  count-update_one q g f k n x (y ∷ xs) b e h =
      ground (arith, update_above g f k (key y) xs b.1, count-update_one q g f k (key y) x xs b.1)
