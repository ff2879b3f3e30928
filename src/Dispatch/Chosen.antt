-- ===== src/Dispatch/Chosen.antt =====
-- The partner that is chosen is one of those in range, and one is chosen if there is any.
use patheya_express_platform.Common.{
  ℕ, zero, suc, ◌-◌, ◌%◌, ◌<◌, ◌≡◌, ◌⊎◌, inl, inr, refl, ap, ◌∙◌, Bool, true, none, some, List, [],
  ◌∷◌, ◌++◌, map, filter, length, arith, All, List-cases,
}
use patheya_express_platform.Dispatch.{DeliveryPartner}
use patheya_express_platform.Dispatch.Search.{Surroundings, within_tier, search_tiers}
use patheya_express_platform.Dispatch.Priority.{
  Scored, score, insert, sort, drop, take, rotated, first_partner, select_partner_by_priority,
}

module _ (P : DeliveryPartner → Type 0) where
  abbrev Of : Scored → Type 0
  Of x = P x.partner

  insert-All : (x : Scored) (xs : List Scored) → P x.partner → All Of xs → All Of (insert x xs)
  unfolding insert
  insert-All x [] p h = (p, tt)
  insert-All x (y ∷ ys) p h = ground (arith, insert-All x ys p h.1)

  sort-All : (xs : List Scored) → All Of xs → All Of (sort xs)
  unfolding sort
  sort-All [] h = tt
  sort-All (x ∷ xs) h = insert-All x (sort xs) h.0 (sort-All xs h.1)

  map-All : (w : Surroundings) (ps : List DeliveryPartner) → All P ps → All Of (map (score w) ps)
  map-All w [] h = tt
  map-All w (p ∷ ps) h = (h.0, map-All w ps h.1)

  append-All : (xs ys : List Scored) → All Of xs → All Of ys → All Of (xs ++ ys)
  append-All [] ys h k = k
  append-All (x ∷ xs) ys h k = (h.0, append-All xs ys h.1 k)

  drop-All : (n : ℕ) (xs : List Scored) → All Of xs → All Of (drop n xs)
  drop-All zero xs h = h
  drop-All (suc n) [] h = tt
  drop-All (suc n) (x ∷ xs) h = drop-All n xs h.1

  take-All : (n : ℕ) (xs : List Scored) → All Of xs → All Of (take n xs)
  take-All zero xs h = tt
  take-All (suc n) [] h = tt
  take-All (suc n) (x ∷ xs) h = (h.0, take-All n xs h.1)

  rotated-All : (n : ℕ) (xs : List Scored) → All Of xs → All Of (rotated n xs)
  rotated-All zero xs h = h
  rotated-All (suc n) xs h = ground (
    arith,
    append-All (drop (suc n) xs) (take (suc n) xs) (drop-All (suc n) xs h) (take-All (suc n) xs h),
  )

  first-All : (xs : List Scored) (p : DeliveryPartner) → All Of xs → first_partner xs ≡ some p → P p
  first-All [] p h e = cc
  first-All (x ∷ xs) p h e = let same : x.partner ≡ p = ground arith in rw (← same) h.0

  pub select-All :
      (w : Surroundings) (ps : List DeliveryPartner) (cycle : ℕ) (p : DeliveryPartner)
      → All P ps
      → select_partner_by_priority w ps cycle ≡ some p
      → P p
  unfolding select_partner_by_priority
  select-All w [] cycle p h e = cc
  select-All w (q ∷ []) cycle p h e = let same : q ≡ p = ground arith in rw (← same) h.0
  select-All w (q ∷ r ∷ ps) cycle p h e =
      let scored = sort (map (score w) (q ∷ r ∷ ps)) in
      first-All (rotated ((cycle - 1) % length scored) scored) p
        (rotated-All ((cycle - 1) % length scored) scored
          (sort-All (map (score w) (q ∷ r ∷ ps)) (map-All w (q ∷ r ∷ ps) h)))
        e

  pub filter-All :
      (q : DeliveryPartner → Bool) (ps : List DeliveryPartner)
      → ((p : DeliveryPartner) → q p ≡ true → P p)
      → All P (filter q ps)
  filter-All q [] h = tt
  filter-All q (p ∷ ps) h = ground (arith, h p, filter-All q ps h)

  pub filter-All-from :
      (Q : DeliveryPartner → Type 0) (q : DeliveryPartner → Bool) (ps : List DeliveryPartner)
      → ((p : DeliveryPartner) → Q p → q p ≡ true → P p)
      → All Q ps
      → All P (filter q ps)
  filter-All-from Q q [] h k = tt
  filter-All-from Q q (p ∷ ps) h k = ground (arith, h p k.0, filter-All-from Q q ps h k.1)

length-insert : (x : Scored) (xs : List Scored) → length (insert x xs) ≡ suc (length xs)
unfolding insert
length-insert x [] = refl
length-insert x (y ∷ ys) = ground (arith, length-insert x ys)

length-sort-map :
    (w : Surroundings) (ps : List DeliveryPartner) → length (sort (map (score w) ps)) ≡ length ps
unfolding sort
length-sort-map w [] = refl
length-sort-map w (p ∷ ps) =
    length-insert (score w p) (sort (map (score w) ps)) ∙ ap suc (length-sort-map w ps)

first_dropped :
    (n : ℕ) (xs ys : List Scored)
    → n < length xs
    → (p : DeliveryPartner) × (first_partner (drop n xs ++ ys) ≡ some p)
first_dropped n [] ys h = absurd (omega arith)
first_dropped zero (x ∷ xs) ys h = (x.partner, refl)
first_dropped (suc n) (x ∷ xs) ys h = first_dropped n xs ys (omega arith)

first_rotated :
    (n : ℕ) (xs : List Scored)
    → n < length xs
    → (p : DeliveryPartner) × (first_partner (rotated n xs) ≡ some p)
first_rotated n [] h = absurd (omega arith)
first_rotated zero (x ∷ xs) h = (x.partner, refl)
first_rotated (suc n) (x ∷ xs) h =
    let (p, e) = first_dropped (suc n) (x ∷ xs) (take (suc n) (x ∷ xs)) h in (p, ground (arith, e))

pub select_none : (w : Surroundings) (cycle : ℕ) → select_partner_by_priority w [] cycle ≡ none
unfolding select_partner_by_priority
select_none w cycle = refl

pub select_some :
    (w : Surroundings) (q : DeliveryPartner) (ps : List DeliveryPartner) (cycle : ℕ)
    → (p : DeliveryPartner) × (select_partner_by_priority w (q ∷ ps) cycle ≡ some p)
unfolding select_partner_by_priority
select_some w q [] cycle = (q, refl)
select_some w q (r ∷ ps) cycle =
    let scored = sort (map (score w) (q ∷ r ∷ ps)) in
    let full : length scored ≡ suc (suc (length ps)) = length-sort-map w (q ∷ r ∷ ps) in
    first_rotated ((cycle - 1) % length scored) scored (rw full (ground arith))

-- The loop over the tiers ends at the first tier with a partner in it, or finds none in any.
pub search_tiers_cases :
    (w : Surroundings) (cs : List DeliveryPartner) (tiers : List ℕ)
    → (All (λ t. filter (within_tier w t) cs ≡ []) tiers × (search_tiers w cs tiers ≡ []))
      ⊎ ((narrower : List ℕ) × (tier : ℕ) × (wider : List ℕ) × (tiers ≡ narrower ++ tier ∷ wider)
          × All (λ t. filter (within_tier w t) cs ≡ []) narrower
          × (p : DeliveryPartner) × (ps : List DeliveryPartner) × (filter (within_tier w tier) cs
              ≡ p ∷ ps)
          × (search_tiers w cs tiers ≡ filter (within_tier w tier) cs))
unfolding search_tiers
search_tiers_cases w cs [] = inl (tt, refl)
search_tiers_cases w cs (t ∷ ts) = elim (List-cases (filter (within_tier w t) cs)) [
  | inr (p, ps, e) ↦ inr ([], t, ts, refl, tt, p, ps, e, rw (e, search_tiers) refl)
  | inl e ↦ elim (search_tiers_cases w cs ts) [
    | inl (h, r) ↦ inl ((e, h), rw (e, search_tiers) r)
    | inr (narrower, tier, wider, split, h, p, ps, f, r) ↦
        inr (t ∷ narrower, tier, wider, ap (◌∷◌ t) split, (e, h), p, ps, f, rw (e, search_tiers) r)
  ]
]
