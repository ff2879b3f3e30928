-- ===== src/Dispatch/Priority.antt =====
-- The choice among the partners in range: selectPartnerByPriority of services/dispatch.service.ts.
use Prim.Native.Nat.{compare, Ordering}
use patheya_express_platform.Common.{
  ℕ, zero, suc, ◌-◌, ◌%◌, Option, none, some, List, [], ◌∷◌, ◌++◌, map, ltb, length, if◌then◌else◌,
}
use patheya_express_platform.Dispatch.{DeliveryPartner}
use patheya_express_platform.Dispatch.Search.{Surroundings, partner_distance}

-- A partner with its two criteria. None is Infinity: the distance of a position that is not known,
-- and the idle time of a partner with no assignment so far. The idle time of the others is what has
-- passed since their last one, so that a longer idle time is an earlier last activity.
pub record Scored : Type 0 where
  pub partner : DeliveryPartner
  pub distance : Option ℕ
  pub last_activity : Option ℕ

abbrev pub score : Surroundings → DeliveryPartner → Scored
score w p = record {
  partner = p;
  distance = partner_distance w p;
  last_activity = w.last_activity p.id;
}

-- Longest idle first.
unfoldable pub compare_idle : Option ℕ → Option ℕ → Ordering
compare_idle none none = Ordering.eq
compare_idle none (some b) = Ordering.lt
compare_idle (some a) none = Ordering.gt
compare_idle (some a) (some b) = compare a b

-- Nearest first.
unfoldable pub compare_distance : Option ℕ → Option ℕ → Ordering
compare_distance none none = Ordering.eq
compare_distance none (some b) = Ordering.gt
compare_distance (some a) none = Ordering.lt
compare_distance (some a) (some b) = compare a b

abbrev pub then_compare : Ordering → Ordering → Ordering
then_compare Ordering.lt next = Ordering.lt
then_compare Ordering.gt next = Ordering.gt
then_compare Ordering.eq next = next

-- The comparator of the sort: idle time, distance, and the id as the last tiebreaker.
unfoldable pub compare_scored : Scored → Scored → Ordering
compare_scored a b =
    then_compare (compare_idle a.last_activity b.last_activity)
      (then_compare (compare_distance a.distance b.distance) (compare a.partner.id b.partner.id))

-- `Array.sort`, which is stable.
unfoldable pub insert : Scored → List Scored → List Scored
insert x [] = x ∷ []
insert x (y ∷ ys) =
    let rest = insert x ys in elim (compare_scored x y) [ Ordering.gt ↦ y ∷ rest | _ ↦ x ∷ y ∷ ys ]

unfoldable pub sort : List Scored → List Scored
unfolding insert
sort [] = []
sort (x ∷ xs) = insert x (sort xs)

-- `slice`
abbrev pub drop : ℕ → List Scored → List Scored
drop zero xs = xs
drop (suc n) [] = []
drop (suc n) (x ∷ xs) = drop n xs

abbrev pub take : ℕ → List Scored → List Scored
take zero xs = []
take (suc n) [] = []
take (suc n) (x ∷ xs) = x ∷ take n xs

abbrev pub rotated : ℕ → List Scored → List Scored
rotated offset xs = if ltb 0 offset then drop offset xs ++ take offset xs else xs

abbrev pub first_partner : List Scored → Option DeliveryPartner
first_partner [] = none
first_partner (x ∷ xs) = some x.partner

-- `selectPartnerByPriority`; it is called with a list that is not empty.
unfoldable pub select_partner_by_priority :
    Surroundings → List DeliveryPartner → ℕ → Option DeliveryPartner
unfolding sort
select_partner_by_priority w [] cycle = none
select_partner_by_priority w (p ∷ []) cycle = some p
select_partner_by_priority w (p ∷ q ∷ ps) cycle =
    let scored = sort (map (score w) (p ∷ q ∷ ps)) in
    first_partner (rotated ((cycle - 1) % length scored) scored)
