-- ===== src/Dispatch/Ranking.antt =====
-- The ranking of the partners does not depend on the order in which the database returns them.
use Prim.Native.Nat.{compare, Ordering}
use mathlib.Core.Logic.{∥∥₁_elim}
use mathlib.Core.Option
use mathlib.Core.List.Permᴰ
use mathlib.Core.List.{Perm, Permᴰ}
use patheya_express_platform.Common.{
  ℕ, zero, suc, ◌≡◌, refl, sym, ap, ◌∙◌, ◌-◌, ◌%◌, length, Option, none, some, List, [], ◌∷◌, map,
  arith, All,
}
use patheya_express_platform.Dispatch.{DeliveryPartner}
use patheya_express_platform.Dispatch.Search.{Surroundings}
use patheya_express_platform.Dispatch.Priority.{
  Scored, score, compare_idle, compare_distance, then_compare, compare_scored, insert, sort,
  select_partner_by_priority, rotated, first_partner,
}

abbrev flip : Ordering → Ordering
flip Ordering.lt = Ordering.gt
flip Ordering.eq = Ordering.eq
flip Ordering.gt = Ordering.lt

idle_flip : (a b : Option ℕ) → compare_idle b a ≡ flip (compare_idle a b)
unfolding compare_idle
idle_flip none none = refl
idle_flip none (some b) = refl
idle_flip (some a) none = refl
idle_flip (some a) (some b) = ground arith

distance_flip : (a b : Option ℕ) → compare_distance b a ≡ flip (compare_distance a b)
unfolding compare_distance
distance_flip none none = refl
distance_flip none (some b) = refl
distance_flip (some a) none = refl
distance_flip (some a) (some b) = ground arith

-- Composing two comparisons.
abbrev Composes : Ordering → Ordering → Ordering → Type 0
Composes Ordering.lt Ordering.lt c = c ≡ Ordering.lt
Composes Ordering.lt Ordering.eq c = c ≡ Ordering.lt
Composes Ordering.eq o c = c ≡ o
Composes Ordering.gt Ordering.eq c = c ≡ Ordering.gt
Composes Ordering.gt Ordering.gt c = c ≡ Ordering.gt
Composes Ordering.lt Ordering.gt c = Unit {0}
Composes Ordering.gt Ordering.lt c = Unit {0}

nat-Composes : (a b c : ℕ) → Composes (compare a b) (compare b c) (compare a c)
nat-Composes a b c = ground arith

idle-Composes :
    (a b c : Option ℕ) → Composes (compare_idle a b) (compare_idle b c) (compare_idle a c)
unfolding compare_idle
idle-Composes none none none = refl
idle-Composes none none (some c) = refl
idle-Composes none (some b) none = tt
idle-Composes none (some b) (some c) = ground arith
idle-Composes (some a) none none = refl
idle-Composes (some a) none (some c) = tt
idle-Composes (some a) (some b) none = ground arith
idle-Composes (some a) (some b) (some c) = nat-Composes a b c

distance-Composes :
    (a b c : Option ℕ)
    → Composes (compare_distance a b) (compare_distance b c) (compare_distance a c)
unfolding compare_distance
distance-Composes none none none = refl
distance-Composes none none (some c) = refl
distance-Composes none (some b) none = tt
distance-Composes none (some b) (some c) = ground arith
distance-Composes (some a) none none = refl
distance-Composes (some a) none (some c) = tt
distance-Composes (some a) (some b) none = ground arith
distance-Composes (some a) (some b) (some c) = nat-Composes a b c

then-Composes :
    (o p q o' p' q' : Ordering)
    → Composes o p q
    → Composes o' p' q'
    → Composes (then_compare o o') (then_compare p p') (then_compare q q')
then-Composes o p q o' p' q' h h' = ground arith

scored_flip : (a b : Scored) → compare_scored b a ≡ flip (compare_scored a b)
unfolding compare_scored
scored_flip a b =
    ground (arith, idle_flip a.last_activity b.last_activity, distance_flip a.distance b.distance)

scored-Composes :
    (a b c : Scored) → Composes (compare_scored a b) (compare_scored b c) (compare_scored a c)
unfolding compare_scored
scored-Composes a b c =
    then-Composes (compare_idle a.last_activity b.last_activity)
      (compare_idle b.last_activity c.last_activity) (compare_idle a.last_activity c.last_activity)
      (then_compare (compare_distance a.distance b.distance) (compare a.partner.id b.partner.id))
      (then_compare (compare_distance b.distance c.distance) (compare b.partner.id c.partner.id))
      (then_compare (compare_distance a.distance c.distance) (compare a.partner.id c.partner.id))
      (idle-Composes a.last_activity b.last_activity c.last_activity)
      (then-Composes (compare_distance a.distance b.distance)
        (compare_distance b.distance c.distance) (compare_distance a.distance c.distance)
        (compare a.partner.id b.partner.id) (compare b.partner.id c.partner.id)
        (compare a.partner.id c.partner.id) (distance-Composes a.distance b.distance c.distance)
        (nat-Composes a.partner.id b.partner.id c.partner.id))

scored_eq : (a b : Scored) → compare_scored a b ≡ Ordering.eq → a.partner.id ≡ b.partner.id
unfolding compare_scored
scored_eq a b h = ground arith

insert_comm :
    (x y : Scored) (zs : List Scored)
    → (x.partner.id ≡ y.partner.id → x ≡ y)
    → insert x (insert y zs) ≡ insert y (insert x zs)
unfolding insert
insert_comm x y [] same = ground (arith, scored_flip x y, scored_eq x y)
insert_comm x y (z ∷ zs) same = ground (
  arith,
  insert_comm x y zs same,
  scored_flip x y,
  scored_eq x y,
  scored-Composes x z y,
  scored-Composes y z x,
  scored_flip x z,
  scored_flip y z,
)

-- Every element of the list is the row of its id.
abbrev pub AreRows : (ℕ → Option Scored) → List Scored → Type 0
AreRows row xs = All (λ x. row x.partner.id ≡ some x) xs

same_row :
    (row : ℕ → Option Scored) (x y : Scored)
    → row x.partner.id ≡ some x
    → row y.partner.id ≡ some y
    → x.partner.id ≡ y.partner.id
    → x ≡ y
same_row row x y h k e = cc (ap row e)

AreRows-perm :
    (row : ℕ → Option Scored) {xs ys : List Scored} → Permᴰ xs ys → AreRows row xs → AreRows row ys
AreRows-perm row Permᴰ.nil h = tt
AreRows-perm row (Permᴰ.cons e p) h = (rw (← e) h.0, AreRows-perm row p h.1)
AreRows-perm row (Permᴰ.swap e f) h = (rw (← f) h.1.0, (rw (← e) h.0, h.1.1))
AreRows-perm row (Permᴰ.trans p q) h = AreRows-perm row q (AreRows-perm row p h)

sort-perm :
    (row : ℕ → Option Scored) {xs ys : List Scored}
    → Permᴰ xs ys
    → AreRows row xs
    → sort xs ≡ sort ys
unfolding sort
sort-perm row Permᴰ.nil h = refl
sort-perm row (Permᴰ.cons {a} {b} {l₁ = l} {l₂ = m} e p) h = rw (e, sort-perm row p h.1) refl
sort-perm row (Permᴰ.swap {a} {b} {a'} {b'} {l} e f) h =
    rw (← e, ← f) (insert_comm a b (sort l) (same_row row a b h.0 h.1.0))
sort-perm row (Permᴰ.trans p q) h = sort-perm row p h ∙ sort-perm row q (AreRows-perm row p h)

abbrev first_sorted : ℕ → List Scored → Option DeliveryPartner
first_sorted cycle xs = first_partner (rotated ((cycle - 1) % length xs) xs)

first_of_none : (offset : ℕ) → first_partner (rotated offset []) ≡ none
first_of_none zero = refl
first_of_none (suc n) = ground arith

select-first_of :
    (w : Surroundings) (ps : List DeliveryPartner) (cycle : ℕ)
    → select_partner_by_priority w ps cycle ≡ first_sorted cycle (sort (map (score w) ps))
unfolding select_partner_by_priority sort
select-first_of w [] cycle = sym (first_of_none ((cycle - 1) % 0))
select-first_of w (p ∷ []) cycle = ground arith
select-first_of w (p ∷ q ∷ ps) cycle = refl

AreRows-map :
    (w : Surroundings) (row : ℕ → Option DeliveryPartner) (ps : List DeliveryPartner)
    → All (λ p. row p.id ≡ some p) ps
    → AreRows (λ id. Option.map (score w) (row id)) (map (score w) ps)
AreRows-map w row [] h = tt
AreRows-map w row (p ∷ ps) h = (ap (Option.map (score w)) h.0, AreRows-map w row ps h.1)

partner-set : IsSet (Option DeliveryPartner)
partner-set = hlevel

-- The partner that is chosen does not depend on the order in which the database returns the
-- partners, since no two of them have the same id: any reordering of the list gives the same one,
-- in every cycle.
pub select_any_order :
    (w : Surroundings) (row : ℕ → Option DeliveryPartner) (cycle : ℕ) (ps qs : List DeliveryPartner)
    → Perm ps qs
    → All (λ p. row p.id ≡ some p) ps
    → select_partner_by_priority w ps cycle ≡ select_partner_by_priority w qs cycle
select_any_order w row cycle ps qs perm rows = ∥∥₁_elim perm (partner-set _ _) λ p.
    select-first_of w ps cycle
    ∙ ap (first_sorted cycle) (
        sort-perm (λ id. Option.map (score w) (row id)) (Permᴰ.map (score w) p)
          (AreRows-map w row ps rows))
    ∙ sym (select-first_of w qs cycle)
