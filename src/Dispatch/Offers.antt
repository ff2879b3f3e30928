-- ===== src/Dispatch/Offers.antt =====
-- What assignOrder offers, and that it offers something.
use patheya_express_platform.Common.{
  ℕ, suc, ◌≡◌, ◌⊎◌, inl, inr, refl, sym, ◌∙◌, true, false, Option, none, some, List, [], ◌∷◌, ◌++◌,
  arith, filter, find, any, All, find-any, Option-cases, Bool-cases, ◌==◌,
}
use patheya_express_platform.Schema.{order_status_eq}
use patheya_express_platform.Dispatch.{
  Store, DeliveryAssignment, DeliveryPartner, DispatchOrder, AssignmentParams, created, create_for,
  new_assignment, find_active_assignment_for_order, create_assignment_for_order, is_active_for,
}
use patheya_express_platform.Dispatch.Search.{
  Config, Surroundings, available, is_candidate, within_tier, derived_cycle, current_cycle,
}
use patheya_express_platform.Dispatch.Assign.{
  Outcome, offered, skipped, must_skip, candidates, partners_of, offer, offer_params, offer_outcome,
  search_cycle, assign_order, exhausted,
}
use patheya_express_platform.Dispatch.Chosen.{
  select-All, filter-All, filter-All-from, select_some, select_none, search_tiers_cases,
}

abbrev pub with_offer : AssignmentParams → Store → Store
with_offer q s = record s {
  assignments = new_assignment s.next_id q ∷ s.assignments;
  next_id = suc s.next_id;
}

-- The call reaches the search just when nothing stops it.
pub assign_cases :
    (c : Config) (w : Surroundings) (id : ℕ) (forced : Option ℕ) (now : ℕ) (s : Store)
    → (assign_order c w id forced now s ≡ (skipped, s))
      ⊎ ((a : DeliveryAssignment) × (assign_order c w id forced now s
            ≡ (Outcome.already_active a, s)))
      ⊎ ((o : DispatchOrder) × (find (λ o. o.id == id) s.orders ≡ some o)
          × (must_skip w o ≡ false)
          × (find_active_assignment_for_order id s ≡ none)
          × (assign_order c w id forced now s
              ≡ search_cycle c w id (current_cycle forced (derived_cycle id s.assignments)) now s))
unfolding assign_order
assign_cases c w id forced now s = elim (Option-cases (find (λ o. o.id == id) s.orders)) [
  | inl e ↦ inl (rw (e, assign_order) refl)
  | inr (o, e) ↦ elim (Bool-cases (must_skip w o)) [
    | inl k ↦ inl (rw (e, assign_order, k) refl)
    | inr k ↦ elim (Option-cases (find_active_assignment_for_order id s)) [
      | inl f ↦ inr (inr (o, e, k, f, rw (e, assign_order, k, f) refl))
      | inr (a, f) ↦ inr (inl (a, rw (e, assign_order, k, f) refl))
    ]
  ]
]

create_for_cases :
    (o : DispatchOrder) (q : AssignmentParams) (s : Store)
    → (offer_outcome (create_for o q s) ≡ (skipped, s))
      ⊎ (create_for o q s ≡ (created (new_assignment s.next_id q), with_offer q s))
unfolding create_for
create_for_cases o q s = ground arith

pub offer_cases :
    (id cycle now : ℕ) (p : DeliveryPartner) (s : Store)
    → let q = offer_params id cycle now p in
      (offer id cycle now p s ≡ (skipped, s))
      ⊎ (offer id cycle now p s ≡ (offered (new_assignment s.next_id q), with_offer q s))
unfolding offer create_assignment_for_order
offer_cases id cycle now p s = elim (Option-cases (find (λ o. o.id == id) s.orders)) [
  | inl e ↦ inl (rw (e, create_assignment_for_order) refl)
  | inr (o, e) ↦ elim (create_for_cases o (offer_params id cycle now p) s) [
    | inl k ↦ inl (rw (e, create_assignment_for_order) k)
    | inr k ↦ inr (rw (e, create_assignment_for_order, k) refl)
  ]
]

-- A partner to whom the order may be offered in a cycle.
pub record IsEligible (w : Surroundings) (id cycle : ℕ) (s : Store) (p : DeliveryPartner)
    : Type 0 where
  pub free : available p ≡ true
  pub candidate : is_candidate w id cycle s.assignments p ≡ true

candidates-IsEligible :
    (w : Surroundings) (id cycle : ℕ) (s : Store)
    → All (IsEligible w id cycle s) (candidates w id cycle s)
candidates-IsEligible w id cycle s =
    filter-All-from (IsEligible w id cycle s) (λ p. available p ≡ true)
      (is_candidate w id cycle s.assignments) (partners_of s)
      (λ p free candidate. record { free = free; candidate = candidate })
      (filter-All (λ p. available p ≡ true) available s.partners (λ p e. e))

abbrev IsInTier : Surroundings → ℕ → ℕ → ℕ → Store → DeliveryPartner → Type 0
IsInTier w id cycle tier s p = IsEligible w id cycle s p × (within_tier w tier p ≡ true)

tier-IsInTier :
    (w : Surroundings) (id cycle tier : ℕ) (s : Store)
    → All (IsInTier w id cycle tier s) (filter (within_tier w tier) (candidates w id cycle s))
tier-IsInTier w id cycle tier s =
    filter-All-from (IsInTier w id cycle tier s) (IsEligible w id cycle s) (within_tier w tier)
      (candidates w id cycle s) (λ p e t. (e, t)) (candidates-IsEligible w id cycle s)

-- Nobody who may be asked is within any of the tiers.
abbrev pub NobodyWithin : Surroundings → ℕ → ℕ → Store → List ℕ → Type 0
NobodyWithin w id cycle s tiers =
    All (λ t. filter (within_tier w t) (candidates w id cycle s) ≡ []) tiers

-- The two ways that a search goes.
pub search_cases :
    (c : Config) (w : Surroundings) (id cycle now : ℕ) (s : Store)
    → (NobodyWithin w id cycle s c.radius_tiers_meters
        × (search_cycle c w id cycle now s ≡ (exhausted c cycle s, s)))
      ⊎ ((p : DeliveryPartner) × (narrower : List ℕ) × (tier : ℕ) × (wider : List ℕ)
          × (c.radius_tiers_meters ≡ narrower ++ tier ∷ wider)
          × NobodyWithin w id cycle s narrower
          × IsInTier w id cycle tier s p
          × (search_cycle c w id cycle now s ≡ offer id cycle now p s))
unfolding search_cycle
search_cases c w id cycle now s =
    elim (search_tiers_cases w (candidates w id cycle s) c.radius_tiers_meters) [
      | inl (h, e) ↦ inl (h, rw (e, select_none w cycle) refl)
      | inr (narrower, tier, wider, split, h, q, qs, f, e) ↦
          let (p, chosen) = select_some w q qs cycle in
          let all = tier-IsInTier w id cycle tier s in
          inr (
            p,
            narrower,
            tier,
            wider,
            split,
            h,
            select-All (IsInTier w id cycle tier s) w (q ∷ qs) cycle p (rw f at all) chosen,
            rw (e, f, chosen) refl,
          )
    ]

-- An order is offered only to a partner who is verified and available, who is online, who has no
-- assignment under way, and to whom it has not been offered in this cycle. He is within a tier of
-- the pickup location such that nobody who could be asked is within a narrower one.
pub offered_partner :
    (c : Config) (w : Surroundings) (id : ℕ) (forced : Option ℕ) (now : ℕ) (s t : Store)
    (a : DeliveryAssignment)
    → assign_order c w id forced now s ≡ (offered a, t)
    → (p : DeliveryPartner) × (narrower : List ℕ) × (tier : ℕ) × (wider : List ℕ) × (a.order_id
        ≡ id)
      × (a.delivery_partner_id ≡ p.id)
      × (c.radius_tiers_meters ≡ narrower ++ tier ∷ wider)
      × NobodyWithin w id a.cycle s narrower
      × IsEligible w id a.cycle s p
      × (within_tier w tier p ≡ true)
offered_partner c w id forced now s t a run = elim (assign_cases c w id forced now s) [
  | inl e ↦ absurd (ground arith)
  | inr (inl (b, e)) ↦ absurd (ground arith)
  | inr (inr (o, found, k, f, e)) ↦
      let cycle = current_cycle forced (derived_cycle id s.assignments) in
      elim (search_cases c w id cycle now s) [
        | inl (h, g) ↦ absurd (ground (arith, sym run ∙ e ∙ g))
        | inr (p, narrower, tier, wider, split, h, (i, r), g) ↦
            elim (offer_cases id cycle now p s) [
              | inl l ↦ absurd (ground (arith, sym run ∙ e ∙ g ∙ l))
              | inr l ↦
                  let to : a ≡ new_assignment s.next_id (offer_params id cycle now p) =
                    ground (arith, sym run ∙ e ∙ g ∙ l) in
                  rw to (p, narrower, tier, wider, refl, refl, split, h, i, r)
            ]
      ]
]

none_active :
    (id : ℕ) (s : Store)
    → find_active_assignment_for_order id s ≡ none
    → any (is_active_for id) s.assignments ≡ false
unfolding find_active_assignment_for_order
none_active id s h = find-any (is_active_for id) s.assignments h

offer_succeeds :
    (w : Surroundings) (id cycle now : ℕ) (p : DeliveryPartner) (s : Store) (o : DispatchOrder)
    → find (λ o. o.id == id) s.orders ≡ some o
    → must_skip w o ≡ false
    → any (is_active_for id) s.assignments ≡ false
    → (a : DeliveryAssignment) × (t : Store) × (offer id cycle now p s ≡ (offered a, t))
unfolding offer create_assignment_for_order create_for
offer_succeeds w id cycle now p s o e k f =
    let q = offer_params id cycle now p in
    (
      new_assignment s.next_id q,
      with_offer q s,
      rw (e, create_assignment_for_order) (ground (arith, k, f)),
    )

-- An order that waits for a partner gets an offer at once if anybody who may be asked is within any
-- of the tiers.
pub offer_made :
    (c : Config) (w : Surroundings) (id : ℕ) (forced : Option ℕ) (now : ℕ) (s : Store)
    (o : DispatchOrder)
    → find (λ o. o.id == id) s.orders ≡ some o
    → must_skip w o ≡ false
    → find_active_assignment_for_order id s ≡ none
    → ¬ (
        NobodyWithin w id
          (current_cycle forced (derived_cycle id s.assignments))
          s
          c.radius_tiers_meters)
    → (a : DeliveryAssignment) × (t : Store) × (assign_order c w id forced now s ≡ (offered a, t))
unfolding assign_order
offer_made c w id forced now s o e k f somebody =
    let cycle = current_cycle forced (derived_cycle id s.assignments) in
    elim (search_cases c w id cycle now s) [
      | inl (h, g) ↦ absurd (somebody h)
      | inr (p, narrower, tier, wider, split, h, i, g) ↦
          let (a, t, made) = offer_succeeds w id cycle now p s o e k (none_active id s f) in
          (a, t, rw (e, assign_order, k, f) (g ∙ made))
    ]

-- A call of assignOrder leaves the store, or creates one assignment.
pub assign_rows :
    (c : Config) (w : Surroundings) (id : ℕ) (forced : Option ℕ) (now : ℕ) (s : Store)
    → ((assign_order c w id forced now s).1 ≡ s)
      ⊎ ((q : AssignmentParams) × ((assign_order c w id forced now s).1
            ≡ (create_assignment_for_order q s).1))
unfolding offer
assign_rows c w id forced now s = elim (assign_cases c w id forced now s) [
  | inl e ↦ inl (rw e refl)
  | inr (inl (b, e)) ↦ inl (rw e refl)
  | inr (inr (o, found, k, f, e)) ↦
      let cycle = current_cycle forced (derived_cycle id s.assignments) in
      elim (search_cases c w id cycle now s) [
        | inl (h, g) ↦ inl (rw (e, g) refl)
        | inr (p, narrower, tier, wider, split, h, i, g) ↦
            inr (offer_params id cycle now p, rw (e, g) refl)
      ]
]
