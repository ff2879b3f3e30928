-- ===== src/Dispatch/Assign.antt =====
-- assignOrder of services/dispatch.service.ts: the checks on the order, the search, the choice, and
-- the offer or the next cycle.
use patheya_express_platform.Common.{
  ℕ, suc, ◌+◌, ◌*◌, Bool, true, false, not, ◌&&◌, Option, none, some, List, ltb, ◌==◌, is_some,
  includes, if◌then◌else◌, find, filter, length,
}
use patheya_express_platform.Schema.{order_status_eq}
use patheya_express_platform.Dispatch.{
  Store, DeliveryAssignment, DeliveryPartner, DispatchOrder, CreateAssignmentResult,
  AssignmentParams, created, find_active_assignment_for_order, create_assignment_for_order,
  dispatchable_order_statuses,
}
use patheya_express_platform.Dispatch.Search.{
  Surroundings, Branch, Config, available, below_max, derived_cycle, current_cycle, is_candidate,
  search_tiers,
}
use patheya_express_platform.Dispatch.Priority.{select_partner_by_priority}

-- What a call of assignOrder comes to: it returns null, the assignment that is there or that it has
-- made, it queues a retry with its cycle, or it throws that there are no partners.
pub data Outcome : Type 0 where
  skipped : Outcome
  already_active : DeliveryAssignment → Outcome
  retried : (next_cycle : ℕ) → Outcome
  no_partners : Outcome
  offered : DeliveryAssignment → Outcome

abbrev pub assignment_timeout : ℕ
assignment_timeout = 30 * 1000

abbrev branch_refuses : Option Branch → Bool
branch_refuses none = false
branch_refuses (some b) = not (b.is_active && b.is_open_now)

-- The early returns on the order.
abbrev pub must_skip : Surroundings → DispatchOrder → Bool
must_skip w o =
    if is_some o.delivery_partner_id
    then true
    else if not (includes dispatchable_order_statuses o.status)
    then true
    else if w.restaurant_suspended
    then true
    else branch_refuses w.branch

abbrev pub partners_of : Store → List DeliveryPartner
partners_of s = filter available s.partners

-- `radiusEligibleCandidates`
abbrev pub candidates : Surroundings → ℕ → ℕ → Store → List DeliveryPartner
candidates w order_id cycle s = filter (is_candidate w order_id cycle s.assignments) (partners_of s)

-- `onlinePartners`
abbrev pub partners_in_range : Config → Surroundings → ℕ → ℕ → Store → List DeliveryPartner
partners_in_range c w order_id cycle s =
    search_tiers w (candidates w order_id cycle s) c.radius_tiers_meters

abbrev outcome_of : CreateAssignmentResult → Outcome
outcome_of (created a) = offered a
outcome_of CreateAssignmentResult.order_not_found = skipped
outcome_of CreateAssignmentResult.not_dispatchable = skipped
outcome_of CreateAssignmentResult.already_has_partner = skipped
outcome_of CreateAssignmentResult.active_assignment_exists = skipped

abbrev pub offer_params : ℕ → ℕ → ℕ → DeliveryPartner → AssignmentParams
offer_params order_id cycle now p = record {
  order_id = order_id;
  delivery_partner_id = p.id;
  expires_at = now + assignment_timeout;
  cycle = cycle;
}

abbrev pub offer_outcome : CreateAssignmentResult × Store → Outcome × Store
offer_outcome (result, s) = (outcome_of result, s)

-- The offer to the partner that is chosen.
unfoldable pub offer : ℕ → ℕ → ℕ → DeliveryPartner → Store → Outcome × Store
offer order_id cycle now p s =
    offer_outcome (create_assignment_for_order (offer_params order_id cycle now p) s)

-- No partner is in range: the next cycle, or the end.
abbrev pub exhausted : Config → ℕ → Store → Outcome
exhausted c cycle s =
    if ltb 0 (length (partners_of s)) && below_max cycle c.max_cycles
    then retried (suc cycle)
    else no_partners

abbrev pub offer_or_retry : Config → ℕ → ℕ → ℕ → Option DeliveryPartner → Store → Outcome × Store
offer_or_retry c order_id cycle now none s = (exhausted c cycle s, s)
offer_or_retry c order_id cycle now (some p) s = offer order_id cycle now p s

-- The search in a cycle; no partner is chosen just when none is in range.
unfoldable pub search_cycle : Config → Surroundings → ℕ → ℕ → ℕ → Store → Outcome × Store
search_cycle c w order_id cycle now s =
    offer_or_retry c order_id cycle now
      (select_partner_by_priority w (partners_in_range c w order_id cycle s) cycle) s

-- `assignOrder`
unfoldable pub assign_order : Config → Surroundings → ℕ → Option ℕ → ℕ → Store → Outcome × Store
assign_order c w order_id forced now s = elim (find (λ o. o.id == order_id) s.orders) [
  | none ↦ (skipped, s)
  | some o ↦
      if must_skip w o then (skipped, s) else elim (find_active_assignment_for_order order_id s) [
        | some a ↦ (already_active a, s)
        | none ↦
            search_cycle c w order_id (current_cycle forced (derived_cycle order_id s.assignments))
              now s
      ]
]
