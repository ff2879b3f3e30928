-- ===== src/Dispatch/Search.antt =====
-- The search for a delivery partner: assignOrder and selectPartnerByPriority of
-- services/dispatch.service.ts.
use patheya_express_platform.Common.{
  ℕ, max, Bool, true, false, not, ◌&&◌, Option, none, some, List, [], ◌∷◌, ltb, leb, ◌==◌, ◌===◌,
  includes, if◌then◌else◌, filter, any, length,
}
use patheya_express_platform.Common.Int.{ℤ}
use patheya_express_platform.Schema.{
  assignment_status_eq, DeliveryPartnerStatus, delivery_partner_status_eq, order_status_eq,
}
use patheya_express_platform.Dispatch.{DeliveryAssignment, DeliveryPartner, active_statuses}

pub record Location : Type 0 where
  pub latitude : ℤ
  pub longitude : ℤ

-- A branch as the order includes it; `is_open_now` is what computeIsOpenNow says of its hours.
pub record Branch : Type 0 where
  pub latitude : Option ℤ
  pub longitude : Option ℤ
  pub is_active : Bool
  pub is_open_now : Bool

-- What a call reads beside the tables of dispatch: of the order's restaurant and branches, of the
-- partners' presence and position, and of their last assignment. `distance_meters` is the formula
-- of geo.util.ts, which computes in floating point.
pub record Surroundings : Type 0 where
  pub restaurant_suspended : Bool
  pub branch : Option Branch
  pub fallback_branch : Option Branch
  pub is_online : (user_id : ℕ) → Bool
  pub location : (partner_id : ℕ) → Option Location
  pub last_activity : (partner_id : ℕ) → Option ℕ
  pub distance_meters : Location → Location → ℕ

-- `DISPATCH_RADIUS_TIERS_METERS` and `DISPATCH_MAX_CYCLES`, where none stands for Infinity.
pub record Config : Type 0 where
  pub radius_tiers_meters : List ℕ
  pub max_cycles : Option ℕ

abbrev pub default_tiers : List ℕ
default_tiers = 5000 ∷ 7000 ∷ 9000 ∷ 10000 ∷ []

-- `EFFECTIVE_DISPATCH_RADIUS_TIERS_METERS`
abbrev pub effective_tiers : List ℕ → List ℕ
effective_tiers configured =
    if ltb 0 (length (filter (ltb 0) configured)) then filter (ltb 0) configured else default_tiers

abbrev pub max_cycles_of : ℕ → Option ℕ
max_cycles_of configured = if configured == 0 then none else some configured

-- `currentCycle < DISPATCH_MAX_CYCLES`
abbrev pub below_max : ℕ → Option ℕ → Bool
below_max cycle none = true
below_max cycle (some limit) = ltb cycle limit

abbrev both : Option ℤ → Option ℤ → Option Location
both (some latitude) (some longitude) = some (record { latitude = latitude; longitude = longitude })
both (some latitude) none = none
both none longitude = none

abbrev pub branch_location : Option Branch → Option Location
branch_location none = none
branch_location (some b) = both b.latitude b.longitude

abbrev or_else : Option Location → Option Location → Option Location
or_else (some l) other = some l
or_else none other = other

-- `resolveBranchCoordinates`
abbrev pub resolve_branch_coordinates : Surroundings → Option Location
resolve_branch_coordinates w =
    or_else (branch_location w.branch) (branch_location w.fallback_branch)

-- `findAvailablePartners`
abbrev pub available : DeliveryPartner → Bool
available p = (p.status === DeliveryPartnerStatus.available) && p.is_verified

-- `findPartnerIdsWithActiveAssignment`, of one partner.
abbrev pub has_active_assignment : ℕ → List DeliveryAssignment → Bool
has_active_assignment partner_id rows =
    any (λ a. (a.delivery_partner_id == partner_id) && includes active_statuses a.status) rows

abbrev latest_cycle : ℕ → List DeliveryAssignment → Option ℕ
latest_cycle order_id [] = none
latest_cycle order_id (a ∷ rows) =
    let rest = latest_cycle order_id rows in
    if a.order_id == order_id
    then some (elim rest [ none ↦ a.cycle | some c ↦ max a.cycle c ])
    else rest

abbrev pub derived_cycle : ℕ → List DeliveryAssignment → ℕ
derived_cycle order_id rows = elim (latest_cycle order_id rows) [ none ↦ 1 | some c ↦ c ]

abbrev pub current_cycle : Option ℕ → ℕ → ℕ
current_cycle none derived = derived
current_cycle (some forced) derived = max forced derived

-- `attemptedPartnerIds.includes`
abbrev pub attempted : ℕ → ℕ → ℕ → List DeliveryAssignment → Bool
attempted order_id cycle partner_id rows =
    any
      (λ a. (a.order_id == order_id) && (a.cycle == cycle) && (a.delivery_partner_id == partner_id))
      rows

-- The filter of `radiusEligibleCandidates`
abbrev pub is_candidate : Surroundings → ℕ → ℕ → List DeliveryAssignment → DeliveryPartner → Bool
is_candidate w order_id cycle rows p =
    if not (w.is_online p.user_id)
    then false
    else if attempted order_id cycle p.id rows
    then false
    else not (has_active_assignment p.id rows)

abbrev meters_between : Surroundings → Option Location → Option Location → Option ℕ
meters_between w (some branch) (some partner) = some (w.distance_meters branch partner)
meters_between w (some branch) none = none
meters_between w none partner = none

-- The metres from the pickup location, where both positions are known.
abbrev pub partner_distance : Surroundings → DeliveryPartner → Option ℕ
partner_distance w p = meters_between w (resolve_branch_coordinates w) (w.location p.id)

abbrev in_range : Option ℕ → ℕ → Bool
in_range none tier = false
in_range (some metres) tier = leb metres tier

abbrev pub within_tier : Surroundings → ℕ → DeliveryPartner → Bool
within_tier w tier p = in_range (partner_distance w p) tier

-- The loop over the tiers: the partners of the first tier that has any.
unfoldable pub search_tiers : Surroundings → List DeliveryPartner → List ℕ → List DeliveryPartner
search_tiers w candidates [] = []
search_tiers w candidates (tier ∷ tiers) =
    let rest = search_tiers w candidates tiers in
    elim (filter (within_tier w tier) candidates) [ [] ↦ rest | p ∷ ps ↦ p ∷ ps ]
