-- ===== src/Dispatch.antt =====
-- The assignments of orders to delivery partners: modules/dispatch, the claims of
-- repositories/dispatch.repository.ts and the handlers that make them.
pub mod Accept
pub mod History
pub mod Search
pub mod Priority
pub mod Ranking
pub mod Assign
pub mod Chosen
pub mod Offers
pub mod Retries
mod Examples
use patheya_express_platform.Common.{
  ℕ, suc, Bool, true, false, not, ◌&&◌, ◌||◌, Option, none, some, List, [], ◌∷◌, ◌==◌, ◌===◌, is_id,
  is_some, includes, if◌then◌else◌, find, count, any, Action, Result, ok, err, bad_request,
  forbidden, not_found, conflict, ◌>>=◌, ◌>>◌, pure, throw_if, or_throw, gets,
}
use patheya_express_platform.Common.Table.{update_where}
use patheya_express_platform.Schema.{
  AssignmentStatus, assignment_status_eq, DeliveryPartnerStatus, delivery_partner_status_eq,
  OrderStatus, order_status_eq,
}

pub record DeliveryAssignment : Type 0 where
  pub id : ℕ
  pub order_id : ℕ
  pub delivery_partner_id : ℕ
  pub status : AssignmentStatus
  pub expires_at : ℕ
  pub cycle : ℕ

pub record DeliveryPartner : Type 0 where
  pub id : ℕ
  pub user_id : ℕ
  pub status : DeliveryPartnerStatus
  pub is_verified : Bool

-- What dispatch reads and writes of an order.
pub record DispatchOrder : Type 0 where
  pub id : ℕ
  pub status : OrderStatus
  pub delivery_partner_id : Option ℕ

pub record Store : Type 0 where
  pub assignments : List DeliveryAssignment
  pub next_id : ℕ
  pub partners : List DeliveryPartner
  pub orders : List DispatchOrder

abbrev pub active_statuses : List AssignmentStatus
active_statuses = AssignmentStatus.pending ∷ AssignmentStatus.accepted ∷ []

abbrev pub is_active_for : ℕ → DeliveryAssignment → Bool
is_active_for order_id a = (a.order_id == order_id) && includes active_statuses a.status

abbrev pub find_assignment_by_id : ℕ → Store → Option DeliveryAssignment
find_assignment_by_id id s = find (λ a. a.id == id) s.assignments

abbrev pub find_partner_by_user_id : ℕ → Store → Option DeliveryPartner
find_partner_by_user_id user_id s = find (λ p. p.user_id == user_id) s.partners

-- `findActiveAssignmentForOrder`
unfoldable pub find_active_assignment_for_order : ℕ → Store → Option DeliveryAssignment
find_active_assignment_for_order order_id s = find (is_active_for order_id) s.assignments

abbrev pub claimable : ℕ → List AssignmentStatus → DeliveryAssignment → Bool
claimable id allowed a = (a.id == id) && includes allowed a.status

abbrev pub with_assignment_status : AssignmentStatus → DeliveryAssignment → DeliveryAssignment
with_assignment_status st a = record a { status = st }

-- `claimAssignmentTransition`: the count of rows that it moved, and the table after.
unfoldable pub claim_assignment_transition :
    ℕ → List AssignmentStatus → AssignmentStatus → Store → ℕ × Store
claim_assignment_transition id allowed next s = (
  count (claimable id allowed) s.assignments,
  record s {
    assignments = update_where (claimable id allowed) (with_assignment_status next) s.assignments;
  },
)

pub data CreateAssignmentResult : Type 0 where
  created : DeliveryAssignment → CreateAssignmentResult
  order_not_found not_dispatchable already_has_partner active_assignment_exists :
      CreateAssignmentResult

-- The arguments of `createAssignmentForOrder`.
pub record AssignmentParams : Type 0 where
  pub order_id : ℕ
  pub delivery_partner_id : ℕ
  pub expires_at : ℕ
  pub cycle : ℕ

abbrev pub dispatchable_order_statuses : List OrderStatus
dispatchable_order_statuses = OrderStatus.ready_for_pickup ∷ []

abbrev pub new_assignment : ℕ → AssignmentParams → DeliveryAssignment
new_assignment id p = record {
  id = id;
  order_id = p.order_id;
  delivery_partner_id = p.delivery_partner_id;
  status = AssignmentStatus.pending;
  expires_at = p.expires_at;
  cycle = p.cycle;
}

-- The checks of `createAssignmentForOrder` once the order is read.
unfoldable pub create_for :
    DispatchOrder → AssignmentParams → Store → CreateAssignmentResult × Store
create_for o p s =
    if is_some o.delivery_partner_id
    then (already_has_partner, s)
    else if not (includes dispatchable_order_statuses o.status)
    then (not_dispatchable, s)
    else if any (is_active_for p.order_id) s.assignments
    then (active_assignment_exists, s)
    else (
      created (new_assignment s.next_id p),
      record s {
        assignments = new_assignment s.next_id p ∷ s.assignments;
        next_id = suc s.next_id;
      },
    )

-- `createAssignmentForOrder`: one transaction under the advisory lock of the order.
unfoldable pub create_assignment_for_order :
    AssignmentParams → Store → CreateAssignmentResult × Store
unfolding create_for
create_assignment_for_order p s = elim (find (λ o. o.id == p.order_id) s.orders) [
  | none ↦ (order_not_found, s)
  | some o ↦ create_for o p s
]

pub data AcceptAssignmentResult : Type 0 where
  accepted assignment_not_pending partner_not_available order_already_assigned :
      AcceptAssignmentResult

abbrev pub available_partner : ℕ → DeliveryPartner → Bool
available_partner id p = (p.id == id) && (p.status === DeliveryPartnerStatus.available)

abbrev pub on_delivery : DeliveryPartner → DeliveryPartner
on_delivery p = record p { status = DeliveryPartnerStatus.on_delivery }

abbrev pub unassigned_order : ℕ → DispatchOrder → Bool
unassigned_order id o = (o.id == id) && not (is_some o.delivery_partner_id)

abbrev pub assigned_to : ℕ → DispatchOrder → DispatchOrder
assigned_to user_id o = record o { delivery_partner_id = some user_id }

-- The three writes of `acceptAssignmentAtomic`.
abbrev pub accepted_store : ℕ → ℕ → ℕ → ℕ → Store → Store
accepted_store id partner_id user_id order_id s = record s {
  assignments =
      update_where (claimable id (AssignmentStatus.pending ∷ []))
        (with_assignment_status AssignmentStatus.accepted) s.assignments;
  partners = update_where (available_partner partner_id) on_delivery s.partners;
  orders = update_where (unassigned_order order_id) (assigned_to user_id) s.orders;
}

-- `acceptAssignmentAtomic`: a claim that finds no row rolls back those before it.
unfoldable pub accept_assignment_atomic : ℕ → ℕ → ℕ → ℕ → Store → AcceptAssignmentResult × Store
accept_assignment_atomic id partner_id user_id order_id s =
    if count (claimable id (AssignmentStatus.pending ∷ [])) s.assignments == 0
    then (assignment_not_pending, s)
    else if count (available_partner partner_id) s.partners == 0
    then (partner_not_available, s)
    else if count (unassigned_order order_id) s.orders == 0
    then (order_already_assigned, s)
    else (accepted, accepted_store id partner_id user_id order_id s)

-- What `acceptAssignment` throws for each outcome.
abbrev pub throw_refused : AcceptAssignmentResult × Store → Result (Unit {0}) × Store
throw_refused (accepted, s) = (ok tt, s)
throw_refused (assignment_not_pending, s) = (err bad_request, s)
throw_refused (partner_not_available, s) = (err conflict, s)
throw_refused (order_already_assigned, s) = (err conflict, s)

-- `acceptAssignment`
unfoldable pub accept_assignment : ℕ → ℕ → Action Store (Unit {0})
unfolding accept_assignment_atomic
accept_assignment id user_id = do
  partner ← or_throw (← gets (find_partner_by_user_id user_id)) not_found
  assignment ← or_throw (← gets (find_assignment_by_id id)) not_found
  throw_if (not (assignment.delivery_partner_id == partner.id)) forbidden
  throw_if (not partner.is_verified || (partner.status === DeliveryPartnerStatus.suspended))
      forbidden
  (λ s.
      throw_refused (accept_assignment_atomic id partner.id partner.user_id assignment.order_id s))

-- The claim of `rejectAssignment`.
abbrev pub reject_claimed : ℕ → Action Store (Unit {0})
reject_claimed id s =
    let (count, t) =
      claim_assignment_transition id (AssignmentStatus.pending ∷ []) AssignmentStatus.rejected s in
    (if count == 0 then err bad_request else ok tt, t)

-- `rejectAssignment`
unfoldable pub reject_assignment : ℕ → ℕ → Action Store (Unit {0})
reject_assignment id user_id = do
  partner ← or_throw (← gets (find_partner_by_user_id user_id)) not_found
  assignment ← or_throw (← gets (find_assignment_by_id id)) not_found
  throw_if (not (assignment.delivery_partner_id == partner.id)) forbidden
  reject_claimed id

-- The expiry job of AssignmentExpiryProcessor, on an assignment that is there.
unfoldable pub expire_assignment : ℕ → Store → Store
expire_assignment id s = elim (find_assignment_by_id id s) [
  | none ↦ s
  | some a ↦
      (claim_assignment_transition a.id (AssignmentStatus.pending ∷ []) AssignmentStatus.expired
        s).1
]

abbrev pub delivering : ℕ → DeliveryPartner → Bool
delivering user_id p = (p.user_id == user_id) && (p.status === DeliveryPartnerStatus.on_delivery)

-- `DeliveryRepository.releaseFromDelivery` for an order.
unfoldable pub release_from_delivery : ℕ → ℕ → Store → ℕ × Store
release_from_delivery user_id order_id s = (
  count (delivering user_id) s.partners,
  record s {
    partners =
        update_where (delivering user_id)
          (λ p. record p { status = DeliveryPartnerStatus.available }) s.partners;
    assignments =
        update_where (is_active_for order_id) (with_assignment_status AssignmentStatus.completed)
          s.assignments;
  },
)
