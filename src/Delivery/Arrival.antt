-- ===== src/Delivery/Arrival.antt =====
-- The arrival at the restaurant: markRestaurantArrival of services/proof.service.ts and the two
-- queries of repositories/proof.repository.ts behind it.
use patheya_express_platform.Common.{
  ℕ, ◌≡◌, ◌⊎◌, inl, inr, refl, sym, ap, ◌∙◌, Bool, not, ◌&&◌, Option, none, some, List, ◌∷◌, ltb,
  is_some, ◌==◌, ◌===◌, if◌then◌else◌, find, Action, ok, err, bad_request, forbidden, not_found,
  record_missing, ◌>>=◌, ◌>>◌, pure, throw_if, or_throw, gets, modify, arith, Option-cases,
}
use patheya_express_platform.Common.Table.{update_where, update_where_again}
use patheya_express_platform.Schema.{
  OrderStatus, order_status_eq, AssignmentStatus, assignment_status_eq,
}
use patheya_express_platform.Orders.Access.{AuthenticatedUser}
use patheya_express_platform.Orders.Store.{Order}
use patheya_express_platform.Delivery.Proof.{is_assigned_partner}

-- What the arrival reads and writes of an assignment; `user_id` is that of its delivery partner.
pub record Assignment : Type 0 where
  pub id : ℕ
  pub order_id : ℕ
  pub user_id : ℕ
  pub status : AssignmentStatus
  pub arrived_at_restaurant_at : Option ℕ

pub record Store : Type 0 where
  pub orders : List Order
  pub assignments : List Assignment
  pub notified : List ℕ

abbrev pub arrival_radius_meters : ℕ
arrival_radius_meters = 100

-- `findActiveAssignmentForOrder`
abbrev pub find_active_assignment : ℕ → ℕ → Store → Option Assignment
find_active_assignment order_id user_id s =
    find
      (λ a.
        (a.order_id == order_id)
        && (a.status === AssignmentStatus.accepted)
        && (a.user_id == user_id))
      s.assignments

abbrev pub not_arrived : ℕ → Assignment → Bool
not_arrived id a = (a.id == id) && not (is_some a.arrived_at_restaurant_at)

abbrev pub arrived : ℕ → Assignment → Assignment
arrived now a = record a { arrived_at_restaurant_at = some now }

abbrev pub find_assignment : ℕ → Store → Option Assignment
find_assignment id s = find (λ a. a.id == id) s.assignments

-- `markArrival`: a conditional update, and the row as it is then.
unfoldable pub mark_arrival : ℕ → ℕ → Action Store Assignment
mark_arrival id now s =
    let t = record s { assignments = update_where (not_arrived id) (arrived now) s.assignments } in
    or_throw (find_assignment id t) record_missing t

-- The distance test, of the metres from the pickup location where one is on record.
abbrev pub near_enough : Option ℕ → Assignment → Action Store (Unit {0})
near_enough distance a s =
    if is_some a.arrived_at_restaurant_at then (ok tt, s) else elim distance [
      | none ↦ (err bad_request, s)
      | some metres ↦ (if ltb arrival_radius_meters metres then err bad_request else ok tt, s)
    ]

-- `markRestaurantArrival`; `distance` is that of the position given from the pickup location.
unfoldable pub mark_restaurant_arrival :
    Option ℕ → ℕ → AuthenticatedUser → ℕ → Action Store (Option ℕ)
unfolding mark_arrival
mark_restaurant_arrival distance order_id user now = do
  order ← or_throw (← gets (λ s. find (λ o. o.id == order_id) s.orders)) not_found
  throw_if (not (is_assigned_partner order user)) forbidden
  throw_if (not (order.status === OrderStatus.ready_for_pickup)) bad_request
  assignment ← or_throw (← gets (find_active_assignment order_id user.user_id)) forbidden
  near_enough distance assignment
  updated ← mark_arrival assignment.id now
  modify (λ s. record s { notified = order.customer_id ∷ s.notified })
  pure updated.arrived_at_restaurant_at

marked : ℕ → ℕ → Store → Store
marked id now s = record s {
  assignments = update_where (not_arrived id) (arrived now) s.assignments;
}

marked_again :
    (id first later : ℕ) (s : Store) → marked id later (marked id first s) ≡ marked id first s
unfolding marked
marked_again id first later s =
    ap (λ rows. record s { assignments = rows })
      (update_where_again (not_arrived id) (arrived first) (arrived later) s.assignments
        (λ a c. ground arith))

mark_cases :
    (id now : ℕ) (s : Store)
    → ((find_assignment id (marked id now s) ≡ none)
        × (mark_arrival id now s ≡ (err record_missing, marked id now s)))
      ⊎ ((a : Assignment) × (find_assignment id (marked id now s) ≡ some a)
          × (mark_arrival id now s ≡ (ok a, marked id now s)))
unfolding mark_arrival marked
mark_cases id now s = elim (Option-cases (find_assignment id (marked id now s))) [
  | inl e ↦ inl (e, rw e refl)
  | inr (a, e) ↦ inr (a, e, rw e refl)
]

-- A second mark of an arrival, by a retry or at the same time, keeps the time of the first.
pub first_arrival_stays :
    (id first later : ℕ) (s t : Store) (a : Assignment)
    → mark_arrival id first s ≡ (ok a, t)
    → mark_arrival id later t ≡ (ok a, t)
first_arrival_stays id first later s t a run = elim (mark_cases id first s) [
  | inl (m, e) ↦ absurd (ground (arith, e))
  | inr (b, f, e) ↦
      let to : t ≡ marked id first s = ap (λ r. r.1) (sym run ∙ e) in
      let row : a ≡ b = ground (arith, sym run ∙ e) in
      let again = marked_again id first later s in
      let found : find_assignment id (marked id later (marked id first s)) ≡ some b = rw again f in
      elim (mark_cases id later (marked id first s)) [
        | inl (m, g) ↦ absurd (ground (arith, found, m))
        | inr (c, g, h) ↦
            let last : c ≡ b = ground (arith, sym g ∙ found) in
            rw (to, row) (h ∙ rw (again, last) refl)
      ]
]
