-- ===== src/Dispatch/History.antt =====
-- The assignments of each order over any sequence of calls.
use patheya_express_platform.Common.{
  ℕ, Option, ◌≤◌, ◌≡◌, ◌⊎◌, inl, inr, refl, false, some, List, [], ◌∷◌, arith, count, any, find,
  Option-cases, ◌==◌,
}
use patheya_express_platform.Common.Table.{update_where}
use patheya_express_platform.Schema.{AssignmentStatus, assignment_status_eq}
use patheya_express_platform.Dispatch.Search.{Config, Surroundings}
use patheya_express_platform.Dispatch.Assign.{assign_order}
use patheya_express_platform.Dispatch.Offers.{assign_rows}
use patheya_express_platform.Dispatch.{
  Store, DeliveryAssignment, DispatchOrder, DeliveryPartner, find_partner_by_user_id,
  AssignmentParams, is_active_for, claimable, with_assignment_status, claim_assignment_transition,
  create_for, create_assignment_for_order, accepted_store, accept_assignment_atomic,
  accept_assignment, reject_assignment, expire_assignment, release_from_delivery,
  find_assignment_by_id,
}

-- A claim on pending rows makes no order's assignment active.
claimed-count :
    (o id : ℕ) (next : AssignmentStatus) (rows : List DeliveryAssignment)
    → count (is_active_for o) (
        update_where
          (claimable id (AssignmentStatus.pending ∷ []))
          (with_assignment_status next)
          rows)
      ≤ count (is_active_for o) rows
claimed-count o id next [] = omega arith
claimed-count o id next (a ∷ rows) = ground (arith, claimed-count o id next rows)

completed-count :
    (o k : ℕ) (rows : List DeliveryAssignment)
    → count
        (is_active_for o)
        (update_where (is_active_for k) (with_assignment_status AssignmentStatus.completed) rows)
      ≤ count (is_active_for o) rows
completed-count o k [] = omega arith
completed-count o k (a ∷ rows) = ground (arith, completed-count o k rows)

none_active :
    (o : ℕ) (rows : List DeliveryAssignment)
    → any (is_active_for o) rows ≡ false
    → count (is_active_for o) rows ≡ 0
none_active o [] h = refl
none_active o (a ∷ rows) h = ground (arith, none_active o rows)

abbrev pub active : ℕ → Store → ℕ
active o s = count (is_active_for o) s.assignments

created-active :
    (o : ℕ) (order : DispatchOrder) (p : AssignmentParams) (s : Store)
    → active o s ≤ 1
    → active o (create_for order p s).1 ≤ 1
unfolding create_for
created-active o order p s h = ground (arith, none_active p.order_id s.assignments)

claim-active :
    (o id : ℕ) (next : AssignmentStatus) (s : Store)
    → active o s ≤ 1
    → active o (claim_assignment_transition id (AssignmentStatus.pending ∷ []) next s).1 ≤ 1
unfolding claim_assignment_transition
claim-active o id next s h = omega (arith, claimed-count o id next s.assignments, h)

-- The calls that write to assignments, partners and orders.
pub data Call : Type 0 where
  creates : AssignmentParams → Call
  assigns : Config → Surroundings → (order_id : ℕ) → (forced_cycle : Option ℕ) → (now : ℕ) → Call
  accepts rejects : (assignment_id user_id : ℕ) → Call
  expires : (assignment_id : ℕ) → Call
  releases : (user_id order_id : ℕ) → Call

unfoldable pub perform : Call → Store → Store
perform (creates p) s = (create_assignment_for_order p s).1
perform (assigns c w id forced now) s = (assign_order c w id forced now s).1
perform (accepts id user_id) s = (accept_assignment id user_id s).1
perform (rejects id user_id) s = (reject_assignment id user_id s).1
perform (expires id) s = expire_assignment id s
perform (releases user_id order_id) s = (release_from_delivery user_id order_id s).1

unfoldable pub run : List Call → Store → Store
run [] s = s
run (c ∷ cs) s = run cs (perform c s)

pub create_rows :
    (p : AssignmentParams) (s : Store)
    → ((create_assignment_for_order p s).1 ≡ s)
      ⊎ ((order : DispatchOrder) × ((create_assignment_for_order p s).1 ≡ (create_for order p s).1))
unfolding create_assignment_for_order
create_rows p s = elim (Option-cases (find (λ o. o.id == p.order_id) s.orders)) [
  | inl e ↦ inl (rw (e, create_assignment_for_order) refl)
  | inr (o, e) ↦ inr (o, rw (e, create_assignment_for_order) refl)
]

accept_found :
    (id user_id : ℕ) (s : Store) (p : DeliveryPartner) (a : DeliveryAssignment)
    → find_partner_by_user_id user_id s ≡ some p
    → find_assignment_by_id id s ≡ some a
    → ((accept_assignment id user_id s).1 ≡ s)
      ⊎ ((accept_assignment id user_id s).1 ≡ accepted_store id p.id p.user_id a.order_id s)
unfolding accept_assignment accept_assignment_atomic
accept_found id user_id s p a e f = ground (arith, e, f)

-- A call of acceptAssignment leaves the store, or makes its three writes.
pub accept_rows :
    (id user_id : ℕ) (s : Store)
    → ((accept_assignment id user_id s).1 ≡ s)
      ⊎ ((pid uid oid : ℕ) × ((accept_assignment id user_id s).1 ≡ accepted_store id pid uid oid s))
unfolding accept_assignment
accept_rows id user_id s = elim (Option-cases (find_partner_by_user_id user_id s)) [
  | inl e ↦ inl (rw e refl)
  | inr (p, e) ↦ elim (Option-cases (find_assignment_by_id id s)) [
    | inl f ↦ inl (rw (e, f) refl)
    | inr (a, f) ↦ elim (accept_found id user_id s p a e f) [
      | inl h ↦ inl h
      | inr h ↦ inr (p.id, p.user_id, a.order_id, h)
    ]
  ]
]

pub reject_rows :
    (id user_id : ℕ) (s : Store)
    → ((reject_assignment id user_id s).1 ≡ s)
      ⊎ ((reject_assignment id user_id s).1
          ≡ (claim_assignment_transition id
              (AssignmentStatus.pending ∷ [])
              AssignmentStatus.rejected
              s).1)
unfolding reject_assignment
reject_rows id user_id s = ground arith

create-active :
    (o : ℕ) (p : AssignmentParams) (s : Store)
    → active o s ≤ 1
    → active o (create_assignment_for_order p s).1 ≤ 1
create-active o p s h = elim (create_rows p s) [
  | inl e ↦ rw e h
  | inr (order, e) ↦ rw e (created-active o order p s h)
]

perform-active : (c : Call) (o : ℕ) (s : Store) → active o s ≤ 1 → active o (perform c s) ≤ 1
unfolding perform expire_assignment
perform-active (creates p) o s h = create-active o p s h
perform-active (assigns c w id forced now) o s h = elim (assign_rows c w id forced now s) [
  | inl e ↦ rw e h
  | inr (q, e) ↦ rw e (create-active o q s h)
]
perform-active (accepts id user_id) o s h = elim (accept_rows id user_id s) [
  | inl e ↦ rw e h
  | inr (pid, uid, oid, e) ↦
      rw e (omega (arith, claimed-count o id AssignmentStatus.accepted s.assignments, h))
]
perform-active (rejects id user_id) o s h = elim (reject_rows id user_id s) [
  | inl e ↦ rw e h
  | inr e ↦ rw e (claim-active o id AssignmentStatus.rejected s h)
]
perform-active (expires id) o s h = elim (Option-cases (find_assignment_by_id id s)) [
  | inl e ↦ rw (e, expire_assignment) h
  | inr (a, e) ↦ rw (e, expire_assignment) (claim-active o a.id AssignmentStatus.expired s h)
]
perform-active (releases user_id k) o s h =
    unfold release_from_delivery in omega (arith, completed-count o k s.assignments, h)

-- Over any sequence of dispatches, manual and by assignOrder, acceptances, rejections, expiries and releases an order has at
-- most one assignment that is pending or accepted.
pub one_assignment : (cs : List Call) (o : ℕ) (s : Store) → active o s ≤ 1 → active o (run cs s) ≤ 1
unfolding run
one_assignment [] o s h = h
one_assignment (c ∷ cs) o s h = one_assignment cs o (perform c s) (perform-active c o s h)
