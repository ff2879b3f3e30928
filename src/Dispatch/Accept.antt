-- ===== src/Dispatch/Accept.antt =====
-- An order is accepted once, whatever happens in between.
use patheya_express_platform.Common.{
  ℕ, ◌≡◌, ◌≢◌, ◌⊎◌, inl, inr, refl, List, [], ◌∷◌, arith, count, Option-cases,
}
use patheya_express_platform.Common.Table.{update_where}
use patheya_express_platform.Schema.{assignment_status_eq}
use patheya_express_platform.Dispatch.{
  AssignmentParams, create_assignment_for_order, Store, DispatchOrder, accepted, unassigned_order,
  assigned_to, accept_assignment_atomic, claim_assignment_transition, create_for, expire_assignment,
  release_from_delivery, find_assignment_by_id,
}
use patheya_express_platform.Dispatch.Offers.{assign_rows}
use patheya_express_platform.Dispatch.History.{
  Call, creates, assigns, accepts, rejects, expires, releases, perform, run, create_rows,
  accept_rows, reject_rows,
}

-- No row of the order is without a partner.
abbrev IsTaken : ℕ → Store → Type 0
IsTaken o s = count (unassigned_order o) s.orders ≡ 0

taken_rows :
    (o k user_id : ℕ) (rows : List DispatchOrder)
    → (o ≡ k) ⊎ (count (unassigned_order o) rows ≡ 0)
    → count (unassigned_order o) (update_where (unassigned_order k) (assigned_to user_id) rows) ≡ 0
taken_rows o k user_id [] h = refl
taken_rows o k user_id (r ∷ rows) h = ground (arith, taken_rows o k user_id rows)

same-IsTaken : (o : ℕ) (s t : Store) → t.orders ≡ s.orders → IsTaken o s → IsTaken o t
same-IsTaken o s t e h = rw e h

create-IsTaken :
    (o : ℕ) (p : AssignmentParams) (s : Store)
    → IsTaken o s
    → IsTaken o (create_assignment_for_order p s).1
create-IsTaken o p s h = elim (create_rows p s) [
  | inl e ↦ rw e h
  | inr (order, e) ↦ rw e (unfold create_for in ground arith)
]

perform-IsTaken : (c : Call) (o : ℕ) (s : Store) → IsTaken o s → IsTaken o (perform c s)
unfolding perform expire_assignment
perform-IsTaken (creates p) o s h = create-IsTaken o p s h
perform-IsTaken (assigns c w id forced now) o s h = elim (assign_rows c w id forced now s) [
  | inl e ↦ rw e h
  | inr (q, e) ↦ rw e (create-IsTaken o q s h)
]
perform-IsTaken (accepts id user_id) o s h = elim (accept_rows id user_id s) [
  | inl e ↦ rw e h
  | inr (pid, uid, oid, e) ↦ rw e (taken_rows o oid uid s.orders (inr h))
]
perform-IsTaken (rejects id user_id) o s h = elim (reject_rows id user_id s) [
  | inl e ↦ rw e h
  | inr e ↦ rw e (unfold claim_assignment_transition in h)
]
perform-IsTaken (expires id) o s h = elim (Option-cases (find_assignment_by_id id s)) [
  | inl e ↦ rw (e, expire_assignment) h
  | inr (a, e) ↦ rw (e, expire_assignment) (unfold claim_assignment_transition in h)
]
perform-IsTaken (releases user_id k) o s h = unfold release_from_delivery in h

run-IsTaken : (cs : List Call) (o : ℕ) (s : Store) → IsTaken o s → IsTaken o (run cs s)
unfolding run
run-IsTaken [] o s h = h
run-IsTaken (c ∷ cs) o s h = run-IsTaken cs o (perform c s) (perform-IsTaken c o s h)

accepted-IsTaken :
    (id pid uid o : ℕ) (s t : Store)
    → accept_assignment_atomic id pid uid o s ≡ (accepted, t)
    → IsTaken o t
unfolding accept_assignment_atomic
accepted-IsTaken id pid uid o s t run = ground (arith, taken_rows o o uid s.orders (inl refl))

refused :
    (id pid uid o : ℕ) (s t : Store)
    → IsTaken o s
    → accept_assignment_atomic id pid uid o s ≢ (accepted, t)
unfolding accept_assignment_atomic
refused id pid uid o s t h run = ground arith

-- Once a partner has accepted an order, no partner accepts it again, by any assignment and after any
-- sequence of calls.
pub order_accepted_once :
    (id later pid later_pid uid later_uid o : ℕ) (between : List Call) (s t u : Store)
    → accept_assignment_atomic id pid uid o s ≡ (accepted, t)
    → accept_assignment_atomic later later_pid later_uid o (run between t) ≢ (accepted, u)
order_accepted_once id later pid later_pid uid later_uid o between s t u first =
    refused later later_pid later_uid o (run between t) u
      (run-IsTaken between o t (accepted-IsTaken id pid uid o s t first))
