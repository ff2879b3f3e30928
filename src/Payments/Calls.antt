-- ===== src/Payments/Calls.antt =====
-- Every write that touches a payment, and what a sequence of such writes leaves of it.
use patheya_express_platform.Common.{
  ℕ, ◌≤◌, ◌≡◌, ◌⊎◌, inl, inr, refl, Bool, true, false, Option, none, some, List, [], ◌∷◌, arith,
  if◌then◌else◌,
}
use patheya_express_platform.Common.Int.{ℤ}
use patheya_express_platform.Common.Table.{
  update_where, map_found, find-update_where, IsKeyed-update_where, find_above,
}
use patheya_express_platform.Schema.{TransactionStatus, transaction_status_eq}
use patheya_express_platform.Payments.Machine.{
  get_allowed_source_statuses, stage, sources_invert_machine, validate_transition,
}
use patheya_express_platform.Payments.Store.{
  Store, Payment, PaymentMethod, claim_refund_of, open_refund, refund_moved, is_active_for, has_id,
  find_by_id, claimable, transitioned_row, claim_status_transition, deactivate_order_attempts,
  insert_payment, claim_refund, finalize_refund_success, finalize_refund_failure,
}
use patheya_express_platform.Payments.Transition.{transition_seen, reread}
use patheya_express_platform.Payments.Claims.{IsKeyedStore, claim-keyed, claim-find}

-- A write that some request, webhook delivery or sweep makes, with what it had read as an argument.
pub data Call : Type 0 where
  transitions :
      (seen : Payment) (id : ℕ) (next : TransactionStatus) → Option ℕ → Option PaymentMethod → Call
  deactivates : (order_id : ℕ) → Call
  inserts : (order_id : ℕ) → ℤ → (provider_order_id attempt : ℕ) → Call
  claims_refund : (payment_id : ℕ) → ℤ → Call
  completes_refund : (payment_id refund_id : ℕ) → Option ℕ → Call
  fails_refund : (refund_id : ℕ) → Call

pub perform : Call → Store → Store
perform (transitions seen id next provider_payment_id method) s =
    (transition_seen seen id next provider_payment_id method s).1
perform (deactivates order_id) s = deactivate_order_attempts order_id s
perform (inserts order_id amount provider_order_id attempt) s =
    (insert_payment order_id amount provider_order_id attempt s).1
perform (claims_refund payment_id amount) s = (claim_refund payment_id amount s).1
perform (completes_refund payment_id refund_id provider_payment_id) s =
    (finalize_refund_success payment_id refund_id provider_payment_id s).1
perform (fails_refund refund_id) s = (finalize_refund_failure refund_id s).1

pub run : List Call → Store → Store
run [] s = s
run (c ∷ cs) s = run cs (perform c s)

-- A payment that has got at least as far as `n`.
abbrev pub HasReached : ℕ → ℕ → Store → Type 0
HasReached id n s = (p : Payment) × (find_by_id id s ≡ some p) × (n ≤ stage p.status)

deactivate-find :
    (id o : ℕ) (s : Store)
    → find_by_id id (deactivate_order_attempts o s)
      ≡ map_found (is_active_for o) (λ p. record p { is_active = false }) (find_by_id id s)
unfolding deactivate_order_attempts find_by_id
deactivate-find id o s =
    find-update_where (has_id id) (is_active_for o) (λ p. record p { is_active = false }) s.payments
      (λ p. refl)

insert-find :
    (id o : ℕ) (a : ℤ) (pid n : ℕ) (s : Store) (p : Payment)
    → IsKeyedStore s
    → find_by_id id s ≡ some p
    → find_by_id id (insert_payment o a pid n s).1 ≡ some p
unfolding insert_payment find_by_id
insert-find id o a pid n s p b e =
    ground (arith, find_above (λ (q : Payment). q.id) id s.next_payment_id s.payments b)

map_found-HasReached :
    (q : Payment → Bool) (f : Payment → Payment) (o : Option Payment) (p : Payment) (n : ℕ)
    → o ≡ some p
    → n ≤ stage p.status
    → (q p ≡ true → stage p.status ≤ stage (f p).status)
    → (r : Payment) × (map_found q f o ≡ some r) × (n ≤ stage r.status)
map_found-HasReached q f o p n e h up = (if q p then f p else p, ground arith, ground arith)

claim-HasReached :
    (id k : ℕ) (next : TransactionStatus) (pid : Option ℕ) (m : Option PaymentMethod) (n : ℕ)
    (s : Store)
    → HasReached id n s
    → HasReached id n (claim_status_transition k (get_allowed_source_statuses next) next pid m s).1
claim-HasReached id k next pid m n s (p, e, h) =
    rw (claim-find id k (get_allowed_source_statuses next) next pid m s) (
      map_found-HasReached (claimable k (get_allowed_source_statuses next))
        (transitioned_row next pid m) (find_by_id id s) p n e h
        (λ c. ground (arith, (sources_invert_machine p.status next).1)))

-- What a transition leaves: the store of its claim, or the store as it was.
pub transition_seen-store :
    (seen : Payment) (k : ℕ) (next : TransactionStatus) (pid : Option ℕ) (m : Option PaymentMethod)
    (s : Store)
    → ((transition_seen seen k next pid m s).1 ≡ s)
      ⊎ ((transition_seen seen k next pid m s).1
          ≡ (claim_status_transition k (get_allowed_source_statuses next) next pid m s).1)
unfolding transition_seen reread validate_transition
transition_seen-store seen k next pid m s = ground arith

pub transition-keyed :
    (seen : Payment) (k : ℕ) (next : TransactionStatus) (pid : Option ℕ) (m : Option PaymentMethod)
    (s : Store)
    → IsKeyedStore s
    → IsKeyedStore (transition_seen seen k next pid m s).1
transition-keyed seen k next pid m s b = elim (transition_seen-store seen k next pid m s) [
  | inl e ↦ rw e b
  | inr e ↦ rw e (claim-keyed k (get_allowed_source_statuses next) next pid m s b)
]

transition-HasReached :
    (id : ℕ) (seen : Payment) (k : ℕ) (next : TransactionStatus) (pid : Option ℕ)
    (m : Option PaymentMethod) (n : ℕ) (s : Store)
    → HasReached id n s
    → HasReached id n (transition_seen seen k next pid m s).1
transition-HasReached id seen k next pid m n s h =
    elim (transition_seen-store seen k next pid m s) [
      | inl e ↦ rw e h
      | inr e ↦ rw e (claim-HasReached id k next pid m n s h)
    ]

refunds_moved : ℕ → Store → Store
refunds_moved refund_id s = record s {
  refunds =
      update_where (open_refund refund_id) (refund_moved TransactionStatus.refunded) s.refunds;
}

-- What `finalizeRefundSuccess` leaves of the payments.
complete-store :
    (k r : ℕ) (pid : Option ℕ) (s : Store)
    → ((finalize_refund_success k r pid s).1 ≡ s)
      ⊎ ((finalize_refund_success k r pid s).1
          ≡ (claim_status_transition k
              (get_allowed_source_statuses TransactionStatus.refunded)
              TransactionStatus.refunded
              pid
              none
              (refunds_moved r s)).1)
unfolding finalize_refund_success refunds_moved get_allowed_source_statuses
complete-store k r pid s = ground arith

refunds_moved-HasReached :
    (id r n : ℕ) (s : Store) → HasReached id n s → HasReached id n (refunds_moved r s)
unfolding refunds_moved find_by_id
refunds_moved-HasReached id r n s h = h

refunds_moved-keyed : (r : ℕ) (s : Store) → IsKeyedStore s → IsKeyedStore (refunds_moved r s)
unfolding refunds_moved
refunds_moved-keyed r s b = b

claim_refund-payments :
    (k : ℕ) (a : ℤ) (s : Store)
    → ((claim_refund k a s).1.payments ≡ s.payments)
      × ((claim_refund k a s).1.next_payment_id ≡ s.next_payment_id)
unfolding claim_refund claim_refund_of
claim_refund-payments k a s = ground arith

perform-keyed : (c : Call) (s : Store) → IsKeyedStore s → IsKeyedStore (perform c s)
unfolding perform
perform-keyed (transitions seen id next pid m) s b = transition-keyed seen id next pid m s b
perform-keyed (deactivates o) s b =
    unfold deactivate_order_attempts in
    IsKeyed-update_where (λ (p : Payment). p.id) (is_active_for o)
      (λ p. record p { is_active = false }) s.next_payment_id s.payments (λ p. refl) b
perform-keyed (inserts o a pid n) s b = unfold insert_payment in (omega arith, b)
perform-keyed (claims_refund k a) s b =
    rw ((claim_refund-payments k a s).0, (claim_refund-payments k a s).1) b
perform-keyed (completes_refund k r pid) s b = elim (complete-store k r pid s) [
  | inl e ↦ rw e b
  | inr e ↦ rw e (
      claim-keyed k (get_allowed_source_statuses TransactionStatus.refunded)
        TransactionStatus.refunded pid none (refunds_moved r s) (refunds_moved-keyed r s b))
]
perform-keyed (fails_refund r) s b = unfold finalize_refund_failure in b

-- No write takes a payment back, or away.
perform-HasReached :
    (c : Call) (id n : ℕ) (s : Store)
    → IsKeyedStore s
    → HasReached id n s
    → HasReached id n (perform c s)
unfolding perform
perform-HasReached (transitions seen k next pid m) id n s b h =
    transition-HasReached id seen k next pid m n s h
perform-HasReached (deactivates o) id n s b (p, e, h) = rw (deactivate-find id o s) (
    map_found-HasReached (is_active_for o) (λ p. record p { is_active = false }) (find_by_id id s) p
      n e h (λ c. omega arith))
perform-HasReached (inserts o a pid k) id n s b (p, e, h) = (p, insert-find id o a pid k s p b e, h)
perform-HasReached (claims_refund k a) id n s b (p, e, h) =
    (p, (unfold find_by_id in rw ((claim_refund-payments k a s).0) e), h)
perform-HasReached (completes_refund k r pid) id n s b h = elim (complete-store k r pid s) [
  | inl e ↦ rw e h
  | inr e ↦ rw e (
      claim-HasReached id k TransactionStatus.refunded pid none n (refunds_moved r s)
        (refunds_moved-HasReached id r n s h))
]
perform-HasReached (fails_refund r) id n s b h = unfold finalize_refund_failure find_by_id in h

pub run-HasReached :
    (cs : List Call) (id n : ℕ) (s : Store)
    → IsKeyedStore s
    → HasReached id n s
    → IsKeyedStore (run cs s) × HasReached id n (run cs s)
unfolding run
run-HasReached [] id n s b h = (b, h)
run-HasReached (c ∷ cs) id n s b h =
    run-HasReached cs id n (perform c s) (perform-keyed c s b) (perform-HasReached c id n s b h)
