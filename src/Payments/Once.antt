-- ===== src/Payments/Once.antt =====
-- Each transition of a payment happens once, whoever asks for it and whatever he had read before.
use patheya_express_platform.Common.{
  ℕ, ◌≡◌, ◌≢◌, refl, ap, ◌∙◌, true, Option, none, some, List, arith, ok,
}
use patheya_express_platform.Schema.{TransactionStatus, transaction_status_eq}
use patheya_express_platform.Payments.Machine.{
  get_allowed_source_statuses, stage, sources_invert_machine, validate_transition,
}
use patheya_express_platform.Payments.Store.{
  Store, Payment, PaymentMethod, find_by_id, transitioned_row, claim_status_transition,
}
use patheya_express_platform.Payments.Transition.{transition_seen, reread}
use patheya_express_platform.Payments.Claims.{IsKeyedStore, claim-find, claim-count, find_by_id-id}
use patheya_express_platform.Payments.Calls.{
  Call, run, HasReached, transition-keyed, run-HasReached,
}

-- A call that reports a transition has moved a row by its claim.
transition_true :
    (seen : Payment) (id : ℕ) (next : TransactionStatus) (pid : Option ℕ) (m : Option PaymentMethod)
    (s t : Store) (p : Payment)
    → transition_seen seen id next pid m s ≡ (ok (p, true), t)
    → let claim = claim_status_transition id (get_allowed_source_statuses next) next pid m s in
      (claim.0 ≢ 0) × (t ≡ claim.1)
unfolding transition_seen reread validate_transition
transition_true seen id next pid m s t p h = ground arith

claimed-HasReached :
    (id : ℕ) (next : TransactionStatus) (pid : Option ℕ) (m : Option PaymentMethod) (s : Store)
    (o : Option Payment)
    → IsKeyedStore s
    → find_by_id id s ≡ o
    → (claim_status_transition id (get_allowed_source_statuses next) next pid m s).0 ≢ 0
    → HasReached id
        (stage next)
        (claim_status_transition id (get_allowed_source_statuses next) next pid m s).1
claimed-HasReached id next pid m s none b e c =
    absurd (c (claim-count id (get_allowed_source_statuses next) next pid m s b ∙ rw e))
claimed-HasReached id next pid m s (some r) b e c = (
  transitioned_row next pid m r,
  rw (claim-find id id (get_allowed_source_statuses next) next pid m s, e)
      (ground (
        arith,
        find_by_id-id id s r e,
        c,
        claim-count id (get_allowed_source_statuses next) next pid m s b,
        e,
      )),
  omega arith,
)

-- Once a payment has got to a status no call reports a transition to it.
no_second :
    (seen : Payment) (id : ℕ) (next : TransactionStatus) (pid : Option ℕ) (m : Option PaymentMethod)
    (s t : Store) (p : Payment)
    → IsKeyedStore s
    → HasReached id (stage next) s
    → transition_seen seen id next pid m s ≢ (ok (p, true), t)
no_second seen id next pid m s t p b (q, e, h) done =
    let claim = transition_true seen id next pid m s t p done in
    claim.0 (
      claim-count id (get_allowed_source_statuses next) next pid m s b
      ∙ ground (arith, (sources_invert_machine q.status next).1))

-- However verify calls, webhook deliveries, sweeps and refunds interleave, and whatever each has
-- read before, at most one of them is told that it moved a payment to a given status: after one
-- has been, none ever is again.
pub transition_once :
    (seen later_seen : Payment) (id : ℕ) (next : TransactionStatus) (pid later_pid : Option ℕ)
    (m later_m : Option PaymentMethod) (s t u : Store) (p q : Payment) (between : List Call)
    → IsKeyedStore s
    → transition_seen seen id next pid m s ≡ (ok (p, true), t)
    → transition_seen later_seen id next later_pid later_m (run between t) ≢ (ok (q, true), u)
transition_once seen later_seen id next pid later_pid m later_m s t u p q between b done =
    let claim = transition_true seen id next pid m s t p done in
    let keyed : IsKeyedStore t =
      rw (ap (λ r. r.1) done) at (transition-keyed seen id next pid m s b) in
    let reached : HasReached id (stage next) t =
      rw claim.1 (claimed-HasReached id next pid m s (find_by_id id s) b refl claim.0) in
    let after = run-HasReached between id (stage next) t keyed reached in
    no_second later_seen id next later_pid later_m (run between t) u q after.0 after.1
