-- ===== src/Payments/Claims.antt =====
-- The claim of PaymentsRepository.claimStatusTransition: the row that it moves, and its count.
use patheya_express_platform.Common.{ℕ, ◌≡◌, refl, Option, some, List, includes, ==_iff}
use patheya_express_platform.Common.Table.{
  find_holds, map_found, find-update_where, IsKeyed, IsKeyed-update_where, count-claim, one_if,
}
use patheya_express_platform.Schema.{TransactionStatus, transaction_status_eq}
use patheya_express_platform.Payments.Store.{
  Store, Payment, PaymentMethod, has_id, find_by_id, claimable, transitioned_row,
  claim_status_transition,
}

-- The ids of payments are a key.
abbrev pub IsKeyedStore : Store → Type 0
IsKeyedStore s = IsKeyed (λ (p : Payment). p.id) s.next_payment_id s.payments

pub claim-keyed :
    (k : ℕ) (allowed : List TransactionStatus) (next : TransactionStatus) (pid : Option ℕ)
    (m : Option PaymentMethod) (s : Store)
    → IsKeyedStore s
    → IsKeyedStore (claim_status_transition k allowed next pid m s).1
unfolding claim_status_transition
claim-keyed k allowed next pid m s b =
    IsKeyed-update_where (λ (p : Payment). p.id) (claimable k allowed) (transitioned_row next pid m)
      s.next_payment_id s.payments (λ p. refl) b

-- What a claim on payment `k` makes of payment `id`.
pub claim-find :
    (id k : ℕ) (allowed : List TransactionStatus) (next : TransactionStatus) (pid : Option ℕ)
    (m : Option PaymentMethod) (s : Store)
    → find_by_id id (claim_status_transition k allowed next pid m s).1
      ≡ map_found (claimable k allowed) (transitioned_row next pid m) (find_by_id id s)
unfolding claim_status_transition find_by_id
claim-find id k allowed next pid m s =
    find-update_where (has_id id) (claimable k allowed) (transitioned_row next pid m) s.payments
      (λ p. refl)

-- The claim counts the row that it moves.
pub claim-count :
    (k : ℕ) (allowed : List TransactionStatus) (next : TransactionStatus) (pid : Option ℕ)
    (m : Option PaymentMethod) (s : Store)
    → IsKeyedStore s
    → (claim_status_transition k allowed next pid m s).0
      ≡ one_if (λ (p : Payment). p.id) (λ p. includes allowed p.status) (find_by_id k s)
unfolding claim_status_transition find_by_id
claim-count k allowed next pid m s b =
    count-claim (λ (p : Payment). p.id) (λ p. includes allowed p.status) k s.next_payment_id
      s.payments b

pub find_by_id-id : (id : ℕ) (s : Store) (p : Payment) → find_by_id id s ≡ some p → p.id ≡ id
unfolding find_by_id
find_by_id-id id s p e = (==_iff p.id id).0 (find_holds (has_id id) p s.payments e)
