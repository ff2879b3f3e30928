-- ===== src/Payments/RefundLedger.antt =====
-- The refunds of a payment over any history: at most one is ever under way or done.
use patheya_express_platform.Common.{
  ℕ, suc, ◌+◌, ◌≤◌, ◌≡◌, ◌⊎◌, inl, inr, refl, ap, ◌∙◌, Bool, true, false, Option, none, some, List,
  [], ◌∷◌, arith, find, count, any, ◌==◌, ◌===◌, if◌then◌else◌, Option-cases, Bool-cases,
}
use patheya_express_platform.Common.Int.{ℤ}
use patheya_express_platform.Common.Table.{
  update_where, IsKeyed, one_if, count-claim, count-update_one,
}
use patheya_express_platform.Schema.{TransactionStatus, transaction_status_eq}
use patheya_express_platform.Payments.Store.{
  Store, Payment, PaymentMethod, Refund, refund_with, new_refund, open_refund, refund_moved,
  find_by_id, claim_refund, claim_refund_of, finalize_refund_success, finalize_refund_failure,
}
use patheya_express_platform.Payments.Transition.{transition_seen}
use patheya_express_platform.Payments.Claims.{IsKeyedStore, find_by_id-id}

abbrev pub pending_refunds : ℕ → Store → ℕ
pending_refunds k s = count (refund_with TransactionStatus.pending k) s.refunds

abbrev pub done_refunds : ℕ → Store → ℕ
done_refunds k s = count (refund_with TransactionStatus.refunded k) s.refunds

abbrev pub has_status : TransactionStatus → Option Payment → Bool
has_status st none = false
has_status st (some p) = p.status === st

-- At most one refund is under way or done; one under way is of a payment that has succeeded, one
-- that is done of a payment that is refunded.
abbrev pub Agrees : (pending done : ℕ) → Option Payment → Type 0
Agrees m n o =
    (m + n ≤ 1)
    × (1 ≤ m → has_status TransactionStatus.success o ≡ true)
    × (1 ≤ n → has_status TransactionStatus.refunded o ≡ true)

abbrev pub IsSound : Store → ℕ → Type 0
IsSound s k = Agrees (pending_refunds k s) (done_refunds k s) (find_by_id k s)

pub record IsValid (s : Store) : Type 0 where
  pub payment_keys : IsKeyedStore s
  pub refund_keys : IsKeyed (λ (r : Refund). r.id) s.next_refund_id s.refunds
  pub sound : (k : ℕ) → IsSound s k

-- One committed write of refunding or of settling a payment. A refund is completed with the payment
-- that it belongs to.
pub data Step (s : Store) : Store → Type 0 where
  claims : (k : ℕ) (amount : ℤ) → Step s (claim_refund k amount s).1
  completes :
      (r : Refund) (pid : Option ℕ)
      → find (λ (x : Refund). x.id == r.id) s.refunds ≡ some r
      → Step s (finalize_refund_success r.payment_id r.id pid s).1
  fails : (r : ℕ) → Step s (finalize_refund_failure r s).1
  settles :
      (seen : Payment) (k : ℕ) (next : TransactionStatus) (pid : Option ℕ)
      (m : Option PaymentMethod)
      → (next ≡ TransactionStatus.success) ⊎ (next ≡ TransactionStatus.failed)
      → Step s (transition_seen seen k next pid m s).1

pub data Reach (s : Store) : Store → Type 0 where
  start : Reach s s
  then_step : {t u : Store} → Reach s t → Step t u → Reach s u

abbrev pub refund_added : ℕ → ℤ → Store → Store
refund_added k amount s = record s {
  refunds = new_refund s.next_refund_id k amount ∷ s.refunds;
  next_refund_id = suc s.next_refund_id;
}

pub count-any : (q : Refund → Bool) (rs : List Refund) → any q rs ≡ false → count q rs ≡ 0
count-any q [] h = refl
count-any q (r ∷ rs) h = ground (arith, count-any q rs)

-- A claim takes hold of a payment that has succeeded and has no refund under way.
pub claim_refund_of_cases :
    (amount : ℤ) (p : Payment) (s : Store)
    → ((claim_refund_of amount p s).1 ≡ s)
      ⊎ ((p.status ≡ TransactionStatus.success)
          × (any (refund_with TransactionStatus.pending p.id) s.refunds ≡ false)
          × ((claim_refund_of amount p s).1 ≡ refund_added p.id amount s))
unfolding claim_refund_of
claim_refund_of_cases amount p s = ground arith

-- What a claim leaves: the store, or one more pending refund of a payment that has none.
claim_refund_cases :
    (k : ℕ) (amount : ℤ) (s : Store)
    → ((claim_refund k amount s).1 ≡ s)
      ⊎ ((p : Payment) × (find_by_id k s ≡ some p)
          × (p.status ≡ TransactionStatus.success)
          × (pending_refunds k s ≡ 0)
          × ((claim_refund k amount s).1 ≡ refund_added k amount s))
unfolding claim_refund
claim_refund_cases k amount s = elim (Option-cases (find_by_id k s)) [
  | inl e ↦ inl (rw (e, claim_refund) refl)
  | inr (p, e) ↦ elim (claim_refund_of_cases amount p s) [
    | inl h ↦ inl (rw (e, claim_refund) h)
    | inr h ↦
        let key = find_by_id-id k s p e in
        inr (
          p,
          e,
          h.0,
          count-any (refund_with TransactionStatus.pending k) s.refunds (rw key at h.1),
          rw (e, claim_refund) (h.2 ∙ ap (λ j. refund_added j amount s) key),
        )
  ]
]

refund_added-IsSound :
    (k j : ℕ) (amount : ℤ) (s : Store) (p : Payment)
    → find_by_id k s ≡ some p
    → p.status ≡ TransactionStatus.success
    → pending_refunds k s ≡ 0
    → IsSound s j
    → IsSound (refund_added k amount s) j
unfolding find_by_id
refund_added-IsSound k j amount s p e st h b = elim (Bool-cases (k == j)) [
  | inl c ↦ ground arith
  | inr c ↦ ground arith
]

pub refund_added-IsValid :
    (k : ℕ) (amount : ℤ) (s : Store) (p : Payment)
    → IsValid s
    → find_by_id k s ≡ some p
    → p.status ≡ TransactionStatus.success
    → pending_refunds k s ≡ 0
    → IsValid (refund_added k amount s)
refund_added-IsValid k amount s p b e st h = record {
  payment_keys = b.payment_keys;
  refund_keys = (omega arith, b.refund_keys);
  sound = λ j. refund_added-IsSound k j amount s p e st h (b.sound j);
}

pub claims-IsValid :
    (k : ℕ) (amount : ℤ) (s : Store) → IsValid s → IsValid (claim_refund k amount s).1
claims-IsValid k amount s b = elim (claim_refund_cases k amount s) [
  | inl e ↦ rw e b
  | inr (p, e, st, h, t) ↦ rw t (refund_added-IsValid k amount s p b e st h)
]

-- Moving the pending refund `r` on.
pub moved-count :
    (st to : TransactionStatus) (j id : ℕ) (r : Refund) (s : Store)
    → IsKeyed (λ (x : Refund). x.id) s.next_refund_id s.refunds
    → find (λ (x : Refund). x.id == id) s.refunds ≡ some r
    → r.status ≡ TransactionStatus.pending
    → count (refund_with st j) (update_where (open_refund id) (refund_moved to) s.refunds)
        + (if refund_with st j r then 1 else 0)
      ≡ count (refund_with st j) s.refunds + (if refund_with st j (refund_moved to r) then 1 else 0)
moved-count st to j id r s b e h =
    count-update_one (λ (x : Refund). x.id) (refund_with st j)
      (λ x. x.status === TransactionStatus.pending) (refund_moved to) id s.next_refund_id r
      s.refunds b e (ground arith)

pub not_open :
    (id : ℕ) (s : Store) (o : Option Refund)
    → IsKeyed (λ (x : Refund). x.id) s.next_refund_id s.refunds
    → find (λ (x : Refund). x.id == id) s.refunds ≡ o
    → one_if (λ (x : Refund). x.id) (λ x. x.status === TransactionStatus.pending) o ≡ 0
    → count (open_refund id) s.refunds ≡ 0
not_open id s o b e h =
    count-claim (λ (x : Refund). x.id) (λ x. x.status === TransactionStatus.pending) id
      s.next_refund_id s.refunds b
    ∙ rw e h
