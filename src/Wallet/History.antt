-- ===== src/Wallet/History.antt =====
-- The ledger over any sequence of calls.
use patheya_express_platform.Common.{
  ℕ, Bool, some, none, List, [], ◌∷◌, arith, ok, ◌==◌, Bool-cases, Option-cases, find, ◌≡◌, ◌⊎◌,
  inl, inr,
}
use patheya_express_platform.Common.Int.{ℤ}
use patheya_express_platform.Schema.{
  WalletTransactionType, wallet_transaction_type_eq, wallet_transaction_status_eq,
}
use patheya_express_platform.Wallet.{
  Store, Referral, EntryParams, write_ledger_entry, apply_to_order,
}
use patheya_express_platform.Wallet.Credits.{
  credit, cashback, credit_cashback, credit_refund, admin_adjust_balance, adjustment, mark_rewarded,
  reward_entry, reward_both, reward_referral_if_eligible,
}
use patheya_express_platform.Wallet.Ledger.{IsSound, entry-IsSound, apply-IsSound}

cashback-IsSound :
    (aborted : ℕ → Bool) (user_id order_id total : ℕ) (s : Store)
    → IsSound s.entries
    → IsSound (credit_cashback aborted user_id order_id total s).1.entries
unfolding credit_cashback
cashback-IsSound aborted user_id order_id total s b =
    let p = credit user_id WalletTransactionType.cashback (cashback total) (some order_id) none in
    ground (arith, b, entry-IsSound aborted p s b)

refund-IsSound :
    (aborted : ℕ → Bool) (user_id order_id amount : ℕ) (s : Store)
    → IsSound s.entries
    → IsSound (credit_refund aborted user_id order_id amount s).1.entries
unfolding credit_refund
refund-IsSound aborted user_id order_id amount s b =
    let p = credit user_id WalletTransactionType.refund_credit amount (some order_id) none in
    ground (arith, b, entry-IsSound aborted p s b)

adjust-IsSound :
    (aborted : ℕ → Bool) (user_id : ℕ) (amount : ℤ) (s : Store)
    → IsSound s.entries
    → IsSound (admin_adjust_balance aborted user_id amount s).1.entries
unfolding admin_adjust_balance
adjust-IsSound aborted user_id amount s b =
    ground (arith, b, entry-IsSound aborted (adjustment user_id amount) s b)

both-IsSound :
    (aborted : ℕ → Bool) (r : Referral) (s : Store)
    → IsSound s.entries
    → IsSound (reward_both aborted r s).1.entries
unfolding reward_both
both-IsSound aborted r s b =
    let first = reward_entry r.referee_id r in
    let t = (write_ledger_entry aborted first s).1 in
    ground (
      arith,
      entry-IsSound aborted (reward_entry r.referrer_id r) t (entry-IsSound aborted first s b),
    )

reward_cases :
    (aborted : ℕ → Bool) (k : ℕ) (s : Store)
    → (reward_referral_if_eligible aborted k s ≡ (ok tt, s))
      ⊎ ((r : Referral) × (reward_referral_if_eligible aborted k s
            ≡ reward_both aborted r (mark_rewarded r.id s)))
unfolding reward_referral_if_eligible
reward_cases aborted k s = elim (Option-cases (find (λ r. r.referee_id == k) s.referrals)) [
  | inl h ↦ inl (ground (arith, h))
  | inr (r, h) ↦ elim (Bool-cases r.rewarded) [
    | inl w ↦ inl (ground (arith, h, w))
    | inr w ↦ elim (Bool-cases (s.delivered_count k == 1)) [
      | inl d ↦ inr (r, ground (arith, h, w, d))
      | inr d ↦ inl (ground (arith, h, w, d))
    ]
  ]
]

reward-IsSound :
    (aborted : ℕ → Bool) (k : ℕ) (s : Store)
    → IsSound s.entries
    → IsSound (reward_referral_if_eligible aborted k s).1.entries
reward-IsSound aborted k s b = elim (reward_cases aborted k s) [
  | inl e ↦ rw e b
  | inr (r, e) ↦ rw e (both-IsSound aborted r (mark_rewarded r.id s) b)
]

-- A call that writes to the ledger.
pub data Call : Type 0 where
  writes : (aborted : ℕ → Bool) → EntryParams → Call
  applies : (aborted : ℕ → Bool) (user_id order_id : ℕ) → ℤ → Call
  cashes : (aborted : ℕ → Bool) (user_id order_id order_total : ℕ) → Call
  refunds : (aborted : ℕ → Bool) (user_id order_id amount : ℕ) → Call
  adjusts : (aborted : ℕ → Bool) (user_id : ℕ) → ℤ → Call
  rewards : (aborted : ℕ → Bool) (referee_id : ℕ) → Call

pub perform : Call → Store → Store
perform (writes aborted p) s = (write_ledger_entry aborted p s).1
perform (applies aborted u o requested) s = (apply_to_order aborted u o requested s).1
perform (cashes aborted u o total) s = (credit_cashback aborted u o total s).1
perform (refunds aborted u o amount) s = (credit_refund aborted u o amount s).1
perform (adjusts aborted u amount) s = (admin_adjust_balance aborted u amount s).1
perform (rewards aborted referee) s = (reward_referral_if_eligible aborted referee s).1

pub run : List Call → Store → Store
run [] s = s
run (c ∷ cs) s = run cs (perform c s)

-- Whatever is credited, debited, adjusted, rewarded and applied to orders, in any order and with any aborted attempts,
-- from a sound ledger: no balance is below zero, every entry carries the balance that its user had
-- right after it, and no user has two entries of a type for the same order.
pub ledger-IsSound : (cs : List Call) (s : Store) → IsSound s.entries → IsSound (run cs s).entries
unfolding run perform
ledger-IsSound [] s b = b
ledger-IsSound (writes aborted p ∷ cs) s b =
    ledger-IsSound cs (perform (writes aborted p) s) (entry-IsSound aborted p s b)
ledger-IsSound (applies aborted u o requested ∷ cs) s b =
    ledger-IsSound cs (perform (applies aborted u o requested) s)
      (apply-IsSound aborted u o requested s b)
ledger-IsSound (cashes aborted u o total ∷ cs) s b =
    ledger-IsSound cs (perform (cashes aborted u o total) s)
      (cashback-IsSound aborted u o total s b)
ledger-IsSound (refunds aborted u o amount ∷ cs) s b =
    ledger-IsSound cs (perform (refunds aborted u o amount) s)
      (refund-IsSound aborted u o amount s b)
ledger-IsSound (adjusts aborted u amount ∷ cs) s b =
    ledger-IsSound cs (perform (adjusts aborted u amount) s) (adjust-IsSound aborted u amount s b)
ledger-IsSound (rewards aborted referee ∷ cs) s b =
    ledger-IsSound cs (perform (rewards aborted referee) s) (reward-IsSound aborted referee s b)
