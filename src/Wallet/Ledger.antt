-- ===== src/Wallet/Ledger.antt =====
-- A sound ledger, and that each write leaves it sound.
use patheya_express_platform.Common.{
  ℕ, zero, suc, ◌≤◌, ◌≡◌, ◌⊎◌, inl, inr, refl, Bool, false, ◌&&◌, Option, none, some, List, [], ◌∷◌,
  arith, ok, err, bad_request, unique_violation, Result, any, count, Option-cases, Bool-cases, ◌==◌,
  ◌===◌, is_id, Action, committed, after, retry, max_serialization_retries,
}
use patheya_express_platform.Common.Int.{ℤ, pos, ◌+ℤ◌, ◌≤ℤ◌, min_ℤ}
use patheya_express_platform.Schema.{
  WalletTransactionType, wallet_transaction_type_eq, WalletTransactionStatus,
  wallet_transaction_status_eq,
}
use patheya_express_platform.Wallet.{
  Store, WalletTransaction, EntryParams, balance_of, get_balance, clashes, new_entry,
  insert_ledger_entry, write_row, write_ledger_entry, settle_entry, apply_amount,
  apply_to_order_atomic, apply_checked, settle_apply, apply_to_order, order_payment,
  find_order_for_wallet,
}

-- Every entry is completed and carries the balance of its user right after it.
abbrev pub Snapshots : List WalletTransaction → Type 0
Snapshots [] = Unit {0}
Snapshots (e ∷ es) =
    (e.status ≡ WalletTransactionStatus.completed)
    × (e.balance_after ≡ balance_of e.user_id es +ℤ e.amount)
    × Snapshots es

-- The entries of a user and a type for one order.
abbrev pub entry_for : ℕ → WalletTransactionType → ℕ → WalletTransaction → Bool
entry_for user_id type order_id e =
    (e.user_id == user_id) && (e.type === type) && is_id e.order_id order_id

pub record IsSound (es : List WalletTransaction) : Type 0 where
  pub nonnegative : (u : ℕ) → pos 0 ≤ℤ balance_of u es
  pub snapshots : Snapshots es
  pub unique : (u : ℕ) (type : WalletTransactionType) (o : ℕ) → count (entry_for u type o) es ≤ 1

no_clash :
    (p : EntryParams) (o : ℕ) (es : List WalletTransaction)
    → p.order_id ≡ some o
    → any (clashes p) es ≡ false
    → count (entry_for p.user_id p.type o) es ≡ 0
no_clash p o [] h c = refl
no_clash p o (e ∷ es) h c = ground (arith, no_clash p o es h)

pub insert_cases :
    (p : EntryParams) (before : ℤ) (s : Store)
    → (insert_ledger_entry p before s ≡ (err bad_request, s))
      ⊎ (insert_ledger_entry p before s ≡ (err unique_violation, s))
      ⊎ ((pos 0 ≤ℤ before +ℤ p.amount)
          × (any (clashes p) s.entries ≡ false)
          × (insert_ledger_entry p before s ≡ (
            ok (new_entry s.next_id p before),
            record s {
              entries = new_entry s.next_id p before ∷ s.entries;
              next_id = suc s.next_id;
            },
          )))
unfolding insert_ledger_entry
insert_cases p before s = ground arith

added-IsSound :
    (id : ℕ) (p : EntryParams) (es : List WalletTransaction)
    → IsSound es
    → pos 0 ≤ℤ balance_of p.user_id es +ℤ p.amount
    → any (clashes p) es ≡ false
    → IsSound (new_entry id p (balance_of p.user_id es) ∷ es)
added-IsSound id p es b h c = record {
  nonnegative = λ u. ground (arith, b.nonnegative u);
  snapshots = (refl, refl, b.snapshots);
  unique = λ u type o. ground (arith, b.unique u type o, no_clash p o es);
}

insert-IsSound :
    (p : EntryParams) (s : Store)
    → IsSound s.entries
    → IsSound (insert_ledger_entry p (balance_of p.user_id s.entries) s).1.entries
insert-IsSound p s b = elim (insert_cases p (balance_of p.user_id s.entries) s) [
  | inl e ↦ rw e b
  | inr (inl e) ↦ rw e b
  | inr (inr (h, c, e)) ↦ rw e (added-IsSound s.next_id p s.entries b h c)
]

pub write_row-insert :
    (p : EntryParams) (s : Store)
    → write_row p s ≡ insert_ledger_entry p (balance_of p.user_id s.entries) s
unfolding write_row get_balance insert_ledger_entry
write_row-insert p s = ground arith

write-IsSound :
    (p : EntryParams) (s : Store) → IsSound s.entries → IsSound (write_row p s).1.entries
write-IsSound p s b = rw (write_row-insert p s) (insert-IsSound p s b)

pub retry-IsSound :
    {A : Type 0} (left : ℕ) (aborted : ℕ → Bool) (attempt : ℕ) (m : Action Store A) (s : Store)
    → IsSound s.entries
    → IsSound (m s).1.entries
    → IsSound (retry left aborted attempt m s).1.entries
retry-IsSound zero aborted attempt m s b h = elim (Bool-cases (aborted attempt)) [
  | inl c ↦ rw c b
  | inr c ↦ rw c h
]
retry-IsSound (suc left) aborted attempt m s b h = elim (Bool-cases (aborted attempt)) [
  | inl c ↦ rw c (retry-IsSound left aborted (suc attempt) m s b h)
  | inr c ↦ rw c h
]

settle-entries :
    (p : EntryParams) (r : Result WalletTransaction × Store)
    → (settle_entry p r).1.entries ≡ r.1.entries
unfolding settle_entry
settle-entries p (ok e, s) = ground arith
settle-entries p (err x, s) = ground arith

pub entry-IsSound :
    (aborted : ℕ → Bool) (p : EntryParams) (s : Store)
    → IsSound s.entries
    → IsSound (write_ledger_entry aborted p s).1.entries
unfolding write_ledger_entry
entry-IsSound aborted p s b =
    rw (settle-entries p (retry max_serialization_retries aborted 0 (write_row p) s))
      (retry-IsSound max_serialization_retries aborted 0 (write_row p) s b (write-IsSound p s b))

-- What applying the wallet to an order leaves of the ledger.
apply_entries :
    (u o : ℕ) (amount : ℤ) (s : Store)
    → ((apply_amount u o amount s).1.entries ≡ s.entries)
      ⊎ ((apply_amount u o amount s).1.entries
          ≡ (insert_ledger_entry (order_payment u o amount) (balance_of u s.entries) s).1.entries)
unfolding apply_amount get_balance insert_ledger_entry
apply_entries u o amount s = ground arith

amount-IsSound :
    (u o : ℕ) (amount : ℤ) (s : Store)
    → IsSound s.entries
    → IsSound (apply_amount u o amount s).1.entries
amount-IsSound u o amount s b = elim (apply_entries u o amount s) [
  | inl e ↦ rw e b
  | inr e ↦ rw e (insert-IsSound (order_payment u o amount) s b)
]

committed-IsSound :
    {A : Type 0} (s : Store) (r : Result A × Store)
    → IsSound s.entries
    → IsSound r.1.entries
    → IsSound (committed s r).1.entries
committed-IsSound s (ok a, t) b h = h
committed-IsSound s (err e, t) b h = b

atomic-IsSound :
    (u o : ℕ) (requested : ℤ) (s : Store)
    → IsSound s.entries
    → IsSound (apply_to_order_atomic u o requested s).1.entries
unfolding apply_to_order_atomic
atomic-IsSound u o requested s b = elim (Option-cases (find_order_for_wallet o s)) [
  | inl e ↦ rw (e, apply_to_order_atomic) b
  | inr (order, e) ↦
      rw (e, apply_to_order_atomic)
        (committed-IsSound s
          (apply_amount u o (min_ℤ (min_ℤ requested (get_balance u s)) order.total_amount) s) b
          (amount-IsSound u o (min_ℤ (min_ℤ requested (get_balance u s)) order.total_amount) s b))
]

checked_entries :
    (u o : ℕ) (requested : ℤ) (s : Store)
    → ((apply_checked u o requested s).1.entries ≡ s.entries)
      ⊎ ((apply_checked u o requested s).1.entries
          ≡ (apply_to_order_atomic u o requested s).1.entries)
unfolding apply_checked
checked_entries u o requested s = ground arith

checked-IsSound :
    (u o : ℕ) (requested : ℤ) (s : Store)
    → IsSound s.entries
    → IsSound (apply_checked u o requested s).1.entries
checked-IsSound u o requested s b = elim (checked_entries u o requested s) [
  | inl e ↦ rw e b
  | inr e ↦ rw e (atomic-IsSound u o requested s b)
]

after_apply :
    (u o : ℕ) (r : Result (Option (WalletTransaction × ℤ) × ℤ) × Store)
    → (after r (settle_apply u o)).1.entries ≡ r.1.entries
after_apply u o (ok (none, total), s) = refl
after_apply u o (ok (some (e, amount), total), s) = ground arith
after_apply u o (err x, s) = refl

pub apply-IsSound :
    (aborted : ℕ → Bool) (u o : ℕ) (requested : ℤ) (s : Store)
    → IsSound s.entries
    → IsSound (apply_to_order aborted u o requested s).1.entries
unfolding apply_to_order
apply-IsSound aborted u o requested s b =
    rw (after_apply u o (retry max_serialization_retries aborted 0 (apply_checked u o requested) s))
      (retry-IsSound max_serialization_retries aborted 0 (apply_checked u o requested) s b
        (checked-IsSound u o requested s b))
