-- ===== src/Wallet.antt =====
-- The wallet ledger: modules/wallet, repositories/wallet.repository.ts and services/wallet.service.ts.
-- Amounts are in paise, positive for a credit and negative for a debit.
pub mod Credits
pub mod Ledger
pub mod History
pub mod Twice
pub mod Applied
pub mod Referrals
mod Examples
use patheya_express_platform.Common.{
  ℕ, suc, ◌+◌, ◌*◌, ◌/◌, Bool, true, false, not, ◌&&◌, ◌||◌, Option, none, some, List, [], ◌∷◌, leb,
  ◌==◌, ◌===◌, is_id, is_some, if◌then◌else◌, find, any, Action, Result, ok, err, bad_request,
  forbidden, not_found, unique_violation, record_missing, ◌>>=◌, ◌>>◌, pure, throw_if, or_throw,
  gets, modify, transaction, retry, max_serialization_retries,
}
use patheya_express_platform.Common.Int.{ℤ, pos, ◌+ℤ◌, ◌-ℤ◌, ltb_ℤ, leb_ℤ, min_ℤ}
use patheya_express_platform.Common.Table.{update_where}
use patheya_express_platform.Schema.{
  WalletTransactionType, wallet_transaction_type_eq, WalletTransactionStatus,
  wallet_transaction_status_eq, PaymentStatus, payment_status_eq,
}

pub record WalletTransaction : Type 0 where
  pub id : ℕ
  pub user_id : ℕ
  pub type : WalletTransactionType
  pub status : WalletTransactionStatus
  pub amount : ℤ
  pub balance_after : ℤ
  pub order_id : Option ℕ
  pub referral_id : Option ℕ

-- What the wallet reads and writes of an order.
pub record OrderForWallet : Type 0 where
  pub id : ℕ
  pub customer_id : ℕ
  pub total_amount : ℤ
  pub wallet_amount_used : ℤ
  pub payment_status : PaymentStatus

pub record Referral : Type 0 where
  pub id : ℕ
  pub referrer_id : ℕ
  pub referee_id : ℕ
  pub rewarded : Bool

-- What the service emits after a write, newest first.
pub data Event : Type 0 where
  balance_changed : (user_id : ℕ) → ℤ → Event
  credit_notified : (user_id : ℕ) → Event
  payment_success : (order_id : ℕ) → Event
  reward_notified : (user_id : ℕ) → Event

pub record Store : Type 0 where
  pub entries : List WalletTransaction
  pub next_id : ℕ
  pub orders : List OrderForWallet
  pub referrals : List Referral
  pub delivered_count : ℕ → ℕ
  pub events : List Event

abbrev pub counts_for : ℕ → WalletTransaction → Bool
counts_for user_id e = (e.user_id == user_id) && (e.status === WalletTransactionStatus.completed)

-- The sum over the completed entries of a user.
abbrev pub balance_of : ℕ → List WalletTransaction → ℤ
balance_of user_id [] = pos 0
balance_of user_id (e ∷ es) =
    let rest = balance_of user_id es in if counts_for user_id e then rest +ℤ e.amount else rest

-- `getBalance`
unfoldable pub get_balance : ℕ → Store → ℤ
get_balance user_id s = balance_of user_id s.entries

-- The arguments of `writeLedgerEntry`.
pub record EntryParams : Type 0 where
  pub user_id : ℕ
  pub type : WalletTransactionType
  pub amount : ℤ
  pub order_id : Option ℕ
  pub referral_id : Option ℕ

abbrev same_order : Option ℕ → Option ℕ → Bool
same_order none other = false
same_order (some order_id) other = is_id other order_id

-- The unique index on user, type and order; entries without an order never clash.
abbrev pub clashes : EntryParams → WalletTransaction → Bool
clashes p e = (e.user_id == p.user_id) && (e.type === p.type) && same_order p.order_id e.order_id

abbrev pub new_entry : ℕ → EntryParams → ℤ → WalletTransaction
new_entry id p before = record {
  id = id;
  user_id = p.user_id;
  type = p.type;
  status = WalletTransactionStatus.completed;
  amount = p.amount;
  balance_after = before +ℤ p.amount;
  order_id = p.order_id;
  referral_id = p.referral_id;
}

-- `insertLedgerEntry`; the balance before is the one known, or the sum.
unfoldable pub insert_ledger_entry : EntryParams → ℤ → Action Store WalletTransaction
insert_ledger_entry p before s =
    if ltb_ℤ (before +ℤ p.amount) (pos 0)
    then (err bad_request, s)
    else if any (clashes p) s.entries
    then (err unique_violation, s)
    else (
      ok (new_entry s.next_id p before),
      record s { entries = new_entry s.next_id p before ∷ s.entries; next_id = suc s.next_id },
    )

-- `WalletRepository.writeLedgerEntry`, a serializable transaction.
unfoldable pub write_row : EntryParams → Action Store WalletTransaction
unfolding insert_ledger_entry get_balance
write_row p s = transaction (insert_ledger_entry p (get_balance p.user_id s)) s

abbrev pub publish : Event → Store → Store
publish e s = record s { events = e ∷ s.events }

-- `applyLedgerSideEffects`
abbrev pub side_effects : EntryParams → WalletTransaction → Store → Store
side_effects p e s =
    let told = publish (balance_changed p.user_id e.balance_after) s in
    if ltb_ℤ (pos 0) p.amount then publish (credit_notified p.user_id) told else told

-- `findLedgerEntry`
abbrev pub existing_entry : EntryParams → Store → Option WalletTransaction
existing_entry p s = find (clashes p) s.entries

-- The `catch` of a duplicate event: the entry that is there already, as if it had just been written.
unfoldable pub settle_entry :
    EntryParams → Result WalletTransaction × Store → Result WalletTransaction × Store
settle_entry p (ok e, s) = (ok e, side_effects p e s)
settle_entry p (err unique_violation, s) = or_throw (existing_entry p s) unique_violation s
settle_entry p (err x, s) = (err x, s)

-- `WalletService.writeLedgerEntry`; `aborted` says which attempts Postgres aborts.
unfoldable pub write_ledger_entry : (ℕ → Bool) → EntryParams → Action Store WalletTransaction
unfolding write_row settle_entry
write_ledger_entry aborted p s =
    settle_entry p (retry max_serialization_retries aborted 0 (write_row p) s)

abbrev pub claimable : ℕ → OrderForWallet → Bool
claimable id o =
    (o.id == id)
    && (leb_ℤ o.wallet_amount_used (pos 0) && leb_ℤ (pos 0) o.wallet_amount_used)
    && not (o.payment_status === PaymentStatus.paid)

abbrev pub order_payment : ℕ → ℕ → ℤ → EntryParams
order_payment user_id order_id amount = record {
  user_id = user_id;
  type = WalletTransactionType.order_payment;
  amount = pos 0 -ℤ amount;
  order_id = some order_id;
  referral_id = none;
}

abbrev pub used_on : ℕ → ℤ → Store → Store
used_on order_id amount s = record s {
  orders =
      update_where (claimable order_id) (λ o. record o { wallet_amount_used = amount }) s.orders;
}

-- The claim on the order and the ledger entry of `applyToOrderAtomic`; none is `already_applied`.
unfoldable pub apply_amount : ℕ → ℕ → ℤ → Action Store (Option (WalletTransaction × ℤ))
unfolding get_balance
apply_amount user_id order_id amount s =
    if leb_ℤ amount (pos 0)
    then (err bad_request, s)
    else if not (any (claimable order_id) s.orders)
    then (ok none, s)
    else (insert_ledger_entry (order_payment user_id order_id amount) (get_balance user_id s)
          >>= λ e. pure (some (e, amount)))
        (used_on order_id amount s)

abbrev pub find_order_for_wallet : ℕ → Store → Option OrderForWallet
find_order_for_wallet id s = find (λ o. o.id == id) s.orders

-- `applyToOrderAtomic`, a serializable transaction.
unfoldable pub apply_to_order_atomic : ℕ → ℕ → ℤ → Action Store (Option (WalletTransaction × ℤ))
unfolding apply_amount
apply_to_order_atomic user_id order_id requested s = elim (find_order_for_wallet order_id s) [
  | none ↦ (err not_found, s)
  | some o ↦
      transaction
        (apply_amount user_id order_id
          (min_ℤ (min_ℤ requested (get_balance user_id s)) o.total_amount))
        s
]

-- `applyToOrder` up to its catch: the checks on the order as it is read, and the transaction.
unfoldable pub apply_checked : ℕ → ℕ → ℤ → Action Store (Option (WalletTransaction × ℤ) × ℤ)
apply_checked user_id order_id requested = do
  order ← or_throw (← gets (find_order_for_wallet order_id)) not_found
  throw_if (not (order.customer_id == user_id)) forbidden
  throw_if (order.payment_status === PaymentStatus.paid) bad_request
  throw_if (ltb_ℤ (pos 0) order.wallet_amount_used) bad_request
  throw_if (leb_ℤ requested (pos 0) || ltb_ℤ order.total_amount requested) bad_request
  outcome ← apply_to_order_atomic user_id order_id requested
  pure (outcome, order.total_amount)

-- What the customer still has to pay, and the event when that is nothing.
abbrev pub settle_apply : ℕ → ℕ → Option (WalletTransaction × ℤ) × ℤ → Action Store (ℤ × ℤ)
settle_apply user_id order_id (none, total) s = (err bad_request, s)
settle_apply user_id order_id (some (e, amount), total) s =
    let told = side_effects (order_payment user_id order_id amount) e s in
    let remaining = if leb_ℤ total amount then pos 0 else total -ℤ amount in
    (
      ok (amount, remaining),
      if leb_ℤ total amount then publish (payment_success order_id) told else told,
    )

-- `WalletService.applyToOrder`
unfoldable pub apply_to_order : (ℕ → Bool) → ℕ → ℕ → ℤ → Action Store (ℤ × ℤ)
unfolding apply_checked
apply_to_order aborted user_id order_id requested =
    retry max_serialization_retries aborted 0 (apply_checked user_id order_id requested)
    >>= settle_apply user_id order_id
