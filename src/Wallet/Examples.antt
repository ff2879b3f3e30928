-- ===== src/Wallet/Examples.antt =====
-- The wallet at concrete inputs: the runs that the properties of this component are applied to.
use patheya_express_platform.Common.{ℕ, ◌≡◌, refl, Bool, false, none, some, [], ◌∷◌, arith, ok}
use patheya_express_platform.Common.Int.{pos, ◌+ℤ◌, ◌-ℤ◌, ◌≤ℤ◌}
use patheya_express_platform.Schema.{WalletTransactionType, WalletTransactionStatus, PaymentStatus}
use patheya_express_platform.Wallet.{
  Store, WalletTransaction, EntryParams, OrderForWallet, Referral, get_balance, write_row,
  insert_ledger_entry, write_ledger_entry, settle_entry, apply_amount, apply_to_order_atomic,
  find_order_for_wallet,
}
use patheya_express_platform.Wallet.Credits.{credit, reward_referral_if_eligible}
use patheya_express_platform.Wallet.Ledger.{IsSound}
use patheya_express_platform.Wallet.History.{writes, applies, run, ledger-IsSound}
use patheya_express_platform.Wallet.Applied.{applied_bounds}

abbrev an_order : OrderForWallet
an_order = record {
  id = 7;
  customer_id = 3;
  total_amount = pos 6000;
  wallet_amount_used = pos 0;
  payment_status = PaymentStatus.pending;
}

abbrev empty : Store
empty = record {
  entries = [];
  next_id = 1;
  orders = an_order ∷ [];
  referrals = [];
  delivered_count = λ u. 0;
  events = [];
}

abbrev never : ℕ → Bool
never n = false

abbrev cashback_of_order : EntryParams
cashback_of_order = credit 3 WalletTransactionType.cashback 4000 (some 7) none

empty-IsSound : IsSound []
empty-IsSound = record {
  nonnegative = λ u. omega arith;
  snapshots = tt;
  unique = λ u type o. omega arith;
}

ledger-IsSound_example :
    IsSound (run (writes never cashback_of_order ∷ applies never 3 7 (pos 5000) ∷ []) empty).entries
ledger-IsSound_example =
    ledger-IsSound (writes never cashback_of_order ∷ applies never 3 7 (pos 5000) ∷ []) empty
      empty-IsSound

abbrev credited : Store
credited = (write_ledger_entry never cashback_of_order empty).1

abbrev first_entry : WalletTransaction
first_entry = record {
  id = 1;
  user_id = 3;
  type = WalletTransactionType.cashback;
  status = WalletTransactionStatus.completed;
  amount = pos 4000;
  balance_after = pos 4000;
  order_id = some 7;
  referral_id = none;
}

abbrev applied : Store
applied = (apply_to_order_atomic 3 7 (pos 5000) credited).1

abbrev debit : WalletTransaction
debit = record {
  id = 2;
  user_id = 3;
  type = WalletTransactionType.order_payment;
  status = WalletTransactionStatus.completed;
  amount = pos 0 -ℤ pos 4000;
  balance_after = pos 0;
  order_id = some 7;
  referral_id = none;
}

first_apply : apply_to_order_atomic 3 7 (pos 5000) credited ≡ (ok (some (debit, pos 4000)), applied)
unfolding apply_to_order_atomic apply_amount write_ledger_entry write_row insert_ledger_entry
    settle_entry get_balance ◌+ℤ◌ ◌-ℤ◌
first_apply = refl

applied_bounds_example :
    (order : OrderForWallet) × (find_order_for_wallet 7 credited ≡ some order)
    × (pos 1 ≤ℤ pos 4000)
    × (pos 4000 ≤ℤ pos 5000)
    × (pos 4000 ≤ℤ get_balance 3 credited)
    × (pos 4000 ≤ℤ order.total_amount)
    × (get_balance 3 applied ≡ get_balance 3 credited -ℤ pos 4000)
applied_bounds_example = applied_bounds 3 7 (pos 5000) (pos 4000) credited applied debit first_apply

abbrev a_referral : Referral
a_referral = record { id = 9; referrer_id = 4; referee_id = 3; rewarded = false }

abbrev referred : Store
referred = record empty { referrals = a_referral ∷ []; delivered_count = λ u. 1 }

abbrev after_reward : Store
after_reward = (reward_referral_if_eligible never 3 referred).1
