-- ===== src/Wallet/Credits.antt =====
-- The credits of the wallet outside an order's payment: creditCashback, creditRefund,
-- adminAdjustBalance and rewardReferralIfEligible of modules/wallet/services/wallet.service.ts.
use patheya_express_platform.Common.{
  ℕ, ◌+◌, ◌/◌, Bool, true, not, ◌&&◌, Option, none, some, ◌==◌, if◌then◌else◌, find, Action, Result,
  ok, err, bad_request, ◌>>◌, pure, throw_if, modify,
}
use patheya_express_platform.Common.Int.{ℤ, pos, leb_ℤ}
use patheya_express_platform.Common.Table.{update_where}
use patheya_express_platform.Schema.{
  WalletTransactionType, wallet_transaction_type_eq, wallet_transaction_status_eq,
  payment_status_eq,
}
use patheya_express_platform.Wallet.{
  WalletTransaction, Referral, reward_notified, Store, EntryParams, write_ledger_entry, publish,
}

-- `CASHBACK_RATE` is 2 %, rounded half up to a paisa; `REFERRAL_REWARD_AMOUNT` is 50 rupees.
abbrev pub cashback : ℕ → ℕ
cashback order_total = (order_total + 25) / 50

abbrev pub referral_reward_amount : ℕ
referral_reward_amount = 5000

abbrev pub credit : ℕ → WalletTransactionType → ℕ → Option ℕ → Option ℕ → EntryParams
credit user_id type amount order_id referral_id = record {
  user_id = user_id;
  type = type;
  amount = pos amount;
  order_id = order_id;
  referral_id = referral_id;
}

-- `creditCashback`
unfoldable pub credit_cashback : (ℕ → Bool) → ℕ → ℕ → ℕ → Action Store (Unit {0})
credit_cashback aborted user_id order_id order_total =
    let p =
      credit user_id WalletTransactionType.cashback (cashback order_total) (some order_id) none in
    if cashback order_total == 0 then pure tt else write_ledger_entry aborted p >> pure tt

-- `creditRefund`
unfoldable pub credit_refund : (ℕ → Bool) → ℕ → ℕ → ℕ → Action Store (Unit {0})
credit_refund aborted user_id order_id amount =
    let p = credit user_id WalletTransactionType.refund_credit amount (some order_id) none in
    if amount == 0 then pure tt else write_ledger_entry aborted p >> pure tt

abbrev pub adjustment : ℕ → ℤ → EntryParams
adjustment user_id amount = record {
  user_id = user_id;
  type = WalletTransactionType.admin_adjustment;
  amount = amount;
  order_id = none;
  referral_id = none;
}

-- `adminAdjustBalance`
unfoldable pub admin_adjust_balance : (ℕ → Bool) → ℕ → ℤ → Action Store WalletTransaction
admin_adjust_balance aborted user_id amount =
    throw_if (leb_ℤ amount (pos 0) && leb_ℤ (pos 0) amount) bad_request
    >> write_ledger_entry aborted (adjustment user_id amount)

-- `Promise.all` of two results: an error of either is thrown.
abbrev both_ok : Result WalletTransaction → Result WalletTransaction → Result (Unit {0})
both_ok (ok a) (ok b) = ok tt
both_ok (err x) r = err x
both_ok (ok a) (err x) = err x

abbrev pub mark_rewarded : ℕ → Store → Store
mark_rewarded id s = record s {
  referrals = update_where (λ r. r.id == id) (λ r. record r { rewarded = true }) s.referrals;
}

abbrev pub reward_entry : ℕ → Referral → EntryParams
reward_entry user_id r =
    credit user_id WalletTransactionType.referral_reward referral_reward_amount none (some r.id)

-- The two credits of `rewardReferralIfEligible`, and the notification after them.
unfoldable pub reward_both : (ℕ → Bool) → Referral → Action Store (Unit {0})
reward_both aborted r s =
    let (first, t) = write_ledger_entry aborted (reward_entry r.referee_id r) s in
    let (second, u) = write_ledger_entry aborted (reward_entry r.referrer_id r) t in
    ((λ v. (both_ok first second, v)) >> modify (publish (reward_notified r.referrer_id))) u

-- `rewardReferralIfEligible`
unfoldable pub reward_referral_if_eligible : (ℕ → Bool) → ℕ → Action Store (Unit {0})
unfolding reward_both
reward_referral_if_eligible aborted referee_id s =
    elim (find (λ r. r.referee_id == referee_id) s.referrals) [
      | none ↦ (ok tt, s)
      | some r ↦
          if r.rewarded
          then (ok tt, s)
          else if not (s.delivered_count referee_id == 1)
          then (ok tt, s)
          else reward_both aborted r (mark_rewarded r.id s)
    ]
