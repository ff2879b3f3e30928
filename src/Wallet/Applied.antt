-- ===== src/Wallet/Applied.antt =====
-- What applying the wallet to an order takes from the balance.
use patheya_express_platform.Common.{
  ℕ, ◌≡◌, inl, inr, sym, ap, ◌∙◌, false, some, List, ◌∷◌, arith, ok, err, Result, Option-cases,
  committed,
}
use patheya_express_platform.Common.Int.{ℤ, pos, ◌+ℤ◌, ◌-ℤ◌, ◌≤ℤ◌, leb_ℤ, min_ℤ, int_laws}
use patheya_express_platform.Schema.{wallet_transaction_type_eq, wallet_transaction_status_eq}
use patheya_express_platform.Wallet.{
  Store, WalletTransaction, OrderForWallet, balance_of, get_balance, new_entry, insert_ledger_entry,
  apply_amount, apply_to_order_atomic, order_payment, find_order_for_wallet,
}

amount_result :
    (u o : ℕ) (amount : ℤ) (s t : Store) (e : WalletTransaction) (applied : ℤ)
    → apply_amount u o amount s ≡ (ok (some (e, applied)), t)
    → (applied ≡ amount)
      × (leb_ℤ amount (pos 0) ≡ false)
      × (t.entries ≡ e ∷ s.entries)
      × (e ≡ new_entry s.next_id (order_payment u o amount) (balance_of u s.entries))
unfolding apply_amount get_balance insert_ledger_entry
amount_result u o amount s t e applied run = ground arith

committed_ok :
    {A : Type 0} (s t : Store) (r : Result A × Store) (a : A)
    → committed s r ≡ (ok a, t)
    → r ≡ (ok a, t)
committed_ok s t (ok b, u) a h = h
committed_ok s t (err x, u) a h = absurd (ground arith)

min_bounds :
    (a b c : ℤ)
    → (min_ℤ (min_ℤ a b) c ≤ℤ a) × (min_ℤ (min_ℤ a b) c ≤ℤ b) × (min_ℤ (min_ℤ a b) c ≤ℤ c)
min_bounds a b c = ground arith

balance_step : (b a : ℤ) → b +ℤ (pos 0 -ℤ a) ≡ b -ℤ a
balance_step b a = grind int_laws

above_zero : (a : ℤ) → leb_ℤ a (pos 0) ≡ false → pos 1 ≤ℤ a
above_zero a h = ground arith

fallen :
    (u o id : ℕ) (a : ℤ) (es : List WalletTransaction)
    → balance_of u (new_entry id (order_payment u o a) (balance_of u es) ∷ es)
      ≡ balance_of u es -ℤ a
fallen u o id a es = ground (arith, balance_step (balance_of u es) a)

-- What is applied to an order is positive, and at most what was asked for, the balance and the
-- total of the order; the balance falls by exactly that.
pub applied_bounds :
    (u o : ℕ) (requested amount : ℤ) (s t : Store) (e : WalletTransaction)
    → apply_to_order_atomic u o requested s ≡ (ok (some (e, amount)), t)
    → (order : OrderForWallet) × (find_order_for_wallet o s ≡ some order)
      × (pos 1 ≤ℤ amount)
      × (amount ≤ℤ requested)
      × (amount ≤ℤ get_balance u s)
      × (amount ≤ℤ order.total_amount)
      × (get_balance u t ≡ get_balance u s -ℤ amount)
unfolding apply_to_order_atomic
applied_bounds u o requested amount s t e run = elim (Option-cases (find_order_for_wallet o s)) [
  | inl f ↦ absurd (ground (arith, f))
  | inr (order, f) ↦
      let asked = min_ℤ (min_ℤ requested (get_balance u s)) order.total_amount in
      let made = amount_result u o asked s t e amount (
        committed_ok s t (apply_amount u o asked s) (some (e, amount))
          ((rw (f, apply_to_order_atomic) at run))) in
      let bounds = min_bounds requested (get_balance u s) order.total_amount in
      let ledger : t.entries
          ≡ new_entry s.next_id (order_payment u o asked) (balance_of u s.entries) ∷ s.entries =
        made.2 ∙ ap (λ x. x ∷ s.entries) made.3 in
      (
        order,
        f,
        rw (made.0) (above_zero asked made.1),
        rw (made.0) bounds.0,
        rw (made.0) bounds.1,
        rw (made.0) bounds.2,
        ap (balance_of u) ledger
            ∙ fallen u o s.next_id asked s.entries
            ∙ ap (λ a. balance_of u s.entries -ℤ a) (sym (made.0)),
      )
]
