-- ===== src/Wallet/Twice.antt =====
-- An event that is delivered twice, and what applying the wallet to an order takes.
use patheya_express_platform.Common.{
  ℕ, zero, suc, ◌≡◌, ◌⊎◌, inl, inr, refl, ◌∙◌, Bool, false, ◌∷◌, arith, ok, err, bad_request,
  unique_violation, serialization_failure, any, Action, retry,
}
use patheya_express_platform.Schema.{wallet_transaction_type_eq, wallet_transaction_status_eq}
use patheya_express_platform.Wallet.{
  Store, EntryParams, balance_of, clashes, new_entry, write_row, settle_entry,
}
use patheya_express_platform.Wallet.Ledger.{insert_cases, write_row-insert}

pub retry_cases :
    {A : Type 0} (left : ℕ) (aborted : ℕ → Bool) (attempt : ℕ) (m : Action Store A) (s : Store)
    → (retry left aborted attempt m s ≡ m s)
      ⊎ (retry left aborted attempt m s ≡ (err serialization_failure, s))
retry_cases zero aborted attempt m s = ground arith
retry_cases (suc left) aborted attempt m s =
    ground (arith, retry_cases left aborted (suc attempt) m s)

-- The three outcomes of writing a row.
pub row_cases :
    (p : EntryParams) (s : Store)
    → (write_row p s ≡ (err bad_request, s))
      ⊎ (write_row p s ≡ (err unique_violation, s))
      ⊎ ((any (clashes p) s.entries ≡ false)
          × (write_row p s ≡ (
            ok (new_entry s.next_id p (balance_of p.user_id s.entries)),
            record s {
              entries = new_entry s.next_id p (balance_of p.user_id s.entries) ∷ s.entries;
              next_id = suc s.next_id;
            },
          )))
row_cases p s = elim (insert_cases p (balance_of p.user_id s.entries) s) [
  | inl e ↦ inl (write_row-insert p s ∙ e)
  | inr (inl e) ↦ inr (inl (write_row-insert p s ∙ e))
  | inr (inr (h, c, e)) ↦ inr (inr (c, write_row-insert p s ∙ e))
]

pub aborted_settle :
    (p : EntryParams) (s : Store)
    → settle_entry p (err serialization_failure, s) ≡ (err serialization_failure, s)
unfolding settle_entry
aborted_settle p s = refl
