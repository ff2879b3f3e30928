-- ===== src/Wallet/Referrals.antt =====
-- A referral is rewarded once: rewardReferralIfEligible of modules/wallet/services/wallet.service.ts.
use patheya_express_platform.Common.{
  ℕ, ◌≡◌, inl, inr, refl, ap, ◌∙◌, Bool, true, false, Option, some, List, arith, ok, find, ◌==◌,
  max_serialization_retries,
}
use patheya_express_platform.Common.Table.{update_where, map_found, find-update_where}
use patheya_express_platform.Wallet.{
  Store, Referral, EntryParams, write_row, write_ledger_entry, settle_entry,
}
use patheya_express_platform.Wallet.Credits.{
  mark_rewarded, reward_both, reward_entry, reward_referral_if_eligible,
}
use patheya_express_platform.Wallet.Twice.{retry_cases, row_cases, aborted_settle}

settled-referrals :
    (p : EntryParams) (s : Store) → (settle_entry p (write_row p s)).1.referrals ≡ s.referrals
unfolding settle_entry
settled-referrals p s = elim (row_cases p s) [
  | inl r ↦ rw r refl
  | inr (inl r) ↦ rw r (ground arith)
  | inr (inr (c, r)) ↦ rw r (ground arith)
]

write-referrals :
    (aborted : ℕ → Bool) (p : EntryParams) (s : Store)
    → (write_ledger_entry aborted p s).1.referrals ≡ s.referrals
unfolding write_ledger_entry
write-referrals aborted p s =
    elim (retry_cases max_serialization_retries aborted 0 (write_row p) s) [
      | inl r ↦ rw r (settled-referrals p s)
      | inr r ↦ rw r (ap (λ z. z.1.referrals) (aborted_settle p s))
    ]

both-referrals :
    (aborted : ℕ → Bool) (r : Referral) (s : Store)
    → (reward_both aborted r s).1.referrals ≡ s.referrals
unfolding reward_both
both-referrals aborted r s =
    let t = (write_ledger_entry aborted (reward_entry r.referee_id r) s).1 in
    ground (
      arith,
      write-referrals aborted (reward_entry r.referee_id r) s,
      write-referrals aborted (reward_entry r.referrer_id r) t,
    )

abbrev pub referral_of : ℕ → List Referral → Option Referral
referral_of referee_id = find (λ r. r.referee_id == referee_id)

-- The row that is found is the row that is marked.
marked_row :
    (k : ℕ) (r : Referral) (rs : List Referral)
    → referral_of k rs ≡ some r
    → referral_of k (update_where (λ x. x.id == r.id) (λ x. record x { rewarded = true }) rs)
      ≡ some (record r { rewarded = true })
marked_row k r rs h =
    let mark : Referral → Referral = λ x. record x { rewarded = true } in
    find-update_where (λ x. x.referee_id == k) (λ x. x.id == r.id) mark rs (λ x. refl)
    ∙ ap (map_found (λ x. x.id == r.id) mark) h
    ∙ ground arith

rewards_when_due :
    (aborted : ℕ → Bool) (k : ℕ) (s : Store) (r : Referral)
    → referral_of k s.referrals ≡ some r
    → r.rewarded ≡ false
    → s.delivered_count k ≡ 1
    → reward_referral_if_eligible aborted k s ≡ reward_both aborted r (mark_rewarded r.id s)
unfolding reward_referral_if_eligible
rewards_when_due aborted k s r h w d = ground (arith, h, w, d)

skips_rewarded :
    (aborted : ℕ → Bool) (k : ℕ) (u : Store) (r : Referral)
    → referral_of k u.referrals ≡ some r
    → r.rewarded ≡ true
    → reward_referral_if_eligible aborted k u ≡ (ok tt, u)
unfolding reward_referral_if_eligible
skips_rewarded aborted k u r h w = ground (arith, h, w)

-- A referral that was due its reward is never paid again: once the call has run, whether its credits
-- were written or failed, a later call for the same referee, at any state that has the referrals as
-- the first call left them, changes nothing and reports no error.
pub rewarded_once :
    (aborted later : ℕ → Bool) (k : ℕ) (s u : Store) (r : Referral)
    → referral_of k s.referrals ≡ some r
    → r.rewarded ≡ false
    → s.delivered_count k ≡ 1
    → u.referrals ≡ (reward_referral_if_eligible aborted k s).1.referrals
    → reward_referral_if_eligible later k u ≡ (ok tt, u)
rewarded_once aborted later k s u r h w d same =
    let kept : u.referrals ≡ (mark_rewarded r.id s).referrals =
      same
      ∙ ap (λ z. z.1.referrals) (rewards_when_due aborted k s r h w d)
      ∙ both-referrals aborted r (mark_rewarded r.id s) in
    skips_rewarded later k u (record r { rewarded = true })
      (ap (referral_of k) kept ∙ marked_row k r s.referrals h) refl
