-- ===== src/Auth/Reset.antt =====
-- A password reset ends the sessions of the account.
use mathlib.Core.Path.{subst}
use patheya_express_platform.Common.{
  ℕ, ◌≡◌, inl, inr, refl, sym, is_some, ltb, ◌||◌, true, some, arith, find, List, ok, err,
  unauthorized, bad_request, Bool-cases, Option-cases,
}
use patheya_express_platform.Common.Table.{update_where, find-update_where, find_holds}
use patheya_express_platform.Delivery.Proof.{Bcrypt}
use patheya_express_platform.Auth.Store.{
  Store, RefreshToken, PasswordResetToken, has_token, has_reset, find_refresh_token,
  find_password_reset_token, revoke, open_for, use_reset, revoke_all_refresh_tokens_for_user,
}
use patheya_express_platform.Auth.Session.{Crypto, refresh_token}
use patheya_express_platform.Auth.Password.{reset_password, reset_effect}
use patheya_express_platform.Auth.History.{Reach, Reach-IsRevoked}
use patheya_express_platform.Auth.Once.{revoked_refused}
use patheya_express_platform.Auth.Revoked.{IsRevoked}

-- A reset that succeeds has found an unused token that has not expired, and has had its effect.
reset_done :
    (k : Crypto) (bcrypt : Bcrypt) (now raw password salt : ℕ) (s t : Store)
    → reset_password k bcrypt now raw password salt s ≡ (ok tt, t)
    → (r : PasswordResetToken) × (find_password_reset_token (k.hash_token raw) s ≡ some r)
      × (t ≡ reset_effect k bcrypt now raw password salt r.user_id s)
unfolding reset_password reset_effect
reset_done k bcrypt now raw password salt s t run =
    elim (Option-cases (find_password_reset_token (k.hash_token raw) s)) [
      | inl gone ↦ absurd (ground (arith, gone))
      | inr (r, found) ↦ elim (Bool-cases (is_some r.used_at || ltb r.expires_at now)) [
        | inl bad ↦ absurd (ground (arith, found, bad))
        | inr good ↦ (r, found, ground (arith, found, good))
      ]
    ]

-- Every token of the account is revoked where all are.
all_revoked :
    (token user_id now : ℕ) (rs : List RefreshToken) (row : RefreshToken)
    → find (has_token token) (update_where (open_for user_id) (revoke now) rs) ≡ some row
    → row.user_id ≡ user_id
    → is_some row.revoked_at ≡ true
all_revoked token user_id now rs row found own = elim (Option-cases (find (has_token token) rs)) [
  | inl gone ↦ absurd (
      ground (
        arith,
        find-update_where (has_token token) (open_for user_id) (revoke now) rs (λ x. refl),
        gone,
      ))
  | inr (r, before) ↦ ground (
    arith,
    find-update_where (has_token token) (open_for user_id) (revoke now) rs (λ x. refl),
    before,
  )
]

used_again :
    (k : Crypto) (bcrypt : Bcrypt) (later raw password salt : ℕ) (t : Store)
    (r : PasswordResetToken)
    → find_password_reset_token (k.hash_token raw) t ≡ some r
    → is_some r.used_at ≡ true
    → reset_password k bcrypt later raw password salt t ≡ (err bad_request, t)
unfolding reset_password
used_again k bcrypt later raw password salt t r found used = rw (found, used) refl

reset_effect-IsRevoked :
    (k : Crypto) (bcrypt : Bcrypt) (now raw password salt : ℕ) (s : Store) (r : PasswordResetToken)
    (token : ℕ) (row : RefreshToken)
    → find_refresh_token token (reset_effect k bcrypt now raw password salt r.user_id s) ≡ some row
    → row.user_id ≡ r.user_id
    → IsRevoked token (reset_effect k bcrypt now raw password salt r.user_id s)
unfolding reset_effect revoke_all_refresh_tokens_for_user
reset_effect-IsRevoked k bcrypt now raw password salt s r token row found own =
    (row, found, all_revoked token r.user_id now s.refresh_tokens row found own)

used_by_reset :
    (k : Crypto) (bcrypt : Bcrypt) (now raw password salt : ℕ) (s : Store) (r : PasswordResetToken)
    → find_password_reset_token (k.hash_token raw) s ≡ some r
    → find_password_reset_token
        (k.hash_token raw)
        (reset_effect k bcrypt now raw password salt r.user_id s)
      ≡ some (use_reset now r)
unfolding reset_effect revoke_all_refresh_tokens_for_user
used_by_reset k bcrypt now raw password salt s r found =
    let hit = find_holds (has_reset (k.hash_token raw)) r s.reset_tokens found in
    rw
      (
        find-update_where (has_reset (k.hash_token raw)) (has_reset (k.hash_token raw))
            (use_reset now) s.reset_tokens (λ x. refl),
        found,
      )
      (rw hit refl)

-- A password reset that succeeds ends the sessions of the account: it has found the row of its
-- token, every refresh token of that row's user is refused from then on, whatever calls of anybody
-- follow, and the same reset link is refused, and changes nothing, after it.
pub reset_ends_sessions :
    (k : Crypto) (bcrypt : Bcrypt) (now raw password salt : ℕ) (s t : Store)
    → reset_password k bcrypt now raw password salt s ≡ (ok tt, t)
    → (r : PasswordResetToken) × (find_password_reset_token (k.hash_token raw) s ≡ some r)
      × ((old : ℕ) (row : RefreshToken) (later jti : ℕ) (u : Store)
          → find_refresh_token (k.hash_token old) t ≡ some row
          → row.user_id ≡ r.user_id
          → Reach t u
          → refresh_token k later jti old u ≡ (err unauthorized, u))
      × ((later other salt' : ℕ)
          → reset_password k bcrypt later raw other salt' t ≡ (err bad_request, t))
reset_ends_sessions k bcrypt now raw password salt s t run =
    let (r, found, effect) = reset_done k bcrypt now raw password salt s t run in
    (
      r,
      found,
      (λ old row later jti u held own reach. revoked_refused k later jti old u (
          Reach-IsRevoked (k.hash_token old) t u reach (
            subst (IsRevoked (k.hash_token old)) (sym effect) (
              reset_effect-IsRevoked k bcrypt now raw password salt s r (k.hash_token old) row
                (subst (λ v. find_refresh_token (k.hash_token old) v ≡ some row) effect held)
                own)))),
      λ later other salt'.
          used_again k bcrypt later raw other salt' t (use_reset now r)
            (subst (λ v. find_password_reset_token (k.hash_token raw) v ≡ some (use_reset now r))
              (sym effect) (used_by_reset k bcrypt now raw password salt s r found))
            refl,
    )
