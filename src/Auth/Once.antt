-- ===== src/Auth/Once.antt =====
-- Refresh tokens are for one use: what a token is after it was exchanged or logged out.
use patheya_express_platform.Common.{
  ℕ, ◌≡◌, ◌⊎◌, inl, inr, refl, sym, ap, is_some, not, ltb, Bool, Option, arith, find, find-any,
  any_found, Result, ok, err, unauthorized, type_error, Action, Bool-cases, Option-cases, after,
  or_throw, throw_if,
}
use patheya_express_platform.Common.Table.{find-update_where, find_holds}
use patheya_express_platform.Auth.Store.{
  Store, RefreshToken, has_token, find_refresh_token, revoke_refresh_token, revoke, owner,
}
use patheya_express_platform.Auth.Session.{Crypto, Tokens, rotate, refresh_token, logout}
use patheya_express_platform.Auth.History.{Reach, Reach-IsRevoked, blacklist_access-tokens}
use patheya_express_platform.Auth.Revoked.{
  IsRevoked, Keeps, kept_after, or_throw-Keeps, issue_tokens-Keeps,
}

-- A revoked token is refused, and nothing is written.
pub revoked_refused :
    (k : Crypto) (now jti raw : ℕ) (s : Store)
    → IsRevoked (k.hash_token raw) s
    → refresh_token k now jti raw s ≡ (err unauthorized, s)
unfolding refresh_token
revoked_refused k now jti raw s (r, found, set) = elim (Bool-cases (k.verify_refresh raw now)) [
  | inr bad ↦ rw bad refl
  | inl good ↦ rw (good, found, set) refl
]

revoke_refresh_token-IsRevoked :
    (token now : ℕ) (s : Store)
    → (revoke_refresh_token token now s).0 ≡ ok tt
    → IsRevoked token (revoke_refresh_token token now s).1
unfolding revoke_refresh_token
revoke_refresh_token-IsRevoked token now s done =
    elim (Option-cases (find (has_token token) s.refresh_tokens)) [
      | inl gone ↦
          let none_there = find-any (has_token token) s.refresh_tokens gone in
          absurd (ground (arith, none_there))
      | inr (r, found) ↦ rw (any_found (has_token token) r s.refresh_tokens found) (
        revoke now r,
        rw
            (
              find-update_where (has_token token) (has_token token) (revoke now) s.refresh_tokens
                  (λ x. refl),
              found,
            )
            (rw (find_holds (has_token token) r s.refresh_tokens found) refl),
        refl,
      )
    ]

-- A call that succeeds only with the token revoked.
abbrev Spends {ℓ} : {A : Type ℓ} → ℕ → Action Store A → Type ℓ
Spends {A = A} token m = (s : Store) (a : A) → (m s).0 ≡ ok a → IsRevoked token (m s).1

spent_after {ℓ κ} :
    {A : Type ℓ} {B : Type κ} (token : ℕ) (r : Result A × Store) (k : A → Action Store B) (b : B)
    → ((a : A) → Spends token (k a))
    → (after r k).0 ≡ ok b
    → IsRevoked token (after r k).1
spent_after token (ok a, t) k b spends done = spends a t b done
spent_after token (err e, t) k b spends done = absurd cc

spent_first {ℓ κ} :
    {A : Type ℓ} {B : Type κ} (token : ℕ) (r : Result A × Store) (k : A → Action Store B) (b : B)
    → ((a : A) → r.0 ≡ ok a → IsRevoked token r.1)
    → ((a : A) → Keeps token (k a))
    → (after r k).0 ≡ ok b
    → IsRevoked token (after r k).1
spent_first token (ok a, t) k b spends keeps done = keeps a t (spends a refl)
spent_first token (err e, t) k b spends keeps done = absurd cc

rotate-Spends :
    (k : Crypto) (now jti raw : ℕ) (existing : RefreshToken)
    → Spends (k.hash_token raw) (rotate k now jti raw existing)
unfolding rotate
rotate-Spends k now jti raw existing s tokens =
    let token = k.hash_token raw in
    spent_first token (revoke_refresh_token token now s) _ tokens
      (λ _. revoke_refresh_token-IsRevoked token now s)
      (λ _ t h.
        kept_after token (or_throw (owner existing.user_id t) type_error t) _
          (or_throw-Keeps token (owner existing.user_id t) type_error t h)
          (issue_tokens-Keeps token k now jti))

refresh_token-Spends :
    (k : Crypto) (now jti raw : ℕ) → Spends (k.hash_token raw) (refresh_token k now jti raw)
unfolding refresh_token
refresh_token-Spends k now jti raw s tokens =
    let token = k.hash_token raw in
    spent_after token (throw_if (not (k.verify_refresh raw now)) unauthorized s) _ tokens (λ _ t b.
      spent_after token (or_throw (find_refresh_token token t) unauthorized t) _ b (λ existing u c.
        spent_after token (throw_if (is_some existing.revoked_at) unauthorized u) _ c (λ _ v d.
          spent_after token (throw_if (ltb existing.expires_at now) unauthorized v) _ d
            (λ _. rotate-Spends k now jti raw existing))))

logout-Spends :
    (k : Crypto) (redis : Bool) (now raw : ℕ) (access : Option ℕ)
    → Spends (k.hash_token raw) (logout k redis now raw access)
unfolding logout
logout-Spends k redis now raw access s done =
    let token = k.hash_token raw in
    spent_first token (revoke_refresh_token token now s) _ done
      (λ _. revoke_refresh_token-IsRevoked token now s)
      (λ _ t h. rw (blacklist_access-tokens k redis now access t) h)

-- A refresh token is for one use: once refreshToken has exchanged it or logout has been given it,
-- whatever calls of anybody follow, calls of refreshToken that had read the token before among
-- them, every later refresh with it is refused and writes nothing.
pub single_use :
    (k : Crypto) (redis : Bool) (now jti raw later jti' : ℕ) (access : Option ℕ) (tokens : Tokens)
    (s t u : Store)
    → (refresh_token k now jti raw s ≡ (ok tokens, t))
      ⊎ (logout k redis now raw access s ≡ (ok tt, t))
    → Reach t u
    → refresh_token k later jti' raw u ≡ (err unauthorized, u)
single_use k redis now jti raw later jti' access tokens s t u (inl run) reach =
    let spent = refresh_token-Spends k now jti raw s tokens (ap (λ r. r.0) run) in
    revoked_refused k later jti' raw u
      (Reach-IsRevoked (k.hash_token raw) t u reach (rw (sym (ap (λ r. r.1) run)) spent))
single_use k redis now jti raw later jti' access tokens s t u (inr run) reach =
    let spent = logout-Spends k redis now raw access s tt (ap (λ r. r.0) run) in
    revoked_refused k later jti' raw u
      (Reach-IsRevoked (k.hash_token raw) t u reach (rw (sym (ap (λ r. r.1) run)) spent))
