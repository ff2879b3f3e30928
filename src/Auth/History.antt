-- ===== src/Auth/History.antt =====
-- Histories of calls of anybody: a refresh token that is revoked stays so.
use patheya_express_platform.Common.{
  ℕ, ◌≡◌, inl, inr, refl, is_some, ltb, ◌&&◌, ◌||◌, Bool, true, false, Option, none, some, any,
  bad_request, Bool-cases, Option-cases, or_throw, throw_if,
}
use patheya_express_platform.Delivery.Proof.{Bcrypt}
use patheya_express_platform.Auth.Store.{
  Store, RefreshToken, revoke_refresh_token, find_user_by_email, find_password_reset_token,
  has_reset,
}
use patheya_express_platform.Auth.Session.{
  Crypto, AccessTokenPayload, login, rotate, refresh_token, logout, revoke_all_sessions,
  blacklist_access, blacklist_payload, blacklist_jti, seconds,
}
use patheya_express_platform.Auth.Password.{forgot_password, reset_password}
use patheya_express_platform.Auth.Revoked.{
  IsRevoked, Keeps, kept_after, after-Keeps, or_throw-Keeps, revoke_refresh_token-Keeps,
  revoke_all-IsRevoked, login-Keeps, refresh_token-Keeps, rotate-Keeps,
}

-- One call of anybody. `rotated` is the end of a call of refreshToken that has read its row before,
-- whatever the row was.
pub data Step (s : Store) : Store → Type 0 where
  logged_in :
      (k : Crypto) (bcrypt : Bcrypt) (now jti email password : ℕ)
      → Step s (login k bcrypt now jti email password s).1
  refreshed : (k : Crypto) (now jti raw : ℕ) → Step s (refresh_token k now jti raw s).1
  rotated :
      (k : Crypto) (now jti raw : ℕ) (existing : RefreshToken)
      → Step s (rotate k now jti raw existing s).1
  logged_out :
      (k : Crypto) (redis : Bool) (now refresh : ℕ) (access : Option ℕ)
      → Step s (logout k redis now refresh access s).1
  forgotten : (k : Crypto) (now raw email : ℕ) → Step s (forgot_password k now raw email s).1
  password_reset :
      (k : Crypto) (bcrypt : Bcrypt) (now raw password salt : ℕ)
      → Step s (reset_password k bcrypt now raw password salt s).1
  sessions_revoked :
      (redis : Bool) (user_id now : ℕ) → Step s (revoke_all_sessions redis user_id now s)

pub data Reach (s : Store) : Store → Type 0 where
  start : Reach s s
  next : {t u : Store} → Reach s t → Step t u → Reach s u

blacklist_jti-tokens :
    (redis : Bool) (jti exp now : ℕ) (s : Store)
    → (blacklist_jti redis jti exp now s).refresh_tokens ≡ s.refresh_tokens
blacklist_jti-tokens redis jti exp now s = elim (Bool-cases (redis && ltb (seconds now) exp)) [
  | inl h ↦ rw h refl
  | inr h ↦ rw h refl
]

blacklist_payload-tokens :
    (redis : Bool) (now : ℕ) (p : Option AccessTokenPayload) (s : Store)
    → (blacklist_payload redis now p s).refresh_tokens ≡ s.refresh_tokens
blacklist_payload-tokens redis now none s = refl
blacklist_payload-tokens redis now (some p) s = elim (Option-cases p.jti) [
  | inl h ↦ rw h refl
  | inr (jti, h) ↦ rw h (blacklist_jti-tokens redis jti p.exp now s)
]

pub blacklist_access-tokens :
    (k : Crypto) (redis : Bool) (now : ℕ) (access : Option ℕ) (s : Store)
    → (blacklist_access k redis now access s).refresh_tokens ≡ s.refresh_tokens
blacklist_access-tokens k redis now none s = refl
blacklist_access-tokens k redis now (some access) s =
    blacklist_payload-tokens redis now (k.verify_access access now) s

logout-Keeps :
    (token : ℕ) (k : Crypto) (redis : Bool) (now refresh : ℕ) (access : Option ℕ)
    → Keeps token (logout k redis now refresh access)
unfolding logout
logout-Keeps token k redis now refresh access =
    after-Keeps token (revoke_refresh_token (k.hash_token refresh) now) _
      (revoke_refresh_token-Keeps token (k.hash_token refresh) now)
      (λ _ s h. rw (blacklist_access-tokens k redis now access s) h)

forgot_password-Keeps :
    (token : ℕ) (k : Crypto) (now raw email : ℕ) → Keeps token (forgot_password k now raw email)
unfolding forgot_password
forgot_password-Keeps token k now raw email s h = elim (Option-cases (find_user_by_email email s)) [
  | inl gone ↦ rw (gone, forgot_password) h
  | inr (u, found) ↦ elim (Bool-cases (any (has_reset (k.hash_token raw)) s.reset_tokens)) [
    | inl clash ↦ rw (found, forgot_password, clash) h
    | inr fresh ↦ rw (found, forgot_password, fresh) h
  ]
]

reset_password-Keeps :
    (token : ℕ) (k : Crypto) (bcrypt : Bcrypt) (now raw password salt : ℕ)
    → Keeps token (reset_password k bcrypt now raw password salt)
unfolding reset_password
reset_password-Keeps token k bcrypt now raw password salt s h =
    kept_after token (or_throw (find_password_reset_token (k.hash_token raw) s) bad_request s) _
      (or_throw-Keeps token (find_password_reset_token (k.hash_token raw) s) bad_request s h)
      (λ r.
        after-Keeps token (throw_if (is_some r.used_at || ltb r.expires_at now) bad_request) _
          (λ _ g. g) (λ _ t g. revoke_all-IsRevoked token r.user_id now t g))

revoke_all_sessions-IsRevoked :
    (token : ℕ) (redis : Bool) (user_id now : ℕ) (s : Store)
    → IsRevoked token s
    → IsRevoked token (revoke_all_sessions redis user_id now s)
unfolding revoke_all_sessions
revoke_all_sessions-IsRevoked token true user_id now s h =
    revoke_all-IsRevoked token user_id now s h
revoke_all_sessions-IsRevoked token false user_id now s h =
    revoke_all-IsRevoked token user_id now s h

Step-IsRevoked : (token : ℕ) (s t : Store) → Step s t → IsRevoked token s → IsRevoked token t
Step-IsRevoked token s _ (logged_in k bcrypt now jti email password) =
    login-Keeps token k bcrypt now jti email password s
Step-IsRevoked token s _ (refreshed k now jti raw) = refresh_token-Keeps token k now jti raw s
Step-IsRevoked token s _ (rotated k now jti raw existing) =
    rotate-Keeps token k now jti raw existing s
Step-IsRevoked token s _ (logged_out k redis now refresh access) =
    logout-Keeps token k redis now refresh access s
Step-IsRevoked token s _ (forgotten k now raw email) = forgot_password-Keeps token k now raw email s
Step-IsRevoked token s _ (password_reset k bcrypt now raw password salt) =
    reset_password-Keeps token k bcrypt now raw password salt s
Step-IsRevoked token s _ (sessions_revoked redis user_id now) =
    revoke_all_sessions-IsRevoked token redis user_id now s

pub Reach-IsRevoked : (token : ℕ) (s t : Store) → Reach s t → IsRevoked token s → IsRevoked token t
Reach-IsRevoked token s _ start h = h
Reach-IsRevoked token s _ (next {t} {u} reach step) h =
    Step-IsRevoked token t u step (Reach-IsRevoked token s t reach h)
