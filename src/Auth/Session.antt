-- ===== src/Auth/Session.antt =====
-- Sessions: login, the rotation of refresh tokens and logout of AuthService, validate of
-- JwtStrategy, and revokeAllSessions of modules/users. Times are in milliseconds.
use patheya_express_platform.Common.{
  ℕ, is_some, ◌+◌, ◌-◌, ◌*◌, ◌/◌, ◌&&◌, Bool, false, not, Option, none, some, ◌∷◌, any, ltb, ◌==◌,
  if◌then◌else◌, Action, ok, err, unauthorized, type_error, ◌>>=◌, ◌>>◌, pure, throw_if, or_throw,
  gets, modify,
}
use patheya_express_platform.Delivery.Proof.{Bcrypt}
use patheya_express_platform.Auth.Store.{
  Store, User, RefreshToken, BlacklistEntry, find_user_by_email, owner, find_refresh_token,
  create_refresh_token, revoke_refresh_token, revoke_all_refresh_tokens_for_user,
}

-- What a verified access token says; `exp` is in seconds.
pub record AccessTokenPayload : Type 0 where
  pub sub : ℕ
  pub jti : Option ℕ
  pub exp : ℕ

-- The signatures of `@nestjs/jwt` and the hash of node's `crypto`. A token is signed at a second, and
-- only an access token has a `jti`.
pub record Crypto : Type 0 where
  pub hash_token : (token : ℕ) → ℕ
  pub sign_access : (u : User) (jti iat : ℕ) → ℕ
  pub sign_refresh : (u : User) (iat : ℕ) → ℕ
  pub verify_refresh : (token now : ℕ) → Bool
  pub verify_access : (token now : ℕ) → Option AccessTokenPayload

pub record Tokens : Type 0 where
  pub access_token : ℕ
  pub refresh_token : ℕ

abbrev pub refresh_token_ttl : ℕ
refresh_token_ttl = 7 * 24 * 60 * 60 * 1000

abbrev pub seconds : ℕ → ℕ
seconds now = now / 1000

abbrev pub issued : Crypto → ℕ → User → RefreshToken
issued k now u = record {
  user_id = u.id;
  token = k.hash_token (k.sign_refresh u (seconds now));
  expires_at = now + refresh_token_ttl;
  revoked_at = none;
}

abbrev pub pair_of : Crypto → (now jti : ℕ) → User → Tokens
pair_of k now jti u = record {
  access_token = k.sign_access u jti (seconds now);
  refresh_token = k.sign_refresh u (seconds now);
}

-- `issueTokens`
unfoldable pub issue_tokens : Crypto → (now jti : ℕ) → User → Action Store Tokens
unfolding create_refresh_token
issue_tokens k now jti u = create_refresh_token (issued k now u) >> pure (pair_of k now jti u)

unfoldable pub login : Crypto → Bcrypt → (now jti email password : ℕ) → Action Store Tokens
unfolding issue_tokens
login k bcrypt now jti email password = do
  found ← gets (find_user_by_email email)
  u ← or_throw found unauthorized
  password_hash ← or_throw (u.password_hash) unauthorized
  throw_if (not (bcrypt.compare password password_hash)) unauthorized
  issue_tokens k now jti u

-- The end of `refreshToken`, for a row that has passed its checks.
unfoldable pub rotate : Crypto → (now jti raw : ℕ) → RefreshToken → Action Store Tokens
unfolding revoke_refresh_token issue_tokens
rotate k now jti raw existing = do
  revoke_refresh_token (k.hash_token raw) now
  u ← or_throw (← gets (owner existing.user_id)) type_error
  issue_tokens k now jti u

-- What `refreshToken` refuses: no row, or one that is revoked or expired.
abbrev pub is_live : ℕ → RefreshToken → Bool
is_live now r = not (is_some r.revoked_at) && not (ltb r.expires_at now)

unfoldable pub refresh_token : Crypto → (now jti raw : ℕ) → Action Store Tokens
unfolding rotate
refresh_token k now jti raw = do
  throw_if (not (k.verify_refresh raw now)) unauthorized
  found ← gets (find_refresh_token (k.hash_token raw))
  existing ← or_throw found unauthorized
  throw_if (is_some existing.revoked_at) unauthorized
  throw_if (ltb existing.expires_at now) unauthorized
  rotate k now jti raw existing

-- `set` with a time to live, where Redis answers.
abbrev pub blacklist_jti : Bool → ℕ → ℕ → ℕ → Store → Store
blacklist_jti redis jti exp now s =
    if redis && ltb (seconds now) exp
    then record s {
      blacklist = record { jti = jti; until = now + (exp - seconds now) * 1000 } ∷ s.blacklist;
    }
    else s

abbrev pub blacklist_payload : Bool → ℕ → Option AccessTokenPayload → Store → Store
blacklist_payload redis now none s = s
blacklist_payload redis now (some p) s = elim (p.jti) [
  | none ↦ s
  | some jti ↦ blacklist_jti redis jti p.exp now s
]

abbrev pub blacklist_access : Crypto → Bool → ℕ → Option ℕ → Store → Store
blacklist_access k redis now none s = s
blacklist_access k redis now (some access) s =
    blacklist_payload redis now (k.verify_access access now) s

unfoldable pub logout : Crypto → Bool → ℕ → ℕ → Option ℕ → Action Store (Unit {0})
unfolding revoke_refresh_token
logout k redis now refresh access = do
  revoke_refresh_token (k.hash_token refresh) now
  modify (blacklist_access k redis now access)

abbrev pub is_blacklisted : ℕ → Option ℕ → Store → Bool
is_blacklisted now none s = false
is_blacklisted now (some jti) s =
    any (λ (b : BlacklistEntry). (b.jti == jti) && ltb now b.until) s.blacklist

-- `validate`, after the signature and expiry; open where Redis does not answer.
unfoldable pub validate : Bool → ℕ → AccessTokenPayload → Action Store ℕ
validate redis now p s =
    if redis && is_blacklisted now p.jti s
    then (err unauthorized, s)
    else if redis && any (λ id. id == p.sub) s.blocked
    then (err unauthorized, s)
    else (ok p.sub, s)

-- `revokeAllSessions` of UsersService
unfoldable pub revoke_all_sessions : Bool → (user_id now : ℕ) → Store → Store
unfolding revoke_all_refresh_tokens_for_user
revoke_all_sessions redis user_id now s =
    let t = revoke_all_refresh_tokens_for_user user_id now s in
    if redis then record t { blocked = user_id ∷ t.blocked } else t
