-- ===== src/Auth/Store.antt =====
-- The rows of modules/auth and the calls of AuthRepository on them, and what is kept in Redis.
use patheya_express_platform.Common.{
  ℕ, is_some, ◌&&◌, Bool, not, Option, some, List, ◌∷◌, find, any, ◌==◌, if◌then◌else◌, Action, ok,
  err, unique_violation, record_missing,
}
use patheya_express_platform.Common.Table.{update_where}
use patheya_express_platform.Schema.{UserRole}

pub record User : Type 0 where
  pub id : ℕ
  pub email : ℕ
  pub password_hash : Option ℕ
  pub role : UserRole
  pub referral_code : Option ℕ
  pub deleted : Bool

-- `token` is the hash of the token that the client has.
pub record RefreshToken : Type 0 where
  pub user_id : ℕ
  pub token : ℕ
  pub expires_at : ℕ
  pub revoked_at : Option ℕ

pub record PasswordResetToken : Type 0 where
  pub user_id : ℕ
  pub token_hash : ℕ
  pub expires_at : ℕ
  pub used_at : Option ℕ

pub record Referral : Type 0 where
  pub referrer_id : ℕ
  pub referee_id : ℕ

-- A key `auth:blacklist:<jti>` with the time at which it lapses.
pub record BlacklistEntry : Type 0 where
  pub jti : ℕ
  pub until : ℕ

pub record Store : Type 0 where
  pub users : List User
  pub refresh_tokens : List RefreshToken
  pub reset_tokens : List PasswordResetToken
  pub blacklist : List BlacklistEntry
  pub blocked : List ℕ
  pub referrals : List Referral

abbrev pub find_user_by_email : ℕ → Store → Option User
find_user_by_email email s = find (λ (u : User). (u.email == email) && not u.deleted) s.users

-- The user that a token's row includes: also one whose account is deleted.
abbrev pub owner : ℕ → Store → Option User
owner id s = find (λ (u : User). u.id == id) s.users

abbrev pub has_token : ℕ → RefreshToken → Bool
has_token token r = r.token == token

abbrev pub find_refresh_token : ℕ → Store → Option RefreshToken
find_refresh_token token s = find (has_token token) s.refresh_tokens

-- `token` is unique.
unfoldable pub create_refresh_token : RefreshToken → Action Store (Unit {0})
create_refresh_token r s =
    if any (has_token r.token) s.refresh_tokens
    then (err unique_violation, s)
    else (ok tt, record s { refresh_tokens = r ∷ s.refresh_tokens })

abbrev pub revoke : ℕ → RefreshToken → RefreshToken
revoke now r = record r { revoked_at = some now }

-- `update` by the token, whatever the row's state is.
unfoldable pub revoke_refresh_token : (token now : ℕ) → Action Store (Unit {0})
revoke_refresh_token token now s =
    if any (has_token token) s.refresh_tokens
    then (
      ok tt,
      record s { refresh_tokens = update_where (has_token token) (revoke now) s.refresh_tokens },
    )
    else (err record_missing, s)

abbrev pub open_for : ℕ → RefreshToken → Bool
open_for user_id r = (r.user_id == user_id) && not (is_some r.revoked_at)

unfoldable pub revoke_all_refresh_tokens_for_user : (user_id now : ℕ) → Store → Store
revoke_all_refresh_tokens_for_user user_id now s = record s {
  refresh_tokens = update_where (open_for user_id) (revoke now) s.refresh_tokens;
}

abbrev pub update_user_password : ℕ → ℕ → Store → Store
update_user_password user_id password_hash s = record s {
  users =
      update_where (λ (u : User). u.id == user_id)
        (λ (u : User). record u { password_hash = some password_hash }) s.users;
}

abbrev pub has_reset : ℕ → PasswordResetToken → Bool
has_reset token_hash r = r.token_hash == token_hash

abbrev pub find_password_reset_token : ℕ → Store → Option PasswordResetToken
find_password_reset_token token_hash s = find (has_reset token_hash) s.reset_tokens

-- `tokenHash` is unique.
abbrev pub create_password_reset_token : PasswordResetToken → Action Store (Unit {0})
create_password_reset_token r s =
    if any (has_reset r.token_hash) s.reset_tokens
    then (err unique_violation, s)
    else (ok tt, record s { reset_tokens = r ∷ s.reset_tokens })

abbrev pub use_reset : ℕ → PasswordResetToken → PasswordResetToken
use_reset now r = record r { used_at = some now }

abbrev pub mark_password_reset_token_used : (token_hash now : ℕ) → Store → Store
mark_password_reset_token_used token_hash now s = record s {
  reset_tokens = update_where (has_reset token_hash) (use_reset now) s.reset_tokens;
}
