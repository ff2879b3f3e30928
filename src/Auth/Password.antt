-- ===== src/Auth/Password.antt =====
-- A forgotten password: forgotPassword and resetPassword of AuthService.
use patheya_express_platform.Common.{
  ℕ, is_some, ◌+◌, ◌*◌, ◌||◌, none, some, ltb, ok, Action, bad_request, ◌>>=◌, ◌>>◌, throw_if,
  or_throw, gets, modify,
}
use patheya_express_platform.Delivery.Proof.{Bcrypt}
use patheya_express_platform.Auth.Store.{
  Store, User, PasswordResetToken, find_user_by_email, find_password_reset_token,
  create_password_reset_token, update_user_password, mark_password_reset_token_used,
  revoke_all_refresh_tokens_for_user,
}
use patheya_express_platform.Auth.Session.{Crypto}

abbrev pub password_reset_token_ttl : ℕ
password_reset_token_ttl = 30 * 60 * 1000

-- `raw` is the random token of the mail.
abbrev pub new_reset : Crypto → (now raw : ℕ) → User → PasswordResetToken
new_reset k now raw u = record {
  user_id = u.id;
  token_hash = k.hash_token raw;
  expires_at = now + password_reset_token_ttl;
  used_at = none;
}

unfoldable pub forgot_password : Crypto → (now raw email : ℕ) → Action Store (Unit {0})
forgot_password k now raw email s = elim (find_user_by_email email s) [
  | none ↦ (ok tt, s)
  | some u ↦ create_password_reset_token (new_reset k now raw u) s
]

unfoldable pub reset_effect : Crypto → Bcrypt → (now raw password salt user_id : ℕ) → Store → Store
unfolding revoke_all_refresh_tokens_for_user
reset_effect k bcrypt now raw password salt user_id s =
    revoke_all_refresh_tokens_for_user user_id now (
      mark_password_reset_token_used (k.hash_token raw) now
        (update_user_password user_id (bcrypt.hash salt password) s))

unfoldable pub reset_password :
    Crypto → Bcrypt → (now raw password salt : ℕ) → Action Store (Unit {0})
unfolding reset_effect
reset_password k bcrypt now raw password salt = do
  found ← gets (find_password_reset_token (k.hash_token raw))
  r ← or_throw found bad_request
  throw_if (is_some r.used_at || ltb r.expires_at now) bad_request
  modify (reset_effect k bcrypt now raw password salt r.user_id)
