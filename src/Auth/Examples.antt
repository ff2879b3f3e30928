-- ===== src/Auth/Examples.antt =====
-- Sessions at concrete inputs: the runs that the properties of this component are applied to.
use patheya_express_platform.Common.{
  ℕ, ◌+◌, ◌*◌, ◌/◌, ◌≡◌, inl, refl, true, false, none, some, [], ◌∷◌, arith, ok, err, unauthorized,
  bad_request, unique_violation, ◌==◌,
}
use patheya_express_platform.Schema.{UserRole}
use patheya_express_platform.Delivery.Proof.{Bcrypt}
use patheya_express_platform.Auth.Store.{
  Store, User, RefreshToken, PasswordResetToken, find_refresh_token, find_password_reset_token,
  create_refresh_token, revoke_refresh_token,
}
use patheya_express_platform.Auth.Session.{
  Crypto, pair_of, issue_tokens, login, rotate, refresh_token, logout, validate, AccessTokenPayload,
}
use patheya_express_platform.Auth.Password.{reset_password, reset_effect}
use patheya_express_platform.Auth.History.{Reach, start, next, rotated}
use patheya_express_platform.Auth.Once.{single_use}
use patheya_express_platform.Auth.Race.{two_refreshes, refresh_in_second}
use patheya_express_platform.Auth.Reset.{reset_ends_sessions}
use patheya_express_platform.Auth.Register.{RegisterDto, new_user, with_code, register_with_role}
use patheya_express_platform.Auth.Login.{register_then_login}
use patheya_express_platform.Auth.Access.{logged_out_rejected}

-- Readable stand-ins for the signatures and the hashes.
abbrev plain : Crypto
plain = record {
  hash_token = λ token. token;
  sign_access = λ u jti iat. jti;
  sign_refresh = λ u iat. u.id * 1000000 + iat;
  verify_refresh = λ token now. true;
  verify_access = λ token now. none;
}

abbrev open_hash : Bcrypt
open_hash = record { hash = λ salt code. code; compare = λ code otp_hash. code == otp_hash }

abbrev meera : User
meera = record {
  id = 3;
  email = 30;
  password_hash = some 55;
  role = UserRole.customer;
  referral_code = none;
  deleted = false;
}

abbrev held : RefreshToken
held = record { user_id = 3; token = 3000000; expires_at = 900000; revoked_at = none }

abbrev link : PasswordResetToken
link = record { user_id = 3; token_hash = 70; expires_at = 90000; used_at = none }

abbrev store : Store
store = record {
  users = meera ∷ [];
  refresh_tokens = held ∷ [];
  reset_tokens = link ∷ [];
  blacklist = [];
  blocked = [];
  referrals = [];
}

abbrev exchanged : Store
exchanged = (rotate plain 5000 1 3000000 held store).1

exchange : refresh_token plain 5000 1 3000000 store ≡ (ok (pair_of plain 5000 1 meera), exchanged)
unfolding refresh_token rotate revoke_refresh_token issue_tokens create_refresh_token
exchange = refl

-- A stale call of refreshToken comes between.
single_use_example :
    refresh_token plain 9000 3 3000000 (rotate plain 7000 2 3000000 held exchanged).1
    ≡ (err unauthorized, (rotate plain 7000 2 3000000 held exchanged).1)
single_use_example =
    single_use plain true 5000 1 3000000 9000 3 none (pair_of plain 5000 1 meera) store exchanged
      (rotate plain 7000 2 3000000 held exchanged).1 (inl exchange)
      (next start (rotated plain 7000 2 3000000 held))

two_refreshes_example :
    ((rotate plain 5000 1 3000000 held store).0 ≡ ok (pair_of plain 5000 1 meera))
    × ((rotate plain 7000 2 3000000 held exchanged).0 ≡ ok (pair_of plain 7000 2 meera))
two_refreshes_example =
    two_refreshes plain 5000 1 7000 2 3000000 held meera store refl refl refl refl
      (λ e. absurd (omega (arith, e)))

refresh_in_second_example : refresh_token plain 300 1 3000000 store ≡ (
  err unique_violation,
  record store { refresh_tokens = record held { revoked_at = some 300 } ∷ [] },
)
refresh_in_second_example =
    refresh_in_second plain 300 1 3000000 held meera store refl refl refl refl refl

abbrev fresh_start : Store
fresh_start = reset_effect plain open_hash 6000 70 88 0 3 store

reset : reset_password plain open_hash 6000 70 88 0 store ≡ (ok tt, fresh_start)
unfolding reset_password reset_effect
reset = refl

reset_ends_sessions_example :
    (r : PasswordResetToken) × (find_password_reset_token 70 store ≡ some r)
    × ((old : ℕ) (row : RefreshToken) (later jti : ℕ) (u : Store)
        → find_refresh_token old fresh_start ≡ some row
        → row.user_id ≡ r.user_id
        → Reach fresh_start u
        → refresh_token plain later jti old u ≡ (err unauthorized, u))
    × ((later other salt' : ℕ)
        → reset_password plain open_hash later 70 other salt' fresh_start
          ≡ (err bad_request, fresh_start))
reset_ends_sessions_example =
    reset_ends_sessions plain open_hash 6000 70 88 0 store fresh_start reset

-- A token that was signed in the first second is of no use after a login in the same one.
new_login : (login plain open_hash 400 1 30 55 store).0 ≡ err unique_violation
unfolding login issue_tokens create_refresh_token
new_login = refl

abbrev pass : AccessTokenPayload
pass = record { sub = 3; jti = some 12; exp = 905 }

abbrev reading : Crypto
reading = record plain { verify_access = λ token now. some pass }

abbrev left : Store
left = (logout reading true 5000 3000000 (some 12) store).1

leave : logout reading true 5000 3000000 (some 12) store ≡ (ok tt, left)
unfolding logout revoke_refresh_token
leave = refl

logged_out_rejected_example : validate true 904999 pass left ≡ (err unauthorized, left)
logged_out_rejected_example =
    logged_out_rejected reading 5000 904999 3000000 12 12 pass store left leave refl refl
      (omega arith) (omega arith)

abbrev newcomer : RegisterDto
newcomer = record { email = 40; password = 66; referral_code = some 9 }

-- The code that is cut out of an id.
abbrev cut : ℕ → ℕ
cut id = id / 10

abbrev joined : Store
joined = (register_with_role cut plain open_hash 5000 1 0 70 newcomer UserRole.customer store).1

register_then_login_example :
    (login plain open_hash 8000 2 40 66 joined).0
    ≡ ok (
        pair_of plain 8000 2
          (with_code (cut 70) (new_user open_hash 0 70 newcomer UserRole.customer)))
unfolding register_with_role issue_tokens create_refresh_token
register_then_login_example =
    register_then_login cut plain open_hash 5000 1 0 70 8000 2 newcomer UserRole.customer
      (pair_of plain 5000 1
        (with_code (cut 70) (new_user open_hash 0 70 newcomer UserRole.customer)))
      store joined refl refl refl

-- Two ids that begin alike have one code, and the second registration fails after its user is made.
alike :
    (register_with_role cut plain open_hash 9000 3 0 71
      (record newcomer { email = 41 })
      UserRole.customer
      joined).0
    ≡ err unique_violation
unfolding register_with_role issue_tokens create_refresh_token
alike = refl
