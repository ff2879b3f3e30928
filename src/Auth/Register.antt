-- ===== src/Auth/Register.antt =====
-- Registration: registerWithRole of AuthService. The id of the user, a random UUID, is given, and so
-- is the referral code that is cut out of an id.
use patheya_express_platform.Common.{
  ℕ, is_some, ◌&&◌, ◌||◌, Bool, false, not, Option, none, some, ◌∷◌, find, any, ◌==◌, ◌===◌,
  if◌then◌else◌, Action, ok, err, conflict, unique_violation, ◌>>=◌, ◌>>◌, throw_if, gets, modify,
}
use patheya_express_platform.Common.Table.{update_where}
use patheya_express_platform.Schema.{UserRole, user_role_eq}
use patheya_express_platform.Delivery.Proof.{Bcrypt}
use patheya_express_platform.Auth.Store.{Store, User, Referral, find_user_by_email}
use patheya_express_platform.Auth.Session.{Crypto, Tokens, issue_tokens}

pub record RegisterDto : Type 0 where
  pub email : ℕ
  pub password : ℕ
  pub referral_code : Option ℕ

abbrev pub new_user : Bcrypt → (salt id : ℕ) → RegisterDto → UserRole → User
new_user bcrypt salt id dto role = record {
  id = id;
  email = dto.email;
  password_hash = some (bcrypt.hash salt dto.password);
  role = role;
  referral_code = none;
  deleted = false;
}

-- The email is unique among all accounts, the deleted ones included.
abbrev pub create_user : User → Action Store (Unit {0})
create_user u s =
    if any (λ (o : User). (o.email == u.email) || (o.id == u.id)) s.users
    then (err unique_violation, s)
    else (ok tt, record s { users = u ∷ s.users })

abbrev pub has_code : ℕ → User → Bool
has_code code u = elim (u.referral_code) [ none ↦ false | some c ↦ c == code ]

abbrev pub with_code : ℕ → User → User
with_code code u = record u { referral_code = some code }

-- `referralCode` is unique.
abbrev pub set_referral_code : (id code : ℕ) → Action Store (Unit {0})
set_referral_code id code s =
    if any (λ (o : User). has_code code o && not (o.id == id)) s.users
    then (err unique_violation, s)
    else (
      ok tt,
      record s { users = update_where (λ (o : User). o.id == id) (with_code code) s.users },
    )

-- `createReferral`: a user is referred once.
abbrev pub create_referral : (referrer_id referee_id : ℕ) → Store → Store
create_referral referrer_id referee_id s =
    if any (λ (r : Referral). r.referee_id == referee_id) s.referrals then s else record s {
      referrals = record { referrer_id = referrer_id; referee_id = referee_id } ∷ s.referrals;
    }

abbrev pub refer_by : ℕ → Option User → Store → Store
refer_by id none s = s
refer_by id (some referrer) s = if referrer.id == id then s else create_referral referrer.id id s

-- The referral of a customer who gives a code.
abbrev pub refer : ℕ → Option ℕ → UserRole → Store → Store
refer id none role s = s
refer id (some code) role s =
    if role === UserRole.customer then refer_by id (find (has_code code) s.users) s else s

unfoldable pub register_with_role :
    (code_of : ℕ → ℕ)
    → Crypto
    → Bcrypt
    → (now jti salt id : ℕ) → RegisterDto
    → UserRole
    → Action Store Tokens
register_with_role code_of k bcrypt now jti salt id dto role = do
  existing ← gets (find_user_by_email dto.email)
  throw_if (is_some existing) conflict
  create_user (new_user bcrypt salt id dto role)
  set_referral_code id (code_of id)
  modify (refer id dto.referral_code role)
  issue_tokens k now jti (with_code (code_of id) (new_user bcrypt salt id dto role))
