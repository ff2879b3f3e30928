-- ===== src/Auth/Login.antt =====
-- A user who has registered can log in.
use patheya_express_platform.Common.{
  ℕ, ◌≡◌, refl, sym, ap, ◌∙◌, is_some, true, false, not, ◌&&◌, ◌||◌, Option, none, some, List, ◌∷◌,
  find, any, ◌==◌, ◌===◌, ok, arith, Bool-cases, inl, inr,
}
use patheya_express_platform.Common.Table.{update_where}
use patheya_express_platform.Schema.{UserRole, user_role_eq}
use patheya_express_platform.Delivery.Proof.{Bcrypt}
use patheya_express_platform.Auth.Store.{
  Store, User, has_token, find_user_by_email, create_refresh_token,
}
use patheya_express_platform.Auth.Session.{Crypto, Tokens, issue_tokens, issued, pair_of, login}
use patheya_express_platform.Auth.Register.{
  RegisterDto, new_user, has_code, with_code, create_referral, refer_by, refer, register_with_role,
}

login_finds :
    (k : Crypto) (bcrypt : Bcrypt) (now jti email password hash : ℕ) (u : User) (s : Store)
    → let v = record u { password_hash = some hash } in
      find_user_by_email email s ≡ some v
      → bcrypt.compare password hash ≡ true
      → any (has_token (issued k now v).token) s.refresh_tokens ≡ false
      → (login k bcrypt now jti email password s).0 ≡ ok (pair_of k now jti v)
unfolding login issue_tokens create_refresh_token
login_finds k bcrypt now jti email password hash u s found right fresh =
    rw (found, right, fresh) refl

create_referral-users : (a b : ℕ) (s : Store) → (create_referral a b s).users ≡ s.users
create_referral-users a b s = ground arith

refer_by-users : (id : ℕ) (o : Option User) (s : Store) → (refer_by id o s).users ≡ s.users
refer_by-users id none s = refl
refer_by-users id (some u) s = elim (Bool-cases (u.id == id)) [
  | inl same ↦ rw same refl
  | inr other ↦ rw other (create_referral-users u.id id s)
]

refer-users :
    (id : ℕ) (code : Option ℕ) (role : UserRole) (s : Store)
    → (refer id code role s).users ≡ s.users
refer-users id none role s = refl
refer-users id (some code) role s = elim (Bool-cases (role === UserRole.customer)) [
  | inl same ↦ rw same (refer_by-users id (find (has_code code) s.users) s)
  | inr other ↦ rw other refl
]

issue_tokens-users :
    (k : Crypto) (now jti : ℕ) (u : User) (s : Store)
    → (issue_tokens k now jti u s).1.users ≡ s.users
unfolding issue_tokens create_refresh_token
issue_tokens-users k now jti u s =
    elim (Bool-cases (any (has_token (issued k now u).token) s.refresh_tokens)) [
      | inl clash ↦ rw clash refl
      | inr fresh ↦ rw fresh refl
    ]

coded_first :
    (code id : ℕ) (u : User) (us : List User)
    → u.id ≡ id
    → update_where (λ (o : User). o.id == id) (with_code code) (u ∷ us)
      ≡ with_code code u ∷ update_where (λ (o : User). o.id == id) (with_code code) us
coded_first code id u us same = let hit : (u.id == id) ≡ true = ground (arith, same) in rw hit refl

-- A registration that succeeds puts the user, with the referral code, before the others.
register_users :
    (code_of : ℕ → ℕ) (k : Crypto) (bcrypt : Bcrypt) (now jti salt id : ℕ) (dto : RegisterDto)
    (role : UserRole) (tokens : Tokens) (s t : Store)
    → register_with_role code_of k bcrypt now jti salt id dto role s ≡ (ok tokens, t)
    → (rest : List User) × (t.users
        ≡ with_code (code_of id) (new_user bcrypt salt id dto role) ∷ rest)
unfolding register_with_role issue_tokens create_refresh_token
register_users code_of k bcrypt now jti salt id dto role tokens s t run =
    let u = new_user bcrypt salt id dto role in
    elim (Bool-cases (is_some (find_user_by_email dto.email s))) [
      | inl known ↦ absurd (ground (arith, known))
      | inr new ↦
          elim (Bool-cases (any (λ (o : User). (o.email == u.email) || (o.id == u.id)) s.users)) [
            | inl clash ↦ absurd (ground (arith, new, clash))
            | inr free ↦
                elim (Bool-cases
                  (any (λ (o : User). has_code (code_of id) o && not (o.id == id)) (u ∷ s.users))) [
                    | inl taken ↦ absurd (ground (arith, new, free, taken))
                    | inr open' ↦
                        let coded =
                          update_where (λ (o : User). o.id == id) (with_code (code_of id)) in
                        let v =
                          refer id dto.referral_code role
                            (record s { users = coded (u ∷ s.users) }) in
                        let whole : register_with_role code_of k bcrypt now jti salt id dto role s
                            ≡ issue_tokens k now jti (with_code (code_of id) u) v =
                          rw (register_with_role, new, free, open') refl in
                        (
                          coded s.users,
                          ap (λ r. r.1.users) (sym run ∙ whole)
                              ∙ issue_tokens-users k now jti (with_code (code_of id) u) v
                              ∙ refer-users id dto.referral_code role
                                  (record s { users = coded (u ∷ s.users) })
                              ∙ coded_first (code_of id) id u s.users refl,
                        )
                  ]
          ]
    ]

-- A user who registers can log in: where a registration has succeeded and bcrypt compares the
-- password with its own hash, a later login with the same email and password finds the new account
-- and answers with its tokens, if the refresh token that it signs is a new one.
pub register_then_login :
    (code_of : ℕ → ℕ) (k : Crypto) (bcrypt : Bcrypt) (now jti salt id later jti' : ℕ)
    (dto : RegisterDto) (role : UserRole) (tokens : Tokens) (s t : Store)
    → register_with_role code_of k bcrypt now jti salt id dto role s ≡ (ok tokens, t)
    → bcrypt.compare dto.password (bcrypt.hash salt dto.password) ≡ true
    → let u = with_code (code_of id) (new_user bcrypt salt id dto role) in
      any (has_token (issued k later u).token) t.refresh_tokens ≡ false
      → (login k bcrypt later jti' dto.email dto.password t).0 ≡ ok (pair_of k later jti' u)
register_then_login code_of k bcrypt now jti salt id later jti' dto role tokens s t run right
      fresh =
    let u = with_code (code_of id) (new_user bcrypt salt id dto role) in
    let (rest, users) = register_users code_of k bcrypt now jti salt id dto role tokens s t run in
    let own : (dto.email == dto.email) ≡ true = ground arith in
    let found : find_user_by_email dto.email t ≡ some u = rw (users, own) refl in
    login_finds k bcrypt later jti' dto.email dto.password (bcrypt.hash salt dto.password) u t found
      right fresh
