-- ===== src/Auth/Revoked.antt =====
-- A revoked refresh token stays revoked: what each call leaves of it.
use patheya_express_platform.Common.{
  ℕ, ◌≡◌, inl, inr, refl, sym, is_some, Bool, true, false, Option, none, some, List, arith, find,
  any, any-find, Result, ok, err, Action, Bool-cases, after, ◌>>=◌, pure, Exception, or_throw,
  throw_if, not, ltb, unauthorized, type_error,
}
use patheya_express_platform.Common.Table.{update_where, find-update_where}
use patheya_express_platform.Delivery.Proof.{Bcrypt}
use patheya_express_platform.Auth.Store.{
  Store, User, RefreshToken, has_token, find_refresh_token, create_refresh_token,
  revoke_refresh_token, revoke, open_for, revoke_all_refresh_tokens_for_user, find_user_by_email,
  owner,
}
use patheya_express_platform.Auth.Session.{
  Crypto, issued, pair_of, issue_tokens, login, rotate, refresh_token,
}

abbrev RevokedIn : ℕ → List RefreshToken → Type 0
RevokedIn token rs =
    (r : RefreshToken) × (find (has_token token) rs ≡ some r) × (is_some r.revoked_at ≡ true)

abbrev pub IsRevoked : ℕ → Store → Type 0
IsRevoked token s = RevokedIn token s.refresh_tokens

abbrev pub Keeps {ℓ} : {A : Type ℓ} → ℕ → Action Store A → Type 0
Keeps token m = (s : Store) → IsRevoked token s → IsRevoked token (m s).1

other_token :
    (token : ℕ) (new r : RefreshToken) (rs : List RefreshToken)
    → any (has_token new.token) rs ≡ false
    → find (has_token token) rs ≡ some r
    → has_token token new ≡ false
other_token token new r rs fresh found = elim (Bool-cases (has_token token new)) [
  | inr apart ↦ apart
  | inl has ↦
      let same : new.token ≡ token = ground (arith, has) in
      let none_found : find (has_token token) rs ≡ none =
        rw (sym same) (any-find (has_token new.token) rs fresh) in
      absurd cc
]

pub create_refresh_token-Keeps :
    (token : ℕ) (new : RefreshToken) → Keeps token (create_refresh_token new)
unfolding create_refresh_token
create_refresh_token-Keeps token new s (r, found, set) =
    elim (Bool-cases (any (has_token new.token) s.refresh_tokens)) [
      | inl clash ↦ rw clash (r, found, set)
      | inr fresh ↦ rw (fresh, other_token token new r s.refresh_tokens fresh found) (r, found, set)
    ]

-- An update that revokes some tokens revokes this one or leaves it.
pub update-RevokedIn :
    (token now : ℕ) (q : RefreshToken → Bool) (rs : List RefreshToken)
    → RevokedIn token rs
    → RevokedIn token (update_where q (revoke now) rs)
update-RevokedIn token now q rs (r, found, set) =
    rw (find-update_where (has_token token) q (revoke now) rs (λ x. refl), found)
      (elim (Bool-cases (q r)) [
        | inl hit ↦ rw hit (revoke now r, refl, refl)
        | inr miss ↦ rw miss (r, refl, set)
      ])

pub revoke_refresh_token-Keeps :
    (token other now : ℕ) → Keeps token (revoke_refresh_token other now)
unfolding revoke_refresh_token
revoke_refresh_token-Keeps token other now s (r, found, set) =
    elim (Bool-cases (any (has_token other) s.refresh_tokens)) [
      | inr gone ↦ rw gone (r, found, set)
      | inl there ↦
          rw there (update-RevokedIn token now (has_token other) s.refresh_tokens (r, found, set))
    ]

pub revoke_all-IsRevoked :
    (token user_id now : ℕ) (s : Store)
    → IsRevoked token s
    → IsRevoked token (revoke_all_refresh_tokens_for_user user_id now s)
unfolding revoke_all_refresh_tokens_for_user
revoke_all-IsRevoked token user_id now s h =
    update-RevokedIn token now (open_for user_id) s.refresh_tokens h

pub kept_after {ℓ κ} :
    {A : Type ℓ} {B : Type κ} (token : ℕ) (r : Result A × Store) (k : A → Action Store B)
    → IsRevoked token r.1
    → ((a : A) → Keeps token (k a))
    → IsRevoked token (after r k).1
kept_after token (ok a, t) k h rest = rest a t h
kept_after token (err e, t) k h rest = h

pub after-Keeps {ℓ κ} :
    {A : Type ℓ} {B : Type κ} (token : ℕ) (m : Action Store A) (k : A → Action Store B)
    → Keeps token m
    → ((a : A) → Keeps token (k a))
    → Keeps token (m >>= k)
after-Keeps token m k first rest s h = kept_after token (m s) k (first s h) rest

pub or_throw-Keeps {ℓ} :
    {A : Type ℓ} (token : ℕ) (x : Option A) (e : Exception) → Keeps token (or_throw x e)
or_throw-Keeps token none e s h = h
or_throw-Keeps token (some a) e s h = h

pub issue_tokens-Keeps :
    (token : ℕ) (k : Crypto) (now jti : ℕ) (u : User) → Keeps token (issue_tokens k now jti u)
unfolding issue_tokens
issue_tokens-Keeps token k now jti u =
    after-Keeps token (create_refresh_token (issued k now u)) (λ _. pure (pair_of k now jti u))
      (create_refresh_token-Keeps token (issued k now u)) (λ _ s h. h)

pub rotate-Keeps :
    (token : ℕ) (k : Crypto) (now jti raw : ℕ) (existing : RefreshToken)
    → Keeps token (rotate k now jti raw existing)
unfolding rotate
rotate-Keeps token k now jti raw existing =
    after-Keeps token (revoke_refresh_token (k.hash_token raw) now) _
      (revoke_refresh_token-Keeps token (k.hash_token raw) now)
      (λ _ s h.
        kept_after token (or_throw (owner existing.user_id s) type_error s) _
          (or_throw-Keeps token (owner existing.user_id s) type_error s h)
          (issue_tokens-Keeps token k now jti))

pub login-Keeps :
    (token : ℕ) (k : Crypto) (bcrypt : Bcrypt) (now jti email password : ℕ)
    → Keeps token (login k bcrypt now jti email password)
unfolding login
login-Keeps token k bcrypt now jti email password s h =
    kept_after token (or_throw (find_user_by_email email s) unauthorized s) _
      (or_throw-Keeps token (find_user_by_email email s) unauthorized s h)
      (λ u.
        after-Keeps token (or_throw u.password_hash unauthorized) _
          (or_throw-Keeps token u.password_hash unauthorized)
          (λ hash.
            after-Keeps token (throw_if (not (bcrypt.compare password hash)) unauthorized) _
              (λ _ g. g) (λ _. issue_tokens-Keeps token k now jti u)))

pub refresh_token-Keeps :
    (token : ℕ) (k : Crypto) (now jti raw : ℕ) → Keeps token (refresh_token k now jti raw)
unfolding refresh_token
refresh_token-Keeps token k now jti raw =
    after-Keeps token (throw_if (not (k.verify_refresh raw now)) unauthorized) _ (λ _ g. g)
      (λ _ s h.
        kept_after token (or_throw (find_refresh_token (k.hash_token raw) s) unauthorized s) _
          (or_throw-Keeps token (find_refresh_token (k.hash_token raw) s) unauthorized s h)
          (λ existing.
            after-Keeps token (throw_if (is_some existing.revoked_at) unauthorized) _ (λ _ g. g)
              (λ _.
                after-Keeps token (throw_if (ltb existing.expires_at now) unauthorized) _ (λ _ g. g)
                  (λ _. rotate-Keeps token k now jti raw existing))))
