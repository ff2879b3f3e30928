-- ===== src/Auth/Race.antt =====
-- Two calls of refreshToken that overlap, and one that comes in the second of the login.
use patheya_express_platform.Common.{
  ℕ, ◌≡◌, ◌≢◌, refl, sym, ap, ◌∙◌, is_some, ltb, true, false, some, [], ◌∷◌, List, arith, any,
  any_found, ok, err, unique_violation,
}
use patheya_express_platform.Common.Table.{update_where}
use patheya_express_platform.Auth.Store.{
  Store, User, RefreshToken, has_token, find_refresh_token, create_refresh_token,
  revoke_refresh_token, revoke, owner,
}
use patheya_express_platform.Auth.Session.{
  Crypto, issued, pair_of, issue_tokens, rotate, refresh_token, is_live, seconds,
}

-- The store after a rotation.
abbrev revoked_at : ℕ → ℕ → Store → Store
revoked_at token now s = record s {
  refresh_tokens = update_where (has_token token) (revoke now) s.refresh_tokens;
}

any-update :
    (token other now : ℕ) (rs : List RefreshToken)
    → any (has_token other) (update_where (has_token token) (revoke now) rs)
      ≡ any (has_token other) rs
any-update token other now [] = refl
any-update token other now (r ∷ rs) = ground (arith, any-update token other now rs)

rotated :
    (k : Crypto) (now jti raw : ℕ) (existing : RefreshToken) (u : User) (s : Store)
    → any (has_token (k.hash_token raw)) s.refresh_tokens ≡ true
    → owner existing.user_id s ≡ some u
    → any (has_token (issued k now u).token) s.refresh_tokens ≡ false
    → rotate k now jti raw existing s ≡ (
      ok (pair_of k now jti u),
      record s {
        refresh_tokens =
            issued k now u
            ∷ update_where (has_token (k.hash_token raw)) (revoke now) s.refresh_tokens;
      },
    )
unfolding rotate revoke_refresh_token issue_tokens create_refresh_token
rotated k now jti raw existing u s there owned fresh =
    let kept = any-update (k.hash_token raw) (issued k now u).token now s.refresh_tokens ∙ fresh in
    rw (there, owned, kept) refl

-- A refresh token can be exchanged twice: two calls that have read its row before either revokes it
-- both answer with a new pair, where the two new refresh tokens differ from each other and from
-- those that are known.
pub two_refreshes :
    (k : Crypto) (now jti now' jti' raw : ℕ) (existing : RefreshToken) (u : User) (s : Store)
    → find_refresh_token (k.hash_token raw) s ≡ some existing
    → owner existing.user_id s ≡ some u
    → any (has_token (issued k now u).token) s.refresh_tokens ≡ false
    → any (has_token (issued k now' u).token) s.refresh_tokens ≡ false
    → (issued k now u).token ≢ (issued k now' u).token
    → let (r, t) = rotate k now jti raw existing s in
      (r ≡ ok (pair_of k now jti u))
      × ((rotate k now' jti' raw existing t).0 ≡ ok (pair_of k now' jti' u))
two_refreshes k now jti now' jti' raw existing u s found owned fresh fresh' differ =
    let token = k.hash_token raw in
    let there = any_found (has_token token) existing s.refresh_tokens found in
    let first = rotated k now jti raw existing u s there owned fresh in
    let t = record s {
      refresh_tokens =
          issued k now u ∷ update_where (has_token token) (revoke now) s.refresh_tokens;
    } in
    let there' : any (has_token token) t.refresh_tokens ≡ true =
      ground (arith, any-update token token now s.refresh_tokens, there) in
    let fresh_t : any (has_token (issued k now' u).token) t.refresh_tokens ≡ false =
      ground
        (arith, any-update token (issued k now' u).token now s.refresh_tokens, fresh', differ) in
    let second = rotated k now' jti' raw existing u t there' owned fresh_t in
    rw first (refl, ap (λ r. r.0) second)

any-has_token :
    (token other : ℕ) (rs : List RefreshToken)
    → token ≡ other
    → any (has_token token) rs ≡ true
    → any (has_token other) rs ≡ true
any-has_token token other rs same there = rw (sym same) there

-- A refresh in the second in which the presented token was signed always fails, on the unique index
-- of tokens, since the token that it signs is the same one; and the presented token is revoked by
-- then. The token is known, verifies and is live.
pub refresh_in_second :
    (k : Crypto) (now jti raw : ℕ) (existing : RefreshToken) (u : User) (s : Store)
    → k.verify_refresh raw now ≡ true
    → find_refresh_token (k.hash_token raw) s ≡ some existing
    → is_live now existing ≡ true
    → owner existing.user_id s ≡ some u
    → raw ≡ k.sign_refresh u (seconds now)
    → refresh_token k now jti raw s ≡ (
      err unique_violation,
      record s {
        refresh_tokens = update_where (has_token (k.hash_token raw)) (revoke now) s.refresh_tokens;
      },
    )
unfolding refresh_token rotate revoke_refresh_token issue_tokens create_refresh_token
refresh_in_second k now jti raw existing u s good found live owned same =
    let token = k.hash_token raw in
    let there = any_found (has_token token) existing s.refresh_tokens found in
    let open' : is_some existing.revoked_at ≡ false = ground (arith, live) in
    let early : ltb existing.expires_at now ≡ false = ground (arith, live) in
    let again : any (has_token (issued k now u).token)
          (update_where (has_token token) (revoke now) s.refresh_tokens)
        ≡ true =
      any-has_token token (issued k now u).token _ (ap k.hash_token same)
        (any-update token token now s.refresh_tokens ∙ there) in
    rw (good, found, open', early, there, owned, again) refl
