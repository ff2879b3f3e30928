-- ===== src/Auth/Access.antt =====
-- The access token that was presented at logout.
use patheya_express_platform.Common.{
  ℕ, ◌+◌, ◌-◌, ◌*◌, ◌<◌, ◌≡◌, refl, sym, ap, ◌∙◌, ltb, true, Option, some, List, ◌∷◌, arith, after,
  modify, Result, ok, err, unauthorized,
}
use patheya_express_platform.Auth.Store.{Store, BlacklistEntry, revoke_refresh_token}
use patheya_express_platform.Auth.Session.{
  Crypto, AccessTokenPayload, blacklist_access, logout, validate, seconds,
}

abbrev entry_of : (jti exp now : ℕ) → BlacklistEntry
entry_of jti exp now = record { jti = jti; until = now + (exp - seconds now) * 1000 }

after_revoked :
    (k : Crypto) (now : ℕ) (access : Option ℕ) (r : Result (Unit {0}) × Store) (t : Store)
    → after r (λ _. modify (blacklist_access k true now access)) ≡ (ok tt, t)
    → t ≡ blacklist_access k true now access r.1
after_revoked k now access (ok a, u) t h = sym (ap (λ r. r.1) h)
after_revoked k now access (err e, u) t h =
    let failed : err e ≡ ok tt = ap (λ r. r.0) h in absurd cc

-- A logout that succeeds has revoked the refresh token and then written the blacklist.
logout_done :
    (k : Crypto) (now refresh : ℕ) (access : Option ℕ) (s t : Store)
    → logout k true now refresh access s ≡ (ok tt, t)
    → t ≡ blacklist_access k true now access (revoke_refresh_token (k.hash_token refresh) now s).1
unfolding logout
logout_done k now refresh access s t run =
    after_revoked k now access (revoke_refresh_token (k.hash_token refresh) now s) t run

until_covers :
    (now later exp : ℕ)
    → seconds now < exp
    → later < exp * 1000
    → later < now + (exp - seconds now) * 1000
until_covers now later exp soon before = omega arith

blacklist_access_of :
    (k : Crypto) (now access : ℕ) (p : AccessTokenPayload) (jti : ℕ) (s : Store)
    → k.verify_access access now ≡ some p
    → p.jti ≡ some jti
    → seconds now < p.exp
    → blacklist_access k true now (some access) s
      ≡ record s { blacklist = entry_of jti p.exp now ∷ s.blacklist }
blacklist_access_of k now access p jti s verified named soon =
    let in_time : ltb (seconds now) p.exp ≡ true = ground (arith, soon) in
    rw (verified, named, in_time) refl

rejected :
    (later : ℕ) (p : AccessTokenPayload) (jti until : ℕ) (bs : List BlacklistEntry) (t : Store)
    → t.blacklist ≡ record { jti = jti; until = until } ∷ bs
    → p.jti ≡ some jti
    → later < until
    → validate true later p t ≡ (err unauthorized, t)
unfolding validate
rejected later p jti until bs t listed named before =
    let hit : ltb later until ≡ true = ground (arith, before) in
    rw (named, listed, hit) (ground arith)

-- An access token that is presented at a logout that succeeds, while Redis answers, is rejected from
-- then on for as long as its own expiry would let it pass: at every later time before its `exp`.
-- The token verifies, has a `jti` and has a second or more to live.
pub logged_out_rejected :
    (k : Crypto) (now later refresh access jti : ℕ) (p : AccessTokenPayload) (s t : Store)
    → logout k true now refresh (some access) s ≡ (ok tt, t)
    → k.verify_access access now ≡ some p
    → p.jti ≡ some jti
    → seconds now < p.exp
    → later < p.exp * 1000
    → validate true later p t ≡ (err unauthorized, t)
logged_out_rejected k now later refresh access jti p s t run verified named soon before =
    let u = (revoke_refresh_token (k.hash_token refresh) now s).1 in
    let written =
      logout_done k now refresh (some access) s t run
      ∙ blacklist_access_of k now access p jti u verified named soon in
    rejected later p jti (now + (p.exp - seconds now) * 1000) u.blacklist t
      (ap (λ v. v.blacklist) written) named (until_covers now later p.exp soon before)
