-- ===== src/Auth/Refusal.antt =====
-- A refresh token that was given back, by a logout or for new tokens, is refused from then on.
use cost_x.Base.{ℕ, ◌≡◌, ◌≢◌, sym, subst, false, Option, some, arith, ◌==◌}
use cost_x.Prisma.{Prisma}
use cost_x.Schema.{User, Db}
use cost_x.Transaction.{Result, ok, err, unauthorized}
use cost_x.Auth.Libraries.{Clock, time_of, JwtPayload, Jwt, Redis, Hashes}
use cost_x.Auth.Token.{verify_token, invalidate_token}
use cost_x.Auth.Session.{
  AuthOutDto, AuthConfig, Salts, verify_refresh, logout, refresh_invalidates, refresh_token,
  exchange, tokens_of,
}
use cost_x.Auth.Invalidation.{
  IsLater, Expires, key_of, IsRefused, IsRefused-verify_token, verified_lem, invalidated-IsRefused,
  logout_invalidates-exists, parts, verify_refresh_lem, refresh_invalidates-free, verify_where_free,
}

module _ ⦃jwt : Jwt⦄ ⦃redis : Redis⦄ ⦃hashes : Hashes jwt.Token⦄ where
  logout_refuses :
      (config : AuthConfig) (access : Option jwt.Token) (token : jwt.Token) (now later : Clock)
      (store : redis.Store) {store' : redis.Store} (exp : ℕ)
      → Expires token exp
      → IsLater now later
      → logout config access (some token) now store ≡ ok (tt, store')
      → verify_token config.refresh token later store' ≡ err unauthorized
  unfolding logout IsRefused
  logout_refuses config access token now later store {store'} exp expires after h =
      parts (verify_refresh config.refresh token now) _ store h λ payload store1 first r1.
        let verified = verify_refresh_lem config.refresh token now store first in
        let (_, _, same) = verified_lem config.refresh token now store verified in
        parts (invalidate_token config.refresh token now) _ store1 r1 λ _ store2 second r2.
          IsRefused-verify_token config.refresh token store' later (λ content again.
            logout_invalidates-exists config.access access payload.id (key_of config.refresh token)
              now later store2 after r2
              (invalidated-IsRefused config.refresh token now later store exp expires after verified
                (subst (λ s. invalidate_token config.refresh token now s ≡ ok (tt, store2)) same
                  second)
                content again))

module _ ⦃prisma : Prisma⦄ ⦃jwt : Jwt⦄ ⦃redis : Redis⦄ ⦃hashes : Hashes jwt.Token⦄ where
  refresh_refuses :
      (config : AuthConfig) (access : Option jwt.Token) (token : jwt.Token) (salts : Salts)
      (now later : Clock) (db : Db) (store : redis.Store) {tokens : AuthOutDto jwt.Token}
      {store' : redis.Store} (exp : ℕ)
      → Expires token exp
      → IsLater now later
      → config.refresh.redis_prefix ≢ config.access.redis_prefix
      → refresh_token config access (some token) salts now db store ≡ ok (tokens, store')
      → verify_token config.refresh token later store' ≡ err unauthorized
  unfolding refresh_token
  refresh_refuses config access token salts now later db store {tokens} {store'} exp expires after
        apart h =
      parts (verify_refresh config.refresh token now) _ store h λ payload store1 first r1.
        let verified = verify_refresh_lem config.refresh token now store first in
        let (signed, free, same) = verified_lem config.refresh token now store verified in
        let user = prisma.find_first (λ (u : User). u.id == payload.id) db.users in
        by_tokens payload signed free (tokens_of config user salts now) (
          subst
            (λ s.
              exchange config access token now (tokens_of config user salts now) s
              ≡ ok (tokens, store'))
            same r1)
    where
      by_tokens :
          (payload : JwtPayload)
          → jwt.verify token config.refresh.secret now.seconds ≡ some payload
          → redis.exists (key_of config.refresh token) (time_of now) store ≡ false
          → (r : Result (AuthOutDto jwt.Token × User))
          → exchange config access token now r store ≡ ok (tokens, store')
          → verify_token config.refresh token later store' ≡ err unauthorized
      by_tokens payload signed free (err e) h' = absurd (cc)
      by_tokens payload signed free (ok (made, user)) h' =
          parts (refresh_invalidates config.access access user.id now) _ store h'
            λ _ store2 first r1.
              let free2 =
                refresh_invalidates-free config.access access user.id (key_of config.refresh token)
                  now store
                  (λ t e. apart (
                    hashes.redis_key_prefix config.refresh.redis_prefix config.access.redis_prefix
                      token t e))
                  first free in
              parts (invalidate_token config.refresh token now) (λ _ s. ok (made, s)) store2 r1
                λ _ store3 second r2.
                  let e : store' ≡ store3 = ground arith in
                  IsRefused-verify_token config.refresh token store' later (
                    subst (λ s. IsRefused config.refresh token s later) (sym e)
                      (invalidated-IsRefused config.refresh token now later store2 exp expires after
                        (verify_where_free config.refresh token now store2 signed free2) second))

  -- A refresh token with an expiry that was given back, by a logout that came through or for new
  -- tokens, where the keys of the two kinds of token have different prefixes, is refused at every
  -- later point in time.
  pub given_back_refused :
      (config : AuthConfig) (access : Option jwt.Token) (token : jwt.Token) (salts : Salts)
      (now later : Clock) (db : Db) (store : redis.Store) (exp : ℕ)
      → Expires token exp
      → IsLater now later
      → config.refresh.redis_prefix ≢ config.access.redis_prefix
      → ((store' : redis.Store)
          → logout config access (some token) now store ≡ ok (tt, store')
          → verify_token config.refresh token later store' ≡ err unauthorized)
        × ((tokens : AuthOutDto jwt.Token) (store' : redis.Store)
            → refresh_token config access (some token) salts now db store ≡ ok (tokens, store')
            → verify_token config.refresh token later store' ≡ err unauthorized)
  given_back_refused config access token salts now later db store exp expires after apart = (
    λ store' h. logout_refuses config access token now later store exp expires after h,
    λ tokens store' h.
        refresh_refuses config access token salts now later db store exp expires after apart h,
  )
