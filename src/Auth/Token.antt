-- ===== src/Auth/Token.antt =====
-- src/token/token.service.ts.
use cost_x.Base.{ℕ, ◌+◌, ◌-◌, Option, none, some, String, ltb, if◌then◌else◌}
use cost_x.Transaction.{Result, ok, err, unauthorized, type_error}
use cost_x.Auth.Libraries.{Clock, time_of, JwtPayload, Jwt, Redis, Hashes}

-- The configuration of one token service: that of access tokens or that of refresh tokens.
pub record TokenConfig : Type 0 where
  pub secret : String
  pub expires_in : ℕ
  pub redis_prefix : String

module _ ⦃jwt : Jwt⦄ where
  unfoldable pub create_token : TokenConfig → JwtPayload → (salt : ℕ) → Clock → jwt.Token
  create_token config payload salt now =
      jwt.sign payload salt config.secret config.expires_in now.seconds

  unfoldable pub decode_token : jwt.Token → Option JwtPayload
  decode_token token = elim (jwt.decode token) [ none ↦ none | some decoded ↦ some decoded.payload ]

module _ ⦃jwt : Jwt⦄ ⦃redis : Redis⦄ ⦃hashes : Hashes jwt.Token⦄ where
  -- What a call does to Redis.
  abbrev pub S : Type 0 → Type 0
  S A = redis.Store → Result (A × redis.Store)

  unfoldable pub validate_token : TokenConfig → jwt.Token → Clock → S (Unit {0})
  validate_token config token now store =
      if redis.exists (hashes.redis_key config.redis_prefix token) (time_of now) store
      then err unauthorized
      else ok (tt, store)

  unfoldable pub verify_token : TokenConfig → jwt.Token → Clock → S JwtPayload
  unfolding validate_token
  verify_token config token now store = elim (jwt.verify token config.secret now.seconds) [
    | none ↦ err unauthorized
    | some content ↦ elim (validate_token config token now store) [
      | ok (_, store') ↦ ok (content, store')
      | err e ↦ err e
    ]
  ]

  -- `exp - Math.floor(Date.now() / 1000) + 1`, where it is above zero
  abbrev pub invalidate_until : TokenConfig → jwt.Token → Clock → ℕ → redis.Store → redis.Store
  invalidate_until config token now exp store =
      if ltb now.seconds (exp + 1)
      then redis.set_ex_nx (hashes.redis_key config.redis_prefix token) ((exp + 1) - now.seconds)
          (time_of now) store
      else store

  -- Of a token without `exp` the difference is no number and not above zero; `decode` of what is no
  -- token gives null, which has no `exp`.
  unfoldable pub invalidate_token : TokenConfig → jwt.Token → Clock → S (Unit {0})
  invalidate_token config token now store = elim (jwt.decode token) [
    | none ↦ err type_error
    | some decoded ↦ elim decoded.exp [
      | none ↦ ok (tt, store)
      | some exp ↦ ok (tt, invalidate_until config token now exp store)
    ]
  ]
