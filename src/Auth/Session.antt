-- ===== src/Auth/Session.antt =====
-- src/auth: auth.service.ts, refresh-token.service.ts and logout.service.ts. The tables are only
-- read. A token that is missing or empty is `none`; the two random salts are arguments.
use text.Mathlib.Text.{◌==◌ as str_eq}
use cost_x.Base.{ℕ, not, Option, none, some, String, ◌==◌, is_none, if◌then◌else◌}
use cost_x.Prisma.{Prisma}
use cost_x.Schema.{User, Db}
use cost_x.Transaction.{
  Result, ok, err, invalid_refresh_token, unknown_user, invalid_credentials, email_not_verified,
  user_banned, type_error,
}
use cost_x.Auth.Libraries.{Clock, JwtPayload, Jwt, Redis, Hashes}
use cost_x.Auth.Token.{S, TokenConfig, create_token, decode_token, verify_token, invalidate_token}

pub record AuthOutDto (Token : Type 0) : Type 0 where
  pub access_token : Token
  pub refresh_token : Token

pub record AuthConfig : Type 0 where
  pub access : TokenConfig
  pub refresh : TokenConfig

pub record Salts : Type 0 where
  pub access : ℕ
  pub refresh : ℕ

module _ ⦃jwt : Jwt⦄ where
  abbrev pub new_tokens : AuthConfig → ℕ → Salts → Clock → AuthOutDto jwt.Token
  new_tokens config user_id salts now = record {
    access_token = create_token config.access (record { id = user_id }) salts.access now;
    refresh_token = create_token config.refresh (record { id = user_id }) salts.refresh now;
  }

  unfoldable pub authenticate_user :
      AuthConfig → User → Salts → Clock → Result (AuthOutDto jwt.Token)
  authenticate_user config user salts now =
      if not (is_none user.confirm_email_temp_code)
      then err email_not_verified
      else if user.is_banned
      then err user_banned
      else ok (new_tokens config user.id salts now)

module _ ⦃jwt : Jwt⦄ ⦃hashes : Hashes jwt.Token⦄ where
  abbrev pub check_password :
      AuthConfig → String → Salts → Clock → Option User → Result (AuthOutDto jwt.Token)
  check_password config password salts now none = err invalid_credentials
  check_password config password salts now (some user) =
      if not (hashes.compare_passwords password user.password)
      then err invalid_credentials
      else authenticate_user config user salts now

module _ ⦃prisma : Prisma⦄ ⦃jwt : Jwt⦄ ⦃hashes : Hashes jwt.Token⦄ where
  -- `authenticate`; what is given may be missing or empty.
  unfoldable pub authenticate :
      AuthConfig
      → (email password : Option String) → Salts
      → Clock
      → Db
      → Result (AuthOutDto jwt.Token)
  authenticate config none password salts now db = err invalid_credentials
  authenticate config (some email) none salts now db = err invalid_credentials
  authenticate config (some email) (some password) salts now db =
      check_password config password salts now
        (prisma.find_first (λ (u : User). str_eq u.email email) db.users)

module _ ⦃jwt : Jwt⦄ ⦃redis : Redis⦄ ⦃hashes : Hashes jwt.Token⦄ where
  -- `invalidateAccessToken` of the refresh: another user's token, or what is no token, is left.
  unfoldable pub refresh_invalidates : TokenConfig → Option jwt.Token → ℕ → Clock → S (Unit {0})
  refresh_invalidates config none user_id now store = ok (tt, store)
  refresh_invalidates config (some token) user_id now store = elim (decode_token token) [
    | none ↦ ok (tt, store)
    | some payload ↦
        if payload.id == user_id then invalidate_token config token now store else ok (tt, store)
  ]

  -- `invalidateAccessToken` of the logout, which reads the id of what `decode` gives.
  unfoldable pub logout_invalidates : TokenConfig → Option jwt.Token → ℕ → Clock → S (Unit {0})
  logout_invalidates config none user_id now store = ok (tt, store)
  logout_invalidates config (some token) user_id now store = elim (decode_token token) [
    | none ↦ err type_error
    | some payload ↦
        if payload.id == user_id then invalidate_token config token now store else ok (tt, store)
  ]

  -- `try { verifyToken } catch { throw new InvalidRefreshTokenError() }`
  unfoldable pub verify_refresh : TokenConfig → jwt.Token → Clock → S JwtPayload
  verify_refresh config token now store = elim (verify_token config token now store) [
    | ok r ↦ ok r
    | err e ↦ err invalid_refresh_token
  ]

  abbrev pub then_do : {A B : Type 0} → S A → (A → S B) → S B
  then_do m f store = elim (m store) [ ok (a, store') ↦ f a store' | err e ↦ err e ]

  unfoldable pub logout : AuthConfig → (access refresh : Option jwt.Token) → Clock → S (Unit {0})
  logout config access none now store = err invalid_refresh_token
  logout config access (some refresh) now store =
      then_do (verify_refresh config.refresh refresh now)
        (λ payload.
          then_do (invalidate_token config.refresh refresh now)
            (λ _. logout_invalidates config.access access payload.id now))
        store

module _ ⦃prisma : Prisma⦄ ⦃jwt : Jwt⦄ ⦃redis : Redis⦄ ⦃hashes : Hashes jwt.Token⦄ where
  -- The tokens of the user who is found.
  abbrev pub tokens_of :
      AuthConfig → Option User → Salts → Clock → Result (AuthOutDto jwt.Token × User)
  tokens_of config none salts now = err unknown_user
  tokens_of config (some user) salts now = elim (authenticate_user config user salts now) [
    | ok tokens ↦ ok (tokens, user)
    | err e ↦ err e
  ]

  abbrev pub exchange :
      AuthConfig
      → Option jwt.Token
      → jwt.Token
      → Clock
      → Result (AuthOutDto jwt.Token × User)
      → S (AuthOutDto jwt.Token)
  exchange config access refresh now (err e) store = err e
  exchange config access refresh now (ok (tokens, user)) store =
      then_do (refresh_invalidates config.access access user.id now)
        (λ _.
          then_do (invalidate_token config.refresh refresh now) (λ _ store'. ok (tokens, store')))
        store

  unfoldable pub refresh_token :
      AuthConfig
      → (access refresh : Option jwt.Token) → Salts
      → Clock
      → Db
      → S (AuthOutDto jwt.Token)
  refresh_token config access none salts now db store = err invalid_refresh_token
  refresh_token config access (some refresh) salts now db store =
      then_do (verify_refresh config.refresh refresh now)
        (λ payload. exchange config access refresh now (
          tokens_of config (prisma.find_first (λ (u : User). u.id == payload.id) db.users) salts
            now))
        store
