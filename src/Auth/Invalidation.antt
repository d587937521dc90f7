-- ===== src/Auth/Invalidation.antt =====
-- What giving a token back leaves in Redis, and what a verification finds there.
use cost_x.Base.{
  ℕ, ◌+◌, ◌-◌, ◌<◌, ◌≤◌, ◌≡◌, ◌≢◌, refl, ◌∙◌, inl, inr, true, false, Option, none, some, String,
  arith, ltb, ◌==◌, Bool-cases, Option-cases,
}
use cost_x.Transaction.{Result, Error, ok, err, unauthorized}
use cost_x.Auth.Libraries.{Clock, time_of, JwtPayload, Decoded, Jwt, Redis, Hashes}
use cost_x.Auth.Token.{S, TokenConfig, verify_token, validate_token, invalidate_token, decode_token}
use cost_x.Auth.Session.{verify_refresh, then_do, logout_invalidates, refresh_invalidates}

-- The later point in time, on a clock.
pub record IsLater (now later : Clock) : Type 0 where
  pub order : time_of now ≤ time_of later
  pub on_clock : later.millis < 1000

module _ ⦃jwt : Jwt⦄ ⦃redis : Redis⦄ ⦃hashes : Hashes jwt.Token⦄ where
  -- A token with an expiry.
  pub record Expires (token : jwt.Token) (exp : ℕ) : Type 0 where
    pub decoded : Decoded
    pub decodes : jwt.decode token ≡ some decoded
    pub expiry : decoded.exp ≡ some exp

  abbrev pub key_of : TokenConfig → jwt.Token → String
  key_of config token = hashes.redis_key config.redis_prefix token

  -- The key is there as long as the token would be verified.
  unfoldable pub IsRefused : TokenConfig → jwt.Token → redis.Store → Clock → Type 0
  IsRefused config token store later =
      (content : JwtPayload)
      → jwt.verify token config.secret later.seconds ≡ some content
      → redis.exists (key_of config token) (time_of later) store ≡ true

  pub IsRefused-verify_token :
      (config : TokenConfig) (token : jwt.Token) (store : redis.Store) (later : Clock)
      → IsRefused config token store later
      → verify_token config token later store ≡ err unauthorized
  unfolding verify_token validate_token IsRefused
  IsRefused-verify_token config token store later refused =
      elim (Option-cases (jwt.verify token config.secret later.seconds)) [
        | inl no_token ↦ rw (no_token, verify_token) refl
        | inr (content, verified) ↦ rw (verified, refused content verified, verify_token) refl
      ]

  -- What a verification tells.
  pub verified_lem :
      (config : TokenConfig) (token : jwt.Token) (now : Clock) (store : redis.Store)
      {content : JwtPayload} {store' : redis.Store}
      → verify_token config token now store ≡ ok (content, store')
      → (jwt.verify token config.secret now.seconds ≡ some content)
        × (redis.exists (key_of config token) (time_of now) store ≡ false)
        × (store' ≡ store)
  unfolding verify_token validate_token
  verified_lem config token now store h =
      elim (Option-cases (jwt.verify token config.secret now.seconds)) [
        | inl no_token ↦ absurd (ground (arith, no_token, h))
        | inr (content, verified) ↦
            elim (Bool-cases (redis.exists (key_of config token) (time_of now) store)) [
              | inl there ↦ absurd (ground (arith, verified, there, h))
              | inr free ↦
                  (ground (arith, verified, free, h), free, ground (arith, verified, free, h))
            ]
      ]

  pub invalidated-IsRefused :
      (config : TokenConfig) (token : jwt.Token) (now later : Clock) (store : redis.Store)
      {content : JwtPayload} {store1 store2 : redis.Store} (exp : ℕ)
      → Expires token exp
      → IsLater now later
      → verify_token config token now store ≡ ok (content, store1)
      → invalidate_token config token now store ≡ ok (tt, store2)
      → IsRefused config token store2 later
  unfolding invalidate_token IsRefused
  invalidated-IsRefused config token now later store {content} {store1} {store2} exp e after h h'
        content' again =
      let (verified, free, _) = verified_lem config token now store h in
      let before =
        jwt.verify_expires token config.secret now.seconds content e.decoded exp verified e.decodes
          e.expiry in
      let still =
        jwt.verify_expires token config.secret later.seconds content' e.decoded exp again e.decodes
          e.expiry in
      let key = key_of config token in
      let seconds = (exp + 1) - now.seconds in
      let soon : ltb now.seconds (exp + 1) ≡ true = ground (arith, before) in
      let sets : store2 ≡ redis.set_ex_nx key seconds (time_of now) store =
        ground (arith, e.decodes, e.expiry, soon, h') in
      rw (sets) (
        redis.exists-set_ex_nx key seconds (time_of now) (time_of later) store free after.order
          (omega (arith, before, still, after.on_clock)))

  invalidate-exists :
      (config : TokenConfig) (token : jwt.Token) (key : String) (now later : Clock)
      (store : redis.Store) {store' : redis.Store}
      → IsLater now later
      → invalidate_token config token now store ≡ ok (tt, store')
      → redis.exists key (time_of later) store ≡ true
      → redis.exists key (time_of later) store' ≡ true
  unfolding invalidate_token
  invalidate-exists config token key now later store {store'} after h there =
      elim (Option-cases (jwt.decode token)) [
        | inl no_token ↦ absurd (ground (arith, no_token, h))
        | inr (decoded, decodes) ↦ elim (Option-cases decoded.exp) [
          | inl forever ↦
              let e : store' ≡ store = ground (arith, decodes, forever, h) in rw (e) there
          | inr (exp, expires) ↦ elim (Bool-cases (ltb now.seconds (exp + 1))) [
            | inl soon ↦
                let e : store'
                    ≡ redis.set_ex_nx (key_of config token) ((exp + 1) - now.seconds) (time_of now)
                        store =
                  ground (arith, decodes, expires, soon, h) in
                rw (e) (
                  redis.exists_kept key (key_of config token) ((exp + 1) - now.seconds)
                    (time_of now) (time_of later) store there after.order)
            | inr past ↦
                let e : store' ≡ store = ground (arith, decodes, expires, past, h) in rw (e) there
          ]
        ]
      ]

  pub logout_invalidates-exists :
      (config : TokenConfig) (token : Option jwt.Token) (user_id : ℕ) (key : String)
      (now later : Clock) (store : redis.Store) {store' : redis.Store}
      → IsLater now later
      → logout_invalidates config token user_id now store ≡ ok (tt, store')
      → redis.exists key (time_of later) store ≡ true
      → redis.exists key (time_of later) store' ≡ true
  unfolding logout_invalidates
  logout_invalidates-exists config none user_id key now later store {store'} after h there =
      let e : store' ≡ store = ground arith in rw (e) there
  logout_invalidates-exists config (some token) user_id key now later store {store'} after h there =
      elim (Option-cases (decode_token token)) [
        | inl no_token ↦ absurd (ground (arith, no_token, h))
        | inr (payload, decodes) ↦ elim (Bool-cases (payload.id == user_id)) [
          | inl same ↦
              invalidate-exists config token key now later store after
                (ground (arith, decodes, same, h)) there
          | inr other ↦ let e : store' ≡ store = ground (arith, decodes, other, h) in rw (e) there
        ]
      ]

  -- A sequence that comes through.
  pub parts {ℓ} :
      {A B : Type 0} {C : Type ℓ} (m : S A) (f : A → S B) (store : redis.Store) {b : B}
      {store' : redis.Store}
      → then_do m f store ≡ ok (b, store')
      → ((a : A) (between : redis.Store)
          → m store ≡ ok (a, between)
          → f a between ≡ ok (b, store')
          → C)
      → C
  parts {A} {B} {C} m f store {b} {store'} h use_parts = first (m store) h use_parts
    where
      first :
          (r : Result (A × redis.Store))
          → elim r [ ok (a, between) ↦ f a between | err e ↦ err e ] ≡ ok (b, store')
          → ((a : A) (between : redis.Store)
              → r ≡ ok (a, between)
              → f a between ≡ ok (b, store')
              → C)
          → C
      first (ok (a, between)) e k = k a between refl e
      first (err e) e' k = absurd (cc)

  pub verify_refresh_lem :
      (config : TokenConfig) (token : jwt.Token) (now : Clock) (store : redis.Store)
      {content : JwtPayload} {store' : redis.Store}
      → verify_refresh config token now store ≡ ok (content, store')
      → verify_token config token now store ≡ ok (content, store')
  unfolding verify_refresh
  verify_refresh_lem config token now store {content} {store'} h =
      by_result (verify_token config token now store) h
    where
      by_result :
          (r : Result (JwtPayload × redis.Store))
          → elim r [ ok x ↦ ok x | err e ↦ err Error.invalid_refresh_token ] ≡ ok (content, store')
          → r ≡ ok (content, store')
      by_result (ok x) e = e
      by_result (err e) e' = absurd (cc)

  invalidate-free :
      (config : TokenConfig) (token : jwt.Token) (key : String) (now : Clock) (store : redis.Store)
      {store' : redis.Store}
      → key ≢ key_of config token
      → invalidate_token config token now store ≡ ok (tt, store')
      → redis.exists key (time_of now) store ≡ false
      → redis.exists key (time_of now) store' ≡ false
  unfolding invalidate_token
  invalidate-free config token key now store {store'} apart h free =
      elim (Option-cases (jwt.decode token)) [
        | inl no_token ↦ absurd (ground (arith, no_token, h))
        | inr (decoded, decodes) ↦ elim (Option-cases decoded.exp) [
          | inl forever ↦
              let e : store' ≡ store = ground (arith, decodes, forever, h) in rw (e) free
          | inr (exp, expires) ↦ elim (Bool-cases (ltb now.seconds (exp + 1))) [
            | inl soon ↦
                let e : store'
                    ≡ redis.set_ex_nx (key_of config token) ((exp + 1) - now.seconds) (time_of now)
                        store =
                  ground (arith, decodes, expires, soon, h) in
                rw (e) (
                  redis.exists_other key (key_of config token) ((exp + 1) - now.seconds)
                    (time_of now) (time_of now) store apart
                  ∙ free)
            | inr past ↦
                let e : store' ≡ store = ground (arith, decodes, expires, past, h) in rw (e) free
          ]
        ]
      ]

  pub refresh_invalidates-free :
      (config : TokenConfig) (token : Option jwt.Token) (user_id : ℕ) (key : String) (now : Clock)
      (store : redis.Store) {store' : redis.Store}
      → ((t : jwt.Token) → key ≢ key_of config t)
      → refresh_invalidates config token user_id now store ≡ ok (tt, store')
      → redis.exists key (time_of now) store ≡ false
      → redis.exists key (time_of now) store' ≡ false
  unfolding refresh_invalidates
  refresh_invalidates-free config none user_id key now store {store'} apart h free =
      let e : store' ≡ store = ground arith in rw (e) free
  refresh_invalidates-free config (some token) user_id key now store {store'} apart h free =
      elim (Option-cases (decode_token token)) [
        | inl no_token ↦ let e : store' ≡ store = ground (arith, no_token, h) in rw (e) free
        | inr (payload, decodes) ↦ elim (Bool-cases (payload.id == user_id)) [
          | inl same ↦
              invalidate-free config token key now store (apart token)
                (ground (arith, decodes, same, h)) free
          | inr other ↦ let e : store' ≡ store = ground (arith, decodes, other, h) in rw (e) free
        ]
      ]

  -- The verification depends on the store by the key only.
  pub verify_where_free :
      (config : TokenConfig) (token : jwt.Token) (now : Clock) (store : redis.Store)
      {content : JwtPayload}
      → jwt.verify token config.secret now.seconds ≡ some content
      → redis.exists (key_of config token) (time_of now) store ≡ false
      → verify_token config token now store ≡ ok (content, store)
  unfolding verify_token validate_token
  verify_where_free config token now store verified free = rw (verified, free, verify_token) refl
