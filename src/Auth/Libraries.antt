-- ===== src/Auth/Libraries.antt =====
-- What src/token and src/auth take from elsewhere: jsonwebtoken, Redis, the hash of a key and
-- bcrypt. A token is a string, of which
-- nobody looks at the letters. A point in time is the seconds and the milliseconds beyond them.
use cost_x.Base.{ℕ, ◌+◌, ◌*◌, ◌<◌, ◌≤◌, ◌≡◌, ◌≢◌, Bool, true, false, Option, some, String}

pub record Clock : Type 0 where
  pub seconds : ℕ
  pub millis : ℕ

abbrev pub time_of : Clock → ℕ
time_of c = 1000 * c.seconds + c.millis

-- `JwtPayload`
pub record JwtPayload : Type 0 where
  pub id : ℕ

-- What `decode` reads off a token, whether it is signed or not; `exp` may be missing.
pub record Decoded : Type 0 where
  pub payload : JwtPayload
  pub exp : Option ℕ

pub record Jwt : Type 1 where
  pub Token : Type 0
  -- `sign({ ...payload, salt }, secret, { expiresIn })`, at a second
  pub sign : JwtPayload → (salt : ℕ) (secret : String) (expires_in iat : ℕ) → Token
  -- `verify`, at a second
  pub verify : Token → (secret : String) (now : ℕ) → Option JwtPayload
  pub decode : Token → Option Decoded
  pub decode-sign :
      (payload : JwtPayload) (salt : ℕ) (secret : String) (expires_in iat : ℕ)
      → decode (sign payload salt secret expires_in iat)
        ≡ some (record { payload = payload; exp = some (iat + expires_in) })
  pub verify-sign :
      (payload : JwtPayload) (salt : ℕ) (secret : String) (expires_in iat now : ℕ)
      → now < iat + expires_in
      → verify (sign payload salt secret expires_in iat) secret now ≡ some payload
  -- A token that has expired is not verified.
  pub verify_expires :
      (token : Token) (secret : String) (now : ℕ) (payload : JwtPayload) (decoded : Decoded)
      (exp : ℕ)
      → verify token secret now ≡ some payload
      → decode token ≡ some decoded
      → decoded.exp ≡ some exp
      → now < exp

-- Redis, by the states that it can be in.
pub record Redis : Type 1 where
  pub Store : Type 0
  -- `exists(key)`, at a point in time
  pub exists : String → ℕ → Store → Bool
  -- `set(key, '', 'EX', seconds, 'NX')`, at a point in time
  pub set_ex_nx : String → (seconds : ℕ) → ℕ → Store → Store
  -- A key that is set lasts for its seconds.
  pub exists-set_ex_nx :
      (key : String) (seconds now later : ℕ) (store : Store)
      → exists key now store ≡ false
      → now ≤ later
      → later < now + 1000 * seconds
      → exists key later (set_ex_nx key seconds now store) ≡ true
  -- Setting with `NX` takes no key away.
  pub exists_kept :
      (key other : String) (seconds now later : ℕ) (store : Store)
      → exists key later store ≡ true
      → now ≤ later
      → exists key later (set_ex_nx other seconds now store) ≡ true
  -- Setting a key does nothing to another one.
  pub exists_other :
      (key other : String) (seconds now later : ℕ) (store : Store)
      → key ≢ other
      → exists key later (set_ex_nx other seconds now store) ≡ exists key later store

pub record Hashes (Token : Type 0) : Type 0 where
  -- `${prefix}${sha256 of the token}`
  pub redis_key : (prefix : String) → Token → String
  -- All hashes are of one length.
  pub redis_key_prefix :
      (prefix prefix' : String) (token token' : Token)
      → redis_key prefix token ≡ redis_key prefix' token'
      → prefix ≡ prefix'
  -- `bcrypt.compare`
  pub compare_passwords : (password hash : String) → Bool
