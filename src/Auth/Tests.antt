-- ===== src/Auth/Tests.antt =====
-- Runs of src/auth with tokens that are what they say, a Redis that keeps a list, and passwords that
-- are not hashed.
use text.Mathlib.Text.{◌==◌ as str_eq}
use text.Mathlib.TextEquality.{eq_iff}
use cost_x.Base.{
  ℕ, ◌+◌, ◌*◌, ◌<◌, ◌≤◌, ◌≡◌, ◌≢◌, refl, sym, inl, inr, Bool, true, false, ◌&&◌, ◌||◌, Option, none,
  some, List, [], ◌∷◌, String, arith, count, ltb, Bool-cases, if◌then◌else◌,
}
use cost_x.Prisma.Client.{in_memory}
use cost_x.Schema.{UserRole, User, Db, empty}
use cost_x.Transaction.{ok, err, unauthorized, invalid_credentials}
use cost_x.Auth.Libraries.{Clock, JwtPayload, Decoded, Jwt, Redis, Hashes}
use cost_x.Auth.Token.{verify_token, validate_token, invalidate_token}
use cost_x.Auth.Session.{
  AuthOutDto, AuthConfig, Salts, authenticate, logout, logout_invalidates, verify_refresh,
  refresh_token,
}
use cost_x.Auth.Refusal.{given_back_refused}
use cost_x.Auth.SignIn.{MaySignIn, authenticate_lem}

str_same : (s : String) → str_eq s s ≡ true
str_same s = (eq_iff s s).1 refl

record Note : Type 0 where
  id : ℕ
  signed_with : String
  exp : ℕ

abbrev read_note : Note → String → ℕ → Option JwtPayload
read_note note secret now =
    if str_eq note.signed_with secret && ltb now note.exp
    then some (record { id = note.id })
    else none

read_note-sign :
    (id exp now : ℕ) (secret : String)
    → now < exp
    → read_note (record { id = id; signed_with = secret; exp = exp }) secret now
      ≡ some (record { id = id })
read_note-sign id exp now secret before = ground (arith, str_same secret, before)

read_note_expires :
    (note : Note) (secret : String) (now : ℕ) (payload : JwtPayload)
    → read_note note secret now ≡ some payload
    → now < note.exp
read_note_expires note secret now payload h = elim (Bool-cases (ltb now note.exp)) [
  | inl before ↦ ground (arith, before)
  | inr past ↦ elim (Bool-cases (str_eq note.signed_with secret)) [
    | inl same ↦ absurd (ground (arith, same, past, h))
    | inr other ↦ absurd (ground (arith, other, h))
  ]
]

expires_at :
    (note : Note) (secret : String) (now : ℕ) (payload : JwtPayload) (decoded : Decoded) (exp : ℕ)
    → read_note note secret now ≡ some payload
    → some (record { payload = record { id = note.id }; exp = some note.exp }) ≡ some decoded
    → decoded.exp ≡ some exp
    → now < exp
expires_at note secret now payload decoded exp verified decodes expires =
    let before = read_note_expires note secret now payload verified in
    let e : note.exp ≡ exp = ground arith in omega (arith, before, e)

instance abbrev notes : Jwt
notes = record {
  Token = Note;
  sign = λ payload salt secret expires_in iat. record {
    id = payload.id;
    signed_with = secret;
    exp = iat + expires_in;
  };
  verify = read_note;
  decode = λ note. some (record { payload = record { id = note.id }; exp = some note.exp });
  decode-sign = λ payload salt secret expires_in iat. refl;
  verify-sign = λ payload salt secret expires_in iat now before.
      read_note-sign payload.id (iat + expires_in) now secret before;
  verify_expires = expires_at;
}

abbrev has_entry : String → ℕ → List (String × ℕ) → Bool
has_entry key now [] = false
has_entry key now ((k, expires) ∷ rest) =
    (str_eq k key && ltb now expires) || has_entry key now rest

abbrev add_entry : String → ℕ → ℕ → List (String × ℕ) → List (String × ℕ)
add_entry key seconds now store =
    if has_entry key now store then store else (key, now + 1000 * seconds) ∷ store

has_entry-add_entry :
    (key : String) (seconds now later : ℕ) (store : List (String × ℕ))
    → has_entry key now store ≡ false
    → now ≤ later
    → later < now + 1000 * seconds
    → has_entry key later (add_entry key seconds now store) ≡ true
has_entry-add_entry key seconds now later store free order before =
    let same = str_same key in
    let soon : ltb later (now + 1000 * seconds) ≡ true = ground (arith, before) in
    rw (free) (rw (same, soon) refl)

has_entry_kept :
    (key other : String) (seconds now later : ℕ) (store : List (String × ℕ))
    → has_entry key later store ≡ true
    → has_entry key later (add_entry other seconds now store) ≡ true
has_entry_kept key other seconds now later store there =
    elim (Bool-cases (has_entry other now store)) [
      | inl again ↦ rw (again) there
      | inr new ↦ rw (new, there) (or_true (str_eq other key && ltb later (now + 1000 * seconds)))
    ]
  where
    or_true : (b : Bool) → (b || true) ≡ true
    or_true true = refl
    or_true false = refl

has_entry_other :
    (key other : String) (seconds now later : ℕ) (store : List (String × ℕ))
    → key ≢ other
    → has_entry key later (add_entry other seconds now store) ≡ has_entry key later store
has_entry_other key other seconds now later store apart =
    elim (Bool-cases (has_entry other now store)) [
      | inl again ↦ rw (again) refl
      | inr new ↦ elim (Bool-cases (str_eq other key)) [
        | inl same ↦ absurd (apart (sym ((eq_iff other key).0 same)))
        | inr differs ↦ rw (new, differs) refl
      ]
    ]

instance abbrev entries : Redis
entries = record {
  Store = List (String × ℕ);
  exists = has_entry;
  set_ex_nx = add_entry;
  exists-set_ex_nx = has_entry-add_entry;
  exists_kept = λ key other seconds now later store there order.
      has_entry_kept key other seconds now later store there;
  exists_other = has_entry_other;
}

instance abbrev plain : Hashes Note
plain = record {
  redis_key = λ prefix token. prefix;
  redis_key_prefix = λ prefix prefix' token token' e. e;
  compare_passwords = str_eq;
}

abbrev config : AuthConfig
config = record {
  access = record { secret = "s"; expires_in = 60; redis_prefix = "a" };
  refresh = record { secret = "t"; expires_in = 600; redis_prefix = "r" };
}

abbrev now : Clock
now = record { seconds = 10; millis = 0 }

abbrev later : Clock
later = record { seconds = 20; millis = 5 }

abbrev ticket : Note
ticket = record { id = 2; signed_with = "t"; exp = 600 }

abbrev salts : Salts
salts = record { access = 1; refresh = 2 }

prefixes_apart : config.refresh.redis_prefix ≢ config.access.redis_prefix
prefixes_apart e = absurd (cc ((eq_iff "r" "a").1 e))

logout_run : logout config none (some ticket) now [] ≡ ok (tt, ("r", 601000) ∷ [])
unfolding logout verify_refresh verify_token validate_token invalidate_token logout_invalidates
logout_run = refl

given_back_refused_example :
    ((store' : List (String × ℕ))
      → logout config none (some ticket) now [] ≡ ok (tt, store')
      → verify_token config.refresh ticket later store' ≡ err unauthorized)
    × ((tokens : AuthOutDto Note) (store' : List (String × ℕ))
        → refresh_token config none (some ticket) salts now empty [] ≡ ok (tokens, store')
        → verify_token config.refresh ticket later store' ≡ err unauthorized)
given_back_refused_example =
    given_back_refused config none ticket salts now later empty [] 600
      (record { decoded = _; decodes = refl; expiry = refl })
      (record { order = ground arith; on_clock = ground arith }) prefixes_apart

abbrev user : User
user = record {
  id = 2;
  email = "a";
  password = "p";
  name = "n";
  role = UserRole.user;
  is_banned = false;
  confirm_email_temp_code = none;
  reset_password_temp_code = none;
}

abbrev people : Db
people = record empty { users = user ∷ [] }

authenticate_lem_example :
    ((tokens : AuthOutDto Note)
      → authenticate config (some "a") (some "p") salts now people ≡ ok tokens
      → (u : User) × ((q : User → Bool) → q u ≡ true → 0 < count q people.users)
        × MaySignIn config "a" "p" salts now tokens u)
    × (count (λ (v : User). str_eq v.email "a") people.users ≡ 0
        → authenticate config (some "a") (some "p") salts now people ≡ err invalid_credentials)
authenticate_lem_example = authenticate_lem config "a" "p" salts now people
