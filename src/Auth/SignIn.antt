-- ===== src/Auth/SignIn.antt =====
-- Who gets tokens by signing in, and that a token that was made is verified.
use text.Mathlib.Text.{◌==◌ as str_eq}
use cost_x.Base.{
  ◌<◌, ◌≡◌, ap, subst, inl, inr, Bool, true, false, some, String, arith, count, is_none,
  Option-cases,
}
use cost_x.Prisma.{Prisma}
use cost_x.Schema.{User, Db}
use cost_x.Transaction.{ok, err, invalid_credentials}
use cost_x.Auth.Libraries.{Clock, Jwt, Hashes}
use cost_x.Auth.Session.{
  AuthOutDto, AuthConfig, Salts, authenticate, authenticate_user, check_password, new_tokens,
}

module _ ⦃jwt : Jwt⦄ ⦃hashes : Hashes jwt.Token⦄ where
  -- The user of these tokens may have them.
  pub record MaySignIn (config : AuthConfig) (email password : String) (salts : Salts) (now : Clock)
      (tokens : AuthOutDto jwt.Token) (user : User) : Type 0 where
    pub same_email : str_eq user.email email ≡ true
    pub right_password : hashes.compare_passwords password user.password ≡ true
    pub confirmed : is_none user.confirm_email_temp_code ≡ true
    pub not_banned : user.is_banned ≡ false
    pub same_tokens : tokens ≡ new_tokens config user.id salts now

  checked :
      (config : AuthConfig) (email password : String) (salts : Salts) (now : Clock)
      (tokens : AuthOutDto jwt.Token) (user : User)
      → str_eq user.email email ≡ true
      → check_password config password salts now (some user) ≡ ok tokens
      → MaySignIn config email password salts now tokens user
  unfolding authenticate_user
  checked config email password salts now tokens user same h = record {
    same_email = same;
    right_password = ground arith;
    confirmed = ground arith;
    not_banned = ground arith;
    same_tokens = ground arith;
  }

module _ ⦃prisma : Prisma⦄ ⦃jwt : Jwt⦄ ⦃hashes : Hashes jwt.Token⦄ where
  -- Tokens are given by signing in only for a user who is a row of the table, so that the table has a
  -- row with whatever is so of him, and who has that email, whose password is right, whose email is confirmed and who is not banned, and they are tokens of the id of that
  -- user; and if no user has the email, the credentials are refused.
  pub authenticate_lem :
      (config : AuthConfig) (email password : String) (salts : Salts) (now : Clock) (db : Db)
      → ((tokens : AuthOutDto jwt.Token)
          → authenticate config (some email) (some password) salts now db ≡ ok tokens
          → (user : User) × ((q : User → Bool) → q user ≡ true → 0 < count q db.users)
            × MaySignIn config email password salts now tokens user)
        × (count (λ (u : User). str_eq u.email email) db.users ≡ 0
            → authenticate config (some email) (some password) salts now db
              ≡ err invalid_credentials)
  unfolding authenticate
  authenticate_lem config email password salts now db =
      let w = λ (u : User). str_eq u.email email in
      (
        λ tokens h. elim (Option-cases (prisma.find_first w db.users)) [
          | inl missing ↦ absurd (ground (arith, missing, h))
          | inr (user, found) ↦
              let same = prisma.find_first_some w db.users user found in
              (
                user,
                λ q passes. prisma.find_first_stored w q db.users user found passes,
                checked config email password salts now tokens user same
                    (subst (λ o. check_password config password salts now o ≡ ok tokens) found h),
              )
        ],
        λ nobody. elim (Option-cases (prisma.find_first w db.users)) [
          | inl missing ↦ ap (check_password config password salts now) missing
          | inr (user, found) ↦
              let same = prisma.find_first_some w db.users user found in
              let there = prisma.find_first_stored w w db.users user found same in
              absurd (omega (arith, nobody, there))
        ],
      )
