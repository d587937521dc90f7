-- ===== src/Rate/Populated.antt =====
-- The map that `populateDerivativeMap` of src/currency-rate makes: its rates are in the table.
use cost_x.Base.{
  ℕ, ◌≡◌, refl, sym, subst, inl, inr, Bool, true, ◌&&◌, Option, none, some, [], ◌∷◌, arith,
  count_ext, ◌==◌, Bool-cases,
}
use cost_x.Prisma.{Prisma}
use cost_x.Schema.{Currency, currency_index, CurrencyRate, DecimalValue, Db}
use cost_x.Transaction.{ok, through}
use cost_x.Group.{Dict, get}
use cost_x.Loader.{has_key}
use cost_x.Cost.{is_currency}
use cost_x.Rate.Bank.{Bank}
use cost_x.Rate.Service.{
  is_rate_of, keys, fill_rates, pull_missing, DerivativeMap, currency_of, populate_derivative_map,
}
use cost_x.Rate.Saved.{IsSingle, IsSaved, KeepsSaved}
use cost_x.Rate.Days.{
  get-keys, AreSaved, AreMissing, fill-AreSaved, fill-AreMissing, fill-IsDistinct, found-RowsSaved,
  pull_missing-AreSaved,
}
use cost_x.Rate.Fresh.{IsFresh, AreFresh}

abbrev pub AllSaved : DerivativeMap → Db → Type 0
AllSaved [] db = Unit {0}
AllSaved ((k, dates) ∷ rest) db = AreSaved (currency_of k) dates db × AllSaved rest db

AllSaved-keeps :
    (m : DerivativeMap) (db db' : Db) → KeepsSaved db db' → AllSaved m db → AllSaved m db'
AllSaved-keeps [] db db' keeps h = tt
AllSaved-keeps ((k, dates) ∷ rest) db db' keeps (h, t) =
    ((λ d x g. keeps (currency_of k) d x (h d x g)), AllSaved-keeps rest db db' keeps t)

pub get-AllSaved :
    (k : ℕ) (dates : Dict (Option DecimalValue)) (m : DerivativeMap) (db : Db)
    → AllSaved m db
    → get k m ≡ some dates
    → AreSaved (currency_of k) dates db
unfolding get
get-AllSaved k dates [] db all h = absurd (ground arith)
get-AllSaved k dates ((j, ds) ∷ rest) db (first, all) h = elim (Bool-cases (j == k)) [
  | inl same ↦
      let e : ds ≡ dates = ground (arith, same, h) in
      let e' : j ≡ k = ground arith in
      subst (λ q. AreSaved (currency_of q) dates db) e'
        (subst (λ m. AreSaved (currency_of j) m db) e first)
  | inr other ↦ get-AllSaved k dates rest db all (ground (arith, other, h))
]

pub currency_of-index : (c : Currency) → currency_of (currency_index c) ≡ c
currency_of-index Currency.byn = refl
currency_of-index Currency.usd = refl
currency_of-index Currency.eur = refl

module _ ⦃prisma : Prisma⦄ ⦃bank : Bank⦄ where
  abbrev is_asked : Currency → Dict (Option DecimalValue) → CurrencyRate → Bool
  is_asked c dates r =
      has_key (keys dates) r.date
      && is_currency r.from_currency c
      && is_currency r.to_currency Currency.byn

  filled-AreMissing :
      (c : Currency) (dates : Dict (Option DecimalValue)) (db : Db)
      → AreMissing c (fill_rates dates (prisma.find_many (is_asked c dates) db.currency_rates)) db
  filled-AreMissing c dates db d h =
      let found = prisma.find_many (is_asked c dates) db.currency_rates in
      let (before, zero) = fill-AreMissing dates found d h in
      let asked = get-keys d none dates before in
      omega (
        arith,
        zero,
        prisma.count-find_many (λ r. r.date == d) (is_asked c dates) db.currency_rates,
        count_ext (λ r. is_asked c dates r && r.date == d) (is_rate_of c d) db.currency_rates
            (λ r. elim (Bool-cases (r.date == d)) [
              | inl same ↦
                  let e : r.date ≡ d = ground arith in
                  let there : has_key (keys dates) r.date ≡ true = rw (e) asked in
                  ground (arith, same, there)
              | inr other ↦ ground (arith, other)
            ]),
      )

  filled-AreSaved :
      (c : Currency) (dates : Dict (Option DecimalValue)) (db : Db)
      → IsSingle db
      → IsFresh dates
      → AreSaved c (fill_rates dates (prisma.find_many (is_asked c dates) db.currency_rates)) db
  filled-AreSaved c dates db single (distinct, empty) =
      let found = prisma.find_many (is_asked c dates) db.currency_rates in
      fill-AreSaved c dates found db (λ d x g. absurd (empty d x g))
        (found-RowsSaved c (is_asked c dates) found db single (λ r d h. ground (arith, h))
          (λ q. omega (arith, prisma.count-find_many q (is_asked c dates) db.currency_rates)))

  pub populate-AllSaved :
      (m : DerivativeMap) (db : Db) {filled : DerivativeMap} {db' : Db}
      → IsSingle db
      → AreFresh m
      → populate_derivative_map m db ≡ ok (filled, db')
      → IsSingle db' × KeepsSaved db db' × AllSaved filled db'
  unfolding populate_derivative_map
  populate-AllSaved [] db {filled} {db'} single fresh h =
      let e : db' ≡ db = ground arith in
      let e' : filled ≡ [] = ground arith in
      (
        subst IsSingle (sym e) single,
        (λ c1 d1 y saved. subst (IsSaved c1 d1 y) (sym e) saved),
        subst (λ m. AllSaved m db') (sym e') tt,
      )
  populate-AllSaved ((k, dates) ∷ rest) db {filled} {db'} single (first, fresh) h =
      let c = currency_of k in
      let start = fill_rates dates (prisma.find_many (is_asked c dates) db.currency_rates) in
      through (pull_missing c start) _ db h λ days db1 pulls rest_runs.
        through (populate_derivative_map rest) _ db1 rest_runs λ later db2 populates last.
          let (single1, keeps1, saved) =
            pull_missing-AreSaved c start db single
              (fill-IsDistinct dates (prisma.find_many (is_asked c dates) db.currency_rates)
                first.0)
              (filled-AreSaved c dates db single first) (filled-AreMissing c dates db) pulls in
          let (single2, keeps2, all) = populate-AllSaved rest db1 single1 fresh populates in
          let e : db' ≡ db2 = ground arith in
          let e' : filled ≡ (k, days) ∷ later = ground arith in
          (
            subst IsSingle (sym e) single2,
            (λ c1 d1 y s. subst (IsSaved c1 d1 y) (sym e) (keeps2 c1 d1 y (keeps1 c1 d1 y s))),
            subst (λ m. AllSaved m db') (sym e')
                (subst (AllSaved ((k, days) ∷ later)) (sym e)
                  ((λ d x g. keeps2 c d x (saved d x g)), all)),
          )
