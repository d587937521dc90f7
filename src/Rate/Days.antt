-- ===== src/Rate/Days.antt =====
-- The days of a currency in the maps of src/currency-rate: what is set, filled in and pulled.
use cost_x.Base.{
  ℕ, ◌≡◌, ◌≤◌, ◌<◌, refl, sym, ◌∙◌, subst, inl, inr, Bool, true, false, ◌&&◌, ◌||◌, Option, none,
  some, List, [], ◌∷◌, arith, count, count_mono, count_split, ◌==◌, Bool-cases,
}
use cost_x.Prisma.{Prisma}
use cost_x.Schema.{Currency, CurrencyRate, DecimalValue, Db}
use cost_x.Transaction.{ok, through}
use cost_x.Group.{Dict, get, set, get-set_self, get-set_other}
use cost_x.Loader.{has_key}
use cost_x.Rate.Bank.{Bank}
use cost_x.Rate.Service.{new_rate, is_rate_of, keys, fill_rates, pull_and_save, pull_missing}
use cost_x.Rate.Saved.{
  is_decimal, is_decimal_same, IsSingle, IsSaved, KeepsSaved, insert-IsSingle, insert-KeepsSaved,
  insert-IsSaved,
}
use cost_x.Rate.Again.{pull_and_save_lem}

module _ {V : Type 0} where
  -- No key has two entries.
  abbrev pub IsDistinct : Dict V → Type 0
  IsDistinct [] = Unit {0}
  IsDistinct ((k, v) ∷ rest) = (has_key (keys rest) k ≡ false) × IsDistinct rest

  keys-set :
      (k q : ℕ) (v : V) (m : Dict V) → has_key (keys (set k v m)) q ≡ (has_key (keys m) q || k == q)
  unfolding set
  keys-set k q v [] = ground arith
  keys-set k q v ((j, w) ∷ rest) = elim (Bool-cases (j == k)) [
    | inl same ↦ let e : j ≡ k = ground arith in rw (e) (ground arith)
    | inr other ↦ ground (arith, other, keys-set k q v rest)
  ]

  pub set-IsDistinct : (k : ℕ) (v : V) (m : Dict V) → IsDistinct m → IsDistinct (set k v m)
  unfolding set
  set-IsDistinct k v [] h = (refl, tt)
  set-IsDistinct k v ((j, w) ∷ rest) (new, h) = elim (Bool-cases (j == k)) [
    | inl same ↦ rw (same) (new, h)
    | inr other ↦
        rw (other) (ground (arith, new, other, keys-set k j v rest), set-IsDistinct k v rest h)
  ]

  pub get-keys : (q : ℕ) (u : V) (m : Dict V) → get q m ≡ some u → has_key (keys m) q ≡ true
  unfolding get
  get-keys q u [] h = absurd (ground arith)
  get-keys q u ((j, w) ∷ rest) h = elim (Bool-cases (j == q)) [
    | inl same ↦ ground (arith, same)
    | inr other ↦
        let later : get q rest ≡ some u = rw (other) at h in
        ground (arith, other, get-keys q u rest later)
  ]

  -- An entry of the rest is an entry of the whole.
  get_rest :
      (d : ℕ) (v : V) (rest : Dict V) (q : ℕ) (u : V)
      → has_key (keys rest) d ≡ false
      → get q rest ≡ some u
      → ((d == q) ≡ false) × (get q ((d, v) ∷ rest) ≡ some u)
  unfolding get
  get_rest d v rest q u new h = elim (Bool-cases (d == q)) [
    | inl same ↦
        let e : d ≡ q = ground arith in
        let new' : has_key (keys rest) q ≡ false = rw (e) at new in
        absurd (ground (arith, new', get-keys q u rest h))
    | inr other ↦ (other, ground (arith, other, h))
  ]

-- The rates that the days have are in the table; the days without a rate have none there.
abbrev pub AreSaved : Currency → Dict (Option DecimalValue) → Db → Type 0
AreSaved c dates db = (d : ℕ) (x : DecimalValue) → get d dates ≡ some (some x) → IsSaved c d x db

abbrev pub AreMissing : Currency → Dict (Option DecimalValue) → Db → Type 0
AreMissing c dates db =
    (d : ℕ) → get d dates ≡ some none → count (is_rate_of c d) db.currency_rates ≡ 0

abbrev pub RowsSaved : Currency → List CurrencyRate → Db → Type 0
RowsSaved c [] db = Unit {0}
RowsSaved c (r ∷ rows) db = IsSaved c r.date r.rate db × RowsSaved c rows db

pub fill-AreSaved :
    (c : Currency) (dates : Dict (Option DecimalValue)) (rows : List CurrencyRate) (db : Db)
    → AreSaved c dates db
    → RowsSaved c rows db
    → AreSaved c (fill_rates dates rows) db
fill-AreSaved c dates [] db known all = known
fill-AreSaved c dates (r ∷ rows) db known (saved, all) =
    fill-AreSaved c (set r.date (some r.rate) dates) rows db
      (λ d x h. elim (Bool-cases (r.date == d)) [
        | inl same ↦
            let e : r.date ≡ d = ground arith in
            let h' : get r.date (set r.date (some r.rate) dates) ≡ some (some x) =
              subst (λ k. get k (set r.date (some r.rate) dates) ≡ some (some x)) (sym e) h in
            let e' : r.rate ≡ x = ground (arith, h', get-set_self r.date (some r.rate) dates) in
            subst (λ k. IsSaved c k x db) e (subst (λ y. IsSaved c r.date y db) e' saved)
        | inr other ↦ known d x (sym (get-set_other r.date d (some r.rate) dates other) ∙ h)
      ])
      all

pub fill-AreMissing :
    (dates : Dict (Option DecimalValue)) (rows : List CurrencyRate) (d : ℕ)
    → get d (fill_rates dates rows) ≡ some none
    → (get d dates ≡ some none) × (count (λ r. r.date == d) rows ≡ 0)
unfolding count
fill-AreMissing dates [] d h = (h, refl)
fill-AreMissing dates (r ∷ rows) d h =
    let (before, zero) = fill-AreMissing (set r.date (some r.rate) dates) rows d h in
    elim (Bool-cases (r.date == d)) [
      | inl same ↦
          let e : r.date ≡ d = ground arith in
          let before' : get r.date (set r.date (some r.rate) dates) ≡ some none =
            subst (λ k. get k (set r.date (some r.rate) dates) ≡ some none) (sym e) before in
          absurd (ground (arith, before', get-set_self r.date (some r.rate) dates))
      | inr other ↦ (
        sym (get-set_other r.date d (some r.rate) dates other) ∙ before,
        ground (arith, other, zero),
      )
    ]

pub fill-IsDistinct :
    (dates : Dict (Option DecimalValue)) (rows : List CurrencyRate)
    → IsDistinct dates
    → IsDistinct (fill_rates dates rows)
fill-IsDistinct dates [] h = h
fill-IsDistinct dates (r ∷ rows) h =
    fill-IsDistinct (set r.date (some r.rate) dates) rows
      (set-IsDistinct r.date (some r.rate) dates h)

-- Rows that are rows of the table, of one currency.
pub found-RowsSaved :
    (c : Currency) (p : CurrencyRate → Bool) (rows : List CurrencyRate) (db : Db)
    → IsSingle db
    → ((r : CurrencyRate) (d : ℕ) → (p r && r.date == d) ≡ true → is_rate_of c d r ≡ true)
    → ((q : CurrencyRate → Bool) → count q rows ≤ count (λ r. p r && q r) db.currency_rates)
    → RowsSaved c rows db
unfolding count
found-RowsSaved c p [] db single of inside = tt
found-RowsSaved c p (r ∷ rows) db single of inside =
    let q = λ (s : CurrencyRate). s.date == r.date && is_decimal s.rate r.rate in
    let w = is_rate_of c r.date in
    let good : q r ≡ true = ground (arith, is_decimal_same r.rate) in
    let more =
      count_mono (λ s. p s && q s) (λ s. w s && is_decimal s.rate r.rate) db.currency_rates
        (λ s h. let e = of s r.date (ground (arith, h)) in ground (arith, h, e)) in
    let split = count_split w (λ s. is_decimal s.rate r.rate) db.currency_rates in
    let some_there : 0 < count (λ s. p s && q s) db.currency_rates =
      ground (arith, good, inside q) in
    (
      record {
        there = omega (arith, some_there, more, split);
        only = omega (arith, some_there, more, split, single c r.date);
      },
      found-RowsSaved c p rows db single of (λ q'. ground (arith, inside q')),
    )

with_entry :
    (c : Currency) (d : ℕ) (x : DecimalValue) (later : Dict (Option DecimalValue)) (t : Db)
    → IsSaved c d x t
    → AreSaved c later t
    → AreSaved c ((d, some x) ∷ later) t
unfolding get
with_entry c d x later t here saved q y g = elim (Bool-cases (d == q)) [
  | inl same ↦
      let e : d ≡ q = ground arith in
      let e' : x ≡ y = ground (arith, same, g) in
      subst (λ k. IsSaved c k y t) e (subst (λ z. IsSaved c d z t) e' here)
  | inr other ↦ saved q y (ground (arith, other, g))
]

module _ ⦃prisma : Prisma⦄ ⦃bank : Bank⦄ where
  pub pull_missing-AreSaved :
      (c : Currency) (dates : Dict (Option DecimalValue)) (db : Db)
      {filled : Dict (Option DecimalValue)} {db' : Db}
      → IsSingle db
      → IsDistinct dates
      → AreSaved c dates db
      → AreMissing c dates db
      → pull_missing c dates db ≡ ok (filled, db')
      → IsSingle db' × KeepsSaved db db' × AreSaved c filled db'
  unfolding pull_missing get
  pull_missing-AreSaved c [] db {filled} {db'} single distinct known missing h =
      let e : db' ≡ db = ground arith in
      let e' : filled ≡ [] = ground arith in
      (
        subst IsSingle (sym e) single,
        (λ c1 d1 y saved. subst (IsSaved c1 d1 y) (sym e) saved),
        subst (λ m. AreSaved c m db') (sym e') (λ d x g. absurd (ground arith)),
      )
  pull_missing-AreSaved c ((d, some x) ∷ rest) db {filled} {db'} single (new, distinct) known
        missing h =
      through (pull_missing c rest) _ db h λ later db1 first last.
        let (single1, keeps, saved) =
          pull_missing-AreSaved c rest db single distinct
            (λ q y g. known q y (get_rest d (some x) rest q (some y) new g).1)
            (λ q g. missing q (get_rest d (some x) rest q none new g).1) first in
        let e : db' ≡ db1 = ground arith in
        let e' : filled ≡ (d, some x) ∷ later = ground arith in
        (
          subst IsSingle (sym e) single1,
          (λ c1 d1 y s. subst (IsSaved c1 d1 y) (sym e) (keeps c1 d1 y s)),
          subst (λ m. AreSaved c m db') (sym e')
              (subst (λ t. AreSaved c ((d, some x) ∷ later) t) (sym e)
                (with_entry c d x later db1 (keeps c d x (known d x (ground arith))) saved)),
        )
  pull_missing-AreSaved c ((d, none) ∷ rest) db {filled} {db'} single (new, distinct) known missing
        h =
      through (pull_and_save c d) _ db h λ x db1 pulls rest_runs.
        through (pull_missing c rest) _ db1 rest_runs λ later db2 first last.
          let (id, at) = pull_and_save_lem c d db pulls in
          let free = missing d (ground arith) in
          let single1 = subst IsSingle (sym at) (insert-IsSingle c d id x db free single) in
          let keeps1 : KeepsSaved db db1 =
            subst (KeepsSaved db) (sym at) (insert-KeepsSaved c d id x db free) in
          let (single2, keeps, saved) =
            pull_missing-AreSaved c rest db1 single1 distinct
              (λ q y g. keeps1 c q y (known q y (get_rest d none rest q (some y) new g).1))
              (λ q g.
                subst (λ t. count (is_rate_of c q) t.currency_rates ≡ 0) (sym at)
                  (let (apart, there) = get_rest d none rest q none new g in
                    ground (
                      arith,
                      apart,
                      missing q there,
                      prisma.count-insert_row (is_rate_of c q) (new_rate c d x id)
                          db.currency_rates,
                    )))
              first in
          let e : db' ≡ db2 = ground arith in
          let e' : filled ≡ (d, some x) ∷ later = ground arith in
          let here = subst (IsSaved c d x) (sym at) (insert-IsSaved c d id x db free) in
          (
            subst IsSingle (sym e) single2,
            (λ c1 d1 y s. subst (IsSaved c1 d1 y) (sym e) (keeps c1 d1 y (keeps1 c1 d1 y s))),
            subst (λ m. AreSaved c m db') (sym e')
                (subst (λ t. AreSaved c ((d, some x) ∷ later) t) (sym e)
                  (with_entry c d x later db2 (keeps c d x here) saved)),
          )
