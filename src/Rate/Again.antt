-- ===== src/Rate/Again.antt =====
-- A rate that was asked for once is in the table, and is not pulled again.
use cost_x.Base.{
  ℕ, ◌≡◌, refl, sym, ◌∙◌, subst, inl, inr, true, false, arith, Bool-cases, Option-cases,
  if◌then◌else◌, count,
}
use cost_x.Prisma.{Prisma}
use cost_x.Schema.{Currency, CurrencyRate, DecimalValue, Db}
use cost_x.Transaction.{M, ok, pure, through, after_run, ◌>>=◌}
use cost_x.Delegate.{create}
use cost_x.Cost.{Decimals, RateRequest, is_currency}
use cost_x.Rate.Bank.{Bank, pull_currency_rate}
use cost_x.Rate.Service.{
  new_rate, is_rate_of, pull_and_save, start_find_or_pull, found_or_pull, get_rate_of,
}
use cost_x.Rate.Saved.{
  IsSingle, IsSaved, KeepsSaved, with_rate, find_saved, found-IsSaved, insert-IsSingle,
  insert-KeepsSaved, insert-IsSaved,
}

abbrev into_byn : Currency → ℕ → RateRequest
into_byn c date = record { from_currency = c; to_currency = Currency.byn; date = date }

module _ ⦃decimals : Decimals⦄ where
  -- A rate into rubles is known: it is one, or it is in the table.
  abbrev pub IsKnown : Currency → ℕ → DecimalValue → Db → Type 0
  IsKnown c date x db =
      (is_currency c Currency.byn ≡ true → x ≡ decimals.one)
      × (is_currency c Currency.byn ≡ false → IsSaved c date x db)

module _ ⦃prisma : Prisma⦄ ⦃bank : Bank⦄ where
  pub pull_and_save_lem :
      (c : Currency) (date : ℕ) (db : Db) {x : DecimalValue} {db' : Db}
      → pull_and_save c date db ≡ ok (x, db')
      → (id : ℕ) × (db' ≡ with_rate (new_rate c date x id) db)
  unfolding pull_and_save create
  pull_and_save_lem c date db {x} {db'} h = elim (Option-cases (pull_currency_rate c date)) [
    | inl silent ↦ absurd (ground (arith, silent, h))
    | inr (rate, answers) ↦
        let e : rate ≡ x = ground (arith, answers, h) in
        (
          prisma.next_id (λ (r : CurrencyRate). r.id) db.currency_rates,
          rw (sym e) (ground (arith, answers, h)),
        )
  ]

module _ ⦃prisma : Prisma⦄ ⦃bank : Bank⦄ ⦃decimals : Decimals⦄ where
  -- What is left of a request into rubles that has read these tables.
  abbrev pub rest_of : Currency → ℕ → Db → M DecimalValue
  rest_of c date db =
      if is_currency c Currency.byn
      then pure decimals.one
      else found_or_pull c date (prisma.find_first (is_rate_of c date) db.currency_rates)

  start_run :
      (c : Currency) (date : ℕ) (db : Db)
      → start_find_or_pull (into_byn c date) db ≡ ok (rest_of c date db, db)
  unfolding start_find_or_pull
  start_run c date db = elim (Bool-cases (is_currency c Currency.byn)) [
    | inl here ↦ rw (here) refl
    | inr away ↦ rw (away) refl
  ]

  pub get_rate_of_started :
      (dto : RateRequest) (db : Db)
      → get_rate_of dto db
        ≡ (rest_of dto.from_currency dto.date db
              >>= (λ a. rest_of dto.to_currency dto.date db >>= (λ b. pure (decimals.div a b))))
            db
  unfolding get_rate_of
  get_rate_of_started dto db =
      after_run (start_find_or_pull (into_byn dto.from_currency dto.date)) _ db
        (start_run dto.from_currency dto.date db)
        (after_run (start_find_or_pull (into_byn dto.to_currency dto.date)) _ db
          (start_run dto.to_currency dto.date db) refl)

module _ ⦃prisma : Prisma⦄ ⦃decimals : Decimals⦄ where
  -- With any bank, also one that does not answer.
  rest_of_known :
      (other : Bank) (c : Currency) (date : ℕ) (x : DecimalValue) (db : Db)
      → IsKnown c date x db
      → rest_of ⦃bank = other⦄ c date db db ≡ ok (x, db)
  unfolding found_or_pull
  rest_of_known other c date x db (one, saved) = elim (Bool-cases (is_currency c Currency.byn)) [
    | inl here ↦ rw (here, one here) refl
    | inr away ↦ let (r, found, e) = find_saved c date x db (saved away) in rw (away, found, e) refl
  ]

-- No rate of another currency has come.
abbrev KeepsOthers : Currency → Db → Db → Type 0
KeepsOthers c db db' =
    (c' : Currency) (date' : ℕ)
    → is_currency c c' ≡ false
    → count (is_rate_of c' date') db.currency_rates ≡ 0
    → count (is_rate_of c' date') db'.currency_rates ≡ 0

module _ ⦃prisma : Prisma⦄ ⦃bank : Bank⦄ ⦃decimals : Decimals⦄ where
  insert-KeepsOthers :
      (c : Currency) (date id : ℕ) (x : DecimalValue) (db : Db)
      → KeepsOthers c db (with_rate (new_rate c date x id) db)
  insert-KeepsOthers c date id x db c' date' other free = ground (
    arith,
    other,
    free,
    prisma.count-insert_row (is_rate_of c' date') (new_rate c date x id) db.currency_rates,
  )

  -- What the rest of a request into rubles leaves behind, when the tables that it has read had the
  -- rates of now, and none of the day if there is none now.
  rest_of-IsKnown :
      (c : Currency) (date : ℕ) (read db : Db) {x : DecimalValue} {db' : Db}
      → IsSingle read
      → IsSingle db
      → KeepsSaved read db
      → (count (is_rate_of c date) read.currency_rates ≡ 0
          → count (is_rate_of c date) db.currency_rates ≡ 0)
      → rest_of c date read db ≡ ok (x, db')
      → IsKnown c date x db' × IsSingle db' × KeepsSaved db db' × KeepsOthers c db db'
  unfolding found_or_pull
  rest_of-IsKnown c date read db {x} {db'} read_single single keeps missing_still h =
      elim (Bool-cases (is_currency c Currency.byn)) [
        | inl here ↦
            let e : db' ≡ db = ground (arith, here, h) in
            let e' : x ≡ decimals.one = ground (arith, here, h) in
            (
              (λ _. e', λ away. absurd (cc (here, away))),
              subst IsSingle (sym e) single,
              (λ c1 d1 y saved. subst (IsSaved c1 d1 y) (sym e) saved),
              subst (KeepsOthers c db) (sym e) (λ c' date' other free. free),
            )
        | inr away ↦
            elim (Option-cases (prisma.find_first (is_rate_of c date) read.currency_rates)) [
              | inl missing ↦
                  let pulls : pull_and_save c date db ≡ ok (x, db') = rw (away, missing) at h in
                  let (id, e) = pull_and_save_lem c date db pulls in
                  let free =
                    missing_still
                      (prisma.find_first_none (is_rate_of c date) read.currency_rates missing) in
                  (
                    (
                      λ here. absurd (cc (here, away)),
                      λ _. subst (IsSaved c date x) (sym e) (insert-IsSaved c date id x db free),
                    ),
                    subst IsSingle (sym e) (insert-IsSingle c date id x db free single),
                    (λ c1 d1 y saved.
                        subst (IsSaved c1 d1 y) (sym e)
                          (insert-KeepsSaved c date id x db free c1 d1 y saved)),
                    subst (KeepsOthers c db) (sym e) (insert-KeepsOthers c date id x db),
                  )
              | inr (r, found) ↦
                  let e : db' ≡ db = ground (arith, away, found, h) in
                  let e' : r.rate ≡ x = ground (arith, away, found, h) in
                  let saved = keeps c date r.rate (found-IsSaved c date read r read_single found) in
                  (
                    (
                      λ here. absurd (cc (here, away)),
                      λ _.
                          subst (IsSaved c date x) (sym e)
                            (subst (λ y. IsSaved c date y db) e' saved),
                    ),
                    subst IsSingle (sym e) single,
                    (λ c1 d1 y saved. subst (IsSaved c1 d1 y) (sym e) saved),
                    subst (KeepsOthers c db) (sym e) (λ c' date' other free. free),
                  )
            ]
      ]

  -- When no day has two rates of a currency and the rate between two different currencies was got,
  -- then still no day has two, and getting the rate again, from any bank, gives the same value and
  -- changes nothing.
  pub get_rate_of_again :
      (other : Bank) (dto : RateRequest) (db : Db) {x : DecimalValue} {db' : Db}
      → is_currency dto.from_currency dto.to_currency ≡ false
      → IsSingle db
      → get_rate_of dto db ≡ ok (x, db')
      → IsSingle db' × (get_rate_of ⦃bank = other⦄ dto db' ≡ ok (x, db'))
  get_rate_of_again other dto db {x} {db'} differ single h =
      let h' = sym (get_rate_of_started dto db) ∙ h in
      through (rest_of dto.from_currency dto.date db)
        (λ a. rest_of dto.to_currency dto.date db >>= (λ b. pure (decimals.div a b))) db h'
        λ a db1 first r1.
          let (known1, single1, keeps1, others) =
            rest_of-IsKnown dto.from_currency dto.date db db single single (λ c d y saved. saved)
              (λ free. free) first in
          through (rest_of dto.to_currency dto.date db) (λ b. pure (decimals.div a b)) db1 r1
            λ b db2 second r2.
              let (known2, single2, keeps2, _) =
                rest_of-IsKnown dto.to_currency dto.date db db1 single single1 keeps1
                  (others dto.to_currency dto.date differ) second in
              let e : db' ≡ db2 = ground arith in
              let e' : x ≡ decimals.div a b = ground arith in
              let known1' : IsKnown dto.from_currency dto.date a db2 =
                (known1.0, λ away. keeps2 dto.from_currency dto.date a (known1.1 away)) in
              (
                subst IsSingle (sym e) single2,
                rw (e, e')
                    (get_rate_of_started ⦃bank = other⦄ dto db2
                      ∙ ground (
                        arith,
                        rest_of_known other dto.from_currency dto.date a db2 known1',
                        rest_of_known other dto.to_currency dto.date b db2 known2,
                      )),
              )
