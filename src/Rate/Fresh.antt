-- ===== src/Rate/Fresh.antt =====
-- The map that `getDerivativeMap` of src/currency-rate makes: days without a rate, each once.
use cost_x.Base.{
  ℕ, ◌≡◌, sym, ◌∙◌, subst, inl, inr, Option, none, some, List, [], ◌∷◌, arith, ◌==◌, Bool-cases,
  Option-cases,
}
use cost_x.Schema.{Currency, currency_index, DecimalValue}
use cost_x.Group.{Dict, get, set, get-set_self, get-set_other}
use cost_x.Cost.{RateRequest, is_currency}
use cost_x.Rate.Service.{DerivativeMap, add_date, add_foreign_date, add_request, add_requests}
use cost_x.Rate.Days.{IsDistinct, set-IsDistinct}

-- Days that have no rate yet, each once.
abbrev pub IsFresh : Dict (Option DecimalValue) → Type 0
IsFresh dates = IsDistinct dates × ((d : ℕ) (x : DecimalValue) → ¬ (get d dates ≡ some (some x)))

abbrev pub AreFresh : DerivativeMap → Type 0
AreFresh [] = Unit {0}
AreFresh ((k, dates) ∷ rest) = IsFresh dates × AreFresh rest

set_date-IsFresh :
    (date : ℕ) (dates : Dict (Option DecimalValue)) → IsFresh dates → IsFresh (set date none dates)
set_date-IsFresh date dates (distinct, empty) = (
  set-IsDistinct date none dates distinct,
  λ d x h. elim (Bool-cases (date == d)) [
    | inl same ↦
        let e : date ≡ d = ground arith in
        let h' : get date (set date none dates) ≡ some (some x) =
          subst (λ k. get k (set date none dates) ≡ some (some x)) (sym e) h in
        ground (arith, h', get-set_self date none dates)
    | inr other ↦ empty d x (sym (get-set_other date d none dates other) ∙ h)
  ],
)

get-IsFresh :
    (k : ℕ) (dates : Dict (Option DecimalValue)) (m : DerivativeMap)
    → AreFresh m
    → get k m ≡ some dates
    → IsFresh dates
unfolding get
get-IsFresh k dates [] fresh h = absurd (ground arith)
get-IsFresh k dates ((j, ds) ∷ rest) (first, fresh) h = elim (Bool-cases (j == k)) [
  | inl same ↦ let e : ds ≡ dates = ground (arith, same, h) in subst IsFresh e first
  | inr other ↦ get-IsFresh k dates rest fresh (ground (arith, other, h))
]

set-AreFresh :
    (k : ℕ) (dates : Dict (Option DecimalValue)) (m : DerivativeMap)
    → IsFresh dates
    → AreFresh m
    → AreFresh (set k dates m)
unfolding set
set-AreFresh k dates [] fresh all = (fresh, tt)
set-AreFresh k dates ((j, ds) ∷ rest) fresh (first, all) = elim (Bool-cases (j == k)) [
  | inl same ↦ rw (same) (fresh, all)
  | inr other ↦ rw (other) (first, set-AreFresh k dates rest fresh all)
]

nothing-IsFresh : IsFresh []
unfolding get
nothing-IsFresh = (tt, λ d x h. ground arith)

add_date-AreFresh :
    (c : Currency) (date : ℕ) (acc : DerivativeMap) → AreFresh acc → AreFresh (add_date c date acc)
add_date-AreFresh c date acc all = elim (Option-cases (get (currency_index c) acc)) [
  | inl absent ↦
      rw (absent, add_date)
        (set-AreFresh (currency_index c) (set date none []) acc
          (set_date-IsFresh date [] nothing-IsFresh) all)
  | inr (dates, there) ↦
      rw (there, add_date)
        (set-AreFresh (currency_index c) (set date none dates) acc
          (set_date-IsFresh date dates (get-IsFresh (currency_index c) dates acc all there)) all)
]

add_foreign_date-AreFresh :
    (c : Currency) (date : ℕ) (acc : DerivativeMap)
    → AreFresh acc
    → AreFresh (add_foreign_date c date acc)
add_foreign_date-AreFresh c date acc all = elim (Bool-cases (is_currency c Currency.byn)) [
  | inl here ↦ rw (here) all
  | inr away ↦ rw (away) (add_date-AreFresh c date acc all)
]

pub add_requests-AreFresh :
    (acc : DerivativeMap) (dtos : List RateRequest)
    → AreFresh acc
    → AreFresh (add_requests acc dtos)
add_requests-AreFresh acc [] all = all
add_requests-AreFresh acc (cur ∷ dtos) all =
    add_requests-AreFresh (add_request acc cur) dtos
      (elim (Bool-cases (is_currency cur.from_currency cur.to_currency)) [
        | inl same ↦ rw (same) all
        | inr other ↦ rw (other) (
            add_foreign_date-AreFresh cur.to_currency cur.date
              (add_foreign_date cur.from_currency cur.date acc)
              (add_foreign_date-AreFresh cur.from_currency cur.date acc all))
      ])
