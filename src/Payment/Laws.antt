-- ===== src/Payment/Laws.antt =====
-- The payments of a batch of items are those of each item, the filter of a list agrees with the
-- filter of a query, and when a payment is written.
use cost_x.Base.{
  ℕ, ◌≡◌, ◌<◌, refl, sym, ap, ◌∙◌, Bool, true, false, not, ◌&&◌, Option, none, some, List, [], ◌∷◌,
  arith, count, count_ext, bit, ◌+◌, ◌==◌, Option-cases, Bool-cases, inl, inr, ◌⊎◌, ltb, leb,
}
use cost_x.Prisma.{Prisma}
use cost_x.Schema.{User, Item, Payment, Workspace, WorkspaceMember, Db}
use cost_x.Transaction.{ok, err, workspace_member_not_belonging_to_workspace}
use cost_x.Delegate
use cost_x.Delegate.{create}
use cost_x.Delegate.Laws.{next_row, find_counted, find_never}
use cost_x.History.{Event}
use cost_x.History.Emitter.{EventEmitter}
use cost_x.History.Laws.{logged, emit_lem, may_record_there}
use cost_x.Group.{Dict, get, push, group_by, group_by_from}
use cost_x.Group.Laws.{rows_of, some_rows, get-group_by}
use cost_x.Loader.{or_empty}
use cost_x.Loader.Answers.{count-rows_of}
use cost_x.Payment.Service.{PaymentIn, created_title, payment_in, create_payment}
use cost_x.Payment.Filter.{PaymentsFilter, is_from, is_before, is_among, filter_payments}
use cost_x.Payment.Queries.{
  is_until, is_queried, add_payment, by_item_id, get_item_payments, get_payments_by_item_ids,
}

add_payment-push :
    (dict : Dict (List Payment)) (p : Payment) → add_payment dict p ≡ push (λ p. p.item_id) dict p
unfolding add_payment
add_payment-push dict p = elim (Option-cases (get p.item_id dict)) [
  | inl free ↦ rw (free, add_payment, push) refl
  | inr (old, there) ↦ rw (there, add_payment, push) refl
]

-- The loop over the payments is `groupBy` by the item.
by_item_id-group_by_from :
    (dict : Dict (List Payment)) (payments : List Payment)
    → by_item_id dict payments ≡ group_by_from (λ p. p.item_id) dict payments
unfolding by_item_id group_by_from
by_item_id-group_by_from dict [] = refl
by_item_id-group_by_from dict (p ∷ payments) =
    ap (λ d. by_item_id d payments) (add_payment-push dict p)
    ∙ by_item_id-group_by_from (push (λ p. p.item_id) dict p) payments

get-by_item_id :
    (k : ℕ) (payments : List Payment)
    → or_empty (get k (by_item_id [] payments)) ≡ rows_of (λ p. p.item_id) k payments
unfolding group_by
get-by_item_id k payments =
    ap (λ d. or_empty (get k d)) (by_item_id-group_by_from [] payments)
    ∙ ap or_empty (get-group_by (λ p. p.item_id) k payments)
    ∙ or_empty-some_rows (rows_of (λ p. p.item_id) k payments)
  where
    or_empty-some_rows :
        (rows : List Payment) → or_empty (some_rows (λ (p : Payment). p.item_id) rows) ≡ rows
    or_empty-some_rows [] = refl
    or_empty-some_rows (r ∷ rows) = refl

module _ ⦃prisma : Prisma⦄ where
  -- The query for a batch of items and the query for one of them, with one filter: both come
  -- through and change nothing, and the batch has for the item the payments that the single query
  -- finds, each as often.
  pub get_payments_by_item_ids-get_item_payments :
      (ids : List ℕ) (filter : PaymentsFilter) (k : ℕ) (db : Db)
      → is_among (some ids) k ≡ true
      → (dict : Dict (List Payment)) × (rows : List Payment) × (get_payments_by_item_ids ids filter
            db
          ≡ ok (dict, db))
        × (get_item_payments k filter db ≡ ok (rows, db))
        × ((q : Payment → Bool) → count q (or_empty (get k dict)) ≡ count q rows)
  unfolding get_payments_by_item_ids get_item_payments
  get_payments_by_item_ids-get_item_payments ids filter k db asked =
      let many = λ (p : Payment). is_queried filter p && is_among (some ids) p.item_id in
      let one = λ (p : Payment). is_queried filter p && p.item_id == k in
      let found = prisma.find_many many db.payments in
      (
        _,
        _,
        refl,
        refl,
        λ q.
            ap (count q) (get-by_item_id k found)
            ∙ count-rows_of (λ p. p.item_id) q k found
            ∙ prisma.count-find_many (λ p. p.item_id == k && q p) many db.payments
            ∙ count_ext (λ p. many p && (p.item_id == k && q p)) (λ p. one p && q p) db.payments
                (λ p. same q p)
            ∙ sym (prisma.count-find_many q one db.payments),
      )
    where
      same :
          (q : Payment → Bool) (p : Payment)
          → ((is_queried filter p && is_among (some ids) p.item_id) && (p.item_id == k && q p))
            ≡ ((is_queried filter p && p.item_id == k) && q p)
      same q p = elim (Bool-cases (p.item_id == k)) [
        | inl here ↦
            let e : p.item_id ≡ k = ground arith in
            let there : is_among (some ids) p.item_id ≡ true = rw (e) asked in
            ground (arith, here, there)
        | inr away ↦ ground (arith, away)
      ]

-- A payment at the very end of the range.
abbrev pub is_at_end : Option ℕ → Payment → Bool
is_at_end none p = false
is_at_end (some date_to) p = p.date == date_to

abbrev is_filtered : PaymentsFilter → Payment → Bool
is_filtered f p = is_from f.date_from p.date && is_before f.date_to p.date && is_among f.ids p.id

count-filter_payments :
    (q : Payment → Bool) (f : PaymentsFilter) (rows : List Payment)
    → count q (filter_payments f rows) ≡ count (λ p. is_filtered f p && q p) rows
unfolding count filter_payments
count-filter_payments q f [] = refl
count-filter_payments q f (p ∷ rows) = elim (Bool-cases (is_filtered f p)) [
  | inl kept ↦ ground (arith, kept, count-filter_payments q f rows)
  | inr left_out ↦ ground (arith, left_out, count-filter_payments q f rows)
]

filtered_split :
    (f : PaymentsFilter) (p : Payment)
    → is_filtered f p ≡ (is_queried f p && not (is_at_end f.date_to p))
filtered_split f p = by_end f.date_to
  where
    by_end :
        (end : Option ℕ)
        → (is_from f.date_from p.date && is_before end p.date && is_among f.ids p.id) ≡ (
            (is_from f.date_from p.date && is_until end p.date && is_among f.ids p.id)
            && not (is_at_end end p))
    by_end none = ground arith
    by_end (some date_to) = elim (Bool-cases (ltb p.date date_to)) [
      | inl before ↦
          let until : leb p.date date_to ≡ true = ground (arith, before) in
          let inside : (p.date == date_to) ≡ false = ground (arith, before) in
          ground (arith, before, until, inside)
      | inr after ↦ elim (Bool-cases (p.date == date_to)) [
        | inl last ↦ ground (arith, after, last)
        | inr off ↦
            let until : leb p.date date_to ≡ false = ground (arith, after, off) in
            ground (arith, after, off, until)
      ]
    ]

module _ ⦃prisma : Prisma⦄ where
  -- Filtering the payments of an item that were read without a filter, against the query with the
  -- filter: the list has the payments that the query finds but for those at the end of the range.
  pub filter_payments-get_item_payments :
      (k : ℕ) (filter : PaymentsFilter) (db : Db)
      → (all queried : List Payment) × (get_item_payments k
            (record { date_from = none; date_to = none; ids = none })
            db
          ≡ ok (all, db))
        × (get_item_payments k filter db ≡ ok (queried, db))
        × ((q : Payment → Bool)
            → count q (filter_payments filter all)
              ≡ count (λ p. q p && not (is_at_end filter.date_to p)) queried)
  unfolding get_item_payments
  filter_payments-get_item_payments k filter db =
      let any = λ (p : Payment). true && p.item_id == k in
      let one = λ (p : Payment). is_queried filter p && p.item_id == k in
      let inside = λ (p : Payment). not (is_at_end filter.date_to p) in
      (
        _,
        _,
        refl,
        refl,
        λ q.
            count-filter_payments q filter (prisma.find_many any db.payments)
            ∙ prisma.count-find_many (λ p. is_filtered filter p && q p) any db.payments
            ∙ count_ext (λ p. any p && (is_filtered filter p && q p))
                (λ p. one p && (q p && inside p)) db.payments
                (λ p. rw (filtered_split filter p) (ground arith))
            ∙ sym (prisma.count-find_many (λ p. q p && inside p) one db.payments),
      )

module _ ⦃prisma : Prisma⦄ ⦃emitter : EventEmitter⦄ where
  -- With the item, the payer, the user and the workspace of the item in the tables: a payment by a
  -- member of another workspace is refused; one by a member of the workspace of the item comes
  -- through and is the one payment that has come, under a new id, of that item, by that member, and with the cost,
  -- the currency, the date and the title of the request, where a title that is left out is null; the
  -- items and the members are those of before.
  pub create_payment_lem :
      (item : Item) (payer : WorkspaceMember) (dto : PaymentIn) (user : User) (db : Db)
      → 0 < count (λ (i : Item). i.id == item.id) db.items
      → 0 < count (λ (m : WorkspaceMember). m.id == payer.id) db.workspace_members
      → 0 < count (λ (u : User). u.id == user.id) db.users
      → 0 < count (λ (w : Workspace). w.id == item.workspace_id) db.workspaces
      → (((payer.workspace_id == item.workspace_id) ≡ false)
          × (create_payment item payer dto user db
              ≡ err workspace_member_not_belonging_to_workspace))
        ⊎ ((payer.workspace_id ≡ item.workspace_id)
            × ((payment : Payment) × (db' : Db) × (create_payment item payer dto user db
                  ≡ ok (payment, db'))
                × (payment.item_id ≡ item.id)
                × (payment.payer_id ≡ payer.id)
                × (payment.cost ≡ dto.cost)
                × (payment.currency ≡ dto.currency)
                × (payment.date ≡ dto.date)
                × (payment.title ≡ created_title dto.title)
                × (count (λ (p : Payment). p.id == payment.id) db.payments ≡ 0)
                × ((q : Payment → Bool)
                    → count q db'.payments ≡ bit (q payment) + count q db.payments)
                × (db'.items ≡ db.items)
                × (db'.workspace_members ≡ db.workspace_members)))
  unfolding create_payment create
  create_payment_lem item payer dto user db item_there payer_there user_there place_there =
      elim (Bool-cases (payer.workspace_id == item.workspace_id)) [
        | inr other ↦ inl (other, ground (arith, other))
        | inl same ↦
            let row = next_row Delegate.payment (payment_in item payer dto) db in
            let (i, item_found) =
              find_counted (λ (i : Item). i.id == item.id) db.items item_there in
            let (m, payer_found) =
              find_counted (λ (m : WorkspaceMember). m.id == payer.id) db.workspace_members
                payer_there in
            let free = find_never (λ (p : Payment). false) db.payments (λ p. refl) in
            let may = may_record_there user.id item.workspace_id db user_there place_there in
            inr (
              ground arith,
              (
                row,
                logged (Event.payment_created item.workspace_id user.id row)
                    (record db { payments = prisma.insert_row row db.payments }),
                grind (arith, may, emit_lem),
                refl,
                refl,
                refl,
                refl,
                refl,
                refl,
                prisma.next_id_fresh (λ (p : Payment). p.id) db.payments,
                λ q. prisma.count-insert_row q row db.payments,
                refl,
                refl,
              ),
            )
      ]
