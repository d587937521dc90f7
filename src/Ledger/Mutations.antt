-- ===== src/Ledger/Mutations.antt =====
-- The mutations of payments keep the invariant.
use cost_x.Base.{ℕ, ◌≡◌, refl, sym, subst, true, not, some, arith, count, ◌==◌, ◌&&◌, count_split}
use cost_x.Prisma.{Prisma}
use cost_x.Schema.{User, Item, Payment, WorkspaceMember, Db}
use cost_x.Transaction.{ok, through}
use cost_x.Delegate
use cost_x.Delegate.{create, connect, find_or_throw}
use cost_x.Delegate.Laws.{next_row}
use cost_x.History.{Event}
use cost_x.History.Emitter.{EventEmitter}
use cost_x.History.Laws.{logged, emit_lem}
use cost_x.Payment.{PaymentIn, create_payment, update_payment, delete_payment, payment_in, repaid}
use cost_x.Ledger.Places.{stored_place}
use cost_x.Ledger.References.{
  is_same, insert-IsWhole, update-IsWhole, insert-IsUniqueBy, update-IsUniqueBy,
}
use cost_x.Ledger.Invariant.{IsKept, IsKeptBy, Places, HasItem, HasMember, HasPayment}
use cost_x.Ledger.Rows.{logged-IsKept, payments-IsKept, delete_payments-IsKept}

pub same_place-is_same : (n : ℕ) → is_same (some n) (some n) ≡ true
same_place-is_same n = ground arith

-- An item and a member of one workspace are in one place.
item_with_member :
    (at : Places) (db : Db) (item : Item) (payer : WorkspaceMember)
    → IsKeptBy at db
    → HasItem item db
    → HasMember payer db
    → payer.workspace_id ≡ item.workspace_id
    → is_same (at.item item.id) (at.member payer.id) ≡ true
item_with_member at db item payer kept item_there payer_there same =
    let at_item =
      stored_place (λ (i : Item). i.id) (λ i. i.workspace_id) at.item db.items item.id
        item.workspace_id kept.items item_there in
    let at_payer =
      stored_place (λ (m : WorkspaceMember). m.id) (λ m. m.workspace_id) at.member
        db.workspace_members payer.id payer.workspace_id kept.members payer_there in
    rw (at_item, at_payer, same) (same_place-is_same item.workspace_id)

module _ ⦃prisma : Prisma⦄ ⦃emitter : EventEmitter⦄ where
  pub create_payment-IsKept :
      (item : Item) (payer : WorkspaceMember) (dto : PaymentIn) (user : User) (db : Db)
      {payment : Payment} {db' : Db}
      → HasItem item db
      → HasMember payer db
      → create_payment item payer dto user db ≡ ok (payment, db')
      → IsKept db
      → IsKept db'
  unfolding create_payment create
  create_payment-IsKept item payer dto user db {payment} {db'} item_there payer_there h kept =
      let row = next_row Delegate.payment (payment_in item payer dto) db in
      let same : payer.workspace_id ≡ item.workspace_id = ground arith in
      let db1 : Db = record db { payments = prisma.insert_row row db.payments } in
      let e = Event.payment_created item.workspace_id user.id row in
      let last : db' ≡ logged e db1 = grind (arith, emit_lem) in
      let kept1 =
        payments-IsKept (prisma.insert_row row db.payments) db
          (λ at k. (
            insert-IsWhole (λ (p : Payment). p.item_id) (λ p. p.payer_id) at.item at.member
                db.payments row
                (ground (arith, item_with_member at db item payer k item_there payer_there same))
                k.payments,
            insert-IsUniqueBy (λ (p : Payment). p.id) db.payments row k.unique
                (prisma.next_id_fresh (λ (p : Payment). p.id) db.payments),
          ))
          kept in
      subst IsKept (sym last) (logged-IsKept e db1 kept1)

  pub update_payment-IsKept :
      (payment : Payment) (payer : WorkspaceMember) (dto : PaymentIn) (user : User) (db : Db)
      {new : Payment} {db' : Db}
      → HasPayment payment db
      → HasMember payer db
      → update_payment payment payer dto user db ≡ ok (new, db')
      → IsKept db
      → IsKept db'
  unfolding update_payment
  update_payment-IsKept payment payer dto user db {new} {db'} there payer_there h (at, kept) =
      let of_item = λ (i : Item). i.id == payment.item_id in
      through (find_or_throw Delegate.item of_item) _ db h λ item db0 finds r0.
        let found : prisma.find_first of_item db.items ≡ some item = ground arith in
        let same0 : db0 ≡ db = ground arith in
        let its : item.id ≡ payment.item_id =
          ground (arith, prisma.find_first_some of_item db.items item found) in
        let item_there : HasItem item db =
          prisma.find_first_stored of_item
            (λ i. i.id == item.id && i.workspace_id == item.workspace_id) db.items item found
            (ground arith) in
        let same : payer.workspace_id ≡ item.workspace_id = ground arith in
        let w = λ (p : Payment). p.id == payment.id in
        let other = λ (p : Payment). w p && not (p.item_id == payment.item_id) in
        let never : count other db.payments ≡ 0 = omega (
          arith,
          kept.unique payment.id,
          there,
          count_split w (λ p. p.item_id == payment.item_id) db.payments,
        ) in
        let rows = prisma.update_rows w (repaid payer dto) db.payments in
        let db1 : Db = record db { payments = rows } in
        let e = Event.payment_updated item.workspace_id user.id payment new in
        let last : db' ≡ logged e db1 = grind (arith, emit_lem) in
        let good = item_with_member at db item payer kept item_there payer_there same in
        let kept1 =
          payments-IsKept rows db
            (λ at1 k. (
              update-IsWhole (λ (p : Payment). p.item_id) (λ p. p.payer_id) at1.item at1.member
                  db.payments w other (repaid payer dto) never
                  (λ p here even _.
                    let e : p.item_id ≡ item.id = ground (arith, here, even, its) in
                    rw (e, item_with_member at1 db item payer k item_there payer_there same) refl)
                  k.payments,
              update-IsUniqueBy (λ (p : Payment). p.id) db.payments w (repaid payer dto) (λ p. refl)
                  k.unique,
            ))
            (at, kept) in
        subst IsKept (sym last) (logged-IsKept e db1 kept1)

  pub delete_payment-IsKept :
      (payment : Payment) (user : User) (db : Db) {db' : Db}
      → delete_payment payment user db ≡ ok (tt, db')
      → IsKept db
      → IsKept db'
  unfolding delete_payment
  delete_payment-IsKept payment user db {db'} h kept =
      through (find_or_throw Delegate.item (λ i. i.id == payment.item_id)) _ db h
        λ item db0 finds r0.
          let same0 : db0 ≡ db = ground arith in
          let w = λ (p : Payment). p.id == payment.id in
          let db1 : Db = record db { payments = prisma.delete_rows w db.payments } in
          let e = Event.payment_deleted item.workspace_id user.id payment in
          let last : db' ≡ logged e db1 = grind (arith, emit_lem) in
          subst IsKept (sym last) (logged-IsKept e db1 (delete_payments-IsKept w db kept))
