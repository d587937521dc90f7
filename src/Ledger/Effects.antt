-- ===== src/Ledger/Effects.antt =====
-- What the mutations of items do to the tables, and that the invariant stays.
use cost_x.Base.{
  ℕ, ◌≡◌, refl, sym, ap, subst, ◌∙◌, Bool, true, false, not, Option, some, arith, count, ◌==◌,
  String, count_never,
}
use cost_x.Prisma.{Prisma}
use cost_x.Schema.{User, Workspace, Item, Payment, Db}
use cost_x.Transaction.{ok, through}
use cost_x.Delegate
use cost_x.Delegate.{create, create_many}
use cost_x.Delegate.Laws.{create_lem, next_row}
use cost_x.History.{Event}
use cost_x.History.Emitter.{EventEmitter}
use cost_x.History.Laws.{logged, emit_lem}
use cost_x.Item.{
  create_item, update_item, delete_item, delete_item_row, item_in, merge, ensure_is_belonging,
  is_payment_of, is_untitled_of, is_tag_of, is_stake_of, titled, moved_to, title_or,
}
use cost_x.Ledger.Places.{stored_place}
use cost_x.Ledger.References.{is_same, update-IsWhole, update-IsUniqueBy}
use cost_x.Ledger.Invariant.{
  IsKept, HasItem, insert_item-IsKept, retitle_item-IsKept, remove_item-IsKept,
}
use cost_x.Ledger.Rows.{logged-IsKept, payments-IsKept, delete_item_tags-IsKept}

module _ ⦃prisma : Prisma⦄ where
  -- A row that `create` has written is the next row, with an id that no row had.
  pub created_item-IsKept :
      (make : ℕ → Item) (db : Db) {item : Item} {db' : Db}
      → ((k : ℕ) → (make k).id ≡ k)
      → create Delegate.item make db ≡ ok (item, db')
      → IsKept db
      → IsKept db'
  created_item-IsKept make db named h kept =
      let (e, _, last) = create_lem Delegate.item make db h in
      let row = next_row Delegate.item make db in
      let fresh : count (λ (i : Item). i.id == row.id) db.items ≡ 0 =
        rw (named (prisma.next_id (λ (i : Item). i.id) db.items))
          (prisma.next_id_fresh (λ (i : Item). i.id) db.items) in
      subst IsKept (sym last) (insert_item-IsKept row db fresh kept)

  -- Titles of payments are not part of the invariant.
  pub titled-IsKept :
      (w : Payment → Bool) (item : Item) (db : Db)
      → IsKept db
      → IsKept (record db { payments = prisma.update_rows w (titled item) db.payments })
  titled-IsKept w item db =
      payments-IsKept (prisma.update_rows w (titled item) db.payments) db λ at kept. (
        update-IsWhole (λ (p : Payment). p.item_id) (λ p. p.payer_id) at.item at.member db.payments
            w (λ p. false) (titled item) (count_never (λ p. false) db.payments (λ p. refl))
            (λ p _ _ whole. whole) kept.payments,
        update-IsUniqueBy (λ (p : Payment). p.id) db.payments w (titled item) (λ p. refl)
            kept.unique,
      )

  -- Payments of one item go to another of the same workspace.
  pub moved-IsKept :
      (w exception : Payment → Bool) (source target : Item) (db : Db)
      → count exception db.payments ≡ 0
      → ((p : Payment) → w p ≡ true → exception p ≡ false → p.item_id ≡ source.id)
      → HasItem source db
      → HasItem target db
      → source.workspace_id ≡ target.workspace_id
      → IsKept db
      → IsKept (record db { payments = prisma.update_rows w (moved_to target) db.payments })
  moved-IsKept w exception source target db never of_source source_there target_there same =
      payments-IsKept (prisma.update_rows w (moved_to target) db.payments) db λ at kept.
        let at_source =
          stored_place (λ (i : Item). i.id) (λ i. i.workspace_id) at.item db.items source.id
            source.workspace_id kept.items source_there in
        let at_target =
          stored_place (λ (i : Item). i.id) (λ i. i.workspace_id) at.item db.items target.id
            target.workspace_id kept.items target_there in
        let one_place : at.item source.id ≡ at.item target.id =
          at_source ∙ ap some same ∙ sym at_target in
        (
          update-IsWhole (λ (p : Payment). p.item_id) (λ p. p.payer_id) at.item at.member
              db.payments w exception (moved_to target) never
              (λ p here even whole.
                subst (λ o. not (is_same o (at.member p.payer_id)) ≡ false)
                  (ap at.item (of_source p here even) ∙ one_place) whole)
              kept.payments,
          update-IsUniqueBy (λ (p : Payment). p.id) db.payments w (moved_to target) (λ p. refl)
              kept.unique,
        )

module _ ⦃prisma : Prisma⦄ ⦃emitter : EventEmitter⦄ where
  pub create_item-IsKept :
      (workspace : Workspace) (title : String) (user : User) (db : Db) {item : Item} {db' : Db}
      → create_item workspace title user db ≡ ok (item, db')
      → IsKept db
      → IsKept db'
  unfolding create_item
  create_item-IsKept workspace title user db {item} {db'} h kept =
      through (Delegate.connect Delegate.workspace (λ w. w.id == workspace.id)) _ db h
        λ _ db0 connected r0.
          let same : db0 ≡ db = ground arith in
          through (create Delegate.item (item_in workspace title)) _ db0 r0 λ made db1 creates r1.
            let kept1 =
              created_item-IsKept (item_in workspace title) db0 (λ k. refl) creates
                (subst IsKept (sym same) kept) in
            let last : db' ≡ logged (Event.item_created workspace.id user.id made) db1 =
              grind (arith, emit_lem) in
            subst IsKept (sym last)
              (logged-IsKept (Event.item_created workspace.id user.id made) db1 kept1)

  pub update_item-IsKept :
      (item : Item) (title : Option String) (user : User) (db : Db) {new : Item} {db' : Db}
      → update_item item title user db ≡ ok (new, db')
      → IsKept db
      → IsKept db'
  unfolding update_item
  update_item-IsKept item title user db {new} {db'} h kept =
      let w = λ (i : Item). i.id == item.id in
      let db1 : Db = record db {
        items = prisma.update_rows w (λ i. record i { title = title_or title item.title }) db.items;
      } in
      let e = Event.item_updated item.workspace_id user.id item new in
      let last : db' ≡ logged e db1 = grind (arith, emit_lem) in
      subst IsKept (sym last)
        (logged-IsKept e db1 (retitle_item-IsKept w (title_or title item.title) db kept))

  pub delete_item-IsKept :
      (item : Item) (user : User) (db : Db) {db' : Db}
      → delete_item item user db ≡ ok (tt, db')
      → IsKept db
      → IsKept db'
  unfolding delete_item delete_item_row
  delete_item-IsKept item user db {db'} h kept =
      let db1 : Db = record db {
        items = prisma.delete_rows (λ (i : Item). i.id == item.id) db.items;
        payments = prisma.delete_rows (is_payment_of item.id) db.payments;
        item_tags = prisma.delete_rows (is_tag_of item.id) db.item_tags;
        item_stakes = prisma.delete_rows (is_stake_of item.id) db.item_stakes;
      } in
      let e = Event.item_deleted item.workspace_id user.id item in
      let last : db' ≡ logged e db1 = grind (arith, emit_lem) in
      subst IsKept (sym last) (logged-IsKept e db1 (remove_item-IsKept item.id db kept))

  pub merge-IsKept :
      (host merging : Item) (user : User) (db : Db) {result : Option Item} {db' : Db}
      → HasItem host db
      → HasItem merging db
      → merge host merging user db ≡ ok (result, db')
      → IsKept db
      → IsKept db'
  unfolding merge delete_item_row ensure_is_belonging
  merge-IsKept host merging user db {result} {db'} host_there merging_there h kept =
      let w = is_payment_of merging.id in
      let untitled = is_untitled_of merging.id in
      let db1 : Db = record db {
        payments = prisma.update_rows untitled (titled merging) db.payments;
      } in
      let db2 : Db = record db1 { payments = prisma.update_rows w (moved_to host) db1.payments } in
      let db3 : Db = record db2 {
        item_tags = prisma.delete_rows (is_tag_of merging.id) db2.item_tags;
      } in
      let db4 : Db = record db3 {
        items = prisma.delete_rows (λ (i : Item). i.id == merging.id) db3.items;
        payments = prisma.delete_rows w db3.payments;
        item_tags = prisma.delete_rows (is_tag_of merging.id) db3.item_tags;
        item_stakes = prisma.delete_rows (is_stake_of merging.id) db3.item_stakes;
      } in
      let same : merging.workspace_id ≡ host.workspace_id = ground arith in
      let e = Event.item_merged host.workspace_id user.id host merging result in
      let last : db' ≡ logged e db4 = grind (arith, emit_lem) in
      let kept1 = titled-IsKept untitled merging db kept in
      let kept2 =
        moved-IsKept w (λ p. false) merging host db1
          (count_never (λ p. false) db1.payments (λ p. refl)) (λ p here _. ground (arith, here))
          merging_there host_there same kept1 in
      let kept3 = delete_item_tags-IsKept (is_tag_of merging.id) db2 kept2 in
      subst IsKept (sym last) (logged-IsKept e db4 (remove_item-IsKept merging.id db3 kept3))
