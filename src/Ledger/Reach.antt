-- ===== src/Ledger/Reach.antt =====
-- The runs of the mutations of items, payments, tags and their uses, in any order. The rows that a
-- mutation is given are rows of the tables at that time, as the resolvers have read them.
use cost_x.Base.{ℕ, ◌≡◌, Option, List, String}
use cost_x.Prisma.{Prisma}
use cost_x.Schema.{User, Workspace, WorkspaceMember, Item, Tag, ItemTag, Payment, Db}
use cost_x.Transaction.{ok}
use cost_x.History.Emitter.{EventEmitter}
use cost_x.Item.{create_item, update_item, delete_item, merge, extract_as_item}
use cost_x.Payment.{PaymentIn, create_payment, update_payment, delete_payment}
use cost_x.Tag.{TagInDto, create_tag, update_tag, delete_tag, assign_tag, unassign_tag}
use cost_x.Ledger.Invariant.{IsKept, HasItem, HasTag, HasMember, HasPayment}
use cost_x.Ledger.Effects.{create_item-IsKept, update_item-IsKept, delete_item-IsKept, merge-IsKept}
use cost_x.Ledger.Extraction.{extract_as_item-IsKept}
use cost_x.Ledger.Mutations.{create_payment-IsKept, update_payment-IsKept, delete_payment-IsKept}
use cost_x.Ledger.TagMutations.{
  create_tag-IsKept, update_tag-IsKept, delete_tag-IsKept, assign_tag-IsKept, unassign_tag-IsKept,
}

module _ ⦃prisma : Prisma⦄ ⦃emitter : EventEmitter⦄ where
  -- One mutation that comes through.
  pub data Mutation : Db → Db → Type 0 where
    creates_item :
        {db db' : Db} (workspace : Workspace) (title : String) (user : User) {item : Item}
        → create_item workspace title user db ≡ ok (item, db')
        → Mutation db db'
    updates_item :
        {db db' : Db} (item : Item) (title : Option String) (user : User) {new : Item}
        → update_item item title user db ≡ ok (new, db')
        → Mutation db db'
    deletes_item :
        {db db' : Db} (item : Item) (user : User)
        → delete_item item user db ≡ ok (tt, db')
        → Mutation db db'
    merges :
        {db db' : Db} (host merging : Item) (user : User) {result : Option Item}
        → HasItem host db
        → HasItem merging db
        → merge host merging user db ≡ ok (result, db')
        → Mutation db db'
    extracts :
        {db db' : Db} (source : Item) (ids : List ℕ) (title : String) (user : User) {item : Item}
        → HasItem source db
        → extract_as_item source ids title user db ≡ ok (item, db')
        → Mutation db db'
    creates_payment :
        {db db' : Db} (item : Item) (payer : WorkspaceMember) (dto : PaymentIn) (user : User)
        {payment : Payment}
        → HasItem item db
        → HasMember payer db
        → create_payment item payer dto user db ≡ ok (payment, db')
        → Mutation db db'
    updates_payment :
        {db db' : Db} (payment : Payment) (payer : WorkspaceMember) (dto : PaymentIn) (user : User)
        {new : Payment}
        → HasPayment payment db
        → HasMember payer db
        → update_payment payment payer dto user db ≡ ok (new, db')
        → Mutation db db'
    deletes_payment :
        {db db' : Db} (payment : Payment) (user : User)
        → delete_payment payment user db ≡ ok (tt, db')
        → Mutation db db'
    creates_tag :
        {db db' : Db} (workspace_id : ℕ) (dto : TagInDto) (user : User) {tag : Tag}
        → create_tag workspace_id dto user db ≡ ok (tag, db')
        → Mutation db db'
    updates_tag :
        {db db' : Db} (id : ℕ) (dto : TagInDto) (user : User) {tag : Tag}
        → update_tag id dto user db ≡ ok (tag, db')
        → Mutation db db'
    deletes_tag :
        {db db' : Db} (id : ℕ) (user : User)
        → delete_tag id user db ≡ ok (tt, db')
        → Mutation db db'
    assigns_tag :
        {db db' : Db} (item : Item) (tag : Tag) (user : User) {item_tag : ItemTag}
        → HasItem item db
        → HasTag tag db
        → assign_tag item tag user db ≡ ok (item_tag, db')
        → Mutation db db'
    unassigns_tag :
        {db db' : Db} (item : Item) (tag : Tag) (user : User)
        → unassign_tag item tag user db ≡ ok (tt, db')
        → Mutation db db'

  -- Mutations one after the other.
  pub data Mutations : Db → Db → Type 0 where
    rest : {db : Db} → Mutations db db
    next : {db between db' : Db} → Mutation db between → Mutations between db' → Mutations db db'

  step-IsKept : {db db' : Db} → Mutation db db' → IsKept db → IsKept db'
  step-IsKept {db} (creates_item w t u h) = create_item-IsKept w t u db h
  step-IsKept {db} (updates_item i t u h) = update_item-IsKept i t u db h
  step-IsKept {db} (deletes_item i u h) = delete_item-IsKept i u db h
  step-IsKept {db} (merges a b u there there' h) = merge-IsKept a b u db there there' h
  step-IsKept {db} (extracts i ids t u there h) = extract_as_item-IsKept i ids t u db there h
  step-IsKept {db} (creates_payment i m dto u there there' h) =
      create_payment-IsKept i m dto u db there there' h
  step-IsKept {db} (updates_payment p m dto u there there' h) =
      update_payment-IsKept p m dto u db there there' h
  step-IsKept {db} (deletes_payment p u h) = delete_payment-IsKept p u db h
  step-IsKept {db} (creates_tag w dto u h) = create_tag-IsKept w dto u db h
  step-IsKept {db} (updates_tag id dto u h) = update_tag-IsKept id dto u db h
  step-IsKept {db} (deletes_tag id u h) = delete_tag-IsKept id u db h
  step-IsKept {db} (assigns_tag i t u there there' h) = assign_tag-IsKept i t u db there there' h
  step-IsKept {db} (unassigns_tag i t u h) = unassign_tag-IsKept i t u db h

  -- From tables where every id has one workspace, every payment is of an item and by a member of
  -- the same workspace, every use of a tag is on an item of the workspace of the tag and payment
  -- ids are unique, every run of the mutations of items, payments and tags leads to such tables.
  pub mutations-IsKept : {db db' : Db} → Mutations db db' → IsKept db → IsKept db'
  mutations-IsKept rest kept = kept
  mutations-IsKept (next step steps) kept = mutations-IsKept steps (step-IsKept step kept)
