-- ===== src/Resolver/Request.antt =====
-- The mutations of items, payments and tags as requests: what each gives back, which right it asks
-- for, in which workspace it happens, which resolver takes it and which service carries it out.
use cost_x.Base.{ℕ, ◌≡◌, true, Option, none, some, ◌⊎◌, String, [], ◌∷◌, includes_by, ◌==◌}
use cost_x.Prisma.{Prisma}
use cost_x.Schema.{WorkspacePermission, admin, role_index, User, Workspace, Item, Payment, Tag, Db}
use cost_x.Transaction.{M, ◌>>=◌}
use cost_x.History.Emitter.{EventEmitter}
use cost_x.Access.Meaning.{HoldsRights}
use cost_x.Item.{create_item, update_item, delete_item}
use cost_x.Payment.{PaymentIn, create_payment, update_payment, delete_payment}
use cost_x.Tag.{TagInDto, create_tag, update_tag, delete_tag}
use cost_x.Resolver.Pipes.{
  workspace_entity, item_by_id_pipe, payment_by_id_pipe, workspace_by_id_pipe,
  workspace_member_by_id_pipe,
}
use cost_x.Resolver.Mutations.{
  create_item_mutation, update_item_mutation, delete_item_mutation, create_payment_mutation,
  update_payment_mutation, delete_payment_mutation, create_tag_mutation, update_tag_mutation,
  delete_tag_mutation,
}

-- A mutation with its arguments.
pub data Request : Type 0 where
  creates_item : ℕ → String → Request
  updates_item : ℕ → Option String → Request
  deletes_item : ℕ → Request
  creates_payment updates_payment : ℕ → ℕ → PaymentIn → Request
  deletes_payment : ℕ → Request
  creates_tag updates_tag : ℕ → TagInDto → Request
  deletes_tag : ℕ → Request

-- What the mutation gives back.
abbrev pub Reply : Request → Type 0
Reply (Request.creates_item _ _) = Item
Reply (Request.updates_item _ _) = Item
Reply (Request.deletes_item _) = Unit {0}
Reply (Request.creates_payment _ _ _) = Payment
Reply (Request.updates_payment _ _ _) = Payment
Reply (Request.deletes_payment _) = Unit {0}
Reply (Request.creates_tag _ _) = Tag
Reply (Request.updates_tag _ _) = Tag
Reply (Request.deletes_tag _) = Unit {0}

-- The right that the mutation asks for.
abbrev pub right_of : Request → WorkspacePermission
right_of (Request.creates_item _ _) = WorkspacePermission.create_item
right_of (Request.updates_item _ _) = WorkspacePermission.update_item
right_of (Request.deletes_item _) = WorkspacePermission.delete_item
right_of (Request.creates_payment _ _ _) = WorkspacePermission.create_payment
right_of (Request.updates_payment _ _ _) = WorkspacePermission.update_payment
right_of (Request.deletes_payment _) = WorkspacePermission.delete_payment
right_of (Request.creates_tag _ _) = WorkspacePermission.create_tag
right_of (Request.updates_tag _ _) = WorkspacePermission.update_tag
right_of (Request.deletes_tag _) = WorkspacePermission.delete_tag

-- An administrator, the owner of the workspace, or an active member who holds the right.
abbrev pub IsPermitted : Db → User → Workspace → WorkspacePermission → Type 0
IsPermitted db user w p =
    (includes_by role_index (admin ∷ []) user.role ≡ true)
    ⊎ (w.owner_id ≡ user.id)
    ⊎ HoldsRights db user (p ∷ []) (workspace_entity w)

abbrev pub and_then : {A B : Type 0} → Option A → (A → Option B) → Option B
and_then none f = none
and_then (some a) f = f a

module _ ⦃prisma : Prisma⦄ (db : Db) where
  abbrev pub workspace_of_id : ℕ → Option Workspace
  workspace_of_id id = prisma.find_first (λ w. w.id == id) db.workspaces

  abbrev pub workspace_of_item : ℕ → Option Workspace
  workspace_of_item id =
      and_then (prisma.find_first (λ i. i.id == id) db.items) λ i. workspace_of_id i.workspace_id

  abbrev pub workspace_of_payment : ℕ → Option Workspace
  workspace_of_payment id =
      and_then (prisma.find_first (λ p. p.id == id) db.payments) λ p. workspace_of_item p.item_id

  abbrev pub workspace_of_tag : ℕ → Option Workspace
  workspace_of_tag id =
      and_then (prisma.find_first (λ t. t.id == id) db.tags) λ t. workspace_of_id t.workspace_id

  -- The workspace of the row that the request names.
  abbrev pub workspace_of : Request → Option Workspace
  workspace_of (Request.creates_item id _) = workspace_of_id id
  workspace_of (Request.updates_item id _) = workspace_of_item id
  workspace_of (Request.deletes_item id) = workspace_of_item id
  workspace_of (Request.creates_payment id _ _) = workspace_of_item id
  workspace_of (Request.updates_payment id _ _) = workspace_of_payment id
  workspace_of (Request.deletes_payment id) = workspace_of_payment id
  workspace_of (Request.creates_tag id _) = workspace_of_id id
  workspace_of (Request.updates_tag id _) = workspace_of_tag id
  workspace_of (Request.deletes_tag id) = workspace_of_tag id

module _ ⦃prisma : Prisma⦄ ⦃emitter : EventEmitter⦄ (user : User) where
  -- The resolver of the request.
  abbrev pub answer_request : (r : Request) → M (Reply r)
  answer_request (Request.creates_item id title) = create_item_mutation user id title
  answer_request (Request.updates_item id title) = update_item_mutation user id title
  answer_request (Request.deletes_item id) = delete_item_mutation user id
  answer_request (Request.creates_payment id payer dto) = create_payment_mutation user id payer dto
  answer_request (Request.updates_payment id payer dto) = update_payment_mutation user id payer dto
  answer_request (Request.deletes_payment id) = delete_payment_mutation user id
  answer_request (Request.creates_tag id dto) = create_tag_mutation user id dto
  answer_request (Request.updates_tag id dto) = update_tag_mutation user id dto
  answer_request (Request.deletes_tag id) = delete_tag_mutation user id

  -- The service, on the rows of the ids.
  abbrev pub serve : (r : Request) → M (Reply r)
  serve (Request.creates_item id title) =
      workspace_by_id_pipe id >>= λ workspace. create_item workspace title user
  serve (Request.updates_item id title) = item_by_id_pipe id >>= λ item. update_item item title user
  serve (Request.deletes_item id) = item_by_id_pipe id >>= λ item. delete_item item user
  serve (Request.creates_payment id payer_id dto) = do
    item ← item_by_id_pipe id
    payer ← workspace_member_by_id_pipe payer_id
    create_payment item payer dto user
  serve (Request.updates_payment id payer_id dto) = do
    payment ← payment_by_id_pipe id
    payer ← workspace_member_by_id_pipe payer_id
    update_payment payment payer dto user
  serve (Request.deletes_payment id) =
      payment_by_id_pipe id >>= λ payment. delete_payment payment user
  serve (Request.creates_tag id dto) = create_tag id dto user
  serve (Request.updates_tag id dto) = update_tag id dto user
  serve (Request.deletes_tag id) = delete_tag id user
