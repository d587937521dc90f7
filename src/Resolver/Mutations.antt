-- ===== src/Resolver/Mutations.antt =====
-- src/item/resolver/item.mutation.resolver.ts, src/payment/resolver/payment.mutation.resolver.ts and
-- src/tag/resolver/tag.mutation.resolver.ts: the keys of `@Infer` are resolved, the guard looks at
-- the rule, the pipes read the arguments, and the service is called, here on one state. A mutation
-- of the result `true` gives the unit value.
use cost_x.Base.{ℕ, Option, String, [], ◌∷◌}
use cost_x.Prisma.{Prisma}
use cost_x.Schema.{WorkspacePermission, User, Item, Payment, Tag}
use cost_x.Transaction.{M, pure, ◌>>=◌, ◌>>◌}
use cost_x.History.Emitter.{EventEmitter}
use cost_x.Access.{Entities}
use cost_x.Item.{create_item, update_item, delete_item}
use cost_x.Payment.{PaymentIn, create_payment, update_payment, delete_payment}
use cost_x.Tag.{TagInDto, create_tag, update_tag, delete_tag}
use cost_x.Resolver.Pipes.{
  entities_of, workspace_entity, row_entity, item_by_id_pipe, payment_by_id_pipe, tag_by_id_pipe,
  workspace_by_id_pipe, workspace_by_item_pipe, workspace_by_payment_pipe, workspace_by_tag_pipe,
  workspace_member_by_id_pipe, access_allow,
}

module _ ⦃prisma : Prisma⦄ where
  -- `@Infer('workspace', { from: fromArg('workspaceId'), … })`
  abbrev pub infer_workspace : ℕ → M Entities
  infer_workspace workspace_id = do
    workspace ← workspace_by_id_pipe workspace_id
    pure (entities_of (("workspace", workspace_entity workspace) ∷ []))

  -- `@Infer('item', …)` and `@Infer('workspace', { from: 'item', … })`
  abbrev pub infer_item : ℕ → M Entities
  infer_item item_id = do
    item ← item_by_id_pipe item_id
    workspace ← workspace_by_item_pipe item
    pure (
        entities_of (("item", row_entity item.id) ∷ ("workspace", workspace_entity workspace) ∷ []))

  abbrev pub infer_payment : ℕ → M Entities
  infer_payment payment_id = do
    payment ← payment_by_id_pipe payment_id
    workspace ← workspace_by_payment_pipe payment
    pure (
        entities_of
          (("payment", row_entity payment.id) ∷ ("workspace", workspace_entity workspace) ∷ []))

  abbrev pub infer_tag : ℕ → M Entities
  infer_tag tag_id = do
    tag ← tag_by_id_pipe tag_id
    workspace ← workspace_by_tag_pipe tag
    pure (entities_of (("tag", row_entity tag.id) ∷ ("workspace", workspace_entity workspace) ∷ []))

module _ ⦃prisma : Prisma⦄ ⦃emitter : EventEmitter⦄ (current_user : User) where
  unfoldable pub create_item_mutation : ℕ → String → M Item
  create_item_mutation workspace_id title = do
    entities ← infer_workspace workspace_id
    access_allow WorkspacePermission.create_item current_user entities
    workspace ← workspace_by_id_pipe workspace_id
    create_item workspace title current_user

  unfoldable pub update_item_mutation : ℕ → Option String → M Item
  update_item_mutation id patch_title = do
    entities ← infer_item id
    access_allow WorkspacePermission.update_item current_user entities
    item ← item_by_id_pipe id
    update_item item patch_title current_user

  unfoldable pub delete_item_mutation : ℕ → M (Unit {0})
  delete_item_mutation id = do
    entities ← infer_item id
    access_allow WorkspacePermission.delete_item current_user entities
    item ← item_by_id_pipe id
    delete_item item current_user

  unfoldable pub create_payment_mutation : ℕ → ℕ → PaymentIn → M Payment
  create_payment_mutation item_id payer_id dto = do
    entities ← infer_item item_id
    access_allow WorkspacePermission.create_payment current_user entities
    item ← item_by_id_pipe item_id
    payer ← workspace_member_by_id_pipe payer_id
    create_payment item payer dto current_user

  unfoldable pub update_payment_mutation : ℕ → ℕ → PaymentIn → M Payment
  update_payment_mutation payment_id payer_id dto = do
    entities ← infer_payment payment_id
    access_allow WorkspacePermission.update_payment current_user entities
    payment ← payment_by_id_pipe payment_id
    payer ← workspace_member_by_id_pipe payer_id
    update_payment payment payer dto current_user

  unfoldable pub delete_payment_mutation : ℕ → M (Unit {0})
  delete_payment_mutation payment_id = do
    entities ← infer_payment payment_id
    access_allow WorkspacePermission.delete_payment current_user entities
    payment ← payment_by_id_pipe payment_id
    delete_payment payment current_user

  unfoldable pub create_tag_mutation : ℕ → TagInDto → M Tag
  create_tag_mutation workspace_id dto = do
    entities ← infer_workspace workspace_id
    access_allow WorkspacePermission.create_tag current_user entities
    create_tag workspace_id dto current_user

  unfoldable pub update_tag_mutation : ℕ → TagInDto → M Tag
  update_tag_mutation id dto = do
    entities ← infer_tag id
    access_allow WorkspacePermission.update_tag current_user entities
    update_tag id dto current_user

  unfoldable pub delete_tag_mutation : ℕ → M (Unit {0})
  delete_tag_mutation id = do
    entities ← infer_tag id
    access_allow WorkspacePermission.delete_tag current_user entities
    delete_tag id current_user
