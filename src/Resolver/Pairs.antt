-- ===== src/Resolver/Pairs.antt =====
-- src/item-tag/resolver/item-tag.mutation.resolver.ts and
-- src/item-merge/resolver/item-merge.mutation.resolver.ts: the mutations of two rows, each in a
-- workspace of its own.
use cost_x.Base.{ℕ, Option, none, some, [], ◌∷◌, String}
use cost_x.Prisma.{Prisma}
use cost_x.Schema.{WorkspacePermission, admin, User, Item, ItemTag}
use cost_x.Transaction.{M, pure, ◌>>=◌, ◌>>◌}
use cost_x.History.Emitter.{EventEmitter}
use cost_x.Access.{AccessAction, AccessScope, Rule, RuleDef, nil, cons, Entities, can_activate}
use cost_x.Item.{merge}
use cost_x.Tag.{assign_tag, unassign_tag}
use cost_x.Resolver.Pipes.{
  entities_of, workspace_entity, item_by_id_pipe, tag_by_id_pipe, workspace_by_item_pipe,
  workspace_by_tag_pipe,
}

-- `{ or: [{ owner: key, … }, { permission, …, target: key }] }`
abbrev pub owner_or_holder : String → WorkspacePermission → RuleDef
owner_or_holder key permission = RuleDef.or (
    cons (RuleDef.rule (Rule.owner key))
      (cons (RuleDef.rule (Rule.workspace_permission key (permission ∷ []))) nil))

-- `{ or: [{ role: [ADMIN], … }, { and: [{ or: […] }, { or: […] }] }] }`
abbrev pub pair_rule : String → String → WorkspacePermission → RuleDef
pair_rule first second permission = RuleDef.or (
    cons (RuleDef.rule (Rule.by_target AccessScope.user none (some (admin ∷ [])) none)) (
      cons
        (RuleDef.and
          (cons (owner_or_holder first permission) (cons (owner_or_holder second permission) nil)))
        nil))

module _ ⦃prisma : Prisma⦄ where
  -- `@Infer('itemWorkspace', …)` and `@Infer('tagWorkspace', …)`
  abbrev pub infer_item_and_tag : ℕ → ℕ → M Entities
  infer_item_and_tag item_id tag_id = do
    item ← item_by_id_pipe item_id
    item_workspace ← workspace_by_item_pipe item
    tag ← tag_by_id_pipe tag_id
    tag_workspace ← workspace_by_tag_pipe tag
    pure (
        entities_of (
          ("itemWorkspace", workspace_entity item_workspace)
          ∷ ("tagWorkspace", workspace_entity tag_workspace)
          ∷ []))

  -- `@Infer('hostItemWorkspace', …)` and `@Infer('mergingItemWorkspace', …)`
  abbrev pub infer_items : ℕ → ℕ → M Entities
  infer_items host_item_id merging_item_id = do
    host_item ← item_by_id_pipe host_item_id
    host_workspace ← workspace_by_item_pipe host_item
    merging_item ← item_by_id_pipe merging_item_id
    merging_workspace ← workspace_by_item_pipe merging_item
    pure (
        entities_of (
          ("hostItemWorkspace", workspace_entity host_workspace)
          ∷ ("mergingItemWorkspace", workspace_entity merging_workspace)
          ∷ []))

  abbrev pub pair_allow : String → String → WorkspacePermission → User → Entities → M (Unit {0})
  pair_allow first second permission user entities =
      can_activate (some (AccessAction.allow, pair_rule first second permission)) (some user)
        entities

module _ ⦃prisma : Prisma⦄ ⦃emitter : EventEmitter⦄ (current_user : User) where
  unfoldable pub assign_tag_mutation : ℕ → ℕ → M ItemTag
  assign_tag_mutation item_id tag_id = do
    entities ← infer_item_and_tag item_id tag_id
    pair_allow "itemWorkspace" "tagWorkspace" WorkspacePermission.assign_tag current_user entities
    item ← item_by_id_pipe item_id
    tag ← tag_by_id_pipe tag_id
    assign_tag item tag current_user

  unfoldable pub unassign_tag_mutation : ℕ → ℕ → M (Unit {0})
  unassign_tag_mutation item_id tag_id = do
    entities ← infer_item_and_tag item_id tag_id
    pair_allow "itemWorkspace" "tagWorkspace" WorkspacePermission.unassign_tag current_user entities
    item ← item_by_id_pipe item_id
    tag ← tag_by_id_pipe tag_id
    unassign_tag item tag current_user

  unfoldable pub merge_items_mutation : ℕ → ℕ → M (Option Item)
  merge_items_mutation host_item_id merging_item_id = do
    entities ← infer_items host_item_id merging_item_id
    pair_allow "hostItemWorkspace" "mergingItemWorkspace" WorkspacePermission.merge_items
        current_user entities
    host_item ← item_by_id_pipe host_item_id
    merging_item ← item_by_id_pipe merging_item_id
    merge host_item merging_item current_user
