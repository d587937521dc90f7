-- ===== src/Resolver/Pipes.antt =====
-- src/common/pipe and src/workspace-membership/pipe: the rows that the arguments of a resolver name.
-- What `@Infer` gives for its keys, and the rule of `@Access.allow` on these resolvers.
use text.Mathlib.Text.{◌==◌ as str_eq}
use cost_x.Base.{ℕ, none, some, List, [], ◌∷◌, String, if◌then◌else◌, ◌==◌}
use cost_x.Prisma.{Prisma}
use cost_x.Schema.{WorkspacePermission, admin, User, Workspace, WorkspaceMember, Item, Payment, Tag}
use cost_x.Transaction.{M, or_throw, not_found, workspace_member_not_found, ◌>>=◌}
use cost_x.Delegate
use cost_x.Delegate.{Model, find}
use cost_x.Access.{
  AccessAction, AccessScope, Rule, RuleDef, nil, cons, Entity, Entities, can_activate,
}

-- `new Map(entries.map(…))`
abbrev pub entities_of : List (String × Entity) → Entities
entities_of [] key = none
entities_of ((name, entity) ∷ rest) key =
    if str_eq key name then some entity else entities_of rest key

abbrev pub workspace_entity : Workspace → Entity
workspace_entity w = record { id = w.id; owner_id = some w.owner_id }

-- A row without an owner.
abbrev pub row_entity : ℕ → Entity
row_entity id = record { id = id; owner_id = none }

-- `{ or: [{ owner: 'workspace', … }, { permission, …, target: 'workspace' }, { role: [ADMIN], … }] }`
abbrev pub workspace_rule : WorkspacePermission → RuleDef
workspace_rule permission = RuleDef.or (
    cons (RuleDef.rule (Rule.owner "workspace")) (
      cons (RuleDef.rule (Rule.workspace_permission "workspace" (permission ∷ [])))
        (cons (RuleDef.rule (Rule.by_target AccessScope.user none (some (admin ∷ [])) none)) nil)))

module _ ⦃prisma : Prisma⦄ where
  abbrev pub item_by_id_pipe : ℕ → M Item
  item_by_id_pipe value = find Delegate.item (λ i. i.id == value) >>= or_throw not_found

  abbrev pub payment_by_id_pipe : ℕ → M Payment
  payment_by_id_pipe value = find Delegate.payment (λ p. p.id == value) >>= or_throw not_found

  abbrev pub tag_by_id_pipe : ℕ → M Tag
  tag_by_id_pipe value = find Delegate.tag (λ t. t.id == value) >>= or_throw not_found

  abbrev pub workspace_by_id_pipe : ℕ → M Workspace
  workspace_by_id_pipe value = find Delegate.workspace (λ w. w.id == value) >>= or_throw not_found

  abbrev pub workspace_by_item_pipe : Item → M Workspace
  workspace_by_item_pipe item =
      find Delegate.workspace (λ w. w.id == item.workspace_id) >>= or_throw not_found

  abbrev pub workspace_by_payment_pipe : Payment → M Workspace
  workspace_by_payment_pipe payment = do
    found ← find Delegate.item (λ i. i.id == payment.item_id)
    item ← or_throw not_found found
    workspace ← find Delegate.workspace (λ w. w.id == item.workspace_id)
    or_throw not_found workspace

  abbrev pub workspace_by_tag_pipe : Tag → M Workspace
  workspace_by_tag_pipe tag =
      find Delegate.workspace (λ w. w.id == tag.workspace_id) >>= or_throw not_found

  abbrev pub workspace_member_by_id_pipe : ℕ → M WorkspaceMember
  workspace_member_by_id_pipe value =
      find Delegate.workspace_member (λ m. m.id == value) >>= or_throw workspace_member_not_found

  -- The guard, with the user whom `AuthGuard` has found.
  abbrev pub access_allow : WorkspacePermission → User → Entities → M (Unit {0})
  access_allow permission user entities =
      can_activate (some (AccessAction.allow, workspace_rule permission)) (some user) entities
