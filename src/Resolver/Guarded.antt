-- ===== src/Resolver/Guarded.antt =====
-- By whom the mutations of items, payments and tags come through.
use cost_x.Base.{◌≡◌, Option, none, some, ◌⊎◌, inl, inr, arith}
use cost_x.Prisma.{Prisma}
use cost_x.Schema.{WorkspacePermission, User, Workspace, Db}
use cost_x.Transaction.{M, err, no_access, not_found, ◌>>=◌, ◌>>◌}
use cost_x.History.Emitter.{EventEmitter}
use cost_x.Access.{Entities}
use cost_x.Access.Meaning.{HasUniqueKeys}
use cost_x.Access.Policy.{can_activate_lem}
use cost_x.Resolver.Pipes.{workspace_rule, access_allow}
use cost_x.Resolver.Mutations.{
  infer_workspace, infer_item, infer_payment, infer_tag, create_item_mutation, update_item_mutation,
  delete_item_mutation, create_payment_mutation, update_payment_mutation, delete_payment_mutation,
  create_tag_mutation, update_tag_mutation, delete_tag_mutation,
}
use cost_x.Resolver.Request.{Request, right_of, IsPermitted, workspace_of, answer_request, serve}
use cost_x.Resolver.Inference.{
  Infers, infer_workspace-Infers, infer_item-Infers, infer_payment-Infers, infer_tag-Infers,
  rule-IsAnswerable, allowed-IsPermitted, permitted-IsAllowed,
}

module _ ⦃prisma : Prisma⦄ (user : User) (db : Db) where
  -- A user with the right goes on to the service, on the same tables; nobody else does.
  abbrev pub IsGuarded : {A : Type 0} → M A → M A → Option Workspace → WorkspacePermission → Type 0
  IsGuarded m service none p = m db ≡ err not_found
  IsGuarded m service (some w) p =
      (IsPermitted db user w p × (m db ≡ service db))
      ⊎ ((¬ IsPermitted db user w p) × (m db ≡ err no_access))

  access_allow-IsGuarded :
      {A : Type 0} (infer : M Entities) (service : M A) (w : Option Workspace)
      (p : WorkspacePermission)
      → HasUniqueKeys db
      → Infers infer db w
      → IsGuarded (infer >>= λ es. access_allow p user es >> service) service w p
  access_allow-IsGuarded infer service none p keys h = ground (arith, h)
  access_allow-IsGuarded infer service (some w) p keys (es, h, there) =
      elim (can_activate_lem user es db (workspace_rule p) keys
        (rule-IsAnswerable user db es w p there)) [
          | inl (allowed, passes, _) ↦
              inl (allowed-IsPermitted user db es w p there allowed, ground (arith, h, passes))
          | inr (refused, stops, _) ↦ inr (
            λ permitted. refused (permitted-IsAllowed user db es w p there permitted),
            ground (arith, h, stops),
          )
        ]

module _ ⦃prisma : Prisma⦄ ⦃emitter : EventEmitter⦄ (user : User) (db : Db) where
  -- With unique keys, a request for a row with no workspace in the tables is answered by
  -- `not_found`. Any other is carried out by the service, on the tables as they were, if the user is
  -- an administrator, the owner of that workspace, or an active member with the right that the
  -- mutation asks for; and it is refused with `no_access` if he is none of these.
  pub answer_request-IsGuarded :
      (r : Request)
      → HasUniqueKeys db
      → IsGuarded user db (answer_request user r) (serve user r) (workspace_of db r) (right_of r)
  unfolding create_item_mutation update_item_mutation delete_item_mutation create_payment_mutation
      update_payment_mutation delete_payment_mutation create_tag_mutation update_tag_mutation
      delete_tag_mutation
  answer_request-IsGuarded (Request.creates_item id title) keys =
      access_allow-IsGuarded user db (infer_workspace id) _ _ _ keys (infer_workspace-Infers db id)
  answer_request-IsGuarded (Request.updates_item id title) keys =
      access_allow-IsGuarded user db (infer_item id) _ _ _ keys (infer_item-Infers db id)
  answer_request-IsGuarded (Request.deletes_item id) keys =
      access_allow-IsGuarded user db (infer_item id) _ _ _ keys (infer_item-Infers db id)
  answer_request-IsGuarded (Request.creates_payment id payer dto) keys =
      access_allow-IsGuarded user db (infer_item id) _ _ _ keys (infer_item-Infers db id)
  answer_request-IsGuarded (Request.updates_payment id payer dto) keys =
      access_allow-IsGuarded user db (infer_payment id) _ _ _ keys (infer_payment-Infers db id)
  answer_request-IsGuarded (Request.deletes_payment id) keys =
      access_allow-IsGuarded user db (infer_payment id) _ _ _ keys (infer_payment-Infers db id)
  answer_request-IsGuarded (Request.creates_tag id dto) keys =
      access_allow-IsGuarded user db (infer_workspace id) _ _ _ keys (infer_workspace-Infers db id)
  answer_request-IsGuarded (Request.updates_tag id dto) keys =
      access_allow-IsGuarded user db (infer_tag id) _ _ _ keys (infer_tag-Infers db id)
  answer_request-IsGuarded (Request.deletes_tag id) keys =
      access_allow-IsGuarded user db (infer_tag id) _ _ _ keys (infer_tag-Infers db id)
