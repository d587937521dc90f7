-- ===== src/Resolver/Inference.antt =====
-- What the resolvers infer for a row, and what their rule says of its workspace.
use cost_x.Base.{
  ℕ, ◌≡◌, refl, Option, none, some, String, Option-cases, inl, inr, ◌∷◌, [], arith, ◌==◌,
}
use cost_x.Prisma.{Prisma}
use cost_x.Schema.{WorkspacePermission, User, Workspace, Db}
use cost_x.Transaction.{M, ok, err, not_found}
use cost_x.Access.{Entities}
use cost_x.Access.Meaning.{IsAllowed, AnyAllowed}
use cost_x.Access.Totality.{IsAnswerable, AllAnswerable}
use cost_x.Resolver.Pipes.{entities_of, workspace_entity, row_entity, workspace_rule}
use cost_x.Resolver.Mutations.{infer_workspace, infer_item, infer_payment, infer_tag}
use cost_x.Resolver.Request.{
  IsPermitted, workspace_of_id, workspace_of_item, workspace_of_payment, workspace_of_tag,
}

-- The entities that a resolver of rows of the workspace infers.
abbrev pub Infers : M Entities → Db → Option Workspace → Type 0
Infers infer db none = infer db ≡ err not_found
Infers infer db (some w) =
    (es : Entities) × (infer db ≡ ok (es, db)) × (es "workspace" ≡ some (workspace_entity w))

abbrev alone : Workspace → Entities
alone w = entities_of (("workspace", workspace_entity w) ∷ [])

abbrev beside : String → ℕ → Workspace → Entities
beside key id w = entities_of ((key, row_entity id) ∷ ("workspace", workspace_entity w) ∷ [])

module _ ⦃prisma : Prisma⦄ (db : Db) where
  pub infer_workspace-Infers : (id : ℕ) → Infers (infer_workspace id) db (workspace_of_id db id)
  infer_workspace-Infers id = elim (Option-cases (workspace_of_id db id)) [
    | inl h ↦ rw (h) (let e : infer_workspace id db ≡ err not_found = ground (arith, h) in e)
    | inr (w, h) ↦
        rw (h)
          (let e : infer_workspace id db ≡ ok (alone w, db) = ground (arith, h) in (_, e, refl))
  ]

  pub infer_item-Infers : (id : ℕ) → Infers (infer_item id) db (workspace_of_item db id)
  infer_item-Infers id = elim (Option-cases (prisma.find_first (λ i. i.id == id) db.items)) [
    | inl h ↦ rw (h) (let e : infer_item id db ≡ err not_found = ground (arith, h) in e)
    | inr (i, h) ↦ rw (h) (elim (Option-cases (workspace_of_id db i.workspace_id)) [
      | inl h' ↦ rw (h') (let e : infer_item id db ≡ err not_found = ground (arith, h, h') in e)
      | inr (w, h') ↦ rw (h') (
          let e : infer_item id db ≡ ok (beside "item" i.id w, db) = ground (arith, h, h') in
          (_, e, refl))
    ])
  ]

  pub infer_tag-Infers : (id : ℕ) → Infers (infer_tag id) db (workspace_of_tag db id)
  infer_tag-Infers id = elim (Option-cases (prisma.find_first (λ t. t.id == id) db.tags)) [
    | inl h ↦ rw (h) (let e : infer_tag id db ≡ err not_found = ground (arith, h) in e)
    | inr (t, h) ↦ rw (h) (elim (Option-cases (workspace_of_id db t.workspace_id)) [
      | inl h' ↦ rw (h') (let e : infer_tag id db ≡ err not_found = ground (arith, h, h') in e)
      | inr (w, h') ↦ rw (h') (
          let e : infer_tag id db ≡ ok (beside "tag" t.id w, db) = ground (arith, h, h') in
          (_, e, refl))
    ])
  ]

  pub infer_payment-Infers : (id : ℕ) → Infers (infer_payment id) db (workspace_of_payment db id)
  infer_payment-Infers id = elim (Option-cases (prisma.find_first (λ p. p.id == id) db.payments)) [
    | inl h ↦ rw (h) (let e : infer_payment id db ≡ err not_found = ground (arith, h) in e)
    | inr (p, h) ↦
        rw (h) (elim (Option-cases (prisma.find_first (λ i. i.id == p.item_id) db.items)) [
          | inl h' ↦
              rw (h') (let e : infer_payment id db ≡ err not_found = ground (arith, h, h') in e)
          | inr (i, h') ↦ rw (h') (elim (Option-cases (workspace_of_id db i.workspace_id)) [
            | inl last ↦
                rw (last)
                  (let e : infer_payment id db ≡ err not_found = ground (arith, h, h', last) in e)
            | inr (w, last) ↦ rw (last) (
                let e : infer_payment id db ≡ ok (beside "payment" p.id w, db) =
                  ground (arith, h, h', last) in
                (_, e, refl))
          ])
        ])
  ]

module _ (user : User) (db : Db) (es : Entities) (w : Workspace) (p : WorkspacePermission) where
  pub rule-IsAnswerable :
      es "workspace" ≡ some (workspace_entity w) → IsAnswerable es (workspace_rule p)
  unfolding IsAnswerable AllAnswerable
  rule-IsAnswerable there = ((_, there), ((_, there), (tt, tt)))

  pub allowed-IsPermitted :
      es "workspace" ≡ some (workspace_entity w)
      → IsAllowed db user es (workspace_rule p)
      → IsPermitted db user w p
  unfolding IsAllowed AnyAllowed
  allowed-IsPermitted there h = elim h [
    | inl (e, same, owns) ↦ inr (inl (ground (arith, there, same, owns)))
    | inr (inl (e, same, holds)) ↦
        let e' : e ≡ workspace_entity w = ground (arith, there, same) in
        inr (inr (rw (e') at holds))
    | inr (inr (inl (is_admin, _))) ↦ inl is_admin
    | inr (inr (inr never)) ↦ absurd never
  ]

  pub permitted-IsAllowed :
      es "workspace" ≡ some (workspace_entity w)
      → IsPermitted db user w p
      → IsAllowed db user es (workspace_rule p)
  unfolding IsAllowed AnyAllowed
  permitted-IsAllowed there h = elim h [
    | inl is_admin ↦ inr (inr (inl (is_admin, tt)))
    | inr (inl owns) ↦ inl (_, there, ground (arith, owns))
    | inr (inr holds) ↦ inr (inl (_, there, holds))
  ]
