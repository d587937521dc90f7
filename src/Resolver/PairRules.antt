-- ===== src/Resolver/PairRules.antt =====
-- What the rule of a mutation of two rows says of their workspaces, and what is inferred for them.
use cost_x.Base.{
  ℕ, ◌≡◌, refl, ◌∙◌, Option, none, some, Option-cases, String, ◌⊎◌, inl, inr, [], ◌∷◌, arith, ◌==◌,
}
use cost_x.Prisma.{Prisma}
use cost_x.Schema.{WorkspacePermission, User, Workspace, Db}
use cost_x.Transaction.{M, err, pure, not_found, ◌>>=◌}
use cost_x.Access.{Entities}
use cost_x.Access.Meaning.{HoldsRights, IsAllowed, AnyAllowed, AllAllowed}
use cost_x.Access.Totality.{IsAnswerable, AllAnswerable}
use cost_x.Resolver.Pipes.{
  entities_of, workspace_entity, item_by_id_pipe, tag_by_id_pipe, workspace_by_item_pipe,
  workspace_by_tag_pipe,
}
use cost_x.Resolver.Request.{IsPermitted, workspace_of_item, workspace_of_tag}
use cost_x.Resolver.Pairs.{owner_or_holder, pair_rule, infer_item_and_tag, infer_items}

module _ (user : User) (db : Db) (es : Entities) (p : WorkspacePermission) where
  -- Of a workspace under a key: its owner, or a holder of the right.
  entitled-IsPermitted :
      (key : String) (w : Workspace)
      → es key ≡ some (workspace_entity w)
      → IsAllowed db user es (owner_or_holder key p)
      → IsPermitted db user w p
  unfolding IsAllowed AnyAllowed
  entitled-IsPermitted key w there h = elim h [
    | inl (e, same, owns) ↦ inr (inl (ground (arith, there, same, owns)))
    | inr (inl (e, same, holds)) ↦
        let e' : e ≡ workspace_entity w = ground (arith, there, same) in
        inr (inr (rw (e') at holds))
    | inr (inr never) ↦ absurd never
  ]

  entitled-IsAllowed :
      (key : String) (w : Workspace)
      → es key ≡ some (workspace_entity w)
      → (w.owner_id ≡ user.id) ⊎ HoldsRights db user (p ∷ []) (workspace_entity w)
      → IsAllowed db user es (owner_or_holder key p)
  unfolding IsAllowed AnyAllowed
  entitled-IsAllowed key w there (inl owns) = inl (_, there, ground (arith, owns))
  entitled-IsAllowed key w there (inr holds) = inr (inl (_, there, holds))

  module _ (first second : String) (a b : Workspace) (there : es first ≡ some (workspace_entity a))
      (there' : es second ≡ some (workspace_entity b)) where
    pub pair-IsAnswerable : IsAnswerable es (pair_rule first second p)
    unfolding IsAnswerable AllAnswerable
    pair-IsAnswerable =
        (tt, ((((_, there), ((_, there), tt)), (((_, there'), ((_, there'), tt)), tt)), tt))

    pub pair-IsPermitted :
        IsAllowed db user es (pair_rule first second p)
        → IsPermitted db user a p × IsPermitted db user b p
    unfolding IsAllowed AnyAllowed AllAllowed
    pair-IsPermitted h = elim h [
      | inl (is_admin, _) ↦ (inl is_admin, inl is_admin)
      | inr (inl (one, (other, _))) ↦
          (entitled-IsPermitted first a there one, entitled-IsPermitted second b there' other)
      | inr (inr never) ↦ absurd never
    ]

    pub pair-IsAllowed :
        IsPermitted db user a p
        → IsPermitted db user b p
        → IsAllowed db user es (pair_rule first second p)
    unfolding IsAllowed AnyAllowed AllAllowed
    pair-IsAllowed (inl is_admin) h' = inl (is_admin, tt)
    pair-IsAllowed (inr h) (inl is_admin) = inl (is_admin, tt)
    pair-IsAllowed (inr h) (inr h') =
        inr (inl (entitled-IsAllowed first a there h, (entitled-IsAllowed second b there' h', tt)))

-- What the guard of two rows leads to.
abbrev pub Of : {A : Type 0} → Option Workspace → (Workspace → M A) → M A
Of none k db = err not_found
Of (some w) k db = k w db

of_same :
    {A : Type 0} (w : Option Workspace) (k k' : Workspace → M A) (db : Db)
    → ((a : Workspace) → k a db ≡ k' a db)
    → Of w k db ≡ Of w k' db
of_same none k k' db same = refl
of_same (some a) k k' db same = same a

module _ ⦃prisma : Prisma⦄ (db : Db) {A : Type 0} where
  item_pipes :
      (id : ℕ) (k : Workspace → M A)
      → (item_by_id_pipe id >>= λ i. workspace_by_item_pipe i >>= k) db
        ≡ Of (workspace_of_item db id) k db
  item_pipes id k = elim (Option-cases (prisma.find_first (λ i. i.id == id) db.items)) [
    | inl h ↦ ground (arith, h)
    | inr (i, h) ↦
        elim (Option-cases (prisma.find_first (λ w. w.id == i.workspace_id) db.workspaces)) [
          | inl h' ↦ ground (arith, h, h')
          | inr (w, h') ↦ ground (arith, h, h')
        ]
  ]

  tag_pipes :
      (id : ℕ) (k : Workspace → M A)
      → (tag_by_id_pipe id >>= λ t. workspace_by_tag_pipe t >>= k) db
        ≡ Of (workspace_of_tag db id) k db
  tag_pipes id k = elim (Option-cases (prisma.find_first (λ t. t.id == id) db.tags)) [
    | inl h ↦ ground (arith, h)
    | inr (t, h) ↦
        elim (Option-cases (prisma.find_first (λ w. w.id == t.workspace_id) db.workspaces)) [
          | inl h' ↦ ground (arith, h, h')
          | inr (w, h') ↦ ground (arith, h, h')
        ]
  ]

abbrev pub item_and_tag : Workspace → Workspace → Entities
item_and_tag a b =
    entities_of (("itemWorkspace", workspace_entity a) ∷ ("tagWorkspace", workspace_entity b) ∷ [])

abbrev pub two_items : Workspace → Workspace → Entities
two_items a b =
    entities_of (
      ("hostItemWorkspace", workspace_entity a) ∷ ("mergingItemWorkspace", workspace_entity b) ∷ [])

module _ ⦃prisma : Prisma⦄ (db : Db) where
  pub infer_item_and_tag_lem :
      (item_id tag_id : ℕ)
      → infer_item_and_tag item_id tag_id db
        ≡ Of
            (workspace_of_item db item_id)
            (λ a. Of (workspace_of_tag db tag_id) λ b. pure (item_and_tag a b))
            db
  infer_item_and_tag_lem item_id tag_id =
      item_pipes db item_id _
      ∙ of_same (workspace_of_item db item_id) _ _ db
          (λ a. tag_pipes db tag_id λ b. pure (item_and_tag a b))

  pub infer_items_lem :
      (host_id merging_id : ℕ)
      → infer_items host_id merging_id db
        ≡ Of
            (workspace_of_item db host_id)
            (λ a. Of (workspace_of_item db merging_id) λ b. pure (two_items a b))
            db
  infer_items_lem host_id merging_id =
      item_pipes db host_id _
      ∙ of_same (workspace_of_item db host_id) _ _ db
          (λ a. item_pipes db merging_id λ b. pure (two_items a b))
