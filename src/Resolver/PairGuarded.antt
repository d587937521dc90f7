-- ===== src/Resolver/PairGuarded.antt =====
-- By whom the mutations of two rows come through.
use cost_x.Base.{◌≡◌, refl, Option, none, some, String, ◌⊎◌, inl, inr, arith}
use cost_x.Prisma.{Prisma}
use cost_x.Schema.{WorkspacePermission, User, Workspace, Db}
use cost_x.Transaction.{M, err, pure, no_access, not_found, ◌>>=◌, ◌>>◌}
use cost_x.History.Emitter.{EventEmitter}
use cost_x.Access.{Entities}
use cost_x.Access.Meaning.{HasUniqueKeys}
use cost_x.Access.Policy.{can_activate_lem}
use cost_x.Resolver.Pipes.{workspace_entity}
use cost_x.Resolver.Request.{IsPermitted}
use cost_x.Resolver.Pairs.{
  pair_rule, pair_allow, infer_item_and_tag, infer_items, assign_tag_mutation,
  unassign_tag_mutation, merge_items_mutation,
}
use cost_x.Resolver.PairRules.{
  pair-IsAnswerable, pair-IsPermitted, pair-IsAllowed, Of, item_and_tag, two_items,
  infer_item_and_tag_lem, infer_items_lem,
}
use cost_x.Resolver.PairRequest.{
  PairRequest, pair_right, first_workspace, second_workspace, answer_pair, serve_pair,
}

module _ ⦃prisma : Prisma⦄ (user : User) (db : Db) where
  -- Who is permitted in both workspaces goes on to the service, on the same tables; nobody else
  -- does.
  abbrev pub IsPairGuarded :
      {A : Type 0} → M A → M A → Option Workspace → Option Workspace → WorkspacePermission → Type 0
  IsPairGuarded m service none b p = m db ≡ err not_found
  IsPairGuarded m service (some a) none p = m db ≡ err not_found
  IsPairGuarded m service (some a) (some b) p =
      (IsPermitted db user a p × IsPermitted db user b p × (m db ≡ service db))
      ⊎ ((¬ (IsPermitted db user a p × IsPermitted db user b p)) × (m db ≡ err no_access))

  pair_allow-IsPairGuarded :
      {A : Type 0} (first second : String) (infer : M Entities) (service : M A)
      (make : Workspace → Workspace → Entities) (a b : Option Workspace) (p : WorkspacePermission)
      → HasUniqueKeys db
      → ((a b : Workspace) → make a b first ≡ some (workspace_entity a))
      → ((a b : Workspace) → make a b second ≡ some (workspace_entity b))
      → infer db ≡ Of a (λ a'. Of b λ b'. pure (make a' b')) db
      → IsPairGuarded (infer >>= λ es. pair_allow first second p user es >> service) service a b p
  pair_allow-IsPairGuarded first second infer service make none b p keys at_first at_second h =
      ground (arith, h)
  pair_allow-IsPairGuarded first second infer service make (some a) none p keys at_first at_second
        h =
      ground (arith, h)
  pair_allow-IsPairGuarded first second infer service make (some a) (some b) p keys at_first
        at_second h =
      let there = at_first a b in
      let there' = at_second a b in
      elim (can_activate_lem user (make a b) db (pair_rule first second p) keys
        (pair-IsAnswerable user db (make a b) p first second a b there there')) [
          | inl (allowed, passes, _) ↦
              let (one, other) =
                pair-IsPermitted user db (make a b) p first second a b there there' allowed in
              inl (one, other, ground (arith, h, passes))
          | inr (refused, stops, _) ↦ inr (
            λ both.
                refused
                  (pair-IsAllowed user db (make a b) p first second a b there there' both.0 both.1),
            ground (arith, h, stops),
          )
        ]

module _ ⦃prisma : Prisma⦄ ⦃emitter : EventEmitter⦄ (user : User) where
  -- With unique keys, putting a tag on an item, taking it off and merging two items is answered by
  -- `not_found` if one of the two rows has no workspace in the tables. Otherwise it is carried out
  -- by the service, on the tables as they were, if in each of the two workspaces the user is an
  -- administrator, the owner, or an active member with the right that the mutation asks for; and it
  -- is refused with `no_access` if this fails for one of them.
  pub answer_pair-IsPairGuarded :
      (db : Db) (r : PairRequest)
      → HasUniqueKeys db
      → IsPairGuarded user db
          (answer_pair user r)
          (serve_pair user r)
          (first_workspace db r)
          (second_workspace db r)
          (pair_right r)
  unfolding assign_tag_mutation unassign_tag_mutation merge_items_mutation
  answer_pair-IsPairGuarded db (PairRequest.assigns_tag item_id tag_id) keys =
      pair_allow-IsPairGuarded user db "itemWorkspace" "tagWorkspace"
        (infer_item_and_tag item_id tag_id)
        (serve_pair user (PairRequest.assigns_tag item_id tag_id)) item_and_tag _ _
        WorkspacePermission.assign_tag keys (λ a b. refl) (λ a b. refl)
        (infer_item_and_tag_lem db item_id tag_id)
  answer_pair-IsPairGuarded db (PairRequest.unassigns_tag item_id tag_id) keys =
      pair_allow-IsPairGuarded user db "itemWorkspace" "tagWorkspace"
        (infer_item_and_tag item_id tag_id)
        (serve_pair user (PairRequest.unassigns_tag item_id tag_id)) item_and_tag _ _
        WorkspacePermission.unassign_tag keys (λ a b. refl) (λ a b. refl)
        (infer_item_and_tag_lem db item_id tag_id)
  answer_pair-IsPairGuarded db (PairRequest.merges_items host_id merging_id) keys =
      pair_allow-IsPairGuarded user db "hostItemWorkspace" "mergingItemWorkspace"
        (infer_items host_id merging_id)
        (serve_pair user (PairRequest.merges_items host_id merging_id)) two_items _ _
        WorkspacePermission.merge_items keys (λ a b. refl) (λ a b. refl)
        (infer_items_lem db host_id merging_id)
