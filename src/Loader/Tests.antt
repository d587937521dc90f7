-- ===== src/Loader/Tests.antt =====
-- Runs of the loaders on a small database, with a client that keeps lists.
use cost_x.Base.{◌≡◌, none, true, Option, List, [], ◌∷◌, is_none}
use cost_x.Prisma.Client.{in_memory}
use cost_x.Schema.{
  UserPermission, Contact, WorkspaceMember, WorkspaceInvite, Item, Tag, User, Invite, Db, empty,
}
use cost_x.Transaction.{ok}
use cost_x.Loader.Loaders.{
  user_permissions_by_user_id, contacts_by_user_id, workspace_members_by_workspace_id,
  workspace_invites_by_workspace_id, is_pending_invite, item_by_id, tag_by_id, user_by_user_id,
  invite_by_invite_id, workspace_invite_by_invite_id,
}
use cost_x.Loader.Answers.{Each, IsRowsOf, IsRowOf}
use cost_x.Loader.Batches.{group_loaders-Each, row_loaders-Each}

abbrev stored : Db
stored = record empty {
  items = record { id = 1; title = "bread"; workspace_id = 1; stake_rule = none } ∷ [];
  contacts =
      record {
        id = 1;
        created_at = 1;
        source_user_id = 2;
        target_user_id = 3;
        invite_id = 1;
        removed_at = none;
        removed_by_user_id = none;
      }
      ∷ [];
}

group_loaders-Each_example :
    ((groups : List (List UserPermission)) × (user_permissions_by_user_id (2 ∷ 3 ∷ []) stored
        ≡ ok (groups, stored))
      × Each (IsRowsOf (λ p. p.user_id) (λ p. true) stored.user_permissions) (2 ∷ 3 ∷ []) groups)
    × ((groups : List (List Contact)) × (contacts_by_user_id (2 ∷ 3 ∷ []) stored
          ≡ ok (groups, stored))
        × Each
            (IsRowsOf (λ c. c.source_user_id) (λ c. is_none c.removed_at) stored.contacts)
            (2 ∷ 3 ∷ [])
            groups)
    × ((groups : List (List WorkspaceMember)) × (workspace_members_by_workspace_id
            (2 ∷ 3 ∷ [])
            stored
          ≡ ok (groups, stored))
        × Each
            (IsRowsOf (λ m. m.workspace_id) (λ m. is_none m.removed_at) stored.workspace_members)
            (2 ∷ 3 ∷ [])
            groups)
    × ((groups : List (List WorkspaceInvite)) × (workspace_invites_by_workspace_id
            (2 ∷ 3 ∷ [])
            stored
          ≡ ok (groups, stored))
        × Each
            (IsRowsOf (λ i. i.workspace_id) is_pending_invite stored.workspace_invites)
            (2 ∷ 3 ∷ [])
            groups)
group_loaders-Each_example = group_loaders-Each (2 ∷ 3 ∷ []) stored

row_loaders-Each_example :
    ((found : List (Option Item)) × (item_by_id (1 ∷ 3 ∷ []) stored ≡ ok (found, stored))
      × Each (IsRowOf (λ i. i.id) stored.items) (1 ∷ 3 ∷ []) found)
    × ((found : List (Option Tag)) × (tag_by_id (1 ∷ 3 ∷ []) stored ≡ ok (found, stored))
        × Each (IsRowOf (λ t. t.id) stored.tags) (1 ∷ 3 ∷ []) found)
    × ((found : List (Option User)) × (user_by_user_id (1 ∷ 3 ∷ []) stored ≡ ok (found, stored))
        × Each (IsRowOf (λ u. u.id) stored.users) (1 ∷ 3 ∷ []) found)
    × ((found : List (Option Invite)) × (invite_by_invite_id (1 ∷ 3 ∷ []) stored
          ≡ ok (found, stored))
        × Each (IsRowOf (λ i. i.id) stored.invites) (1 ∷ 3 ∷ []) found)
    × ((found : List (Option WorkspaceInvite)) × (workspace_invite_by_invite_id (1 ∷ 3 ∷ []) stored
          ≡ ok (found, stored))
        × Each (IsRowOf (λ i. i.id) stored.workspace_invites) (1 ∷ 3 ∷ []) found)
row_loaders-Each_example = row_loaders-Each (1 ∷ 3 ∷ []) stored
