-- ===== src/Loader/Batches.antt =====
-- What the loaders answer: for each key the rows of the table with that key.
use cost_x.Base.{ℕ, ◌≡◌, is_none, true, Option, List}
use cost_x.Prisma.{Prisma}
use cost_x.Schema.{
  Db, UserPermission, Contact, WorkspaceMember, WorkspaceInvite, Item, Tag, User, Invite,
}
use cost_x.Delegate
use cost_x.Transaction.{ok}
use cost_x.Delegate.{Model}
use cost_x.Loader.Loaders.{
  is_pending_invite, user_permissions_by_user_id, contacts_by_user_id,
  workspace_members_by_workspace_id, workspace_invites_by_workspace_id, item_by_id, tag_by_id,
  user_by_user_id, invite_by_invite_id, workspace_invite_by_invite_id,
}
use cost_x.Loader.Answers.{
  Each, IsRowsOf, IsRowOf, load_groups-Each, load_rows-Each, load_sorted-Each,
}

module _ ⦃prisma : Prisma⦄ (ids : List ℕ) (db : Db) where
  -- A loader of groups answers a batch without an error and changes nothing: its answers are, in
  -- the order of the keys, the rows of the table with that key and no others, among contacts and
  -- members those that are not removed, among invites to workspaces those that are pending.
  pub group_loaders-Each :
      ((groups : List (List UserPermission)) × (user_permissions_by_user_id ids db
          ≡ ok (groups, db))
        × Each (IsRowsOf (λ p. p.user_id) (λ p. true) db.user_permissions) ids groups)
      × ((groups : List (List Contact)) × (contacts_by_user_id ids db ≡ ok (groups, db))
          × Each
              (IsRowsOf (λ c. c.source_user_id) (λ c. is_none c.removed_at) db.contacts)
              ids
              groups)
      × ((groups : List (List WorkspaceMember)) × (workspace_members_by_workspace_id ids db
            ≡ ok (groups, db))
          × Each
              (IsRowsOf (λ m. m.workspace_id) (λ m. is_none m.removed_at) db.workspace_members)
              ids
              groups)
      × ((groups : List (List WorkspaceInvite)) × (workspace_invites_by_workspace_id ids db
            ≡ ok (groups, db))
          × Each (IsRowsOf (λ i. i.workspace_id) is_pending_invite db.workspace_invites) ids groups)
  unfolding user_permissions_by_user_id contacts_by_user_id workspace_members_by_workspace_id
      workspace_invites_by_workspace_id
  group_loaders-Each = (
    load_groups-Each Delegate.user_permission (λ p. p.user_id) db (λ p. true) ids,
    load_groups-Each Delegate.contact (λ c. c.source_user_id) db (λ c. is_none c.removed_at) ids,
    load_groups-Each Delegate.workspace_member (λ m. m.workspace_id) db (λ m. is_none m.removed_at)
        ids,
    load_groups-Each Delegate.workspace_invite (λ i. i.workspace_id) db is_pending_invite ids,
  )

  -- A loader of rows answers a batch without an error and changes nothing: its answers are, in the
  -- order of the keys, the row with that id, or null if the table has none.
  pub row_loaders-Each :
      ((found : List (Option Item)) × (item_by_id ids db ≡ ok (found, db))
        × Each (IsRowOf (λ i. i.id) db.items) ids found)
      × ((found : List (Option Tag)) × (tag_by_id ids db ≡ ok (found, db))
          × Each (IsRowOf (λ t. t.id) db.tags) ids found)
      × ((found : List (Option User)) × (user_by_user_id ids db ≡ ok (found, db))
          × Each (IsRowOf (λ u. u.id) db.users) ids found)
      × ((found : List (Option Invite)) × (invite_by_invite_id ids db ≡ ok (found, db))
          × Each (IsRowOf (λ i. i.id) db.invites) ids found)
      × ((found : List (Option WorkspaceInvite)) × (workspace_invite_by_invite_id ids db
            ≡ ok (found, db))
          × Each (IsRowOf (λ i. i.id) db.workspace_invites) ids found)
  unfolding item_by_id tag_by_id user_by_user_id invite_by_invite_id workspace_invite_by_invite_id
  row_loaders-Each = (
    load_rows-Each Delegate.item (λ i. i.id) db ids,
    load_rows-Each Delegate.tag (λ t. t.id) db ids,
    load_sorted-Each Delegate.user (λ u. u.id) db ids,
    load_sorted-Each Delegate.invite (λ i. i.id) db ids,
    load_sorted-Each Delegate.workspace_invite (λ i. i.id) db ids,
  )
