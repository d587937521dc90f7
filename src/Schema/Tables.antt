-- ===== src/Schema/Tables.antt =====
-- The state that the services share: the tables of one database.
use cost_x.Base.{List, []}
use cost_x.Schema.Rows.{
  User, UserPermission, Workspace, WorkspaceMember, WorkspaceInvite, UserWorkspacePermission,
  Invite, Contact, UserBlock, Item, Payment, Tag, ItemTag, ItemStake, CurrencyRate,
  WorkspaceHistory,
}

pub record Db : Type 0 where
  pub users : List User
  pub user_permissions : List UserPermission
  pub workspaces : List Workspace
  pub workspace_members : List WorkspaceMember
  pub workspace_invites : List WorkspaceInvite
  pub workspace_permissions : List UserWorkspacePermission
  pub invites : List Invite
  pub contacts : List Contact
  pub user_blocks : List UserBlock
  pub items : List Item
  pub payments : List Payment
  pub tags : List Tag
  pub item_tags : List ItemTag
  pub item_stakes : List ItemStake
  pub currency_rates : List CurrencyRate
  pub history : List WorkspaceHistory

abbrev pub empty : Db
empty = record {
  users = [];
  user_permissions = [];
  workspaces = [];
  workspace_members = [];
  workspace_invites = [];
  workspace_permissions = [];
  invites = [];
  contacts = [];
  user_blocks = [];
  items = [];
  payments = [];
  tags = [];
  item_tags = [];
  item_stakes = [];
  currency_rates = [];
  history = [];
}
