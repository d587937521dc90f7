-- ===== src/Delegate/Models.antt =====
-- The models of prisma/schema.prisma: where a table stands in the state, its id, and which rows its
-- `@unique` and `@@unique` keys let stand side by side. A key with `where: { … null }` binds only
-- the rows whose column is null.
use text.Mathlib.Text.{◌==◌ as str_eq}
use cost_x.Base.{ℕ, Bool, false, ◌&&◌, ◌||◌, Option, some, List, ◌==◌, is_none}
use cost_x.Schema.{
  is_permission, is_workspace_permission, User, UserPermission, Workspace, WorkspaceMember,
  WorkspaceInvite, UserWorkspacePermission, Invite, Contact, UserBlock, Item, Payment, Tag, ItemTag,
  ItemStake, CurrencyRate, Db,
}

pub record Model (Row : Type 0) : Type 0 where
  pub rows : Db → List Row
  pub put : List Row → Db → Db
  pub id : Row → ℕ
  -- Two rows that agree on a unique key.
  pub clashes : Row → Row → Bool

-- `inviteId Int? @unique`
abbrev same_invite : Option ℕ → Option ℕ → Bool
same_invite (some a) (some b) = a == b
same_invite _ _ = false

abbrev pub workspace_member_clash : WorkspaceMember → WorkspaceMember → Bool
workspace_member_clash a b =
    (is_none a.removed_at
      && is_none b.removed_at
      && a.workspace_id == b.workspace_id
      && a.user_id == b.user_id)
    || same_invite a.invite_id b.invite_id

abbrev pub workspace_invite_clash : WorkspaceInvite → WorkspaceInvite → Bool
workspace_invite_clash a b =
    is_none a.reacted_at
    && is_none b.reacted_at
    && a.workspace_id == b.workspace_id
    && a.invitee_id == b.invitee_id

abbrev pub invite_clash : Invite → Invite → Bool
invite_clash a b =
    is_none a.reacted_at
    && is_none b.reacted_at
    && a.inviter_id == b.inviter_id
    && a.invitee_id == b.invitee_id

abbrev pub contact_clash : Contact → Contact → Bool
contact_clash a b =
    is_none a.removed_at
    && is_none b.removed_at
    && a.source_user_id == b.source_user_id
    && a.target_user_id == b.target_user_id

abbrev pub user_block_clash : UserBlock → UserBlock → Bool
user_block_clash a b =
    is_none a.removed_at
    && is_none b.removed_at
    && a.blocker_id == b.blocker_id
    && a.blocked_id == b.blocked_id

abbrev pub user : Model User
user = record {
  rows = λ db. db.users;
  put = λ rows db. record db { users = rows };
  id = λ r. r.id;
  clashes = λ a b. str_eq a.email b.email;
}

abbrev pub user_permission : Model UserPermission
user_permission = record {
  rows = λ db. db.user_permissions;
  put = λ rows db. record db { user_permissions = rows };
  id = λ r. r.id;
  clashes = λ a b. a.user_id == b.user_id && is_permission a.permission b.permission;
}

abbrev pub workspace : Model Workspace
workspace = record {
  rows = λ db. db.workspaces;
  put = λ rows db. record db { workspaces = rows };
  id = λ r. r.id;
  clashes = λ a b. false;
}

abbrev pub workspace_member : Model WorkspaceMember
workspace_member = record {
  rows = λ db. db.workspace_members;
  put = λ rows db. record db { workspace_members = rows };
  id = λ r. r.id;
  clashes = workspace_member_clash;
}

abbrev pub workspace_invite : Model WorkspaceInvite
workspace_invite = record {
  rows = λ db. db.workspace_invites;
  put = λ rows db. record db { workspace_invites = rows };
  id = λ r. r.id;
  clashes = workspace_invite_clash;
}

abbrev pub user_workspace_permission : Model UserWorkspacePermission
user_workspace_permission = record {
  rows = λ db. db.workspace_permissions;
  put = λ rows db. record db { workspace_permissions = rows };
  id = λ r. r.id;
  clashes = λ a b.
      a.user_id == b.user_id
      && a.workspace_id == b.workspace_id
      && is_workspace_permission a.permission b.permission;
}

abbrev pub invite : Model Invite
invite = record {
  rows = λ db. db.invites;
  put = λ rows db. record db { invites = rows };
  id = λ r. r.id;
  clashes = invite_clash;
}

abbrev pub contact : Model Contact
contact = record {
  rows = λ db. db.contacts;
  put = λ rows db. record db { contacts = rows };
  id = λ r. r.id;
  clashes = contact_clash;
}

abbrev pub user_block : Model UserBlock
user_block = record {
  rows = λ db. db.user_blocks;
  put = λ rows db. record db { user_blocks = rows };
  id = λ r. r.id;
  clashes = user_block_clash;
}

abbrev pub item : Model Item
item = record {
  rows = λ db. db.items;
  put = λ rows db. record db { items = rows };
  id = λ r. r.id;
  clashes = λ a b. false;
}

abbrev pub payment : Model Payment
payment = record {
  rows = λ db. db.payments;
  put = λ rows db. record db { payments = rows };
  id = λ r. r.id;
  clashes = λ a b. false;
}

abbrev pub tag : Model Tag
tag = record {
  rows = λ db. db.tags;
  put = λ rows db. record db { tags = rows };
  id = λ r. r.id;
  clashes = λ a b. false;
}

abbrev pub item_tag : Model ItemTag
item_tag = record {
  rows = λ db. db.item_tags;
  put = λ rows db. record db { item_tags = rows };
  id = λ r. r.id;
  clashes = λ a b. a.item_id == b.item_id && a.tag_id == b.tag_id;
}

abbrev pub item_stake : Model ItemStake
item_stake = record {
  rows = λ db. db.item_stakes;
  put = λ rows db. record db { item_stakes = rows };
  id = λ r. r.id;
  clashes = λ a b. a.item_id == b.item_id && a.workspace_member_id == b.workspace_member_id;
}

abbrev pub currency_rate : Model CurrencyRate
currency_rate = record {
  rows = λ db. db.currency_rates;
  put = λ rows db. record db { currency_rates = rows };
  id = λ r. r.id;
  clashes = λ a b. false;
}
