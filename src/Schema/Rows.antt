-- ===== src/Schema/Rows.antt =====
-- The rows of the tables, field by field as `prisma/schema.prisma` and the entities declare them,
-- but for the times that the database fills in and nobody reads here (`createdAt`, `updatedAt`,
-- `grantedAt` where no service sets them) and the fields that other tables resolve.
use cost_x.Base.{ℕ, Bool, Option, List, String}
use cost_x.Schema.Enums.{
  UserRole, Permission, WorkspacePermission, Currency, StakeRule, InviteStatus,
  WorkspaceInviteStatus, WorkspaceHistoryAction,
}

pub record User : Type 0 where
  pub id : ℕ
  pub email : String
  pub password : String
  pub name : String
  pub role : UserRole
  pub is_banned : Bool
  pub confirm_email_temp_code : Option String
  pub reset_password_temp_code : Option String

pub record UserPermission : Type 0 where
  pub id : ℕ
  pub user_id : ℕ
  pub permission : Permission

pub record Workspace : Type 0 where
  pub id : ℕ
  pub title : String
  pub owner_id : ℕ
  pub default_currency : Currency
  pub stake_rule : StakeRule

pub record WorkspaceMember : Type 0 where
  pub id : ℕ
  pub workspace_id : ℕ
  pub user_id : ℕ
  pub invite_id : Option ℕ
  pub joined_at : ℕ
  pub removed_at : Option ℕ
  pub removed_by_user_id : Option ℕ

pub record WorkspaceInvite : Type 0 where
  pub id : ℕ
  pub workspace_id : ℕ
  pub inviter_id : ℕ
  pub invitee_id : ℕ
  pub status : WorkspaceInviteStatus
  pub permissions : List WorkspacePermission
  pub created_at : ℕ
  pub reacted_at : Option ℕ

pub record UserWorkspacePermission : Type 0 where
  pub id : ℕ
  pub user_id : ℕ
  pub workspace_id : ℕ
  pub permission : WorkspacePermission

pub record Invite : Type 0 where
  pub id : ℕ
  pub inviter_id : ℕ
  pub invitee_id : ℕ
  pub status : InviteStatus
  pub created_at : ℕ
  pub reacted_at : Option ℕ

pub record Contact : Type 0 where
  pub id : ℕ
  pub created_at : ℕ
  pub source_user_id : ℕ
  pub target_user_id : ℕ
  pub invite_id : ℕ
  pub removed_at : Option ℕ
  pub removed_by_user_id : Option ℕ

pub record UserBlock : Type 0 where
  pub id : ℕ
  pub created_at : ℕ
  pub blocker_id : ℕ
  pub blocked_id : ℕ
  pub removed_at : Option ℕ
  pub removed_by_user_id : Option ℕ

pub record Item : Type 0 where
  pub id : ℕ
  pub title : String
  pub workspace_id : ℕ
  pub stake_rule : Option StakeRule

-- A decimal number, as the column stores it: a sign, the digits and where the point stands.
pub record DecimalValue : Type 0 where
  pub negative : Bool
  pub digits : ℕ
  pub scale : ℕ

pub record Payment : Type 0 where
  pub id : ℕ
  pub cost : DecimalValue
  pub item_id : ℕ
  pub date : ℕ
  pub title : Option String
  pub currency : Currency
  pub payer_id : ℕ

pub record Tag : Type 0 where
  pub id : ℕ
  pub title : String
  pub color : String
  pub workspace_id : ℕ

pub record ItemTag : Type 0 where
  pub id : ℕ
  pub item_id : ℕ
  pub tag_id : ℕ

pub record ItemStake : Type 0 where
  pub id : ℕ
  pub item_id : ℕ
  pub workspace_member_id : ℕ
  pub value : DecimalValue

pub record CurrencyRate : Type 0 where
  pub id : ℕ
  pub date : ℕ
  pub rate : DecimalValue
  pub from_currency : Currency
  pub to_currency : Currency

-- What a `Json` column of the history holds: a row, or the object literals of the history service.
pub data JsonValue : Type 0 where
  null : JsonValue
  item : Item → JsonValue
  payment : Payment → JsonValue
  tag : Tag → JsonValue
  item_tag : ItemTag → JsonValue
  workspace : Workspace → JsonValue
  invite : WorkspaceInvite → JsonValue
  member : WorkspaceMember → JsonValue
  -- `{ extractedItem, sourceItem }`
  extracted : Option Item → Item → JsonValue
  -- `{ hostItem, mergingItem }`
  merged : Option Item → Option Item → JsonValue
  -- `{ itemId, stakeRule, stakes }`, the stakes as a string with the value of each member
  stakes_changed : ℕ → Option StakeRule → Option (List (ℕ × DecimalValue)) → JsonValue

pub record WorkspaceHistory : Type 0 where
  pub id : ℕ
  pub workspace_id : ℕ
  pub actor_id : ℕ
  pub action : WorkspaceHistoryAction
  pub old_value : JsonValue
  pub new_value : JsonValue
