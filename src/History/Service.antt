-- ===== src/History/Service.antt =====
-- src/workspace-history/workspace-history.service.ts: one method for each action. `newValue` is
-- what the row describes after the action and `oldValue` what it described before it.
use cost_x.Base.{
  ℕ, Bool, ◌&&◌, ◌==◌, is_some, Option, none, some, List, [], ◌∷◌, leb, if◌then◌else◌,
}
use cost_x.Prisma.{Prisma}
use cost_x.Schema.{
  DecimalValue, ItemStake, User, Db, Item, Payment, Tag, ItemTag, Workspace, WorkspaceInvite,
  WorkspaceMember, WorkspaceHistory, WorkspaceHistoryAction, JsonValue,
}
use cost_x.Transaction.{M, ok, err, foreign_key_violation}
use cost_x.History.Events.{StakesPayload}

-- `[...itemStakes].sort(this.byWorkspaceMemberIdAsc)`, a stable sort, with the pair of each
abbrev pub insert_stake : ItemStake → List (ℕ × DecimalValue) → List (ℕ × DecimalValue)
insert_stake s [] = (s.workspace_member_id, s.value) ∷ []
insert_stake s ((m, v) ∷ rest) =
    let later = insert_stake s rest in
    if leb s.workspace_member_id m
    then (s.workspace_member_id, s.value) ∷ (m, v) ∷ rest
    else (m, v) ∷ later

abbrev pub sort_stakes : List ItemStake → List (ℕ × DecimalValue)
sort_stakes [] = []
sort_stakes (s ∷ stakes) = insert_stake s (sort_stakes stakes)

-- `formatStakes`: one entry for each member.
abbrev pub format_stakes : Option (List ItemStake) → Option (List (ℕ × DecimalValue))
format_stakes none = none
format_stakes (some []) = none
format_stakes (some (s ∷ stakes)) = some (sort_stakes (s ∷ stakes))

abbrev pub stakes_json : StakesPayload → JsonValue
stakes_json value =
    JsonValue.stakes_changed value.item_id value.stake_rule (format_stakes value.stakes)

module _ ⦃prisma : Prisma⦄ where
  open prisma use {find_first, insert_row, next_id}

  -- `FK_workspace_history_actor_id_user_id` and `FK_workspace_history_workspace_id_workspace_id`
  abbrev pub may_record : (actor_id workspace_id : ℕ) → Db → Bool
  may_record actor_id workspace_id db =
      is_some (find_first (λ (u : User). u.id == actor_id) db.users)
      && is_some (find_first (λ (w : Workspace). w.id == workspace_id) db.workspaces)

  -- `create`
  unfoldable pub create :
      WorkspaceHistoryAction → ℕ → JsonValue → JsonValue → ℕ → M WorkspaceHistory
  create action actor_id new_value old_value workspace_id db =
      let workspace_history : WorkspaceHistory = record {
        id = next_id (λ h. h.id) db.history;
        workspace_id = workspace_id;
        actor_id = actor_id;
        action = action;
        old_value = old_value;
        new_value = new_value;
      } in
      if may_record actor_id workspace_id db
      then ok (workspace_history, record db { history = insert_row workspace_history db.history })
      else err foreign_key_violation

  unfoldable pub create_item_created :
      (workspace_id actor_id : ℕ) (item : Item) → M WorkspaceHistory
  unfolding create
  create_item_created workspace_id actor_id item =
      create WorkspaceHistoryAction.item_created actor_id (JsonValue.item item) JsonValue.null
        workspace_id

  unfoldable pub create_item_updated :
      (workspace_id actor_id : ℕ) (old_item new_item : Item) → M WorkspaceHistory
  unfolding create
  create_item_updated workspace_id actor_id old_item new_item =
      create WorkspaceHistoryAction.item_updated actor_id (JsonValue.item new_item)
        (JsonValue.item old_item) workspace_id

  unfoldable pub create_item_deleted :
      (workspace_id actor_id : ℕ) (item : Item) → M WorkspaceHistory
  unfolding create
  create_item_deleted workspace_id actor_id item =
      create WorkspaceHistoryAction.item_deleted actor_id JsonValue.null (JsonValue.item item)
        workspace_id

  unfoldable pub create_payment_deleted :
      (workspace_id actor_id : ℕ) (payment : Payment) → M WorkspaceHistory
  unfolding create
  create_payment_deleted workspace_id actor_id payment =
      create WorkspaceHistoryAction.payment_deleted actor_id JsonValue.null
        (JsonValue.payment payment) workspace_id

  unfoldable pub create_payment_updated :
      (workspace_id actor_id : ℕ) (old_payment new_payment : Payment) → M WorkspaceHistory
  unfolding create
  create_payment_updated workspace_id actor_id old_payment new_payment =
      create WorkspaceHistoryAction.payment_updated actor_id (JsonValue.payment new_payment)
        (JsonValue.payment old_payment) workspace_id

  unfoldable pub create_payment_created :
      (workspace_id actor_id : ℕ) (payment : Payment) → M WorkspaceHistory
  unfolding create
  create_payment_created workspace_id actor_id payment =
      create WorkspaceHistoryAction.payment_created actor_id (JsonValue.payment payment)
        JsonValue.null workspace_id

  unfoldable pub create_item_tag_assigned :
      (workspace_id actor_id : ℕ) (item_tag : ItemTag) → M WorkspaceHistory
  unfolding create
  create_item_tag_assigned workspace_id actor_id item_tag =
      create WorkspaceHistoryAction.item_tag_assigned actor_id (JsonValue.item_tag item_tag)
        JsonValue.null workspace_id

  unfoldable pub create_item_tag_unassigned :
      (workspace_id actor_id : ℕ) (item_tag : ItemTag) → M WorkspaceHistory
  unfolding create
  create_item_tag_unassigned workspace_id actor_id item_tag =
      create WorkspaceHistoryAction.item_tag_unassigned actor_id JsonValue.null
        (JsonValue.item_tag item_tag) workspace_id

  unfoldable pub create_workspace_created :
      (actor_id : ℕ) (workspace : Workspace) → M WorkspaceHistory
  unfolding create
  create_workspace_created actor_id workspace =
      create WorkspaceHistoryAction.workspace_created actor_id (JsonValue.workspace workspace)
        JsonValue.null workspace.id

  unfoldable pub create_workspace_updated :
      (actor_id : ℕ) (old_workspace new_workspace : Workspace) → M WorkspaceHistory
  unfolding create
  create_workspace_updated actor_id old_workspace new_workspace =
      create WorkspaceHistoryAction.workspace_updated actor_id (JsonValue.workspace new_workspace)
        (JsonValue.workspace old_workspace) new_workspace.id

  unfoldable pub create_workspace_deleted :
      (actor_id : ℕ) (workspace : Workspace) → M WorkspaceHistory
  unfolding create
  create_workspace_deleted actor_id workspace =
      create WorkspaceHistoryAction.workspace_deleted actor_id JsonValue.null
        (JsonValue.workspace workspace) workspace.id

  unfoldable pub create_tag_created : (workspace_id actor_id : ℕ) (tag : Tag) → M WorkspaceHistory
  unfolding create
  create_tag_created workspace_id actor_id tag =
      create WorkspaceHistoryAction.tag_created actor_id (JsonValue.tag tag) JsonValue.null
        workspace_id

  unfoldable pub create_tag_updated :
      (workspace_id actor_id : ℕ) (old_tag new_tag : Tag) → M WorkspaceHistory
  unfolding create
  create_tag_updated workspace_id actor_id old_tag new_tag =
      create WorkspaceHistoryAction.tag_updated actor_id (JsonValue.tag new_tag)
        (JsonValue.tag old_tag) workspace_id

  unfoldable pub create_tag_deleted : (workspace_id actor_id : ℕ) (tag : Tag) → M WorkspaceHistory
  unfolding create
  create_tag_deleted workspace_id actor_id tag =
      create WorkspaceHistoryAction.tag_deleted actor_id JsonValue.null (JsonValue.tag tag)
        workspace_id

  unfoldable pub create_item_extracted :
      (workspace_id actor_id : ℕ) (source_item extracted_item : Item) → M WorkspaceHistory
  unfolding create
  create_item_extracted workspace_id actor_id source_item extracted_item =
      create WorkspaceHistoryAction.item_extracted actor_id
        (JsonValue.extracted (some extracted_item) source_item)
        (JsonValue.extracted none source_item) workspace_id

  unfoldable pub create_workspace_invite_created :
      (workspace_id actor_id : ℕ) (invite : WorkspaceInvite) → M WorkspaceHistory
  unfolding create
  create_workspace_invite_created workspace_id actor_id invite =
      create WorkspaceHistoryAction.workspace_invite_created actor_id (JsonValue.invite invite)
        JsonValue.null workspace_id

  unfoldable pub create_workspace_invite_accepted :
      (workspace_id actor_id : ℕ) (invite : WorkspaceInvite) → M WorkspaceHistory
  unfolding create
  create_workspace_invite_accepted workspace_id actor_id invite =
      create WorkspaceHistoryAction.workspace_invite_accepted actor_id (JsonValue.invite invite)
        JsonValue.null workspace_id

  unfoldable pub create_workspace_invite_rejected :
      (workspace_id actor_id : ℕ) (invite : WorkspaceInvite) → M WorkspaceHistory
  unfolding create
  create_workspace_invite_rejected workspace_id actor_id invite =
      create WorkspaceHistoryAction.workspace_invite_rejected actor_id JsonValue.null
        (JsonValue.invite invite) workspace_id

  unfoldable pub create_workspace_member_removed :
      (workspace_id actor_id : ℕ) (member : WorkspaceMember) → M WorkspaceHistory
  unfolding create
  create_workspace_member_removed workspace_id actor_id member =
      create WorkspaceHistoryAction.workspace_member_removed actor_id JsonValue.null
        (JsonValue.member member) workspace_id

  unfoldable pub create_workspace_member_created :
      (workspace_id actor_id : ℕ) (member : WorkspaceMember) → M WorkspaceHistory
  unfolding create
  create_workspace_member_created workspace_id actor_id member =
      create WorkspaceHistoryAction.workspace_member_created actor_id (JsonValue.member member)
        JsonValue.null workspace_id

  unfoldable pub create_workspace_invite_cancelled :
      (workspace_id actor_id : ℕ) (invite : WorkspaceInvite) → M WorkspaceHistory
  unfolding create
  create_workspace_invite_cancelled workspace_id actor_id invite =
      create WorkspaceHistoryAction.workspace_invite_cancelled actor_id JsonValue.null
        (JsonValue.invite invite) workspace_id

  unfoldable pub create_item_merged :
      (workspace_id actor_id : ℕ) (host_item merging_item : Item) (result_item : Option Item)
      → M WorkspaceHistory
  unfolding create
  create_item_merged workspace_id actor_id host_item merging_item result_item =
      create WorkspaceHistoryAction.item_merged actor_id (JsonValue.merged result_item none)
        (JsonValue.merged (some host_item) (some merging_item)) workspace_id

  unfoldable pub create_item_stakes_changed :
      (workspace_id actor_id : ℕ) (old_value new_value : StakesPayload) → M WorkspaceHistory
  unfolding create
  create_item_stakes_changed workspace_id actor_id old_value new_value =
      create WorkspaceHistoryAction.item_stakes_changed actor_id (stakes_json new_value)
        (stakes_json old_value) workspace_id
