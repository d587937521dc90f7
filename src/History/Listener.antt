-- ===== src/History/Listener.antt =====
-- src/workspace-history/workspace-history-event-listener.service.ts: the method that is registered
-- for each event.
use cost_x.Prisma.{Prisma}
use cost_x.Schema.{WorkspaceHistory}
use cost_x.Transaction.{M}
use cost_x.History.Events.{Event}
use cost_x.History.Service.{
  create_item_created, create_item_updated, create_item_deleted, create_payment_deleted,
  create_payment_updated, create_payment_created, create_item_tag_assigned,
  create_item_tag_unassigned, create_item_extracted, create_item_merged, create_tag_created,
  create_tag_updated, create_tag_deleted, create_workspace_created, create_workspace_updated,
  create_workspace_deleted, create_workspace_invite_created, create_workspace_invite_accepted,
  create_workspace_invite_rejected, create_workspace_member_created,
  create_workspace_member_removed, create_workspace_invite_cancelled, create_item_stakes_changed,
}

module _ ⦃prisma : Prisma⦄ where
  unfoldable pub on_event : Event → M WorkspaceHistory
  unfolding create_item_created create_item_updated create_item_deleted create_payment_deleted
      create_payment_updated create_payment_created create_item_tag_assigned
      create_item_tag_unassigned create_item_extracted create_item_merged create_tag_created
      create_tag_updated create_tag_deleted create_workspace_created create_workspace_updated
      create_workspace_deleted create_workspace_invite_created create_workspace_invite_accepted
      create_workspace_invite_rejected create_workspace_member_created
      create_workspace_member_removed create_workspace_invite_cancelled create_item_stakes_changed
  on_event (Event.item_created w u i) = create_item_created w u i
  on_event (Event.item_updated w u a b) = create_item_updated w u a b
  on_event (Event.item_deleted w u i) = create_item_deleted w u i
  on_event (Event.payment_deleted w u p) = create_payment_deleted w u p
  on_event (Event.payment_updated w u a b) = create_payment_updated w u a b
  on_event (Event.payment_created w u p) = create_payment_created w u p
  on_event (Event.item_tag_assigned w u t) = create_item_tag_assigned w u t
  on_event (Event.item_tag_unassigned w u t) = create_item_tag_unassigned w u t
  on_event (Event.item_extracted w u a b) = create_item_extracted w u a b
  on_event (Event.item_merged w u a b c) = create_item_merged w u a b c
  on_event (Event.tag_created w u t) = create_tag_created w u t
  on_event (Event.tag_updated w u a b) = create_tag_updated w u a b
  on_event (Event.tag_deleted w u t) = create_tag_deleted w u t
  on_event (Event.workspace_created u x) = create_workspace_created u x
  on_event (Event.workspace_updated u a b) = create_workspace_updated u a b
  on_event (Event.workspace_deleted u x) = create_workspace_deleted u x
  on_event (Event.workspace_invite_created w u i) = create_workspace_invite_created w u i
  on_event (Event.workspace_invite_accepted w u i) = create_workspace_invite_accepted w u i
  on_event (Event.workspace_invite_rejected w u i) = create_workspace_invite_rejected w u i
  on_event (Event.workspace_member_created w u m) = create_workspace_member_created w u m
  on_event (Event.workspace_member_removed w u m) = create_workspace_member_removed w u m
  on_event (Event.workspace_invite_cancelled w u i) = create_workspace_invite_cancelled w u i
  on_event (Event.item_stakes_changed w u a b) = create_item_stakes_changed w u a b
