-- ===== src/Contact/Invites.antt =====
-- src/contact/invite.service.ts
use cost_x.Base.{ℕ, Bool, none, some, ◌==◌, ltb}
use cost_x.Prisma.{Prisma}
use cost_x.Schema.{Invite, InviteStatus}
use cost_x.Transaction.{M, pure, ◌>>=◌, ◌>>◌}
use cost_x.Delegate
use cost_x.Delegate.{total, create, connect, update_one}
use cost_x.Contact.Where.{is_open_invite}
use cost_x.Contact.Contacts.{create_contact_pair}
use cost_x.Contact.Blocks.{block_user}

abbrev pub new_invite : ℕ → ℕ → ℕ → ℕ → Invite
new_invite inviter invitee now id = record {
  id = id;
  inviter_id = inviter;
  invitee_id = invitee;
  status = InviteStatus.pending;
  created_at = now;
  reacted_at = none;
}

-- `{ reactedAt: new Date(), status }`
abbrev pub reacted : InviteStatus → ℕ → Invite → Invite
reacted status now i = record i { status = status; reacted_at = some now }

module _ ⦃prisma : Prisma⦄ where
  unfoldable pub create_invite : ℕ → ℕ → ℕ → M Invite
  create_invite inviter invitee now = do
    connect Delegate.user (λ u. u.id == invitee)
    connect Delegate.user (λ u. u.id == inviter)
    create Delegate.invite (new_invite inviter invitee now)

  unfoldable pub accept_invite : ℕ → ℕ → M Invite
  accept_invite invite_id now = do
    invite ← update_one Delegate.invite (λ i. i.id == invite_id) (reacted InviteStatus.accepted now)
    create_contact_pair invite.inviter_id invite.invitee_id invite.id now
    pure invite

  unfoldable pub reject_invite : ℕ → ℕ → M Invite
  reject_invite invite_id now =
      update_one Delegate.invite (λ i. i.id == invite_id) (reacted InviteStatus.rejected now)

  unfoldable pub reject_invite_and_block_user : ℕ → ℕ → ℕ → M Invite
  reject_invite_and_block_user invite_id user_id now = do
    invite ← reject_invite invite_id now
    block_user invite.inviter_id invite.invitee_id user_id now
    pure invite

  unfoldable pub is_invite_exists : ℕ → ℕ → M Bool
  is_invite_exists inviter invitee = do
    found ← total Delegate.invite (is_open_invite inviter invitee)
    pure (ltb 0 found)
