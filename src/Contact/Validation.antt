-- ===== src/Contact/Validation.antt =====
-- src/contact/invite-validation.service.ts, user-block-validation.service.ts and
-- contact-validation.service.ts
use cost_x.Base.{ℕ, Bool, false, not, ◌||◌, Option, none, some, ◌==◌, is_some, ltb}
use cost_x.Prisma.{Prisma}
use cost_x.Schema.{Invite, is_pending, Contact, User, UserBlock}
use cost_x.Transaction.{
  M, pure, or_throw, throw_if, inviter_already_send_invite, invitee_already_send_invite,
  contact_already_exists, invitee_blocked_inviter, inviter_blocked_invitee, invite_not_found,
  improper_invite_status, self_block_forbidden, blocked_user_not_found, user_is_already_blocked,
  user_is_not_blocked, contact_already_removed, ◌>>=◌, ◌>>◌,
}
use cost_x.Delegate
use cost_x.Delegate.{find}
use cost_x.Contact.Where.{is_active_block}
use cost_x.Contact.Contacts.{is_contact_exists}
use cost_x.Contact.Blocks.{is_user_block_exists}
use cost_x.Contact.Invites.{is_invite_exists}

-- `validateInviteIsInStatus` with the status `PENDING`, which every caller gives.
abbrev pub validate_invite_is_pending : Invite → M (Unit {0})
validate_invite_is_pending invite = throw_if (not (is_pending invite.status)) improper_invite_status

module _ ⦃prisma : Prisma⦄ where
  unfoldable pub validate_invite_not_exists : ℕ → ℕ → M (Unit {0})
  validate_invite_not_exists inviter invitee = do
    exists ← is_invite_exists inviter invitee
    throw_if exists inviter_already_send_invite

  unfoldable pub validate_reverse_invite_not_exists : ℕ → ℕ → M (Unit {0})
  validate_reverse_invite_not_exists inviter invitee = do
    exists ← is_invite_exists invitee inviter
    throw_if exists invitee_already_send_invite

  unfoldable pub validate_invite_exists : ℕ → M Invite
  validate_invite_exists invite_id = do
    found ← find Delegate.invite (λ i. i.id == invite_id)
    or_throw invite_not_found found

  unfoldable pub validate_contact_not_exists : ℕ → ℕ → M (Unit {0})
  validate_contact_not_exists inviter invitee = do
    exists ← is_contact_exists inviter invitee
    throw_if exists contact_already_exists

  unfoldable pub validate_inviter_is_not_blocked : ℕ → ℕ → M (Unit {0})
  validate_inviter_is_not_blocked inviter invitee = do
    blocked ← is_user_block_exists inviter invitee
    throw_if blocked invitee_blocked_inviter

  unfoldable pub validate_invitee_is_not_blocked : ℕ → ℕ → M (Unit {0})
  validate_invitee_is_not_blocked inviter invitee = do
    blocked ← is_user_block_exists invitee inviter
    throw_if blocked inviter_blocked_invitee

  unfoldable pub validate_create_invite : ℕ → ℕ → M (Unit {0})
  validate_create_invite inviter invitee = do
    validate_invite_not_exists inviter invitee
    validate_reverse_invite_not_exists inviter invitee
    validate_contact_not_exists inviter invitee
    validate_inviter_is_not_blocked inviter invitee
    validate_invitee_is_not_blocked inviter invitee

  -- `validateAcceptInvite`, `validateRejectInvite` and `validateRejectInviteAndBlockUser` have the
  -- same body.
  unfoldable pub validate_reaction : ℕ → M (Unit {0})
  validate_reaction invite_id = do
    invite ← validate_invite_exists invite_id
    validate_invite_is_pending invite
    validate_contact_not_exists invite.inviter_id invite.invitee_id
    validate_inviter_is_not_blocked invite.inviter_id invite.invitee_id
    validate_invitee_is_not_blocked invite.inviter_id invite.invitee_id

  unfoldable pub validate_blocked_user_exists : ℕ → M User
  validate_blocked_user_exists user_id = do
    found ← find Delegate.user (λ u. u.id == user_id)
    or_throw blocked_user_not_found found

  unfoldable pub validate_user_block_exists : ℕ → ℕ → M UserBlock
  validate_user_block_exists blocker blocked = do
    found ← find Delegate.user_block (is_active_block blocked blocker)
    or_throw user_is_not_blocked found

  unfoldable pub validate_no_user_block_exists : ℕ → ℕ → M (Unit {0})
  validate_no_user_block_exists blocker blocked = do
    found ← find Delegate.user_block (is_active_block blocked blocker)
    throw_if (is_some found) user_is_already_blocked

  unfoldable pub validate_create_user_block : ℕ → ℕ → M (Unit {0})
  validate_create_user_block blocker blocked = do
    throw_if (blocker == blocked) self_block_forbidden
    validate_blocked_user_exists blocked
    validate_no_user_block_exists blocker blocked

  unfoldable pub validate_remove_user_block : ℕ → ℕ → M (Unit {0})
  validate_remove_user_block blocker blocked = do
    throw_if (blocker == blocked) self_block_forbidden
    validate_user_block_exists blocker blocked
    pure tt

-- A number that a test of JavaScript takes for true.
abbrev pub is_truthy : Option ℕ → Bool
is_truthy none = false
is_truthy (some n) = ltb 0 n

-- `contact.removedAt || contact.removedByUserId`; a date is always truthy.
abbrev pub validate_delete_contact : Contact → M (Unit {0})
validate_delete_contact contact =
    throw_if (is_some contact.removed_at || is_truthy contact.removed_by_user_id)
      contact_already_removed
