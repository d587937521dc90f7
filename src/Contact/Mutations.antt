-- ===== src/Contact/Mutations.antt =====
-- The bodies of the mutations of src/contact/resolver: validate, then act.
use cost_x.Base.{ℕ}
use cost_x.Prisma.{Prisma}
use cost_x.Schema.{Invite, Contact, UserBlock}
use cost_x.Transaction.{M, pure, ◌>>=◌, ◌>>◌}
use cost_x.Contact.Contacts.{remove_contact_pair}
use cost_x.Contact.Blocks.{block_user, remove_user_block}
use cost_x.Contact.Invites.{
  create_invite, accept_invite, reject_invite, reject_invite_and_block_user,
}
use cost_x.Contact.Validation.{
  validate_create_invite, validate_reaction, validate_create_user_block, validate_remove_user_block,
  validate_delete_contact,
}

module _ ⦃prisma : Prisma⦄ where
  unfoldable pub on_create_invite : ℕ → ℕ → ℕ → M Invite
  on_create_invite inviter invitee now = do
    validate_create_invite inviter invitee
    create_invite inviter invitee now

  unfoldable pub on_accept_invite : ℕ → ℕ → M Invite
  on_accept_invite invite_id now = do validate_reaction invite_id; accept_invite invite_id now

  unfoldable pub on_reject_invite : ℕ → ℕ → M Invite
  on_reject_invite invite_id now = do validate_reaction invite_id; reject_invite invite_id now

  unfoldable pub on_reject_invite_and_block_user : ℕ → ℕ → ℕ → M Invite
  on_reject_invite_and_block_user invite_id user_id now = do
    validate_reaction invite_id
    reject_invite_and_block_user invite_id user_id now

  unfoldable pub on_block_user : ℕ → ℕ → ℕ → ℕ → M UserBlock
  on_block_user blocker blocked user_id now = do
    validate_create_user_block blocker blocked
    block_user blocked blocker user_id now

  unfoldable pub on_unblock_user : ℕ → ℕ → ℕ → ℕ → M UserBlock
  on_unblock_user blocker blocked user_id now = do
    validate_remove_user_block blocker blocked
    remove_user_block blocked blocker user_id now

  unfoldable pub on_delete_contact : Contact → ℕ → ℕ → M Contact
  on_delete_contact contact user_id now = do
    validate_delete_contact contact
    pair ← remove_contact_pair contact user_id now
    pure pair.0
