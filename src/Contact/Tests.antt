-- ===== src/Contact/Tests.antt =====
-- Runs of the mutations of src/contact on a small database, with a client that keeps lists.
use cost_x.Base.{ℕ, ◌≡◌, refl, none, some, false, [], ◌∷◌, arith, count, ◌==◌}
use cost_x.Prisma.Client.{in_memory}
use cost_x.Schema.{UserRole, User, Invite, InviteStatus, Contact, UserBlock, Db, empty}
use cost_x.Transaction.{ok}
use cost_x.Delegate.{create}
use cost_x.Contact.Contacts.{
  create_contact, create_contact_pair, is_contact_exists, remove_contact_pair_by_user_ids,
}
use cost_x.Contact.Blocks.{is_user_block_exists, create_block, block_user}
use cost_x.Contact.Invites.{accept_invite}
use cost_x.Contact.Validation.{
  validate_reaction, validate_invite_exists, validate_contact_not_exists,
  validate_inviter_is_not_blocked, validate_invitee_is_not_blocked, validate_create_user_block,
  validate_blocked_user_exists, validate_no_user_block_exists,
}
use cost_x.Contact.Mutations.{on_accept_invite, on_block_user}
use cost_x.Contact.Invariant.{IsConsistent, Accepted, on_accept_invite-Accepted}
use cost_x.Contact.Reach.{Step, Reaches, contacts_reached-IsConsistent}
use cost_x.Contact.Blocking.{Blocks, on_accept_invite-IsConsistent, on_block_user-Blocks}

abbrev person : ℕ → User
person id = record {
  id = id;
  email = "a";
  password = "p";
  name = "n";
  role = UserRole.user;
  is_banned = false;
  confirm_email_temp_code = none;
  reset_password_temp_code = none;
}

abbrev offer : Invite
offer = record {
  id = 1;
  inviter_id = 1;
  invitee_id = 2;
  status = InviteStatus.pending;
  created_at = 5;
  reacted_at = none;
}

abbrev accepted_offer : Invite
accepted_offer = record offer { status = InviteStatus.accepted; reacted_at = some 7 }

-- Two users, and an invite that is open.
abbrev before : Db
before = record empty { users = person 1 ∷ person 2 ∷ []; invites = offer ∷ [] }

abbrev contact : ℕ → ℕ → ℕ → Contact
contact id source target = record {
  id = id;
  created_at = 7;
  source_user_id = source;
  target_user_id = target;
  invite_id = 1;
  removed_at = none;
  removed_by_user_id = none;
}

abbrev removed : Contact → Contact
removed c = record c { removed_at = some 9; removed_by_user_id = some 2 }

-- The tables when the invite has been accepted.
abbrev connected : Db
connected = record before {
  invites = accepted_offer ∷ [];
  contacts = contact 1 1 2 ∷ contact 2 2 1 ∷ [];
}

abbrev block : UserBlock
block = record {
  id = 1;
  created_at = 9;
  blocker_id = 2;
  blocked_id = 1;
  removed_at = none;
  removed_by_user_id = none;
}

-- The tables when the invitee has blocked the inviter.
abbrev blocked : Db
blocked = record connected {
  contacts = removed (contact 1 1 2) ∷ removed (contact 2 2 1) ∷ [];
  user_blocks = block ∷ [];
}

accept_run : on_accept_invite 1 7 before ≡ ok (accepted_offer, connected)
unfolding on_accept_invite validate_reaction validate_invite_exists validate_contact_not_exists
    is_contact_exists validate_inviter_is_not_blocked validate_invitee_is_not_blocked
    is_user_block_exists accept_invite create_contact_pair create_contact create count
accept_run = refl

block_run : on_block_user 2 1 2 9 connected ≡ ok (block, blocked)
unfolding on_block_user validate_create_user_block validate_blocked_user_exists
    validate_no_user_block_exists block_user create_block create remove_contact_pair_by_user_ids
block_run = refl

before-IsConsistent : IsConsistent before
unfolding count
before-IsConsistent = record {
  mutual_contacts = λ a b. refl;
  single = λ a b. omega arith;
  apart = λ a b h. refl;
}

connected-IsConsistent : IsConsistent connected
connected-IsConsistent = on_accept_invite-IsConsistent 1 7 before accept_run before-IsConsistent

on_accept_invite-Accepted_example : Accepted 1 7 accepted_offer before connected
on_accept_invite-Accepted_example = on_accept_invite-Accepted 1 7 before accept_run

on_block_user-Blocks_example : ((2 == 1) ≡ false) × Blocks 1 2 connected blocked
on_block_user-Blocks_example = on_block_user-Blocks 2 1 2 9 connected block_run

-- The invite is accepted, then the invitee blocks the inviter.
contacts_reached-IsConsistent_example : IsConsistent blocked
contacts_reached-IsConsistent_example =
    contacts_reached-IsConsistent
      (Reaches.next (Reaches.next Reaches.start (Step.accepts 1 7 accepted_offer accept_run))
        (Step.blocks 2 1 2 9 block block_run))
      before-IsConsistent
