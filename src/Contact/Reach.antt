-- ===== src/Contact/Reach.antt =====
-- What the mutations of src/contact on invites and blocks do one after the other, by anybody and in
-- any order.
use cost_x.Base.{ℕ, ◌≡◌, arith, count_mono, if◌then◌else◌}
use cost_x.Prisma.{Prisma}
use cost_x.Schema.{Invite, UserBlock, Db}
use cost_x.Transaction.{ok, through}
use cost_x.Delegate.{create}
use cost_x.Contact.Where.{is_active_block}
use cost_x.Contact.Contacts.{is_contact_exists}
use cost_x.Contact.Blocks.{remove_user_block, removed_block, is_user_block_exists, block_user}
use cost_x.Contact.Invites.{
  create_invite, reject_invite, reject_invite_and_block_user, is_invite_exists,
}
use cost_x.Contact.Validation.{
  validate_create_invite, validate_reaction, validate_remove_user_block, validate_user_block_exists,
  validate_invite_not_exists, validate_reverse_invite_not_exists, validate_contact_not_exists,
  validate_inviter_is_not_blocked, validate_invitee_is_not_blocked,
}
use cost_x.Contact.Mutations.{
  on_create_invite, on_accept_invite, on_reject_invite, on_reject_invite_and_block_user,
  on_block_user, on_unblock_user,
}
use cost_x.Contact.Guards.{reaction_is_valid}
use cost_x.Contact.Invariant.{IsConsistent}
use cost_x.Contact.Blocking.{
  block_user-Blocks, Blocks-IsConsistent, on_accept_invite-IsConsistent, on_block_user-IsConsistent,
}

-- Contacts and blocks are as before.
abbrev pub Keeps : Db → Db → Type 0
Keeps db db' = (db'.contacts ≡ db.contacts) × (db'.user_blocks ≡ db.user_blocks)

Keeps-IsConsistent : {db db' : Db} → Keeps db db' → IsConsistent db → IsConsistent db'
Keeps-IsConsistent (contacts, blocks) c = record {
  mutual_contacts = rw (contacts) c.mutual_contacts;
  single = rw (contacts) c.single;
  apart = λ a b active. rw (contacts) (c.apart a b (rw (blocks) at active));
}

module _ ⦃prisma : Prisma⦄ where
  create_is_valid :
      (inviter invitee : ℕ) (db : Db) {db' : Db}
      → validate_create_invite inviter invitee db ≡ ok (tt, db')
      → db' ≡ db
  unfolding validate_create_invite validate_invite_not_exists validate_reverse_invite_not_exists
      validate_contact_not_exists validate_inviter_is_not_blocked validate_invitee_is_not_blocked
      is_invite_exists is_contact_exists is_user_block_exists
  create_is_valid inviter invitee db h = ground arith

  create-Keeps :
      (inviter invitee now : ℕ) (db : Db) {invite : Invite} {db' : Db}
      → on_create_invite inviter invitee now db ≡ ok (invite, db')
      → Keeps db db'
  unfolding on_create_invite create_invite create
  create-Keeps inviter invitee now db h =
      through (validate_create_invite inviter invitee) _ db h λ _ db1 valid rest.
        let same = create_is_valid inviter invitee db valid in (ground arith, ground arith)

  reject-Keeps :
      (invite_id now : ℕ) (db : Db) {invite : Invite} {db' : Db}
      → reject_invite invite_id now db ≡ ok (invite, db')
      → Keeps db db'
  unfolding reject_invite
  reject-Keeps invite_id now db h = (ground arith, ground arith)

  on_reject-Keeps :
      (invite_id now : ℕ) (db : Db) {invite : Invite} {db' : Db}
      → on_reject_invite invite_id now db ≡ ok (invite, db')
      → Keeps db db'
  unfolding on_reject_invite
  on_reject-Keeps invite_id now db h =
      through (validate_reaction invite_id) _ db h λ _ db1 valid rest.
        let same = (reaction_is_valid invite_id db valid).0 in
        reject-Keeps invite_id now db (rw (same) at rest)

  -- Rejecting an invite and blocking its inviter keeps the invariant.
  pub on_reject_invite_and_block_user-IsConsistent :
      (invite_id user_id now : ℕ) (db : Db) {invite : Invite} {db' : Db}
      → on_reject_invite_and_block_user invite_id user_id now db ≡ ok (invite, db')
      → IsConsistent db
      → IsConsistent db'
  unfolding on_reject_invite_and_block_user reject_invite_and_block_user
  on_reject_invite_and_block_user-IsConsistent invite_id user_id now db {invite} {db'} h c =
      through (validate_reaction invite_id) _ db h λ _ db1 valid rest.
        let same = (reaction_is_valid invite_id db valid).0 in
        through (reject_invite invite_id now) _ db1 rest λ rejected db2 h2 rest2.
          through (block_user rejected.inviter_id rejected.invitee_id user_id now) _ db2 rest2
            λ block db3 h3 last.
              let e : db' ≡ db3 = cc in
              rw (e) (
                Blocks-IsConsistent
                  (block_user-Blocks rejected.inviter_id rejected.invitee_id user_id now db2 h3)
                  (Keeps-IsConsistent (reject-Keeps invite_id now db (rw (same) at h2)) c))

  unblocked :
      (blocked blocker user_id now : ℕ) (db : Db) {block : UserBlock} {db' : Db}
      → remove_user_block blocked blocker user_id now db ≡ ok (block, db')
      → db' ≡ record db {
        user_blocks =
            prisma.update_rows
              (is_active_block blocked blocker)
              (removed_block user_id now)
              db.user_blocks;
      }
  unfolding remove_user_block
  unblocked blocked blocker user_id now db h = ground arith

  -- Taking a block away keeps the invariant.
  pub on_unblock_user-IsConsistent :
      (blocker blocked user_id now : ℕ) (db : Db) {block : UserBlock} {db' : Db}
      → on_unblock_user blocker blocked user_id now db ≡ ok (block, db')
      → IsConsistent db
      → IsConsistent db'
  unfolding on_unblock_user validate_remove_user_block validate_user_block_exists
  on_unblock_user-IsConsistent blocker blocked user_id now db {block} {db'} h c =
      through (validate_remove_user_block blocker blocked) _ db h λ _ db1 valid rest.
        let same : db1 ≡ db = ground arith in
        let last = unblocked blocked blocker user_id now db (rw (same) at rest) in
        let w = is_active_block blocked blocker in
        let f = removed_block user_id now in
        rw (last) (record {
          mutual_contacts = c.mutual_contacts;
          single = c.single;
          apart = λ x y active. c.apart x y (
              omega (
                arith,
                active,
                prisma.count-update_rows (is_active_block x y) w f db.user_blocks,
                count_mono (λ b. is_active_block x y (if w b then f b else b)) (is_active_block x y)
                    db.user_blocks (λ b h. ground arith),
              ));
        })

  -- One mutation that has come through.
  pub data Step : Db → Db → Type 0 where
    invites :
        {db db' : Db} (inviter invitee now : ℕ) (invite : Invite)
        → on_create_invite inviter invitee now db ≡ ok (invite, db')
        → Step db db'
    accepts :
        {db db' : Db} (invite_id now : ℕ) (invite : Invite)
        → on_accept_invite invite_id now db ≡ ok (invite, db')
        → Step db db'
    rejects :
        {db db' : Db} (invite_id now : ℕ) (invite : Invite)
        → on_reject_invite invite_id now db ≡ ok (invite, db')
        → Step db db'
    rejects_and_blocks :
        {db db' : Db} (invite_id user_id now : ℕ) (invite : Invite)
        → on_reject_invite_and_block_user invite_id user_id now db ≡ ok (invite, db')
        → Step db db'
    blocks :
        {db db' : Db} (blocker blocked user_id now : ℕ) (block : UserBlock)
        → on_block_user blocker blocked user_id now db ≡ ok (block, db')
        → Step db db'
    unblocks :
        {db db' : Db} (blocker blocked user_id now : ℕ) (block : UserBlock)
        → on_unblock_user blocker blocked user_id now db ≡ ok (block, db')
        → Step db db'

  -- Mutations one after the other.
  pub data Reaches : Db → Db → Type 0 where
    start : {db : Db} → Reaches db db
    next : {a b c : Db} → Reaches a b → Step b c → Reaches a c

  Step-IsConsistent : {db db' : Db} → Step db db' → IsConsistent db → IsConsistent db'
  Step-IsConsistent {db} (invites inviter invitee now invite h) =
      Keeps-IsConsistent (create-Keeps inviter invitee now db h)
  Step-IsConsistent {db} (accepts invite_id now invite h) =
      on_accept_invite-IsConsistent invite_id now db h
  Step-IsConsistent {db} (rejects invite_id now invite h) =
      Keeps-IsConsistent (on_reject-Keeps invite_id now db h)
  Step-IsConsistent {db} (rejects_and_blocks invite_id user_id now invite h) =
      on_reject_invite_and_block_user-IsConsistent invite_id user_id now db h
  Step-IsConsistent {db} (blocks blocker blocked user_id now block h) =
      on_block_user-IsConsistent blocker blocked user_id now db h
  Step-IsConsistent {db} (unblocks blocker blocked user_id now block h) =
      on_unblock_user-IsConsistent blocker blocked user_id now db h

  -- However invites are made, accepted and rejected, and users blocked and unblocked: from
  -- consistent tables only consistent tables are reached, so that contacts stay mutual and single
  -- and nobody is a contact of a user whom he blocks.
  pub contacts_reached-IsConsistent :
      {db db' : Db} → Reaches db db' → IsConsistent db → IsConsistent db'
  contacts_reached-IsConsistent start c = c
  contacts_reached-IsConsistent (next before step) c =
      Step-IsConsistent step (contacts_reached-IsConsistent before c)
