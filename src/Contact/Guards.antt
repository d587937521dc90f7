-- ===== src/Contact/Guards.antt =====
-- What the tables hold when a validation of src/contact lets a call pass. It reads only.
use cost_x.Base.{ℕ, ◌≡◌, true, some, arith, count, ◌==◌}
use cost_x.Prisma.{Prisma}
use cost_x.Schema.{Invite, is_pending, Db}
use cost_x.Transaction.{ok, through}
use cost_x.Contact.Where.{is_active_contact, is_active_block}
use cost_x.Contact.Contacts.{is_contact_exists}
use cost_x.Contact.Blocks.{is_user_block_exists}
use cost_x.Contact.Validation.{
  validate_invite_is_pending, validate_invite_exists, validate_contact_not_exists,
  validate_inviter_is_not_blocked, validate_invitee_is_not_blocked, validate_reaction,
}

module _ ⦃prisma : Prisma⦄ where
  contact_not_exists :
      (a b : ℕ) (db : Db) {db' : Db}
      → validate_contact_not_exists a b db ≡ ok (tt, db')
      → (db' ≡ db) × (count (is_active_contact a b) db.contacts ≡ 0)
  unfolding validate_contact_not_exists is_contact_exists
  contact_not_exists a b db h =
      ground (arith, prisma.count_rows_lem (is_active_contact a b) db.contacts)

  inviter_is_not_blocked :
      (a b : ℕ) (db : Db) {db' : Db}
      → validate_inviter_is_not_blocked a b db ≡ ok (tt, db')
      → (db' ≡ db) × (count (is_active_block a b) db.user_blocks ≡ 0)
  unfolding validate_inviter_is_not_blocked is_user_block_exists
  inviter_is_not_blocked a b db h =
      ground (arith, prisma.count_rows_lem (is_active_block a b) db.user_blocks)

  invitee_is_not_blocked :
      (a b : ℕ) (db : Db) {db' : Db}
      → validate_invitee_is_not_blocked a b db ≡ ok (tt, db')
      → (db' ≡ db) × (count (is_active_block b a) db.user_blocks ≡ 0)
  unfolding validate_invitee_is_not_blocked is_user_block_exists
  invitee_is_not_blocked a b db h =
      ground (arith, prisma.count_rows_lem (is_active_block b a) db.user_blocks)

-- An invite that may be reacted to: it is stored and pending, there is no contact yet, and neither
-- user has blocked the other.
pub record IsOpen ⦃prisma : Prisma⦄ (invite_id : ℕ) (invite : Invite) (db : Db) : Type 0 where
  pub found : prisma.find_first (λ (i : Invite). i.id == invite_id) db.invites ≡ some invite
  pub pending : is_pending invite.status ≡ true
  pub no_contact : count (is_active_contact invite.inviter_id invite.invitee_id) db.contacts ≡ 0
  pub inviter_free : count (is_active_block invite.inviter_id invite.invitee_id) db.user_blocks ≡ 0
  pub invitee_free : count (is_active_block invite.invitee_id invite.inviter_id) db.user_blocks ≡ 0

module _ ⦃prisma : Prisma⦄ where
  invite_exists :
      (invite_id : ℕ) (db : Db) {invite : Invite} {db' : Db}
      → validate_invite_exists invite_id db ≡ ok (invite, db')
      → (db' ≡ db)
        × (prisma.find_first (λ (i : Invite). i.id == invite_id) db.invites ≡ some invite)
  unfolding validate_invite_exists
  invite_exists invite_id db h = ground arith

  invite_is_pending :
      (invite : Invite) (db : Db) {db' : Db}
      → validate_invite_is_pending invite db ≡ ok (tt, db')
      → (db' ≡ db) × (is_pending invite.status ≡ true)
  invite_is_pending invite db h = ground arith

  pub reaction_is_valid :
      (invite_id : ℕ) (db : Db) {db' : Db}
      → validate_reaction invite_id db ≡ ok (tt, db')
      → (db' ≡ db) × ((invite : Invite) × IsOpen invite_id invite db)
  unfolding validate_reaction
  reaction_is_valid invite_id db h =
      through (validate_invite_exists invite_id) _ db h λ invite db1 h1 r1.
        let a = invite.inviter_id in
        let b = invite.invitee_id in
        let (e1, found) = invite_exists invite_id db h1 in
        through (validate_invite_is_pending invite) _ db1 r1 λ _ db2 h2 r2.
          let (e2, pending) = invite_is_pending invite db1 h2 in
          through (validate_contact_not_exists a b) _ db2 r2 λ _ db3 h3 r3.
            let (e3, no_contact) = contact_not_exists a b db2 h3 in
            through (validate_inviter_is_not_blocked a b) _ db3 r3 λ _ db4 h4 h5.
              let (e4, inviter_free) = inviter_is_not_blocked a b db3 h4 in
              let (e5, invitee_free) = invitee_is_not_blocked a b db4 h5 in
              (
                cc,
                (
                  invite,
                  record {
                    found = found;
                    pending = pending;
                    no_contact = cc;
                    inviter_free = cc;
                    invitee_free = cc;
                  },
                ),
              )
