-- ===== src/Membership/Guards.antt =====
-- What the tables hold when a guard of src/workspace-membership lets a call pass. A guard reads only.
use cost_x.Base.{ℕ, ◌≡◌, Bool, true, ◌&&◌, List, arith, count, length, length-eq-count, count_ext}
use cost_x.Prisma.{Prisma}
use cost_x.Schema.{WorkspaceInvite, WorkspaceInviteStatus, Db}
use cost_x.Transaction.{ok}
use cost_x.Membership.Where.{is_active_member, is_open_invite}
use cost_x.Membership.Validation.{
  validate_invite_is_pending, validate_invite_not_exists, validate_not_already_member,
  validate_accept_invite,
}

pub invite_is_pending :
    (invite : WorkspaceInvite) (db : Db) {db' : Db}
    → validate_invite_is_pending invite db ≡ ok (tt, db')
    → (db' ≡ db) × (invite.status ≡ WorkspaceInviteStatus.pending)
unfolding validate_invite_is_pending
invite_is_pending invite db h = ground arith

module _ ⦃prisma : Prisma⦄ where
  pub not_already_member :
      (workspace_id user_id : ℕ) (db : Db) {db' : Db}
      → validate_not_already_member workspace_id user_id db ≡ ok (tt, db')
      → (db' ≡ db) × (count (is_active_member workspace_id user_id) db.workspace_members ≡ 0)
  unfolding validate_not_already_member
  not_already_member workspace_id user_id db h =
      ground
        (arith, prisma.find_first_none (is_active_member workspace_id user_id) db.workspace_members)

  pub invite_not_exists :
      (workspace_id invitee_id : ℕ) (db : Db) {db' : Db}
      → validate_invite_not_exists workspace_id invitee_id db ≡ ok (tt, db')
      → (db' ≡ db) × (count (is_open_invite workspace_id invitee_id) db.workspace_invites ≡ 0)
  unfolding validate_invite_not_exists
  invite_not_exists workspace_id invitee_id db h =
      ground (
        arith,
        prisma.find_first_none (is_open_invite workspace_id invitee_id) db.workspace_invites,
      )

  pub accept_is_valid :
      (invite : WorkspaceInvite) (db : Db) {db' : Db}
      → validate_accept_invite invite db ≡ ok (tt, db')
      → (db' ≡ db)
        × (invite.status ≡ WorkspaceInviteStatus.pending)
        × (count (is_active_member invite.workspace_id invite.invitee_id) db.workspace_members ≡ 0)
  unfolding validate_accept_invite
  accept_is_valid invite db h = grind (
    arith,
    invite_is_pending invite db,
    not_already_member invite.workspace_id invite.invitee_id db,
  )

  -- The number of rows that `findMany` gives.
  pub length-find_many :
      {Row : Type 0} (p : Row → Bool) (rows : List Row)
      → length (prisma.find_many p rows) ≡ count p rows
  length-find_many p rows = omega (
    arith,
    length-eq-count (prisma.find_many p rows),
    prisma.count-find_many (λ r. true) p rows,
    count_ext (λ r. p r && true) p rows (λ r. ground arith),
  )
