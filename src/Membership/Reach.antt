-- ===== src/Membership/Reach.antt =====
-- What the calls of src/workspace-membership do one after the other, by anybody and in any order.
use cost_x.Base.{ℕ, ◌≡◌, ◌<◌, some, ◌==◌, List, [], ◌∷◌, arith, count}
use cost_x.Prisma.{Prisma}
use cost_x.Schema.{WorkspacePermission, User, Workspace, WorkspaceInvite, WorkspaceMember, Db}
use cost_x.Transaction.{ok, through}
use cost_x.History.Emitter.{EventEmitter}
use cost_x.History.Laws.{emit_lem}
use cost_x.Delegate.{create}
use cost_x.Membership.Where.{is_active_member}
use cost_x.Membership.Permissions.{grant_permissions, revoke_permissions}
use cost_x.Membership.Validation.{
  validate_invite_is_pending, validate_reject_invite, validate_cancel_invite,
  validate_create_invite, validate_invite_not_exists, validate_not_already_member,
  validate_inviter_has_permissions,
}
use cost_x.Membership.Members.{remove}
use cost_x.Membership.Invites.{
  create_invite, accept_invite, reject_invite, cancel_invite, store_invite,
}
use cost_x.Membership.Guards.{invite_is_pending, invite_not_exists, not_already_member}
use cost_x.Membership.Granting.{grant_permissions-IsConsistent, revoke_permissions-IsConsistent}
use cost_x.Membership.Invariant.{IsConsistent, accept_invite-IsConsistent, remove-IsConsistent}

-- Members and rights are as before.
abbrev Keeps : Db → Db → Type 0
Keeps db db' =
    (db'.workspace_members ≡ db.workspace_members)
    × (db'.workspace_permissions ≡ db.workspace_permissions)

module _ ⦃prisma : Prisma⦄ ⦃emitter : EventEmitter⦄ where
  reject-Keeps :
      (invite : WorkspaceInvite) (actor : User) (now : ℕ) (db : Db) {answer : WorkspaceInvite}
      {db' : Db}
      → reject_invite invite actor now db ≡ ok (answer, db')
      → Keeps db db'
  unfolding reject_invite validate_reject_invite
  reject-Keeps invite actor now db h =
      through (validate_invite_is_pending invite) _ db h λ _ db1 valid rest.
        let same = (invite_is_pending invite db valid).0 in
        (grind (arith, emit_lem), grind (arith, emit_lem))

  cancel-Keeps :
      (invite : WorkspaceInvite) (actor : User) (now : ℕ) (db : Db) {answer : WorkspaceInvite}
      {db' : Db}
      → cancel_invite invite actor now db ≡ ok (answer, db')
      → Keeps db db'
  unfolding cancel_invite validate_cancel_invite
  cancel-Keeps invite actor now db h =
      through (validate_invite_is_pending invite) _ db h λ _ db1 valid rest.
        let same = (invite_is_pending invite db valid).0 in
        (grind (arith, emit_lem), grind (arith, emit_lem))

  inviter_has_permissions :
      (w u : ℕ) (ps : List WorkspacePermission) (db : Db) {db' : Db}
      → validate_inviter_has_permissions w u ps db ≡ ok (tt, db')
      → db' ≡ db
  unfolding validate_inviter_has_permissions
  inviter_has_permissions w u [] db h = cc
  inviter_has_permissions w u (p ∷ ps) db h = ground arith

  store-Keeps :
      (w inviter invitee : ℕ) (ps : List WorkspacePermission) (now : ℕ) (db : Db)
      {invite : WorkspaceInvite} {db' : Db}
      → store_invite w inviter invitee ps now db ≡ ok (invite, db')
      → Keeps db db'
  unfolding store_invite create
  store-Keeps w inviter invitee ps now db h = (ground arith, ground arith)

  create-Keeps :
      (workspace : Workspace) (inviter invitee : User) (ps : List WorkspacePermission) (now : ℕ)
      (db : Db) {invite : WorkspaceInvite} {db' : Db}
      → create_invite workspace inviter invitee ps now db ≡ ok (invite, db')
      → Keeps db db'
  unfolding create_invite validate_create_invite
  create-Keeps workspace inviter invitee ps now db h =
      through (validate_create_invite workspace.id inviter.id invitee.id ps) _ db h
        λ _ db1 valid rest.
          let same : db1 ≡ db = create_is_valid workspace.id inviter.id invitee.id ps db valid in
          through (store_invite workspace.id inviter.id invitee.id ps now) _ db1 rest
            λ invite db2 stored last.
              let (members, rights) =
                store-Keeps workspace.id inviter.id invitee.id ps now db1 stored in
              (grind (arith, emit_lem), grind (arith, emit_lem))
    where
      create_is_valid :
          (w inviter invitee : ℕ) (ps : List WorkspacePermission) (db : Db) {db' : Db}
          → validate_create_invite w inviter invitee ps db ≡ ok (tt, db')
          → db' ≡ db
      create_is_valid w inviter invitee ps db h =
          through (validate_invite_not_exists w invitee) _ db h λ _ db1 h1 r1.
            through (validate_not_already_member w invitee) _ db1 r1 λ _ db2 h2 h3.
              let e1 = (invite_not_exists w invitee db h1).0 in
              let e2 = (not_already_member w invitee db1 h2).0 in
              let e3 = inviter_has_permissions w inviter ps db2 h3 in cc

  -- One call that has come through.
  pub data Step : Db → Db → Type 0 where
    invites :
        {db db' : Db} (workspace : Workspace) (inviter invitee : User)
        (ps : List WorkspacePermission) (now : ℕ) (invite : WorkspaceInvite)
        → create_invite workspace inviter invitee ps now db ≡ ok (invite, db')
        → Step db db'
    accepts :
        {db db' : Db} (invite : WorkspaceInvite) (actor : User) (now : ℕ) (answer : WorkspaceInvite)
        → prisma.find_first (λ (i : WorkspaceInvite). i.id == invite.id) db.workspace_invites
          ≡ some invite
        → accept_invite invite actor now db ≡ ok (answer, db')
        → Step db db'
    rejects :
        {db db' : Db} (invite : WorkspaceInvite) (actor : User) (now : ℕ) (answer : WorkspaceInvite)
        → reject_invite invite actor now db ≡ ok (answer, db')
        → Step db db'
    cancels :
        {db db' : Db} (invite : WorkspaceInvite) (actor : User) (now : ℕ) (answer : WorkspaceInvite)
        → cancel_invite invite actor now db ≡ ok (answer, db')
        → Step db db'
    -- Permissions are granted to an active member.
    grants :
        {db db' : Db} (member : WorkspaceMember) (ps : List WorkspacePermission) (actor : User)
        → 0 < count (is_active_member member.workspace_id member.user_id) db.workspace_members
        → grant_permissions member ps actor db ≡ ok (tt, db')
        → Step db db'
    revokes :
        {db db' : Db} (member : WorkspaceMember) (ps : List WorkspacePermission) (actor : User)
        → revoke_permissions member ps actor db ≡ ok (tt, db')
        → Step db db'
    removes :
        {db db' : Db} (member : WorkspaceMember) (actor_id now : ℕ) (answer : WorkspaceMember)
        → prisma.find_first (λ (m : WorkspaceMember). m.id == member.id) db.workspace_members
          ≡ some member
        → remove member actor_id now db ≡ ok (answer, db')
        → Step db db'

  -- Calls one after the other.
  pub data Reaches : Db → Db → Type 0 where
    start : {db : Db} → Reaches db db
    next : {a b c : Db} → Reaches a b → Step b c → Reaches a c

  Keeps-IsConsistent : {db db' : Db} → Keeps db db' → IsConsistent db → IsConsistent db'
  Keeps-IsConsistent (members, rights) c = record {
    ids = λ n. rw (members) (c.ids n);
    members = λ w u. rw (members) (c.members w u);
    rights = rw (rights) c.rights;
    no_stray = λ w u none_left. rw (rights) (c.no_stray w u (rw (members) at none_left));
  }

  Step-IsConsistent : {db db' : Db} → Step db db' → IsConsistent db → IsConsistent db'
  Step-IsConsistent {db} {db'} (invites workspace inviter invitee ps now invite h) =
      Keeps-IsConsistent (create-Keeps workspace inviter invitee ps now db h)
  Step-IsConsistent {db} {db'} (accepts invite actor now answer stored h) =
      accept_invite-IsConsistent invite actor now db stored h
  Step-IsConsistent {db} {db'} (rejects invite actor now answer h) =
      Keeps-IsConsistent (reject-Keeps invite actor now db h)
  Step-IsConsistent {db} {db'} (cancels invite actor now answer h) =
      Keeps-IsConsistent (cancel-Keeps invite actor now db h)
  Step-IsConsistent {db} {db'} (grants member ps actor active h) =
      grant_permissions-IsConsistent member ps actor db active h
  Step-IsConsistent {db} {db'} (revokes member ps actor h) =
      revoke_permissions-IsConsistent member ps actor db h
  Step-IsConsistent {db} {db'} (removes member actor_id now answer stored h) =
      remove-IsConsistent member actor_id now db stored h

  -- However invites are made, accepted, rejected and cancelled, permissions granted to active
  -- members or revoked, and members removed: from consistent tables only consistent tables are
  -- reached, so that nobody has a right in a workspace of which he is no active member.
  pub reached-IsConsistent : {db db' : Db} → Reaches db db' → IsConsistent db → IsConsistent db'
  reached-IsConsistent start c = c
  reached-IsConsistent (next before step) c = Step-IsConsistent step (reached-IsConsistent before c)
