-- ===== src/Membership/Removal.antt =====
-- Removing a member (`remove`), which is also how a member leaves.
use cost_x.Base.{
  ℕ, ◌≤◌, ◌≡◌, Bool, true, false, not, ◌&&◌, some, arith, count, count_ext, count_mono, count_never,
  count_split, ◌==◌, is_none, if◌then◌else◌,
}
use cost_x.Prisma.{Prisma}
use cost_x.Schema.{UserWorkspacePermission, WorkspaceMember, Db}
use cost_x.Transaction.{ok, through}
use cost_x.History.{Event}
use cost_x.History.Emitter.{EventEmitter}
use cost_x.History.Laws.{emit_lem, logged}
use cost_x.Membership.Where.{is_active_member, is_right_of}
use cost_x.Membership.Permissions.{is_owned_by, revoke_all_permissions}
use cost_x.Membership.Ids.{HasUniqueMembers}
use cost_x.Membership.Members.{validate_remove, remove, removed}

-- What a removal has done.
pub record Left ⦃prisma : Prisma⦄ (member answer : WorkspaceMember) (actor_id now : ℕ) (db db' : Db)
    : Type 0 where
  pub was_active : is_none member.removed_at ≡ true
  pub was_not_owner :
      is_owned_by
        (prisma.find_first (λ x. x.id == member.workspace_id) db.workspaces)
        member.user_id
      ≡ false
  pub answered : answer ≡ removed actor_id now member
  pub is_outside :
      HasUniqueMembers db
      → count (is_active_member member.workspace_id member.user_id) db'.workspace_members ≡ 0
  pub has_no_right :
      count (is_right_of member.workspace_id member.user_id) db'.workspace_permissions ≡ 0
  -- The active memberships of anybody are those on other rows.
  pub remaining :
      (w u : ℕ)
      → count (is_active_member w u) db'.workspace_members
        ≡ count (λ m. is_active_member w u m && not (m.id == member.id)) db.workspace_members
  pub same_ids :
      (n : ℕ)
      → count (λ (m : WorkspaceMember). m.id == n) db'.workspace_members
        ≡ count (λ (m : WorkspaceMember). m.id == n) db.workspace_members
  pub no_new_rights :
      (q : UserWorkspacePermission → Bool)
      → count q db'.workspace_permissions ≤ count q db.workspace_permissions
  pub other_rights :
      (q : UserWorkspacePermission → Bool)
      → ((g : UserWorkspacePermission)
          → is_right_of member.workspace_id member.user_id g ≡ true
          → q g ≡ false)
      → count q db'.workspace_permissions ≡ count q db.workspace_permissions

module _ ⦃prisma : Prisma⦄ where
  removal_is_valid :
      (member : WorkspaceMember) (db : Db) {db' : Db}
      → validate_remove member db ≡ ok (tt, db')
      → (db' ≡ db)
        × (is_none member.removed_at ≡ true)
        × (is_owned_by
              (prisma.find_first (λ x. x.id == member.workspace_id) db.workspaces)
              member.user_id
            ≡ false)
  unfolding validate_remove
  removal_is_valid member db h = ground arith

  abbrev without : WorkspaceMember → ℕ → ℕ → Db → Db
  without member actor_id now db = record db {
    workspace_members =
        prisma.update_rows (λ m. m.id == member.id) (removed actor_id now) db.workspace_members;
    workspace_permissions =
        prisma.delete_rows (is_right_of member.workspace_id member.user_id)
          db.workspace_permissions;
  }

  without-rights :
      (member : WorkspaceMember) (actor_id now : ℕ) (db : Db)
      → count
          (is_right_of member.workspace_id member.user_id)
          (without member actor_id now db).workspace_permissions
        ≡ 0
  without-rights member actor_id now db =
      let r = is_right_of member.workspace_id member.user_id in
      omega (
        arith,
        prisma.count-delete_rows r r db.workspace_permissions,
        count_never (λ g. r g && not (r g)) db.workspace_permissions (λ g. ground arith),
      )

  without-other_rights :
      (q : UserWorkspacePermission → Bool) (member : WorkspaceMember) (actor_id now : ℕ) (db : Db)
      → ((g : UserWorkspacePermission)
          → is_right_of member.workspace_id member.user_id g ≡ true
          → q g ≡ false)
      → count q (without member actor_id now db).workspace_permissions
        ≡ count q db.workspace_permissions
  without-other_rights q member actor_id now db apart =
      let r = is_right_of member.workspace_id member.user_id in
      omega (
        arith,
        prisma.count-delete_rows q r db.workspace_permissions,
        count_ext (λ g. q g && not (r g)) q db.workspace_permissions (λ g. ground (arith, apart g)),
      )

  without-no_new :
      (q : UserWorkspacePermission → Bool) (member : WorkspaceMember) (actor_id now : ℕ) (db : Db)
      → count q (without member actor_id now db).workspace_permissions
        ≤ count q db.workspace_permissions
  without-no_new q member actor_id now db =
      let r = is_right_of member.workspace_id member.user_id in
      omega (
        arith,
        prisma.count-delete_rows q r db.workspace_permissions,
        count_mono (λ g. q g && not (r g)) q db.workspace_permissions (λ g h. ground arith),
      )

  without-ids :
      (n : ℕ) (member : WorkspaceMember) (actor_id now : ℕ) (db : Db)
      → count
          (λ (m : WorkspaceMember). m.id == n)
          (without member actor_id now db).workspace_members
        ≡ count (λ (m : WorkspaceMember). m.id == n) db.workspace_members
  without-ids n member actor_id now db =
      let same = λ (m : WorkspaceMember). m.id == member.id in
      omega (
        arith,
        prisma.count-update_rows (λ (m : WorkspaceMember). m.id == n) same (removed actor_id now)
            db.workspace_members,
        count_ext (λ m. (if same m then removed actor_id now m else m).id == n) (λ m. m.id == n)
            db.workspace_members (λ m. ground arith),
      )

  without-remaining :
      (w u : ℕ) (member : WorkspaceMember) (actor_id now : ℕ) (db : Db)
      → count (is_active_member w u) (without member actor_id now db).workspace_members
        ≡ count (λ m. is_active_member w u m && not (m.id == member.id)) db.workspace_members
  without-remaining w u member actor_id now db =
      let p = is_active_member w u in
      let same = λ (m : WorkspaceMember). m.id == member.id in
      omega (
        arith,
        prisma.count-update_rows p same (removed actor_id now) db.workspace_members,
        count_ext (λ m. p (if same m then removed actor_id now m else m)) (λ m. p m && not (same m))
            db.workspace_members (λ m. ground arith),
      )

  -- The one active row of the user is the removed one.
  without-member :
      (member : WorkspaceMember) (actor_id now : ℕ) (db : Db)
      → prisma.find_first (λ m. m.id == member.id) db.workspace_members ≡ some member
      → is_none member.removed_at ≡ true
      → HasUniqueMembers db
      → count
          (is_active_member member.workspace_id member.user_id)
          (without member actor_id now db).workspace_members
        ≡ 0
  without-member member actor_id now db stored active unique =
      let p = is_active_member member.workspace_id member.user_id in
      let same = λ (m : WorkspaceMember). m.id == member.id in
      omega (
        arith,
        without-remaining member.workspace_id member.user_id member actor_id now db,
        count_split p same db.workspace_members,
        prisma.find_first_stored same (λ m. p m && same m) db.workspace_members member stored
            (ground arith),
        unique member.workspace_id member.user_id,
      )

module _ ⦃prisma : Prisma⦄ ⦃emitter : EventEmitter⦄ where
  remove_lem :
      (member : WorkspaceMember) (actor_id now : ℕ) (db : Db) {answer : WorkspaceMember} {db' : Db}
      → prisma.find_first (λ m. m.id == member.id) db.workspace_members ≡ some member
      → remove member actor_id now db ≡ ok (answer, db')
      → (validate_remove member db ≡ ok (tt, db))
        × (answer ≡ removed actor_id now member)
        × (db'
            ≡ logged
                (Event.workspace_member_removed member.workspace_id actor_id answer)
                (without member actor_id now db))
  unfolding remove revoke_all_permissions
  remove_lem member actor_id now db {answer} {db'} stored h =
      through (validate_remove member) _ db h λ _ db1 valid h1.
        let same : db1 ≡ db = (removal_is_valid member db valid).0 in
        (cc, grind (arith, emit_lem), grind (arith, emit_lem))

  -- Of a member that the table holds: when `remove` comes through, the member was active and did
  -- not own the workspace, and is answered as removed by the actor; the user has no right left in
  -- the workspace and, if he had at most one active membership there, none is left; the active
  -- memberships that are left are those on other rows, with the ids of the rows as before; no right
  -- is new, and the rights of other users or in other workspaces are as before.
  pub remove-Left :
      (member : WorkspaceMember) (actor_id now : ℕ) (db : Db) {answer : WorkspaceMember} {db' : Db}
      → prisma.find_first (λ m. m.id == member.id) db.workspace_members ≡ some member
      → remove member actor_id now db ≡ ok (answer, db')
      → Left member answer actor_id now db db'
  remove-Left member actor_id now db {answer} {db'} stored h =
      let (valid, answered, last) = remove_lem member actor_id now db stored h in
      let (_, active, not_owner) = removal_is_valid member db valid in
      record {
        was_active = active;
        was_not_owner = not_owner;
        answered = answered;
        is_outside = λ unique. rw last (without-member member actor_id now db stored active unique);
        has_no_right = rw last (without-rights member actor_id now db);
        remaining = λ w u. rw last (without-remaining w u member actor_id now db);
        same_ids = λ n. rw last (without-ids n member actor_id now db);
        no_new_rights = λ q. rw last (without-no_new q member actor_id now db);
        other_rights = λ q apart. rw last (without-other_rights q member actor_id now db apart);
      }
