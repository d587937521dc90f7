-- ===== src/Membership/Granting.antt =====
-- Granting and revoking permissions (`grantPermissions`, `revokePermissions`).
use cost_x.Base.{
  ℕ, ◌≡◌, ◌≤◌, ◌<◌, ap, inl, inr, Bool, true, false, not, ◌&&◌, List, [], ◌∷◌, arith, count,
  count_ext, count_mono, count_never, ◌==◌, Bool-cases,
}
use cost_x.Prisma.{Prisma}
use cost_x.Schema.{WorkspacePermission, User, UserWorkspacePermission, WorkspaceMember, Db}
use cost_x.Transaction.{ok, through}
use cost_x.Membership.Where.{is_active_member, is_right_of, is_granted}
use cost_x.Membership.Permissions.{
  validate_member_holds, validate_actor_can_modify, grant_permissions, revoke_permissions,
}
use cost_x.Membership.Rights.{is_right}
use cost_x.Membership.Gains.{Gains}
use cost_x.Membership.Grants.{create_missing-Gains}
use cost_x.Membership.Invariant.{IsConsistent}

module _ ⦃prisma : Prisma⦄ where
  actor_can_modify :
      (w : ℕ) (actor : User) (ps : List WorkspacePermission) (db : Db) {db' : Db}
      → validate_actor_can_modify w actor ps db ≡ ok (tt, db')
      → db' ≡ db
  unfolding validate_actor_can_modify validate_member_holds
  actor_can_modify w actor [] db h = cc
  actor_can_modify w actor (p ∷ ps) db h = ground arith

  -- When granting comes through, the actor may modify these permissions, and the member holds
  -- every one of them afterwards, once if keys were unique; he loses none, nobody else gains or
  -- loses any, and no other table has changed.
  pub grant_permissions-Gains :
      (member : WorkspaceMember) (ps : List WorkspacePermission) (actor : User) (db : Db) {db' : Db}
      → grant_permissions member ps actor db ≡ ok (tt, db')
      → (validate_actor_can_modify member.workspace_id actor ps db ≡ ok (tt, db))
        × Gains member.workspace_id member.user_id ps db db'
  unfolding grant_permissions
  grant_permissions-Gains member ps actor db {db'} h =
      through (validate_actor_can_modify member.workspace_id actor ps) _ db h λ _ db1 valid rest.
        let same = actor_can_modify member.workspace_id actor ps db valid in
        let (db2, run, gains) = create_missing-Gains member.workspace_id member.user_id ps db in
        let e : db' ≡ db2 = cc in (cc, rw (e) gains)

  -- Granting to an active member keeps the invariant.
  pub grant_permissions-IsConsistent :
      (member : WorkspaceMember) (ps : List WorkspacePermission) (actor : User) (db : Db) {db' : Db}
      → 0 < count (is_active_member member.workspace_id member.user_id) db.workspace_members
      → grant_permissions member ps actor db ≡ ok (tt, db')
      → IsConsistent db
      → IsConsistent db'
  grant_permissions-IsConsistent member ps actor db {db'} active h c =
      let g = (grant_permissions-Gains member ps actor db h).1 in
      let members : db'.workspace_members ≡ db.workspace_members =
        ap (λ (d : Db). d.workspace_members) g.same in
      let rights : db'.workspace_permissions ≡ g.rows =
        ap (λ (d : Db). d.workspace_permissions) g.same in
      record {
        ids = λ n. rw (members) (c.ids n);
        members = λ w u. rw (members) (c.members w u);
        rights = rw (rights) (g.unique c.rights);
        no_stray = λ w u none_left.
            elim (Bool-cases (w == member.workspace_id && u == member.user_id)) [
              | inl here ↦
                  let ew : w ≡ member.workspace_id = ground arith in
                  let eu : u ≡ member.user_id = ground arith in
                  absurd (omega (arith, active, (rw (ew, eu, members) at none_left)))
              | inr other ↦ rw (rights) (
                  omega (
                    arith,
                    g.others (is_right_of w u) (λ r mine. ground arith),
                    c.no_stray w u (rw (members) at none_left),
                  ))
            ];
      }

  abbrev without : WorkspaceMember → List WorkspacePermission → Db → Db
  without member ps db = record db {
    workspace_permissions =
        prisma.delete_rows (is_granted member.workspace_id member.user_id ps)
          db.workspace_permissions;
  }

  revoke_permissions_lem :
      (member : WorkspaceMember) (ps : List WorkspacePermission) (actor : User) (db : Db) {db' : Db}
      → revoke_permissions member ps actor db ≡ ok (tt, db')
      → (validate_actor_can_modify member.workspace_id actor ps db ≡ ok (tt, db))
        × (db' ≡ without member ps db)
  unfolding revoke_permissions
  revoke_permissions_lem member ps actor db {db'} h =
      through (validate_actor_can_modify member.workspace_id actor ps) _ db h λ _ db1 valid rest.
        let same = actor_can_modify member.workspace_id actor ps db valid in (cc, cc)

  -- When revoking comes through, the actor may modify these permissions; the member holds none of
  -- them afterwards, and every right that is not one of them, of him or of anybody else, counts as
  -- before.
  pub revoke_permissions-takes :
      (member : WorkspaceMember) (ps : List WorkspacePermission) (actor : User) (db : Db) {db' : Db}
      → revoke_permissions member ps actor db ≡ ok (tt, db')
      → (validate_actor_can_modify member.workspace_id actor ps db ≡ ok (tt, db))
        × (count (is_granted member.workspace_id member.user_id ps) db'.workspace_permissions ≡ 0)
        × ((q : UserWorkspacePermission → Bool)
            → ((g : UserWorkspacePermission)
                → is_granted member.workspace_id member.user_id ps g ≡ true
                → q g ≡ false)
            → count q db'.workspace_permissions ≡ count q db.workspace_permissions)
  revoke_permissions-takes member ps actor db h =
      let (valid, last) = revoke_permissions_lem member ps actor db h in
      let r = is_granted member.workspace_id member.user_id ps in
      (
        valid,
        rw (last) (
            omega (
              arith,
              prisma.count-delete_rows r r db.workspace_permissions,
              count_never (λ g. r g && not (r g)) db.workspace_permissions (λ g. ground arith),
            )),
        λ q apart. rw (last) (
            omega (
              arith,
              prisma.count-delete_rows q r db.workspace_permissions,
              count_ext (λ g. q g && not (r g)) q db.workspace_permissions
                  (λ g. ground (arith, apart g)),
            )),
      )

  -- Revoking keeps the invariant.
  pub revoke_permissions-IsConsistent :
      (member : WorkspaceMember) (ps : List WorkspacePermission) (actor : User) (db : Db) {db' : Db}
      → revoke_permissions member ps actor db ≡ ok (tt, db')
      → IsConsistent db
      → IsConsistent db'
  revoke_permissions-IsConsistent member ps actor db h c =
      let last = (revoke_permissions_lem member ps actor db h).1 in
      let r = is_granted member.workspace_id member.user_id ps in
      let fewer : (q : UserWorkspacePermission → Bool)
          → count q (without member ps db).workspace_permissions
            ≤ count q db.workspace_permissions =
        λ q. omega (
          arith,
          prisma.count-delete_rows q r db.workspace_permissions,
          count_mono (λ g. q g && not (r g)) q db.workspace_permissions (λ g h. ground arith),
        ) in
      rw (last) (record {
        ids = c.ids;
        members = c.members;
        rights = λ w u p. omega (arith, fewer (is_right w u p), c.rights w u p);
        no_stray =
            λ w u none_left. omega (arith, fewer (is_right_of w u), c.no_stray w u none_left);
      })
