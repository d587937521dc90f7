-- ===== src/Membership/Invariant.antt =====
-- The invariant of the members and their rights, and the calls that keep it.
use cost_x.Base.{
  ℕ, ◌≡◌, inl, inr, Bool, true, false, not, ◌&&◌, some, arith, count, count_mono, count_split, ◌==◌,
  Bool-cases,
}
use cost_x.Prisma.{Prisma}
use cost_x.Schema.{WorkspaceInvite, WorkspaceMember, User, Db}
use cost_x.Transaction.{ok}
use cost_x.History.Emitter.{EventEmitter}
use cost_x.Membership.Where.{is_active_member, is_right_of}
use cost_x.Membership.Members.{remove}
use cost_x.Membership.Invites.{accept_invite}
use cost_x.Membership.Rights.{is_right, HasUniqueRights}
use cost_x.Membership.Ids.{HasUniqueIds, HasUniqueMembers}
use cost_x.Membership.Acceptance.{Joined, accept_invite-Joined}
use cost_x.Membership.Removal.{Left, remove-Left}

-- Keys are unique, and nobody has a right in a workspace of which he is no active member.
pub record IsConsistent (db : Db) : Type 0 where
  pub ids : HasUniqueIds db
  pub members : HasUniqueMembers db
  pub rights : HasUniqueRights db.workspace_permissions
  pub no_stray :
      (w u : ℕ)
      → count (is_active_member w u) db.workspace_members ≡ 0
      → count (is_right_of w u) db.workspace_permissions ≡ 0

abbrev is_place : ℕ → ℕ → ℕ → ℕ → Bool
is_place w u w' u' = w == w' && u == u'

Joined-members :
    {invite answer : WorkspaceInvite} {now : ℕ} {db db' : Db}
    → Joined invite answer now db db'
    → (w u : ℕ) → is_place w u invite.workspace_id invite.invitee_id ≡ false
    → count (is_active_member w u) db'.workspace_members
      ≡ count (is_active_member w u) db.workspace_members
Joined-members j w u other = j.other_members (is_active_member w u) (λ m h. ground arith)

Joined-rights :
    {invite answer : WorkspaceInvite} {now : ℕ} {db db' : Db}
    → Joined invite answer now db db'
    → (w u : ℕ) → is_place w u invite.workspace_id invite.invitee_id ≡ false
    → count (is_right_of w u) db'.workspace_permissions
      ≡ count (is_right_of w u) db.workspace_permissions
Joined-rights j w u other = j.others_unchanged (is_right_of w u) (λ g h. ground arith)

Joined-inside :
    {invite answer : WorkspaceInvite} {now : ℕ} {db db' : Db}
    → Joined invite answer now db db'
    → (w u : ℕ) → is_place w u invite.workspace_id invite.invitee_id ≡ true
    → count (is_active_member w u) db'.workspace_members ≡ 1
Joined-inside {invite} {db' = after} j w u here =
    let ew : w ≡ invite.workspace_id = ground arith in
    let eu : u ≡ invite.invitee_id = ground arith in rw (ew, eu) j.is_inside

Joined-IsConsistent :
    {invite answer : WorkspaceInvite} {now : ℕ} {db db' : Db}
    → Joined invite answer now db db'
    → IsConsistent db
    → IsConsistent db'
Joined-IsConsistent {invite} j c = record {
  ids = j.unique_ids c.ids;
  members = λ w u. elim (Bool-cases (is_place w u invite.workspace_id invite.invitee_id)) [
    | inl here ↦ omega (arith, Joined-inside j w u here)
    | inr other ↦ omega (arith, Joined-members j w u other, c.members w u)
  ];
  rights = j.unique_rights c.rights;
  no_stray = λ w u none_left.
      elim (Bool-cases (is_place w u invite.workspace_id invite.invitee_id)) [
        | inl here ↦ absurd (omega (arith, Joined-inside j w u here))
        | inr other ↦ omega (
          arith,
          Joined-members j w u other,
          Joined-rights j w u other,
          c.no_stray w u (omega (arith, Joined-members j w u other)),
        )
      ];
}

module _ ⦃prisma : Prisma⦄ ⦃emitter : EventEmitter⦄ where
  -- Accepting an invite that the table holds keeps the invariant: keys stay unique, and no rights
  -- go to anybody but an active member.
  pub accept_invite-IsConsistent :
      (invite : WorkspaceInvite) (actor : User) (now : ℕ) (db : Db) {answer : WorkspaceInvite}
      {db' : Db}
      → prisma.find_first (λ (i : WorkspaceInvite). i.id == invite.id) db.workspace_invites
        ≡ some invite
      → accept_invite invite actor now db ≡ ok (answer, db')
      → IsConsistent db
      → IsConsistent db'
  accept_invite-IsConsistent invite actor now db stored h =
      Joined-IsConsistent (accept_invite-Joined invite actor now db stored h)

  -- The other rows with the id of a stored row are that row's.
  same_id :
      (member : WorkspaceMember) (db : Db)
      → prisma.find_first (λ (m : WorkspaceMember). m.id == member.id) db.workspace_members
        ≡ some member
      → HasUniqueIds db
      → (w u : ℕ) → is_place w u member.workspace_id member.user_id ≡ false
      → count (λ m. is_active_member w u m && m.id == member.id) db.workspace_members ≡ 0
  same_id member db stored ids w u other =
      let same = λ (m : WorkspaceMember). m.id == member.id in
      let here = is_active_member w u in
      let row = λ (m : WorkspaceMember). same m && is_place w u m.workspace_id m.user_id in
      omega (
        arith,
        count_mono (λ m. here m && same m) row db.workspace_members (λ m h. ground arith),
        count_split same (λ m. is_place w u m.workspace_id m.user_id) db.workspace_members,
        prisma.find_first_stored same (λ m. same m && not (is_place w u m.workspace_id m.user_id))
            db.workspace_members member stored (ground arith),
        ids member.id,
      )

  Left-members :
      (member answer : WorkspaceMember) (actor_id now : ℕ) (db db' : Db)
      → prisma.find_first (λ (m : WorkspaceMember). m.id == member.id) db.workspace_members
        ≡ some member
      → Left member answer actor_id now db db'
      → HasUniqueIds db
      → (w u : ℕ) → is_place w u member.workspace_id member.user_id ≡ false
      → count (is_active_member w u) db'.workspace_members
        ≡ count (is_active_member w u) db.workspace_members
  Left-members member answer actor_id now db db' stored l ids w u other = omega (
    arith,
    l.remaining w u,
    count_split (is_active_member w u) (λ m. m.id == member.id) db.workspace_members,
    same_id member db stored ids w u other,
  )

  Left-no_right :
      (member answer : WorkspaceMember) (actor_id now : ℕ) (db db' : Db)
      → Left member answer actor_id now db db'
      → (w u : ℕ) → is_place w u member.workspace_id member.user_id ≡ true
      → count (is_right_of w u) db'.workspace_permissions ≡ 0
  Left-no_right member answer actor_id now db db' l w u here =
      let ew : w ≡ member.workspace_id = ground arith in
      let eu : u ≡ member.user_id = ground arith in rw (ew, eu) l.has_no_right

  -- Removing a member that the table holds keeps the invariant: whoever is no active member any
  -- more has lost all his rights in the workspace.
  pub remove-IsConsistent :
      (member : WorkspaceMember) (actor_id now : ℕ) (db : Db) {answer : WorkspaceMember} {db' : Db}
      → prisma.find_first (λ (m : WorkspaceMember). m.id == member.id) db.workspace_members
        ≡ some member
      → remove member actor_id now db ≡ ok (answer, db')
      → IsConsistent db
      → IsConsistent db'
  remove-IsConsistent member actor_id now db {answer} {db'} stored h c =
      let l = remove-Left member actor_id now db stored h in
      record {
        ids = λ n. omega (arith, l.same_ids n, c.ids n);
        members = λ w u. omega (
          arith,
          l.remaining w u,
          count_mono (λ m. is_active_member w u m && not (m.id == member.id)) (is_active_member w u)
              db.workspace_members (λ m h. ground arith),
          c.members w u,
        );
        rights = λ w u p. omega (arith, l.no_new_rights (is_right w u p), c.rights w u p);
        no_stray = λ w u none_left.
            elim (Bool-cases (is_place w u member.workspace_id member.user_id)) [
              | inl here ↦ Left-no_right member answer actor_id now db db' l w u here
              | inr other ↦ omega (
                arith,
                l.no_new_rights (is_right_of w u),
                Left-members member answer actor_id now db db' stored l c.ids w u other,
                c.no_stray w u,
              )
            ];
      }
