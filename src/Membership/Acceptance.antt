-- ===== src/Membership/Acceptance.antt =====
-- Accepting an invite (`acceptInvite`): what has happened when it comes through, and when it does.
use cost_x.Base.{
  ℕ, ◌+◌, ◌<◌, ◌≡◌, sym, ap, ◌∙◌, Bool, true, false, ◌&&◌, some, List, [], ◌∷◌, arith, count,
  count_ext, ◌==◌,
}
use cost_x.Prisma.{Prisma}
use cost_x.Schema.{
  WorkspacePermission, User, WorkspaceInvite, WorkspaceInviteStatus, WorkspaceMember,
  UserWorkspacePermission, Db,
}
use cost_x.Transaction.{ok, through}
use cost_x.Delegate
use cost_x.Delegate.{create, update_one}
use cost_x.History.{Event}
use cost_x.History.Emitter.{EventEmitter}
use cost_x.History.Laws.{emit_lem, logged}
use cost_x.Membership.Where.{includes, is_right_of, is_active_member}
use cost_x.Membership.Permissions.{seed_permissions}
use cost_x.Membership.Members.{new_member, create_member, add_member}
use cost_x.Membership.Invites.{accept_invite, reacted}
use cost_x.Membership.Validation.{validate_accept_invite}
use cost_x.Membership.Guards.{accept_is_valid}
use cost_x.Membership.Rights.{is_right, IsDistinct, HasUniqueRights}
use cost_x.Membership.Ids.{HasUniqueIds}
use cost_x.Membership.Gains.{Gains, Gains-nil}
use cost_x.Membership.Grants.{create_many-Gains, create_many-IsDistinct, create_many-new}

module _ ⦃prisma : Prisma⦄ where
  pub seed-Gains :
      (w u : ℕ) (ps : List WorkspacePermission) (db : Db) {db' : Db}
      → seed_permissions w u ps db ≡ ok (tt, db')
      → Gains w u ps db db'
  unfolding seed_permissions
  seed-Gains w u [] db {db'} h = let e : db' ≡ db = cc in rw e (Gains-nil w u db)
  seed-Gains w u (p ∷ ps) db h = create_many-Gains w u (p ∷ ps) db h

  seed-IsDistinct :
      (w u : ℕ) (ps : List WorkspacePermission) (db : Db) {db' : Db}
      → seed_permissions w u ps db ≡ ok (tt, db')
      → IsDistinct ps
  unfolding seed_permissions
  seed-IsDistinct w u [] db h = tt
  seed-IsDistinct w u (p ∷ ps) db h = create_many-IsDistinct w u (p ∷ ps) db h

  seed-new :
      (w u : ℕ) (ps : List WorkspacePermission) (db : Db) {db' : Db} (p : WorkspacePermission)
      → seed_permissions w u ps db ≡ ok (tt, db')
      → includes ps p ≡ true
      → count (is_right w u p) db.workspace_permissions ≡ 0
  unfolding seed_permissions
  seed-new w u [] db p h listed = cc
  seed-new w u (q ∷ qs) db p h listed = create_many-new w u (q ∷ qs) db p h listed

  -- The row that `create` writes, with the id that is next.
  abbrev member_row : ℕ → ℕ → ℕ → ℕ → Db → WorkspaceMember
  member_row w u invite_id now db =
      new_member w u (some invite_id) now
        (prisma.next_id (λ (m : WorkspaceMember). m.id) db.workspace_members)

  abbrev with_member : ℕ → ℕ → ℕ → ℕ → Db → Db
  with_member w u invite_id now db = record db {
    workspace_members = prisma.insert_row (member_row w u invite_id now db) db.workspace_members;
  }

  created_member :
      (w u invite_id now : ℕ) (db : Db) {m : WorkspaceMember} {db' : Db}
      → create_member w u (some invite_id) now db ≡ ok (m, db')
      → (m ≡ member_row w u invite_id now db) × (db' ≡ with_member w u invite_id now db)
  unfolding create_member create
  created_member w u invite_id now db h = ground arith

  with_member-count :
      (w u invite_id now : ℕ) (db : Db)
      → count (is_active_member w u) (with_member w u invite_id now db).workspace_members
        ≡ 1 + count (is_active_member w u) db.workspace_members
  with_member-count w u invite_id now db = ground (
    arith,
    prisma.count-insert_row (is_active_member w u) (member_row w u invite_id now db)
        db.workspace_members,
  )

  with_member-other :
      (q : WorkspaceMember → Bool) (w u invite_id now : ℕ) (db : Db)
      → ((m : WorkspaceMember) → (m.workspace_id == w && m.user_id == u) ≡ true → q m ≡ false)
      → count q (with_member w u invite_id now db).workspace_members ≡ count q db.workspace_members
  with_member-other q w u invite_id now db apart = ground (
    arith,
    prisma.count-insert_row q (member_row w u invite_id now db) db.workspace_members,
    apart (member_row w u invite_id now db),
  )

  with_member_unique :
      (w u invite_id now : ℕ) (db : Db)
      → HasUniqueIds db
      → HasUniqueIds (with_member w u invite_id now db)
  with_member_unique w u invite_id now db unique n =
      let row = member_row w u invite_id now db in
      ground (
        arith,
        prisma.count-insert_row (λ (m : WorkspaceMember). m.id == n) row db.workspace_members,
        prisma.next_id_fresh (λ (m : WorkspaceMember). m.id) db.workspace_members,
        unique n,
        count_ext (λ (m : WorkspaceMember). m.id == n) (λ m. m.id == row.id) db.workspace_members,
      )

module _ ⦃prisma : Prisma⦄ ⦃emitter : EventEmitter⦄ where
  added_member :
      (w u invite_id actor_id now : ℕ) (db : Db) {m : WorkspaceMember} {db' : Db}
      → add_member w u (some invite_id) actor_id now db ≡ ok (m, db')
      → (db'
          ≡ logged (Event.workspace_member_created w actor_id m) (with_member w u invite_id now db))
  unfolding add_member
  added_member w u invite_id actor_id now db h =
      grind (arith, created_member w u invite_id now db, emit_lem)

-- What accepting has done: the invite was open, the invitee was no active member and is one now,
-- exactly once, and he has gained the permissions of the invite, all of them new, and no others.
pub record Joined (invite : WorkspaceInvite) (answer : WorkspaceInvite) (now : ℕ) (db db' : Db)
    : Type 0 where
  pub was_pending : invite.status ≡ WorkspaceInviteStatus.pending
  pub answered : answer ≡ reacted WorkspaceInviteStatus.accepted now invite
  pub was_outside :
      count (is_active_member invite.workspace_id invite.invitee_id) db.workspace_members ≡ 0
  pub is_inside :
      count (is_active_member invite.workspace_id invite.invitee_id) db'.workspace_members ≡ 1
  pub distinct : IsDistinct invite.permissions
  pub were_new :
      (p : WorkspacePermission)
      → includes invite.permissions p ≡ true
      → count (is_right invite.workspace_id invite.invitee_id p) db.workspace_permissions ≡ 0
  pub gains :
      (p : WorkspacePermission)
      → includes invite.permissions p ≡ true
      → 0 < count (is_right invite.workspace_id invite.invitee_id p) db'.workspace_permissions
  pub gains_no_more :
      (p : WorkspacePermission)
      → includes invite.permissions p ≡ false
      → count (is_right invite.workspace_id invite.invitee_id p) db'.workspace_permissions
        ≡ count (is_right invite.workspace_id invite.invitee_id p) db.workspace_permissions
  pub unique_rights :
      HasUniqueRights db.workspace_permissions → HasUniqueRights db'.workspace_permissions
  pub other_members :
      (q : WorkspaceMember → Bool)
      → ((m : WorkspaceMember)
          → (m.workspace_id == invite.workspace_id && m.user_id == invite.invitee_id) ≡ true
          → q m ≡ false)
      → count q db'.workspace_members ≡ count q db.workspace_members
  pub unique_ids : HasUniqueIds db → HasUniqueIds db'
  pub others_unchanged :
      (q : UserWorkspacePermission → Bool)
      → ((g : UserWorkspacePermission)
          → is_right_of invite.workspace_id invite.invitee_id g ≡ true
          → q g ≡ false)
      → count q db'.workspace_permissions ≡ count q db.workspace_permissions

module _ ⦃prisma : Prisma⦄ ⦃emitter : EventEmitter⦄ where
  abbrev with_reaction : WorkspaceInvite → ℕ → Db → Db
  with_reaction invite now db = record db {
    workspace_invites =
        prisma.update_rows (λ i. i.id == invite.id) (reacted WorkspaceInviteStatus.accepted now)
          db.workspace_invites;
  }

  -- The steps of `acceptInvite` that change tables, in their order.
  record Steps (invite answer : WorkspaceInvite) (actor : User) (now : ℕ) (db db' : Db)
      : Type 0 where
    valid : validate_accept_invite invite db ≡ ok (tt, db)
    answered : answer ≡ reacted WorkspaceInviteStatus.accepted now invite
    member : WorkspaceMember
    joined : Db
    adds :
        add_member invite.workspace_id invite.invitee_id
          (some invite.id)
          actor.id
          now
          (with_reaction invite now db)
        ≡ ok (member, joined)
    seeded : Db
    seeds :
        seed_permissions invite.workspace_id invite.invitee_id invite.permissions joined
        ≡ ok (tt, seeded)
    last : db' ≡ logged (Event.workspace_invite_accepted invite.workspace_id actor.id answer) seeded

  accept_invite-Steps :
      (invite : WorkspaceInvite) (actor : User) (now : ℕ) (db : Db) {answer : WorkspaceInvite}
      {db' : Db}
      → prisma.find_first (λ (i : WorkspaceInvite). i.id == invite.id) db.workspace_invites
        ≡ some invite
      → accept_invite invite actor now db ≡ ok (answer, db')
      → Steps invite answer actor now db db'
  unfolding accept_invite
  accept_invite-Steps invite actor now db {answer} {db'} stored h =
      through (validate_accept_invite invite) _ db h λ _ db1 valid h1.
        through
          (update_one Delegate.workspace_invite (λ i. i.id == invite.id)
            (reacted WorkspaceInviteStatus.accepted now))
          _ db1 h1
          λ updated db2 updates h2.
            through (add_member invite.workspace_id invite.invitee_id (some invite.id) actor.id now)
              _ db2 h2
              λ member joined adds h3.
                through (seed_permissions invite.workspace_id invite.invitee_id invite.permissions)
                  _ joined h3
                  λ _ seeded seeds h4.
                    let same : db1 ≡ db = (accept_is_valid invite db valid).0 in
                    let row : updated ≡ reacted WorkspaceInviteStatus.accepted now invite =
                      ground arith in
                    let state : db2 ≡ with_reaction invite now db = ground arith in
                    let result : answer ≡ updated = grind (arith, emit_lem) in
                    record {
                      valid = cc;
                      answered = cc;
                      member = member;
                      joined = joined;
                      adds = cc;
                      seeded = seeded;
                      seeds = seeds;
                      last = grind (arith, emit_lem);
                    }

  -- The invites after accepting one.
  pub accept_invite_stored :
      (invite : WorkspaceInvite) (actor : User) (now : ℕ) (db : Db) {answer : WorkspaceInvite}
      {db' : Db}
      → prisma.find_first (λ (i : WorkspaceInvite). i.id == invite.id) db.workspace_invites
        ≡ some invite
      → accept_invite invite actor now db ≡ ok (answer, db')
      → db'.workspace_invites
        ≡ prisma.update_rows
            (λ (i : WorkspaceInvite). i.id == invite.id)
            (reacted WorkspaceInviteStatus.accepted now)
            db.workspace_invites
  accept_invite_stored invite actor now db {answer} {db'} stored h =
      let w = invite.workspace_id in
      let u = invite.invitee_id in
      let s = accept_invite-Steps invite actor now db stored h in
      let gains = seed-Gains w u invite.permissions s.joined s.seeds in
      let joined = added_member w u invite.id actor.id now (with_reaction invite now db) s.adds in
      ground (arith, gains.same, s.last, joined)

  -- Of an invite that the table holds: when `acceptInvite` comes through, the invite was pending
  -- and is answered as accepted, the invitee was no active member of the workspace and now is one
  -- exactly once, the invite lists no permission twice and none that he held before, he holds all
  -- of them, and no other right of anybody has changed.
  pub accept_invite-Joined :
      (invite : WorkspaceInvite) (actor : User) (now : ℕ) (db : Db) {answer : WorkspaceInvite}
      {db' : Db}
      → prisma.find_first (λ (i : WorkspaceInvite). i.id == invite.id) db.workspace_invites
        ≡ some invite
      → accept_invite invite actor now db ≡ ok (answer, db')
      → Joined invite answer now db db'
  accept_invite-Joined invite actor now db {answer} {db'} stored h =
      let w = invite.workspace_id in
      let u = invite.invitee_id in
      let s = accept_invite-Steps invite actor now db stored h in
      let (_, pending, outside) = accept_is_valid invite db s.valid in
      let gains = seed-Gains w u invite.permissions s.joined s.seeds in
      let joined = added_member w u invite.id actor.id now (with_reaction invite now db) s.adds in
      let rights : s.joined.workspace_permissions ≡ db.workspace_permissions = ground (arith) in
      let now_rights : db'.workspace_permissions ≡ gains.rows =
        ground (arith, gains.same, s.last) in
      let members : db'.workspace_members
          ≡ (with_member w u invite.id now (with_reaction invite now db)).workspace_members =
        ground (arith, gains.same, s.last) in
      record {
        was_pending = pending;
        answered = s.answered;
        was_outside = outside;
        is_inside =
            rw members
              (omega (arith, with_member-count w u invite.id now (with_reaction invite now db)));
        distinct = seed-IsDistinct w u invite.permissions s.joined s.seeds;
        were_new = λ p listed.
            sym (ap (count (is_right w u p)) rights)
            ∙ seed-new w u invite.permissions s.joined p s.seeds listed;
        gains = λ p listed. rw now_rights (gains.listed p listed);
        gains_no_more =
            λ p new. rw now_rights (gains.unlisted p new ∙ ap (count (is_right w u p)) rights);
        unique_rights = λ unique. rw now_rights (gains.unique (rw rights unique));
        other_members = λ q apart.
            rw members (with_member-other q w u invite.id now (with_reaction invite now db) apart);
        unique_ids = λ unique n.
            rw members
              (with_member_unique w u invite.id now (with_reaction invite now db) unique n);
        others_unchanged = λ q apart. rw now_rights (gains.others q apart ∙ ap (count q) rights);
      }
