-- ===== src/Membership/Success.antt =====
-- When accepting an invite of src/workspace-membership comes through.
use cost_x.Base.{
  ℕ, ◌≡◌, ◌<◌, refl, inl, inr, Bool, true, false, ◌&&◌, some, none, List, [], ◌∷◌, arith, count,
  count_ext, count_mono, count_split, not, ◌==◌, if◌then◌else◌, Option-cases,
}
use cost_x.Prisma.{Prisma}
use cost_x.Schema.{
  WorkspacePermission, User, Workspace, WorkspaceInvite, WorkspaceInviteStatus, WorkspaceMember, Db,
}
use cost_x.Transaction.{ok, after_run}
use cost_x.Delegate.{create, workspace_member_clash}
use cost_x.History.{Event}
use cost_x.History.Emitter.{EventEmitter, emit}
use cost_x.History.Laws.{emit_run, may_record_there, logged}
use cost_x.Membership.Where.{includes, is_active_member}
use cost_x.Membership.Permissions.{seed_permissions}
use cost_x.Membership.Members.{new_member, create_member, add_member}
use cost_x.Membership.Invites.{accept_invite, reacted}
use cost_x.Membership.Validation.{
  validate_accept_invite, validate_invite_is_pending, validate_not_already_member,
}
use cost_x.Membership.Rights.{is_right, IsDistinct}
use cost_x.Membership.Acceptance.{seed-Gains}
use cost_x.Membership.Grants.{create_many_total}

-- The member has joined by this invite.
abbrev pub came_by : ℕ → WorkspaceMember → Bool
came_by invite_id m = elim m.invite_id [ none ↦ false | some id ↦ id == invite_id ]

module _ ⦃prisma : Prisma⦄ where
  -- A test that some row passes finds a row.
  is_found :
      {Row : Type 0} (p : Row → Bool) (rows : List Row)
      → 0 < count p rows
      → (r : Row) × (prisma.find_first p rows ≡ some r)
  is_found p rows h = elim (Option-cases (prisma.find_first p rows)) [
    | inl missing ↦ absurd (omega (arith, h, prisma.find_first_none p rows missing))
    | inr found ↦ found
  ]

  is_not_found :
      {Row : Type 0} (p : Row → Bool) (rows : List Row)
      → count p rows ≡ 0
      → prisma.find_first p rows ≡ none
  is_not_found p rows h = elim (Option-cases (prisma.find_first p rows)) [
    | inl missing ↦ missing
    | inr (r, found) ↦ absurd (
        omega (
          arith,
          h,
          prisma.find_first_stored p p rows r found (prisma.find_first_some p rows r found),
        ))
  ]

  -- What accepting an invite asks for: the invite is stored and pending, the invitee and the
  -- workspace are there, the invitee is no active member and has no right of the invite, which
  -- names none twice, and no member has come by this invite before.
  pub record IsAcceptable (invite : WorkspaceInvite) (db : Db) : Type 0 where
    pub stored :
        prisma.find_first (λ (i : WorkspaceInvite). i.id == invite.id) db.workspace_invites
        ≡ some invite
    pub pending : invite.status ≡ WorkspaceInviteStatus.pending
    pub invitee : 0 < count (λ (u : User). u.id == invite.invitee_id) db.users
    pub place : 0 < count (λ (w : Workspace). w.id == invite.workspace_id) db.workspaces
    pub outside :
        count (is_active_member invite.workspace_id invite.invitee_id) db.workspace_members ≡ 0
    pub unused : count (came_by invite.id) db.workspace_members ≡ 0
    pub distinct : IsDistinct invite.permissions
    pub new :
        (p : WorkspacePermission)
        → includes invite.permissions p ≡ true
        → count (is_right invite.workspace_id invite.invitee_id p) db.workspace_permissions ≡ 0

  accept_is_accepted :
      (invite : WorkspaceInvite) (db : Db)
      → IsAcceptable invite db
      → validate_accept_invite invite db ≡ ok (tt, db)
  unfolding validate_accept_invite validate_invite_is_pending validate_not_already_member
  accept_is_accepted invite db a =
      let missing =
        is_not_found (is_active_member invite.workspace_id invite.invitee_id) db.workspace_members
          a.outside in
      ground (arith, a.pending, missing)

  -- The tables when the reaction has been stored, and when the member has.
  abbrev with_reaction : WorkspaceInvite → ℕ → Db → Db
  with_reaction invite now db = record db {
    workspace_invites =
        prisma.update_rows (λ (i : WorkspaceInvite). i.id == invite.id)
          (reacted WorkspaceInviteStatus.accepted now) db.workspace_invites;
  }

  abbrev row : WorkspaceInvite → ℕ → Db → WorkspaceMember
  row invite now db =
      new_member invite.workspace_id invite.invitee_id (some invite.id) now
        (prisma.next_id (λ (m : WorkspaceMember). m.id) db.workspace_members)

  abbrev with_member : WorkspaceInvite → ℕ → Db → Db
  with_member invite now db = record (with_reaction invite now db) {
    workspace_members = prisma.insert_row (row invite now db) db.workspace_members;
  }

  no_clash :
      (invite : WorkspaceInvite) (now : ℕ) (db : Db)
      → IsAcceptable invite db
      → count (workspace_member_clash (row invite now db)) db.workspace_members ≡ 0
  no_clash invite now db a =
      let clash = workspace_member_clash (row invite now db) in
      let active = is_active_member invite.workspace_id invite.invitee_id in
      omega (
        arith,
        a.outside,
        a.unused,
        count_split clash active db.workspace_members,
        count_mono (λ m. clash m && active m) active db.workspace_members (λ m h. ground arith),
        count_mono (λ m. clash m && not (active m)) (came_by invite.id) db.workspace_members
            (λ m h. ground arith),
      )

  still_stored :
      (invite : WorkspaceInvite) (now : ℕ) (db : Db)
      → IsAcceptable invite db
      → 0
        < count
            (λ (i : WorkspaceInvite). i.id == invite.id)
            (with_reaction invite now db).workspace_invites
  still_stored invite now db a =
      let same = λ (i : WorkspaceInvite). i.id == invite.id in
      omega (
        arith,
        prisma.count-update_rows same same (reacted WorkspaceInviteStatus.accepted now)
            db.workspace_invites,
        count_ext (λ i. same (if same i then reacted WorkspaceInviteStatus.accepted now i else i))
            same db.workspace_invites (λ i. ground arith),
        prisma.find_first_stored same same db.workspace_invites invite a.stored (ground arith),
      )

  create_member_run :
      (invite : WorkspaceInvite) (now : ℕ) (db : Db)
      → IsAcceptable invite db
      → create_member invite.workspace_id invite.invitee_id
          (some invite.id)
          now
          (with_reaction invite now db)
        ≡ ok (row invite now db, with_member invite now db)
  unfolding create_member create
  create_member_run invite now db a =
      let (u, user_there) = is_found (λ (u : User). u.id == invite.invitee_id) db.users a.invitee in
      let (w, place_there) =
        is_found (λ (w : Workspace). w.id == invite.workspace_id) db.workspaces a.place in
      let (i, invite_there) =
        is_found (λ (i : WorkspaceInvite). i.id == invite.id)
          (with_reaction invite now db).workspace_invites (still_stored invite now db a) in
      let free =
        is_not_found (workspace_member_clash (row invite now db)) db.workspace_members
          (no_clash invite now db a) in
      ground (arith, user_there, place_there, invite_there, free)

  seed-Returns :
      (w u : ℕ) (ps : List WorkspacePermission) (db : Db)
      → IsDistinct ps
      → ((p : WorkspacePermission)
          → includes ps p ≡ true
          → count (is_right w u p) db.workspace_permissions ≡ 0)
      → (db' : Db) × (seed_permissions w u ps db ≡ ok (tt, db'))
  unfolding seed_permissions
  seed-Returns w u [] db distinct new = (db, refl)
  seed-Returns w u (p ∷ ps) db distinct new = create_many_total w u (p ∷ ps) db distinct new

module _ ⦃prisma : Prisma⦄ ⦃emitter : EventEmitter⦄ where
  add_member_run :
      (invite : WorkspaceInvite) (actor : User) (now : ℕ) (db : Db)
      → IsAcceptable invite db
      → 0 < count (λ (u : User). u.id == actor.id) db.users
      → add_member invite.workspace_id invite.invitee_id
          (some invite.id)
          actor.id
          now
          (with_reaction invite now db)
        ≡ ok (
          row invite now db,
          logged
              (Event.workspace_member_created invite.workspace_id actor.id (row invite now db))
              (with_member invite now db),
        )
  unfolding add_member
  add_member_run invite actor now db a acts =
      let member = row invite now db in
      let event = Event.workspace_member_created invite.workspace_id actor.id member in
      after_run (create_member invite.workspace_id invite.invitee_id (some invite.id) now) _
        (with_reaction invite now db) (create_member_run invite now db a)
        (after_run (emit event) _ (with_member invite now db)
          (emit_run event (with_member invite now db)
            (may_record_there actor.id invite.workspace_id db acts a.place))
          refl)

  -- An invite that is stored and pending, of an invitee who is there, is no active member of the
  -- workspace that is there, and holds none of its permissions, of which none is named twice, and
  -- by which nobody has joined yet, is accepted without an error by an actor who is a user of the
  -- table.
  pub accept_invite_total :
      (invite : WorkspaceInvite) (actor : User) (now : ℕ) (db : Db)
      → IsAcceptable invite db
      → 0 < count (λ (u : User). u.id == actor.id) db.users
      → (answer : WorkspaceInvite) × (db' : Db) × (accept_invite invite actor now db
          ≡ ok (answer, db'))
  unfolding accept_invite
  accept_invite_total invite actor now db a acts =
      let added = add_member_run invite actor now db a acts in
      let member_logged =
        logged (Event.workspace_member_created invite.workspace_id actor.id (row invite now db))
          (with_member invite now db) in
      let (seeded, seeds) =
        seed-Returns invite.workspace_id invite.invitee_id invite.permissions member_logged
          a.distinct a.new in
      let answer = reacted WorkspaceInviteStatus.accepted now invite in
      let event = Event.workspace_invite_accepted invite.workspace_id actor.id answer in
      let gains =
        seed-Gains invite.workspace_id invite.invitee_id invite.permissions member_logged seeds in
      let recorded = emit_run event seeded (
        may_record_there actor.id invite.workspace_id seeded (rw (gains.same) acts)
          (rw (gains.same) a.place)) in
      (
        answer,
        logged event seeded,
        ground (arith, accept_is_accepted invite db a, a.stored, added, seeds, recorded),
      )
