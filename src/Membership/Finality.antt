-- ===== src/Membership/Finality.antt =====
-- The life of an invite of src/workspace-membership: it is reacted to once.
use cost_x.Base.{
  ℕ, ◌≡◌, ◌<◌, refl, Bool, true, false, not, ◌&&◌, some, List, inl, inr, ◌==◌, arith, count,
  count_ext, count_never, Bool-cases, if◌then◌else◌,
}
use cost_x.Prisma.{Prisma}
use cost_x.Schema.{User, WorkspaceInvite, WorkspaceInviteStatus, workspace_invite_status_index, Db}
use cost_x.Transaction.{M, ok, err, through, improper_workspace_invite_status}
use cost_x.Delegate.Laws.{find_counted}
use cost_x.History.Emitter.{EventEmitter}
use cost_x.History.Laws.{emit_lem}
use cost_x.Membership.Acceptance.{accept_invite-Joined, accept_invite_stored}
use cost_x.Membership.Validation.{
  validate_invite_is_pending, validate_accept_invite, validate_reject_invite,
  validate_cancel_invite,
}
use cost_x.Membership.Invites.{accept_invite, reject_invite, cancel_invite, reacted}
use cost_x.Membership.Guards.{invite_is_pending, accept_is_valid}

-- The three ways to react to an invite.
pub data Reaction : Type 0 where
  accept reject cancel : Reaction

abbrev pub status_after : Reaction → WorkspaceInviteStatus
status_after accept = WorkspaceInviteStatus.accepted
status_after reject = WorkspaceInviteStatus.rejected
status_after cancel = WorkspaceInviteStatus.cancelled

abbrev is_status : Reaction → WorkspaceInvite → Bool
is_status r i =
    workspace_invite_status_index i.status == workspace_invite_status_index (status_after r)

status_same :
    (r : Reaction) (s : WorkspaceInviteStatus)
    → (workspace_invite_status_index s == workspace_invite_status_index (status_after r)) ≡ true
    → s ≡ status_after r
status_same accept s h = ground arith
status_same reject s h = ground arith
status_same cancel s h = ground arith

not_pending :
    (r : Reaction) (invite : WorkspaceInvite) (db : Db)
    → invite.status ≡ status_after r
    → validate_invite_is_pending invite db ≡ err improper_workspace_invite_status
unfolding validate_invite_is_pending
not_pending accept invite db h = ground arith
not_pending reject invite db h = ground arith
not_pending cancel invite db h = ground arith

module _ ⦃prisma : Prisma⦄ ⦃emitter : EventEmitter⦄ where
  abbrev pub react : Reaction → WorkspaceInvite → User → ℕ → M WorkspaceInvite
  react accept = accept_invite
  react reject = reject_invite
  react cancel = cancel_invite

  was_pending :
      (r : Reaction) (invite : WorkspaceInvite) (actor : User) (now : ℕ) (db : Db)
      {answer : WorkspaceInvite} {db' : Db}
      → react r invite actor now db ≡ ok (answer, db')
      → invite.status ≡ WorkspaceInviteStatus.pending
  unfolding accept_invite reject_invite cancel_invite validate_reject_invite validate_cancel_invite
  was_pending accept invite actor now db h =
      through (validate_accept_invite invite) _ db h
        λ _ db1 valid rest. (accept_is_valid invite db valid).1
  was_pending reject invite actor now db h =
      through (validate_invite_is_pending invite) _ db h
        λ _ db1 valid rest. (invite_is_pending invite db valid).1
  was_pending cancel invite actor now db h =
      through (validate_invite_is_pending invite) _ db h
        λ _ db1 valid rest. (invite_is_pending invite db valid).1

  is_refused :
      (r : Reaction) (invite : WorkspaceInvite) (actor : User) (now : ℕ) (db : Db)
      → validate_invite_is_pending invite db ≡ err improper_workspace_invite_status
      → react r invite actor now db ≡ err improper_workspace_invite_status
  unfolding accept_invite reject_invite cancel_invite validate_accept_invite validate_reject_invite
      validate_cancel_invite
  is_refused accept invite actor now db h = ground (arith, h)
  is_refused reject invite actor now db h = ground (arith, h)
  is_refused cancel invite actor now db h = ground (arith, h)

  -- The answer to a reaction is the invite in its new status.
  answered :
      (r : Reaction) (invite : WorkspaceInvite) (actor : User) (now : ℕ) (db : Db)
      {answer : WorkspaceInvite} {db' : Db}
      → prisma.find_first (λ (i : WorkspaceInvite). i.id == invite.id) db.workspace_invites
        ≡ some invite
      → react r invite actor now db ≡ ok (answer, db')
      → answer ≡ reacted (status_after r) now invite
  unfolding reject_invite cancel_invite validate_reject_invite validate_cancel_invite
  answered accept invite actor now db stored h =
      (accept_invite-Joined invite actor now db stored h).answered
  answered reject invite actor now db stored h =
      through (validate_invite_is_pending invite) _ db h λ _ db1 valid rest.
        let same = (invite_is_pending invite db valid).0 in grind (arith, emit_lem)
  answered cancel invite actor now db stored h =
      through (validate_invite_is_pending invite) _ db h λ _ db1 valid rest.
        let same = (invite_is_pending invite db valid).0 in grind (arith, emit_lem)

  -- What a reaction has stored.
  stored_by :
      (r : Reaction) (invite : WorkspaceInvite) (actor : User) (now : ℕ) (db : Db)
      {answer : WorkspaceInvite} {db' : Db}
      → prisma.find_first (λ (i : WorkspaceInvite). i.id == invite.id) db.workspace_invites
        ≡ some invite
      → react r invite actor now db ≡ ok (answer, db')
      → db'.workspace_invites
        ≡ prisma.update_rows
            (λ (i : WorkspaceInvite). i.id == invite.id)
            (reacted (status_after r) now)
            db.workspace_invites
  unfolding reject_invite cancel_invite validate_reject_invite validate_cancel_invite
  stored_by accept invite actor now db stored h = accept_invite_stored invite actor now db stored h
  stored_by reject invite actor now db stored h =
      through (validate_invite_is_pending invite) _ db h λ _ db1 valid rest.
        let same = (invite_is_pending invite db valid).0 in grind (arith, emit_lem)
  stored_by cancel invite actor now db stored h =
      through (validate_invite_is_pending invite) _ db h λ _ db1 valid rest.
        let same = (invite_is_pending invite db valid).0 in grind (arith, emit_lem)

  -- The row of an id among rows that were all given a status under that id.
  status_of_found :
      (r : Reaction) (id now : ℕ) (rows : List WorkspaceInvite) (row : WorkspaceInvite)
      → prisma.find_first
          (λ i. i.id == id)
          (prisma.update_rows (λ i. i.id == id) (reacted (status_after r) now) rows)
        ≡ some row
      → row.status ≡ status_after r
  status_of_found r id now rows row found =
      let same = λ (i : WorkspaceInvite). i.id == id in
      let f = reacted (status_after r) now in
      let odd = λ (i : WorkspaceInvite). same i && not (is_status r i) in
      let at_id = prisma.find_first_some same (prisma.update_rows same f rows) row found in
      elim (Bool-cases (is_status r row)) [
        | inl good ↦ status_same r row.status good
        | inr bad ↦ absurd (
            omega (
              arith,
              prisma.find_first_stored same odd (prisma.update_rows same f rows) row found
                  (rw (at_id, bad) refl),
              prisma.count-update_rows odd same f rows,
              count_never (λ i. odd (if same i then f i else i)) rows (λ i. even r id now i),
            ))
      ]
    where
      even :
          (r : Reaction) (id now : ℕ) (i : WorkspaceInvite)
          → ((if i.id == id then reacted (status_after r) now i else i).id == id
              && not (is_status r (if i.id == id then reacted (status_after r) now i else i)))
            ≡ false
      even r id now i = ground arith

  -- An invite that the table holds and that is accepted, rejected or cancelled was pending and is
  -- answered as reacted to now, in the status of the reaction. Afterwards the table has a row of its
  -- id in that status, and whatever is tried with the row that is found under the id, by whomever
  -- and on whatever tables, is refused.
  pub react_once :
      (r : Reaction) (invite : WorkspaceInvite) (actor : User) (now : ℕ) (db : Db)
      {answer : WorkspaceInvite} {db' : Db}
      → prisma.find_first (λ (i : WorkspaceInvite). i.id == invite.id) db.workspace_invites
        ≡ some invite
      → react r invite actor now db ≡ ok (answer, db')
      → (invite.status ≡ WorkspaceInviteStatus.pending)
        × (answer ≡ reacted (status_after r) now invite)
        × ((row : WorkspaceInvite) × (prisma.find_first
                (λ (i : WorkspaceInvite). i.id == invite.id)
                db'.workspace_invites
              ≡ some row)
            × (row.status ≡ status_after r)
            × ((again : Reaction) (anybody : User) (later : ℕ) (tables : Db)
                → react again row anybody later tables ≡ err improper_workspace_invite_status))
  react_once r invite actor now db {answer} {db'} stored h =
      let same = λ (i : WorkspaceInvite). i.id == invite.id in
      let f = reacted (status_after r) now in
      let rows = stored_by r invite actor now db stored h in
      let there : 0 < count same (prisma.update_rows same f db.workspace_invites) = omega (
        arith,
        prisma.find_first_stored same same db.workspace_invites invite stored (ground arith),
        prisma.count-update_rows same same f db.workspace_invites,
        count_ext (λ i. same (if same i then f i else i)) same db.workspace_invites
            (λ i. ground arith),
      ) in
      let (row, found) = find_counted same (prisma.update_rows same f db.workspace_invites) there in
      let status = status_of_found r invite.id now db.workspace_invites row found in
      (
        was_pending r invite actor now db h,
        answered r invite actor now db stored h,
        (
          row,
          rw (rows) found,
          status,
          λ again anybody later tables.
              is_refused again row anybody later tables (not_pending r row tables status),
        ),
      )
