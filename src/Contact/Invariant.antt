-- ===== src/Contact/Invariant.antt =====
-- The contacts and the blocks of the users, and the mutations of src/contact that write them.
use cost_x.Base.{
  ℕ, ◌≡◌, ap, ◌∙◌, ◌≤◌, ◌<◌, ◌⊎◌, inl, inr, Bool, true, false, ◌&&◌, ◌||◌, arith, count, ◌==◌,
  Bool-cases, subst,
}
use cost_x.Prisma.{Prisma}
use cost_x.Schema.{Invite, InviteStatus, Contact, Db}
use cost_x.Transaction.{ok, through}
use cost_x.Delegate
use cost_x.Delegate.{update_one}
use cost_x.Delegate.Laws.{update_one_lem}
use cost_x.Contact.Where.{is_active_contact, is_active_block}
use cost_x.Contact.Contacts.{create_contact, create_contact_pair}
use cost_x.Contact.Invites.{accept_invite, reacted}
use cost_x.Contact.Validation.{validate_reaction}
use cost_x.Contact.Mutations.{on_accept_invite}
use cost_x.Contact.Guards.{IsOpen, reaction_is_valid}
use cost_x.Contact.Changes.{Connects, Disconnects, Adds-Connects, create_contact-Adds}

-- Contacts are mutual and single, and nobody is a contact of a user whom he has blocked.
pub record IsConsistent (db : Db) : Type 0 where
  pub mutual_contacts :
      (a b : ℕ)
      → count (is_active_contact a b) db.contacts ≡ count (is_active_contact b a) db.contacts
  pub single : (a b : ℕ) → count (is_active_contact a b) db.contacts ≤ 1
  pub apart :
      (a b : ℕ)
      → 0 < count (is_active_block a b) db.user_blocks
      → count (is_active_contact a b) db.contacts ≡ 0

module _ ⦃prisma : Prisma⦄ where
  create_pair-Connects :
      (a b invite_id now : ℕ) (db : Db) {pair : Contact × Contact} {db' : Db}
      → create_contact_pair a b invite_id now db ≡ ok (pair, db')
      → Connects a b db db'
  unfolding create_contact_pair
  create_pair-Connects a b invite_id now db {pair} {db'} h =
      through (create_contact a b invite_id now) _ db h λ c between h1 r1.
        through (create_contact b a invite_id now) _ between r1 λ c' after h2 r2.
          let e : db' ≡ after = cc in
          rw (e) (
            Adds-Connects a b db between after (create_contact-Adds a b invite_id now db h1)
              (create_contact-Adds b a invite_id now between h2))

-- The invite has been accepted, and has made the two users contacts.
pub record Accepted ⦃prisma : Prisma⦄ (invite_id now : ℕ) (answer : Invite) (db db' : Db)
    : Type 0 where
  pub invite : Invite
  pub was_open : IsOpen invite_id invite db
  pub answered : answer ≡ reacted InviteStatus.accepted now invite
  pub connects :
      Connects invite.inviter_id invite.invitee_id
        (record db {
          invites =
              prisma.update_rows
                (λ (i : Invite). i.id == invite_id)
                (reacted InviteStatus.accepted now)
                db.invites;
        })
        db'

module _ ⦃prisma : Prisma⦄ where
  -- When accepting an invite comes through, the invite was stored and pending, the two users were
  -- different and no contacts in either direction, neither had blocked the other; the answer is
  -- the invite as accepted now, the two are contacts of each other, once in each direction, and of
  -- the tables only the invite and their contacts have changed.
  pub on_accept_invite-Accepted :
      (invite_id now : ℕ) (db : Db) {answer : Invite} {db' : Db}
      → on_accept_invite invite_id now db ≡ ok (answer, db')
      → Accepted invite_id now answer db db'
  unfolding on_accept_invite accept_invite
  on_accept_invite-Accepted invite_id now db {answer} {db'} h =
      through (validate_reaction invite_id) _ db h λ _ db1 h1 r1.
        let (e1, (invite, open_invite)) = reaction_is_valid invite_id db h1 in
        let p = λ (i : Invite). i.id == invite_id in
        let f = reacted InviteStatus.accepted now in
        through (update_one Delegate.invite p f) _ db1 r1 λ updated db2 h2 r2.
          let h2' : update_one Delegate.invite p f db ≡ ok (updated, db2) = rw (e1) at h2 in
          let ((old, found, is_updated), e2) = update_one_lem Delegate.invite p f db h2' in
          let is_old : old ≡ invite = ground (arith, found, open_invite.found) in
          let is_answer : updated ≡ f invite = is_updated ∙ ap f is_old in
          through (create_contact_pair updated.inviter_id updated.invitee_id updated.id now) _ db2
            r2
            λ pair db3 h3 r3.
              let e : db' ≡ db3 = cc in
              let answered : answer ≡ f invite = cc in
              record {
                invite = invite;
                was_open = open_invite;
                answered = answered;
                connects = rw (e) (
                    subst (λ d. Connects invite.inviter_id invite.invitee_id d db3) e2
                      (subst (λ (i : Invite). Connects i.inviter_id i.invitee_id db2 db3) is_answer
                        (create_pair-Connects updated.inviter_id updated.invitee_id updated.id now
                          db2 h3)));
              }

-- The two directions between `a` and `b`, or neither of them.
abbrev pub is_pair : ℕ → ℕ → ℕ → ℕ → Bool
is_pair a b x y = (x == a && y == b) || (x == b && y == a)

pub pair-cases : (a b x y : ℕ) → is_pair a b x y ≡ true → ((x ≡ a) × (y ≡ b)) ⊎ ((x ≡ b) × (y ≡ a))
pair-cases a b x y here = elim (Bool-cases (x == a && y == b)) [
  | inl same ↦ inl (ground arith, ground arith)
  | inr other ↦ inr (ground (arith, other), ground (arith, other))
]

Connects-other :
    {a b : ℕ} {db db' : Db}
    → Connects a b db db'
    → (x y : ℕ) → is_pair a b x y ≡ false
    → count (is_active_contact x y) db'.contacts ≡ count (is_active_contact x y) db.contacts
Connects-other c x y other = c.others (is_active_contact x y) (λ r h. ground arith)

pub Connects-one :
    {a b : ℕ} {db db' : Db}
    → Connects a b db db'
    → (x y : ℕ) → is_pair a b x y ≡ true
    → count (is_active_contact x y) db'.contacts ≡ 1
Connects-one {a} {b} {db} {db'} c x y here = elim (pair-cases a b x y here) [
  | inl (ex, ey) ↦ rw (ex, ey) c.direct
  | inr (ex, ey) ↦ rw (ex, ey) c.reverse
]

pub Disconnects-none :
    {a b : ℕ} {db db' : Db}
    → Disconnects a b db db'
    → (x y : ℕ) → is_pair a b x y ≡ true
    → count (is_active_contact x y) db'.contacts ≡ 0
Disconnects-none {a} {b} {db} {db'} c x y here = elim (pair-cases a b x y here) [
  | inl (ex, ey) ↦ rw (ex, ey) c.direct
  | inr (ex, ey) ↦ rw (ex, ey) c.reverse
]

-- Connecting two users none of whom has blocked the other keeps the invariant.
pub Connects-IsConsistent :
    {a b : ℕ} {db db' : Db}
    → Connects a b db db'
    → db'.user_blocks ≡ db.user_blocks
    → count (is_active_block a b) db.user_blocks ≡ 0
    → count (is_active_block b a) db.user_blocks ≡ 0
    → IsConsistent db
    → IsConsistent db'
Connects-IsConsistent {a} {b} {db} {db'} c blocks free free' ok_before = record {
  mutual_contacts = λ x y. elim (Bool-cases (is_pair a b x y)) [
    | inl here ↦ omega (arith, Connects-one c x y here, Connects-one c y x (ground arith))
    | inr other ↦ omega (
      arith,
      Connects-other c x y other,
      Connects-other c y x (ground arith),
      ok_before.mutual_contacts x y,
    )
  ];
  single = λ x y. elim (Bool-cases (is_pair a b x y)) [
    | inl here ↦ omega (arith, Connects-one c x y here)
    | inr other ↦ omega (arith, Connects-other c x y other, ok_before.single x y)
  ];
  apart = λ x y blocked. elim (Bool-cases (is_pair a b x y)) [
    | inl here ↦ absurd (elim (pair-cases a b x y here) [
      | inl (ex, ey) ↦ omega (arith, (rw (ex, ey, blocks) at blocked), free)
      | inr (ex, ey) ↦ omega (arith, (rw (ex, ey, blocks) at blocked), free')
    ])
    | inr other ↦
        omega (arith, Connects-other c x y other, ok_before.apart x y (rw (blocks) at blocked))
  ];
}
