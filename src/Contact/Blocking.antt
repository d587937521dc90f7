-- ===== src/Contact/Blocking.antt =====
-- Blocking a user, and what the mutations of src/contact keep of the contacts and the blocks.
use cost_x.Base.{
  ℕ, ◌+◌, ◌≡◌, ap, inl, inr, false, ◌&&◌, arith, bit, count, count_ext, ◌==◌, Bool-cases, subst,
  sym,
}
use cost_x.Prisma.{Prisma}
use cost_x.Schema.{Invite, UserBlock, Db}
use cost_x.Transaction.{ok, through}
use cost_x.Delegate
use cost_x.Delegate.{create, connect, user_block_clash}
use cost_x.Delegate.Laws.{next_row, create_lem, connect_lem}
use cost_x.Contact.Where.{is_active_contact, is_active_block}
use cost_x.Contact.Contacts.{remove_contact_pair_by_user_ids}
use cost_x.Contact.Blocks.{new_block, create_block, block_user}
use cost_x.Contact.Validation.{
  validate_create_user_block, validate_blocked_user_exists, validate_no_user_block_exists,
}
use cost_x.Contact.Mutations.{on_accept_invite, on_block_user}
use cost_x.Contact.Changes.{Disconnects, remove_pair-Disconnects}
use cost_x.Contact.Invariant.{
  IsConsistent, on_accept_invite-Accepted, Connects-IsConsistent, Disconnects-none, is_pair,
}

-- From `db` to `db'` the blocker has blocked the blocked user, who are no contacts any more.
pub record Blocks (blocked blocker : ℕ) (db db' : Db) : Type 0 where
  pub was_free : count (is_active_block blocked blocker) db.user_blocks ≡ 0
  pub is_blocked : count (is_active_block blocked blocker) db'.user_blocks ≡ 1
  pub other_blocks :
      (x y : ℕ)
      → (x == blocked && y == blocker) ≡ false
      → count (is_active_block x y) db'.user_blocks ≡ count (is_active_block x y) db.user_blocks
  pub disconnects : Disconnects blocked blocker (record db { user_blocks = db'.user_blocks }) db'

module _ ⦃prisma : Prisma⦄ where
  abbrev with_block : ℕ → ℕ → ℕ → Db → Db
  with_block blocked blocker now db = record db {
    user_blocks =
        prisma.insert_row (next_row Delegate.user_block (new_block blocked blocker now) db)
          db.user_blocks;
  }

  created_block :
      (blocked blocker now : ℕ) (db : Db) {b : UserBlock} {db' : Db}
      → create_block blocked blocker now db ≡ ok (b, db')
      → (db' ≡ with_block blocked blocker now db)
        × (count (is_active_block blocked blocker) db.user_blocks ≡ 0)
  unfolding create_block
  created_block blocked blocker now db {b} {db'} h =
      through (connect Delegate.user (λ u. u.id == blocked)) _ db h λ _ db1 h1 r1.
        through (connect Delegate.user (λ u. u.id == blocker)) _ db1 r1 λ _ db2 h2 r2.
          let e : db2 ≡ db = cc (
            connect_lem Delegate.user (λ u. u.id == blocked) db h1,
            connect_lem Delegate.user (λ u. u.id == blocker) db1 h2,
          ) in
          let make = new_block blocked blocker now in
          let (_, free, last) = create_lem Delegate.user_block make db (rw (e) at r2) in
          let row = next_row Delegate.user_block make db in
          (
            last,
            omega (
              arith,
              free,
              count_ext (user_block_clash row) (is_active_block blocked blocker) db.user_blocks
                  (λ c. ground arith),
            ),
          )

  with_block-count :
      (x y blocked blocker now : ℕ) (db : Db)
      → count (is_active_block x y) (with_block blocked blocker now db).user_blocks
        ≡ bit (x == blocked && y == blocker) + count (is_active_block x y) db.user_blocks
  with_block-count x y blocked blocker now db = ground (
    arith,
    prisma.count-insert_row (is_active_block x y)
        (next_row Delegate.user_block (new_block blocked blocker now) db) db.user_blocks,
  )

  pub block_user-Blocks :
      (blocked blocker user_id now : ℕ) (db : Db) {b : UserBlock} {db' : Db}
      → block_user blocked blocker user_id now db ≡ ok (b, db')
      → Blocks blocked blocker db db'
  unfolding block_user
  block_user-Blocks blocked blocker user_id now db {b} {db'} h =
      through (create_block blocked blocker now) _ db h λ c between h1 r1.
        through (remove_contact_pair_by_user_ids blocked blocker user_id now) _ between r1
          λ cs after h2 r2.
            let (e1, free) = created_block blocked blocker now db h1 in
            let e2 : db' ≡ after = cc in
            let d : Disconnects blocked blocker (with_block blocked blocker now db) db' = rw (e2) (
              subst (λ from. Disconnects blocked blocker from after) e1
                (remove_pair-Disconnects blocked blocker user_id now between h2)) in
            let e3 : db'.user_blocks ≡ (with_block blocked blocker now db).user_blocks =
              ap (λ (x : Db). x.user_blocks) d.same in
            record {
              was_free = free;
              is_blocked =
                  rw (e3)
                    (ground (arith, free, with_block-count blocked blocker blocked blocker now db));
              other_blocks = λ x y other.
                  rw (e3) (ground (arith, other, with_block-count x y blocked blocker now db));
              disconnects =
                  subst (λ rows. Disconnects blocked blocker (record db { user_blocks = rows }) db')
                    (sym e3) d;
            }

Disconnects-other :
    {a b : ℕ} {db db' : Db}
    → Disconnects a b db db'
    → (x y : ℕ) → is_pair a b x y ≡ false
    → count (is_active_contact x y) db'.contacts ≡ count (is_active_contact x y) db.contacts
Disconnects-other d x y other = d.others x y (ground arith) (ground arith)

pub Blocks-IsConsistent :
    {blocked blocker : ℕ} {db db' : Db}
    → Blocks blocked blocker db db'
    → IsConsistent db
    → IsConsistent db'
Blocks-IsConsistent {blocked} {blocker} {db} {db'} b before = record {
  mutual_contacts = λ x y. elim (Bool-cases (is_pair blocked blocker x y)) [
    | inl here ↦ omega (
      arith,
      Disconnects-none b.disconnects x y here,
      Disconnects-none b.disconnects y x (ground arith),
    )
    | inr other ↦ omega (
      arith,
      Disconnects-other b.disconnects x y other,
      Disconnects-other b.disconnects y x (ground arith),
      before.mutual_contacts x y,
    )
  ];
  single = λ x y. elim (Bool-cases (is_pair blocked blocker x y)) [
    | inl here ↦ omega (arith, Disconnects-none b.disconnects x y here)
    | inr other ↦ omega (arith, Disconnects-other b.disconnects x y other, before.single x y)
  ];
  apart = λ x y active. elim (Bool-cases (is_pair blocked blocker x y)) [
    | inl here ↦ Disconnects-none b.disconnects x y here
    | inr other ↦ omega (
      arith,
      Disconnects-other b.disconnects x y other,
      before.apart x y (omega (arith, active, b.other_blocks x y (ground arith))),
    )
  ];
}

module _ ⦃prisma : Prisma⦄ where
  -- Accepting an invite that comes through keeps the invariant: contacts stay mutual and single,
  -- and no contact arises between users one of whom has blocked the other.
  pub on_accept_invite-IsConsistent :
      (invite_id now : ℕ) (db : Db) {answer : Invite} {db' : Db}
      → on_accept_invite invite_id now db ≡ ok (answer, db')
      → IsConsistent db
      → IsConsistent db'
  on_accept_invite-IsConsistent invite_id now db h before =
      let a = on_accept_invite-Accepted invite_id now db h in
      Connects-IsConsistent a.connects (ap (λ (d : Db). d.user_blocks) a.connects.same)
        a.was_open.inviter_free a.was_open.invitee_free
        (record {
          mutual_contacts = before.mutual_contacts;
          single = before.single;
          apart = before.apart;
        })

  create_user_block_is_valid :
      (blocker blocked : ℕ) (db : Db) {db' : Db}
      → validate_create_user_block blocker blocked db ≡ ok (tt, db')
      → (db' ≡ db) × ((blocker == blocked) ≡ false)
  unfolding validate_create_user_block validate_blocked_user_exists validate_no_user_block_exists
  create_user_block_is_valid blocker blocked db h = ground arith

  -- When a blocking comes through, the two users are different and the block is new; the block is
  -- active, once, the two are contacts in no direction, and every other block and contact counts
  -- as before.
  pub on_block_user-Blocks :
      (blocker blocked user_id now : ℕ) (db : Db) {b : UserBlock} {db' : Db}
      → on_block_user blocker blocked user_id now db ≡ ok (b, db')
      → ((blocker == blocked) ≡ false) × Blocks blocked blocker db db'
  unfolding on_block_user
  on_block_user-Blocks blocker blocked user_id now db {b} {db'} h =
      through (validate_create_user_block blocker blocked) _ db h λ _ db1 h1 r1.
        let (same, apart) = create_user_block_is_valid blocker blocked db h1 in
        (apart, block_user-Blocks blocked blocker user_id now db (rw (same) at r1))

  -- Blocking a user keeps the invariant: whoever is blocked is no contact of the blocker any more,
  -- and contacts stay mutual and single.
  pub on_block_user-IsConsistent :
      (blocker blocked user_id now : ℕ) (db : Db) {b : UserBlock} {db' : Db}
      → on_block_user blocker blocked user_id now db ≡ ok (b, db')
      → IsConsistent db
      → IsConsistent db'
  on_block_user-IsConsistent blocker blocked user_id now db h =
      Blocks-IsConsistent (on_block_user-Blocks blocker blocked user_id now db h).1
