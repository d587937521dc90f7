-- ===== src/Contact/Changes.antt =====
-- How the calls of src/contact change the contacts, counted.
use cost_x.Base.{
  ℕ, ◌+◌, ◌≡◌, refl, ap, ◌∙◌, Bool, true, false, ◌&&◌, none, arith, bit, count, count_ext,
  count_never, List, ◌==◌, if◌then◌else◌,
}
use cost_x.Prisma.{Prisma}
use cost_x.Schema.{Contact, Db}
use cost_x.Transaction.{ok, through}
use cost_x.Delegate
use cost_x.Delegate.{create, connect, contact_clash}
use cost_x.Delegate.Laws.{next_row, create_lem, connect_lem}
use cost_x.Contact.Where.{is_active_contact, is_contact_between}
use cost_x.Contact.Contacts.{
  new_contact, removed_contact, create_contact, remove_contact_pair_by_user_ids,
}

-- From `db` to `db'` a contact has been added, and there was no active one of its kind.
pub record Adds (source target : ℕ) (db db' : Db) : Type 0 where
  pub row : Contact
  pub is_source : row.source_user_id ≡ source
  pub is_target : row.target_user_id ≡ target
  pub is_active : row.removed_at ≡ none
  pub was_free : count (is_active_contact source target) db.contacts ≡ 0
  pub counted : (q : Contact → Bool) → count q db'.contacts ≡ bit (q row) + count q db.contacts
  pub same : db' ≡ record db { contacts = db'.contacts }

module _ ⦃prisma : Prisma⦄ where
  pub create_contact-Adds :
      (source target invite_id now : ℕ) (db : Db) {c : Contact} {db' : Db}
      → create_contact source target invite_id now db ≡ ok (c, db')
      → Adds source target db db'
  unfolding create_contact
  create_contact-Adds source target invite_id now db {c} {db'} h =
      through (connect Delegate.invite (λ i. i.id == invite_id)) _ db h λ _ db1 h1 r1.
        through (connect Delegate.user (λ u. u.id == source)) _ db1 r1 λ _ db2 h2 r2.
          through (connect Delegate.user (λ u. u.id == target)) _ db2 r2 λ _ db3 h3 r3.
            let e : db3 ≡ db = cc (
              connect_lem Delegate.invite (λ i. i.id == invite_id) db h1,
              connect_lem Delegate.user (λ u. u.id == source) db1 h2,
              connect_lem Delegate.user (λ u. u.id == target) db2 h3,
            ) in
            let make = new_contact source target invite_id now in
            let (_, free, last) = create_lem Delegate.contact make db (rw (e) at r3) in
            let row = next_row Delegate.contact make db in
            record {
              row = row;
              is_source = refl;
              is_target = refl;
              is_active = refl;
              was_free = omega (
                arith,
                free,
                count_ext (contact_clash row) (is_active_contact source target) db.contacts
                    (λ c. ground arith),
              );
              counted = λ q. rw (last) (prisma.count-insert_row q row db.contacts);
              same = rw (last) refl;
            }

-- From `db` to `db'` two users have become contacts of each other, and nothing else has changed.
pub record Connects (a b : ℕ) (db db' : Db) : Type 0 where
  pub distinct : (a == b) ≡ false
  pub direct : count (is_active_contact a b) db'.contacts ≡ 1
  pub reverse : count (is_active_contact b a) db'.contacts ≡ 1
  pub was_direct : count (is_active_contact a b) db.contacts ≡ 0
  pub was_reverse : count (is_active_contact b a) db.contacts ≡ 0
  pub others :
      (q : Contact → Bool)
      → ((c : Contact) → is_contact_between a b c ≡ true → q c ≡ false)
      → count q db'.contacts ≡ count q db.contacts
  pub same : db' ≡ record db { contacts = db'.contacts }

pub Adds-Connects :
    (a b : ℕ) (db between db' : Db)
    → Adds a b db between
    → Adds b a between db'
    → Connects a b db db'
Adds-Connects a b db between db' x y =
    let p = is_active_contact a b in
    let q = is_active_contact b a in
    let px : p x.row ≡ true = ground (arith, x.is_source, x.is_target, x.is_active) in
    let qy : q y.row ≡ true = ground (arith, y.is_source, y.is_target, y.is_active) in
    let apart : (a == b) ≡ false =
      ground (arith, x.is_source, x.is_target, x.is_active, x.counted q, y.was_free) in
    let py : p y.row ≡ false = ground (arith, y.is_source, y.is_target, apart) in
    record {
      distinct = apart;
      direct = ground (arith, y.counted p, x.counted p, x.was_free, px, py);
      reverse = ground (arith, y.counted q, y.was_free, qy);
      was_direct = x.was_free;
      was_reverse = omega (arith, x.counted q, y.was_free);
      others = λ r other. ground (
        arith,
        y.counted r,
        x.counted r,
        other x.row,
        other y.row,
        x.is_source,
        x.is_target,
        x.is_active,
        y.is_source,
        y.is_target,
        y.is_active,
      );
      same =
          y.same ∙ ap {A = Db} {B = Db} (λ (d : Db). record d { contacts = db'.contacts }) x.same;
    }

-- From `db` to `db'` two users are no contacts of each other any more, and nothing else has changed.
pub record Disconnects (a b : ℕ) (db db' : Db) : Type 0 where
  pub direct : count (is_active_contact a b) db'.contacts ≡ 0
  pub reverse : count (is_active_contact b a) db'.contacts ≡ 0
  pub others :
      (x y : ℕ)
      → (x == a && y == b) ≡ false
      → (x == b && y == a) ≡ false
      → count (is_active_contact x y) db'.contacts ≡ count (is_active_contact x y) db.contacts
  pub same : db' ≡ record db { contacts = db'.contacts }

module _ ⦃prisma : Prisma⦄ where
  pub remove_pair-Disconnects :
      (a b user_id now : ℕ) (db : Db) {cs : List Contact} {db' : Db}
      → remove_contact_pair_by_user_ids a b user_id now db ≡ ok (cs, db')
      → Disconnects a b db db'
  unfolding remove_contact_pair_by_user_ids
  remove_pair-Disconnects a b user_id now db {cs} {db'} h =
      let w = is_contact_between a b in
      let f = removed_contact user_id now in
      let last : db' ≡ record db { contacts = prisma.update_rows w f db.contacts } = cc in
      let counted = λ (x y : ℕ). prisma.count-update_rows (is_active_contact x y) w f db.contacts in
      record {
        direct = rw (last) (
            counted a b
            ∙ count_never (λ c. is_active_contact a b (if w c then f c else c)) db.contacts
                (λ c. ground arith));
        reverse = rw (last) (
            counted b a
            ∙ count_never (λ c. is_active_contact b a (if w c then f c else c)) db.contacts
                (λ c. ground arith));
        others = λ x y other other'. rw (last) (
            counted x y
            ∙ count_ext (λ c. is_active_contact x y (if w c then f c else c))
                (is_active_contact x y) db.contacts (λ c. ground (arith, other, other')));
        same = rw (last) refl;
      }
