-- ===== src/Membership/Gains.antt =====
-- Gaining permissions: what a change of the rights of one user amounts to, and one right written.
use cost_x.Base.{
  ℕ, ◌+◌, ◌≤◌, ◌<◌, ◌≡◌, refl, inl, inr, Bool, true, false, List, [], ◌∷◌, arith, count, count_ext,
  bit, Option-cases,
}
use cost_x.Prisma.{Prisma}
use cost_x.Schema.{WorkspacePermission, is_workspace_permission, UserWorkspacePermission, Db}
use cost_x.Transaction.{ok, err, unique_constraint_violation}
use cost_x.Delegate
use cost_x.Delegate.{create, create_many, create_missing}
use cost_x.Membership.Where.{includes, is_right_of}
use cost_x.Membership.Permissions.{right}
use cost_x.Membership.Rights.{is_right, HasUniqueRights}

-- From `db` to `db'` the user has gained permissions of the list, and nothing else has changed.
pub record Gains (w u : ℕ) (ps : List WorkspacePermission) (db db' : Db) : Type 0 where
  pub rows : List UserWorkspacePermission
  pub same : db' ≡ record db { workspace_permissions = rows }
  -- What does not ask for the rights of this user in this workspace counts as before.
  pub others :
      (q : UserWorkspacePermission → Bool)
      → ((g : UserWorkspacePermission) → is_right_of w u g ≡ true → q g ≡ false)
      → count q rows ≡ count q db.workspace_permissions
  pub unlisted :
      (p : WorkspacePermission)
      → includes ps p ≡ false
      → count (is_right w u p) rows ≡ count (is_right w u p) db.workspace_permissions
  pub listed : (p : WorkspacePermission) → includes ps p ≡ true → 0 < count (is_right w u p) rows
  pub more :
      (p : WorkspacePermission)
      → count (is_right w u p) db.workspace_permissions ≤ count (is_right w u p) rows
  pub unique : HasUniqueRights db.workspace_permissions → HasUniqueRights rows

module _ ⦃prisma : Prisma⦄ (w u : ℕ) where
  abbrev pub next : Db → ℕ
  next db = prisma.next_id (λ (g : UserWorkspacePermission). g.id) db.workspace_permissions

  abbrev pub with_right : WorkspacePermission → Db → Db
  with_right p db = record db {
    workspace_permissions = prisma.insert_row (right w u p (next db)) db.workspace_permissions;
  }

  -- The rows that keep the row of a permission out are the rows of that permission.
  pub clash-is_right :
      (p : WorkspacePermission) (id : ℕ) (rows : List UserWorkspacePermission)
      → count (Delegate.user_workspace_permission.clashes (right w u p id)) rows
        ≡ count (is_right w u p) rows
  clash-is_right p id rows =
      count_ext (Delegate.user_workspace_permission.clashes (right w u p id)) (is_right w u p) rows
        (λ g. ground arith)

  -- `create` of a permission that is not there.
  pub create-right :
      (p : WorkspacePermission) (db : Db)
      → count (is_right w u p) db.workspace_permissions ≡ 0
      → create Delegate.user_workspace_permission (right w u p) db
        ≡ ok (right w u p (next db), with_right p db)
  unfolding create
  create-right p db h =
      let clash = Delegate.user_workspace_permission.clashes (right w u p (next db)) in
      elim (Option-cases (prisma.find_first clash db.workspace_permissions)) [
        | inl free ↦ rw (free, create)
        | inr (g, found) ↦ absurd (
            omega (
              arith,
              h,
              clash-is_right p (next db) db.workspace_permissions,
              prisma.find_first_stored clash clash db.workspace_permissions g found
                  (prisma.find_first_some clash db.workspace_permissions g found),
            ))
      ]

  -- `create` of a permission that is there.
  pub create-right_twice :
      (p : WorkspacePermission) (db : Db)
      → 0 < count (is_right w u p) db.workspace_permissions
      → create Delegate.user_workspace_permission (right w u p) db ≡ err unique_constraint_violation
  unfolding create
  create-right_twice p db h =
      let clash = Delegate.user_workspace_permission.clashes (right w u p (next db)) in
      elim (Option-cases (prisma.find_first clash db.workspace_permissions)) [
        | inl free ↦ absurd (
            omega (
              arith,
              h,
              clash-is_right p (next db) db.workspace_permissions,
              prisma.find_first_none clash db.workspace_permissions free,
            ))
        | inr (g, found) ↦ rw (found, create)
      ]

-- The rows of a permission depend only on its place in the enum.
pub is_right_index :
    (w u : ℕ) (a b : WorkspacePermission) (rows : List UserWorkspacePermission)
    → is_workspace_permission a b ≡ true
    → count (is_right w u a) rows ≡ count (is_right w u b) rows
is_right_index w u a b rows h = count_ext (is_right w u a) (is_right w u b) rows (λ g. ground arith)

module _ ⦃prisma : Prisma⦄ (w u : ℕ) where
  pub with_right-count :
      (q : UserWorkspacePermission → Bool) (p : WorkspacePermission) (db : Db)
      → count q (with_right w u p db).workspace_permissions
        ≡ bit (q (right w u p (next w u db))) + count q db.workspace_permissions
  with_right-count q p db =
      prisma.count-insert_row q (right w u p (next w u db)) db.workspace_permissions

  pub Gains-step :
      (p : WorkspacePermission) (db : Db)
      → count (is_right w u p) db.workspace_permissions ≡ 0
      → Gains w u (p ∷ []) db (with_right w u p db)
  Gains-step p db h = record {
    rows = (with_right w u p db).workspace_permissions;
    same = refl;
    others = λ q apart. ground (arith, with_right-count q p db, apart (right w u p (next w u db)));
    unlisted = λ a new. ground (arith, with_right-count (is_right w u a) p db);
    listed = λ a old. ground (arith, with_right-count (is_right w u a) p db);
    more = λ a. omega (arith, with_right-count (is_right w u a) p db);
    unique = λ all w' u' a. ground (
      arith,
      with_right-count (is_right w' u' a) p db,
      all w' u' a,
      is_right_index w' u' p a db.workspace_permissions,
    );
  }

pub Gains-nil : (w u : ℕ) (db : Db) → Gains w u [] db db
Gains-nil w u db = record {
  rows = db.workspace_permissions;
  same = refl;
  others = λ q apart. refl;
  unlisted = λ p new. refl;
  listed = λ p old. cc;
  more = λ p. omega arith;
  unique = λ all. all;
}

-- First one permission, then the rest of the list.
pub Gains-cons :
    {w u : ℕ} {p : WorkspacePermission} {ps : List WorkspacePermission} {a b c : Db}
    → Gains w u (p ∷ []) a b
    → Gains w u ps b c
    → Gains w u (p ∷ ps) a c
Gains-cons {w} {u} {p} {ps} {a} {b} {c} first rest = record {
  rows = rest.rows;
  same = ground (arith, first.same, rest.same);
  others = λ q apart. ground (arith, first.same, first.others q apart, rest.others q apart);
  unlisted = λ x new. ground (arith, first.same, first.unlisted x, rest.unlisted x);
  listed = λ x old. ground (arith, first.same, first.listed x, rest.listed x, rest.more x);
  more = λ x. ground (arith, first.same, first.more x, rest.more x);
  unique = λ all. rest.unique (rw first.same (first.unique all));
}

-- A permission that is held already needs no row.
pub Gains-held :
    {w u : ℕ} (p : WorkspacePermission) {ps : List WorkspacePermission} {a b : Db}
    → 0 < count (is_right w u p) a.workspace_permissions
    → Gains w u ps a b
    → Gains w u (p ∷ ps) a b
Gains-held {w} {u} p {ps} {a} {b} held rest = record {
  rows = rest.rows;
  same = rest.same;
  others = rest.others;
  unlisted = λ x new. ground (arith, rest.unlisted x);
  listed = λ x old.
      ground (arith, rest.listed x, rest.more x, is_right_index w u p x a.workspace_permissions);
  more = rest.more;
  unique = rest.unique;
}
