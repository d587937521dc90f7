-- ===== src/Contact/Contacts.antt =====
-- src/contact/contact.service.ts. `now` is the reading of the clock.
use cost_x.Base.{ℕ, Bool, Option, none, some, List, ◌==◌, ltb, map}
use cost_x.Prisma.{Prisma}
use cost_x.Schema.{Contact}
use cost_x.Transaction.{M, pure, ◌>>=◌, ◌>>◌}
use cost_x.Delegate
use cost_x.Delegate.{find, list, total, create, connect, update_one, update_many}
use cost_x.Contact.Where.{is_active_contact, is_contact_between}

abbrev pub new_contact : ℕ → ℕ → ℕ → ℕ → ℕ → Contact
new_contact source target invite_id now id = record {
  id = id;
  created_at = now;
  source_user_id = source;
  target_user_id = target;
  invite_id = invite_id;
  removed_at = none;
  removed_by_user_id = none;
}

-- `{ removedAt: new Date(), removedByUserId }`
abbrev pub removed_contact : ℕ → ℕ → Contact → Contact
removed_contact user_id now c = record c {
  removed_at = some now;
  removed_by_user_id = some user_id;
}

module _ ⦃prisma : Prisma⦄ where
  unfoldable pub create_contact : ℕ → ℕ → ℕ → ℕ → M Contact
  create_contact source target invite_id now = do
    connect Delegate.invite (λ i. i.id == invite_id)
    connect Delegate.user (λ u. u.id == source)
    connect Delegate.user (λ u. u.id == target)
    create Delegate.contact (new_contact source target invite_id now)

  unfoldable pub create_contact_pair : ℕ → ℕ → ℕ → ℕ → M (Contact × Contact)
  create_contact_pair source target invite_id now = do
    direct ← create_contact source target invite_id now
    reverse ← create_contact target source invite_id now
    pure (direct, reverse)

  unfoldable pub remove_contact : Contact → ℕ → ℕ → M Contact
  remove_contact contact user_id now = do
    connect Delegate.user (λ u. u.id == user_id)
    update_one Delegate.contact (λ c. c.id == contact.id) (removed_contact user_id now)

  unfoldable pub remove_contact_pair_by_user_ids : ℕ → ℕ → ℕ → ℕ → M (List Contact)
  remove_contact_pair_by_user_ids source target user_id now = do
    contacts ← list Delegate.contact (is_contact_between source target)
    update_many Delegate.contact (is_contact_between source target) (removed_contact user_id now)
    pure (map (removed_contact user_id now) contacts)

  unfoldable pub get_reverse_contact : Contact → M (Option Contact)
  get_reverse_contact contact =
      find Delegate.contact (is_active_contact contact.target_user_id contact.source_user_id)

  -- The end of `removeContactPair`, for the reverse contact that it has found.
  abbrev pub remove_reverse : Option Contact → ℕ → ℕ → M (Option Contact)
  remove_reverse none user_id now = pure none
  remove_reverse (some reverse) user_id now = do
    removed ← remove_contact reverse user_id now
    pure (some removed)

  unfoldable pub remove_contact_pair : Contact → ℕ → ℕ → M (Contact × Option Contact)
  remove_contact_pair contact user_id now = do
    direct ← remove_contact contact user_id now
    existing ← get_reverse_contact contact
    reverse ← remove_reverse existing user_id now
    pure (direct, reverse)

  unfoldable pub is_contact_exists : ℕ → ℕ → M Bool
  is_contact_exists source target = do
    found ← total Delegate.contact (is_active_contact source target)
    pure (ltb 0 found)
