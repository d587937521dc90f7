-- ===== src/Contact/Blocks.antt =====
-- src/contact/user-block.service.ts
use cost_x.Base.{ℕ, Bool, none, some, ◌==◌, ltb}
use cost_x.Prisma.{Prisma}
use cost_x.Schema.{UserBlock}
use cost_x.Transaction.{M, pure, ◌>>=◌, ◌>>◌}
use cost_x.Delegate
use cost_x.Delegate.{total, create, connect, update_one}
use cost_x.Contact.Where.{is_active_block}
use cost_x.Contact.Contacts.{remove_contact_pair_by_user_ids}

abbrev pub new_block : ℕ → ℕ → ℕ → ℕ → UserBlock
new_block blocked blocker now id = record {
  id = id;
  created_at = now;
  blocker_id = blocker;
  blocked_id = blocked;
  removed_at = none;
  removed_by_user_id = none;
}

abbrev pub removed_block : ℕ → ℕ → UserBlock → UserBlock
removed_block user_id now b = record b { removed_at = some now; removed_by_user_id = some user_id }

module _ ⦃prisma : Prisma⦄ where
  -- The row of `blockUser`.
  unfoldable pub create_block : ℕ → ℕ → ℕ → M UserBlock
  create_block blocked blocker now = do
    connect Delegate.user (λ u. u.id == blocked)
    connect Delegate.user (λ u. u.id == blocker)
    create Delegate.user_block (new_block blocked blocker now)

  unfoldable pub block_user : ℕ → ℕ → ℕ → ℕ → M UserBlock
  block_user blocked blocker user_id now = do
    block ← create_block blocked blocker now
    remove_contact_pair_by_user_ids blocked blocker user_id now
    pure block

  unfoldable pub remove_user_block : ℕ → ℕ → ℕ → ℕ → M UserBlock
  remove_user_block blocked blocker user_id now = do
    connect Delegate.user (λ u. u.id == user_id)
    update_one Delegate.user_block (is_active_block blocked blocker) (removed_block user_id now)

  unfoldable pub is_user_block_exists : ℕ → ℕ → M Bool
  is_user_block_exists blocked blocker = do
    found ← total Delegate.user_block (is_active_block blocked blocker)
    pure (ltb 0 found)
