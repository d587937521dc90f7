-- ===== src/Stake/Service.antt =====
-- src/item-stake/item-stake.service.ts. The calls that `Promise.all` sends together run one after
-- the other in the transaction.
use cost_x.Base.{ℕ, Bool, ◌&&◌, ◌==◌, Option, none, some, List, [], ◌∷◌}
use cost_x.Prisma.{Prisma}
use cost_x.Schema.{Item, ItemStake, DecimalValue}
use cost_x.Transaction.{M, pure, ◌>>=◌, ◌>>◌}
use cost_x.Delegate
use cost_x.Delegate.{find, list, create, connect, update_one, delete_many}
use cost_x.Item.{is_stake_of}

pub record MemberStake : Type 0 where
  pub workspace_member_id : ℕ
  pub value : DecimalValue

-- `itemId_workspaceMemberId: { itemId, workspaceMemberId }`
abbrev pub is_member_stake : ℕ → ℕ → ItemStake → Bool
is_member_stake item_id member_id s = s.item_id == item_id && s.workspace_member_id == member_id

abbrev pub stake_in : Item → MemberStake → ℕ → ItemStake
stake_in item stake id = record {
  id = id;
  item_id = item.id;
  workspace_member_id = stake.workspace_member_id;
  value = stake.value;
}

abbrev pub revalued : MemberStake → ItemStake → ItemStake
revalued stake s = record s { value = stake.value }

module _ ⦃prisma : Prisma⦄ where
  -- `upsert`, by what there is
  unfoldable pub create_or_update_by : Item → MemberStake → Option ItemStake → M ItemStake
  create_or_update_by item stake none = do
    connect Delegate.item (λ i. i.id == item.id)
    connect Delegate.workspace_member (λ m. m.id == stake.workspace_member_id)
    create Delegate.item_stake (stake_in item stake)
  create_or_update_by item stake (some _) =
      update_one Delegate.item_stake (is_member_stake item.id stake.workspace_member_id)
        (revalued stake)

  unfoldable pub create_or_update : Item → MemberStake → M ItemStake
  unfolding create_or_update_by
  create_or_update item stake =
      find Delegate.item_stake (is_member_stake item.id stake.workspace_member_id)
      >>= create_or_update_by item stake

  unfoldable pub bulk_create_or_update : Item → List MemberStake → M (List ItemStake)
  bulk_create_or_update item [] = pure []
  bulk_create_or_update item (stake ∷ stakes) = do
    item_stake ← create_or_update item stake
    item_stakes ← bulk_create_or_update item stakes
    pure (item_stake ∷ item_stakes)

  unfoldable pub bulk_delete : Item → M (Unit {0})
  bulk_delete item = delete_many Delegate.item_stake (is_stake_of item.id)

  unfoldable pub get_by_item_id : ℕ → M (List ItemStake)
  get_by_item_id item_id = list Delegate.item_stake (is_stake_of item_id)
