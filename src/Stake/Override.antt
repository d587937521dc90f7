-- ===== src/Stake/Override.antt =====
-- src/item-stake/override-item-stake.service.ts.
use cost_x.Base.{
  ℕ, Bool, false, ◌==◌, Option, none, some, List, [], ◌∷◌, map, ltb, length, is_none, if◌then◌else◌,
}
use cost_x.Prisma.{Prisma}
use cost_x.Schema.{User, Item, ItemStake, StakeRule, WorkspaceMember, DecimalValue}
use cost_x.Transaction.{
  M, pure, throw_if, workspace_member_stake_duplicated, workspace_member_stake_not_specified,
  workspace_member_not_belonging_to_workspace, workspace_member_stake_has_negative_value,
  non_positive_sum_of_stake_values, ◌>>=◌, ◌>>◌,
}
use cost_x.Delegate
use cost_x.Delegate.{update_one}
use cost_x.History.{Event}
use cost_x.History.Emitter.{EventEmitter, emit}
use cost_x.Loader.{has_key}
use cost_x.Membership.{list_active_by_workspace_id}
use cost_x.Stake.Numbers.{Numbers, Radash, is_negative, is_non_positive}
use cost_x.Stake.Service.{MemberStake, bulk_create_or_update, bulk_delete, get_by_item_id}

-- `array.filter(duplicates)`: an element that stands at an earlier place too.
abbrev pub duplicates_from : List ℕ → List ℕ → List ℕ
duplicates_from seen [] = []
duplicates_from seen (id ∷ ids) =
    let rest = duplicates_from (id ∷ seen) ids in if has_key seen id then id ∷ rest else rest

abbrev pub duplicates : List ℕ → List ℕ
duplicates = duplicates_from []

abbrev pub member_ids : List MemberStake → List ℕ
member_ids = map (λ stake. stake.workspace_member_id)

-- `stakes.filter((stake) => stake.value < 0)`
abbrev pub negative_stakes : List MemberStake → List MemberStake
negative_stakes [] = []
negative_stakes (stake ∷ stakes) =
    let rest = negative_stakes stakes in if is_negative stake.value then stake ∷ rest else rest

module _ ⦃numbers : Numbers⦄ where
  -- `stakes.map((stake) => stake.value).reduce((acc, cur) => acc + cur, 0)`
  abbrev pub sum_of_values : DecimalValue → List MemberStake → DecimalValue
  sum_of_values acc [] = acc
  sum_of_values acc (stake ∷ stakes) = sum_of_values (numbers.plus acc stake.value) stakes

abbrev pub zero_value : DecimalValue
zero_value = record { negative = false; digits = 0; scale = 0 }

-- Whether the list has an entry, as `length > 0` asks.
abbrev pub is_some_entry : {A : Type 0} → List A → Bool
is_some_entry xs = ltb 0 (length xs)

-- `a === b`, for a rule or null
abbrev pub stake_rule_index : StakeRule → ℕ
stake_rule_index StakeRule.all_payer = 0
stake_rule_index StakeRule.all_workspace_owner = 1
stake_rule_index StakeRule.equally = 2

abbrev pub is_rule : Option StakeRule → StakeRule → Bool
is_rule none b = false
is_rule (some a) b = stake_rule_index a == stake_rule_index b

abbrev pub without_rule : Item → Item
without_rule item = record item { stake_rule = none }

abbrev pub with_rule : StakeRule → Item → Item
with_rule rule item = record item { stake_rule = some rule }

module _ ⦃prisma : Prisma⦄ ⦃numbers : Numbers⦄ ⦃radash : Radash⦄ where
  unfoldable pub validate_stakes : Item → List MemberStake → M (Unit {0})
  validate_stakes item stakes = do
    throw_if (is_some_entry (duplicates (member_ids stakes))) workspace_member_stake_duplicated
    all_active_members ← list_active_by_workspace_id item.workspace_id
    throw_if
        (is_some_entry (
          radash.diff (map (λ (m : WorkspaceMember). m.id) all_active_members) (member_ids stakes)))
        workspace_member_stake_not_specified
    throw_if
        (is_some_entry (
          radash.diff (member_ids stakes) (map (λ (m : WorkspaceMember). m.id) all_active_members)))
        workspace_member_not_belonging_to_workspace
    throw_if (is_some_entry (negative_stakes stakes)) workspace_member_stake_has_negative_value
    throw_if (is_non_positive (sum_of_values zero_value stakes)) non_positive_sum_of_stake_values

module _ ⦃prisma : Prisma⦄ where
  -- `item.stakeRule ? await tx.item.update(…) : item`
  unfoldable pub remove_rule : Item → M Item
  remove_rule item =
      if is_none item.stake_rule
      then pure item
      else update_one Delegate.item (λ i. i.id == item.id) without_rule

module _ ⦃prisma : Prisma⦄ ⦃emitter : EventEmitter⦄ where
  unfoldable pub change_item_stake_rule : Item → StakeRule → User → M Item
  change_item_stake_rule item stake_rule current_user = do
    existing_item_stakes ← get_by_item_id item.id
    updated_item ← update_one Delegate.item (λ i. i.id == item.id) (with_rule stake_rule)
    bulk_delete item
    emit (
        Event.item_stakes_changed item.workspace_id current_user.id
          (record {
            item_id = item.id;
            stake_rule = item.stake_rule;
            stakes = some existing_item_stakes;
          })
          (record { item_id = item.id; stake_rule = updated_item.stake_rule; stakes = none }))
    pure updated_item

  unfoldable pub set_item_stake_rule : Item → StakeRule → User → M Item
  unfolding change_item_stake_rule
  set_item_stake_rule item stake_rule current_user =
      if is_rule item.stake_rule stake_rule
      then pure item
      else change_item_stake_rule item stake_rule current_user

module _ ⦃prisma : Prisma⦄ ⦃emitter : EventEmitter⦄ ⦃numbers : Numbers⦄ ⦃radash : Radash⦄ where
  unfoldable pub set_item_stakes : Item → List MemberStake → User → M (List ItemStake)
  set_item_stakes item stakes current_user = do
    validate_stakes item stakes
    existing_item_stakes ← get_by_item_id item.id
    new_item_stakes ← bulk_create_or_update item stakes
    updated_item ← remove_rule item
    emit (
        Event.item_stakes_changed item.workspace_id current_user.id
          (record {
            item_id = item.id;
            stake_rule = item.stake_rule;
            stakes = some existing_item_stakes;
          })
          (record {
            item_id = item.id;
            stake_rule = updated_item.stake_rule;
            stakes = some new_item_stakes;
          }))
    pure new_item_stakes
