-- ===== src/Item/Extract.antt =====
-- src/item-extract/item-extract.service.ts
use cost_x.Base.{
  ℕ, Bool, false, none, List, [], ◌∷◌, map, ◌||◌, ◌==◌, ltb, length, String, if◌then◌else◌,
}
use cost_x.Prisma.{Prisma}
use cost_x.Schema.{User, Item, Payment, ItemTag}
use cost_x.Transaction.{
  M, pure, throw_if, extract_payments_empty, extract_all_payments, payment_not_belong_to_item,
  ◌>>=◌, ◌>>◌,
}
use cost_x.Delegate
use cost_x.Delegate.{list, create, create_many, update_many}
use cost_x.History.{Event}
use cost_x.History.Emitter.{EventEmitter, emit}
use cost_x.Item.Merge.{is_payment_of, is_tag_of, moved_to}

-- `{ in: paymentIds }`
abbrev pub has_id : List ℕ → ℕ → Bool
has_id [] n = false
has_id (id ∷ ids) n = id == n || has_id ids n

abbrev pub is_listed_payment : List ℕ → Payment → Bool
is_listed_payment ids p = has_id ids p.id

-- `paymentIds.filter((id) => !allPaymentIdSet.has(id))`
abbrev pub invalid_ids : List ℕ → List ℕ → List ℕ
invalid_ids all [] = []
invalid_ids all (id ∷ ids) =
    let rest = invalid_ids all ids in if has_id all id then rest else id ∷ rest

abbrev pub new_item : String → ℕ → ℕ → Item
new_item title workspace_id id = record {
  id = id;
  title = title;
  workspace_id = workspace_id;
  stake_rule = none;
}

abbrev pub new_tag : ℕ → ItemTag → ℕ → ItemTag
new_tag item_id tag id = record { id = id; item_id = item_id; tag_id = tag.tag_id }

module _ ⦃prisma : Prisma⦄ where
  -- The guards of `extractAsItem`.
  unfoldable pub validate_extract : Item → List ℕ → M (Unit {0})
  validate_extract source_item payment_ids = do
    throw_if (length payment_ids == 0) extract_payments_empty
    all_payments ← list Delegate.payment (is_payment_of source_item.id)
    throw_if (ltb 0 (length (invalid_ids (map (λ (p : Payment). p.id) all_payments) payment_ids)))
        payment_not_belong_to_item
    throw_if (length payment_ids == length all_payments) extract_all_payments

  -- The tags of the source; none are written if there are none.
  unfoldable pub copy_tags : ℕ → List ItemTag → M (Unit {0})
  copy_tags item_id [] = pure tt
  copy_tags item_id (t ∷ ts) = create_many Delegate.item_tag (map (new_tag item_id) (t ∷ ts))

module _ ⦃prisma : Prisma⦄ ⦃emitter : EventEmitter⦄ where
  unfoldable pub extract_as_item : Item → List ℕ → String → User → M Item
  extract_as_item source_item payment_ids title current_user = do
    validate_extract source_item payment_ids
    extracted_item ← create Delegate.item (new_item title source_item.workspace_id)
    update_many Delegate.payment (is_listed_payment payment_ids) (moved_to extracted_item)
    source_tags ← list Delegate.item_tag (is_tag_of source_item.id)
    copy_tags extracted_item.id source_tags
    emit (Event.item_extracted source_item.workspace_id current_user.id source_item extracted_item)
    pure extracted_item
