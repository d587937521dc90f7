-- ===== src/Item/Tests.antt =====
-- Runs of src/item-merge and src/item-extract on a small database, with a client that keeps lists and an emitter that
-- calls its listener.
use cost_x.Base.{◌≡◌, refl, none, some, false, [], ◌∷◌, count, ◌==◌}
use cost_x.Prisma.Client.{in_memory}
use cost_x.Schema.{UserRole, usd, equally, User, Workspace, Item, Payment, Db, empty}
use cost_x.Transaction.{ok}
use cost_x.History.{Event}
use cost_x.History.Emitter.{direct_emitter, emit}
use cost_x.History.Laws.{logged}
use cost_x.Item.Consistency.{ensure_is_belonging}
use cost_x.Item.Merge.{merge, delete_item_row, is_payment_of}
use cost_x.Delegate.{create, create_many}
use cost_x.Item.Extract.{extract_as_item, validate_extract, copy_tags}
use cost_x.Item.Extracted.{Extracted, extract_as_item-Extracted}
use cost_x.Item.Merged.{Merged, merge-Merged, merge_itself}

abbrev actor : User
actor = record {
  id = 2;
  email = "a";
  password = "p";
  name = "n";
  role = UserRole.user;
  is_banned = false;
  confirm_email_temp_code = none;
  reset_password_temp_code = none;
}

abbrev home : Workspace
home = record { id = 1; title = "home"; owner_id = 2; default_currency = usd; stake_rule = equally }

abbrev bread : Item
bread = record { id = 1; title = "bread"; workspace_id = 1; stake_rule = none }

abbrev milk : Item
milk = record { id = 2; title = "milk"; workspace_id = 1; stake_rule = none }

abbrev paid : Payment
paid = record {
  id = 1;
  cost = record { negative = false; digits = 250; scale = 2 };
  item_id = 2;
  date = 3;
  title = none;
  currency = usd;
  payer_id = 1;
}

abbrev before : Db
before = record empty {
  users = actor ∷ [];
  workspaces = home ∷ [];
  items = bread ∷ milk ∷ [];
  payments = paid ∷ [];
  item_tags = record { id = 1; item_id = 2; tag_id = 4 } ∷ [];
}

-- The payment is the bread's, under the title of the milk.
abbrev after : Db
after = logged (Event.item_merged 1 2 bread milk (some bread)) (record before {
  items = bread ∷ [];
  payments = record paid { item_id = 1; title = some "milk" } ∷ [];
  item_tags = [];
})

abbrev gone : Db
gone =
    logged (Event.item_merged 1 2 milk milk none)
      (record before { items = bread ∷ []; payments = []; item_tags = [] })

merge_run : merge bread milk actor before ≡ ok (some bread, after)
unfolding merge delete_item_row ensure_is_belonging emit
merge_run = refl

self_run : merge milk milk actor before ≡ ok (none, gone)
unfolding merge delete_item_row ensure_is_belonging emit
self_run = refl

merge-Merged_example : Merged bread milk (some bread) before after
merge-Merged_example = merge-Merged bread milk actor before refl merge_run

merge_itself_example :
    (count (λ (i : Item). i.id == 2) gone.items ≡ 0) × (count (is_payment_of 2) gone.payments ≡ 0)
merge_itself_example = merge_itself milk actor before self_run

-- The milk with two payments, one of which is taken out.
abbrev stocked : Db
stocked = record before { payments = paid ∷ record paid { id = 2 } ∷ [] }

abbrev cream : Item
cream = record { id = 3; title = "cream"; workspace_id = 1; stake_rule = none }

abbrev split : Db
split = logged (Event.item_extracted 1 2 milk cream) (record stocked {
  items = bread ∷ milk ∷ cream ∷ [];
  payments = paid ∷ record paid { id = 2; item_id = 3 } ∷ [];
  item_tags =
      record { id = 1; item_id = 2; tag_id = 4 } ∷ record { id = 2; item_id = 3; tag_id = 4 } ∷ [];
})

extract_run : extract_as_item milk (2 ∷ []) "cream" actor stocked ≡ ok (cream, split)
unfolding extract_as_item validate_extract copy_tags create create_many emit
extract_run = refl

extract_as_item-Extracted_example : Extracted milk cream (2 ∷ []) stocked split
extract_as_item-Extracted_example =
    extract_as_item-Extracted milk (2 ∷ []) "cream" actor stocked extract_run
