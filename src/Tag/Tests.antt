-- ===== src/Tag/Tests.antt =====
-- Runs of src/item-tag on a small database, with a client that keeps lists and an emitter that calls
-- its listener.
use cost_x.Base.{Bool, false, ◌≡◌, refl, none, [], ◌∷◌, count}
use cost_x.Prisma.Client.{in_memory}
use cost_x.Schema.{UserRole, usd, equally, User, Workspace, Item, Tag, ItemTag, Db, empty}
use cost_x.Transaction.{ok}
use cost_x.Delegate.{create}
use cost_x.History.{Event}
use cost_x.History.Emitter.{direct_emitter, emit}
use cost_x.History.Laws.{logged}
use cost_x.Item.{ensure_is_belonging}
use cost_x.Tag.Assignment.{assign_tag, unassign_tag}
use cost_x.Tag.Laws.{unassign_tag-assign_tag}

abbrev actor : User
actor = record {
  id = 2;
  email = "a";
  password = "p";
  name = "n";
  role = UserRole.user;
  is_banned = false;
  confirm_email_temp_code = none;
  reset_password_temp_code = none;
}

abbrev home : Workspace
home = record { id = 1; title = "home"; owner_id = 2; default_currency = usd; stake_rule = equally }

abbrev bread : Item
bread = record { id = 1; title = "bread"; workspace_id = 1; stake_rule = none }

abbrev food : Tag
food = record { id = 4; title = "food"; color = "00ff00"; workspace_id = 1 }

abbrev before : Db
before = record empty {
  users = actor ∷ [];
  workspaces = home ∷ [];
  items = bread ∷ [];
  tags = food ∷ [];
}

abbrev use_of_food : ItemTag
use_of_food = record { id = 1; item_id = 1; tag_id = 4 }

abbrev tagged : Db
tagged =
    logged (Event.item_tag_assigned 1 2 use_of_food)
      (record before { item_tags = use_of_food ∷ [] })

assign_run : assign_tag bread food actor before ≡ ok (use_of_food, tagged)
unfolding assign_tag ensure_is_belonging create emit
assign_run = refl

unassign_tag-assign_tag_example :
    (after : Db) × (unassign_tag bread food actor tagged ≡ ok (tt, after))
    × ((q : ItemTag → Bool) → count q after.item_tags ≡ count q before.item_tags)
    × (after.items ≡ before.items)
    × (after.tags ≡ before.tags)
    × (after.payments ≡ before.payments)
unassign_tag-assign_tag_example = unassign_tag-assign_tag bread food actor before assign_run
