-- ===== src/Item/Consistency.antt =====
-- src/consistency/relation.ts and consistency.service.ts: `new Relation(t1Getter, t2Getter, …)`,
-- whose message is left out.
use cost_x.Base.{ℕ, Bool, not, ◌==◌}
use cost_x.Schema.{User, Workspace, Item, Payment, Tag}
use cost_x.Transaction.{M, throw_if, bad_request}

pub record Relation (A B : Type 0) : Type 0 where
  pub left : A → ℕ
  pub right : B → ℕ

module _ {A B : Type 0} where
  abbrev pub is_belonging : Relation A B → A → B → Bool
  is_belonging r a b = r.left a == r.right b

  unfoldable pub ensure_is_belonging : Relation A B → A → B → M (Unit {0})
  ensure_is_belonging r a b = throw_if (not (is_belonging r a b)) bad_request

abbrev pub payment_to_item : Relation Payment Item
payment_to_item = record { left = λ p. p.item_id; right = λ i. i.id }

abbrev pub workspace_to_user : Relation Workspace User
workspace_to_user = record { left = λ w. w.owner_id; right = λ u. u.id }

abbrev pub item_to_workspace : Relation Item Workspace
item_to_workspace = record { left = λ i. i.workspace_id; right = λ w. w.id }

abbrev pub tag_to_workspace : Relation Tag Workspace
tag_to_workspace = record { left = λ t. t.workspace_id; right = λ w. w.id }

abbrev pub item_and_tag_to_same_workspace : Relation Item Tag
item_and_tag_to_same_workspace = record { left = λ i. i.workspace_id; right = λ t. t.workspace_id }

abbrev pub items_to_same_workspace : Relation Item Item
items_to_same_workspace = record { left = λ i. i.workspace_id; right = λ i. i.workspace_id }
