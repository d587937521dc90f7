-- ===== src/Tag/Service.antt =====
-- The mutations of src/tag/tag.service.ts.
use cost_x.Base.{ℕ, String, Option, none, some, Bool, ◌==◌}
use cost_x.Prisma.{Prisma}
use cost_x.Schema.{User, Tag, ItemTag}
use cost_x.Transaction.{M, pure, or_throw, bad_request, ◌>>=◌, ◌>>◌}
use cost_x.Delegate
use cost_x.Delegate.{find, create, update_one, delete_one, delete_many}
use cost_x.History.{Event}
use cost_x.History.Emitter.{EventEmitter, emit}

-- The color is left out or a string.
pub record TagInDto : Type 0 where
  pub title : String
  pub color : Option String

-- `@default("000000")`
abbrev pub created_color : Option String → String
created_color none = "000000"
created_color (some color) = color

-- A column that is left out of `data` stays as it is.
abbrev pub updated_color : Option String → String → String
updated_color none old = old
updated_color (some color) old = color

abbrev pub tag_in : ℕ → TagInDto → ℕ → Tag
tag_in workspace_id dto id = record {
  id = id;
  title = dto.title;
  color = created_color dto.color;
  workspace_id = workspace_id;
}

abbrev pub repainted : TagInDto → Tag → Tag
repainted dto tag = record tag { title = dto.title; color = updated_color dto.color tag.color }

-- `{ tagId }`
abbrev pub is_use_of : ℕ → ItemTag → Bool
is_use_of tag_id t = t.tag_id == tag_id

module _ ⦃prisma : Prisma⦄ where
  unfoldable pub tag_of_id : ℕ → M (Option Tag)
  tag_of_id id = find Delegate.tag (λ t. t.id == id)

  -- `tag.delete`, with the uses that go with it (`onDelete: Cascade`)
  unfoldable pub delete_tag_row : ℕ → M Tag
  delete_tag_row id = do
    tag ← delete_one Delegate.tag (λ t. t.id == id)
    delete_many Delegate.item_tag (is_use_of id)
    pure tag

module _ ⦃prisma : Prisma⦄ ⦃emitter : EventEmitter⦄ where
  unfoldable pub create_tag : ℕ → TagInDto → User → M Tag
  create_tag workspace_id dto current_user = do
    tag ← create Delegate.tag (tag_in workspace_id dto)
    emit (Event.tag_created workspace_id current_user.id tag)
    pure tag

  unfoldable pub update_tag : ℕ → TagInDto → User → M Tag
  update_tag id dto current_user = do
    found ← find Delegate.tag (λ t. t.id == id)
    old_tag ← or_throw bad_request found
    new_tag ← update_one Delegate.tag (λ t. t.id == id) (repainted dto)
    emit (Event.tag_updated old_tag.workspace_id current_user.id old_tag new_tag)
    pure new_tag

  unfoldable pub delete_tag : ℕ → User → M (Unit {0})
  delete_tag id current_user = do
    found ← find Delegate.tag (λ t. t.id == id)
    tag ← or_throw bad_request found
    delete_tag_row id
    emit (Event.tag_deleted tag.workspace_id current_user.id tag)
    pure tt
