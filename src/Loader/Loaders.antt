-- ===== src/Loader/Loaders.antt =====
-- `loaderFn` of each loader. `includes(ids)` is `{ in: ids }`.
use cost_x.Base.{
  ℕ, Bool, false, ◌&&◌, ◌||◌, Option, none, some, List, [], ◌∷◌, map, ◌==◌, is_none, true,
  if◌then◌else◌,
}
use cost_x.Prisma.{Prisma}
use cost_x.Schema.{
  UserPermission, User, Contact, Invite, Item, Tag, WorkspaceMember, WorkspaceInvite,
  WorkspaceInviteStatus, workspace_invite_status_index,
}
use cost_x.Transaction.{M, pure, ◌>>=◌}
use cost_x.Delegate
use cost_x.Delegate.{Model, list}
use cost_x.Group.{get, group_by, map_by, sort_by}

abbrev pub has_key : List ℕ → ℕ → Bool
has_key [] n = false
has_key (id ∷ ids) n = id == n || has_key ids n

-- `array.filter(unique)`: an element stays where it stands first.
abbrev pub unique_from : List ℕ → List ℕ → List ℕ
unique_from seen [] = []
unique_from seen (id ∷ ids) =
    let rest = unique_from (id ∷ seen) ids in if has_key seen id then rest else id ∷ rest

abbrev pub unique : List ℕ → List ℕ
unique = unique_from []

-- `groups.get(id) || []`
abbrev pub or_empty : {A : Type 0} → Option (List A) → List A
or_empty none = []
or_empty (some rows) = rows

module _ {Row : Type 0} ⦃prisma : Prisma⦄ where
  -- The rows with one of the keys that pass a further test, grouped, for each of the keys.
  abbrev pub load_groups : Model Row → (Row → ℕ) → (Row → Bool) → List ℕ → M (List (List Row))
  load_groups m key test ids = do
    rows ← list m (λ r. has_key ids (key r) && test r)
    pure (map (λ id. or_empty (get id (group_by key rows))) ids)

  -- The row of each key, or null; the query asks for each key once.
  abbrev pub load_rows : Model Row → (Row → ℕ) → List ℕ → M (List (Option Row))
  load_rows m key ids = do
    rows ← list m (λ r. has_key (unique ids) (key r))
    pure (map (λ id. get id (map_by key rows)) ids)

  -- The row of each key, or null, by `sortBy`.
  abbrev pub load_sorted : Model Row → (Row → ℕ) → List ℕ → M (List (Option Row))
  load_sorted m key ids = do rows ← list m (λ r. has_key ids (key r)); pure (sort_by key rows ids)

module _ ⦃prisma : Prisma⦄ where
  unfoldable pub user_permissions_by_user_id : List ℕ → M (List (List UserPermission))
  user_permissions_by_user_id = load_groups Delegate.user_permission (λ p. p.user_id) (λ p. true)

  -- `listActiveByUserIds`, grouped
  unfoldable pub contacts_by_user_id : List ℕ → M (List (List Contact))
  contacts_by_user_id =
      load_groups Delegate.contact (λ c. c.source_user_id) (λ c. is_none c.removed_at)

  unfoldable pub workspace_members_by_workspace_id : List ℕ → M (List (List WorkspaceMember))
  workspace_members_by_workspace_id =
      load_groups Delegate.workspace_member (λ m. m.workspace_id) (λ m. is_none m.removed_at)

  abbrev pub is_pending_invite : WorkspaceInvite → Bool
  is_pending_invite i =
      workspace_invite_status_index i.status
      == workspace_invite_status_index WorkspaceInviteStatus.pending

  unfoldable pub workspace_invites_by_workspace_id : List ℕ → M (List (List WorkspaceInvite))
  workspace_invites_by_workspace_id =
      load_groups Delegate.workspace_invite (λ i. i.workspace_id) is_pending_invite

  unfoldable pub item_by_id : List ℕ → M (List (Option Item))
  item_by_id = load_rows Delegate.item (λ i. i.id)

  unfoldable pub tag_by_id : List ℕ → M (List (Option Tag))
  tag_by_id = load_rows Delegate.tag (λ t. t.id)

  unfoldable pub user_by_user_id : List ℕ → M (List (Option User))
  user_by_user_id = load_sorted Delegate.user (λ u. u.id)

  unfoldable pub invite_by_invite_id : List ℕ → M (List (Option Invite))
  invite_by_invite_id = load_sorted Delegate.invite (λ i. i.id)

  unfoldable pub workspace_invite_by_invite_id : List ℕ → M (List (Option WorkspaceInvite))
  workspace_invite_by_invite_id = load_sorted Delegate.workspace_invite (λ i. i.id)
