-- ===== src/Resolver/Tests.antt =====
-- Mutations of an item by a member who holds the right for one of them, on a client that keeps lists
-- and an emitter that calls its listener.
use cost_x.Base.{◌≡◌, refl, false, none, some, [], ◌∷◌, arith, count}
use cost_x.Prisma.Client.{in_memory}
use cost_x.Schema.{
  UserRole, WorkspacePermission, usd, equally, User, Workspace, WorkspaceMember, Item, Tag, Db,
  empty,
}
use cost_x.Transaction.{err, no_access}
use cost_x.History.Emitter.{direct_emitter}
use cost_x.Access.Meaning.{HasUniqueKeys}
use cost_x.Access.{
  execute_rule, is_rule_match, match_all, has_access, can_activate, has_workspace_permissions,
}
use cost_x.Resolver.Mutations.{delete_item_mutation}
use cost_x.Resolver.PairRequest.{PairRequest, answer_pair, serve_pair}
use cost_x.Resolver.PairGuarded.{IsPairGuarded, answer_pair-IsPairGuarded}
use cost_x.Resolver.Request.{Request, answer_request, serve}
use cost_x.Resolver.Guarded.{IsGuarded, answer_request-IsGuarded}

abbrev caller : User
caller = record {
  id = 2;
  email = "a";
  password = "p";
  name = "n";
  role = UserRole.user;
  is_banned = false;
  confirm_email_temp_code = none;
  reset_password_temp_code = none;
}

abbrev home : Workspace
home = record { id = 1; title = "home"; owner_id = 1; default_currency = usd; stake_rule = equally }

abbrev membership : WorkspaceMember
membership = record {
  id = 1;
  workspace_id = 1;
  user_id = 2;
  invite_id = none;
  joined_at = 0;
  removed_at = none;
  removed_by_user_id = none;
}

abbrev bread : Item
bread = record { id = 5; title = "bread"; workspace_id = 1; stake_rule = none }

abbrev food : Tag
food = record { id = 4; title = "food"; color = "00ff00"; workspace_id = 1 }

abbrev tables : Db
tables = record empty {
  workspaces = home ∷ [];
  items = bread ∷ [];
  tags = food ∷ [];
  workspace_members = membership ∷ [];
  workspace_permissions =
      record { id = 1; user_id = 2; workspace_id = 1; permission = WorkspacePermission.update_item }
      ∷ [];
}

tables-HasUniqueKeys : HasUniqueKeys tables
unfolding count
tables-HasUniqueKeys = record { permissions = λ u p. omega arith; rights = λ w u p. ground arith }

delete_run : delete_item_mutation caller 5 tables ≡ err no_access
unfolding delete_item_mutation can_activate has_access is_rule_match match_all execute_rule
    has_workspace_permissions count
delete_run = refl

abbrev renaming : Request
renaming = Request.updates_item 5 (some "rye")

answer_request-IsGuarded_example :
    IsGuarded caller tables
      (answer_request caller renaming)
      (serve caller renaming)
      (some home)
      WorkspacePermission.update_item
answer_request-IsGuarded_example =
    answer_request-IsGuarded caller tables renaming tables-HasUniqueKeys

abbrev tagging : PairRequest
tagging = PairRequest.assigns_tag 5 4

answer_pair-IsPairGuarded_example :
    IsPairGuarded caller tables
      (answer_pair caller tagging)
      (serve_pair caller tagging)
      (some home)
      (some home)
      WorkspacePermission.assign_tag
answer_pair-IsPairGuarded_example =
    answer_pair-IsPairGuarded caller tables tagging tables-HasUniqueKeys
