-- ===== src/Membership/Tests.antt =====
-- Runs of src/workspace-membership on a small database, with a client that keeps lists and an
-- emitter that calls its listener.
use cost_x.Base.{
  ℕ, ◌≡◌, ◌<◌, ◌↔◌, ◌⊎◌, refl, none, some, Bool, true, false, [], ◌∷◌, ◌++◌, arith, count, ◌==◌,
}
use cost_x.Prisma.Client.{in_memory}
use cost_x.Schema.{
  UserRole, WorkspacePermission, create_item, update_item, create_payment, usd, equally, User,
  Workspace, WorkspaceInvite, WorkspaceInviteStatus, WorkspaceMember, Db, empty,
  UserWorkspacePermission, WorkspaceHistoryAction, JsonValue, is_role, admin,
}
use cost_x.Transaction.{ok, err, improper_workspace_invite_status}
use cost_x.Delegate.{create, create_many, create_missing}
use cost_x.Membership.Where.{is_active_member, is_granted}
use cost_x.Membership.Gains.{Gains}
use cost_x.Membership.Finality.{Reaction, accept, status_after, react, react_once}
use cost_x.Membership.Granting.{
  grant_permissions-Gains, grant_permissions-IsConsistent, revoke_permissions-takes,
}
use cost_x.Membership.Reach.{Step, Reaches, reached-IsConsistent}
use cost_x.History.Emitter.{direct_emitter, emit}
use cost_x.Membership.Permissions.{
  seed_permissions, grant_permissions, revoke_permissions, validate_actor_can_modify,
  revoke_all_permissions,
}
use cost_x.Membership.Validation.{
  validate_accept_invite, validate_invite_is_pending, validate_not_already_member,
}
use cost_x.Membership.Members.{add_member, create_member, remove, validate_remove}
use cost_x.Membership.Invites.{accept_invite, reacted}
use cost_x.Membership.Acceptance.{Joined, accept_invite-Joined}
use cost_x.Membership.Success.{IsAcceptable, accept_invite_total}
use cost_x.Membership.Removal.{Left, remove-Left}
use cost_x.Membership.Invariant.{IsConsistent, accept_invite-IsConsistent}
use cost_x.Membership.Escalation.{Owns, IsEntitled, validate_actor_can_modify_iff}

abbrev person : ℕ → User
person id = record {
  id = id;
  email = "a";
  password = "p";
  name = "n";
  role = UserRole.user;
  is_banned = false;
  confirm_email_temp_code = none;
  reset_password_temp_code = none;
}

abbrev home : Workspace
home = record { id = 1; title = "home"; owner_id = 1; default_currency = usd; stake_rule = equally }

abbrev offer : WorkspaceInvite
offer = record {
  id = 1;
  workspace_id = 1;
  inviter_id = 1;
  invitee_id = 2;
  status = WorkspaceInviteStatus.pending;
  permissions = create_item ∷ create_payment ∷ [];
  created_at = 5;
  reacted_at = none;
}

-- A workspace with its owner, and an invite that is open.
abbrev before : Db
before = record empty {
  users = person 1 ∷ person 2 ∷ [];
  workspaces = home ∷ [];
  workspace_invites = offer ∷ [];
}

abbrev accepted_offer : WorkspaceInvite
accepted_offer = record offer { status = WorkspaceInviteStatus.accepted; reacted_at = some 7 }

abbrev member : WorkspaceMember
member = record {
  id = 1;
  workspace_id = 1;
  user_id = 2;
  invite_id = some 1;
  joined_at = 7;
  removed_at = none;
  removed_by_user_id = none;
}

abbrev grant : ℕ → WorkspacePermission → UserWorkspacePermission
grant id permission = record { id = id; user_id = 2; workspace_id = 1; permission = permission }

-- The tables when the invite has been accepted.
abbrev joined : Db
joined = record before {
  workspace_invites = accepted_offer ∷ [];
  workspace_members = member ∷ [];
  workspace_permissions = grant 1 create_item ∷ grant 2 create_payment ∷ [];
  history =
      record {
        id = 1;
        workspace_id = 1;
        actor_id = 2;
        action = WorkspaceHistoryAction.workspace_member_created;
        old_value = JsonValue.null;
        new_value = JsonValue.member member;
      }
      ∷ record {
        id = 2;
        workspace_id = 1;
        actor_id = 2;
        action = WorkspaceHistoryAction.workspace_invite_accepted;
        old_value = JsonValue.null;
        new_value = JsonValue.invite accepted_offer;
      }
      ∷ [];
}

abbrev removed_member : WorkspaceMember
removed_member = record member { removed_at = some 9; removed_by_user_id = some 1 }

-- The tables when the owner has removed the member.
abbrev left : Db
left = record joined {
  workspace_members = removed_member ∷ [];
  workspace_permissions = [];
  history =
      joined.history
      ++ (record {
        id = 3;
        workspace_id = 1;
        actor_id = 1;
        action = WorkspaceHistoryAction.workspace_member_removed;
        old_value = JsonValue.member removed_member;
        new_value = JsonValue.null;
      }
          ∷ []);
}

accept_run : accept_invite offer (person 2) 7 before ≡ ok (accepted_offer, joined)
unfolding accept_invite validate_accept_invite validate_invite_is_pending
    validate_not_already_member add_member create_member create create_many seed_permissions emit
accept_run = refl

remove_run : remove member 1 9 joined ≡ ok (removed_member, left)
unfolding remove validate_remove revoke_all_permissions emit
remove_run = refl

before-IsConsistent : IsConsistent before
unfolding count
before-IsConsistent = record {
  ids = λ n. omega arith;
  members = λ w u. omega arith;
  rights = λ w u p. omega arith;
  no_stray = λ w u h. refl;
}

-- The tables when the owner has granted one more permission.
abbrev widened : Db
widened = record joined {
  workspace_permissions = grant 1 create_item ∷ grant 2 create_payment ∷ grant 3 update_item ∷ [];
}

-- The tables when the owner has taken it and another one away.
abbrev narrowed : Db
narrowed = record widened { workspace_permissions = grant 2 create_payment ∷ [] }

grant_run :
    grant_permissions member (update_item ∷ create_item ∷ []) (person 1) joined ≡ ok (tt, widened)
unfolding grant_permissions validate_actor_can_modify create create_missing
grant_run = refl

revoke_run :
    revoke_permissions member (update_item ∷ create_item ∷ []) (person 1) widened
    ≡ ok (tt, narrowed)
unfolding revoke_permissions validate_actor_can_modify
revoke_run = refl

is_active : 0 < count (is_active_member 1 2) joined.workspace_members
unfolding count
is_active = omega arith

joined-IsConsistent : IsConsistent joined
joined-IsConsistent =
    accept_invite-IsConsistent offer (person 2) 7 before refl accept_run before-IsConsistent

widened-IsConsistent : IsConsistent widened
widened-IsConsistent =
    grant_permissions-IsConsistent member (update_item ∷ create_item ∷ []) (person 1) joined
      is_active grant_run joined-IsConsistent

accept_invite-Joined_example : Joined offer accepted_offer 7 before joined
accept_invite-Joined_example = accept_invite-Joined offer (person 2) 7 before refl accept_run

remove-Left_example : Left member removed_member 1 9 joined left
remove-Left_example = remove-Left member 1 9 joined refl remove_run

-- The member may pass on what he holds.
validate_actor_can_modify_iff_example :
    (validate_actor_can_modify 1 (person 2) (create_item ∷ []) joined ≡ ok (tt, joined)) ↔ (
      ((create_item ∷ []) ≡ [])
      ⊎ (is_role (person 2).role admin ≡ true)
      ⊎ Owns 1 2 joined
      ⊎ IsEntitled 1 (person 2) (create_item ∷ []) joined)
validate_actor_can_modify_iff_example =
    validate_actor_can_modify_iff 1 (person 2) (create_item ∷ []) joined joined-IsConsistent.rights

react_once_example :
    (offer.status ≡ WorkspaceInviteStatus.pending)
    × (accepted_offer ≡ reacted (status_after accept) 7 offer)
    × ((row : WorkspaceInvite) × (in_memory.find_first
            (λ (i : WorkspaceInvite). i.id == 1)
            joined.workspace_invites
          ≡ some row)
        × (row.status ≡ WorkspaceInviteStatus.accepted)
        × ((again : Reaction) (anybody : User) (later : ℕ) (tables : Db)
            → react again row anybody later tables ≡ err improper_workspace_invite_status))
react_once_example = react_once accept offer (person 2) 7 before refl accept_run

grant_permissions-Gains_example :
    (validate_actor_can_modify 1 (person 1) (update_item ∷ create_item ∷ []) joined
      ≡ ok (tt, joined))
    × Gains 1 2 (update_item ∷ create_item ∷ []) joined widened
grant_permissions-Gains_example =
    grant_permissions-Gains member (update_item ∷ create_item ∷ []) (person 1) joined grant_run

revoke_permissions-takes_example :
    (validate_actor_can_modify 1 (person 1) (update_item ∷ create_item ∷ []) widened
      ≡ ok (tt, widened))
    × (count (is_granted 1 2 (update_item ∷ create_item ∷ [])) narrowed.workspace_permissions ≡ 0)
    × ((q : UserWorkspacePermission → Bool)
        → ((g : UserWorkspacePermission)
            → is_granted 1 2 (update_item ∷ create_item ∷ []) g ≡ true
            → q g ≡ false)
        → count q narrowed.workspace_permissions ≡ count q widened.workspace_permissions)
revoke_permissions-takes_example =
    revoke_permissions-takes member (update_item ∷ create_item ∷ []) (person 1) widened revoke_run

-- The invite is accepted, permissions are granted and revoked.
reached-IsConsistent_example : IsConsistent narrowed
reached-IsConsistent_example =
    reached-IsConsistent
      (Reaches.next
        (Reaches.next
          (Reaches.next Reaches.start
            (Step.accepts offer (person 2) 7 accepted_offer refl accept_run))
          (Step.grants member (update_item ∷ create_item ∷ []) (person 1) is_active grant_run))
        (Step.revokes member (update_item ∷ create_item ∷ []) (person 1) revoke_run))
      before-IsConsistent

offer-IsAcceptable : IsAcceptable offer before
unfolding count
offer-IsAcceptable = record {
  stored = refl;
  pending = refl;
  invitee = omega arith;
  place = omega arith;
  outside = refl;
  unused = refl;
  distinct = (refl, (refl, tt));
  new = λ p listed. refl;
}

actor_there : 0 < count (λ (u : User). u.id == 2) before.users
unfolding count
actor_there = omega arith

accept_invite_total_example :
    (answer : WorkspaceInvite) × (db' : Db) × (accept_invite offer (person 2) 7 before
      ≡ ok (answer, db'))
accept_invite_total_example =
    accept_invite_total offer (person 2) 7 before offer-IsAcceptable actor_there
