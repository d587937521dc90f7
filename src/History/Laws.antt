-- ===== src/History/Laws.antt =====
-- What the history of an event is: one more row and no other change, if its actor and its workspace are there.
use cost_x.Base.{
  ℕ, Bool, true, ◌≡◌, ◌<◌, count, ◌==◌, refl, none, some, inl, inr, arith, Bool-cases,
  if◌then◌else◌,
}
use cost_x.Prisma.{Prisma}
use cost_x.Schema.{WorkspaceHistory, WorkspaceHistoryAction, JsonValue, User, Workspace, Db}
use cost_x.Transaction.{ok, err, foreign_key_violation}
use cost_x.Delegate.Laws.{find_counted}
use cost_x.History.Events.{Event}
use cost_x.History.Service.{stakes_json, may_record}
use cost_x.History.Listener.{on_event}
use cost_x.History.Emitter.{EventEmitter, emit}

abbrev pub action_of : Event → WorkspaceHistoryAction
action_of (Event.item_created w u i) = WorkspaceHistoryAction.item_created
action_of (Event.item_updated w u a b) = WorkspaceHistoryAction.item_updated
action_of (Event.item_deleted w u i) = WorkspaceHistoryAction.item_deleted
action_of (Event.payment_deleted w u p) = WorkspaceHistoryAction.payment_deleted
action_of (Event.payment_updated w u a b) = WorkspaceHistoryAction.payment_updated
action_of (Event.payment_created w u p) = WorkspaceHistoryAction.payment_created
action_of (Event.item_tag_assigned w u t) = WorkspaceHistoryAction.item_tag_assigned
action_of (Event.item_tag_unassigned w u t) = WorkspaceHistoryAction.item_tag_unassigned
action_of (Event.item_extracted w u a b) = WorkspaceHistoryAction.item_extracted
action_of (Event.item_merged w u a b c) = WorkspaceHistoryAction.item_merged
action_of (Event.tag_created w u t) = WorkspaceHistoryAction.tag_created
action_of (Event.tag_updated w u a b) = WorkspaceHistoryAction.tag_updated
action_of (Event.tag_deleted w u t) = WorkspaceHistoryAction.tag_deleted
action_of (Event.workspace_created u x) = WorkspaceHistoryAction.workspace_created
action_of (Event.workspace_updated u a b) = WorkspaceHistoryAction.workspace_updated
action_of (Event.workspace_deleted u x) = WorkspaceHistoryAction.workspace_deleted
action_of (Event.workspace_invite_created w u i) = WorkspaceHistoryAction.workspace_invite_created
action_of (Event.workspace_invite_accepted w u i) = WorkspaceHistoryAction.workspace_invite_accepted
action_of (Event.workspace_invite_rejected w u i) = WorkspaceHistoryAction.workspace_invite_rejected
action_of (Event.workspace_member_created w u m) = WorkspaceHistoryAction.workspace_member_created
action_of (Event.workspace_member_removed w u m) = WorkspaceHistoryAction.workspace_member_removed
action_of (Event.workspace_invite_cancelled w u i) =
    WorkspaceHistoryAction.workspace_invite_cancelled
action_of (Event.item_stakes_changed w u a b) = WorkspaceHistoryAction.item_stakes_changed

-- The workspace in whose history the event stands, and who acted.
abbrev pub place_of : Event → ℕ × ℕ
place_of (Event.item_created w u i) = (w, u)
place_of (Event.item_updated w u a b) = (w, u)
place_of (Event.item_deleted w u i) = (w, u)
place_of (Event.payment_deleted w u p) = (w, u)
place_of (Event.payment_updated w u a b) = (w, u)
place_of (Event.payment_created w u p) = (w, u)
place_of (Event.item_tag_assigned w u t) = (w, u)
place_of (Event.item_tag_unassigned w u t) = (w, u)
place_of (Event.item_extracted w u a b) = (w, u)
place_of (Event.item_merged w u a b c) = (w, u)
place_of (Event.tag_created w u t) = (w, u)
place_of (Event.tag_updated w u a b) = (w, u)
place_of (Event.tag_deleted w u t) = (w, u)
place_of (Event.workspace_created u x) = (x.id, u)
place_of (Event.workspace_updated u a b) = (b.id, u)
place_of (Event.workspace_deleted u x) = (x.id, u)
place_of (Event.workspace_invite_created w u i) = (w, u)
place_of (Event.workspace_invite_accepted w u i) = (w, u)
place_of (Event.workspace_invite_rejected w u i) = (w, u)
place_of (Event.workspace_member_created w u m) = (w, u)
place_of (Event.workspace_member_removed w u m) = (w, u)
place_of (Event.workspace_invite_cancelled w u i) = (w, u)
place_of (Event.item_stakes_changed w u a b) = (w, u)

-- Before and after: what an event makes has no value before it, what it takes away none after it.
abbrev pub values_of : Event → JsonValue × JsonValue
values_of (Event.item_created w u i) = (JsonValue.null, JsonValue.item i)
values_of (Event.item_updated w u a b) = (JsonValue.item a, JsonValue.item b)
values_of (Event.item_deleted w u i) = (JsonValue.item i, JsonValue.null)
values_of (Event.payment_deleted w u p) = (JsonValue.payment p, JsonValue.null)
values_of (Event.payment_updated w u a b) = (JsonValue.payment a, JsonValue.payment b)
values_of (Event.payment_created w u p) = (JsonValue.null, JsonValue.payment p)
values_of (Event.item_tag_assigned w u t) = (JsonValue.null, JsonValue.item_tag t)
values_of (Event.item_tag_unassigned w u t) = (JsonValue.item_tag t, JsonValue.null)
values_of (Event.item_extracted w u a b) =
    (JsonValue.extracted none a, JsonValue.extracted (some b) a)
values_of (Event.item_merged w u a b c) =
    (JsonValue.merged (some a) (some b), JsonValue.merged c none)
values_of (Event.tag_created w u t) = (JsonValue.null, JsonValue.tag t)
values_of (Event.tag_updated w u a b) = (JsonValue.tag a, JsonValue.tag b)
values_of (Event.tag_deleted w u t) = (JsonValue.tag t, JsonValue.null)
values_of (Event.workspace_created u x) = (JsonValue.null, JsonValue.workspace x)
values_of (Event.workspace_updated u a b) = (JsonValue.workspace a, JsonValue.workspace b)
values_of (Event.workspace_deleted u x) = (JsonValue.workspace x, JsonValue.null)
values_of (Event.workspace_invite_created w u i) = (JsonValue.null, JsonValue.invite i)
values_of (Event.workspace_invite_accepted w u i) = (JsonValue.null, JsonValue.invite i)
values_of (Event.workspace_invite_rejected w u i) = (JsonValue.invite i, JsonValue.null)
values_of (Event.workspace_member_created w u m) = (JsonValue.null, JsonValue.member m)
values_of (Event.workspace_member_removed w u m) = (JsonValue.member m, JsonValue.null)
values_of (Event.workspace_invite_cancelled w u i) = (JsonValue.invite i, JsonValue.null)
values_of (Event.item_stakes_changed w u a b) = (stakes_json a, stakes_json b)

module _ ⦃prisma : Prisma⦄ where
  abbrev pub entry : Event → Db → WorkspaceHistory
  entry e db = record {
    id = prisma.next_id (λ h. h.id) db.history;
    workspace_id = (place_of e).0;
    actor_id = (place_of e).1;
    action = action_of e;
    old_value = (values_of e).0;
    new_value = (values_of e).1;
  }

  abbrev pub logged : Event → Db → Db
  logged e db = record db { history = prisma.insert_row (entry e db) db.history }

  -- The actor and the workspace of the event are there.
  abbrev pub may_log : Event → Db → Bool
  may_log e db = may_record (place_of e).1 (place_of e).0 db

  pub on_event_lem :
      (e : Event) (db : Db)
      → on_event e db
        ≡ (if may_log e db then ok (entry e db, logged e db) else err foreign_key_violation)
  unfolding on_event
  on_event_lem (Event.item_created w u i) db = refl
  on_event_lem _ db = refl

module _ ⦃prisma : Prisma⦄ ⦃emitter : EventEmitter⦄ where
  pub emit_lem :
      (e : Event) (db : Db)
      → emit e db
        ≡ (if may_log e db then ok (entry e db, logged e db) else err foreign_key_violation)
  unfolding emit
  emit_lem e db = elim (Bool-cases (may_log e db)) [
    | inl may ↦
        let run : on_event e db ≡ ok (entry e db, logged e db) =
          ground (arith, may, on_event_lem e db) in
        rw (may) (emitter.delivers on_event e db (logged e db) (entry e db) run)
    | inr barred ↦
        let run : on_event e db ≡ err foreign_key_violation =
          ground (arith, barred, on_event_lem e db) in
        rw (barred) (emitter.aborts on_event e db foreign_key_violation run)
  ]

  -- With the actor and the workspace there, an event is recorded.
  pub emit_run :
      (e : Event) (db : Db) → may_log e db ≡ true → emit e db ≡ ok (entry e db, logged e db)
  emit_run e db may = ground (arith, may, emit_lem e db)

module _ ⦃prisma : Prisma⦄ where
  pub may_record_there :
      (actor_id workspace_id : ℕ) (db : Db)
      → 0 < count (λ (u : User). u.id == actor_id) db.users
      → 0 < count (λ (w : Workspace). w.id == workspace_id) db.workspaces
      → may_record actor_id workspace_id db ≡ true
  may_record_there actor_id workspace_id db actor place =
      let (u, user_found) = find_counted (λ (u : User). u.id == actor_id) db.users actor in
      let (w, place_found) =
        find_counted (λ (w : Workspace). w.id == workspace_id) db.workspaces place in
      ground (arith, user_found, place_found)
