-- ===== src/Contact/Where.antt =====
-- The `where` clauses of src/contact.
use cost_x.Base.{ℕ, Bool, ◌&&◌, ◌||◌, ◌==◌, is_none}
use cost_x.Schema.{Invite, Contact, UserBlock}

-- `{ removedAt: null, sourceUserId, targetUserId }`
abbrev pub is_active_contact : ℕ → ℕ → Contact → Bool
is_active_contact source target c =
    is_none c.removed_at && (c.source_user_id == source && c.target_user_id == target)

-- `{ OR: [{ sourceUserId, targetUserId }, { the other way round }], removedAt: null }`
abbrev pub is_contact_between : ℕ → ℕ → Contact → Bool
is_contact_between a b c =
    ((c.source_user_id == a && c.target_user_id == b)
      || (c.source_user_id == b && c.target_user_id == a))
    && is_none c.removed_at

-- `{ blockedId, blockerId, removedAt: null }`
abbrev pub is_active_block : ℕ → ℕ → UserBlock → Bool
is_active_block blocked blocker b =
    b.blocked_id == blocked && (b.blocker_id == blocker && is_none b.removed_at)

-- `{ inviteeId, inviterId, reactedAt: null }`
abbrev pub is_open_invite : ℕ → ℕ → Invite → Bool
is_open_invite inviter invitee i =
    i.invitee_id == invitee && (i.inviter_id == inviter && is_none i.reacted_at)
