-- ===== src/Stake/Tests.antt =====
-- Runs of src/item-stake on a small database, with a client that keeps lists, an emitter that calls
-- its listener and whole numbers.
use cost_x.Base.{
  ℕ, ◌+◌, ◌≡◌, ◌↔◌, refl, arith, true, false, not, ◌&&◌, none, some, List, [], ◌∷◌, count,
  if◌then◌else◌, Bool-cases, inl, inr, ◌==◌,
}
use cost_x.Prisma.Client.{in_memory}
use cost_x.Schema.{
  UserRole, StakeRule, usd, equally, User, Workspace, Item, ItemStake, WorkspaceMember,
  DecimalValue, Db, empty,
}
use cost_x.Transaction.{ok}
use cost_x.Delegate.{create}
use cost_x.History.{Event}
use cost_x.History.Emitter.{direct_emitter, emit}
use cost_x.History.Laws.{logged}
use cost_x.Loader.{has_key}
use cost_x.Membership.{list_active_by_workspace_id}
use cost_x.Stake.Numbers.{Numbers, Radash}
use cost_x.Stake.Service.{
  MemberStake, create_or_update_by, create_or_update, bulk_create_or_update, get_by_item_id,
}
use cost_x.Stake.Override.{validate_stakes, remove_rule, set_item_stakes}
use cost_x.Stake.Validation.{IsValid, validate_stakes_iff}
use cost_x.Stake.Rules.{IsRuled, StakeMutation, StakeMutations, rest, next, stake_mutations-IsRuled}

abbrev whole_of : ℕ → DecimalValue
whole_of n = record { negative = false; digits = n; scale = 0 }

instance abbrev whole : Numbers
whole = record { plus = λ a b. whole_of (a.digits + b.digits) }

abbrev diff_lists : List ℕ → List ℕ → List ℕ
diff_lists [] other = []
diff_lists (k ∷ root) other =
    let rest = diff_lists root other in if has_key other k then rest else k ∷ rest

has_key-diff_lists :
    (root other : List ℕ) (k : ℕ)
    → has_key (diff_lists root other) k ≡ (has_key root k && not (has_key other k))
has_key-diff_lists [] other k = refl
has_key-diff_lists (r ∷ root) other k = elim (Bool-cases (r == k)) [
  | inl same ↦
      let e : r ≡ k = ground arith in
      elim (Bool-cases (has_key other r)) [
        | inl there ↦
            let there' : has_key other k ≡ true = rw (e) at there in
            ground (arith, same, there, there', has_key-diff_lists root other k)
        | inr away ↦
            let away' : has_key other k ≡ false = rw (e) at away in
            ground (arith, same, away, away')
      ]
  | inr apart ↦ elim (Bool-cases (has_key other r)) [
    | inl there ↦ ground (arith, apart, there, has_key-diff_lists root other k)
    | inr away ↦ ground (arith, apart, away, has_key-diff_lists root other k)
  ]
]

instance abbrev lists : Radash
lists = record { diff = diff_lists; has_key-diff = has_key-diff_lists }

abbrev actor : User
actor = record {
  id = 2;
  email = "a";
  password = "p";
  name = "n";
  role = UserRole.user;
  is_banned = false;
  confirm_email_temp_code = none;
  reset_password_temp_code = none;
}

abbrev member : WorkspaceMember
member = record {
  id = 7;
  workspace_id = 1;
  user_id = 2;
  invite_id = none;
  joined_at = 1;
  removed_at = none;
  removed_by_user_id = none;
}

abbrev home : Workspace
home = record { id = 1; title = "home"; owner_id = 2; default_currency = usd; stake_rule = equally }

abbrev bread : Item
bread = record { id = 1; title = "bread"; workspace_id = 1; stake_rule = some StakeRule.equally }

abbrev before : Db
before = record empty {
  users = actor ∷ [];
  workspaces = home ∷ [];
  items = bread ∷ [];
  workspace_members = member ∷ [];
}

abbrev shares : List MemberStake
shares = record { workspace_member_id = 7; value = whole_of 3 } ∷ []

abbrev share : ItemStake
share = record { id = 1; item_id = 1; workspace_member_id = 7; value = whole_of 3 }

abbrev after : Db
after =
    logged
      (Event.item_stakes_changed 1 2
        (record { item_id = 1; stake_rule = some StakeRule.equally; stakes = some [] })
        (record { item_id = 1; stake_rule = none; stakes = some (share ∷ []) }))
      (record before { items = record bread { stake_rule = none } ∷ []; item_stakes = share ∷ [] })

validate_run : validate_stakes bread shares before ≡ ok (tt, before)
unfolding validate_stakes list_active_by_workspace_id
validate_run = refl

set_run : set_item_stakes bread shares actor before ≡ ok (share ∷ [], after)
unfolding set_item_stakes validate_stakes list_active_by_workspace_id get_by_item_id
    bulk_create_or_update create_or_update create_or_update_by create remove_rule emit
set_run = refl

validate_stakes_iff_example :
    (validate_stakes bread shares before ≡ ok (tt, before)) ↔ IsValid bread shares before
validate_stakes_iff_example = validate_stakes_iff bread shares before

before-IsRuled : IsRuled before
unfolding count
before-IsRuled = refl

run : StakeMutations before after
unfolding count
run = next (StakeMutation.sets_stakes bread shares actor refl set_run) rest

stake_mutations-IsRuled_example : IsRuled after
stake_mutations-IsRuled_example = stake_mutations-IsRuled run before-IsRuled
