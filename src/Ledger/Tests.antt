-- ===== src/Ledger/Tests.antt =====
-- A run of src/payment and src/item-merge on a small database, with a client that keeps lists and an
-- emitter that calls its listener.
use cost_x.Base.{ℕ, ◌≡◌, refl, none, some, false, Option, [], ◌∷◌, count, arith}
use cost_x.Prisma.Client.{in_memory}
use cost_x.Schema.{
  UserRole, usd, equally, User, Workspace, Item, Payment, WorkspaceMember, Db, empty,
}
use cost_x.Transaction.{ok}
use cost_x.Delegate.{create}
use cost_x.History.{Event}
use cost_x.History.Emitter.{direct_emitter, emit}
use cost_x.History.Laws.{logged}
use cost_x.Item.{merge, delete_item_row, ensure_is_belonging}
use cost_x.Payment.{PaymentIn, create_payment}
use cost_x.Ledger.Places.{put_at}
use cost_x.Ledger.Invariant.{IsKept, Places}
use cost_x.Ledger.Reach.{Mutation, Mutations, rest, next, mutations-IsKept}

abbrev payer : User
payer = record {
  id = 2;
  email = "a";
  password = "p";
  name = "n";
  role = UserRole.user;
  is_banned = false;
  confirm_email_temp_code = none;
  reset_password_temp_code = none;
}

abbrev membership : WorkspaceMember
membership = record {
  id = 7;
  workspace_id = 1;
  user_id = 2;
  invite_id = none;
  joined_at = 1;
  removed_at = none;
  removed_by_user_id = none;
}

abbrev home : Workspace
home = record { id = 1; title = "home"; owner_id = 2; default_currency = usd; stake_rule = equally }

abbrev bread : Item
bread = record { id = 1; title = "bread"; workspace_id = 1; stake_rule = none }

abbrev milk : Item
milk = record { id = 2; title = "milk"; workspace_id = 1; stake_rule = none }

abbrev start : Db
start = record empty {
  users = payer ∷ [];
  workspaces = home ∷ [];
  items = bread ∷ milk ∷ [];
  workspace_members = membership ∷ [];
}

abbrev bill : PaymentIn
bill = record {
  title = none;
  cost = record { negative = false; digits = 250; scale = 2 };
  currency = usd;
  date = 3;
}

abbrev paid : Payment
paid = record {
  id = 1;
  cost = record { negative = false; digits = 250; scale = 2 };
  item_id = 2;
  date = 3;
  title = none;
  currency = usd;
  payer_id = 7;
}

abbrev with_payment : Db
with_payment = logged (Event.payment_created 1 2 paid) (record start { payments = paid ∷ [] })

abbrev merged : Db
merged = logged (Event.item_merged 1 2 bread milk (some bread)) (record with_payment {
  items = bread ∷ [];
  payments = record paid { item_id = 1; title = some "milk" } ∷ [];
})

payment_run : create_payment milk membership bill payer start ≡ ok (paid, with_payment)
unfolding create_payment create emit
payment_run = refl

merge_run : merge bread milk payer with_payment ≡ ok (some bread, merged)
unfolding merge delete_item_row ensure_is_belonging emit
merge_run = refl

abbrev nowhere : ℕ → Option ℕ
nowhere k = none

abbrev places : Places
places = record {
  item = put_at (put_at nowhere 2 1) 1 1;
  tag = nowhere;
  member = put_at nowhere 7 1;
}

start-IsKept : IsKept start
unfolding count
start-IsKept = (
  places,
  record {
    items = record { agree = refl; known = λ k e. ground arith };
    tags = record { agree = refl; known = λ k e. absurd (ground arith) };
    members = record { agree = refl; known = λ k e. ground arith };
    payments = refl;
    item_tags = refl;
    unique = λ k. ground arith;
  },
)

run : Mutations start merged
unfolding count
run =
    next
      (Mutation.creates_payment milk membership bill payer (ground arith) (ground arith)
        payment_run)
      (next (Mutation.merges bread milk payer (ground arith) (ground arith) merge_run) rest)

mutations-IsKept_example : IsKept merged
mutations-IsKept_example = mutations-IsKept run start-IsKept
