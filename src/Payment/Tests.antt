-- ===== src/Payment/Tests.antt =====
-- Runs of src/payment on a small database, with a client that keeps lists and an emitter that calls
-- its listener.
use cost_x.Base.{
  Bool, true, false, not, ◌&&◌, ◌+◌, ◌≡◌, ◌⊎◌, arith, refl, none, some, List, [], ◌∷◌, count, bit,
  ◌==◌,
}
use cost_x.Prisma.Client.{in_memory}
use cost_x.Schema.{
  UserRole, usd, equally, User, Workspace, Item, Payment, WorkspaceMember, Db, empty,
}
use cost_x.Transaction.{ok, err, workspace_member_not_belonging_to_workspace}
use cost_x.History.Emitter.{direct_emitter}
use cost_x.Group.{Dict, get}
use cost_x.Loader.{or_empty}
use cost_x.Payment.Service.{PaymentIn, create_payment}
use cost_x.Payment.Filter.{PaymentsFilter, filter_payments}
use cost_x.Payment.Queries.{get_item_payments, get_payments_by_item_ids}
use cost_x.Payment.Laws.{
  is_at_end, get_payments_by_item_ids-get_item_payments, filter_payments-get_item_payments,
  create_payment_lem,
}

abbrev paid : Payment
paid = record {
  id = 1;
  cost = record { negative = false; digits = 250; scale = 2 };
  item_id = 2;
  date = 3;
  title = none;
  currency = usd;
  payer_id = 7;
}

abbrev stored : Db
stored = record empty { payments = paid ∷ record paid { id = 2; date = 5 } ∷ [] }

abbrev march : PaymentsFilter
march = record { date_from = some 1; date_to = some 5; ids = none }

get_payments_by_item_ids-get_item_payments_example :
    (dict : Dict (List Payment)) × (rows : List Payment) × (get_payments_by_item_ids
        (1 ∷ 2 ∷ [])
        march
        stored
      ≡ ok (dict, stored))
    × (get_item_payments 2 march stored ≡ ok (rows, stored))
    × ((q : Payment → Bool) → count q (or_empty (get 2 dict)) ≡ count q rows)
get_payments_by_item_ids-get_item_payments_example =
    get_payments_by_item_ids-get_item_payments (1 ∷ 2 ∷ []) march 2 stored refl

filter_payments-get_item_payments_example :
    (all queried : List Payment) × (get_item_payments 2
        (record { date_from = none; date_to = none; ids = none })
        stored
      ≡ ok (all, stored))
    × (get_item_payments 2 march stored ≡ ok (queried, stored))
    × ((q : Payment → Bool)
        → count q (filter_payments march all)
          ≡ count (λ p. q p && not (is_at_end (some 5) p)) queried)
filter_payments-get_item_payments_example = filter_payments-get_item_payments 2 march stored

abbrev milk : Item
milk = record { id = 2; title = "milk"; workspace_id = 1; stake_rule = none }

abbrev payer : User
payer = record {
  id = 2;
  email = "a";
  password = "p";
  name = "n";
  role = UserRole.user;
  is_banned = false;
  confirm_email_temp_code = none;
  reset_password_temp_code = none;
}

abbrev home : Workspace
home = record { id = 1; title = "home"; owner_id = 2; default_currency = usd; stake_rule = equally }

abbrev membership : WorkspaceMember
membership = record {
  id = 7;
  workspace_id = 1;
  user_id = 2;
  invite_id = none;
  joined_at = 1;
  removed_at = none;
  removed_by_user_id = none;
}

abbrev shop : Db
shop = record stored {
  users = payer ∷ [];
  workspaces = home ∷ [];
  items = milk ∷ [];
  workspace_members = membership ∷ [];
}

abbrev bill : PaymentIn
bill = record {
  title = none;
  cost = record { negative = false; digits = 250; scale = 2 };
  currency = usd;
  date = 3;
}

create_payment_lem_example :
    ((true ≡ false)
      × (create_payment milk membership bill payer shop
          ≡ err workspace_member_not_belonging_to_workspace))
    ⊎ ((membership.workspace_id ≡ milk.workspace_id)
        × ((payment : Payment) × (db' : Db) × (create_payment milk membership bill payer shop
              ≡ ok (payment, db'))
            × (payment.item_id ≡ 2)
            × (payment.payer_id ≡ 7)
            × (payment.cost ≡ bill.cost)
            × (payment.currency ≡ usd)
            × (payment.date ≡ 3)
            × (payment.title ≡ none)
            × (count (λ (p : Payment). p.id == payment.id) shop.payments ≡ 0)
            × ((q : Payment → Bool)
                → count q db'.payments ≡ bit (q payment) + count q shop.payments)
            × (db'.items ≡ shop.items)
            × (db'.workspace_members ≡ shop.workspace_members)))
unfolding count
create_payment_lem_example =
    create_payment_lem milk membership bill payer shop (omega arith) (omega arith) (omega arith)
      (omega arith)
