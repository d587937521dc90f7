-- ===== src/Payment/Service.antt =====
-- The mutations of src/payment/payment.service.ts.
use cost_x.Base.{ℕ, not, Option, none, some, String, ◌==◌}
use cost_x.Prisma.{Prisma}
use cost_x.Schema.{User, Item, Payment, WorkspaceMember, Currency, DecimalValue}
use cost_x.Transaction.{
  M, pure, throw_if, bad_request, workspace_member_not_belonging_to_workspace, ◌>>=◌, ◌>>◌,
}
use cost_x.Delegate
use cost_x.Delegate.{find_or_throw, create, connect, update_one, delete_one}
use cost_x.History.{Event}
use cost_x.History.Emitter.{EventEmitter, emit}
use cost_x.Item.{ensure_is_belonging, payment_to_item}

-- `Omit<PaymentInDto, 'payerId'>`; the title is left out, null or a string.
pub record PaymentIn : Type 0 where
  pub title : Option (Option String)
  pub cost : DecimalValue
  pub currency : Currency
  pub date : ℕ

abbrev pub created_title : Option (Option String) → Option String
created_title none = none
created_title (some title) = title

-- A column that is left out of `data` stays as it is.
abbrev pub updated_title : Option (Option String) → Option String → Option String
updated_title none old = old
updated_title (some title) old = title

abbrev pub payment_in : Item → WorkspaceMember → PaymentIn → ℕ → Payment
payment_in item payer dto id = record {
  id = id;
  cost = dto.cost;
  item_id = item.id;
  date = dto.date;
  title = created_title dto.title;
  currency = dto.currency;
  payer_id = payer.id;
}

abbrev pub repaid : WorkspaceMember → PaymentIn → Payment → Payment
repaid payer dto p = record p {
  cost = dto.cost;
  currency = dto.currency;
  date = dto.date;
  payer_id = payer.id;
  title = updated_title dto.title p.title;
}

-- `getPayment` asks the same twice.
unfoldable pub get_payment : Item → Payment → M Payment
get_payment item payment = do
  ensure_is_belonging payment_to_item payment item
  throw_if (not (payment.item_id == item.id)) bad_request
  pure payment

module _ ⦃prisma : Prisma⦄ ⦃emitter : EventEmitter⦄ where
  unfoldable pub create_payment : Item → WorkspaceMember → PaymentIn → User → M Payment
  create_payment item payer dto current_user = do
    throw_if (not (payer.workspace_id == item.workspace_id))
        workspace_member_not_belonging_to_workspace
    connect Delegate.item (λ i. i.id == item.id)
    connect Delegate.workspace_member (λ m. m.id == payer.id)
    payment ← create Delegate.payment (payment_in item payer dto)
    emit (Event.payment_created item.workspace_id current_user.id payment)
    pure payment

  unfoldable pub update_payment : Payment → WorkspaceMember → PaymentIn → User → M Payment
  update_payment payment payer dto current_user = do
    item ← find_or_throw Delegate.item (λ i. i.id == payment.item_id)
    throw_if (not (payer.workspace_id == item.workspace_id))
        workspace_member_not_belonging_to_workspace
    updated_payment ← update_one Delegate.payment (λ p. p.id == payment.id) (repaid payer dto)
    emit (Event.payment_updated item.workspace_id current_user.id payment updated_payment)
    pure updated_payment

  unfoldable pub delete_payment : Payment → User → M (Unit {0})
  delete_payment payment current_user = do
    item ← find_or_throw Delegate.item (λ i. i.id == payment.item_id)
    delete_one Delegate.payment (λ p. p.id == payment.id)
    emit (Event.payment_deleted item.workspace_id current_user.id payment)
    pure tt
