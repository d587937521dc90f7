-- ===== src/Transaction.antt =====
-- A service method runs in the transaction of its mutation: it reads and writes the tables, or it
-- throws, and then the transaction is rolled back and the tables are as they were before it
-- (src/common/interceptor/transaction.interceptor.ts and http-transaction.interceptor.ts).
use cost_x.Base.{◌≡◌, refl, Bool, true, false, Option, none, some}
use cost_x.Schema.{Db}

-- `ApplicationErrorCode`, the exceptions of Nest, and the errors of Prisma and of JavaScript.
pub data Error : Type 0 where
  no_access internal_server_error type_error not_found bad_request : Error
  record_not_found unique_constraint_violation foreign_key_violation validation_error : Error
  workspace_invite_not_found workspace_invite_already_exists : Error
  improper_workspace_invite_status user_already_workspace_member : Error
  insufficient_inviter_permissions workspace_member_not_found : Error
  workspace_member_not_belonging_to_workspace workspace_member_already_removed : Error
  cannot_remove_workspace_owner insufficient_actor_permissions : Error
  invitee_already_send_invite inviter_already_send_invite invitee_blocked_inviter : Error
  inviter_blocked_invitee contact_already_exists contact_already_removed contact_not_found : Error
  improper_invite_status invite_not_found self_block_forbidden blocked_user_not_found : Error
  user_is_already_blocked user_is_not_blocked item_not_found : Error
  extract_payments_empty extract_all_payments payment_not_belong_to_item : Error
  workspace_member_stake_duplicated workspace_member_stake_not_specified : Error
  workspace_member_stake_has_negative_value non_positive_sum_of_stake_values : Error
  invalid_refresh_token unknown_user invalid_credentials email_not_verified user_banned : Error
  unauthorized : Error

pub data Result (A : Type 0) : Type 0 where
  ok : A → Result A
  err : Error → Result A

abbrev pub M : Type 0 → Type 0
M A = Db → Result (A × Db)

module _ {A : Type 0} where
  abbrev pub pure : A → M A
  pure a db = ok (a, db)

  abbrev pub throw : Error → M A
  throw e db = err e

  abbrev pub gets : (Db → A) → M A
  gets f db = ok (f db, db)

  -- `if (!row) throw …; return row;`
  abbrev pub or_throw : Error → Option A → M A
  or_throw e none = throw e
  or_throw e (some a) = pure a

infixl 5 ◌>>=◌ ◌>>◌
abbrev pub ◌>>=◌ : {A B : Type 0} → M A → (A → M B) → M B
◌>>=◌ m f db = elim (m db) [ ok (a, db') ↦ f a db' | err e ↦ err e ]

abbrev pub ◌>>◌ : {A B : Type 0} → M A → M B → M B
m >> k = m >>= λ _. k

-- A sequence whose first part comes through goes on with its answer.
pub after_run :
    {A B : Type 0} (m : M A) (f : A → M B) (db : Db) {a : A} {between : Db} {end : Result (B × Db)}
    → m db ≡ ok (a, between)
    → f a between ≡ end
    → (m >>= f) db ≡ end
after_run m f db h rest = rw (h, ◌>>=◌) rest

-- A sequence that comes through: its first part did, and then the rest of it.
pub through {ℓ} :
    {A B : Type 0} {C : Type ℓ} (m : M A) (f : A → M B) (db : Db) {b : B} {db' : Db}
    → (m >>= f) db ≡ ok (b, db')
    → ((a : A) (between : Db) → m db ≡ ok (a, between) → f a between ≡ ok (b, db') → C)
    → C
through {A} {B} {C} m f db {b} {db'} h use_parts = first (m db) h use_parts
  where
    first :
        (r : Result (A × Db))
        → elim r [ ok (a, between) ↦ f a between | err e ↦ err e ] ≡ ok (b, db')
        → ((a : A) (between : Db) → r ≡ ok (a, between) → f a between ≡ ok (b, db') → C)
        → C
    first (ok (a, between)) e k = k a between refl e
    first (err e) e' k = absurd (cc)

-- `if (test) throw …;`
abbrev pub throw_if : Bool → Error → M (Unit {0})
throw_if true e db = err e
throw_if false e db = ok (tt, db)

abbrev pub modify : (Db → Db) → M (Unit {0})
modify f db = ok (tt, f db)

-- `prisma.$transaction(async (tx) => …)`: the answer, and the tables after it.
pub transaction : {A : Type 0} → M A → Db → Result A × Db
transaction m db = elim (m db) [ ok (a, db') ↦ (ok a, db') | err e ↦ (err e, db) ]
