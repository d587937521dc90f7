-- ===== src/Prisma/Client.antt =====
-- The in-memory client as a value of the interface, for tests and witnesses.
use cost_x.Base.{refl, count}
use cost_x.Prisma.{Prisma}
use cost_x.Prisma.InMemory.{
  first, filter, update, delete, next, push, first-some, first_stored, first-none, count-filter,
  count-push, count-update, count-delete, next_fresh,
}

instance abbrev pub in_memory : Prisma
in_memory = record {
  find_first = first;
  find_many = filter;
  count_rows = count;
  insert_row = push;
  update_rows = update;
  delete_rows = delete;
  next_id = next;
  find_first_some = first-some;
  find_first_stored = first_stored;
  find_first_none = first-none;
  count-find_many = count-filter;
  count_rows_lem = λ p rows. refl;
  count-insert_row = count-push;
  count-update_rows = count-update;
  count-delete_rows = count-delete;
  next_id_fresh = next_fresh;
}
