-- ===== src/Tests/Database.antt =====
-- The interface of TypeORM, carried out on lists: it shows that its laws can hold.
use sojourn_backend.Prelude.{true, not, arith}
use sojourn_backend.Orm.{Orm}
use sojourn_backend.Tests.Rows.{
  select, first, upsert, change, next_key, select_sound, select_keeps, first_sound, first_keeps,
  first-none, select_complete, upsert-All, upsert_found, change-All, change-HasKey, upsert-HasKey,
  drop-All, below_next, length-upsert, length-select, upsert-Mem, change-Mem, drop-Mem,
}

unfoldable pub list_orm : Orm
list_orm = record {
  find = λ Row. select;
  find_one = λ Row. first;
  save = λ Row. upsert;
  update = λ Row. change;
  delete = λ Row p. select (λ x. not (p x));
  generate = λ Row. next_key;
  skips_null = true;
  requires_entity = true;
  find_sound = λ Row. select_sound;
  find_keeps = λ Row. select_keeps;
  find_one_sound = λ Row. first_sound;
  find_one_keeps = λ Row. first_keeps;
  find_one_none = λ Row. first-none;
  find_complete = λ Row. select_complete;
  save_all = λ Row. upsert-All;
  save_has = λ Row. upsert-HasKey;
  save_length = λ Row. length-upsert;
  delete_length = λ Row p q. length-select p (λ x. not (q x));
  save_found = λ Row. upsert_found;
  update_all = λ Row. change-All;
  update_has = λ Row. change-HasKey;
  delete_all = λ Row. drop-All;
  save_mem = λ Row. upsert-Mem;
  update_mem = λ Row. change-Mem;
  delete_mem = λ Row. drop-Mem;
  generate_fresh = λ Row key t. below_next key (next_key key t) t (omega arith);
}
