-- ===== src/Tests/Storage.antt =====
-- A table as the database of the cache.
use veritas_sync.Base.{
  ℕ, ◌≡◌, refl, inl, inr, Bool, true, false, List, [], ◌∷◌, none, some, arith, Str, str_key,
  nat_key, str_eq, str_eq_iff, if◌then◌else◌,
}
use veritas_sync.Storage.Database.{
  FileMetadata, Sqlite, Db, get_file, update_file, open_guard, begin_transaction_nolock,
  commit_guard, commit_transaction_nolock,
}
use veritas_sync.Storage.Database.Laws.{IsSqlite, first_row, before}
use veritas_sync.Storage.CachedFileStore.{
  PendingOp, update_op, Store, peek, get, record_op, load_cache, update, begin_transaction, commit,
  commit_ops,
}
use veritas_sync.Storage.CachedFileStore.Mirror.{Reach, updates, begins, commits, here, next}
use veritas_sync.Storage.CachedFileStore.Reads.{
  get_follows_database, peek_hides_uncommitted, peek_follows_database,
}
use veritas_sync.Tests.Common.{text_a, text_b, text_c}

abbrev row : Str → Str → ℕ → FileMetadata
row path hash mtime = record { path = path; hash = hash; mtime = mtime }

-- A table that is changed at the front, with the rows that a rollback returns to, and whether a
-- transaction is open.
record Table : Type 0 where
  current : List FileMetadata
  before_it : List FileMetadata
  active : Bool

unfoldable remove_rows : Str → List FileMetadata → List FileMetadata
remove_rows path [] = []
remove_rows path (meta ∷ rows) =
    let rest = remove_rows path rows in if str_eq meta.path path then rest else meta ∷ rest

first_row-remove_rows :
    (path j : Str) (rows : List FileMetadata)
    → first_row j (remove_rows path rows) ≡ (if str_eq path j then none else first_row j rows)
unfolding remove_rows first_row
first_row-remove_rows path j [] = ground arith
first_row-remove_rows path j (meta ∷ rows) = ground (
  arith,
  first_row-remove_rows path j rows,
  str_eq_iff meta.path path,
  str_eq_iff path j,
  str_eq_iff meta.path j,
)

unfoldable table_begin : Table → Bool × Table
table_begin c =
    if c.active then (false, c) else (true, record c { before_it = c.current; active = true })

unfoldable table_commit : Table → Bool × Table
table_commit c = if c.active then (true, record c { active = false }) else (false, c)

unfoldable table_rollback : Table → Bool × Table
table_rollback c =
    if c.active then (true, record c { current = c.before_it; active = false }) else (false, c)

abbrev table_sqlite : Sqlite
table_sqlite = record {
  Conn = Table;
  in_transaction = λ c. c.active;
  select = λ c path. first_row path c.current;
  select_all = λ c. c.current;
  upsert = λ c path hash mtime. (true, record c { current = row path hash mtime ∷ c.current });
  delete = λ c path. (true, record c { current = remove_rows path c.current });
  exec_begin = table_begin;
  exec_commit = table_commit;
  exec_rollback = table_rollback;
}

table_IsSqlite : IsSqlite table_sqlite
unfolding first_row table_begin table_commit table_rollback
table_IsSqlite = record {
  saved = λ c path. first_row path c.before_it;
  all_rows = λ c j. refl;
  upsert_writes = λ p h m. record {
    done = λ c j e. refl;
    done_saved = λ c j e. refl;
    failed = λ c j e. cc;
    failed_saved = λ c j e. cc;
    done_open = λ c e. refl;
    not_opened = λ c e. e;
  };
  delete_writes = λ p. record {
    done = λ c j e. first_row-remove_rows p j c.current;
    done_saved = λ c j e. refl;
    failed = λ c j e. cc;
    failed_saved = λ c j e. cc;
    done_open = λ c e. refl;
    not_opened = λ c e. e;
  };
  begin_select = λ c j e. ground arith;
  begin_saved = λ c j e. ground arith;
  begin_failed = λ c e. ground arith;
  commit_select = λ c j e. ground arith;
  commit_closes = λ c e. ground arith;
  commit_failed = λ c j e o. ground arith;
  rollback_select = λ c j o. ground arith;
  rollback_closes = λ c o. ground arith;
}

abbrev table : Table
table = record { current = row text_a text_b 1 ∷ []; before_it = []; active = false }

abbrev database : Db table_sqlite
database = record { conn = table; ready = true }

abbrev closed_store : Store (Db table_sqlite)
closed_store = record { db = database; cache = []; pending = none; committed = false }

abbrev loaded_store : Store (Db table_sqlite)
loaded_store = load_cache table_sqlite closed_store

abbrev open_store : Store (Db table_sqlite)
open_store = begin_transaction table_sqlite loaded_store

abbrev written_store : Store (Db table_sqlite)
written_store = (update table_sqlite open_store text_a text_c 2).0

abbrev committed_store : Store (Db table_sqlite)
committed_store = (commit table_sqlite written_store).0

abbrev first_write : PendingOp
first_write = update_op (row text_a text_c 2)

abbrev flagged_store : Store (Db table_sqlite)
flagged_store = record {
  db = database;
  cache = (text_a, row text_a text_b 1) ∷ [];
  pending = some [];
  committed = true;
}

written_reached : Reach table_sqlite loaded_store written_store
unfolding load_cache begin_transaction open_guard begin_transaction_nolock update update_file
    table_begin record_op
written_reached =
    next (next here (begins refl) (inr (inr refl))) (updates text_a text_c 2 refl) (inr (inr refl))

get_follows_database_example :
    get written_store text_a ≡ get_file table_sqlite written_store.db text_a
unfolding load_cache begin_transaction open_guard begin_transaction_nolock update update_file
    table_begin record_op
get_follows_database_example =
    get_follows_database table_sqlite table_IsSqlite closed_store written_store text_a refl refl
      refl written_reached refl

peek_hides_uncommitted_example :
    peek written_store text_a ≡ before table_sqlite table_IsSqlite written_store.db text_a
unfolding load_cache begin_transaction open_guard begin_transaction_nolock update update_file
    table_begin record_op
peek_hides_uncommitted_example =
    peek_hides_uncommitted table_sqlite table_IsSqlite closed_store written_store text_a
      (first_write ∷ []) refl refl refl written_reached refl refl

peek_follows_database_example :
    peek committed_store text_a ≡ get_file table_sqlite committed_store.db text_a
unfolding load_cache begin_transaction open_guard begin_transaction_nolock update update_file
    table_begin record_op commit commit_ops commit_guard commit_transaction_nolock table_commit
peek_follows_database_example =
    peek_follows_database table_sqlite table_IsSqlite closed_store committed_store text_a refl refl
      refl (next written_reached commits (inr (inl refl))) (inr refl)
