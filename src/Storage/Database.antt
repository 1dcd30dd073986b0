-- ===== src/Storage/Database.antt =====
-- include/VeritasSync/storage/Database.h and src/storage/Database.cpp: the table of file records and the
-- transactions on it. SQLite is a parameter: its statements, and whether a transaction is open.
pub mod Laws
use veritas_sync.Base.{
  ℕ, Bool, true, false, List, [], ◌∷◌, Option, none, some, Str, str_key, nat_key, if◌then◌else◌,
}

-- `mtime` is an `int64_t` that is only stored and returned: a number stands for it.
pub record FileMetadata : Type 0 where
  pub path : Str
  pub hash : Str
  pub mtime : ℕ

-- What the program calls of SQLite on the table `files`, of which no column is null. The Booleans say
-- whether the call answers `SQLITE_DONE` or `SQLITE_OK`.
pub record Sqlite : Type 1 where
  pub Conn : Type 0
  -- The opposite of `sqlite3_get_autocommit`.
  pub in_transaction : Conn → Bool
  pub select : Conn → Str → Option FileMetadata
  pub select_all : Conn → List FileMetadata
  pub upsert : Conn → Str → Str → ℕ → Bool × Conn
  pub delete : Conn → Str → Bool × Conn
  pub exec_begin : Conn → Bool × Conn
  pub exec_commit : Conn → Bool × Conn
  pub exec_rollback : Conn → Bool × Conn

-- `ready` says that the connection is open and the statements are prepared.
pub record Database (Conn : Type 0) : Type 0 where
  pub conn : Conn
  pub ready : Bool

module _ (S : Sqlite) where
  abbrev pub Db : Type 0
  Db = Database S.Conn

  abbrev pub is_open : Db → Bool
  is_open d = S.in_transaction d.conn

  -- The connection after a call.
  abbrev pub called : Db → Bool × S.Conn → Bool × Db
  called d (done, conn) = (done, record d { conn = conn })

  -- The test at the start of an operation, and its statement.
  abbrev pub when_ready : (S.Conn → Bool × S.Conn) → Db → Bool × Db
  when_ready run d = if d.ready then called d (run d.conn) else (false, d)

  unfoldable pub get_file : Db → Str → Option FileMetadata
  get_file d path = if d.ready then S.select d.conn path else none

  unfoldable pub get_all_files : Db → List FileMetadata
  get_all_files d = if d.ready then S.select_all d.conn else []

  unfoldable pub update_file : Db → Str → Str → ℕ → Bool × Db
  update_file d path hash mtime = when_ready (λ c. S.upsert c path hash mtime) d

  unfoldable pub remove_file : Db → Str → Bool × Db
  remove_file d path = when_ready (λ c. S.delete c path) d

  unfoldable pub begin_transaction_nolock : Db → Bool × Db
  begin_transaction_nolock d = called d (S.exec_begin d.conn)

  unfoldable pub commit_transaction_nolock : Db → Bool × Db
  commit_transaction_nolock d = called d (S.exec_commit d.conn)

  unfoldable pub rollback_transaction_nolock : Db → Bool × Db
  rollback_transaction_nolock d = called d (S.exec_rollback d.conn)

  -- The constructor of `TransactionGuard`: a failed BEGIN is not noticed.
  unfoldable pub open_guard : Db → Db
  unfolding begin_transaction_nolock
  open_guard d = (begin_transaction_nolock d).1

  -- Its `commit`, with the flag before it, and after it in place of the result, which is the same.
  unfoldable pub commit_guard : Bool → Db → Bool × Db
  unfolding commit_transaction_nolock
  commit_guard committed d = if committed then (true, d) else commit_transaction_nolock d

  -- Its destructor.
  unfoldable pub close_guard : Bool → Db → Db
  unfolding rollback_transaction_nolock
  close_guard committed d = if committed then d else (rollback_transaction_nolock d).1
