-- ===== src/Storage/CachedFileStore.antt =====
-- include/VeritasSync/storage/CachedFileStore.h and src/storage/CachedFileStore.cpp: the cache of file
-- records in front of the database. One thread opens transactions here, so `s_current_pending_ops` is
-- a field; `peek` is what `get` answers to any other thread.
mod Buffer
pub mod Mirror
mod Transactions
pub mod Reads
pub mod Staleness
use veritas_sync.Base.{
  ℕ, zero, suc, ◌+◌, ◌-◌, ◌*◌, ◌/◌, ◌%◌, ◌^◌, ◌≤◌, ◌<◌, min, ◌≡◌, refl, sym, ap, ◌∙◌, subst, ◌≢◌,
  ◌↔◌, ◌⊎◌, inl, inr, Bool, true, false, not, ◌&&◌, ◌||◌, List, [], ◌∷◌, ◌++◌, map, Option, none,
  some, arith, Str, KeyEq, ◌==◌, str_key, nat_key, nat_eq, nat_eq_iff, str_eq, str_eq_iff,
  str_eq_refl, ltb, leb, if◌then◌else◌, length, take, drop, get_elem?, Bool-cases, Option-cases,
  All, any, bytes, contains, In, keep_if, In-append, In-append_left, In-append_right, keep_if-In,
  In-keep_if, length-append, length-keep_if, All-append, All-reverse,
}
use veritas_sync.Base.Map.{
  Map, keys, values, find, insert_or_assign, erase, find-insert_or_assign, find-erase,
  find-insert_self, find-erase_self, find_congr, NodupKeys, insert_or_assign-NodupKeys,
  erase-NodupKeys, length-erase,
}
use veritas_sync.Storage.Database.{
  FileMetadata, Sqlite, Db, get_all_files, update_file, remove_file, open_guard, commit_guard,
  close_guard,
}

pub data PendingOp : Type 0 where
  update_op : FileMetadata → PendingOp
  remove_op : Str → PendingOp

-- `pending` is the buffer of the live guard, oldest first, or `none` outside a transaction;
-- `committed` is the guard's flag.
pub record Store (Db : Type 0) : Type 0 where
  pub db : Db
  pub cache : Map Str FileMetadata
  pub pending : Option (List PendingOp)
  pub committed : Bool

abbrev pub op_path : PendingOp → Str
op_path (update_op meta) = meta.path
op_path (remove_op path) = path

-- The backward scan of the buffer: the newest operation on the path.
unfoldable pub newest_op : Str → List PendingOp → Option PendingOp
newest_op path [] = none
newest_op path (op ∷ ops) = elim (newest_op path ops) [
  | some later ↦ some later
  | none ↦ if str_eq (op_path op) path then some op else none
]

-- `get` in a thread that has no transaction.
unfoldable pub peek : {Db : Type 0} → Store Db → Str → Option FileMetadata
peek s path = find path s.cache

unfoldable pub get_pending : List PendingOp → Option FileMetadata → Str → Option FileMetadata
unfolding newest_op
get_pending ops cached path = elim (newest_op path ops) [
  | none ↦ cached
  | some op ↦ elim op [ update_op meta ↦ some meta | remove_op p ↦ none ]
]

unfoldable pub get : {Db : Type 0} → Store Db → Str → Option FileMetadata
unfolding get_pending peek
get s path = elim s.pending [ none ↦ peek s path | some ops ↦ get_pending ops (peek s path) path ]

-- One round of the loop in `commit`.
unfoldable pub apply_op : PendingOp → Map Str FileMetadata → Map Str FileMetadata
apply_op (update_op meta) cache = insert_or_assign meta.path meta cache
apply_op (remove_op path) cache = erase path cache

unfoldable pub apply_ops : List PendingOp → Map Str FileMetadata → Map Str FileMetadata
unfolding apply_op
apply_ops [] cache = cache
apply_ops (op ∷ ops) cache = apply_ops ops (apply_op op cache)

-- What `commit` leaves in its buffer: the records of the updates are moved from, so empty.
abbrev pub moved_from : PendingOp → PendingOp
moved_from (update_op meta) = update_op (record { path = []; hash = []; mtime = meta.mtime })
moved_from (remove_op path) = remove_op path

-- `emplace` keeps the entry that is there.
unfoldable pub emplace_all : List FileMetadata → Map Str FileMetadata → Map Str FileMetadata
emplace_all [] cache = cache
emplace_all (meta ∷ rows) cache = emplace_all rows (elim (find meta.path cache) [
  | none ↦ insert_or_assign meta.path meta cache
  | some old ↦ cache
])

-- A write in a transaction goes to the buffer, any other to the cache.
unfoldable pub record_op : {Db : Type 0} → PendingOp → Store Db → Store Db
unfolding apply_op
record_op op s = elim s.pending [
  | none ↦ record s { cache = apply_op op s.cache }
  | some ops ↦ record s { pending = some (ops ++ op ∷ []) }
]

module _ (S : Sqlite) where
  unfoldable pub load_cache : Store (Db S) → Store (Db S)
  unfolding emplace_all get_all_files
  load_cache s = record s { cache = emplace_all (get_all_files S s.db) [] }

  unfoldable pub update : Store (Db S) → Str → Str → ℕ → Store (Db S) × Bool
  unfolding record_op update_file
  update s path hash mtime =
      let (done, db) = update_file S s.db path hash mtime in
      if done
      then (
        record_op (update_op (record { path = path; hash = hash; mtime = mtime }))
            (record s { db = db }),
        true,
      )
      else (record s { db = db }, false)

  unfoldable pub remove : Store (Db S) → Str → Store (Db S) × Bool
  unfolding record_op remove_file
  remove s path =
      let (done, db) = remove_file S s.db path in
      if done
      then (record_op (remove_op path) (record s { db = db }), true)
      else (record s { db = db }, false)

  -- The constructor of `CacheAwareGuard`.
  unfoldable pub begin_transaction : Store (Db S) → Store (Db S)
  unfolding open_guard
  begin_transaction s = record s { db = open_guard S s.db; pending = some []; committed = false }

  unfoldable pub commit_ops : Store (Db S) → List PendingOp → Store (Db S) × Bool
  unfolding apply_ops commit_guard
  commit_ops s ops =
      let (done, db) = commit_guard S s.committed s.db in
      if done
      then (
        record s {
          db = db;
          cache = apply_ops ops s.cache;
          pending = some (map moved_from ops);
          committed = true;
        },
        true,
      )
      else (record s { db = db }, false)

  -- Outside a transaction there is no guard to call this on: the store stays as it is.
  unfoldable pub commit : Store (Db S) → Store (Db S) × Bool
  unfolding commit_ops
  commit s =
      if s.committed
      then (s, true)
      else elim s.pending [ none ↦ (s, false) | some ops ↦ commit_ops s ops ]

  -- The destructor of the guard; that of the inner guard rolls back what is not committed.
  unfoldable pub end_transaction : Store (Db S) → Store (Db S)
  unfolding close_guard
  end_transaction s = record s {
    db = close_guard S s.committed s.db;
    pending = none;
    committed = false;
  }
