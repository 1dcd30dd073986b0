-- ===== src/Storage/CachedFileStore/Staleness.antt =====
-- A write after the commit of a transaction that is not ended yet.
use veritas_sync.Base.{
  ℕ, ◌≡◌, ◌∙◌, Bool, true, false, List, Option, none, some, Str, str_key, nat_key, str_eq_refl,
}
use veritas_sync.Base.Map.{Map}
use veritas_sync.Storage.Database.{FileMetadata, Sqlite, Db, get_file, update_file, close_guard}
use veritas_sync.Storage.Database.Laws.{IsSqlite, update_file-Writes}
use veritas_sync.Storage.CachedFileStore.{
  PendingOp, Store, peek, get, record_op, update, end_transaction,
}
use veritas_sync.Storage.CachedFileStore.Mirror.{Coherent}

module _ (S : Sqlite) (L : IsSqlite S) where
  stale_fields :
      (db : Db S) (cache : Map Str FileMetadata) (pending : Option (List PendingOp))
      (committed : Bool) (ops : List PendingOp) (path hash : Str) (mtime : ℕ)
      → pending ≡ some ops
      → committed ≡ true
      → Coherent S L (record { db = db; cache = cache; pending = pending; committed = committed })
      → (update_file S db path hash mtime).0 ≡ true
      → let s : Store (Db S) = record {
        db = db;
        cache = cache;
        pending = pending;
        committed = committed;
      } in
        (get_file S (end_transaction S (update S s path hash mtime).0).db path
          ≡ some (record { path = path; hash = hash; mtime = mtime }))
        × (get (end_transaction S (update S s path hash mtime).0) path ≡ get_file S db path)
  unfolding update end_transaction close_guard get peek record_op
  stale_fields db cache (some _) true ops path hash mtime e f c d =
      rw d
        ((update_file-Writes S L path hash mtime).done db path d ∙ rw (str_eq_refl path), c.1 path)
  stale_fields db cache (some _) false ops path hash mtime e f c d = cc
  stale_fields db cache none true ops path hash mtime e f c d = cc
  stale_fields db cache none false ops path hash mtime e f c d = cc

  -- A record that is written after the commit and before the end of its transaction reaches the
  -- database and not the cache: once the transaction has ended, `get` answers what the database
  -- held before the write.
  pub write_after_commit_stale :
      (s : Store (Db S)) (ops : List PendingOp) (path hash : Str) (mtime : ℕ)
      → s.pending ≡ some ops
      → s.committed ≡ true
      → Coherent S L s
      → (update_file S s.db path hash mtime).0 ≡ true
      → (get_file S (end_transaction S (update S s path hash mtime).0).db path
          ≡ some (record { path = path; hash = hash; mtime = mtime }))
        × (get (end_transaction S (update S s path hash mtime).0) path ≡ get_file S s.db path)
  write_after_commit_stale s ops path hash mtime e f c d =
      stale_fields s.db s.cache s.pending s.committed ops path hash mtime e f c d
