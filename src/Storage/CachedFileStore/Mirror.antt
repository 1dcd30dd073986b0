-- ===== src/Storage/CachedFileStore/Mirror.antt =====
-- The cache and the buffer of a transaction beside the database, over the steps of a program.
use veritas_sync.Base.{
  ℕ, ◌≡◌, refl, sym, ◌∙◌, ◌⊎◌, inl, inr, Bool, true, false, List, [], Option, none, some, arith,
  Str, str_key, nat_key, str_eq, if◌then◌else◌, Bool-cases,
}
use veritas_sync.Base.Map.{Map, find}
use veritas_sync.Storage.Database.{FileMetadata, Sqlite, Db, is_open, get_file, get_all_files}
use veritas_sync.Storage.Database.Laws.{IsSqlite, before, Writes, get_all_files-first_row}
use veritas_sync.Storage.CachedFileStore.{
  PendingOp, Store, op_path, get_pending, record_op, load_cache, update, remove, begin_transaction,
  commit, end_transaction,
}
use veritas_sync.Storage.CachedFileStore.Buffer.{
  op_value, get_pending-append, find-apply_op, find-emplace_all,
}

-- The transaction of the guard, if there is one that is not committed, is still open in SQLite.
abbrev pub IsKept : (S : Sqlite) → Store (Db S) → Type 0
IsKept S s = (s.pending ≡ none) ⊎ (s.committed ≡ true) ⊎ (is_open S s.db ≡ true)

abbrev pub store :
    (S : Sqlite) → Db S → Map Str FileMetadata → Option (List PendingOp) → Bool → Store (Db S)
store S db cache pending committed = record {
  db = db;
  cache = cache;
  pending = pending;
  committed = committed;
}

module _ (S : Sqlite) where
  -- The calls that a program makes which writes nothing between the commit and the end of a
  -- transaction. A transaction begins where none is open, and ends where one is.
  pub data Step (s : Store (Db S)) : Store (Db S) → Type 0 where
    loads : s.pending ≡ none → Step s (load_cache S s)
    updates :
        (path hash : Str) (mtime : ℕ) → s.committed ≡ false → Step s (update S s path hash mtime).0
    removes : (path : Str) → s.committed ≡ false → Step s (remove S s path).0
    begins : s.pending ≡ none → Step s (begin_transaction S s)
    commits : Step s (commit S s).0
    ends : (ops : List PendingOp) → s.pending ≡ some ops → Step s (end_transaction S s)

  -- Steps after each of which the transaction of the guard is still open: BEGIN did not fail, and no
  -- statement that failed took the transaction with it.
  pub data Reach (s : Store (Db S)) : Store (Db S) → Type 0 where
    here : Reach s s
    next : {t u : Store (Db S)} → Reach s t → Step t u → IsKept S u → Reach s u

module _ (S : Sqlite) (L : IsSqlite S) where
  -- Outside a transaction, and once it is committed, the cache holds what the database holds. In
  -- an open transaction the cache holds what was there before it, and the buffer over the cache
  -- gives what the database gives to this transaction.
  abbrev pub Follows : Db S → Map Str FileMetadata → Option (List PendingOp) → Bool → Type 0
  Follows db cache none committed =
      (committed ≡ false) × (is_open S db ≡ false) × ((p : Str) → find p cache ≡ get_file S db p)
  Follows db cache (some ops) true =
      (is_open S db ≡ false) × ((p : Str) → find p cache ≡ get_file S db p)
  Follows db cache (some ops) false =
      (is_open S db ≡ true)
      × ((p : Str) → find p cache ≡ before S L db p)
      × ((p : Str) → get_pending ops (find p cache) p ≡ get_file S db p)

  abbrev pub Coherent : Store (Db S) → Type 0
  Coherent s = Follows s.db s.cache s.pending s.committed

  pub Coherent-load :
      (db : Db S) (cache : Map Str FileMetadata) (pending : Option (List PendingOp))
      (committed : Bool)
      → pending ≡ none
      → Coherent (store S db cache pending committed)
      → Coherent (load_cache S (store S db cache pending committed))
  unfolding load_cache find
  Coherent-load db cache none committed e c =
      (c.0, c.1, λ p. find-emplace_all p (get_all_files S db) [] ∙ get_all_files-first_row S L db p)
  Coherent-load db cache (some ops) committed e c = cc

  -- The database and the buffer after a write that succeeded.
  Coherent-record_op :
      (op : PendingOp) (db db' : Db S) (cache : Map Str FileMetadata)
      (pending : Option (List PendingOp))
      → ((j : Str)
          → get_file S db' j ≡ (if str_eq (op_path op) j then op_value op else get_file S db j))
      → ((j : Str) → before S L db' j ≡ before S L db j)
      → is_open S db' ≡ is_open S db
      → Coherent (store S db cache pending false)
      → Coherent (record_op op (store S db' cache pending false))
  unfolding record_op
  Coherent-record_op op db db' cache none wrote kept same c =
      (refl, same ∙ c.1, λ p. ground (arith, find-apply_op p op cache, wrote p, c.2 p))
  Coherent-record_op op db db' cache (some ops) wrote kept same c = (
    same ∙ c.0,
    λ p. c.1 p ∙ sym (kept p),
    λ p. ground (arith, get_pending-append p ops op (find p cache), wrote p, c.2 p),
  )

  -- One that failed changed nothing.
  Coherent-same :
      (db db' : Db S) (cache : Map Str FileMetadata) (pending : Option (List PendingOp))
      → ((j : Str) → get_file S db' j ≡ get_file S db j)
      → ((j : Str) → before S L db' j ≡ before S L db j)
      → is_open S db' ≡ is_open S db
      → Coherent (store S db cache pending false)
      → Coherent (store S db' cache pending false)
  Coherent-same db db' cache none same kept opened c =
      (refl, opened ∙ c.1, λ p. c.2 p ∙ sym (same p))
  Coherent-same db db' cache (some ops) same kept opened c =
      (opened ∙ c.0, λ p. c.1 p ∙ sym (kept p), λ p. c.2 p ∙ sym (same p))

  -- Whether a transaction is open is then as before: a failed write opens none, and closed none.
  still_open :
      (run : Db S → Bool × Db S) (path : Str) (value : Option FileMetadata) (db : Db S)
      (cache : Map Str FileMetadata) (pending : Option (List PendingOp))
      → Writes S L run path value
      → Coherent (store S db cache pending false)
      → IsKept S (store S (run db).1 cache pending false)
      → is_open S (run db).1 ≡ is_open S db
  still_open run path value db cache none w c k = w.not_opened db c.1 ∙ sym c.1
  still_open run path value db cache (some ops) w c (inl e) = cc
  still_open run path value db cache (some ops) w c (inr (inl e)) = cc
  still_open run path value db cache (some ops) w c (inr (inr e)) = e ∙ sym c.0

  -- `update` and `remove`: a write of the database, and what is recorded of it.
  pub Coherent-write :
      (run : Db S → Bool × Db S) (op : PendingOp) (db : Db S) (cache : Map Str FileMetadata)
      (pending : Option (List PendingOp))
      → Writes S L run (op_path op) (op_value op)
      → Coherent (store S db cache pending false)
      → let written =
          if (run db).0
          then record_op op (store S (run db).1 cache pending false)
          else store S (run db).1 cache pending false in
        IsKept S written → Coherent written
  Coherent-write run op db cache pending w c = elim (Bool-cases (run db).0) [
    | inl d ↦ rw d (λ k.
        Coherent-record_op op db (run db).1 cache pending (λ j. w.done db j d)
          (λ j. w.done_before db j d) (w.done_open db d) c)
    | inr d ↦ rw d (λ k.
        let same = still_open run (op_path op) (op_value op) db cache pending w c k in
        Coherent-same db (run db).1 cache pending (λ j. w.failed db j d same)
          (λ j. w.failed_before db j d same) same c)
  ]
