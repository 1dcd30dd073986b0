-- ===== src/Storage/CachedFileStore/Reads.antt =====
-- What the cache answers, in a program that keeps to the order of a transaction.
use veritas_sync.Base.{
  ◌≡◌, ◌∙◌, ◌⊎◌, inl, inr, Bool, true, false, List, [], Option, none, some, Str, str_key, nat_key,
}
use veritas_sync.Base.Map.{Map, find}
use veritas_sync.Storage.Database.{FileMetadata, Sqlite, Db, is_open, get_file, get_all_files}
use veritas_sync.Storage.Database.Laws.{IsSqlite, before, get_all_files-first_row}
use veritas_sync.Storage.CachedFileStore.{PendingOp, Store, peek, get, load_cache}
use veritas_sync.Storage.CachedFileStore.Buffer.{find-emplace_all}
use veritas_sync.Storage.CachedFileStore.Mirror.{store, Reach, Coherent}
use veritas_sync.Storage.CachedFileStore.Transactions.{Reach-Coherent}

module _ (S : Sqlite) (L : IsSqlite S) where
  get-Coherent :
      (db : Db S) (cache : Map Str FileMetadata) (pending : Option (List PendingOp)) (path : Str)
      → Coherent S L (store S db cache pending false)
      → get (store S db cache pending false) path ≡ get_file S db path
  unfolding get peek
  get-Coherent db cache none path c = c.2 path
  get-Coherent db cache (some ops) path c = c.2 path

  loaded :
      (db : Db S) (cache : Map Str FileMetadata) (pending : Option (List PendingOp))
      (committed : Bool)
      → pending ≡ none
      → committed ≡ false
      → is_open S db ≡ false
      → Coherent S L (load_cache S (store S db cache pending committed))
  unfolding load_cache find
  loaded db cache none committed e f g =
      (f, g, λ p. find-emplace_all p (get_all_files S db) [] ∙ get_all_files-first_row S L db p)
  loaded db cache (some ops) committed e f g = cc

  shown :
      (db : Db S) (cache : Map Str FileMetadata) (pending : Option (List PendingOp))
      (committed : Bool) (path : Str)
      → let t = store S db cache pending committed in
        Coherent S L t
        → (committed ≡ false → get t path ≡ get_file S db path)
          × (pending ≡ none → peek t path ≡ get_file S db path)
          × (committed ≡ true → peek t path ≡ get_file S db path)
          × ((ops : List PendingOp)
              → pending ≡ some ops
              → committed ≡ false
              → peek t path ≡ before S L db path)
  unfolding peek
  shown db cache none false path c =
      (λ _. get-Coherent db cache none path c, λ _. c.2 path, λ e. cc, λ ops e. cc)
  shown db cache none true path c = (λ e. cc, λ _. c.2 path, λ _. c.2 path, λ ops e. cc)
  shown db cache (some ops) false path c =
      (λ _. get-Coherent db cache (some ops) path c, λ e. cc, λ e. cc, λ _ _ _. c.1 path)
  shown db cache (some ops) true path c = (λ e. cc, λ e. cc, λ _. c.1 path, λ _ _ e. cc)

  reads :
      (s t : Store (Db S)) (path : Str)
      → s.pending ≡ none
      → s.committed ≡ false
      → is_open S s.db ≡ false
      → Reach S (load_cache S s) t
      → (t.committed ≡ false → get t path ≡ get_file S t.db path)
        × (t.pending ≡ none → peek t path ≡ get_file S t.db path)
        × (t.committed ≡ true → peek t path ≡ get_file S t.db path)
        × ((ops : List PendingOp)
            → t.pending ≡ some ops
            → t.committed ≡ false
            → peek t path ≡ before S L t.db path)
  reads s t path e f g r =
      shown t.db t.cache t.pending t.committed path
        (Reach-Coherent S L r (loaded s.db s.cache s.pending s.committed e f g))

  -- A program is started by `load_cache` outside a transaction, it writes nothing between the commit
  -- and the end of a transaction, each BEGIN opens a transaction, and no statement that fails ends
  -- one. It reads the database through the cache: unless a committed transaction is still to be
  -- ended, `get` answers what the database holds, the thread's own uncommitted writes included.
  pub get_follows_database :
      (s t : Store (Db S)) (path : Str)
      → s.pending ≡ none
      → s.committed ≡ false
      → is_open S s.db ≡ false
      → Reach S (load_cache S s) t
      → t.committed ≡ false
      → get t path ≡ get_file S t.db path
  get_follows_database s t path e f g r c = (reads s t path e f g r).0 c

  -- In a program that is started by `load_cache` outside a transaction, that writes nothing between
  -- the commit and the end of a transaction, where each BEGIN opens a transaction and no statement
  -- that fails ends one: while a transaction is open and not committed, other threads are shown
  -- what the database held before it, so uncommitted writes stay hidden.
  pub peek_hides_uncommitted :
      (s t : Store (Db S)) (path : Str) (ops : List PendingOp)
      → s.pending ≡ none
      → s.committed ≡ false
      → is_open S s.db ≡ false
      → Reach S (load_cache S s) t
      → t.pending ≡ some ops
      → t.committed ≡ false
      → peek t path ≡ before S L t.db path
  peek_hides_uncommitted s t path ops e f g r p c = (reads s t path e f g r).3 ops p c

  -- In a program that is started by `load_cache` outside a transaction, that writes nothing between
  -- the commit and the end of a transaction, where each BEGIN opens a transaction and no statement
  -- that fails ends one: outside a transaction and once it is committed, other threads are shown
  -- what the database holds, also after a transaction that was abandoned.
  pub peek_follows_database :
      (s t : Store (Db S)) (path : Str)
      → s.pending ≡ none
      → s.committed ≡ false
      → is_open S s.db ≡ false
      → Reach S (load_cache S s) t
      → (t.pending ≡ none) ⊎ (t.committed ≡ true)
      → peek t path ≡ get_file S t.db path
  peek_follows_database s t path e f g r (inl p) = (reads s t path e f g r).1 p
  peek_follows_database s t path e f g r (inr c) = (reads s t path e f g r).2 c
