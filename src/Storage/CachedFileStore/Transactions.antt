-- ===== src/Storage/CachedFileStore/Transactions.antt =====
-- The calls on the store, one by one: the cache keeps up with the database.
use veritas_sync.Base.{
  ℕ, ◌≡◌, refl, sym, ◌∙◌, ◌⊎◌, subst, inl, inr, Bool, true, false, List, [], Option, none, some,
  Str, str_key, nat_key, Bool-cases, if◌then◌else◌,
}
use veritas_sync.Base.Map.{Map}
use veritas_sync.Storage.Database.{
  FileMetadata, Sqlite, Db, update_file, remove_file, commit_guard, close_guard,
}
use veritas_sync.Storage.Database.Laws.{
  IsSqlite, update_file-Writes, remove_file-Writes, open_guard-saves, commit_guard-done,
  commit_guard-failed, close_guard-restores,
}
use veritas_sync.Storage.CachedFileStore.{
  PendingOp, update_op, remove_op, Store, newest_op, get_pending, record_op, update, remove,
  begin_transaction, commit_ops, commit, end_transaction,
}
use veritas_sync.Storage.CachedFileStore.Buffer.{find-apply_ops}
use veritas_sync.Storage.CachedFileStore.Mirror.{
  IsKept, store, Step, loads, updates, removes, begins, commits, ends, Reach, here, next, Coherent,
  Coherent-load, Coherent-write,
}

first_of :
    {A : Type 0} (b : Bool) (x y : A)
    → let both : A × Bool = if b then (x, true) else (y, false) in both.0 ≡ (if b then x else y)
first_of true x y = refl
first_of false x y = refl

module _ (S : Sqlite) (L : IsSqlite S) where
  update_eq :
      (db : Db S) (cache : Map Str FileMetadata) (pending : Option (List PendingOp))
      (path hash : Str) (mtime : ℕ)
      → let row : FileMetadata = record { path = path; hash = hash; mtime = mtime } in
        let after = store S (update_file S db path hash mtime).1 cache pending false in
        (update S (store S db cache pending false) path hash mtime).0
        ≡ (if (update_file S db path hash mtime).0 then record_op (update_op row) after else after)
  unfolding update
  update_eq db cache pending path hash mtime = first_of (update_file S db path hash mtime).0 _ _

  remove_eq :
      (db : Db S) (cache : Map Str FileMetadata) (pending : Option (List PendingOp)) (path : Str)
      → let after = store S (remove_file S db path).1 cache pending false in
        (remove S (store S db cache pending false) path).0
        ≡ (if (remove_file S db path).0 then record_op (remove_op path) after else after)
  unfolding remove
  remove_eq db cache pending path = first_of (remove_file S db path).0 _ _

  Coherent-update :
      (db : Db S) (cache : Map Str FileMetadata) (pending : Option (List PendingOp))
      (committed : Bool) (path hash : Str) (mtime : ℕ)
      → committed ≡ false
      → Coherent S L (store S db cache pending committed)
      → IsKept S (update S (store S db cache pending committed) path hash mtime).0
      → Coherent S L (update S (store S db cache pending committed) path hash mtime).0
  Coherent-update db cache pending true path hash mtime e c k = cc
  Coherent-update db cache pending false path hash mtime e c k =
      let row : FileMetadata = record { path = path; hash = hash; mtime = mtime } in
      subst (λ t. IsKept S t → Coherent S L t) (sym (update_eq db cache pending path hash mtime))
        (Coherent-write S L (λ d. update_file S d path hash mtime) (update_op row) db cache pending
          (update_file-Writes S L path hash mtime) c)
        k

  Coherent-remove :
      (db : Db S) (cache : Map Str FileMetadata) (pending : Option (List PendingOp))
      (committed : Bool) (path : Str)
      → committed ≡ false
      → Coherent S L (store S db cache pending committed)
      → IsKept S (remove S (store S db cache pending committed) path).0
      → Coherent S L (remove S (store S db cache pending committed) path).0
  Coherent-remove db cache pending true path e c k = cc
  Coherent-remove db cache pending false path e c k =
      subst (λ t. IsKept S t → Coherent S L t) (sym (remove_eq db cache pending path))
        (Coherent-write S L (λ d. remove_file S d path) (remove_op path) db cache pending
          (remove_file-Writes S L path) c)
        k

  -- A BEGIN that opened no transaction is not kept.
  Coherent-begin :
      (db : Db S) (cache : Map Str FileMetadata) (pending : Option (List PendingOp))
      (committed : Bool)
      → pending ≡ none
      → Coherent S L (store S db cache pending committed)
      → IsKept S (begin_transaction S (store S db cache pending committed))
      → Coherent S L (begin_transaction S (store S db cache pending committed))
  unfolding begin_transaction get_pending newest_op
  Coherent-begin db cache (some ops) committed e c k = cc
  Coherent-begin db cache none committed e c (inl k) = cc
  Coherent-begin db cache none committed e c (inr (inl k)) = cc
  Coherent-begin db cache none committed e c (inr (inr k)) = (
    k,
    λ p. c.2 p ∙ sym (open_guard-saves S L db p c.1 k).1,
    λ p. c.2 p ∙ sym (open_guard-saves S L db p c.1 k).0,
  )

  still_going :
      {ops : List PendingOp} (b : Bool) → (some ops ≡ none) ⊎ (false ≡ true) ⊎ (b ≡ true) → b ≡ true
  still_going b (inl e) = cc
  still_going b (inr (inl e)) = cc
  still_going b (inr (inr e)) = e

  Coherent-commit :
      (db : Db S) (cache : Map Str FileMetadata) (pending : Option (List PendingOp))
      (committed : Bool)
      → Coherent S L (store S db cache pending committed)
      → IsKept S (commit S (store S db cache pending committed)).0
      → Coherent S L (commit S (store S db cache pending committed)).0
  unfolding commit commit_ops
  Coherent-commit db cache pending true c k = c
  Coherent-commit db cache none false c k = c
  Coherent-commit db cache (some ops) false c k = elim (Bool-cases (commit_guard S false db).0) [
    | inl d ↦ rw d (
      (commit_guard-done S L db [] d).1,
      λ p. find-apply_ops p ops cache ∙ c.2 p ∙ sym (commit_guard-done S L db p d).0,
    )
    | inr d ↦
        let o = still_going _ (rw d at k) in
        rw d (
          o,
          λ p. c.1 p ∙ sym (commit_guard-failed S L db p d o).1,
          λ p. c.2 p ∙ sym (commit_guard-failed S L db p d o).0,
        )
  ]

  Coherent-end :
      (db : Db S) (cache : Map Str FileMetadata) (pending : Option (List PendingOp))
      (committed : Bool) (ops : List PendingOp)
      → pending ≡ some ops
      → Coherent S L (store S db cache pending committed)
      → Coherent S L (end_transaction S (store S db cache pending committed))
  unfolding end_transaction close_guard
  Coherent-end db cache none committed ops e c = cc
  Coherent-end db cache (some _) true ops e c = (refl, c.0, c.1)
  Coherent-end db cache (some _) false ops e c = (
    refl,
    (close_guard-restores S L db [] c.0).1,
    λ p. c.1 p ∙ sym (close_guard-restores S L db p c.0).0,
  )

  Step-Coherent : {s t : Store (Db S)} → Step S s t → Coherent S L s → IsKept S t → Coherent S L t
  Step-Coherent {s} (loads e) c k = Coherent-load S L s.db s.cache s.pending s.committed e c
  Step-Coherent {s} (updates p h m e) c k =
      Coherent-update s.db s.cache s.pending s.committed p h m e c k
  Step-Coherent {s} (removes p e) c k = Coherent-remove s.db s.cache s.pending s.committed p e c k
  Step-Coherent {s} (begins e) c k = Coherent-begin s.db s.cache s.pending s.committed e c k
  Step-Coherent {s} commits c k = Coherent-commit s.db s.cache s.pending s.committed c k
  Step-Coherent {s} (ends ops e) c k = Coherent-end s.db s.cache s.pending s.committed ops e c

  pub Reach-Coherent : {s t : Store (Db S)} → Reach S s t → Coherent S L s → Coherent S L t
  Reach-Coherent here c = c
  Reach-Coherent (next r st k) c = Step-Coherent st (Reach-Coherent r c) k
