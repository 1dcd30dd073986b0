-- ===== src/Storage/CachedFileStore/Buffer.antt =====
-- The buffer of a transaction, and what applying it does to the cache.
use veritas_sync.Base.{
  ◌≡◌, refl, List, [], ◌∷◌, ◌++◌, Option, none, some, arith, Str, str_key, nat_key, str_eq,
  str_eq_iff, if◌then◌else◌,
}
use veritas_sync.Base.Map.{Map, find, insert_or_assign, find-insert_or_assign, find-erase}
use veritas_sync.Storage.Database.{FileMetadata}
use veritas_sync.Storage.Database.Laws.{first_row}
use veritas_sync.Storage.CachedFileStore.{
  PendingOp, update_op, remove_op, op_path, newest_op, get_pending, apply_op, apply_ops,
  emplace_all,
}

-- What an operation leaves under its path.
abbrev pub op_value : PendingOp → Option FileMetadata
op_value (update_op meta) = some meta
op_value (remove_op path) = none

newest_op-append :
    (p : Str) (ops : List PendingOp) (op : PendingOp)
    → newest_op p (ops ++ op ∷ []) ≡ (if str_eq (op_path op) p then some op else newest_op p ops)
unfolding newest_op
newest_op-append p [] op = ground arith
newest_op-append p (o ∷ ops) op = ground (arith, newest_op-append p ops op)

pub get_pending-append :
    (p : Str) (ops : List PendingOp) (op : PendingOp) (cached : Option FileMetadata)
    → get_pending (ops ++ op ∷ []) cached p
      ≡ (if str_eq (op_path op) p then op_value op else get_pending ops cached p)
unfolding get_pending
get_pending-append p ops (update_op meta) cached =
    ground (arith, newest_op-append p ops (update_op meta))
get_pending-append p ops (remove_op path) cached =
    ground (arith, newest_op-append p ops (remove_op path))

pub find-apply_op :
    (p : Str) (op : PendingOp) (cache : Map Str FileMetadata)
    → find p (apply_op op cache) ≡ (if str_eq (op_path op) p then op_value op else find p cache)
unfolding apply_op
find-apply_op p (update_op meta) cache = find-insert_or_assign p meta.path meta cache
find-apply_op p (remove_op path) cache = find-erase p path cache

-- The loop of `commit` brings the cache to what the transaction itself read.
pub find-apply_ops :
    (p : Str) (ops : List PendingOp) (cache : Map Str FileMetadata)
    → find p (apply_ops ops cache) ≡ get_pending ops (find p cache) p
unfolding apply_ops get_pending newest_op
find-apply_ops p [] cache = refl
find-apply_ops p (update_op m ∷ ops) cache = ground (
  arith,
  find-apply_ops p ops (apply_op (update_op m) cache),
  find-apply_op p (update_op m) cache,
)
find-apply_ops p (remove_op q ∷ ops) cache = ground (
  arith,
  find-apply_ops p ops (apply_op (remove_op q) cache),
  find-apply_op p (remove_op q) cache,
)

pub find-emplace_all :
    (p : Str) (rows : List FileMetadata) (cache : Map Str FileMetadata)
    → find p (emplace_all rows cache)
      ≡ (elim (find p cache) [ some meta ↦ some meta | none ↦ first_row p rows ])
unfolding emplace_all first_row
find-emplace_all p [] cache = ground arith
find-emplace_all p (row ∷ rows) cache = ground (
  arith,
  find-emplace_all p rows (insert_or_assign row.path row cache),
  find-emplace_all p rows cache,
  find-insert_or_assign p row.path row cache,
  str_eq_iff row.path p,
)
