-- ===== src/Sync/TransferManager/Joining.antt =====
-- src/sync/TransferManager.cpp, lookup_or_create_receiving: an entry that the first or a later chunk
-- joins.
use veritas_sync.Base.{
  ℕ, ◌≤◌, ◌≡◌, refl, true, false, [], none, some, arith, Str, str_key, nat_key, nat_eq, length,
  bytes, length-append,
}
use veritas_sync.Base.Map.{find, insert_or_assign}
use veritas_sync.Sync.TransferManager.State.{
  ReceivingFile, Transfer, full_path, temp_path_of, has_parent_path, resize, counted, put_file,
}
use veritas_sync.Sync.TransferManager.Entry.{match_total, join_task}
use veritas_sync.Sync.TransferManager.Progress.{all_well}

pub data Fresh (root path hash : Str) (t : Transfer) : Type 0 where
  -- Nothing is known of the file.
  unknown :
      hash ≡ []
      → find path t.receiving_files ≡ none
      → find (temp_path_of root path) t.disk ≡ none
      → Fresh root path hash t
  -- The hash was registered before the first chunk.
  registered :
      (rf : ReceivingFile)
      → find path t.receiving_files ≡ some rf
      → rf.temp_path ≡ []
      → rf.total_chunks ≡ 0
      → rf.received_chunks ≡ 0
      → rf.received_bitmap ≡ []
      → rf.is_open ≡ false
      → rf.expected_hash ≡ hash
      → find (temp_path_of root path) t.disk ≡ none
      → Fresh root path hash t

temp_path_of_nonempty : (root path : Str) → nat_eq (length (temp_path_of root path)) 0 ≡ false
temp_path_of_nonempty root path =
    ground (arith, length-append (full_path root path) (bytes ".veritas_tmp"))

pub join_same :
    (root path : Str) (total : ℕ) (peer_id : Str) (rf : ReceivingFile) (t : Transfer)
    → 1 ≤ total
    → rf.total_chunks ≡ total
    → rf.temp_path ≡ temp_path_of root path
    → join_task all_well root path total peer_id rf t ≡ (
      put_file path (record rf { peer_id = peer_id; busy = true }) t,
      record { need_open_stream = false; need_create_dirs = false },
    )
unfolding join_task match_total
join_same root path total peer_id rf t l e p =
    let known : nat_eq rf.total_chunks 0 ≡ false = ground (arith, l, e) in
    let same : nat_eq rf.total_chunks total ≡ true = ground (arith, e) in
    let named : nat_eq (length rf.temp_path) 0 ≡ false = rw p (temp_path_of_nonempty root path) in
    rw (known, same, named) refl

pub join_first :
    (root path : Str) (total : ℕ) (peer_id : Str) (rf : ReceivingFile) (t : Transfer)
    → rf.total_chunks ≡ 0
    → rf.temp_path ≡ []
    → join_task all_well root path total peer_id rf t ≡ (
      record t {
        receiving_files =
            insert_or_assign path
              (record rf {
                peer_id = peer_id;
                total_chunks = total;
                received_bitmap = resize total rf.received_bitmap;
                temp_path = temp_path_of root path;
                busy = true;
              })
              t.receiving_files;
        session_total = counted t.session_total;
      },
      record { need_open_stream = true; need_create_dirs = has_parent_path (full_path root path) },
    )
unfolding join_task match_total
join_first root path total peer_id rf t e p = rw (e, p) refl
