-- ===== src/Sync/TransferManager/Entry.antt =====
-- src/sync/TransferManager.cpp, lookup_or_create_receiving: the entry that a chunk belongs to.
use veritas_sync.Base.{
  ℕ, Bool, true, false, not, ◌&&◌, ◌||◌, [], Option, none, some, Str, str_key, nat_key, nat_eq,
  if◌then◌else◌, length,
}
use veritas_sync.Base.Map.{Map, find, insert_or_assign}
use veritas_sync.Common.PathUtils.{is_path_safe}
use veritas_sync.Sync.TransferManager.State.{
  ReceivingFile, Transfer, Io, ChunkLookup, full_path, temp_path_of, has_parent_path,
  replicate_false, resize, counted, put_file, remove_file,
}

abbrev pub new_task : Str → Str → ℕ → Str → ReceivingFile
new_task root path total_chunks peer_id = record {
  temp_path = temp_path_of root path;
  total_chunks = total_chunks;
  received_chunks = 0;
  received_bitmap = replicate_false total_chunks;
  last_active = 0;
  peer_id = peer_id;
  expected_hash = [];
  expected_size = 0;
  busy = true;
  is_open = false;
}

-- The branch of `lookup_or_create_receiving` on the number of chunks, for an entry that is there.
-- Where it differs, the download begins again; the Boolean says so.
unfoldable pub match_total :
    Io → Str → ℕ → ReceivingFile → Map Str Str → ReceivingFile × Map Str Str × Bool
match_total io temp total_chunks rf disk =
    if nat_eq rf.total_chunks 0
    then (
      record rf {
        total_chunks = total_chunks;
        received_bitmap = resize total_chunks rf.received_bitmap;
      },
      disk,
      false,
    )
    else if nat_eq rf.total_chunks total_chunks
    then (rf, disk, false)
    else (
      record rf {
        is_open = false;
        total_chunks = total_chunks;
        received_chunks = 0;
        received_bitmap = replicate_false total_chunks;
        temp_path = temp;
      },
      if nat_eq (length rf.temp_path) 0 then disk else remove_file io rf.temp_path disk,
      true,
    )

-- The entry that was there, and the last test, on an entry that was registered before the first
-- chunk and has no temporary file yet.
unfoldable pub join_task :
    Io → Str → Str → ℕ → Str → ReceivingFile → Transfer → Transfer × ChunkLookup
unfolding match_total
join_task io root path total_chunks peer_id rf t =
    let temp = temp_path_of root path in
    let (matched, disk, restarted) =
      match_total io temp total_chunks (record rf { peer_id = peer_id }) t.disk in
    let first = nat_eq (length matched.temp_path) 0 in
    (
      record t {
        receiving_files =
            insert_or_assign path
              (record matched {
                temp_path = if first then temp else matched.temp_path;
                busy = true;
              })
              t.receiving_files;
        disk = disk;
        session_total = if first then counted t.session_total else t.session_total;
      },
      record {
        need_open_stream = restarted || first;
        need_create_dirs = (restarted || first) && has_parent_path (full_path root path);
      },
    )

-- `none` is a path that is not safe.
module _ (weakly_canonical : Str → Option Str) where
  unfoldable pub lookup_or_create_receiving :
      Io → Str → Str → ℕ → Str → Transfer → Option (Transfer × ChunkLookup)
  unfolding join_task
  lookup_or_create_receiving io root path total_chunks peer_id t =
      if not (is_path_safe weakly_canonical root path)
      then none
      else elim (find path t.receiving_files) [
        | none ↦ some (
          record (put_file path (new_task root path total_chunks peer_id) t) {
            session_total = counted t.session_total;
          },
          record {
            need_open_stream = true;
            need_create_dirs = has_parent_path (full_path root path);
          },
        )
        | some rf ↦ some (join_task io root path total_chunks peer_id rf t)
      ]
