-- ===== src/Sync/TransferManager.antt =====
-- include/VeritasSync/sync/TransferManager.h and src/sync/TransferManager.cpp: the files that are being
-- received and sent. A call of `handle_chunk` is one step, and the outcome of each call of the file
-- system in it an argument; the file itself is a text, its stream open or not. The rows of unfinished
-- downloads in the database are a map by path.
pub mod Bitmap
pub mod TempFile
pub mod Packet
pub mod State
pub mod Bits
pub mod Slices
pub mod Entry
pub mod Progress
pub mod Step
pub mod Placement
pub mod Joining
pub mod Arrival
pub mod Completion
pub mod Reassembly
pub mod Delivery
pub mod Upload
pub mod Sending
pub mod Ending
pub mod Complete
pub mod Stamps
pub mod Transmission
pub mod Resumed
pub mod Resume
pub mod Invariant
pub mod Kept
pub mod Consistency
pub mod Operations
pub mod Restart
pub mod Resumption
pub mod Verification
pub mod Finalize
use veritas_sync.Base.{
  ℕ, zero, suc, ◌+◌, ◌-◌, ◌*◌, ◌/◌, ◌%◌, ◌^◌, ◌≤◌, ◌<◌, min, ◌≡◌, refl, sym, ap, ◌∙◌, subst, ◌≢◌,
  ◌↔◌, ◌⊎◌, inl, inr, Bool, true, false, not, ◌&&◌, ◌||◌, List, [], ◌∷◌, ◌++◌, map, Option, none,
  some, arith, Str, KeyEq, ◌==◌, str_key, nat_key, nat_eq, nat_eq_iff, str_eq, str_eq_iff,
  str_eq_refl, ltb, leb, if◌then◌else◌, length, take, drop, get_elem?, Bool-cases, Option-cases,
  All, any, bytes, contains, In, keep_if, In-append, In-append_left, In-append_right, keep_if-In,
  In-keep_if, length-append, drop-append, length-keep_if, All-append, All-reverse,
}
use veritas_sync.Base.Map.{
  Map, keys, values, find, insert_or_assign, erase, find-insert_or_assign, find-erase,
  find-insert_self, find-erase_self, find_congr, NodupKeys, insert_or_assign-NodupKeys,
  erase-NodupKeys, length-erase,
}
use veritas_sync.Sync.TransferManager.State.{
  ReceivingFile, SendingFile, DownloadTaskRecord, Completed, Transfer, Io, ChunkLookup, full_path,
  temp_path_of, has_parent_path, replicate_false, resize, set_bit, count_true, counted, put_file,
  remove_file, fail_task, bit_at,
}
use veritas_sync.Sync.TransferManager.Entry.{
  new_task, match_total, join_task, lookup_or_create_receiving,
}
use veritas_sync.Sync.TransferManager.Finalize.{
  create_final, hash_of_file, verify_final, finalize_received_file,
}
use veritas_sync.Sync.TransferManager.TempFile.{write_at}
use veritas_sync.Sync.TransferManager.Packet.{
  ChunkHeader, ChunkError, validate_chunk_header, Snappy, parse_chunk_payload,
}

-- The stream, unless it is open: a file that is not there is made only where `need_open_stream` is
-- set, and one that is there is kept as it is.
unfoldable pub open_stream : Io → ChunkLookup → ReceivingFile → Map Str Str → Option (Map Str Str)
open_stream io lookup rf disk =
    if rf.is_open
    then some disk
    else if not io.opened
    then none
    else elim (find rf.temp_path disk) [
      | some content ↦ some disk
      | none ↦
          if lookup.need_open_stream then some (insert_or_assign rf.temp_path [] disk) else none
    ]

abbrev pub content_of : Str → Map Str Str → Str
content_of path disk = elim (find path disk) [ none ↦ [] | some content ↦ content ]

module _ (chunk_data_size : ℕ) (sha256 : Str → Str) where
  -- The write of a chunk that was not received yet, and the end of the download.
  unfoldable pub write_chunk : Io → Str → Str → ChunkHeader → ReceivingFile → Transfer → Transfer
  unfolding write_at finalize_received_file
  write_chunk io root peer_id hdr rf t =
      if not io.written
      then fail_task hdr.file_path (record t {
        disk = remove_file io rf.temp_path (insert_or_assign rf.temp_path io.torn t.disk);
      })
      else let offset = hdr.chunk_index * chunk_data_size in
        let content = write_at offset hdr.uncompressed_data (content_of rf.temp_path t.disk) in
        let stored = record t { disk = insert_or_assign rf.temp_path content t.disk } in
        let rf' = record rf {
          received_bitmap = set_bit hdr.chunk_index rf.received_bitmap;
          received_chunks = (rf.received_chunks + 1) % 2 ^ 32;
          busy = false;
        } in
        if leb rf.total_chunks ((rf.received_chunks + 1) % 2 ^ 32)
        then finalize_received_file io sha256 root hdr.file_path peer_id rf' stored
        else put_file hdr.file_path rf' stored

  -- From the test of the bitmap on.
  unfoldable pub place_chunk : Io → Str → Str → ChunkHeader → ReceivingFile → Transfer → Transfer
  unfolding write_chunk
  place_chunk io root peer_id hdr rf t =
      let bitmap =
        if leb (length rf.received_bitmap) hdr.chunk_index
        then resize hdr.total_chunks rf.received_bitmap
        else rf.received_bitmap in
      if bit_at bitmap hdr.chunk_index
      then put_file hdr.file_path (record rf { received_bitmap = bitmap; busy = false }) t
      else write_chunk io root peer_id hdr (record rf { received_bitmap = bitmap }) t

  -- The part of `handle_chunk` that runs under the lock of the file.
  unfoldable pub store_chunk :
      Io → ℕ → Str → Str → ChunkHeader → ChunkLookup → ReceivingFile → Transfer → Transfer
  unfolding open_stream place_chunk
  store_chunk io now root peer_id hdr lookup rf t =
      if lookup.need_create_dirs && not io.dirs_made
      then fail_task hdr.file_path t
      else elim (open_stream io lookup rf t.disk) [
        | none ↦ fail_task hdr.file_path (record t { disk = remove_file io rf.temp_path t.disk })
        | some disk ↦
            place_chunk io root peer_id hdr (record rf { last_active = now; is_open = true })
              (record t { disk = disk })
      ]

  -- `handle_chunk` once the packet is parsed.
  unfoldable pub receive_chunk :
      (Str → Option Str) → Io → ℕ → Str → Str → ChunkHeader → Transfer → Transfer
  unfolding store_chunk lookup_or_create_receiving
  receive_chunk weakly_canonical io now root peer_id hdr t = elim (validate_chunk_header hdr) [
    | some error ↦ t
    | none ↦
        elim (lookup_or_create_receiving weakly_canonical io root hdr.file_path hdr.total_chunks
          peer_id t) [
            | none ↦ t
            | some (found, lookup) ↦ elim (find hdr.file_path found.receiving_files) [
              | none ↦ found
              | some rf ↦ store_chunk io now root peer_id hdr lookup rf found
            ]
          ]
  ]

  unfoldable pub handle_chunk :
      Snappy → (Str → Option Str) → Io → ℕ → Str → Str → Str → Transfer → Transfer
  unfolding receive_chunk
  handle_chunk S weakly_canonical io now root peer_id payload t =
      receive_chunk weakly_canonical io now root peer_id (parse_chunk_payload S payload) t
