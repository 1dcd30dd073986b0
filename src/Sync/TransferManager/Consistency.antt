-- ===== src/Sync/TransferManager/Consistency.antt =====
-- One chunk, whatever the file system answers, and the entries of the files that are received.
use veritas_sync.Base.{
  ℕ, ◌+◌, ◌*◌, ◌%◌, ◌^◌, ◌<◌, ◌≡◌, refl, ◌∙◌, inl, inr, true, false, not, ◌&&◌, Option, none, some,
  arith, Str, str_key, nat_key, leb, length, get_elem?, Bool-cases, Option-cases,
}
use veritas_sync.Base.Map.{Map, find, insert_or_assign, find-insert_self}
use veritas_sync.Sync.TransferManager.State.{
  ReceivingFile, Transfer, Io, ChunkLookup, full_path, has_parent_path, set_bit, bit_at,
}
use veritas_sync.Sync.TransferManager.Entry.{new_task, join_task, lookup_or_create_receiving}
use veritas_sync.Common.PathUtils.{is_path_safe}
use veritas_sync.Sync.TransferManager.TempFile.{write_at}
use veritas_sync.Sync.TransferManager.Packet.{ChunkHeader, validate_chunk_header}
use veritas_sync.Sync.TransferManager.Bits.{
  length-set_bit, count_true-set_bit, count_true-lt-length, get_within,
}
use veritas_sync.Sync.TransferManager.{
  open_stream, content_of, write_chunk, place_chunk, store_chunk, receive_chunk,
}
use veritas_sync.Sync.TransferManager.Invariant.{
  IsConsistent, AllConsistent, insert-All, erase-All, find-All, new_task-IsConsistent,
}
use veritas_sync.Sync.TransferManager.Kept.{
  Fits, finalize_received_file-AllConsistent, join_task-Fits,
}

module _ (size : ℕ) (sha256 : Str → Str) (io : Io) (root peer_id : Str) (hdr : ChunkHeader) where
  write_chunk-AllConsistent :
      (rf : ReceivingFile) (t : Transfer)
      → hdr.chunk_index < hdr.total_chunks
      → get_elem? rf.received_bitmap hdr.chunk_index ≡ some false
      → Fits hdr.total_chunks rf
      → AllConsistent t
      → AllConsistent (write_chunk size sha256 io root peer_id hdr rf t)
  unfolding write_chunk
  write_chunk-AllConsistent rf t l e (h, n) all =
      let marked : ReceivingFile = record rf {
        received_bitmap = set_bit hdr.chunk_index rf.received_bitmap;
        received_chunks = (rf.received_chunks + 1) % 2 ^ 32;
        busy = false;
      } in
      let stored : Map Str Str =
        insert_or_assign rf.temp_path
          (write_at (hdr.chunk_index * size) hdr.uncompressed_data (content_of rf.temp_path t.disk))
          t.disk in
      let kept : IsConsistent marked = record {
        one_bit_each = length-set_bit hdr.chunk_index rf.received_bitmap ∙ h.one_bit_each;
        count_exact = omega (
          arith,
          h.count_exact,
          count_true-set_bit hdr.chunk_index rf.received_bitmap e,
          count_true-lt-length hdr.chunk_index rf.received_bitmap e,
          h.one_bit_each,
          h.fits,
        );
        fits = h.fits;
      } in
      elim (Bool-cases io.written) [
        | inl w ↦ elim (Bool-cases (leb rf.total_chunks ((rf.received_chunks + 1) % 2 ^ 32))) [
          | inl p ↦
              rw (w, p)
                (finalize_received_file-AllConsistent io sha256 root hdr.file_path peer_id marked
                  (record t { disk = stored }) all)
          | inr p ↦
              rw (w, p) (insert-All IsConsistent hdr.file_path marked t.receiving_files kept all)
        ]
        | inr w ↦ rw w (erase-All IsConsistent hdr.file_path t.receiving_files all)
      ]

  place_chunk-AllConsistent :
      (rf : ReceivingFile) (t : Transfer)
      → hdr.chunk_index < hdr.total_chunks
      → Fits hdr.total_chunks rf
      → AllConsistent t
      → AllConsistent (place_chunk size sha256 io root peer_id hdr rf t)
  unfolding place_chunk
  place_chunk-AllConsistent rf t l (h, n) all =
      let within : leb (length rf.received_bitmap) hdr.chunk_index ≡ false =
        ground (arith, l, n, h.one_bit_each) in
      let (b, e) =
        get_within hdr.chunk_index rf.received_bitmap (omega (arith, l, n, h.one_bit_each)) in
      elim (Bool-cases b) [
        | inl p ↦
            let bit : bit_at rf.received_bitmap hdr.chunk_index ≡ true = rw (e, bit_at) p in
            rw (within, bit)
              (insert-All IsConsistent hdr.file_path _ t.receiving_files
                (record {
                  one_bit_each = h.one_bit_each;
                  count_exact = h.count_exact;
                  fits = h.fits;
                })
                all)
        | inr p ↦
            let bit : bit_at rf.received_bitmap hdr.chunk_index ≡ false = rw (e, bit_at) p in
            rw (within, bit) (write_chunk-AllConsistent rf t l (e ∙ rw p refl) (h, n) all)
      ]

  store_chunk-AllConsistent :
      (now : ℕ) (lookup : ChunkLookup) (rf : ReceivingFile) (t : Transfer)
      → hdr.chunk_index < hdr.total_chunks
      → Fits hdr.total_chunks rf
      → AllConsistent t
      → AllConsistent (store_chunk size sha256 io now root peer_id hdr lookup rf t)
  unfolding store_chunk
  store_chunk-AllConsistent now lookup rf t l (h, n) all =
      elim (Bool-cases (lookup.need_create_dirs && not io.dirs_made)) [
        | inl e ↦ rw e (erase-All IsConsistent hdr.file_path t.receiving_files all)
        | inr e ↦ elim (Option-cases (open_stream io lookup rf t.disk)) [
          | inl p ↦
              rw (e, p, store_chunk) (erase-All IsConsistent hdr.file_path t.receiving_files all)
          | inr (disk, p) ↦
              rw (e, p, store_chunk)
                (place_chunk-AllConsistent (record rf { last_active = now; is_open = true })
                  (record t { disk = disk }) l
                  (
                    record {
                      one_bit_each = h.one_bit_each;
                      count_exact = h.count_exact;
                      fits = h.fits;
                    },
                    n,
                  )
                  all)
        ]
      ]

  validate-index :
      validate_chunk_header hdr ≡ none
      → (hdr.chunk_index < hdr.total_chunks) × (hdr.total_chunks < 2 ^ 32)
  unfolding validate_chunk_header
  validate-index e = ground (arith, e)

  -- Whatever a packet says and whatever the calls of the file system answer, a chunk leaves every
  -- entry with one bit for each chunk and a count that is the number of bits set, if it found them so.
  pub receive_chunk-AllConsistent :
      (weakly_canonical : Str → Option Str) (now : ℕ) (t : Transfer)
      → AllConsistent t
      → AllConsistent (receive_chunk size sha256 weakly_canonical io now root peer_id hdr t)
  unfolding receive_chunk lookup_or_create_receiving
  receive_chunk-AllConsistent weakly_canonical now t all =
      elim (Option-cases (validate_chunk_header hdr)) [
        | inr (error, e) ↦ rw (e, receive_chunk) all
        | inl e ↦
            rw (e, receive_chunk)
              (let (l, small) = validate-index e in
                elim (Bool-cases (is_path_safe weakly_canonical root hdr.file_path)) [
                  | inr s ↦ rw (s, receive_chunk) all
                  | inl s ↦ elim (Option-cases (find hdr.file_path t.receiving_files)) [
                    | inl f ↦
                        let task = new_task root hdr.file_path hdr.total_chunks peer_id in
                        let fits =
                          new_task-IsConsistent root hdr.file_path hdr.total_chunks peer_id small in
                        rw
                          (
                            s,
                            f,
                            find-insert_self hdr.file_path task t.receiving_files,
                            receive_chunk,
                            lookup_or_create_receiving,
                          )
                          (store_chunk-AllConsistent now
                            (record {
                              need_open_stream = true;
                              need_create_dirs = has_parent_path (full_path root hdr.file_path);
                            })
                            task _ l (fits, refl)
                            (insert-All IsConsistent hdr.file_path task t.receiving_files fits all))
                    | inr (rf, f) ↦
                        let (joined, fits, same) =
                          join_task-Fits io root hdr.file_path hdr.total_chunks peer_id rf t small
                            (find-All IsConsistent hdr.file_path rf t.receiving_files f all) in
                        let step = join_task io root hdr.file_path hdr.total_chunks peer_id rf t in
                        let listed : find hdr.file_path step.0.receiving_files ≡ some joined =
                          rw same (find-insert_self hdr.file_path joined t.receiving_files) in
                        let kept : AllConsistent step.0 = rw same (
                          insert-All IsConsistent hdr.file_path joined t.receiving_files fits.0
                            all) in
                        rw (s, f, listed, receive_chunk, lookup_or_create_receiving)
                          (store_chunk-AllConsistent now step.1 joined step.0 l fits kept)
                  ]
                ])
      ]
