-- ===== src/Sync/TransferManager/Step.antt =====
-- One chunk of a download whose calls of the file system all succeed.
use veritas_sync.Base.{
  ℕ, ◌+◌, ◌*◌, ◌%◌, ◌^◌, ◌<◌, ◌≡◌, refl, ◌∙◌, Bool, true, false, ◌&&◌, List, [], none, some, arith,
  Str, str_key, nat_key, leb, if◌then◌else◌, length, get_elem?, Bool-cases, inl, inr,
}
use veritas_sync.Base.Map.{Map, find, insert_or_assign, find-insert_self}
use veritas_sync.Sync.TransferManager.State.{
  ReceivingFile, Transfer, ChunkLookup, set_bit, put_file, bit_at,
}
use veritas_sync.Sync.TransferManager.Finalize.{finalize_received_file}
use veritas_sync.Sync.TransferManager.TempFile.{write_at}
use veritas_sync.Sync.TransferManager.Packet.{ChunkHeader, chunk_header}
use veritas_sync.Sync.TransferManager.Slices.{chunk_of}
use veritas_sync.Sync.TransferManager.{
  open_stream, content_of, write_chunk, place_chunk, store_chunk,
}
use veritas_sync.Sync.TransferManager.Progress.{all_well}

bit_known :
    (bitmap : List Bool) (i : ℕ) (b : Bool) → get_elem? bitmap i ≡ some b → bit_at bitmap i ≡ b
bit_known bitmap i b e = rw (e, bit_at) refl

content_known :
    (temp : Str) (disk : Map Str Str) (content : Str)
    → find temp disk ≡ some content
    → content_of temp disk ≡ content
content_known temp disk content e = rw (e, content_of) refl

-- The file that a download is of.
module _ (size : ℕ) (sha256 : Str → Str) (root path peer_id : Str) (file hash : Str)
    (total : ℕ) where
  abbrev pub header_of : ℕ → ChunkHeader
  header_of i = chunk_header path i total (chunk_of size file i)

  -- A chunk that is there already changes nothing but the flag.
  pub place_again :
      (rf : ReceivingFile) (t : Transfer) (i : ℕ)
      → i < length rf.received_bitmap
      → get_elem? rf.received_bitmap i ≡ some true
      → place_chunk size sha256 all_well root peer_id (header_of i) rf t
        ≡ put_file path (record rf { received_bitmap = rf.received_bitmap; busy = false }) t
  unfolding place_chunk
  place_again rf t i l e =
      let within : leb (length rf.received_bitmap) i ≡ false = ground (arith, l) in
      let bit : bit_at rf.received_bitmap i ≡ true = bit_known rf.received_bitmap i true e in
      rw (within, bit) refl

  abbrev pub marked : ReceivingFile → ℕ → ReceivingFile
  marked rf i = record rf {
    received_bitmap = set_bit i rf.received_bitmap;
    received_chunks = (rf.received_chunks + 1) % 2 ^ 32;
    busy = false;
  }

  abbrev pub stored_in : Str → Str → ℕ → Transfer → Transfer
  stored_in temp content i t = record t {
    disk = insert_or_assign temp (write_at (i * size) (chunk_of size file i) content) t.disk;
  }

  pub place_new :
      (rf : ReceivingFile) (t : Transfer) (i : ℕ) (content : Str)
      → i < length rf.received_bitmap
      → get_elem? rf.received_bitmap i ≡ some false
      → find rf.temp_path t.disk ≡ some content
      → place_chunk size sha256 all_well root peer_id (header_of i) rf t ≡ (
          if leb rf.total_chunks ((rf.received_chunks + 1) % 2 ^ 32)
          then finalize_received_file all_well sha256 root path peer_id
              (marked rf i)
              (stored_in rf.temp_path content i t)
          else put_file path (marked rf i) (stored_in rf.temp_path content i t))
  unfolding place_chunk write_chunk
  place_new rf t i content l e c =
      let within : leb (length rf.received_bitmap) i ≡ false = ground (arith, l) in
      let bit : bit_at rf.received_bitmap i ≡ false = bit_known rf.received_bitmap i false e in
      let text : content_of rf.temp_path t.disk ≡ content =
        content_known rf.temp_path t.disk content c in
      rw (within, bit, text) refl

  -- The temporary file has the content, or the entry is new and its file is still to be made.
  pub data IsReady (rf : ReceivingFile) (lookup : ChunkLookup) (t : Transfer) (seen : List ℕ)
      (content : Str) : Type 0 where
    streaming : find rf.temp_path t.disk ≡ some content → IsReady rf lookup t seen content
    starting :
        rf.is_open ≡ false
        → lookup.need_open_stream ≡ true
        → find rf.temp_path t.disk ≡ none
        → content ≡ []
        → IsReady rf lookup t seen content

  open_stream_ready :
      (rf : ReceivingFile) (lookup : ChunkLookup) (t : Transfer) (seen : List ℕ) (content : Str)
      → IsReady rf lookup t seen content
      → (disk : Map Str Str) × (open_stream all_well lookup rf t.disk ≡ some disk)
        × (find rf.temp_path disk ≡ some content)
  unfolding open_stream
  open_stream_ready rf lookup t seen content (streaming c) = (
    t.disk,
    elim (Bool-cases rf.is_open) [ inl o ↦ rw o refl | inr o ↦ rw (o, c, open_stream) refl ],
    c,
  )
  open_stream_ready rf lookup t seen content (starting o n a e) = (
    insert_or_assign rf.temp_path [] t.disk,
    rw (o, a, n) refl,
    find-insert_self rf.temp_path [] t.disk ∙ rw e refl,
  )

  abbrev pub opened_file : ReceivingFile → ℕ → ReceivingFile
  opened_file rf now = record rf { last_active = now; is_open = true }

  pub store_ready :
      (now : ℕ) (rf : ReceivingFile) (lookup : ChunkLookup) (t : Transfer) (seen : List ℕ)
      (content : Str) (i : ℕ)
      → IsReady rf lookup t seen content
      → (disk : Map Str Str) × (find rf.temp_path disk ≡ some content)
        × (store_chunk size sha256 all_well now root peer_id (header_of i) lookup rf t
            ≡ place_chunk size sha256 all_well root peer_id
                (header_of i)
                (opened_file rf now)
                (record t { disk = disk }))
  unfolding store_chunk
  store_ready now rf lookup t seen content i ready =
      let (disk, e, c) = open_stream_ready rf lookup t seen content ready in
      let no_failure : (lookup.need_create_dirs && false) ≡ false = ground arith in
      (disk, c, rw (no_failure, e) refl)
