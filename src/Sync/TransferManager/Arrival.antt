-- ===== src/Sync/TransferManager/Arrival.antt =====
-- The first steps of `handle_chunk` for a chunk of a download that is new or in progress.
use veritas_sync.Base.{
  ℕ, ◌*◌, ◌≤◌, ◌<◌, ◌≡◌, refl, sym, ap, ◌∙◌, true, false, List, [], Option, none, some, arith, Str,
  str_key, nat_key, nat_eq, ltb, leb, length,
}
use veritas_sync.Base.Map.{find, find-insert_self}
use veritas_sync.Sync.TransferManager.State.{
  ReceivingFile, Transfer, ChunkLookup, full_path, temp_path_of, has_parent_path, replicate_false,
  resize, counted, put_file,
}
use veritas_sync.Sync.TransferManager.Entry.{new_task, join_task, lookup_or_create_receiving}
use veritas_sync.Common.PathUtils.{is_path_safe}
use veritas_sync.Sync.TransferManager.Packet.{ChunkHeader, validate_chunk_header}
use veritas_sync.Sync.TransferManager.Bits.{
  length-replicate_false, count_true-replicate_false, get-replicate_false, resize-none,
}
use veritas_sync.Sync.TransferManager.{store_chunk, receive_chunk}
use veritas_sync.Sync.TransferManager.Progress.{HasChunks, Tracks, all_well}
use veritas_sync.Sync.TransferManager.Step.{header_of, IsReady, streaming, starting}
use veritas_sync.Sync.TransferManager.Placement.{Holding}
use veritas_sync.Sync.TransferManager.Joining.{Fresh, unknown, registered, join_same, join_first}

-- The conditions under which a file can be sent and stored.
pub record IsTransferable (weakly_canonical : Str → Option Str) (size : ℕ) (root path file : Str)
    (total : ℕ) : Type 0 where
  pub safe : is_path_safe weakly_canonical root path ≡ true
  pub some_path : 1 ≤ length path
  pub short_path : length path ≤ 4096
  pub some_chunk : 1 ≤ total
  pub few_chunks : total ≤ 8388608
  pub some_bytes : 0 < size
  pub covered : length file ≤ total * size

module _ (weakly_canonical : Str → Option Str) (size : ℕ) (sha256 : Str → Str)
    (root path peer_id : Str) (file hash : Str) (total : ℕ) where
  abbrev temp : Str
  temp = temp_path_of root path

  abbrev header : ℕ → ChunkHeader
  header i = header_of size sha256 root path peer_id file hash total i

  header-is_valid :
      (i : ℕ)
      → IsTransferable weakly_canonical size root path file total
      → i < total
      → validate_chunk_header (header i) ≡ none
  unfolding validate_chunk_header
  header-is_valid i f l =
      let named : nat_eq (length path) 0 ≡ false = ground (arith, f.some_path) in
      let short : ltb 4096 (length path) ≡ false = ground (arith, f.short_path) in
      let chunks : nat_eq total 0 ≡ false = ground (arith, f.some_chunk) in
      let few : ltb 8388608 total ≡ false = ground (arith, f.few_chunks) in
      let within : leb total i ≡ false = ground (arith, l) in
      rw (named, short, chunks, few, within) refl

  -- A chunk that is found or given its entry.
  pub record Found (now i : ℕ) (t : Transfer) (seen : List ℕ) : Type 0 where
    pub rf : ReceivingFile
    pub found : Transfer
    pub lookup : ChunkLookup
    pub content : Str
    pub continues :
        receive_chunk size sha256 weakly_canonical all_well now root peer_id (header i) t
        ≡ store_chunk size sha256 all_well now root peer_id (header i) lookup rf found
    pub ready : IsReady size sha256 root path peer_id file hash total rf lookup found seen content
    pub same_peer : rf.peer_id ≡ peer_id
    pub tracked : Tracks total seen temp hash rf
    pub chunks : HasChunks size file seen content

  receive_from :
      (now i : ℕ) (t found : Transfer) (lookup : ChunkLookup) (rf : ReceivingFile)
      → IsTransferable weakly_canonical size root path file total
      → i < total
      → lookup_or_create_receiving weakly_canonical all_well root path total peer_id t
        ≡ some (found, lookup)
      → find path found.receiving_files ≡ some rf
      → receive_chunk size sha256 weakly_canonical all_well now root peer_id (header i) t
        ≡ store_chunk size sha256 all_well now root peer_id (header i) lookup rf found
  unfolding receive_chunk
  receive_from now i t found lookup rf f l e g =
      rw (header-is_valid i f l, e, g, receive_chunk) refl

  lookup_old :
      (t : Transfer) (rf : ReceivingFile)
      → IsTransferable weakly_canonical size root path file total
      → find path t.receiving_files ≡ some rf
      → lookup_or_create_receiving weakly_canonical all_well root path total peer_id t
        ≡ some (join_task all_well root path total peer_id rf t)
  unfolding lookup_or_create_receiving
  lookup_old t rf f e = rw (f.safe, e, lookup_or_create_receiving) refl

  lookup_new :
      (t : Transfer)
      → IsTransferable weakly_canonical size root path file total
      → find path t.receiving_files ≡ none
      → lookup_or_create_receiving weakly_canonical all_well root path total peer_id t
        ≡ some (
          record (put_file path (new_task root path total peer_id) t) {
            session_total = counted t.session_total;
          },
          record {
            need_open_stream = true;
            need_create_dirs = has_parent_path (full_path root path);
          },
        )
  unfolding lookup_or_create_receiving
  lookup_new t f e = rw (f.safe, e, lookup_or_create_receiving) refl

  nothing_stored : HasChunks size file [] []
  nothing_stored = record { not_longer = omega arith; stored = λ i j x m. absurd m }

  nothing_tracked :
      (rf : ReceivingFile)
      → rf.temp_path ≡ temp
      → rf.total_chunks ≡ total
      → rf.received_chunks ≡ 0
      → rf.received_bitmap ≡ replicate_false total
      → rf.expected_hash ≡ hash
      → Tracks total [] temp hash rf
  nothing_tracked rf p a c b e = record {
    temp_file = p;
    all_chunks = a;
    one_bit_each = rw b (length-replicate_false total);
    count_exact = rw (c, b) (sym (count_true-replicate_false total));
    only_seen = λ i g. absurd (get-replicate_false total i (rw (← b) g));
    all_seen = λ i m. absurd m;
    hash_kept = e;
  }

  pub find-Holding :
      (now i : ℕ) (t : Transfer) (seen : List ℕ)
      → IsTransferable weakly_canonical size root path file total
      → i < total
      → Holding size sha256 root path peer_id file hash total t seen
      → Found now i t seen
  find-Holding now i t seen f l h =
      let same =
        join_same root path total peer_id h.entry t f.some_chunk h.tracked.all_chunks
          h.tracked.temp_file in
      record {
        rf = record h.entry { peer_id = peer_id; busy = true };
        found = put_file path (record h.entry { peer_id = peer_id; busy = true }) t;
        lookup = record { need_open_stream = false; need_create_dirs = false };
        content = h.content;
        continues =
            receive_from now i t _ _ _ f l (lookup_old t h.entry f h.listed ∙ ap (λ r. some r) same)
              (find-insert_self path _ t.receiving_files);
        ready = streaming (rw h.tracked.temp_file h.on_disk);
        same_peer = refl;
        tracked = record {
          temp_file = h.tracked.temp_file;
          all_chunks = h.tracked.all_chunks;
          one_bit_each = h.tracked.one_bit_each;
          count_exact = h.tracked.count_exact;
          only_seen = h.tracked.only_seen;
          all_seen = h.tracked.all_seen;
          hash_kept = h.tracked.hash_kept;
        };
        chunks = h.chunks;
      }

  pub find-Fresh :
      (now i : ℕ) (t : Transfer)
      → IsTransferable weakly_canonical size root path file total
      → i < total
      → Fresh root path hash t
      → Found now i t []
  find-Fresh now i t f l (unknown no_hash e a) = record {
    rf = new_task root path total peer_id;
    found = record (put_file path (new_task root path total peer_id) t) {
      session_total = counted t.session_total;
    };
    lookup = record {
      need_open_stream = true;
      need_create_dirs = has_parent_path (full_path root path);
    };
    content = [];
    continues =
        receive_from now i t _ _ _ f l (lookup_new t f e)
          (find-insert_self path _ t.receiving_files);
    ready = starting refl refl a refl;
    same_peer = refl;
    tracked = nothing_tracked (new_task root path total peer_id) refl refl refl refl (sym no_hash);
    chunks = nothing_stored;
  }
  find-Fresh now i t f l (registered rf e no_temp no_total no_count no_bits closed h a) = record {
    rf = record rf {
      peer_id = peer_id;
      total_chunks = total;
      received_bitmap = resize total rf.received_bitmap;
      temp_path = temp;
      busy = true;
    };
    found = _;
    lookup = _;
    content = [];
    continues =
        receive_from now i t _ _ _ f l
          (lookup_old t rf f e
            ∙ ap (λ r. some r) (join_first root path total peer_id rf t no_total no_temp))
          (find-insert_self path _ t.receiving_files);
    ready = starting closed refl a refl;
    same_peer = refl;
    tracked = nothing_tracked _ refl refl no_count (rw no_bits (resize-none total)) h;
    chunks = nothing_stored;
  }
