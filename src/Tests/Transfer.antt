-- ===== src/Tests/Transfer.antt =====
-- A file of five bytes that is sent and received.
use veritas_sync.Base.{
  ℕ, zero, suc, ◌*◌, ◌<◌, ◌≡◌, refl, ◌≢◌, ◌⊎◌, inl, inr, List, [], ◌∷◌, ◌++◌, Option, none, some,
  arith, Str, str_key, nat_key, str_eq, bytes, In,
}
use veritas_sync.Base.Map.{find, insert_or_assign}
use veritas_sync.Sync.TransferManager.State.{Transfer}
use veritas_sync.Common.PathUtils.{is_path_safe}
use veritas_sync.Sync.TransferManager.Packet.{Snappy, IsLossless}
use veritas_sync.Sync.TransferManager.Arrival.{IsTransferable}
use veritas_sync.Sync.TransferManager.Joining.{unknown, registered}
use veritas_sync.Sync.TransferManager.Completion.{IsDone}
use veritas_sync.Sync.TransferManager.Delivery.{
  receive_packets, packets_of, indices, reassembles-receive_packets,
}
use veritas_sync.Sync.TransferManager.Upload.{
  UploadContext, UploadRequest, queue_upload, actual_start_chunk, chunk_count, run_upload,
}
use veritas_sync.Sync.TransferManager.Sending.{chunk_packets}
use veritas_sync.Sync.TransferManager.Ending.{IsWithin, run_upload-ends}
use veritas_sync.Sync.TransferManager.Complete.{IsUploaded, run_upload_complete}
use veritas_sync.Sync.TransferManager.Stamps.{stamped}
use veritas_sync.Sync.TransferManager.Transmission.{run_upload-receive_packets}
use veritas_sync.Sync.TransferManager.Resume.{register_expected_metadata, placeholder}
use veritas_sync.Common.PathUtils.{is_path_safe_with_canonical_root}
use veritas_sync.Tests.Common.{text_a, text_b, no_links, home}

abbrev unmark : Str → Option Str
unmark [] = none
unmark (c ∷ text) = some text

-- What is compressed is marked by a byte at its front.
abbrev pub marking : Snappy
marking = record { compress = λ text. 1 ∷ text; uncompress = unmark }

pub marking-IsLossless : IsLossless marking
marking-IsLossless = record { restores = λ text. refl; has_length = λ text e. cc }

abbrev pub same_text : Str → Str
same_text text = text

-- Five bytes, in chunks of two.
abbrev pub five : Str
five = bytes "abcde"

abbrev pub idle : Transfer
idle = record {
  receiving_files = [];
  sending_files = [];
  session_total = 0;
  session_done = 0;
  disk = [];
  tasks = [];
  completed = [];
  sent = [];
}

abbrev request : UploadRequest
request = record { path = text_a; start_chunk = 0; expected_hash = []; expected_size = 0 }

abbrev begun : UploadContext
begun = record {
  peer_id = text_b;
  path = text_a;
  file_hash = five;
  total_chunks = 0;
  current_chunk = 0;
  open_retry_count = 0;
}

abbrev pub opens : Option Str × (ℕ → Option ℕ)
opens = (some five, λ i. some (i * 300))

abbrev fails : Option Str × (ℕ → Option ℕ)
fails = (none, λ i. none)

abbrev pub four_runs : List (Option Str × (ℕ → Option ℕ))
four_runs = opens ∷ opens ∷ opens ∷ opens ∷ []

abbrev queued : Transfer
queued = (queue_upload text_b request five (some five) idle).1

-- The answer is never that the connection is lost.
pub answered : (i : ℕ) → ◌≢◌ {A = Option ℕ} (some (i * 300)) none
answered i e = cc

run_upload-receive_packets_example :
    IsUploaded begun (run_upload marking 2 256 5 four_runs begun queued).2
    × IsDone home text_a text_b five five (
        receive_packets marking no_links 2 same_text home text_b
          (stamped (λ i. i) 0 (run_upload marking 2 256 5 four_runs begun queued).0)
          idle)
unfolding queue_upload actual_start_chunk is_path_safe is_path_safe_with_canonical_root str_eq find
    chunk_count
run_upload-receive_packets_example =
    run_upload-receive_packets marking no_links 2 same_text 5 256 home text_b text_b five five []
      request begun four_runs (λ i. i) idle idle marking-IsLossless (omega arith) (omega arith) refl
      (omega arith) (omega arith) (omega arith) (inl refl) refl refl
      ((refl, answered), ((refl, answered), ((refl, answered), ((refl, answered), tt))))
      (omega arith) (unknown refl refl refl)

-- The chunks arrive as 2, 0, 2, 1.
abbrev jumbled : List (ℕ × ℕ)
jumbled = (1, 2) ∷ (2, 0) ∷ (3, 2) ∷ []

five-IsTransferable : IsTransferable no_links 2 home text_a five 3
unfolding is_path_safe is_path_safe_with_canonical_root str_eq
five-IsTransferable = record {
  safe = refl;
  some_path = omega arith;
  short_path = omega arith;
  some_chunk = omega arith;
  few_chunks = omega arith;
  some_bytes = omega arith;
  covered = omega arith;
}

-- The hash of the file was registered first.
abbrev expecting : Transfer
expecting = register_expected_metadata 0 text_a text_b five 5 idle

every_chunk : (k : ℕ) → k < 3 → (k ≡ 1) ⊎ In k (indices jumbled)
every_chunk zero l = inr (inr (inl refl))
every_chunk (suc zero) l = inl refl
every_chunk (suc (suc zero)) l = inr (inl refl)
every_chunk (suc (suc (suc k))) l = absurd (omega (arith, l))

reassembles-receive_packets_example : IsDone home text_a text_b five five (
    receive_packets marking no_links 2 same_text home text_b
      (packets_of marking 2 text_a five 3 (jumbled ++ (4, 1) ∷ []))
      expecting)
unfolding register_expected_metadata find insert_or_assign str_eq
reassembles-receive_packets_example =
    reassembles-receive_packets marking no_links 2 same_text home text_a text_b five five 3 jumbled
      4 1 expecting marking-IsLossless five-IsTransferable (omega arith) (inr refl) (omega arith)
      (omega arith, (omega arith, (omega arith, tt))) (λ m. ground (arith, m)) every_chunk
      (registered (placeholder 0 text_b five 5) refl refl refl refl refl refl refl refl)

begun-IsWithin : IsWithin 3 begun
begun-IsWithin = record { counted_or_new = inl refl; not_past = omega arith }

sized : (content : Str) → some five ≡ some content → chunk_count 2 content ≡ 3
unfolding chunk_count
sized content e = let same : content ≡ five = cc in rw same refl

never : (content : Str) → none ≡ some content → chunk_count 2 content ≡ 3
never content e = cc

-- One retry; the file opens at every second run only.
abbrev unsteady : List (Option Str × (ℕ → Option ℕ))
unsteady = fails ∷ opens ∷ fails ∷ opens ∷ fails ∷ opens ∷ fails ∷ fails ∷ []

run_upload-ends_example : (run_upload marking 2 256 1 unsteady begun idle).1 ≡ none
run_upload-ends_example =
    run_upload-ends marking 2 256 1 3 unsteady begun idle (omega arith) begun-IsWithin
      (never, (sized, (never, (sized, (never, (sized, (never, (never, tt)))))))) (omega arith)

run_upload_complete_example :
    ((run_upload marking 2 256 5 four_runs begun idle).0
      ≡ chunk_packets marking 2 256 text_a 3 five 0 3)
    × ((run_upload marking 2 256 5 four_runs begun idle).1 ≡ none)
    × IsUploaded begun (run_upload marking 2 256 5 four_runs begun idle).2
unfolding chunk_count
run_upload_complete_example =
    run_upload_complete marking 2 256 5 3 five four_runs begun idle (omega arith) begun-IsWithin
      refl ((refl, answered), ((refl, answered), ((refl, answered), ((refl, answered), tt))))
      (omega arith)
