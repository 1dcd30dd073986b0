-- ===== src/Tests/Resumed.antt =====
-- A download of which the first chunk is stored, finished by an upload that resumes.
use veritas_sync.Base.{
  ℕ, zero, suc, ◌+◌, ◌*◌, ◌<◌, ◌≡◌, refl, inl, inr, true, false, [], ◌∷◌, some, arith, str_key,
  nat_key, str_eq, get_elem?, bytes, In,
}
use veritas_sync.Base.Map.{find}
use veritas_sync.Sync.TransferManager.State.{ReceivingFile, Transfer, temp_path_of, count_true}
use veritas_sync.Common.PathUtils.{is_path_safe}
use veritas_sync.Sync.TransferManager.Upload.{
  UploadContext, UploadRequest, queue_upload, actual_start_chunk, chunk_count, run_upload,
}
use veritas_sync.Sync.TransferManager.Complete.{IsUploaded}
use veritas_sync.Sync.TransferManager.Completion.{IsDone}
use veritas_sync.Sync.TransferManager.Delivery.{receive_packets}
use veritas_sync.Sync.TransferManager.Stamps.{stamped}
use veritas_sync.Sync.TransferManager.Resumed.{before, IsInterrupted, run_upload_resumed}
use veritas_sync.Common.PathUtils.{is_path_safe_with_canonical_root, join_path}
use veritas_sync.Tests.Common.{text_a, text_b, no_links, home}
use veritas_sync.Tests.Transfer.{
  marking, marking-IsLossless, same_text, five, idle, four_runs, answered,
}

-- The first of three chunks was stored; the stream is closed.
abbrev one_stored : ReceivingFile
one_stored = record {
  temp_path = temp_path_of home text_a;
  total_chunks = 3;
  received_chunks = 1;
  received_bitmap = true ∷ false ∷ false ∷ [];
  last_active = 7;
  peer_id = [];
  expected_hash = five;
  expected_size = 5;
  busy = false;
  is_open = false;
}

abbrev waiting : Transfer
waiting = record idle {
  receiving_files = (text_a, one_stored) ∷ [];
  disk = (temp_path_of home text_a, bytes "ab") ∷ [];
}

only_first : (i : ℕ) → get_elem? (true ∷ false ∷ false ∷ []) i ≡ some true → In i (before 1)
unfolding before
only_first zero e = inl refl
only_first (suc zero) e = cc
only_first (suc (suc zero)) e = cc
only_first (suc (suc (suc i))) e = cc

first_set : (i : ℕ) → In i (before 1) → get_elem? (true ∷ false ∷ false ∷ []) i ≡ some true
unfolding before
first_set i (inl e) = rw e refl
first_set i (inr p) = absurd p

first_two : (j x : ℕ) → j < 2 → get_elem? five j ≡ some x → get_elem? (bytes "ab") j ≡ some x
first_two zero x l e = e
first_two (suc zero) x l e = e
first_two (suc (suc j)) x l e = absurd (omega (arith, l))

first_stored :
    (i j x : ℕ)
    → In i (before 1)
    → j < 2
    → get_elem? five (i * 2 + j) ≡ some x
    → get_elem? (bytes "ab") (i * 2 + j) ≡ some x
unfolding before
first_stored i j x (inl e) l q =
    let place : i * 2 + j ≡ j = omega (arith, e) in rw place (first_two j x l (rw place at q))
first_stored i j x (inr p) l q = absurd p

waiting-IsInterrupted : IsInterrupted 2 home text_a five five 3 1 waiting
unfolding find str_eq join_path count_true
waiting-IsInterrupted = record {
  entry = one_stored;
  content = bytes "ab";
  listed = refl;
  on_disk = refl;
  tracked = record {
    temp_file = refl;
    all_chunks = refl;
    one_bit_each = refl;
    count_exact = refl;
    only_seen = only_first;
    all_seen = first_set;
    hash_kept = refl;
  };
  chunks = record { not_longer = omega arith; stored = first_stored };
}

abbrev second_request : UploadRequest
second_request = record { path = text_a; start_chunk = 1; expected_hash = five; expected_size = 5 }

abbrev resumed_upload : UploadContext
resumed_upload = record {
  peer_id = text_b;
  path = text_a;
  file_hash = five;
  total_chunks = 0;
  current_chunk = 1;
  open_retry_count = 0;
}

run_upload_resumed_example :
    let queued = (queue_upload text_b second_request five (some five) idle).1 in
    let sent = run_upload marking 2 256 5 four_runs resumed_upload queued in
    IsUploaded resumed_upload sent.2
    × IsDone home text_a text_b five five (
        receive_packets marking no_links 2 same_text home text_b
          (stamped (λ i. i) 1 sent.0)
          waiting)
unfolding queue_upload actual_start_chunk is_path_safe is_path_safe_with_canonical_root str_eq
    chunk_count
run_upload_resumed_example =
    run_upload_resumed marking no_links 2 same_text 5 256 home text_b text_b five five five 1
      second_request resumed_upload four_runs (λ i. i) idle waiting marking-IsLossless (omega arith)
      (omega arith) refl (omega arith) (omega arith) (omega arith) (inr refl) refl (omega arith)
      refl ((refl, answered), ((refl, answered), ((refl, answered), ((refl, answered), tt))))
      (omega arith) waiting-IsInterrupted
