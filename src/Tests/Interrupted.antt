-- ===== src/Tests/Interrupted.antt =====
-- Downloads of a file of five bytes that are interrupted, restored, or damaged.
use veritas_sync.Base.{
  Bool, Str, ℕ, ◌≡◌, refl, true, false, [], ◌∷◌, none, some, arith, str_key, nat_key, str_eq, drop,
  bytes,
}
use veritas_sync.Base.Map.{find}
use veritas_sync.Sync.TransferManager.State.{
  ReceivingFile, DownloadTaskRecord, Transfer, full_path, temp_path_of, count_true,
}
use veritas_sync.Sync.TransferManager.Finalize.{finalize_received_file}
use veritas_sync.Sync.TransferManager.Packet.{chunk_packet}
use veritas_sync.Sync.TransferManager.Slices.{chunk_of}
use veritas_sync.Sync.TransferManager.{handle_chunk}
use veritas_sync.Sync.TransferManager.Progress.{all_well}
use veritas_sync.Sync.TransferManager.Resume.{
  cancel_receives_for_peer, ResumeInfo, check_entry, check_resume_eligibility, contiguous,
  persist_download_state, load_download_state,
}
use veritas_sync.Sync.TransferManager.Invariant.{IsConsistent, AllConsistent}
use veritas_sync.Sync.TransferManager.Operations.{
  here, after, chunk, disconnect, reachable-AllConsistent,
}
use veritas_sync.Sync.TransferManager.Restart.{load-persist_download_state}
use veritas_sync.Sync.TransferManager.Resumption.{IsResumable, check_resume_eligibility-IsResumable}
use veritas_sync.Sync.TransferManager.Verification.{finalize_received_file-mismatch}
use veritas_sync.Common.PathUtils.{join_path}
use veritas_sync.Tests.Common.{text_a, text_b, no_links, home, differ}
use veritas_sync.Tests.Transfer.{marking, same_text, five, idle}

-- The first and the last of three chunks have come.
abbrev halfway : ReceivingFile
halfway = record {
  temp_path = temp_path_of home text_a;
  total_chunks = 3;
  received_chunks = 2;
  received_bitmap = true ∷ false ∷ true ∷ [];
  last_active = 7;
  peer_id = text_b;
  expected_hash = five;
  expected_size = 5;
  busy = false;
  is_open = true;
}

abbrev interrupted : Transfer
interrupted = record idle {
  receiving_files = (text_a, halfway) ∷ [];
  disk = (temp_path_of home text_a, bytes "ab__e") ∷ [];
}

halfway-IsConsistent : IsConsistent halfway
unfolding count_true
halfway-IsConsistent = record { one_bit_each = refl; count_exact = refl; fits = omega arith }

-- What lies behind a stored bitmap.
abbrev all_set : Str → ℕ → Bool
all_set path i = true

abbrev restarted : Transfer
restarted = record (persist_download_state interrupted) { receiving_files = [] }

load-persist_download_state_example :
    find text_a (load_download_state all_set 9 restarted).receiving_files
    ≡ some (record halfway { last_active = 9; busy = false; is_open = false })
unfolding find str_eq join_path
load-persist_download_state_example =
    load-persist_download_state all_set 9 text_a (bytes "ab__e") halfway interrupted (refl, tt) tt
      halfway-IsConsistent refl refl

abbrev resumed : ResumeInfo
resumed = record {
  path = text_a;
  received_chunks = 1;
  total_chunks = 3;
  expected_hash = five;
  expected_size = 5;
  temp_path = temp_path_of home text_a;
}

check_resume_eligibility-IsResumable_example :
    (rf : ReceivingFile) × (find text_a interrupted.receiving_files ≡ some rf)
    × IsResumable resumed five interrupted.disk rf
unfolding check_resume_eligibility check_entry find str_eq contiguous join_path
check_resume_eligibility-IsResumable_example =
    check_resume_eligibility-IsResumable all_well text_a five 5 interrupted resumed
      (halfway-IsConsistent, tt) refl

abbrev one_file : Transfer
one_file = record idle {
  receiving_files = (text_a, halfway) ∷ [];
  disk = (temp_path_of home text_a, bytes "abxde") ∷ (full_path home text_a, bytes "old") ∷ [];
}

finalize_received_file-mismatch_example :
    let ended = finalize_received_file all_well same_text home text_a text_b halfway one_file in
    (find (full_path home text_a) ended.disk ≡ none)
    × (find (temp_path_of home text_a) ended.disk ≡ none)
    × (find text_a ended.receiving_files ≡ none)
    × (ended.completed ≡ one_file.completed)
unfolding find str_eq join_path
finalize_received_file-mismatch_example =
    finalize_received_file-mismatch same_text home text_a text_b halfway (bytes "abxde") one_file
      (omega arith) (omega arith) (differ (bytes "abxde") five refl) refl refl

-- The download is restored; two of its chunks come, the second of a file that is cut off; then its
-- peer goes away.
abbrev row : DownloadTaskRecord
row = record {
  path = text_a;
  peer_id = text_b;
  total_chunks = 3;
  bitmap_data = 5 ∷ [];
  expected_hash = five;
  expected_size = 5;
  temp_path = temp_path_of home text_a;
}

abbrev stopped : Transfer
stopped = record idle {
  disk = (temp_path_of home text_a, bytes "ab__e") ∷ [];
  tasks = (text_a, row) ∷ [];
}

abbrev arriving : ℕ → Transfer → Transfer
arriving i t =
    handle_chunk 2 same_text marking no_links all_well i home text_b
      (drop 1 (chunk_packet marking text_a i 3 (chunk_of 2 five i))) t

abbrev gone : Transfer
gone =
    cancel_receives_for_peer text_b
      (arriving 1 (arriving 0 (load_download_state all_set 1 stopped)))

reachable-AllConsistent_example : AllConsistent gone
reachable-AllConsistent_example =
    reachable-AllConsistent marking no_links 2 same_text home all_set 1 stopped gone refl
      (omega arith, tt)
      (after
        (after
          (after here (
            chunk all_well 0 text_b (drop 1 (chunk_packet marking text_a 0 3 (chunk_of 2 five 0)))))
          (chunk all_well 1 text_b (drop 1 (chunk_packet marking text_a 1 3 (chunk_of 2 five 1)))))
        (disconnect text_b))
