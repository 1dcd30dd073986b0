-- ===== src/Sync/TransferManager/Verification.antt =====
-- The end of a download: when it is recorded, and what a wrong hash does.
use veritas_sync.Base.{
  ◌≤◌, ◌≡◌, refl, ◌∙◌, ◌≢◌, ◌⊎◌, inl, inr, false, [], ◌∷◌, ◌++◌, none, some, arith, Str, str_key,
  nat_key, nat_eq, str_eq, str_eq_iff, length, Bool-cases,
}
use veritas_sync.Base.Map.{
  Map, find, insert_or_assign, erase, find-insert_or_assign, find-erase, find-insert_self,
  find-erase_self,
}
use veritas_sync.Sync.TransferManager.State.{
  ReceivingFile, Completed, Transfer, Io, full_path, temp_path_of,
}
use veritas_sync.Sync.TransferManager.Finalize.{hash_of_file, verify_final, finalize_received_file}
use veritas_sync.Sync.TransferManager.Progress.{all_well}
use veritas_sync.Sync.TransferManager.Completion.{create_final-whole, final_is_not_temp}

module _ (sha256 : Str → Str) (root path peer_id : Str) where
  verify_final-mismatch :
      (hash content : Str) (t : Transfer)
      → 1 ≤ length peer_id
      → 1 ≤ length hash
      → sha256 content ≢ hash
      → find (full_path root path) t.disk ≡ some content
      → verify_final all_well sha256 (full_path root path) path peer_id hash t
        ≡ record t { disk = erase (full_path root path) t.disk }
  unfolding verify_final
  verify_final-mismatch hash content t known expects wrong e =
      let named : nat_eq (length peer_id) 0 ≡ false = ground (arith, known) in
      let some_hash : nat_eq (length hash) 0 ≡ false = ground (arith, expects) in
      let differs : str_eq (sha256 content) hash ≡ false =
        elim (Bool-cases (str_eq (sha256 content) hash)) [
          | inl p ↦ absurd (wrong ((str_eq_iff (sha256 content) hash).0 p))
          | inr p ↦ p
        ] in
      let digest : hash_of_file all_well sha256 (find (full_path root path) t.disk)
          ≡ sha256 content =
        rw e refl in
      rw (named, some_hash, digest, differs) refl

  -- A complete download whose hash is not the expected one leaves no file in its place, also where
  -- there was one before: the old file is replaced first, and then removed. It is not recorded, and
  -- its entry and its temporary file are gone. The calls of the file system succeed.
  pub finalize_received_file-mismatch :
      (rf : ReceivingFile) (content : Str) (t : Transfer)
      → 1 ≤ length peer_id
      → 1 ≤ length rf.expected_hash
      → sha256 content ≢ rf.expected_hash
      → rf.temp_path ≡ temp_path_of root path
      → find rf.temp_path t.disk ≡ some content
      → let ended = finalize_received_file all_well sha256 root path peer_id rf t in
        (find (full_path root path) ended.disk ≡ none)
        × (find rf.temp_path ended.disk ≡ none)
        × (find path ended.receiving_files ≡ none)
        × (ended.completed ≡ t.completed)
  unfolding finalize_received_file
  finalize_received_file-mismatch rf content t known expects wrong p e =
      let moved =
        insert_or_assign (full_path root path) content (erase (temp_path_of root path) t.disk) in
      let made =
        create_final-whole sha256 root path peer_id content rf.expected_hash t.disk (rw (← p) e) in
      let checked =
        verify_final-mismatch rf.expected_hash content (record t { disk = moved }) known expects
          wrong
          (find-insert_self (full_path root path) content
            (erase (temp_path_of root path) t.disk)) in
      let other = final_is_not_temp root path in
      rw (p, made, checked)
        (
          find-erase_self (full_path root path) moved,
          find-erase (temp_path_of root path) (full_path root path) moved
              ∙ rw other (
                  find-insert_or_assign (temp_path_of root path) (full_path root path) content
                    (erase (temp_path_of root path) t.disk)
                  ∙ rw other (find-erase_self (temp_path_of root path) t.disk)),
          find-erase_self path t.receiving_files,
          refl,
        )

-- A note of a file that was received: its hash is that of the file in its place, or empty where that
-- file could not be read, and it is the expected one, if there was one.
pub record IsVerified (io : Io) (sha256 : Str → Str) (final path peer_id expected_hash : Str)
    (disk : Map Str Str) (note : Completed) : Type 0 where
  pub of_file : note.hash ≡ hash_of_file io sha256 (find final disk)
  pub expected : (expected_hash ≡ []) ⊎ (note.hash ≡ expected_hash)
  pub same_path : note.path ≡ path
  pub from_peer : note.peer_id ≡ peer_id

abbrev Recorded : Io → (Str → Str) → Str → Str → Str → Str → Transfer → Transfer → Type 0
Recorded io sha256 final path peer_id expected_hash t ended =
    (ended.completed ≡ t.completed)
    ⊎ ((note : Completed) × (ended.completed ≡ t.completed ++ note ∷ [])
        × IsVerified io sha256 final path peer_id expected_hash ended.disk note)
