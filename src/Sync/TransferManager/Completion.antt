-- ===== src/Sync/TransferManager/Completion.antt =====
-- The last chunk of a download: the file is put in its place.
use veritas_sync.Base.{
  ◌≤◌, ◌≡◌, refl, ap, ◌∙◌, ◌⊎◌, inl, inr, Bool, true, false, ◌||◌, [], ◌∷◌, ◌++◌, none, some, arith,
  Str, ◌==◌, str_key, nat_key, nat_eq, str_eq, str_eq_iff, str_eq_refl, length, Bool-cases, bytes,
  In, In-append_right, length-append,
}
use veritas_sync.Base.Map.{
  Map, find, insert_or_assign, erase, find-insert_or_assign, find-insert_self, find-erase_self,
}
use veritas_sync.Sync.TransferManager.State.{ReceivingFile, Transfer, full_path, temp_path_of}
use veritas_sync.Sync.TransferManager.Finalize.{create_final, verify_final, finalize_received_file}
use veritas_sync.Sync.TransferManager.Progress.{all_well}

pub final_is_not_temp : (root path : Str) → (full_path root path == temp_path_of root path) ≡ false
final_is_not_temp root path =
    elim (Bool-cases (str_eq (full_path root path) (temp_path_of root path))) [
      | inl e ↦
          let longer : length (full_path root path) ≡ length (temp_path_of root path) =
            ap (λ x. length x) ((str_eq_iff _ _).0 e) in
          absurd (omega (arith, longer, length-append (full_path root path) (bytes ".veritas_tmp")))
      | inr e ↦ e
    ]

-- The download has ended well: the file is in its place, nothing of the download is left, and the
-- file is recorded with its hash.
pub record IsDone (root path peer_id file digest : Str) (t : Transfer) : Type 0 where
  pub in_place : find (full_path root path) t.disk ≡ some file
  pub no_temp : find (temp_path_of root path) t.disk ≡ none
  pub no_entry : find path t.receiving_files ≡ none
  pub no_task : find path t.tasks ≡ none
  pub recorded : In (record { peer_id = peer_id; path = path; hash = digest }) t.completed

module _ (sha256 : Str → Str) (root path peer_id : Str) (file hash : Str) where
  pub create_final-whole :
      (disk : Map Str Str)
      → find (temp_path_of root path) disk ≡ some file
      → create_final all_well (temp_path_of root path) (full_path root path) disk
        ≡ (insert_or_assign (full_path root path) file (erase (temp_path_of root path) disk), true)
  unfolding create_final
  create_final-whole disk e = rw (e, create_final) refl

  verify_final-good :
      (t : Transfer)
      → 1 ≤ length peer_id
      → (hash ≡ []) ⊎ (sha256 file ≡ hash)
      → find (full_path root path) t.disk ≡ some file
      → verify_final all_well sha256 (full_path root path) path peer_id hash t ≡ record t {
        completed =
            t.completed ++ record { peer_id = peer_id; path = path; hash = sha256 file } ∷ [];
      }
  unfolding verify_final
  verify_final-good t known good e =
      let named : nat_eq (length peer_id) 0 ≡ false = ground (arith, known) in
      let accepted : (nat_eq (length hash) 0 || str_eq (sha256 file) hash) ≡ true = elim good [
        | inl p ↦ rw p refl
        | inr p ↦ rw (p, str_eq_refl hash) (or_true (nat_eq (length hash) 0))
      ] in
      rw (named, e, accepted) refl
    where
      or_true : (b : Bool) → (b || true) ≡ true
      or_true b = ground arith

  pub finalize-IsDone :
      (rf : ReceivingFile) (t : Transfer)
      → 1 ≤ length peer_id
      → (hash ≡ []) ⊎ (sha256 file ≡ hash)
      → rf.temp_path ≡ temp_path_of root path
      → rf.expected_hash ≡ hash
      → find (temp_path_of root path) t.disk ≡ some file
      → IsDone root path peer_id file
          (sha256 file)
          (finalize_received_file all_well sha256 root path peer_id rf t)
  unfolding finalize_received_file
  finalize-IsDone rf t known good p h e =
      let disk =
        insert_or_assign (full_path root path) file (erase (temp_path_of root path) t.disk) in
      let made = create_final-whole t.disk e in
      let checked =
        verify_final-good (record t { disk = disk }) known good
          (find-insert_self (full_path root path) file (erase (temp_path_of root path) t.disk)) in
      rw (p, h, made, checked)
        (record {
          in_place =
              find-insert_self (full_path root path) file (erase (temp_path_of root path) t.disk);
          no_temp =
              find-insert_or_assign (temp_path_of root path) (full_path root path) file
                (erase (temp_path_of root path) t.disk)
              ∙ rw (final_is_not_temp root path) (find-erase_self (temp_path_of root path) t.disk);
          no_entry = find-erase_self path t.receiving_files;
          no_task = find-erase_self path t.tasks;
          recorded = In-append_right _ t.completed _ (inl refl);
        })
