-- ===== src/Sync/TransferManager/Finalize.antt =====
-- src/sync/TransferManager.cpp, finalize_received_file: the temporary file of a complete download
-- becomes the file, and its hash is compared.
use veritas_sync.Base.{
  Bool, true, false, ◌||◌, [], ◌∷◌, ◌++◌, Option, none, some, Str, str_key, nat_key, nat_eq, str_eq,
  if◌then◌else◌, length,
}
use veritas_sync.Base.Map.{Map, find, insert_or_assign, erase}
use veritas_sync.Sync.TransferManager.State.{
  ReceivingFile, Completed, Transfer, Io, full_path, remove_file, fail_task,
}

-- A copy that fails may leave a part of the file in its place.
abbrev pub after_failed_copy : Io → Str → Map Str Str → Map Str Str
after_failed_copy io final disk = elim io.half_copied [
  | none ↦ disk
  | some left ↦ insert_or_assign final left disk
]

-- The first half of `finalize_received_file`: the temporary file becomes the final one. The Boolean
-- says whether it did; a copy is tried where the renaming fails.
unfoldable pub create_final : Io → Str → Str → Map Str Str → Map Str Str × Bool
create_final io temp final disk = elim (find temp disk) [
  | none ↦ (remove_file io final disk, false)
  | some content ↦
      if io.renamed
      then (insert_or_assign final content (erase temp disk), true)
      else if io.copied
      then (remove_file io temp (insert_or_assign final content (remove_file io final disk)), true)
      else (after_failed_copy io final (remove_file io final disk), false)
]

-- `Hashing::CalculateSHA256`: the empty text for a file that cannot be opened or read.
abbrev pub hash_of_file : Io → (Str → Str) → Option Str → Str
hash_of_file io sha256 none = []
hash_of_file io sha256 (some content) = if io.hashed then sha256 content else []

-- The second half: the hash of the new file is compared with the expected one.
unfoldable pub verify_final : Io → (Str → Str) → Str → Str → Str → Str → Transfer → Transfer
verify_final io sha256 final path peer_id expected_hash t =
    let new_hash = hash_of_file io sha256 (find final t.disk) in
    let note : Completed = record { peer_id = peer_id; path = path; hash = new_hash } in
    if nat_eq (length peer_id) 0
    then t
    else if nat_eq (length expected_hash) 0 || str_eq new_hash expected_hash
    then record t { completed = t.completed ++ note ∷ [] }
    else record t { disk = remove_file io final t.disk }

unfoldable pub finalize_received_file :
    Io → (Str → Str) → Str → Str → Str → ReceivingFile → Transfer → Transfer
unfolding create_final verify_final
finalize_received_file io sha256 root path peer_id rf t =
    let (disk, final_created) = create_final io rf.temp_path (full_path root path) t.disk in
    let moved = record t { disk = disk } in
    let checked =
      if final_created
      then verify_final io sha256 (full_path root path) path peer_id rf.expected_hash moved
      else moved in
    record (fail_task path checked) { tasks = erase path t.tasks }
