-- ===== src/Sync/TransferManager/Kept.antt =====
-- The end of a download and the entry that a chunk joins, and the entries of the other files.
use veritas_sync.Base.{
  ℕ, ◌^◌, ◌<◌, ◌≡◌, refl, sym, subst, inl, inr, ◌||◌, Str, str_key, nat_key, nat_eq, str_eq, length,
  Bool-cases, All,
}
use veritas_sync.Base.Map.{find, insert_or_assign, erase}
use veritas_sync.Sync.TransferManager.State.{ReceivingFile, Transfer, Io, full_path, temp_path_of}
use veritas_sync.Sync.TransferManager.Entry.{join_task}
use veritas_sync.Sync.TransferManager.Finalize.{
  create_final, hash_of_file, verify_final, finalize_received_file,
}
use veritas_sync.Sync.TransferManager.Invariant.{
  IsConsistent, AllConsistent, erase-All, match_total-IsConsistent,
}

-- An entry of the number of chunks that a header names.
abbrev pub Fits : ℕ → ReceivingFile → Type 0
Fits total rf = IsConsistent rf × (rf.total_chunks ≡ total)

verify_final-receiving_files :
    (io : Io) (sha256 : Str → Str) (final path peer_id expected_hash : Str) (t : Transfer)
    → (verify_final io sha256 final path peer_id expected_hash t).receiving_files
      ≡ t.receiving_files
unfolding verify_final
verify_final-receiving_files io sha256 final path peer_id expected_hash t =
    elim (Bool-cases (nat_eq (length peer_id) 0)) [
      | inl e ↦ rw e refl
      | inr e ↦
          elim (Bool-cases (
            nat_eq (length expected_hash) 0
            || str_eq (hash_of_file io sha256 (find final t.disk)) expected_hash)) [
              | inl p ↦ rw (e, p) refl
              | inr p ↦ rw (e, p) refl
            ]
    ]

finalize_received_file-receiving_files :
    (io : Io) (sha256 : Str → Str) (root path peer_id : Str) (rf : ReceivingFile) (t : Transfer)
    → (finalize_received_file io sha256 root path peer_id rf t).receiving_files
      ≡ erase path t.receiving_files
unfolding finalize_received_file
finalize_received_file-receiving_files io sha256 root path peer_id rf t =
    elim (Bool-cases (create_final io rf.temp_path (full_path root path) t.disk).1) [
      | inl e ↦
          rw
            (
              e,
              verify_final-receiving_files io sha256 (full_path root path) path peer_id
                  rf.expected_hash
                  (record t {
                    disk = (create_final io rf.temp_path (full_path root path) t.disk).0;
                  }),
            )
            refl
      | inr e ↦ rw e refl
    ]

pub finalize_received_file-AllConsistent :
    (io : Io) (sha256 : Str → Str) (root path peer_id : Str) (rf : ReceivingFile) (t : Transfer)
    → AllConsistent t
    → AllConsistent (finalize_received_file io sha256 root path peer_id rf t)
finalize_received_file-AllConsistent io sha256 root path peer_id rf t all =
    subst (λ files. All (λ (p, f). IsConsistent f) files)
      (sym (finalize_received_file-receiving_files io sha256 root path peer_id rf t))
      (erase-All IsConsistent path t.receiving_files all)

pub join_task-Fits :
    (io : Io) (root path : Str) (total : ℕ) (peer_id : Str) (rf : ReceivingFile) (t : Transfer)
    → total < 2 ^ 32
    → IsConsistent rf
    → (joined : ReceivingFile) × Fits total joined
      × ((join_task io root path total peer_id rf t).0.receiving_files
          ≡ insert_or_assign path joined t.receiving_files)
unfolding join_task
join_task-Fits io root path total peer_id rf t l h =
    let (k, e) =
      match_total-IsConsistent io (temp_path_of root path) total (record rf { peer_id = peer_id })
        t.disk l
        (record { one_bit_each = h.one_bit_each; count_exact = h.count_exact; fits = h.fits }) in
    (
      _,
      (record { one_bit_each = k.one_bit_each; count_exact = k.count_exact; fits = k.fits }, e),
      refl,
    )
