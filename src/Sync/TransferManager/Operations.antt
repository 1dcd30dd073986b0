-- ===== src/Sync/TransferManager/Operations.antt =====
-- The operations on the files that are received, as steps.
use veritas_sync.Base.{
  ℕ, zero, suc, ◌+◌, ◌-◌, ◌/◌, ◌^◌, ◌<◌, ◌≡◌, refl, subst, ◌≢◌, inl, inr, Bool, true, false, not,
  ◌&&◌, List, [], ◌∷◌, Option, none, some, arith, Str, str_key, nat_key, nat_eq, str_eq, ltb, leb,
  if◌then◌else◌, length, Bool-cases, Option-cases, All,
}
use veritas_sync.Base.Map.{Map, find, erase}
use veritas_sync.Sync.TransferManager.State.{
  ReceivingFile, DownloadTaskRecord, Transfer, Io, count_true,
}
use veritas_sync.Sync.TransferManager.Packet.{Snappy, parse_chunk_payload}
use veritas_sync.Sync.TransferManager.{handle_chunk}
use veritas_sync.Sync.TransferManager.Bitmap.{read_bits, deserialize_bitmap}
use veritas_sync.Sync.TransferManager.Resume.{
  ResumeInfo, check_entry, check_resume_eligibility, placeholder, register_expected_metadata,
  release_file, cancel_receives_for_peer, cancel_sends_for_peer, age_file, cleanup_stale_buffers,
  persist_download_state, restored_file, load_tasks, load_download_state,
}
use veritas_sync.Sync.TransferManager.Invariant.{
  IsConsistent, AllConsistent, insert-All, erase-All, find-All, change_files-All,
}
use veritas_sync.Sync.TransferManager.Consistency.{receive_chunk-AllConsistent}

-- The operations on the files that are received, each with whatever the file system answers.
module _ (S : Snappy) (weakly_canonical : Str → Option Str) (size : ℕ) (sha256 : Str → Str)
    (root : Str) where
  pub data Step : Transfer → Transfer → Type 0 where
    chunk :
        {t : Transfer} (io : Io) (now : ℕ) (peer_id payload : Str)
        → Step t (handle_chunk size sha256 S weakly_canonical io now root peer_id payload t)
    register :
        {t : Transfer} (now : ℕ) (path peer_id hash : Str) (file_size : ℕ)
        → Step t (register_expected_metadata now path peer_id hash file_size t)
    resume :
        {t : Transfer} (io : Io) (path remote_hash : Str) (remote_size : ℕ)
        → Step t (check_resume_eligibility io path remote_hash remote_size t).1
    disconnect : {t : Transfer} (peer_id : Str) → Step t (cancel_receives_for_peer peer_id t)
    stop_sends : {t : Transfer} (peer_id : Str) → Step t (cancel_sends_for_peer peer_id t)
    tidy : {t : Transfer} (timeout now : ℕ) → Step t (cleanup_stale_buffers timeout now t)

  pub data Reachable (start : Transfer) : Transfer → Type 0 where
    here : Reachable start start
    after : {t t' : Transfer} → Reachable start t → Step t t' → Reachable start t'

register_expected_metadata-AllConsistent :
    (now : ℕ) (path peer_id hash : Str) (file_size : ℕ) (t : Transfer)
    → AllConsistent t
    → AllConsistent (register_expected_metadata now path peer_id hash file_size t)
unfolding register_expected_metadata count_true
register_expected_metadata-AllConsistent now path peer_id hash file_size t all =
    elim (Option-cases (find path t.receiving_files)) [
      | inl e ↦
          rw (e, register_expected_metadata)
            (insert-All IsConsistent path (placeholder now peer_id hash file_size) t.receiving_files
              (record { one_bit_each = refl; count_exact = refl; fits = omega arith }) all)
      | inr (rf, e) ↦ elim (Bool-cases (ltb 0 rf.received_chunks)) [
        | inl p ↦ rw (e, p, register_expected_metadata) all
        | inr p ↦
            let h = find-All IsConsistent path rf t.receiving_files e all in
            rw (e, p, register_expected_metadata)
              (insert-All IsConsistent path
                (record rf { peer_id = peer_id; expected_hash = hash; expected_size = file_size })
                t.receiving_files
                (record {
                  one_bit_each = h.one_bit_each;
                  count_exact = h.count_exact;
                  fits = h.fits;
                })
                all)
      ]
    ]

either-AllConsistent :
    (b : Bool) (given_up kept : Option ResumeInfo × Transfer)
    → AllConsistent given_up.1
    → AllConsistent kept.1
    → AllConsistent (if◌then◌else◌ {A = Option ResumeInfo × Transfer} b given_up kept).1
either-AllConsistent true given_up kept h k = h
either-AllConsistent false given_up kept h k = k

-- Only whole entries are removed.
check_entry-AllConsistent :
    (io : Io) (path remote_hash : Str) (remote_size : ℕ) (rf : ReceivingFile) (t : Transfer)
    → AllConsistent t
    → AllConsistent (check_entry io path remote_hash remote_size rf t).1
unfolding check_entry
check_entry-AllConsistent io path remote_hash remote_size rf t all =
    elim (Bool-cases (ltb 0 rf.total_chunks && leb rf.total_chunks rf.received_chunks)) [
      | inl e ↦ rw e all
      | inr e ↦ elim (Bool-cases (nat_eq rf.received_chunks 0)) [
        | inl p ↦ rw (e, p) all
        | inr p ↦ elim (Option-cases (find rf.temp_path t.disk)) [
          | inl q ↦ rw (e, p, q, check_entry) (erase-All IsConsistent path t.receiving_files all)
          | inr (content, q) ↦
              rw (e, p, q, check_entry)
                (either-AllConsistent _ _ _ (erase-All IsConsistent path t.receiving_files all) all)
        ]
      ]
    ]

check_resume_eligibility-AllConsistent :
    (io : Io) (path remote_hash : Str) (remote_size : ℕ) (t : Transfer)
    → AllConsistent t
    → AllConsistent (check_resume_eligibility io path remote_hash remote_size t).1
unfolding check_resume_eligibility
check_resume_eligibility-AllConsistent io path remote_hash remote_size t all =
    elim (Option-cases (find path t.receiving_files)) [
      | inl e ↦ rw (e, check_resume_eligibility) all
      | inr (rf, e) ↦
          rw (e, check_resume_eligibility)
            (check_entry-AllConsistent io path remote_hash remote_size rf t all)
    ]

some_file : {a b : ReceivingFile} → some a ≡ some b → a ≡ b
some_file q = cc

release_file-IsConsistent :
    (peer_id : Str) (rf rf' : ReceivingFile)
    → IsConsistent rf
    → release_file peer_id rf ≡ some rf'
    → IsConsistent rf'
release_file-IsConsistent peer_id rf rf' h e =
    elim (Bool-cases (str_eq rf.peer_id peer_id && not rf.busy)) [
      | inl p ↦
          subst IsConsistent (some_file (rw p at e))
            (record { one_bit_each = h.one_bit_each; count_exact = h.count_exact; fits = h.fits })
      | inr p ↦ subst IsConsistent (some_file (rw p at e)) h
    ]

age_file-IsConsistent :
    (timeout now : ℕ) (rf rf' : ReceivingFile)
    → IsConsistent rf
    → age_file timeout now rf ≡ some rf'
    → IsConsistent rf'
age_file-IsConsistent timeout now rf rf' h e =
    let stale = ltb timeout ((now - rf.last_active) / 60000) in
    elim (Bool-cases rf.busy) [
      | inl p ↦ subst IsConsistent (some_file (rw p at e)) kept
      | inr p ↦ elim (Bool-cases (nat_eq rf.total_chunks 0 && stale)) [
        | inl q ↦ absurd (no_file (rw (p, q) at e))
        | inr q ↦ elim (Bool-cases stale) [
          | inl r ↦ subst IsConsistent (some_file (rw (p, q, r) at e)) kept
          | inr r ↦ subst IsConsistent (some_file (rw (p, q, r) at e)) kept
        ]
      ]
    ]
  where
    no_file : ◌≢◌ {A = Option ReceivingFile} none (some rf')
    no_file q = cc

    kept : {busy is_open : Bool} → IsConsistent (record rf { busy = busy; is_open = is_open })
    kept = record { one_bit_each = h.one_bit_each; count_exact = h.count_exact; fits = h.fits }

length-read_bits :
    (stray : ℕ → Bool) (packed : List ℕ) (i count : ℕ)
    → length (read_bits stray packed i count) ≡ count
unfolding read_bits
length-read_bits stray packed i zero = refl
length-read_bits stray packed i (suc count) =
    omega (arith, length-read_bits stray packed (i + 1) count)

load_tasks-AllConsistent :
    (stray : Str → ℕ → Bool) (now : ℕ) (tasks : Map Str DownloadTaskRecord) (t : Transfer)
    → All (λ (path, task). task.total_chunks < 2 ^ 32) tasks
    → AllConsistent t
    → AllConsistent (load_tasks stray now tasks t)
unfolding load_tasks deserialize_bitmap
load_tasks-AllConsistent stray now [] t small all = all
load_tasks-AllConsistent stray now ((path, task) ∷ tasks) t (fits, small) all =
    elim (Option-cases (find task.temp_path t.disk)) [
      | inl e ↦
          rw (e, load_tasks)
            (load_tasks-AllConsistent stray now tasks (record t { tasks = erase path t.tasks })
              small all)
      | inr (content, e) ↦
          rw (e, load_tasks)
            (load_tasks-AllConsistent stray now tasks _ small (
              insert-All IsConsistent path (restored_file (stray path) now task) t.receiving_files
                (record {
                  one_bit_each = length-read_bits (stray path) task.bitmap_data 0 task.total_chunks;
                  count_exact = refl;
                  fits = fits;
                })
                all))
    ]

-- What is restored from the database at the start has one bit for each chunk and an exact count, if
-- every row has a number of chunks of 32 bits.
load_download_state-AllConsistent :
    (stray : Str → ℕ → Bool) (now : ℕ) (t : Transfer)
    → All (λ (path, task). task.total_chunks < 2 ^ 32) t.tasks
    → AllConsistent t
    → AllConsistent (load_download_state stray now t)
unfolding load_download_state
load_download_state-AllConsistent stray now t small all =
    load_tasks-AllConsistent stray now t.tasks t small all

module _ (S : Snappy) (weakly_canonical : Str → Option Str) (size : ℕ) (sha256 : Str → Str)
    (root : Str) where
  Step-AllConsistent :
      (t t' : Transfer)
      → Step S weakly_canonical size sha256 root t t'
      → AllConsistent t
      → AllConsistent t'
  unfolding handle_chunk cancel_receives_for_peer cancel_sends_for_peer cleanup_stale_buffers
      persist_download_state
  Step-AllConsistent t t' (chunk io now peer_id payload) all =
      receive_chunk-AllConsistent size sha256 io root peer_id (parse_chunk_payload S payload)
        weakly_canonical now t all
  Step-AllConsistent t t' (register now path peer_id hash file_size) all =
      register_expected_metadata-AllConsistent now path peer_id hash file_size t all
  Step-AllConsistent t t' (resume io path remote_hash remote_size) all =
      check_resume_eligibility-AllConsistent io path remote_hash remote_size t all
  Step-AllConsistent t t' (disconnect peer_id) all =
      change_files-All IsConsistent (release_file peer_id) t.receiving_files
        (release_file-IsConsistent peer_id) all
  Step-AllConsistent t t' (stop_sends peer_id) all = all
  Step-AllConsistent t t' (tidy timeout now) all =
      change_files-All IsConsistent (age_file timeout now) t.receiving_files
        (age_file-IsConsistent timeout now) all

  -- The files that are received begin as the database restores them, where each row has a number of
  -- chunks of 32 bits and no file was known before, whatever bits are read behind a stored bitmap
  -- that is too short. However many chunks, registrations, requests to
  -- resume, lost peers and clean-ups follow, with whatever answers of the file system, every entry
  -- has one bit for each chunk, and its count is the number of the bits that are set.
  pub reachable-AllConsistent :
      (stray : Str → ℕ → Bool) (now : ℕ) (start t : Transfer)
      → start.receiving_files ≡ []
      → All (λ (path, task). task.total_chunks < 2 ^ 32) start.tasks
      → Reachable S weakly_canonical size sha256 root (load_download_state stray now start) t
      → AllConsistent t
  reachable-AllConsistent stray now start t empty small here =
      load_download_state-AllConsistent stray now start small (rw empty tt)
  reachable-AllConsistent stray now start t empty small (after {t = before} r s) =
      Step-AllConsistent before t s (reachable-AllConsistent stray now start before empty small r)
