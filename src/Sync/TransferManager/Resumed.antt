-- ===== src/Sync/TransferManager/Resumed.antt =====
-- An interrupted download that is resumed.
use veritas_sync.Base.{
  ℕ, zero, suc, ◌+◌, ◌-◌, ◌/◌, ◌≤◌, ◌<◌, ◌≡◌, refl, sym, ◌∙◌, subst, ◌≢◌, ◌⊎◌, inl, inr, true, List,
  [], ◌∷◌, Option, none, some, arith, Str, str_key, nat_key, ltb, length, Bool-cases, All, In,
}
use veritas_sync.Base.Map.{find}
use veritas_sync.Sync.TransferManager.State.{ReceivingFile, Transfer, temp_path_of}
use veritas_sync.Common.PathUtils.{is_path_safe}
use veritas_sync.Sync.TransferManager.Progress.{HasChunks, Tracks}
use native.Mathlib.Decide.{ℕ_discrete}
use veritas_sync.Sync.TransferManager.Packet.{Snappy, IsLossless}
use veritas_sync.Sync.TransferManager.Upload.{
  UploadContext, UploadRequest, queue_upload, actual_start_chunk, chunk_count, run_upload,
}
use veritas_sync.Sync.TransferManager.Sending.{chunk_packets}
use veritas_sync.Sync.TransferManager.Complete.{IsUploaded, run_upload_complete}
use veritas_sync.Sync.TransferManager.Arrival.{IsTransferable}
use veritas_sync.Sync.TransferManager.Completion.{IsDone}
use veritas_sync.Sync.TransferManager.Reassembly.{holding}
use veritas_sync.Sync.TransferManager.Delivery.{receive_packets, reassembles_from}
use veritas_sync.Sync.TransferManager.Stamps.{
  stamped, arrivals_of, stamped-packets_of, arrivals_below, arrivals_at_most, arrivals_all,
}
use veritas_sync.Sync.TransferManager.Transmission.{chunk_count-covers, started_at}

-- The chunks before one, without a gap.
unfoldable pub before : ℕ → List ℕ
before zero = []
before (suc n) = n ∷ before n

before_below : (n k : ℕ) → In k (before n) → k < n
unfolding before
before_below zero k p = absurd p
before_below (suc n) k (inl e) = omega (arith, e)
before_below (suc n) k (inr p) = omega (arith, before_below n k p)

before_all : (n k : ℕ) → k < n → In k (before n)
unfolding before
before_all zero k l = absurd (omega (arith, l))
before_all (suc n) k l = elim (ℕ_discrete k n) [
  | yes e ↦ inl e
  | no m ↦ inr (before_all n k (ground (arith, l, m)))
]

-- A download of which the chunks before `start` are stored.
pub record IsInterrupted (size : ℕ) (root path file hash : Str) (total start : ℕ) (t : Transfer)
    : Type 0 where
  pub entry : ReceivingFile
  pub content : Str
  pub listed : find path t.receiving_files ≡ some entry
  pub on_disk : find (temp_path_of root path) t.disk ≡ some content
  pub tracked : Tracks total (before start) (temp_path_of root path) hash entry
  pub chunks : HasChunks size file (before start) content

receive_rest :
    (S : Snappy) (weakly_canonical : Str → Option Str) (size : ℕ) (sha256 : Str → Str)
    (root path peer_id file hash : Str) (start m left total : ℕ) (clock : ℕ → ℕ) (threshold : ℕ)
    (t : Transfer)
    → left ≡ suc m
    → total ≡ start + suc m
    → IsLossless S
    → IsTransferable weakly_canonical size root path file total
    → 1 ≤ length peer_id
    → (hash ≡ []) ⊎ (sha256 file ≡ hash)
    → IsInterrupted size root path file hash total start t
    → IsDone root path peer_id file (sha256 file) (
        receive_packets S weakly_canonical size sha256 root peer_id
          (stamped clock start (chunk_packets S size threshold path total file start left))
          t)
receive_rest S weakly_canonical size sha256 root path peer_id file hash start m left total clock
      threshold t e e' s f known good u =
    let last = start + m in
    rw (e, stamped-packets_of S size path file total clock threshold start last m refl)
      (reassembles_from S weakly_canonical size sha256 root path peer_id file hash total
        (before start) (arrivals_of clock start m) (clock last) last t s f known good
        (omega (arith, e')) (arrivals_below clock start m total (omega (arith, e')))
        (λ p. let h = arrivals_at_most clock start m last p in omega (arith, h))
        (λ p. let h = before_below start last p in omega (arith, h))
        (λ k l. elim (ℕ_discrete k last) [
          | yes q ↦ inl q
          | no n ↦ elim (Bool-cases (ltb k start)) [
            | inl b ↦ inr (inl (before_all start k (ground (arith, b))))
            | inr b ↦ inr (inr (arrivals_all clock start m k (ground (arith, b)) (further k n l)))
          ]
        ])
        (holding (record {
          entry = u.entry;
          content = u.content;
          listed = u.listed;
          on_disk = u.on_disk;
          tracked = u.tracked;
          chunks = u.chunks;
        })))
  where
    further : (k : ℕ) → k ≢ start + m → k < total → k < start + m
    further k n l = ground (arith, n, l, e')

-- A download that was interrupted with its first chunks stored is finished by an upload that resumes
-- behind them. If the sender accepts that chunk as the start, the file opens at every run and the
-- connection holds, the calls of the file system succeed, and there are more runs than missing
-- chunks, then the sender records the file as sent, if it had a hash, and the receiver has the whole
-- file in its place, byte for byte, with nothing of the download left and its hash recorded. It does
-- not matter whether the stream of the temporary file is still open. The file has at most 8388608
-- chunks, of at least one byte each as configured, and more than were stored; it has the hash that
-- the receiver expects, if it expects one; Snappy restores what it compressed, and never compresses
-- to nothing; the path is safe and has 1 to 4096 bytes; the sender has a name.
pub run_upload_resumed :
    (S : Snappy) (weakly_canonical : Str → Option Str) (size : ℕ) (sha256 : Str → Str)
    (max_retries threshold : ℕ) (root receiver_id sender_id file file_hash hash : Str) (start : ℕ)
    (req : UploadRequest) (ctx : UploadContext) (attempts : List (Option Str × (ℕ → Option ℕ)))
    (clock : ℕ → ℕ) (sender receiver : Transfer)
    → IsLossless S
    → 0 < size
    → (length file + size - 1) / size ≤ 8388608
    → is_path_safe weakly_canonical root req.path ≡ true
    → 1 ≤ length req.path
    → length req.path ≤ 4096
    → 1 ≤ length sender_id
    → (hash ≡ []) ⊎ (sha256 file ≡ hash)
    → actual_start_chunk req file_hash (length file) ≡ start
    → start < chunk_count size file
    → (queue_upload receiver_id req file_hash (some file) sender).0 ≡ some ctx
    → All (λ (opened, answer). (opened ≡ some file) × ((i : ℕ) → answer i ≢ none)) attempts
    → chunk_count size file - start < length attempts
    → IsInterrupted size root req.path file hash (chunk_count size file) start receiver
    → let queued = (queue_upload receiver_id req file_hash (some file) sender).1 in
      let (packets, again, after) = run_upload S size threshold max_retries attempts ctx queued in
      IsUploaded ctx after
      × IsDone root req.path sender_id file (sha256 file) (
          receive_packets S weakly_canonical size sha256 root sender_id
            (stamped clock start packets)
            receiver)
run_upload_resumed S weakly_canonical size sha256 max_retries threshold root receiver_id sender_id
      file file_hash hash start req ctx attempts clock sender receiver s pos few safe named short
      known good accepted behind started all runs u =
    let (p, there, n, _, _) = started_at receiver_id req file_hash file sender ctx started in
    let c : ctx.current_chunk ≡ start = there ∙ accepted in
    let (one, small, covers) = chunk_count-covers size file pos few in
    let (sent, _, uploaded) =
      run_upload_complete S size threshold max_retries (chunk_count size file) file attempts ctx
        (queue_upload receiver_id req file_hash (some file) sender).1 (omega (arith, small))
        (record { counted_or_new = inl n; not_past = rw c (omega (arith, behind)) }) refl all
        (rw c runs) in
    let packets : (run_upload S size threshold max_retries attempts ctx
          (queue_upload receiver_id req file_hash (some file) sender).1).0
        ≡ chunk_packets S size threshold req.path (chunk_count size file) file start
            (chunk_count size file - start) =
      sent ∙ rw (p, c) refl in
    let transferable : IsTransferable weakly_canonical size root req.path file
        (chunk_count size file) =
      record {
        safe = safe;
        some_path = named;
        short_path = short;
        some_chunk = one;
        few_chunks = small;
        some_bytes = pos;
        covered = covers;
      } in
    (
      uploaded,
      subst
          (λ r. IsDone root req.path sender_id file (sha256 file) (
            receive_packets S weakly_canonical size sha256 root sender_id (stamped clock start r)
              receiver))
          (sym packets)
          (receive_rest S weakly_canonical size sha256 root req.path sender_id file hash start
            (chunk_count size file - start - 1) (chunk_count size file - start)
            (chunk_count size file) clock threshold receiver (omega (arith, behind))
            (omega (arith, behind)) s transferable known good u),
    )
