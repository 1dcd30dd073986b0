-- ===== src/Sync/TransferManager/Transmission.antt =====
-- An upload and the download of its packets on the other side.
use veritas_sync.Base.{
  ℕ, zero, suc, ◌+◌, ◌-◌, ◌*◌, ◌/◌, ◌%◌, ◌^◌, ◌≤◌, ◌<◌, ◌≡◌, refl, sym, ap, ◌∙◌, subst, ◌≢◌, ◌⊎◌,
  inl, inr, true, List, [], ◌∷◌, Option, none, some, arith, Str, str_key, nat_key, nat_eq, ltb,
  length, Bool-cases, All,
}
use veritas_sync.Sync.TransferManager.State.{Transfer}
use veritas_sync.Common.PathUtils.{is_path_safe}
use native.Mathlib.Decide.{ℕ_discrete}
use native.Mathlib.Nat.{mod-lt, div-add-mod'}
use veritas_sync.Sync.TransferManager.Packet.{Snappy, IsLossless}
use veritas_sync.Sync.TransferManager.Upload.{
  UploadContext, UploadRequest, queue_upload, actual_start_chunk, chunk_count, run_upload,
}
use veritas_sync.Sync.TransferManager.Sending.{chunk_packets}
use veritas_sync.Sync.TransferManager.Complete.{IsUploaded, run_upload_complete}
use veritas_sync.Sync.TransferManager.Arrival.{IsTransferable}
use veritas_sync.Sync.TransferManager.Joining.{Fresh}
use veritas_sync.Sync.TransferManager.Completion.{IsDone}
use veritas_sync.Sync.TransferManager.Delivery.{receive_packets, reassembles-receive_packets}
use veritas_sync.Sync.TransferManager.Stamps.{
  stamped, arrivals_of, stamped-packets_of, arrivals_below, arrivals_at_most, arrivals_all,
}

-- The chunks of a file that is not too long cover it.
pub chunk_count-covers :
    (size : ℕ) (file : Str)
    → 0 < size
    → (length file + size - 1) / size ≤ 8388608
    → (1 ≤ chunk_count size file)
      × (chunk_count size file ≤ 8388608)
      × (length file ≤ chunk_count size file * size)
unfolding chunk_count
chunk_count-covers size [] pos few = (omega arith, omega arith, omega arith)
chunk_count-covers size (x ∷ file) pos few =
    let q : ℕ = (length (x ∷ file) + size - 1) / size in
    let whole : q * size + (length (x ∷ file) + size - 1) % size ≡ length (x ∷ file) + size - 1 =
      div-add-mod' (length (x ∷ file) + size - 1) size in
    let covers : length (x ∷ file) ≤ q * size =
      omega (arith, whole, mod-lt (length (x ∷ file) + size - 1) pos, pos) in
    let same : q % 2 ^ 32 ≡ q = omega (arith, few) in
    let some_bytes : ltb 0 (length (x ∷ file)) ≡ true = ground arith in
    rw (same, some_bytes) (some_chunk q covers, few, covers)
  where
    some_chunk : (q : ℕ) → length (x ∷ file) ≤ q * size → 1 ≤ q
    some_chunk zero c = absurd (omega (arith, c))
    some_chunk (suc q) c = omega arith

pub started_at :
    (peer_id : Str) (req : UploadRequest) (file_hash file : Str) (t : Transfer)
    (ctx : UploadContext)
    → (queue_upload peer_id req file_hash (some file) t).0 ≡ some ctx
    → (ctx.path ≡ req.path)
      × (ctx.current_chunk ≡ actual_start_chunk req file_hash (length file))
      × (ctx.total_chunks ≡ 0)
      × (ctx.peer_id ≡ peer_id)
      × (ctx.file_hash ≡ file_hash)
unfolding queue_upload
started_at peer_id req file_hash file t ctx e = elim (Bool-cases (nat_eq (length peer_id) 0)) [
  | inl p ↦ absurd (no_context (rw p at e))
  | inr p ↦ context (rw p at e)
]
  where
    no_context : ◌≢◌ {A = Option UploadContext} none (some ctx)
    no_context q = cc

    context :
        {c : UploadContext}
        → some c ≡ some ctx
        → (ctx.path ≡ c.path)
          × (ctx.current_chunk ≡ c.current_chunk)
          × (ctx.total_chunks ≡ c.total_chunks)
          × (ctx.peer_id ≡ c.peer_id)
          × (ctx.file_hash ≡ c.file_hash)
    context {c} q =
        let same : ctx ≡ c = cc in
        (
          ap (λ x. x.path) same,
          ap (λ x. x.current_chunk) same,
          ap (λ x. x.total_chunks) same,
          ap (λ x. x.peer_id) same,
          ap (λ x. x.file_hash) same,
        )

from_start :
    (req : UploadRequest) (file_hash : Str) (size : ℕ)
    → req.start_chunk ≡ 0
    → actual_start_chunk req file_hash size ≡ 0
unfolding actual_start_chunk
from_start req file_hash size z = rw z refl

-- The packets of all chunks in their order.
receive-chunk_packets :
    (S : Snappy) (weakly_canonical : Str → Option Str) (size : ℕ) (sha256 : Str → Str)
    (root path peer_id file hash : Str) (total : ℕ) (clock : ℕ → ℕ) (threshold : ℕ) (t : Transfer)
    → IsLossless S
    → IsTransferable weakly_canonical size root path file total
    → 1 ≤ length peer_id
    → (hash ≡ []) ⊎ (sha256 file ≡ hash)
    → Fresh root path hash t
    → IsDone root path peer_id file (sha256 file) (
        receive_packets S weakly_canonical size sha256 root peer_id
          (stamped clock 0 (chunk_packets S size threshold path total file 0 total))
          t)
receive-chunk_packets S weakly_canonical size sha256 root path peer_id file hash zero clock
      threshold t s f known good u =
    absurd (omega (arith, f.some_chunk))
receive-chunk_packets S weakly_canonical size sha256 root path peer_id file hash (suc m) clock
      threshold t s f known good u =
    let last_one : m ≡ 0 + m = omega arith in
    rw (stamped-packets_of S size path file (suc m) clock threshold 0 m m last_one) (
      reassembles-receive_packets S weakly_canonical size sha256 root path peer_id file hash (suc m)
        (arrivals_of clock 0 m) (clock m) m t s f known good (omega arith)
        (arrivals_below clock 0 m (suc m) (omega arith))
        (λ p. let h = arrivals_at_most clock 0 m m p in omega (arith, h))
        (λ k l. elim (ℕ_discrete k m) [
          | yes e ↦ inl e
          | no n ↦ inr (arrivals_all clock 0 m k (omega arith) (ground (arith, l, n)))
        ])
        u)

-- One peer uploads a file and the other receives the packets in the order in which they were sent.
-- If the request does not resume, the file opens at every run and the connection holds, the calls of
-- the file system succeed, and there are more runs than chunks, then the sender records the file as
-- sent, if it had a hash, and the receiver has it in its place, byte for byte, with nothing of the
-- download left and its hash recorded. The file has at most 8388608 chunks, of at least one byte
-- each as configured, and the hash that the receiver expects, if it expects one; Snappy restores
-- what it compressed, and never compresses to nothing; the path is safe and has 1 to 4096 bytes; the
-- sender has a name; the receiver knew no more of the download than that hash.
pub run_upload-receive_packets :
    (S : Snappy) (weakly_canonical : Str → Option Str) (size : ℕ) (sha256 : Str → Str)
    (max_retries threshold : ℕ) (root receiver_id sender_id file file_hash hash : Str)
    (req : UploadRequest) (ctx : UploadContext) (attempts : List (Option Str × (ℕ → Option ℕ)))
    (clock : ℕ → ℕ) (sender receiver : Transfer)
    → IsLossless S
    → 0 < size
    → (length file + size - 1) / size ≤ 8388608
    → is_path_safe weakly_canonical root req.path ≡ true
    → 1 ≤ length req.path
    → length req.path ≤ 4096
    → 1 ≤ length sender_id
    → (hash ≡ []) ⊎ (sha256 file ≡ hash)
    → req.start_chunk ≡ 0
    → (queue_upload receiver_id req file_hash (some file) sender).0 ≡ some ctx
    → All (λ (opened, answer). (opened ≡ some file) × ((i : ℕ) → answer i ≢ none)) attempts
    → chunk_count size file < length attempts
    → Fresh root req.path hash receiver
    → let queued = (queue_upload receiver_id req file_hash (some file) sender).1 in
      let (packets, again, after) = run_upload S size threshold max_retries attempts ctx queued in
      IsUploaded ctx after
      × IsDone root req.path sender_id file (sha256 file) (
          receive_packets S weakly_canonical size sha256 root sender_id
            (stamped clock 0 packets)
            receiver)
run_upload-receive_packets S weakly_canonical size sha256 max_retries threshold root receiver_id
      sender_id file file_hash hash req ctx attempts clock sender receiver s pos few safe named
      short known good z started all runs u =
    let (p, started_there, n, _, _) =
      started_at receiver_id req file_hash file sender ctx started in
    let c : ctx.current_chunk ≡ 0 = started_there ∙ from_start req file_hash (length file) z in
    let (one, small, covers) = chunk_count-covers size file pos few in
    let left : chunk_count size file - ctx.current_chunk ≡ chunk_count size file =
      rw c (omega arith) in
    let (sent, _, uploaded) =
      run_upload_complete S size threshold max_retries (chunk_count size file) file attempts ctx
        (queue_upload receiver_id req file_hash (some file) sender).1 (omega (arith, small))
        (record { counted_or_new = inl n; not_past = rw c (omega arith) }) refl all
        (rw left runs) in
    let packets = sent ∙ rw (p, left, c) refl in
    let transferable : IsTransferable weakly_canonical size root req.path file
        (chunk_count size file) =
      record {
        safe = safe;
        some_path = named;
        short_path = short;
        some_chunk = one;
        few_chunks = small;
        some_bytes = pos;
        covered = covers;
      } in
    (
      uploaded,
      subst
          (λ r. IsDone root req.path sender_id file (sha256 file) (
            receive_packets S weakly_canonical size sha256 root sender_id (stamped clock 0 r)
              receiver))
          (sym packets)
          (receive-chunk_packets S weakly_canonical size sha256 root req.path sender_id file hash
            (chunk_count size file) clock threshold receiver s transferable known good u),
    )
