-- ===== src/Sync/TransferManager/Upload.antt =====
-- src/sync/TransferManager.cpp: a file is sent, chunk by chunk. A run of the upload loop is one step;
-- the time that it waits before the next is not modelled.
use veritas_sync.Base.{
  ℕ, zero, suc, ◌+◌, ◌-◌, ◌/◌, ◌%◌, ◌^◌, not, ◌&&◌, ◌||◌, List, [], ◌∷◌, ◌++◌, Option, none, some,
  Str, str_key, nat_key, nat_eq, str_eq, ltb, if◌then◌else◌, length,
}
use veritas_sync.Base.Map.{find, insert_or_assign, erase}
use veritas_sync.Sync.TransferManager.State.{SendingFile, Transfer, counted}
use veritas_sync.Common.PathUtils.{is_path_safe}
use veritas_sync.Sync.TransferManager.State.{make_sending_key}
use veritas_sync.Sync.TransferManager.Packet.{Snappy, chunk_packet, max_allowed_relative_path_len}
use veritas_sync.Sync.TransferManager.Slices.{chunk_of}

pub record UploadContext : Type 0 where
  pub peer_id : Str
  pub path : Str
  pub file_hash : Str
  pub total_chunks : ℕ
  pub current_chunk : ℕ
  pub open_retry_count : ℕ

pub record UploadRequest : Type 0 where
  pub path : Str
  pub start_chunk : ℕ
  pub expected_hash : Str
  pub expected_size : ℕ

-- The tests on a request after its JSON is read.
unfoldable pub validate_upload_request :
    (Str → Option Str) → Str → UploadRequest → Option UploadRequest
validate_upload_request weakly_canonical root req =
    if nat_eq (length req.path) 0
    then none
    else if ltb max_allowed_relative_path_len (length req.path)
    then none
    else if not (is_path_safe weakly_canonical root req.path)
    then none
    else some req

-- Where to begin: a request to resume is taken if the file is still the one it names.
unfoldable pub actual_start_chunk : UploadRequest → Str → ℕ → ℕ
actual_start_chunk req current_hash current_size =
    let hash_match = nat_eq (length req.expected_hash) 0 || str_eq current_hash req.expected_hash in
    let size_match = nat_eq req.expected_size 0 || nat_eq current_size req.expected_size in
    if ltb 0 req.start_chunk && hash_match && size_match then req.start_chunk else 0

abbrev pub end_upload : UploadContext → Transfer → Transfer
end_upload ctx t = record t {
  sending_files = erase (make_sending_key ctx.peer_id ctx.path) t.sending_files;
  session_done = counted t.session_done;
}

-- `queue_upload` up to the first run of the loop, for a request that is valid. The file is as it is
-- on the disk, `none` if it is not there.
unfoldable pub queue_upload :
    Str → UploadRequest → Str → Option Str → Transfer → Option UploadContext × Transfer
unfolding actual_start_chunk
queue_upload peer_id req file_hash file t =
    let key = make_sending_key peer_id req.path in
    let queued = record t {
      sending_files =
          insert_or_assign key (record { total_chunks = 0; sent_chunks = 0 }) t.sending_files;
      session_total = counted t.session_total;
    } in
    let context : ℕ → UploadContext = λ start. record {
      peer_id = peer_id;
      path = req.path;
      file_hash = file_hash;
      total_chunks = 0;
      current_chunk = start;
      open_retry_count = 0;
    } in
    if nat_eq (length peer_id) 0 then (none, t) else elim file [
      | none ↦ (none, end_upload (context 0) queued)
      | some content ↦ (some (context (actual_start_chunk req file_hash (length content))), queued)
    ]

-- The number of chunks of a file, cut to 32 bits.
unfoldable pub chunk_count : ℕ → Str → ℕ
chunk_count size content =
    if ltb 0 (length content) then (length content + size - 1) / size % 2 ^ 32 else 1

-- An entry in `m_sending_files`, if it is there, is updated.
unfoldable pub update_sending : Str → (SendingFile → SendingFile) → Transfer → Transfer
update_sending key change t = elim (find key t.sending_files) [
  | none ↦ t
  | some entry ↦ record t { sending_files = insert_or_assign key (change entry) t.sending_files }
]

-- How a run of the loop ends: the chunks are sent, the connection is lost, or the queue is long.
pub data Flow : Type 0 where
  all_sent disconnected congested : Flow

-- What follows the loop; a context that is returned runs again later.
unfoldable pub finish_upload : UploadContext × Transfer × Flow → Option UploadContext × Transfer
finish_upload (ctx, t, all_sent) = (
  none,
  end_upload ctx (
      if nat_eq (length ctx.file_hash) 0 then t else record t {
        sent =
            t.sent ++ record { peer_id = ctx.peer_id; path = ctx.path; hash = ctx.file_hash } ∷ [];
      }),
)
finish_upload (ctx, t, disconnected) = (none, end_upload ctx t)
finish_upload (ctx, t, congested) = (some ctx, t)

module _ (S : Snappy) (size congestion_threshold : ℕ) where
  -- The `while` loop, of which `left` turns are left. The send callback answers each packet with
  -- what is pending, `none` being a negative number.
  unfoldable pub send_chunks :
      ℕ
      → (ℕ → Option ℕ)
      → Str
      → UploadContext
      → Transfer
      → List Str × UploadContext × Transfer × Flow
  unfolding chunk_packet chunk_of update_sending
  send_chunks zero answer content ctx t = ([], ctx, t, all_sent)
  send_chunks (suc left) answer content ctx t =
      let packet =
        chunk_packet S ctx.path ctx.current_chunk ctx.total_chunks
          (chunk_of size content ctx.current_chunk) in
      let next = record ctx { current_chunk = (ctx.current_chunk + 1) % 2 ^ 32 } in
      let shown =
        update_sending (make_sending_key ctx.peer_id ctx.path)
          (λ entry. record entry { sent_chunks = (ctx.current_chunk + 1) % 2 ^ 32 }) t in
      let (packets, ended, last, flow) = send_chunks left answer content next shown in
      elim (answer ctx.current_chunk) [
        | none ↦ (packet ∷ [], ctx, t, disconnected)
        | some pending ↦
            if ltb congestion_threshold pending
            then (packet ∷ [], next, shown, congested)
            else (packet ∷ packets, ended, last, flow)
      ]

  -- The file is open from here on.
  unfoldable pub resume_upload :
      (ℕ → Option ℕ) → Str → UploadContext → Transfer → List Str × Option UploadContext × Transfer
  unfolding chunk_count update_sending send_chunks finish_upload
  resume_upload answer content ctx t =
      let first = nat_eq ctx.total_chunks 0 in
      let total = if first then chunk_count size content else ctx.total_chunks in
      let opened = record ctx { open_retry_count = 0; total_chunks = total } in
      let shown =
        if first
        then update_sending (make_sending_key ctx.peer_id ctx.path)
            (λ entry. record entry { total_chunks = total }) t
        else t in
      let (packets, ended, last, flow) =
        send_chunks (total - ctx.current_chunk) answer content opened shown in
      let (next, after) = finish_upload (ended, last, flow) in (packets, next, after)

  -- One run of `upload_loop`. The file is closed when it begins, and `none` is a file that does not
  -- open.
  unfoldable pub upload_loop :
      ℕ
      → Option Str
      → (ℕ → Option ℕ)
      → UploadContext
      → Transfer
      → List Str × Option UploadContext × Transfer
  unfolding resume_upload
  upload_loop max_retries none answer ctx t =
      if ltb ctx.open_retry_count max_retries
      then ([], some (record ctx { open_retry_count = ctx.open_retry_count + 1 }), t)
      else ([], none, end_upload ctx t)
  upload_loop max_retries (some content) answer ctx t = resume_upload answer content ctx t

  -- The runs of one upload: what opening the file gives in each, and what the callback answers.
  unfoldable pub run_upload :
      ℕ
      → List (Option Str × (ℕ → Option ℕ))
      → UploadContext
      → Transfer
      → List Str × Option UploadContext × Transfer
  unfolding upload_loop
  run_upload max_retries [] ctx t = ([], some ctx, t)
  run_upload max_retries ((opened, answer) ∷ attempts) ctx t =
      let (packets, next, after) = upload_loop max_retries opened answer ctx t in
      elim next [
        | none ↦ (packets, none, after)
        | some again ↦
            let (more, end, last) = run_upload max_retries attempts again after in
            (packets ++ more, end, last)
      ]
