-- ===== src/Sync/TransferManager/Resume.antt =====
-- src/sync/TransferManager.cpp: downloads that were interrupted, in memory and in the database.
use veritas_sync.Base.{
  ℕ, suc, ◌-◌, ◌/◌, Bool, true, false, not, ◌&&◌, ◌||◌, List, [], ◌∷◌, ◌++◌, Option, none, some,
  Str, str_key, nat_key, nat_eq, str_eq, ltb, leb, if◌then◌else◌, length, take, keep_if,
}
use veritas_sync.Base.Map.{Map, keys, find, insert_or_assign, erase}
use veritas_sync.Sync.TransferManager.State.{
  ReceivingFile, DownloadTaskRecord, Transfer, Io, count_true, counted, put_file, remove_file,
}
use veritas_sync.Sync.TransferManager.Bitmap.{serialize_bitmap, deserialize_bitmap}

pub record ResumeInfo : Type 0 where
  pub path : Str
  pub received_chunks : ℕ
  pub total_chunks : ℕ
  pub expected_hash : Str
  pub expected_size : ℕ
  pub temp_path : Str

-- The chunks that are there from the first on, without a gap.
unfoldable pub contiguous : List Bool → ℕ
contiguous [] = 0
contiguous (true ∷ bitmap) = suc (contiguous bitmap)
contiguous (false ∷ bitmap) = 0

abbrev pub resume_info : Str → ReceivingFile → ResumeInfo
resume_info path rf = record {
  path = path;
  received_chunks = contiguous rf.received_bitmap;
  total_chunks = rf.total_chunks;
  expected_hash = rf.expected_hash;
  expected_size = rf.expected_size;
  temp_path = rf.temp_path;
}

-- Where the file has changed, the download is given up.
abbrev pub drop_download : Io → Str → ReceivingFile → Transfer → Transfer
drop_download io path rf t = record t {
  disk = remove_file io rf.temp_path t.disk;
  receiving_files = erase path t.receiving_files;
}

-- `check_resume_eligibility` for an entry that is there.
unfoldable pub check_entry :
    Io → Str → Str → ℕ → ReceivingFile → Transfer → Option ResumeInfo × Transfer
unfolding contiguous
check_entry io path remote_hash remote_size rf t =
    let hash_changed =
      not (nat_eq (length rf.expected_hash) 0)
      && not (nat_eq (length remote_hash) 0)
      && not (str_eq rf.expected_hash remote_hash) in
    let size_changed =
      ltb 0 rf.expected_size && ltb 0 remote_size && not (nat_eq rf.expected_size remote_size) in
    if ltb 0 rf.total_chunks && leb rf.total_chunks rf.received_chunks
    then (none, t)
    else if nat_eq rf.received_chunks 0
    then (none, t)
    else elim (find rf.temp_path t.disk) [
      | none ↦ (none, record t { receiving_files = erase path t.receiving_files })
      | some content ↦
          if hash_changed || size_changed
          then (none, drop_download io path rf t)
          else (some (resume_info path rf), t)
    ]

unfoldable pub check_resume_eligibility :
    Io → Str → Str → ℕ → Transfer → Option ResumeInfo × Transfer
unfolding check_entry
check_resume_eligibility io path remote_hash remote_size t = elim (find path t.receiving_files) [
  | none ↦ (none, t)
  | some rf ↦ check_entry io path remote_hash remote_size rf t
]

abbrev pub placeholder : ℕ → Str → Str → ℕ → ReceivingFile
placeholder now peer_id hash size = record {
  temp_path = [];
  total_chunks = 0;
  received_chunks = 0;
  received_bitmap = [];
  last_active = now;
  peer_id = peer_id;
  expected_hash = hash;
  expected_size = size;
  busy = false;
  is_open = false;
}

unfoldable pub register_expected_metadata : ℕ → Str → Str → Str → ℕ → Transfer → Transfer
register_expected_metadata now path peer_id hash size t = elim (find path t.receiving_files) [
  | none ↦ put_file path (placeholder now peer_id hash size) t
  | some rf ↦
      if ltb 0 rf.received_chunks
      then t
      else put_file path
          (record rf { peer_id = peer_id; expected_hash = hash; expected_size = size }) t
]

-- Every entry is changed, or dropped for `none`.
unfoldable pub change_files :
    (ReceivingFile → Option ReceivingFile) → Map Str ReceivingFile → Map Str ReceivingFile
change_files change [] = []
change_files change ((path, rf) ∷ files) =
    let rest = change_files change files in
    elim (change rf) [ none ↦ rest | some rf' ↦ (path, rf') ∷ rest ]

abbrev pub release_file : Str → ReceivingFile → Option ReceivingFile
release_file peer_id rf =
    if str_eq rf.peer_id peer_id && not rf.busy
    then some (record rf { is_open = false; peer_id = [] })
    else some rf

unfoldable pub cancel_receives_for_peer : Str → Transfer → Transfer
unfolding change_files
cancel_receives_for_peer peer_id t = record t {
  receiving_files = change_files (release_file peer_id) t.receiving_files;
}

abbrev pub starts_with : Str → Str → Bool
starts_with key front = str_eq (take (length front) key) front

unfoldable pub cancel_sends_for_peer : Str → Transfer → Transfer
cancel_sends_for_peer peer_id t = record t {
  sending_files = keep_if (λ (key, _). not (starts_with key (peer_id ++ 0 ∷ []))) t.sending_files;
}

-- `cleanup_stale_buffers` for one entry; the times are in milliseconds, the timeout in minutes.
abbrev pub age_file : ℕ → ℕ → ReceivingFile → Option ReceivingFile
age_file timeout now rf =
    let stale = ltb timeout ((now - rf.last_active) / 60000) in
    if rf.busy
    then some rf
    else if nat_eq rf.total_chunks 0 && stale
    then none
    else if stale
    then some (record rf { is_open = false })
    else some rf

abbrev pub task_of : Str → ReceivingFile → DownloadTaskRecord
task_of path rf = record {
  path = path;
  peer_id = rf.peer_id;
  total_chunks = rf.total_chunks;
  bitmap_data = serialize_bitmap rf.received_bitmap;
  expected_hash = rf.expected_hash;
  expected_size = rf.expected_size;
  temp_path = rf.temp_path;
}

unfoldable pub save_tasks :
    Map Str ReceivingFile → Map Str DownloadTaskRecord → Map Str DownloadTaskRecord
unfolding serialize_bitmap
save_tasks [] tasks = tasks
save_tasks ((path, rf) ∷ files) tasks =
    save_tasks files (insert_or_assign path (task_of path rf) tasks)

unfoldable pub persist_download_state : Transfer → Transfer
unfolding save_tasks
persist_download_state t = record t { tasks = save_tasks t.receiving_files t.tasks }

unfoldable pub cleanup_stale_buffers : ℕ → ℕ → Transfer → Transfer
unfolding change_files persist_download_state
cleanup_stale_buffers timeout now t =
    persist_download_state
      (record t { receiving_files = change_files (age_file timeout now) t.receiving_files })

abbrev pub restored_file : (ℕ → Bool) → ℕ → DownloadTaskRecord → ReceivingFile
restored_file stray now task =
    let bitmap = deserialize_bitmap stray task.bitmap_data task.total_chunks in
    record {
      temp_path = task.temp_path;
      total_chunks = task.total_chunks;
      received_chunks = count_true bitmap;
      received_bitmap = bitmap;
      last_active = now;
      peer_id = task.peer_id;
      expected_hash = task.expected_hash;
      expected_size = task.expected_size;
      busy = false;
      is_open = false;
    }

unfoldable pub load_tasks : (Str → ℕ → Bool) → ℕ → Map Str DownloadTaskRecord → Transfer → Transfer
unfolding deserialize_bitmap
load_tasks stray now [] t = t
load_tasks stray now ((path, task) ∷ tasks) t =
    load_tasks stray now tasks (elim (find task.temp_path t.disk) [
      | none ↦ record t { tasks = erase path t.tasks }
      | some content ↦ record (put_file path (restored_file (stray path) now task) t) {
        session_total = counted t.session_total;
      }
    ])

unfoldable pub load_download_state : (Str → ℕ → Bool) → ℕ → Transfer → Transfer
unfolding load_tasks
load_download_state stray now t = load_tasks stray now t.tasks t

unfoldable pub get_pending_receives_for_peer : Str → Transfer → List Str
get_pending_receives_for_peer peer_id t = keys (
    keep_if (λ (_, rf). str_eq rf.peer_id peer_id && ltb rf.received_chunks rf.total_chunks)
      t.receiving_files)
