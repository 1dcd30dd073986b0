-- ===== src/Sync/TransferManager/Restart.antt =====
-- Downloads that are saved, and restored when the program starts again.
use veritas_sync.Base.{
  ℕ, ◌≡◌, refl, ◌∙◌, ◌≢◌, inl, inr, Bool, false, [], ◌∷◌, Option, none, some, Str, ◌==◌, str_key,
  nat_key, str_eq_iff, Bool-cases, Option-cases,
}
use veritas_sync.Base.Map.{
  Map, find, insert_or_assign, erase, find-insert_or_assign, find-insert_self, NodupKeys,
  insert_or_assign-NodupKeys,
}
use veritas_sync.Sync.TransferManager.State.{ReceivingFile, DownloadTaskRecord, Transfer}
use veritas_sync.Sync.TransferManager.Bitmap.{
  serialize_bitmap, deserialize_bitmap, deserialize-serialize_bitmap,
}
use veritas_sync.Sync.TransferManager.Resume.{
  persist_download_state, restored_file, save_tasks, task_of, load_tasks, load_download_state,
}
use veritas_sync.Sync.TransferManager.Invariant.{IsConsistent}

find-save_tasks_other :
    (path : Str) (files : Map Str ReceivingFile) (tasks : Map Str DownloadTaskRecord)
    → find path files ≡ none
    → find path (save_tasks files tasks) ≡ find path tasks
unfolding find save_tasks
find-save_tasks_other path [] tasks e = refl
find-save_tasks_other path ((q, f) ∷ files) tasks e = elim (Bool-cases (q == path)) [
  | inl p ↦ absurd (not_none (rw p at e))
  | inr p ↦
      find-save_tasks_other path files (insert_or_assign q (task_of q f) tasks) (rw p at e)
      ∙ find-insert_or_assign path q (task_of q f) tasks
      ∙ rw p refl
]
  where
    not_none : ◌≢◌ {A = Option ReceivingFile} (some f) none
    not_none h = cc

find-save_tasks :
    (path : Str) (rf : ReceivingFile) (files : Map Str ReceivingFile)
    (tasks : Map Str DownloadTaskRecord)
    → NodupKeys files
    → find path files ≡ some rf
    → find path (save_tasks files tasks) ≡ some (task_of path rf)
unfolding find save_tasks
find-save_tasks path rf [] tasks u e = absurd (not_some e)
  where
    not_some : ◌≢◌ {A = Option ReceivingFile} none (some rf)
    not_some h = cc
find-save_tasks path rf ((q, f) ∷ files) tasks (fresh, u) e = elim (Bool-cases (q == path)) [
  | inl p ↦
      let key : q ≡ path = (str_eq_iff q path).0 p in
      let entry : f ≡ rf = some_file (rw p at e) in
      find-save_tasks_other path files (insert_or_assign q (task_of q f) tasks) (rw (← key) fresh)
      ∙ rw (key, entry) (find-insert_self path (task_of path rf) tasks)
  | inr p ↦ find-save_tasks path rf files (insert_or_assign q (task_of q f) tasks) u (rw p at e)
]
  where
    some_file : some f ≡ some rf → f ≡ rf
    some_file h = cc

save_tasks-NodupKeys :
    (files : Map Str ReceivingFile) (tasks : Map Str DownloadTaskRecord)
    → NodupKeys tasks
    → NodupKeys (save_tasks files tasks)
unfolding save_tasks
save_tasks-NodupKeys [] tasks u = u
save_tasks-NodupKeys ((q, f) ∷ files) tasks u =
    save_tasks-NodupKeys files (insert_or_assign q (task_of q f) tasks)
      (insert_or_assign-NodupKeys q (task_of q f) tasks u)

find-load_tasks_other :
    (stray : Str → ℕ → Bool) (now : ℕ) (path : Str) (tasks : Map Str DownloadTaskRecord)
    (t : Transfer)
    → find path tasks ≡ none
    → find path (load_tasks stray now tasks t).receiving_files ≡ find path t.receiving_files
unfolding find load_tasks
find-load_tasks_other stray now path [] t e = refl
find-load_tasks_other stray now path ((q, task) ∷ tasks) t e = elim (Bool-cases (q == path)) [
  | inl p ↦ absurd (not_none (rw p at e))
  | inr p ↦ elim (Option-cases (find task.temp_path t.disk)) [
    | inl d ↦
        rw (d, load_tasks)
          (find-load_tasks_other stray now path tasks (record t { tasks = erase q t.tasks })
            (rw p at e))
    | inr (content, d) ↦
        rw (d, load_tasks)
          (find-load_tasks_other stray now path tasks _ (rw p at e)
            ∙ find-insert_or_assign path q (restored_file (stray q) now task) t.receiving_files
            ∙ rw p refl)
  ]
]
  where
    not_none : ◌≢◌ {A = Option DownloadTaskRecord} (some task) none
    not_none h = cc

find-load_tasks :
    (stray : Str → ℕ → Bool) (now : ℕ) (path content : Str) (task : DownloadTaskRecord)
    (tasks : Map Str DownloadTaskRecord) (t : Transfer)
    → NodupKeys tasks
    → find path tasks ≡ some task
    → find task.temp_path t.disk ≡ some content
    → find path (load_tasks stray now tasks t).receiving_files
      ≡ some (restored_file (stray path) now task)
unfolding find load_tasks
find-load_tasks stray now path content task [] t u e d = absurd (not_some e)
  where
    not_some : ◌≢◌ {A = Option DownloadTaskRecord} none (some task)
    not_some h = cc
find-load_tasks stray now path content task ((q, first) ∷ tasks) t (fresh, u) e d =
    elim (Bool-cases (q == path)) [
      | inl p ↦
          let key : q ≡ path = (str_eq_iff q path).0 p in
          let entry : first ≡ task = some_task (rw p at e) in
          let there : find first.temp_path t.disk ≡ some content = rw entry d in
          rw (there, load_tasks)
            (find-load_tasks_other stray now path tasks _ (rw (← key) fresh)
              ∙ rw (key, entry)
                  (find-insert_self path (restored_file (stray path) now task) t.receiving_files))
      | inr p ↦ elim (Option-cases (find first.temp_path t.disk)) [
        | inl g ↦
            rw (g, load_tasks) (find-load_tasks stray now path content task tasks _ u (rw p at e) d)
        | inr (other, g) ↦
            rw (g, load_tasks) (find-load_tasks stray now path content task tasks _ u (rw p at e) d)
      ]
    ]
  where
    some_task : some first ≡ some task → first ≡ task
    some_task h = cc

-- A download that is saved and restored at the next start is the same: its chunks, their number and
-- count, the hash and the size that are expected and the temporary file; only the stream is closed
-- and the time new. Its bitmap and count agree, its temporary file is still there, and no path stands
-- twice in memory or in the database.
pub load-persist_download_state :
    (stray : Str → ℕ → Bool) (now : ℕ) (path content : Str) (rf : ReceivingFile) (t : Transfer)
    → NodupKeys t.receiving_files
    → NodupKeys t.tasks
    → IsConsistent rf
    → find path t.receiving_files ≡ some rf
    → find rf.temp_path t.disk ≡ some content
    → find path
        (load_download_state stray now
          (record (persist_download_state t) { receiving_files = [] })).receiving_files
      ≡ some (record rf { last_active = now; busy = false; is_open = false })
unfolding load_download_state persist_download_state
load-persist_download_state stray now path content rf t u v h e d =
    let saved = find-save_tasks path rf t.receiving_files t.tasks u e in
    let bitmap : deserialize_bitmap (stray path) (serialize_bitmap rf.received_bitmap)
          rf.total_chunks
        ≡ rf.received_bitmap =
      rw (← h.one_bit_each) (deserialize-serialize_bitmap (stray path) rf.received_bitmap) in
    find-load_tasks stray now path content (task_of path rf) (save_tasks t.receiving_files t.tasks)
      _ (save_tasks-NodupKeys t.receiving_files t.tasks v) saved d
    ∙ rw (bitmap, ← h.count_exact) refl
