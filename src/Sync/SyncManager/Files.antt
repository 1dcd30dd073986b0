-- ===== src/Sync/SyncManager/Files.antt =====
-- Which files are requested, and the lemmas on the loops over the lists.
use mathlib.Core.List.{append_assoc, append-nil}
use veritas_sync.Base.{
  ◌≡◌, refl, sym, ap, ◌∙◌, ◌≢◌, ◌↔◌, inl, inr, Bool, true, false, not, ◌&&◌, List, [], ◌∷◌, ◌++◌,
  none, some, arith, Str, str_key, nat_key, str_eq, str_eq_iff, if◌then◌else◌, Bool-cases,
  Option-cases, In, keep_if,
}
use veritas_sync.Sync.Protocol.{FileInfo, SyncMode}
use veritas_sync.Sync.SyncManager.{
  SyncActions, HistoryQueryFunc, is_conflict, request_file, request_files, should_delete,
  delete_files, local_file_hashes, path_set, paths_of, no_actions, compare_states_and_get_requests,
}
use veritas_sync.Sync.SyncManager.Tables.{hash_of, find-local_file_hashes}

-- The remote file is new to this side, or has another hash.
abbrev pub differs : Bool → List FileInfo → FileInfo → Bool
differs win32 local_files remote = elim (hash_of win32 remote.path local_files) [
  | none ↦ true
  | some local_hash ↦ not (str_eq local_hash remote.hash)
]

-- The file is on both sides with two hashes, and this side's hash is not the recorded one.
abbrev pub conflicts : Bool → SyncMode → HistoryQueryFunc → List FileInfo → FileInfo → Bool
conflicts win32 mode get_history local_files remote = elim (hash_of win32 remote.path local_files) [
  | none ↦ false
  | some local_hash ↦
      not (str_eq local_hash remote.hash) && is_conflict mode get_history local_hash remote.path
]

module _ (win32 : Bool) (mode : SyncMode) (get_history : HistoryQueryFunc)
    (locals : List FileInfo) where
  abbrev push_if : Bool → Str → List Str → List Str
  push_if b p ps = if b then ps ++ p ∷ [] else ps

  push_if-paths_of :
      (p : FileInfo → Bool) (f : FileInfo) (fs : List FileInfo) (ps : List Str)
      → push_if (p f) f.path ps ++ paths_of (keep_if p fs) ≡ ps ++ paths_of (keep_if p (f ∷ fs))
  push_if-paths_of p f fs ps = elim (Bool-cases (p f)) [
    | inl e ↦ rw e (append_assoc ps (f.path ∷ []) (paths_of (keep_if p fs)))
    | inr e ↦ rw e
  ]

  request_file-eq :
      (remote : FileInfo) (actions : SyncActions)
      → request_file win32 mode get_history (local_file_hashes win32 [] locals) remote actions
        ≡ record {
          files_to_request =
              push_if (differs win32 locals remote) remote.path actions.files_to_request;
          files_to_delete = actions.files_to_delete;
          files_to_conflict_rename =
              push_if
                (conflicts win32 mode get_history locals remote)
                remote.path
                actions.files_to_conflict_rename;
        }
  unfolding request_file
  request_file-eq remote actions = ground (arith, find-local_file_hashes win32 remote.path locals)

  request_files-eq :
      (remotes : List FileInfo) (actions : SyncActions)
      → request_files win32 mode get_history (local_file_hashes win32 [] locals) remotes actions
        ≡ record {
          files_to_request =
              actions.files_to_request ++ paths_of (keep_if (differs win32 locals) remotes);
          files_to_delete = actions.files_to_delete;
          files_to_conflict_rename =
              actions.files_to_conflict_rename
              ++ paths_of (keep_if (conflicts win32 mode get_history locals) remotes);
        }
  unfolding request_files
  request_files-eq [] actions = simp append-nil
  request_files-eq (remote ∷ remotes) actions =
      request_files-eq remotes _
      ∙ ground (
        arith,
        request_file-eq remote actions,
        push_if-paths_of (differs win32 locals) remote remotes actions.files_to_request,
        push_if-paths_of (conflicts win32 mode get_history locals) remote remotes
            actions.files_to_conflict_rename,
      )

  delete_files-eq :
      (remote_paths : List Str) (files : List FileInfo) (actions : SyncActions)
      → delete_files win32 mode get_history remote_paths files actions ≡ record actions {
        files_to_delete =
            actions.files_to_delete
            ++ paths_of (keep_if (should_delete win32 mode get_history remote_paths) files);
      }
  unfolding delete_files
  delete_files-eq remote_paths [] actions = simp append-nil
  delete_files-eq remote_paths (file ∷ files) actions =
      delete_files-eq remote_paths files _
      ∙ ground (
        arith,
        push_if-paths_of (should_delete win32 mode get_history remote_paths) file files
            actions.files_to_delete,
      )

pub compare_states-eq :
    (win32 : Bool) (mode : SyncMode) (get_history : HistoryQueryFunc)
    (locals remotes : List FileInfo)
    → compare_states_and_get_requests win32 locals remotes (some get_history) mode ≡ record {
      files_to_request = paths_of (keep_if (differs win32 locals) remotes);
      files_to_delete = paths_of (
          keep_if
            (should_delete win32 mode get_history (path_set win32 [] (paths_of remotes)))
            locals);
      files_to_conflict_rename =
          paths_of (keep_if (conflicts win32 mode get_history locals) remotes);
    }
unfolding compare_states_and_get_requests
compare_states-eq win32 mode get_history locals remotes =
    delete_files-eq win32 mode get_history locals _ locals _
    ∙ ground (arith, request_files-eq win32 mode get_history locals remotes no_actions)

-- Membership in the paths of a filtered list of files.
pub In-paths_of :
    (p : Str) (test : FileInfo → Bool) (files : List FileInfo)
    → In p (paths_of (keep_if test files))
      ↔ ((f : FileInfo) × In f files × (p ≡ f.path) × (test f ≡ true))
In-paths_of p test files = (forth files, λ (f, m, e, t). back files f m e t)
  where
    forth :
        (files : List FileInfo)
        → In p (paths_of (keep_if test files))
        → (f : FileInfo) × In f files × (p ≡ f.path) × (test f ≡ true)
    forth [] m = elim m [ ]
    forth (g ∷ files) m = elim (Bool-cases (test g)) [
      | inl t ↦ elim (rw t at m) [
        | inl e ↦ (g, inl refl, e, t)
        | inr r ↦ let (f, q, e, u) = forth files r in (f, inr q, e, u)
      ]
      | inr t ↦ let (f, q, e, u) = forth files (rw t at m) in (f, inr q, e, u)
    ]

    back :
        (files : List FileInfo) (f : FileInfo)
        → In f files
        → p ≡ f.path
        → test f ≡ true
        → In p (paths_of (keep_if test files))
    back [] f m e t = elim m [ ]
    back (g ∷ files) f (inl q) e t =
        rw (ap test (sym q) ∙ t) (inl (e ∙ ap (λ (x : FileInfo). x.path) q))
    back (g ∷ files) f (inr m) e t = elim (Bool-cases (test g)) [
      | inl u ↦ rw u (inr (back files f m e t))
      | inr u ↦ rw u (back files f m e t)
    ]

module _ (win32 : Bool) (get_history : HistoryQueryFunc) (locals remotes : List FileInfo) where
  differs_iff :
      (f : FileInfo) → (differs win32 locals f ≡ true) ↔ (hash_of win32 f.path locals ≢ some f.hash)
  differs_iff f = elim (Option-cases (hash_of win32 f.path locals)) [
    | inl e ↦ rw e (ground arith)
    | inr (h, e) ↦ rw e (ground (arith, str_eq_iff h f.hash))
  ]

  -- In either mode a path is requested exactly when it is the path of a remote file whose hash
  -- this side does not have for that path.
  pub requested_iff :
      (mode : SyncMode) (p : Str)
      → In p
          (compare_states_and_get_requests win32 locals remotes
            (some get_history)
            mode).files_to_request
        ↔ ((f : FileInfo) × In f remotes
            × (p ≡ f.path)
            × (hash_of win32 f.path locals ≢ some f.hash))
  requested_iff mode p = rw (compare_states-eq win32 mode get_history locals remotes) (
    λ m. let (f, q, e, t) = (In-paths_of p _ remotes).0 m in (f, q, e, (differs_iff f).0 t),
    λ (f, q, e, t). (In-paths_of p _ remotes).1 (f, q, e, (differs_iff f).1 t),
  )
