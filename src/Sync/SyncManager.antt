-- ===== src/Sync/SyncManager.antt =====
-- src/sync/SyncManager.cpp: which files and directories to fetch, rename and delete. Where
-- docs/architecture.md and docs/project_analysis.md describe another choice (deletions in the one-way
-- mode only; a file that only this side changed is kept and no conflict), the code is followed.
pub mod Tables
pub mod Files
pub mod Deletions
pub mod Views
pub mod Convergence
pub mod InSync
pub mod Directories
use veritas_sync.Base.{
  ℕ, zero, suc, ◌+◌, ◌-◌, ◌*◌, ◌/◌, ◌%◌, ◌^◌, ◌≤◌, ◌<◌, min, ◌≡◌, refl, sym, ap, ◌∙◌, subst, ◌≢◌,
  ◌↔◌, ◌⊎◌, inl, inr, Bool, true, false, not, ◌&&◌, ◌||◌, List, [], ◌∷◌, ◌++◌, map, Option, none,
  some, arith, Str, KeyEq, ◌==◌, str_key, nat_key, nat_eq, nat_eq_iff, str_eq, str_eq_iff,
  str_eq_refl, ltb, leb, if◌then◌else◌, length, take, drop, get_elem?, Bool-cases, Option-cases,
  All, any, bytes, contains, In, keep_if, In-append, In-append_left, In-append_right, keep_if-In,
  In-keep_if, length-append, length-keep_if, All-append, All-reverse,
}
use veritas_sync.Base.Map.{
  Map, keys, values, find, insert_or_assign, erase, find-insert_or_assign, find-erase,
  find-insert_self, find-erase_self, find_congr, NodupKeys, insert_or_assign-NodupKeys,
  erase-NodupKeys, length-erase,
}
use veritas_sync.Common.PathUtils.{normalize, are_equal}
use veritas_sync.Common.PathUtils.Normalize.{path_key}
use veritas_sync.Sync.Protocol.{FileInfo, SyncHistory, SyncMode, one_way, bi_directional}

pub record SyncActions : Type 0 where
  pub files_to_request : List Str
  pub files_to_delete : List Str
  pub files_to_conflict_rename : List Str

pub record DirSyncActions : Type 0 where
  pub dirs_to_create : List Str
  pub dirs_to_delete : List Str

-- What a call of the history callback does.
pub data Answer : Type 0 where
  returned : Option SyncHistory → Answer
  threw : Answer

abbrev pub HistoryQueryFunc : Type 0
HistoryQueryFunc = Str → Answer

-- An exception counts as no record.
unfoldable pub safe_get_history : HistoryQueryFunc → Str → Option SyncHistory
safe_get_history get_history path = elim (get_history path) [
  | returned history ↦ history
  | threw ↦ none
]

unfoldable pub detect_conflict : Str → Option SyncHistory → Bool
detect_conflict local_hash none = true
detect_conflict local_hash (some history) = not (str_eq local_hash history.hash)

-- The two containers of the function, keyed by `CaseInsensitiveEqual`.
unfoldable pub local_file_hashes : Bool → Map Str Str → List FileInfo → Map Str Str
local_file_hashes win32 m [] = m
local_file_hashes win32 m (info ∷ files) =
    local_file_hashes win32
      (insert_or_assign ⦃e = path_key⦄ (normalize win32 info.path) info.hash m) files

unfoldable pub path_set : Bool → List Str → List Str → List Str
path_set win32 set [] = set
path_set win32 set (path ∷ paths) =
    let key = normalize win32 path in
    path_set win32 (if contains ⦃e = path_key⦄ set key then set else key ∷ set) paths

abbrev pub paths_of : List FileInfo → List Str
paths_of = map (λ info. info.path)

-- `is_conflict` of the loop below: only the bidirectional mode asks for the history.
unfoldable pub is_conflict : SyncMode → HistoryQueryFunc → Str → Str → Bool
unfolding safe_get_history detect_conflict
is_conflict one_way get_history local_hash path = false
is_conflict bi_directional get_history local_hash path =
    detect_conflict local_hash (safe_get_history get_history path)

-- One round of the loop of phase 2.
unfoldable pub request_file :
    Bool → SyncMode → HistoryQueryFunc → Map Str Str → FileInfo → SyncActions → SyncActions
unfolding is_conflict
request_file win32 mode get_history hashes remote actions =
    elim (find ⦃e = path_key⦄ (normalize win32 remote.path) hashes) [
      | none ↦ record actions { files_to_request = actions.files_to_request ++ remote.path ∷ [] }
      | some local_hash ↦ if str_eq local_hash remote.hash then actions else record actions {
        files_to_conflict_rename =
            if is_conflict mode get_history local_hash remote.path
            then actions.files_to_conflict_rename ++ remote.path ∷ []
            else actions.files_to_conflict_rename;
        files_to_request = actions.files_to_request ++ remote.path ∷ [];
      }
    ]

unfoldable pub request_files :
    Bool → SyncMode → HistoryQueryFunc → Map Str Str → List FileInfo → SyncActions → SyncActions
unfolding request_file
request_files win32 mode get_history hashes [] actions = actions
request_files win32 mode get_history hashes (remote ∷ files) actions =
    request_files win32 mode get_history hashes files
      (request_file win32 mode get_history hashes remote actions)

-- The test of phase 3 on one local file: `remote_paths` is the set of the remote paths.
unfoldable pub should_delete : Bool → SyncMode → HistoryQueryFunc → List Str → FileInfo → Bool
unfolding safe_get_history
should_delete win32 one_way get_history remote_paths file =
    not (contains ⦃e = path_key⦄ remote_paths (normalize win32 file.path))
should_delete win32 bi_directional get_history remote_paths file =
    if contains ⦃e = path_key⦄ remote_paths (normalize win32 file.path)
    then false
    else elim (safe_get_history get_history file.path) [
      | none ↦ false
      | some history ↦ str_eq history.hash file.hash
    ]

-- The loops of phase 3.
unfoldable pub delete_files :
    Bool → SyncMode → HistoryQueryFunc → List Str → List FileInfo → SyncActions → SyncActions
unfolding should_delete
delete_files win32 mode get_history remote_paths [] actions = actions
delete_files win32 mode get_history remote_paths (file ∷ files) actions =
    delete_files win32 mode get_history remote_paths files (
      if should_delete win32 mode get_history remote_paths file
      then record actions { files_to_delete = actions.files_to_delete ++ file.path ∷ [] }
      else actions)

abbrev pub no_actions : SyncActions
no_actions = record { files_to_request = []; files_to_delete = []; files_to_conflict_rename = [] }

-- An empty `std::function` is `none`.
unfoldable pub compare_states_and_get_requests :
    Bool → List FileInfo → List FileInfo → Option HistoryQueryFunc → SyncMode → SyncActions
unfolding request_files delete_files local_file_hashes path_set
compare_states_and_get_requests win32 local_files remote_files none mode = no_actions
compare_states_and_get_requests win32 local_files remote_files (some get_history) mode =
    delete_files win32 mode get_history (path_set win32 [] (paths_of remote_files)) local_files (
      request_files win32 mode get_history (local_file_hashes win32 [] local_files) remote_files
        no_actions)

-- The directories of the first list whose normalised path the set lacks.
unfoldable pub missing_dirs : Bool → List Str → List Str → List Str → List Str
missing_dirs win32 set [] out = out
missing_dirs win32 set (dir ∷ dirs) out =
    missing_dirs win32 set dirs
      (if contains ⦃e = path_key⦄ set (normalize win32 dir) then out else out ++ dir ∷ [])

-- The two sets of directories are lists, in the order of their iteration.
unfoldable pub compare_dir_states : Bool → List Str → List Str → DirSyncActions
unfolding missing_dirs path_set
compare_dir_states win32 local_dirs remote_dirs = record {
  dirs_to_create = missing_dirs win32 (path_set win32 [] local_dirs) remote_dirs [];
  dirs_to_delete = missing_dirs win32 (path_set win32 [] remote_dirs) local_dirs [];
}
