-- ===== src/Sync/SyncManager/Directories.antt =====
-- The diff of two sets of directories.
use mathlib.Core.List.{append_assoc, append-nil}
use veritas_sync.Base.{
  ◌≡◌, refl, sym, ◌∙◌, ◌↔◌, inl, inr, Bool, true, false, not, ◌&&◌, ◌||◌, List, [], ◌∷◌, ◌++◌,
  arith, Str, str_key, nat_key, Bool-cases, In, keep_if, keep_if-In, In-keep_if,
}
use veritas_sync.Common.PathUtils.{normalize}
use veritas_sync.Common.PathUtils.Normalize.{are_equal_sym, are_equal_congr}
use veritas_sync.Sync.SyncManager.{path_set, missing_dirs, compare_dir_states}
use veritas_sync.Sync.SyncManager.Tables.{same_file, names, contains-path_set}

missing_dirs-eq :
    (win32 : Bool) (have dirs out : List Str)
    → missing_dirs win32 (path_set win32 [] have) dirs out
      ≡ out ++ keep_if (λ d. not (names win32 have d)) dirs
unfolding missing_dirs
missing_dirs-eq win32 have [] out = sym (append-nil out)
missing_dirs-eq win32 have (d ∷ dirs) out =
    missing_dirs-eq win32 have dirs _
    ∙ rw (contains-path_set win32 d have) (elim (Bool-cases (names win32 have d)) [
      | inl e ↦ rw e
      | inr e ↦ rw e (append_assoc out (d ∷ []) _)
    ])

names_congr :
    (win32 : Bool) (paths : List Str) (p q : Str)
    → same_file win32 p q ≡ true
    → names win32 paths p ≡ names win32 paths q
names_congr win32 [] p q h = refl
names_congr win32 (x ∷ paths) p q h = ground (
  arith,
  names_congr win32 paths p q h,
  are_equal_congr (normalize win32 p) (normalize win32 q) (normalize win32 x) h,
  are_equal_sym (normalize win32 x) (normalize win32 p),
  are_equal_sym (normalize win32 x) (normalize win32 q),
)

-- Of the directories that one side lacks, those that name `p` are there exactly when some of its
-- directories names `p` and none of the other's does.
names-missing :
    (win32 : Bool) (have dirs : List Str) (p : Str)
    → names win32 (keep_if (λ d. not (names win32 have d)) dirs) p
      ≡ (names win32 dirs p && not (names win32 have p))
names-missing win32 have [] p = refl
names-missing win32 have (d ∷ dirs) p =
    ground (arith, names-missing win32 have dirs p, names_congr win32 have d p)

-- The diff of the directories is exact: a remote directory is to be created exactly when no local
-- one has its path, and a local one to be deleted exactly when no remote one has its path. So once
-- the deletions and then the creations are carried out, the paths present here are those present
-- there.
pub compare_dir_states_converges :
    (win32 : Bool) (locals remotes : List Str)
    → let actions = compare_dir_states win32 locals remotes in
      ((d : Str) → In d actions.dirs_to_create ↔ (In d remotes × (names win32 locals d ≡ false)))
      × ((d : Str) → In d actions.dirs_to_delete ↔ (In d locals × (names win32 remotes d ≡ false)))
      × ((d : Str)
          → ((names win32 locals d && not (names win32 actions.dirs_to_delete d))
              || names win32 actions.dirs_to_create d)
            ≡ names win32 remotes d)
unfolding compare_dir_states
compare_dir_states_converges win32 locals remotes = (
  λ d. rw (missing_dirs-eq win32 locals remotes []) (kept locals remotes d),
  λ d. rw (missing_dirs-eq win32 remotes locals []) (kept remotes locals d),
  λ d.
      rw (missing_dirs-eq win32 locals remotes [], missing_dirs-eq win32 remotes locals [])
        (ground
          (arith, names-missing win32 locals remotes d, names-missing win32 remotes locals d)),
)
  where
    kept :
        (have dirs : List Str) (d : Str)
        → In d (keep_if (λ x. not (names win32 have x)) dirs)
          ↔ (In d dirs × (names win32 have d ≡ false))
    kept have dirs d = (
      λ m. let (i, t) = In-keep_if _ d dirs m in (i, ground arith),
      λ (i, t). keep_if-In _ d dirs i (ground arith),
    )
