-- ===== src/Tests/Sync.antt =====
-- Two lists of files and their comparison.
use veritas_sync.Base.{
  ◌≡◌, refl, ◌≢◌, ◌↔◌, inl, inr, false, not, ◌&&◌, ◌||◌, List, [], ◌∷◌, none, some, Str, str_key,
  nat_key, str_eq, if◌then◌else◌, bytes, In,
}
use veritas_sync.Common.PathUtils.{normalize, are_equal}
use veritas_sync.Sync.Protocol.{FileInfo, SyncHistory, one_way, bi_directional}
use veritas_sync.Sync.SyncManager.{
  HistoryQueryFunc, returned, threw, safe_get_history, no_actions, compare_states_and_get_requests,
}
use veritas_sync.Sync.SyncManager.Tables.{hash_of, names}
use veritas_sync.Sync.SyncManager.Files.{requested_iff}
use veritas_sync.Sync.SyncManager.Tables.{hash_of, names}
use veritas_sync.Sync.SyncManager.Files.{requested_iff}
use veritas_sync.Sync.SyncManager.Deletions.{
  IsAbsent, IsUnrecorded, conflict_renamed_iff, deleted_bi_directional_iff,
}
use veritas_sync.Sync.SyncManager.Convergence.{
  one_way_converges, bi_directional_takes_remote, bi_directional_keeps_local,
}
use veritas_sync.Sync.SyncManager.{compare_dir_states}
use veritas_sync.Sync.SyncManager.Views.{hash_after}
use veritas_sync.Sync.SyncManager.InSync.{agreement_no_actions}
use veritas_sync.Sync.SyncManager.Directories.{compare_dir_states_converges}
use veritas_sync.Tests.Common.{text_a, text_b, text_c, text_d}

abbrev file : Str → Str → FileInfo
file path hash = record { path = path; hash = hash; modified_time = 5; size = 1 }

-- "a" differs, "b" is the same, "c" is only here and as it was last synchronised, "d" only there.
abbrev here : List FileInfo
here = file text_a (bytes "1") ∷ file text_b (bytes "2") ∷ file text_c (bytes "3") ∷ []

abbrev there : List FileInfo
there = file text_a (bytes "9") ∷ file text_b (bytes "2") ∷ file text_d (bytes "4") ∷ []

abbrev last_synchronised : HistoryQueryFunc
last_synchronised path =
    if str_eq path text_c then returned (some (record { hash = bytes "3"; ts = 1 })) else threw

abbrev no_history : HistoryQueryFunc
no_history path = returned none

requested_iff_example :
    In text_a
      (compare_states_and_get_requests false here there
        (some last_synchronised)
        bi_directional).files_to_request
    ↔ ((f : FileInfo) × In f there × (text_a ≡ f.path) × (hash_of false f.path here ≢ some f.hash))
requested_iff_example = requested_iff false last_synchronised here there bi_directional text_a

conflict_renamed_iff_example :
    In text_a
      (compare_states_and_get_requests false here there
        (some last_synchronised)
        bi_directional).files_to_conflict_rename
    ↔ ((f : FileInfo) × In f there
        × (text_a ≡ f.path)
        × ((local_hash : Str) × (hash_of false f.path here ≡ some local_hash)
            × (local_hash ≢ f.hash)
            × IsUnrecorded local_hash (safe_get_history last_synchronised f.path)))
conflict_renamed_iff_example = conflict_renamed_iff false last_synchronised here there text_a

deleted_bi_directional_iff_example :
    In text_c
      (compare_states_and_get_requests false here there
        (some last_synchronised)
        bi_directional).files_to_delete
    ↔ ((f : FileInfo) × In f here
        × (text_c ≡ f.path)
        × (IsAbsent false there f.path
            × ((last : SyncHistory) × (safe_get_history last_synchronised f.path ≡ some last)
                × (last.hash ≡ f.hash))))
deleted_bi_directional_iff_example =
    deleted_bi_directional_iff false last_synchronised here there text_c

one_way_converges_example :
    hash_after false here there
      (compare_states_and_get_requests false here there (some last_synchronised) one_way)
      text_c
    ≡ hash_of false text_c there
one_way_converges_example = one_way_converges false last_synchronised here there text_c

bi_directional_takes_remote_example :
    hash_after false here there
      (compare_states_and_get_requests false here there (some last_synchronised) bi_directional)
      text_a
    ≡ some (bytes "9")
unfolding hash_of are_equal normalize
bi_directional_takes_remote_example =
    bi_directional_takes_remote false last_synchronised here there text_a (bytes "9") refl

bi_directional_keeps_local_example :
    hash_after false here there
      (compare_states_and_get_requests false here there (some no_history) bi_directional)
      text_c
    ≡ hash_of false text_c here
unfolding safe_get_history hash_of are_equal normalize
bi_directional_keeps_local_example =
    bi_directional_keeps_local false no_history here there text_c refl (λ f i same last h. cc)

agreement_no_actions_example :
    compare_states_and_get_requests false
      (file text_a (bytes "1") ∷ [])
      (file text_a (bytes "1") ∷ [])
      (some last_synchronised)
      bi_directional
    ≡ no_actions
unfolding hash_of are_equal normalize
agreement_no_actions_example =
    agreement_no_actions false last_synchronised (file text_a (bytes "1") ∷ [])
      (file text_a (bytes "1") ∷ []) bi_directional (λ path. refl)
      (λ f i. elim i [ inl e ↦ rw e refl | inr none_left ↦ absurd none_left ])

compare_dir_states_converges_example :
    let actions = compare_dir_states false (text_a ∷ text_b ∷ []) (text_b ∷ text_c ∷ []) in
    ((d : Str)
      → In d actions.dirs_to_create
        ↔ (In d (text_b ∷ text_c ∷ []) × (names false (text_a ∷ text_b ∷ []) d ≡ false)))
    × ((d : Str)
        → In d actions.dirs_to_delete
          ↔ (In d (text_a ∷ text_b ∷ []) × (names false (text_b ∷ text_c ∷ []) d ≡ false)))
    × ((d : Str)
        → ((names false (text_a ∷ text_b ∷ []) d && not (names false actions.dirs_to_delete d))
            || names false actions.dirs_to_create d)
          ≡ names false (text_b ∷ text_c ∷ []) d)
compare_dir_states_converges_example =
    compare_dir_states_converges false (text_a ∷ text_b ∷ []) (text_b ∷ text_c ∷ [])
