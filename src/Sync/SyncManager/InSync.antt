-- ===== src/Sync/SyncManager/InSync.antt =====
-- The comparison of two sides that agree.
use mathlib.Core.Bool.{false≢true}
use mathlib.Core.Option.{some-injective}
use veritas_sync.Base.{
  ◌≡◌, refl, sym, ◌∙◌, ◌≢◌, inl, inr, Bool, List, [], ◌∷◌, none, some, arith, Str, str_key, nat_key,
  Option-cases, In,
}
use veritas_sync.Common.PathUtils.Normalize.{are_equal_refl}
use veritas_sync.Sync.Protocol.{FileInfo, SyncMode, one_way, bi_directional}
use veritas_sync.Sync.SyncManager.{
  SyncActions, HistoryQueryFunc, no_actions, compare_states_and_get_requests,
}
use veritas_sync.Sync.SyncManager.Tables.{hash_of}
use veritas_sync.Sync.SyncManager.Files.{requested_iff}
use veritas_sync.Sync.SyncManager.Deletions.{
  IsAbsent, one_way_mirrors, deleted_bi_directional_iff, conflict_renamed_iff,
}
use veritas_sync.Sync.SyncManager.Views.{hash_of-some, hash_of-none}

nil_of_empty : (ps : List Str) → ((p : Str) → ¬ In p ps) → ps ≡ []
nil_of_empty [] h = refl
nil_of_empty (p ∷ ps) h = absurd (h p (inl refl))

deleted_local :
    (win32 : Bool) (get_history : HistoryQueryFunc) (locals remotes : List FileInfo)
    (mode : SyncMode) (p : Str)
    → In p
        (compare_states_and_get_requests win32 locals remotes
          (some get_history)
          mode).files_to_delete
    → (f : FileInfo) × In f locals × IsAbsent win32 remotes f.path
deleted_local win32 get_history locals remotes one_way p m =
    let (f, i, _, a) = ((one_way_mirrors win32 get_history locals remotes get_history).0 p).0 m in
    (f, i, a)
deleted_local win32 get_history locals remotes bi_directional p m =
    let (f, i, _, (a, _)) = (deleted_bi_directional_iff win32 get_history locals remotes p).0 m in
    (f, i, a)

renamed_remote :
    (win32 : Bool) (get_history : HistoryQueryFunc) (locals remotes : List FileInfo)
    (mode : SyncMode) (p : Str)
    → In p
        (compare_states_and_get_requests win32 locals remotes
          (some get_history)
          mode).files_to_conflict_rename
    → (f : FileInfo) × In f remotes × (hash_of win32 f.path locals ≢ some f.hash)
renamed_remote win32 get_history locals remotes one_way p m =
    absurd (elim (rw (one_way_mirrors win32 get_history locals remotes get_history).1 at m) [ ])
renamed_remote win32 get_history locals remotes bi_directional p m =
    let (f, i, _, (h, e, d, _)) = (conflict_renamed_iff win32 get_history locals remotes p).0 m in
    (f, i, λ q. d (some-injective h f.hash (sym e ∙ q)))

present_file :
    (win32 : Bool) (f : FileInfo) (files : List FileInfo)
    → In f files
    → hash_of win32 f.path files ≢ none
present_file win32 f files i e =
    false≢true (sym (hash_of-none win32 f.path files e f i) ∙ are_equal_refl _)

absent_hash :
    (win32 : Bool) (p : Str) (files : List FileInfo)
    → IsAbsent win32 files p
    → hash_of win32 p files ≡ none
absent_hash win32 p files a = elim (Option-cases (hash_of win32 p files)) [
  | inl e ↦ e
  | inr (h, e) ↦
      let (f, i, s, _) = hash_of-some win32 p h files e in absurd (false≢true (sym (a f i) ∙ s))
]

-- When the two sides agree on the hash of every path, and the other side's list gives no path two
-- hashes, there is nothing to do in either mode: no request, no deletion, no conflict name.
pub agreement_no_actions :
    (win32 : Bool) (get_history : HistoryQueryFunc) (locals remotes : List FileInfo)
    (mode : SyncMode)
    → ((path : Str) → hash_of win32 path locals ≡ hash_of win32 path remotes)
    → ((f : FileInfo) → In f remotes → hash_of win32 f.path remotes ≡ some f.hash)
    → compare_states_and_get_requests win32 locals remotes (some get_history) mode ≡ no_actions
agreement_no_actions win32 get_history locals remotes mode agree single = ground (
  arith,
  nil_of_empty actions.files_to_request (λ p m.
      let (f, i, _, differ) = (requested_iff win32 get_history locals remotes mode p).0 m in
      differ (agree f.path ∙ single f i)),
  nil_of_empty actions.files_to_delete (λ p m.
      let (f, i, a) = deleted_local win32 get_history locals remotes mode p m in
      present_file win32 f locals i (agree f.path ∙ absent_hash win32 f.path remotes a)),
  nil_of_empty actions.files_to_conflict_rename (λ p m.
      let (f, i, differ) = renamed_remote win32 get_history locals remotes mode p m in
      differ (agree f.path ∙ single f i)),
)
  where
    actions : SyncActions
    actions = compare_states_and_get_requests win32 locals remotes (some get_history) mode
