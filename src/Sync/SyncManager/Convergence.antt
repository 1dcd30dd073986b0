-- ===== src/Sync/SyncManager/Convergence.antt =====
-- This side once the actions are carried out.
use mathlib.Core.Bool.{false≢true}
use veritas_sync.Base.{
  ◌≡◌, refl, sym, ap, ◌∙◌, ◌≢◌, inl, inr, Bool, true, false, List, none, some, arith, Str, str_key,
  nat_key, Bool-cases, Option-cases, In,
}
use veritas_sync.Sync.Protocol.{FileInfo, SyncHistory, SyncMode, one_way, bi_directional}
use veritas_sync.Sync.SyncManager.{
  SyncActions, HistoryQueryFunc, safe_get_history, compare_states_and_get_requests,
}
use veritas_sync.Sync.SyncManager.Tables.{same_file, hash_of, names}
use veritas_sync.Sync.SyncManager.Files.{requested_iff}
use veritas_sync.Sync.SyncManager.Deletions.{IsAbsent, one_way_mirrors, deleted_bi_directional_iff}
use veritas_sync.Sync.SyncManager.Views.{
  dec_some, names-true, names_of_In, hash_of-some, hash_of-none, hash_of_congr, same_file_trans,
  hash_after,
}

deleted-IsAbsent :
    (win32 : Bool) (get_history : HistoryQueryFunc) (locals remotes : List FileInfo)
    (mode : SyncMode) (q : Str)
    → In q
        (compare_states_and_get_requests win32 locals remotes
          (some get_history)
          mode).files_to_delete
    → IsAbsent win32 remotes q
deleted-IsAbsent win32 get_history locals remotes one_way q n =
    let (g, _, d, absent) =
      ((one_way_mirrors win32 get_history locals remotes get_history).0 q).0 n in
    rw d absent
deleted-IsAbsent win32 get_history locals remotes bi_directional q n =
    let (g, _, d, (absent, _)) =
      (deleted_bi_directional_iff win32 get_history locals remotes q).0 n in
    rw d absent

module _ (win32 : Bool) (get_history : HistoryQueryFunc) (locals remotes : List FileInfo)
    (mode : SyncMode) (path : Str) where
  abbrev plan : SyncActions
  plan = compare_states_and_get_requests win32 locals remotes (some get_history) mode

  not_deleted :
      (r : FileInfo)
      → In r remotes
      → same_file win32 r.path path ≡ true
      → names win32 plan.files_to_delete path ≡ false
  not_deleted r m s = elim (Bool-cases (names win32 plan.files_to_delete path)) [
    | inl e ↦
        let (q, n, t) = names-true win32 plan.files_to_delete path e in
        absurd (
          ground (
            arith,
            deleted-IsAbsent win32 get_history locals remotes mode q n r m,
            same_file_trans win32 r.path path q s t,
          ))
    | inr e ↦ e
  ]

  -- A path that the other side has is not deleted, and ends with the other side's hash.
  present :
      (hash : Str)
      → hash_of win32 path remotes ≡ some hash
      → hash_after win32 locals remotes plan path ≡ some hash
  present hash e =
      let (r, m, s, q) = hash_of-some win32 path hash remotes e in
      rw (not_deleted r m s) (elim (Bool-cases (names win32 plan.files_to_request path)) [
        | inl n ↦ rw n e
        | inr n ↦ rw n (elim (dec_some (hash_of win32 r.path locals) r.hash) [
          | yes same ↦ sym (hash_of_congr win32 r.path path locals s) ∙ same ∙ ap some q
          | no differ ↦ absurd (
              false≢true (
                sym n
                ∙ names_of_In win32 plan.files_to_request path r.path
                    ((requested_iff win32 get_history locals remotes mode r.path).1
                      (r, m, refl, differ))
                    s))
        ])
      ])

  absent_request :
      hash_of win32 path remotes ≡ none → names win32 plan.files_to_request path ≡ false
  absent_request e = elim (Bool-cases (names win32 plan.files_to_request path)) [
    | inl n ↦
        let (q, m, s) = names-true win32 plan.files_to_request path n in
        let (f, i, d, _) = (requested_iff win32 get_history locals remotes mode q).0 m in
        absurd (false≢true (sym (hash_of-none win32 path remotes e f i) ∙ rw (← d) s))
    | inr n ↦ n
  ]

-- One-way mode makes this side a mirror: once the actions are carried out, every path has exactly
-- the hash that the other side's list gives it, and none if that list has no such path.
pub one_way_converges :
    (win32 : Bool) (get_history : HistoryQueryFunc) (locals remotes : List FileInfo) (path : Str)
    → hash_after win32 locals remotes
        (compare_states_and_get_requests win32 locals remotes (some get_history) one_way)
        path
      ≡ hash_of win32 path remotes
one_way_converges win32 get_history locals remotes path =
    elim (Option-cases (hash_of win32 path remotes)) [
      | inr (hash, e) ↦ present win32 get_history locals remotes one_way path hash e ∙ sym e
      | inl e ↦
          rw (absent_request win32 get_history locals remotes one_way path e)
            (elim (Option-cases (hash_of win32 path locals)) [
              | inl n ↦ elim (Bool-cases (names win32 deleted path)) [
                | inl d ↦ rw d (sym e)
                | inr d ↦ rw d (n ∙ sym e)
              ]
              | inr (hash, h) ↦
                  let (f, m, s, _) = hash_of-some win32 path hash locals h in
                  rw
                    (names_of_In win32 deleted path f.path
                      (((one_way_mirrors win32 get_history locals remotes get_history).0 f.path).1
                        (f, m, refl, absent_at f.path e s))
                      s)
                    (sym e)
            ])
    ]
  where
    deleted : List Str
    deleted =
        (compare_states_and_get_requests win32 locals remotes (some get_history)
          one_way).files_to_delete

    absent_at :
        (p : Str)
        → hash_of win32 path remotes ≡ none
        → same_file win32 p path ≡ true
        → IsAbsent win32 remotes p
    absent_at p e s = hash_of-none win32 p remotes (hash_of_congr win32 p path remotes s ∙ e)

bi_directional_settles :
    (win32 : Bool) (get_history : HistoryQueryFunc) (locals remotes : List FileInfo) (path : Str)
    → let actions =
        compare_states_and_get_requests win32 locals remotes (some get_history) bi_directional in
      ((hash : Str)
        → hash_of win32 path remotes ≡ some hash
        → hash_after win32 locals remotes actions path ≡ some hash)
      × (hash_of win32 path remotes ≡ none
          → ((f : FileInfo)
              → In f locals
              → same_file win32 f.path path ≡ true
              → (last : SyncHistory) → safe_get_history get_history f.path ≡ some last
              → last.hash ≢ f.hash)
          → hash_after win32 locals remotes actions path ≡ hash_of win32 path locals)
bi_directional_settles win32 get_history locals remotes path = (
  present win32 get_history locals remotes bi_directional path,
  λ e unrecorded.
      rw (absent_request win32 get_history locals remotes bi_directional path e)
        (elim (Bool-cases (names win32 deleted path)) [
          | inr d ↦ rw d
          | inl d ↦
              let (q, m, s) = names-true win32 deleted path d in
              let (f, i, p, (_, (last, h, same))) =
                (deleted_bi_directional_iff win32 get_history locals remotes q).0 m in
              absurd (unrecorded f i (rw (← p) s) last h same)
        ]),
)
  where
    deleted : List Str
    deleted =
        (compare_states_and_get_requests win32 locals remotes (some get_history)
          bi_directional).files_to_delete

-- Two-way mode brings every path of the other side to the other side's hash.
pub bi_directional_takes_remote :
    (win32 : Bool) (get_history : HistoryQueryFunc) (locals remotes : List FileInfo)
    (path hash : Str)
    → hash_of win32 path remotes ≡ some hash
    → hash_after win32 locals remotes
        (compare_states_and_get_requests win32 locals remotes (some get_history) bi_directional)
        path
      ≡ some hash
bi_directional_takes_remote win32 get_history locals remotes path hash e =
    (bi_directional_settles win32 get_history locals remotes path).0 hash e

-- In two-way mode a path that the other side lacks keeps its hash, if the history records the
-- present hash of none of the local files that have this path.
pub bi_directional_keeps_local :
    (win32 : Bool) (get_history : HistoryQueryFunc) (locals remotes : List FileInfo) (path : Str)
    → hash_of win32 path remotes ≡ none
    → ((f : FileInfo)
        → In f locals
        → same_file win32 f.path path ≡ true
        → (last : SyncHistory) → safe_get_history get_history f.path ≡ some last
        → last.hash ≢ f.hash)
    → hash_after win32 locals remotes
        (compare_states_and_get_requests win32 locals remotes (some get_history) bi_directional)
        path
      ≡ hash_of win32 path locals
bi_directional_keeps_local win32 get_history locals remotes path e unrecorded =
    (bi_directional_settles win32 get_history locals remotes path).1 e unrecorded
