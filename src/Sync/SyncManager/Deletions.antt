-- ===== src/Sync/SyncManager/Deletions.antt =====
-- Which files are set aside under a conflict name, and which are deleted.
use veritas_sync.Base.{
  ◌≡◌, refl, ap, ◌≢◌, ◌↔◌, inl, inr, Bool, true, false, List, [], ◌∷◌, Option, none, some, arith,
  Str, str_key, nat_key, str_eq_iff, Option-cases, In, keep_if,
}
use veritas_sync.Sync.Protocol.{FileInfo, SyncHistory, SyncMode, one_way, bi_directional}
use veritas_sync.Sync.SyncManager.{
  HistoryQueryFunc, safe_get_history, detect_conflict, is_conflict, should_delete, path_set,
  paths_of, compare_states_and_get_requests,
}
use veritas_sync.Sync.SyncManager.Tables.{same_file, hash_of, names, contains-path_set}
use veritas_sync.Sync.SyncManager.Files.{conflicts, compare_states-eq, In-paths_of, requested_iff}

-- No remote file has this path.
abbrev pub IsAbsent : Bool → List FileInfo → Str → Type 0
IsAbsent win32 remotes p = (r : FileInfo) → In r remotes → same_file win32 r.path p ≡ false

names-IsAbsent :
    (win32 : Bool) (remotes : List FileInfo) (p : Str)
    → (names win32 (paths_of remotes) p ≡ false) ↔ IsAbsent win32 remotes p
names-IsAbsent win32 [] p = (λ _ r m. elim m [ ], λ _. refl)
names-IsAbsent win32 (x ∷ remotes) p =
    let (forth, back) = names-IsAbsent win32 remotes p in
    (
      λ e r m. elim m [ inl q ↦ rw q (ground arith) | inr n ↦ forth (ground arith) r n ],
      λ a. ground (arith, a x (inl refl), back (λ r n. a r (inr n))),
    )

-- The hash differs from that of the record, if there is one.
abbrev pub IsUnrecorded : Str → Option SyncHistory → Type 0
IsUnrecorded local_hash history =
    (last : SyncHistory) → history ≡ some last → local_hash ≢ last.hash

detect_conflict_iff :
    (local_hash : Str) (history : Option SyncHistory)
    → (detect_conflict local_hash history ≡ true) ↔ IsUnrecorded local_hash history
unfolding detect_conflict
detect_conflict_iff local_hash none = (λ _ r e. cc, λ _. refl)
detect_conflict_iff local_hash (some h) = (
  λ t r e. ground (arith, str_eq_iff local_hash h.hash),
  λ u. ground (arith, str_eq_iff local_hash h.hash, u h refl),
)

-- One-way mode finds no conflict, whatever the history says.
no_conflicts :
    (win32 : Bool) (get_history : HistoryQueryFunc) (locals files : List FileInfo)
    → keep_if (conflicts win32 one_way get_history locals) files ≡ []
unfolding is_conflict
no_conflicts win32 get_history locals [] = refl
no_conflicts win32 get_history locals (f ∷ files) =
    ground (arith, no_conflicts win32 get_history locals files)

one_way-eq :
    (win32 : Bool) (get_history other : HistoryQueryFunc) (locals remotes : List FileInfo)
    → compare_states_and_get_requests win32 locals remotes (some get_history) one_way
      ≡ compare_states_and_get_requests win32 locals remotes (some other) one_way
unfolding should_delete
one_way-eq win32 get_history other locals remotes = rw (
  compare_states-eq win32 one_way get_history locals remotes,
  compare_states-eq win32 one_way other locals remotes,
  no_conflicts win32 get_history locals remotes,
  no_conflicts win32 other locals remotes,
)

module _ (win32 : Bool) (get_history : HistoryQueryFunc) (locals remotes : List FileInfo) where
  conflicts_iff :
      (f : FileInfo)
      → (conflicts win32 bi_directional get_history locals f ≡ true) ↔ (
          (local_hash : Str) × (hash_of win32 f.path locals ≡ some local_hash)
          × (local_hash ≢ f.hash)
          × IsUnrecorded local_hash (safe_get_history get_history f.path))
  unfolding is_conflict
  conflicts_iff f = elim (Option-cases (hash_of win32 f.path locals)) [
    | inl e ↦ rw e (λ t. cc, λ (h, q, _, _). cc)
    | inr (h, e) ↦ rw e (
      λ t. (
        h,
        refl,
        ground (arith, str_eq_iff h f.hash),
        (detect_conflict_iff h (safe_get_history get_history f.path)).0 (ground arith),
      ),
      λ (g, q, d, u). ground (
        arith,
        str_eq_iff g f.hash,
        (detect_conflict_iff g (safe_get_history get_history f.path)).1 u,
      ),
    )
  ]

  -- In two-way mode a path is set aside under a conflict name exactly when it is the path of a
  -- remote file that this side has with another hash, and the hash on this side is not the one
  -- recorded at the last synchronisation: there is no record (or the query threw), or the record
  -- has another hash, also where that is the hash of the remote file.
  pub conflict_renamed_iff :
      (p : Str)
      → In p
          (compare_states_and_get_requests win32 locals remotes
            (some get_history)
            bi_directional).files_to_conflict_rename
        ↔ ((f : FileInfo) × In f remotes
            × (p ≡ f.path)
            × ((local_hash : Str) × (hash_of win32 f.path locals ≡ some local_hash)
                × (local_hash ≢ f.hash)
                × IsUnrecorded local_hash (safe_get_history get_history f.path)))
  conflict_renamed_iff p = rw (compare_states-eq win32 bi_directional get_history locals remotes) (
    λ m. let (f, q, e, t) = (In-paths_of p _ remotes).0 m in (f, q, e, (conflicts_iff f).0 t),
    λ (f, q, e, c). (In-paths_of p _ remotes).1 (f, q, e, (conflicts_iff f).1 c),
  )

  deletes_iff :
      (f : FileInfo)
      → (should_delete win32 bi_directional get_history (path_set win32 [] (paths_of remotes)) f
          ≡ true)
        ↔ (IsAbsent win32 remotes f.path
            × ((last : SyncHistory) × (safe_get_history get_history f.path ≡ some last)
                × (last.hash ≡ f.hash)))
  unfolding should_delete
  deletes_iff f =
      let absent = names-IsAbsent win32 remotes f.path in
      rw contains-path_set (elim (Option-cases (safe_get_history get_history f.path)) [
        | inl e ↦ rw e (λ t. absurd (ground arith), λ (_, (l, q, _)). absurd (ground arith))
        | inr (l, e) ↦ rw e (
          λ t. (absent.0 (ground arith), (l, refl, ground (arith, str_eq_iff l.hash f.hash))),
          λ (a, (k, q, h)). ground (arith, absent.1 a, str_eq_iff l.hash f.hash),
        )
      ])

  -- In two-way mode a local file is deleted exactly when no remote file has its path and the last
  -- synchronisation recorded the very hash it has now; so a file that is new here, or changed
  -- here, or whose history cannot be read, is kept.
  pub deleted_bi_directional_iff :
      (p : Str)
      → In p
          (compare_states_and_get_requests win32 locals remotes
            (some get_history)
            bi_directional).files_to_delete
        ↔ ((f : FileInfo) × In f locals
            × (p ≡ f.path)
            × (IsAbsent win32 remotes f.path
                × ((last : SyncHistory) × (safe_get_history get_history f.path ≡ some last)
                    × (last.hash ≡ f.hash))))
  deleted_bi_directional_iff p =
      rw (compare_states-eq win32 bi_directional get_history locals remotes) (
        λ m. let (f, q, e, t) = (In-paths_of p _ locals).0 m in (f, q, e, (deletes_iff f).0 t),
        λ (f, q, e, t). (In-paths_of p _ locals).1 (f, q, e, (deletes_iff f).1 t),
      )

  mirrors_iff :
      (f : FileInfo)
      → (should_delete win32 one_way get_history (path_set win32 [] (paths_of remotes)) f ≡ true)
        ↔ IsAbsent win32 remotes f.path
  unfolding should_delete
  mirrors_iff f =
      let absent = names-IsAbsent win32 remotes f.path in
      rw contains-path_set (λ t. absent.0 (ground arith), λ a. ground (arith, absent.1 a))

  -- In one-way mode a local file is deleted exactly when no remote file has its path; nothing is
  -- set aside under a conflict name, and the answers of the history have no influence.
  pub one_way_mirrors :
      (other : HistoryQueryFunc)
      → let actions =
          compare_states_and_get_requests win32 locals remotes (some get_history) one_way in
        ((p : Str)
          → In p actions.files_to_delete
            ↔ ((f : FileInfo) × In f locals × (p ≡ f.path) × IsAbsent win32 remotes f.path))
        × (actions.files_to_conflict_rename ≡ [])
        × (actions ≡ compare_states_and_get_requests win32 locals remotes (some other) one_way)
  unfolding should_delete
  one_way_mirrors other = (
    λ p. rw (compare_states-eq win32 one_way get_history locals remotes) (
      λ m. let (f, q, e, t) = (In-paths_of p _ locals).0 m in (f, q, e, (mirrors_iff f).0 t),
      λ (f, q, e, t). (In-paths_of p _ locals).1 (f, q, e, (mirrors_iff f).1 t),
    ),
    rw (compare_states-eq win32 one_way get_history locals remotes)
        (ap paths_of (no_conflicts win32 get_history locals remotes)),
    one_way-eq win32 get_history other locals remotes,
  )

  -- No file is both requested and deleted, in either mode: whenever one path is requested and
  -- another deleted, they name different files.
  pub requested-deleted_disjoint :
      (mode : SyncMode) (p q : Str)
      → In p
          (compare_states_and_get_requests win32 locals remotes
            (some get_history)
            mode).files_to_request
      → In q
          (compare_states_and_get_requests win32 locals remotes
            (some get_history)
            mode).files_to_delete
      → same_file win32 p q ≡ false
  requested-deleted_disjoint one_way p q m n =
      let (f, i, e, _) = (requested_iff win32 get_history locals remotes one_way p).0 m in
      let (g, _, d, absent) = ((one_way_mirrors get_history).0 q).0 n in rw (e, d) (absent f i)
  requested-deleted_disjoint bi_directional p q m n =
      let (f, i, e, _) = (requested_iff win32 get_history locals remotes bi_directional p).0 m in
      let (g, _, d, (absent, _)) = (deleted_bi_directional_iff q).0 n in rw (e, d) (absent f i)
