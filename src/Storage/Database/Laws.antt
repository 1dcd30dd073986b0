-- ===== src/Storage/Database/Laws.antt =====
-- What SQLite's documentation says of the calls in Database.cpp, and what that makes of them.
use veritas_sync.Base.{
  ℕ, ◌≡◌, refl, ◌∙◌, Bool, true, false, List, [], ◌∷◌, Option, none, some, arith, Str, str_key,
  nat_key, str_eq, if◌then◌else◌, Bool-cases, inl, inr, ◌≢◌,
}
use veritas_sync.Storage.Database.{
  FileMetadata, Sqlite, Db, is_open, when_ready, get_file, get_all_files, update_file, remove_file,
  begin_transaction_nolock, commit_transaction_nolock, rollback_transaction_nolock, open_guard,
  commit_guard, close_guard,
}

-- The rows as `m_cache.emplace(meta.path, meta)` collects them: the first row of a path counts.
unfoldable pub first_row : Str → List FileMetadata → Option FileMetadata
first_row path [] = none
first_row path (meta ∷ rows) = if str_eq meta.path path then some meta else first_row path rows

-- A statement that puts a value under a path. If it fails, the transaction may have been rolled
-- back; where it was not, the statement changed nothing.
pub record IsWrite (S : Sqlite) (saved : S.Conn → Str → Option FileMetadata)
    (run : S.Conn → Bool × S.Conn) (path : Str) (value : Option FileMetadata) : Type 0 where
  pub done :
      (c : S.Conn) (j : Str)
      → (run c).0 ≡ true
      → S.select (run c).1 j ≡ (if str_eq path j then value else S.select c j)
  pub done_saved : (c : S.Conn) (j : Str) → (run c).0 ≡ true → saved (run c).1 j ≡ saved c j
  pub failed :
      (c : S.Conn) (j : Str)
      → (run c).0 ≡ false
      → S.in_transaction (run c).1 ≡ S.in_transaction c
      → S.select (run c).1 j ≡ S.select c j
  pub failed_saved :
      (c : S.Conn) (j : Str)
      → (run c).0 ≡ false
      → S.in_transaction (run c).1 ≡ S.in_transaction c
      → saved (run c).1 j ≡ saved c j
  pub done_open : (c : S.Conn) → (run c).0 ≡ true → S.in_transaction (run c).1 ≡ S.in_transaction c
  pub not_opened : (c : S.Conn) → S.in_transaction c ≡ false → S.in_transaction (run c).1 ≡ false

-- `saved` is what the table held before the transaction that is open.
pub record IsSqlite (S : Sqlite) : Type 0 where
  pub saved : S.Conn → Str → Option FileMetadata
  pub all_rows : (c : S.Conn) (j : Str) → first_row j (S.select_all c) ≡ S.select c j
  pub upsert_writes :
      (p h : Str) (m : ℕ)
      → IsWrite S saved (λ c. S.upsert c p h m) p (some (record { path = p; hash = h; mtime = m }))
  pub delete_writes : (p : Str) → IsWrite S saved (λ c. S.delete c p) p none
  -- BEGIN; it fails within a transaction, and then opens none.
  pub begin_select :
      (c : S.Conn) (j : Str)
      → (S.exec_begin c).0 ≡ true
      → S.select (S.exec_begin c).1 j ≡ S.select c j
  pub begin_saved :
      (c : S.Conn) (j : Str) → (S.exec_begin c).0 ≡ true → saved (S.exec_begin c).1 j ≡ S.select c j
  pub begin_failed :
      (c : S.Conn)
      → (S.exec_begin c).0 ≡ false
      → S.in_transaction (S.exec_begin c).1 ≡ S.in_transaction c
  -- COMMIT; if it fails, the transaction is still open or was rolled back.
  pub commit_select :
      (c : S.Conn) (j : Str)
      → (S.exec_commit c).0 ≡ true
      → S.select (S.exec_commit c).1 j ≡ S.select c j
  pub commit_closes :
      (c : S.Conn) → (S.exec_commit c).0 ≡ true → S.in_transaction (S.exec_commit c).1 ≡ false
  pub commit_failed :
      (c : S.Conn) (j : Str)
      → (S.exec_commit c).0 ≡ false
      → S.in_transaction (S.exec_commit c).1 ≡ true
      → (S.select (S.exec_commit c).1 j ≡ S.select c j) × (saved (S.exec_commit c).1 j ≡ saved c j)
  -- ROLLBACK of a transaction that is open.
  pub rollback_select :
      (c : S.Conn) (j : Str)
      → S.in_transaction c ≡ true
      → S.select (S.exec_rollback c).1 j ≡ saved c j
  pub rollback_closes :
      (c : S.Conn) → S.in_transaction c ≡ true → S.in_transaction (S.exec_rollback c).1 ≡ false

both : {b : Bool} → b ≡ false → b ≢ true
both p q = cc

module _ (S : Sqlite) (L : IsSqlite S) where
  -- What the database held before the transaction that is open.
  abbrev pub before : Db S → Str → Option FileMetadata
  before d path = if d.ready then L.saved d.conn path else none

  pub get_all_files-first_row :
      (d : Db S) (j : Str) → first_row j (get_all_files S d) ≡ get_file S d j
  unfolding get_all_files get_file first_row
  get_all_files-first_row d j = ground (arith, L.all_rows d.conn j)

  -- The same as `IsWrite`, for an operation of the database.
  pub record Writes (run : Db S → Bool × Db S) (path : Str) (value : Option FileMetadata)
      : Type 0 where
    pub done :
        (d : Db S) (j : Str)
        → (run d).0 ≡ true
        → get_file S (run d).1 j ≡ (if str_eq path j then value else get_file S d j)
    pub done_before : (d : Db S) (j : Str) → (run d).0 ≡ true → before (run d).1 j ≡ before d j
    pub failed :
        (d : Db S) (j : Str)
        → (run d).0 ≡ false
        → is_open S (run d).1 ≡ is_open S d
        → get_file S (run d).1 j ≡ get_file S d j
    pub failed_before :
        (d : Db S) (j : Str)
        → (run d).0 ≡ false
        → is_open S (run d).1 ≡ is_open S d
        → before (run d).1 j ≡ before d j
    pub done_open : (d : Db S) → (run d).0 ≡ true → is_open S (run d).1 ≡ is_open S d
    pub not_opened : (d : Db S) → is_open S d ≡ false → is_open S (run d).1 ≡ false

  when_ready-Writes :
      (run : S.Conn → Bool × S.Conn) (path : Str) (value : Option FileMetadata)
      → IsWrite S L.saved run path value
      → Writes (when_ready S run) path value
  unfolding get_file
  when_ready-Writes run path value w = record {
    done = λ d j. elim (Bool-cases d.ready) [
      | inl e ↦ rw e (λ h. w.done d.conn j h)
      | inr e ↦ rw e (λ h. cc)
    ];
    done_before = λ d j. elim (Bool-cases d.ready) [
      | inl e ↦ rw e (λ h. w.done_saved d.conn j h)
      | inr e ↦ rw e (λ h. cc)
    ];
    failed = λ d j. elim (Bool-cases d.ready) [
      | inl e ↦ rw e (λ h k. w.failed d.conn j h k)
      | inr e ↦ rw e (λ h k. refl)
    ];
    failed_before = λ d j. elim (Bool-cases d.ready) [
      | inl e ↦ rw e (λ h k. w.failed_saved d.conn j h k)
      | inr e ↦ rw e (λ h k. refl)
    ];
    done_open = λ d. elim (Bool-cases d.ready) [
      | inl e ↦ rw e (λ h. w.done_open d.conn h)
      | inr e ↦ rw e (λ h. cc)
    ];
    not_opened = λ d. elim (Bool-cases d.ready) [
      | inl e ↦ rw e (λ h. w.not_opened d.conn h)
      | inr e ↦ rw e (λ h. h)
    ];
  }

  pub update_file-Writes :
      (path hash : Str) (mtime : ℕ)
      → Writes
          (λ d. update_file S d path hash mtime)
          path
          (some (record { path = path; hash = hash; mtime = mtime }))
  unfolding update_file
  update_file-Writes path hash mtime =
      when_ready-Writes (λ c. S.upsert c path hash mtime) path _ (L.upsert_writes path hash mtime)

  pub remove_file-Writes : (path : Str) → Writes (λ d. remove_file S d path) path none
  unfolding remove_file
  remove_file-Writes path =
      when_ready-Writes (λ c. S.delete c path) path none (L.delete_writes path)

  -- A transaction that is open after BEGIN, and was not before it, saves what the table holds.
  pub open_guard-saves :
      (d : Db S) (j : Str)
      → is_open S d ≡ false
      → is_open S (open_guard S d) ≡ true
      → (get_file S (open_guard S d) j ≡ get_file S d j)
        × (before (open_guard S d) j ≡ get_file S d j)
  unfolding open_guard begin_transaction_nolock get_file
  open_guard-saves d j closed opened = elim (Bool-cases (S.exec_begin d.conn).0) [
    | inl e ↦ (ground (arith, L.begin_select d.conn j e), ground (arith, L.begin_saved d.conn j e))
    | inr e ↦ absurd (both (L.begin_failed d.conn e ∙ closed) opened)
  ]

  pub commit_guard-done :
      (d : Db S) (j : Str)
      → (commit_guard S false d).0 ≡ true
      → (get_file S (commit_guard S false d).1 j ≡ get_file S d j)
        × (is_open S (commit_guard S false d).1 ≡ false)
  unfolding commit_guard commit_transaction_nolock get_file
  commit_guard-done d j e = (ground (arith, L.commit_select d.conn j e), L.commit_closes d.conn e)

  pub commit_guard-failed :
      (d : Db S) (j : Str)
      → (commit_guard S false d).0 ≡ false
      → is_open S (commit_guard S false d).1 ≡ true
      → (get_file S (commit_guard S false d).1 j ≡ get_file S d j)
        × (before (commit_guard S false d).1 j ≡ before d j)
  unfolding commit_guard commit_transaction_nolock get_file
  commit_guard-failed d j e o =
      let (same, kept) = L.commit_failed d.conn j e o in
      (ground (arith, same), ground (arith, kept))

  pub close_guard-restores :
      (d : Db S) (j : Str)
      → is_open S d ≡ true
      → (get_file S (close_guard S false d) j ≡ before d j)
        × (is_open S (close_guard S false d) ≡ false)
  unfolding close_guard rollback_transaction_nolock get_file
  close_guard-restores d j o =
      (ground (arith, L.rollback_select d.conn j o), L.rollback_closes d.conn o)
