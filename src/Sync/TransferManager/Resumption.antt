-- ===== src/Sync/TransferManager/Resumption.antt =====
-- The answer of check_resume_eligibility.
use veritas_sync.Base.{
  ℕ, zero, suc, ◌<◌, ◌≡◌, refl, sym, ◌∙◌, ◌≢◌, ◌⊎◌, inl, inr, Bool, true, false, not, ◌&&◌, ◌||◌,
  List, [], ◌∷◌, Option, none, some, arith, Str, str_key, nat_key, nat_eq, str_eq, str_eq_iff, ltb,
  leb, if◌then◌else◌, length, get_elem?, Bool-cases, Option-cases,
}
use veritas_sync.Base.Map.{Map, find}
use veritas_sync.Sync.TransferManager.State.{ReceivingFile, Transfer, Io, count_true}
use veritas_sync.Sync.TransferManager.Bits.{count_true-le-length}
use veritas_sync.Sync.TransferManager.Resume.{
  ResumeInfo, resume_info, drop_download, contiguous, check_entry, check_resume_eligibility,
}
use veritas_sync.Sync.TransferManager.Invariant.{IsConsistent, AllConsistent, find-All}

contiguous-received :
    (bitmap : List Bool) (i : ℕ) → i < contiguous bitmap → get_elem? bitmap i ≡ some true
unfolding contiguous
contiguous-received [] i l = absurd (omega (arith, l))
contiguous-received (true ∷ bitmap) zero l = refl
contiguous-received (true ∷ bitmap) (suc i) l = contiguous-received bitmap i (omega (arith, l))
contiguous-received (false ∷ bitmap) i l = absurd (omega (arith, l))

contiguous-missing :
    (bitmap : List Bool)
    → count_true bitmap < length bitmap
    → get_elem? bitmap (contiguous bitmap) ≡ some false
unfolding contiguous count_true
contiguous-missing [] l = absurd (omega (arith, l))
contiguous-missing (true ∷ bitmap) l = contiguous-missing bitmap (omega (arith, l))
contiguous-missing (false ∷ bitmap) l = refl

contiguous-within :
    (bitmap : List Bool) → count_true bitmap < length bitmap → contiguous bitmap < length bitmap
unfolding contiguous count_true
contiguous-within [] l = absurd (omega (arith, l))
contiguous-within (true ∷ bitmap) l = omega (arith, contiguous-within bitmap (omega (arith, l)))
contiguous-within (false ∷ bitmap) l = omega arith

-- What a download that may go on has.
pub record IsResumable (info : ResumeInfo) (remote_hash : Str) (disk : Map Str Str)
    (rf : ReceivingFile) : Type 0 where
  pub before_start : (i : ℕ) → i < info.received_chunks → get_elem? rf.received_bitmap i ≡ some true
  pub start_missing : get_elem? rf.received_bitmap info.received_chunks ≡ some false
  pub not_at_end : info.received_chunks < info.total_chunks
  pub same_total : info.total_chunks ≡ rf.total_chunks
  pub same_hash : (rf.expected_hash ≡ []) ⊎ (remote_hash ≡ []) ⊎ (rf.expected_hash ≡ remote_hash)
  pub stored : find rf.temp_path disk ≢ none

unchanged_hash :
    (expected remote : Str) (size_changed : Bool)
    → (not (nat_eq (length expected) 0)
          && not (nat_eq (length remote) 0)
          && not (str_eq expected remote)
        || size_changed)
      ≡ false
    → (expected ≡ []) ⊎ (remote ≡ []) ⊎ (expected ≡ remote)
unchanged_hash [] remote size_changed e = inl refl
unchanged_hash (x ∷ expected) [] size_changed e = inr (inl refl)
unchanged_hash (x ∷ expected) (y ∷ remote) size_changed e =
    elim (Bool-cases (str_eq (x ∷ expected) (y ∷ remote))) [
      | inl p ↦ inr (inr ((str_eq_iff (x ∷ expected) (y ∷ remote)).0 p))
      | inr p ↦
          let some_left : nat_eq (length (x ∷ expected)) 0 ≡ false = ground arith in
          let some_right : nat_eq (length (y ∷ remote)) 0 ≡ false = ground arith in
          absurd (true_is_not_false (rw (some_left, some_right, p) at e))
    ]
  where
    true_is_not_false : true ≢ false
    true_is_not_false z = cc

check_entry-IsResumable :
    (io : Io) (path remote_hash : Str) (remote_size : ℕ) (rf : ReceivingFile) (t : Transfer)
    (info : ResumeInfo)
    → IsConsistent rf
    → (check_entry io path remote_hash remote_size rf t).0 ≡ some info
    → IsResumable info remote_hash t.disk rf
unfolding check_entry
check_entry-IsResumable io path remote_hash remote_size rf t info h e =
    elim (Bool-cases (ltb 0 rf.total_chunks && leb rf.total_chunks rf.received_chunks)) [
      | inl p ↦ absurd (no_info (rw p at e))
      | inr p ↦ elim (Bool-cases (nat_eq rf.received_chunks 0)) [
        | inl q ↦ absurd (no_info (rw (p, q) at e))
        | inr q ↦ elim (Option-cases (find rf.temp_path t.disk)) [
          | inl d ↦ absurd (no_info (rw (p, q, d, check_entry) at e))
          | inr (content, d) ↦
              accepted
                (ground (
                  arith,
                  p,
                  q,
                  h.count_exact,
                  h.one_bit_each,
                  count_true-le-length rf.received_bitmap,
                ))
                (λ z. some_is_not_none content (sym d ∙ z)) (rw (p, q, d, check_entry) at e)
        ]
      ]
    ]
  where
    no_info : ◌≢◌ {A = Option ResumeInfo} none (some info)
    no_info z = cc

    some_is_not_none : (content : Str) → ◌≢◌ {A = Option Str} (some content) none
    some_is_not_none content z = cc

    some_info : {a b : ResumeInfo} → some a ≡ some b → b ≡ a
    some_info z = cc

    before_end :
        count_true rf.received_bitmap < length rf.received_bitmap
        → contiguous rf.received_bitmap < rf.total_chunks
    before_end fewer = omega (arith, contiguous-within rf.received_bitmap fewer, h.one_bit_each)

    accepted :
        count_true rf.received_bitmap < length rf.received_bitmap
        → find rf.temp_path t.disk ≢ none
        → (if◌then◌else◌ {A = Option ResumeInfo × Transfer}
            (not (nat_eq (length rf.expected_hash) 0)
                && not (nat_eq (length remote_hash) 0)
                && not (str_eq rf.expected_hash remote_hash)
              || ltb 0 rf.expected_size
                && ltb 0 remote_size
                && not (nat_eq rf.expected_size remote_size))
            (none, drop_download io path rf t)
            (some (resume_info path rf), t)).0
          ≡ some info
        → IsResumable info remote_hash t.disk rf
    accepted fewer there z =
        elim (Bool-cases (
          not (nat_eq (length rf.expected_hash) 0)
            && not (nat_eq (length remote_hash) 0)
            && not (str_eq rf.expected_hash remote_hash)
          || ltb 0 rf.expected_size
            && ltb 0 remote_size
            && not (nat_eq rf.expected_size remote_size))) [
              | inl c ↦ absurd (no_info (rw c at z))
              | inr c ↦ rw (some_info (rw c at z)) (record {
                before_start = contiguous-received rf.received_bitmap;
                start_missing = contiguous-missing rf.received_bitmap fewer;
                not_at_end = before_end fewer;
                same_total = refl;
                same_hash = unchanged_hash rf.expected_hash remote_hash _ c;
                stored = there;
              })
            ]

-- A download that may go on starts at the first chunk that is missing: all before it are there and
-- the file has more. Its temporary file is on the disk, and the hash that it expects, if it expects
-- one, is the one that was offered, if one was. Every entry is one with a bit for each chunk and an
-- exact count.
pub check_resume_eligibility-IsResumable :
    (io : Io) (path remote_hash : Str) (remote_size : ℕ) (t : Transfer) (info : ResumeInfo)
    → AllConsistent t
    → (check_resume_eligibility io path remote_hash remote_size t).0 ≡ some info
    → (rf : ReceivingFile) × (find path t.receiving_files ≡ some rf)
      × IsResumable info remote_hash t.disk rf
unfolding check_resume_eligibility
check_resume_eligibility-IsResumable io path remote_hash remote_size t info all e =
    elim (Option-cases (find path t.receiving_files)) [
      | inl p ↦ absurd (no_info (rw (p, check_resume_eligibility) at e))
      | inr (rf, p) ↦ (
        rf,
        p,
        check_entry-IsResumable io path remote_hash remote_size rf t info
            (find-All IsConsistent path rf t.receiving_files p all)
            (rw (p, check_resume_eligibility) at e),
      )
    ]
  where
    no_info : ◌≢◌ {A = Option ResumeInfo} none (some info)
    no_info z = cc
