-- ===== src/Sync/TransferManager/Invariant.antt =====
-- What holds of every file that is being received.
use veritas_sync.Base.{
  ℕ, ◌^◌, ◌<◌, ◌≡◌, refl, sym, ap, ◌∙◌, ◌≢◌, inl, inr, Bool, List, [], ◌∷◌, Option, none, some,
  arith, Str, ◌==◌, str_key, nat_key, nat_eq, length, Bool-cases, Option-cases, All,
}
use veritas_sync.Base.Map.{Map, find, insert_or_assign, erase}
use veritas_sync.Sync.TransferManager.State.{ReceivingFile, Transfer, Io, count_true}
use veritas_sync.Sync.TransferManager.Entry.{new_task, match_total}
use veritas_sync.Sync.TransferManager.Bits.{
  length-replicate_false, count_true-replicate_false, resize-none, length-resize,
}
use veritas_sync.Sync.TransferManager.Resume.{change_files}

-- The bitmap has one bit for each chunk, and the count is the number of bits that are set.
pub record IsConsistent (rf : ReceivingFile) : Type 0 where
  pub one_bit_each : length rf.received_bitmap ≡ rf.total_chunks
  pub count_exact : rf.received_chunks ≡ count_true rf.received_bitmap
  pub fits : rf.total_chunks < 2 ^ 32

abbrev pub AllConsistent : Transfer → Type 0
AllConsistent t = All (λ (path, rf). IsConsistent rf) t.receiving_files

pub insert-All :
    (P : ReceivingFile → Type 0) (path : Str) (rf : ReceivingFile) (files : Map Str ReceivingFile)
    → P rf
    → All (λ (p, f). P f) files
    → All (λ (p, f). P f) (insert_or_assign path rf files)
unfolding insert_or_assign
insert-All P path rf [] h all = (h, tt)
insert-All P path rf ((q, f) ∷ files) h (k, all) = elim (Bool-cases (q == path)) [
  | inl e ↦ rw e (h, all)
  | inr e ↦ rw e (k, insert-All P path rf files h all)
]

pub erase-All :
    (P : ReceivingFile → Type 0) (path : Str) (files : Map Str ReceivingFile)
    → All (λ (p, f). P f) files
    → All (λ (p, f). P f) (erase path files)
unfolding erase
erase-All P path [] all = tt
erase-All P path ((q, f) ∷ files) (k, all) = elim (Bool-cases (q == path)) [
  | inl e ↦ rw e (erase-All P path files all)
  | inr e ↦ rw e (k, erase-All P path files all)
]

pub find-All :
    (P : ReceivingFile → Type 0) (path : Str) (rf : ReceivingFile) (files : Map Str ReceivingFile)
    → find path files ≡ some rf
    → All (λ (p, f). P f) files
    → P rf
unfolding find
find-All P path rf [] e all = absurd (no_file e)
  where
    no_file : ◌≢◌ {A = Option ReceivingFile} none (some rf)
    no_file q = cc
find-All P path rf ((q, f) ∷ files) e (k, all) = elim (Bool-cases (q == path)) [
  | inl p ↦ let same : f ≡ rf = some_same (rw p at e) in rw (← same) k
  | inr p ↦ find-All P path rf files (rw p at e) all
]
  where
    some_same : some f ≡ some rf → f ≡ rf
    some_same h = cc

pub change_files-All :
    (P : ReceivingFile → Type 0) (change : ReceivingFile → Option ReceivingFile)
    (files : Map Str ReceivingFile)
    → ((rf rf' : ReceivingFile) → P rf → change rf ≡ some rf' → P rf')
    → All (λ (p, f). P f) files
    → All (λ (p, f). P f) (change_files change files)
unfolding change_files
change_files-All P change [] keeps all = tt
change_files-All P change ((q, f) ∷ files) keeps (k, all) = elim (Option-cases (change f)) [
  | inl e ↦ rw (e, change_files) (change_files-All P change files keeps all)
  | inr (f', e) ↦ rw (e, change_files) (keeps f f' k e, change_files-All P change files keeps all)
]

pub new_task-IsConsistent :
    (root path : Str) (total : ℕ) (peer_id : Str)
    → total < 2 ^ 32
    → IsConsistent (new_task root path total peer_id)
new_task-IsConsistent root path total peer_id l = record {
  one_bit_each = length-replicate_false total;
  count_exact = sym (count_true-replicate_false total);
  fits = l;
}

-- The entry that `match_total` leaves has the number of chunks that the header names.
pub match_total-IsConsistent :
    (io : Io) (temp : Str) (total : ℕ) (rf : ReceivingFile) (disk : Map Str Str)
    → total < 2 ^ 32
    → IsConsistent rf
    → IsConsistent (match_total io temp total rf disk).0
      × ((match_total io temp total rf disk).0.total_chunks ≡ total)
unfolding match_total count_true
match_total-IsConsistent io temp total rf disk l h = elim (Bool-cases (nat_eq rf.total_chunks 0)) [
  | inl e ↦
      let empty : rf.received_bitmap ≡ [] =
        no_bits rf.received_bitmap (h.one_bit_each ∙ ground (arith, e)) in
      let none_set : rf.received_chunks ≡ 0 = h.count_exact ∙ rw empty refl in
      rw e (
        rw empty (record {
          one_bit_each = length-resize total [];
          count_exact =
              none_set
              ∙ sym (ap (λ b. count_true b) (resize-none total) ∙ count_true-replicate_false total);
          fits = l;
        }),
        refl,
      )
  | inr e ↦ elim (Bool-cases (nat_eq rf.total_chunks total)) [
    | inl p ↦ rw (e, p) (h, ground (arith, p))
    | inr p ↦
        rw (e, p)
          (
            record {
              one_bit_each = length-replicate_false total;
              count_exact = sym (count_true-replicate_false total);
              fits = l;
            },
            refl,
          )
  ]
]
  where
    no_bits : (bitmap : List Bool) → length bitmap ≡ 0 → bitmap ≡ []
    no_bits [] z = refl
    no_bits (b ∷ bitmap) z = absurd (omega (arith, z))
