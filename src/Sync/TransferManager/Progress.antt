-- ===== src/Sync/TransferManager/Progress.antt =====
-- A download in progress: the bitmap, the count and the temporary file say the same.
use native.Mathlib.Decide.{ℕ_discrete}
use veritas_sync.Base.{
  none, ℕ, ◌+◌, ◌*◌, ◌%◌, ◌^◌, ◌≤◌, ◌<◌, ◌≡◌, sym, ◌∙◌, ◌≢◌, ◌⊎◌, inl, inr, Bool, true, false, List,
  [], ◌∷◌, some, arith, Str, str_key, nat_key, length, get_elem?, In,
}
use veritas_sync.Sync.TransferManager.State.{ReceivingFile, Io, set_bit, count_true}
use veritas_sync.Sync.TransferManager.TempFile.{
  write_at, get-write_at, get-write_at_other, length-write_at, same_bytes,
}
use veritas_sync.Sync.TransferManager.Bits.{
  get-set_bit, get-set_bit_other, length-set_bit, count_true-set_bit, count_true-le-length,
}
use veritas_sync.Sync.TransferManager.Slices.{
  chunk_of, get-chunk_of, length-chunk_of, chunk_of_within, chunks_apart, byte_in_chunk,
}

-- The bytes of the chunks that were seen stand in `content`, which is not longer than the file.
pub record HasChunks (size : ℕ) (file : Str) (seen : List ℕ) (content : Str) : Type 0 where
  pub not_longer : length content ≤ length file
  pub stored :
      (i j x : ℕ)
      → In i seen
      → j < size
      → get_elem? file (i * size + j) ≡ some x
      → get_elem? content (i * size + j) ≡ some x

-- The entry of a download of `total` chunks of which those in `seen` are there.
pub record Tracks (total : ℕ) (seen : List ℕ) (temp hash : Str) (rf : ReceivingFile) : Type 0 where
  pub temp_file : rf.temp_path ≡ temp
  pub all_chunks : rf.total_chunks ≡ total
  pub one_bit_each : length rf.received_bitmap ≡ total
  pub count_exact : rf.received_chunks ≡ count_true rf.received_bitmap
  pub only_seen : (i : ℕ) → get_elem? rf.received_bitmap i ≡ some true → In i seen
  pub all_seen : (i : ℕ) → In i seen → get_elem? rf.received_bitmap i ≡ some true
  pub hash_kept : rf.expected_hash ≡ hash

-- Every call of the file system succeeds.
abbrev pub all_well : Io
all_well = record {
  dirs_made = true;
  opened = true;
  written = true;
  renamed = true;
  copied = true;
  removed = true;
  hashed = true;
  torn = [];
  half_copied = none;
}

-- Writing one more chunk of the file.
pub write_at-HasChunks :
    (size : ℕ) (file : Str) (seen : List ℕ) (content : Str) (i : ℕ)
    → HasChunks size file seen content
    → HasChunks size file (i ∷ seen) (write_at (i * size) (chunk_of size file i) content)
write_at-HasChunks size file seen content i h = record {
  not_longer =
      length-write_at (i * size) (chunk_of size file i) content (length file)
        (chunk_of_within size file i) h.not_longer;
  stored = λ k j x m l e. stored k j x m l e;
}
  where
    own :
        (j x : ℕ)
        → j < size
        → get_elem? file (i * size + j) ≡ some x
        → get_elem? (write_at (i * size) (chunk_of size file i) content) (i * size + j) ≡ some x
    own j x l e =
        get-write_at (i * size) (chunk_of size file i) content j x
          (get-chunk_of size file i j l ∙ e)

    apart :
        (k j : ℕ)
        → k ≢ i
        → j < size
        → (k * size + j < i * size) ⊎ (i * size + length (chunk_of size file i) ≤ k * size + j)
    apart k j n l = elim (chunks_apart size i k j n l) [
      | inl a ↦ inl a
      | inr b ↦ inr (omega (arith, b, length-chunk_of size file i))
    ]

    stored :
        (k j x : ℕ)
        → In k (i ∷ seen)
        → j < size
        → get_elem? file (k * size + j) ≡ some x
        → get_elem? (write_at (i * size) (chunk_of size file i) content) (k * size + j) ≡ some x
    stored k j x m l e = elim (ℕ_discrete k i) [
      | yes p ↦ rw p (own j x l (rw (← p) e))
      | no n ↦ elim m [
        | inl p ↦ absurd (n p)
        | inr s ↦
            get-write_at_other (i * size) (chunk_of size file i) content (k * size + j) x
              (apart k j n l) (h.stored k j x s l e)
      ]
    ]

-- A text that has every chunk is the file.
pub HasChunks-whole :
    (size total : ℕ) (file : Str) (seen : List ℕ) (content : Str)
    → 0 < size
    → length file ≤ total * size
    → ((i : ℕ) → i < total → In i seen)
    → HasChunks size file seen content
    → content ≡ file
HasChunks-whole size total file seen content pos covers all h =
    same_bytes content file h.not_longer (λ k x e.
      let (i, j, l, m, p) = byte_in_chunk size total file k x pos covers e in
      rw p (h.stored i j x (all i l) m (rw (← p) e)))

-- Marking one more chunk.
pub set_bit-Tracks :
    (total : ℕ) (seen : List ℕ) (temp hash : Str) (rf : ReceivingFile) (i : ℕ) (busy : Bool)
    → total ≤ 8388608
    → i < total
    → get_elem? rf.received_bitmap i ≡ some false
    → Tracks total seen temp hash rf
    → Tracks total (i ∷ seen) temp hash (record rf {
      received_bitmap = set_bit i rf.received_bitmap;
      received_chunks = (rf.received_chunks + 1) % 2 ^ 32;
      busy = busy;
    })
set_bit-Tracks total seen temp hash rf i busy small l e h = record {
  temp_file = h.temp_file;
  all_chunks = h.all_chunks;
  one_bit_each = length-set_bit i rf.received_bitmap ∙ h.one_bit_each;
  count_exact = omega (
    arith,
    h.count_exact,
    count_true-set_bit i rf.received_bitmap e,
    count_true-le-length rf.received_bitmap,
    h.one_bit_each,
  );
  only_seen = λ k g. elim (ℕ_discrete k i) [
    | yes p ↦ inl p
    | no n ↦ inr (h.only_seen k (sym (get-set_bit_other i k rf.received_bitmap n) ∙ g))
  ];
  all_seen = λ k m. elim (ℕ_discrete k i) [
    | yes p ↦ rw p (get-set_bit i rf.received_bitmap (rw h.one_bit_each l))
    | no n ↦ elim m [
      | inl p ↦ absurd (n p)
      | inr s ↦ get-set_bit_other i k rf.received_bitmap n ∙ h.all_seen k s
    ]
  ];
  hash_kept = h.hash_kept;
}
