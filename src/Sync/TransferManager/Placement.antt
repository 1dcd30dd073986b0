-- ===== src/Sync/TransferManager/Placement.antt =====
-- A chunk is placed in a download that is in progress.
use veritas_sync.Base.{
  ℕ, ◌+◌, ◌*◌, ◌%◌, ◌^◌, ◌≤◌, ◌<◌, ◌≡◌, refl, ◌∙◌, inl, inr, false, List, ◌∷◌, some, arith, Str,
  str_key, nat_key, leb, get_elem?, Bool-cases, In,
}
use veritas_sync.Base.Map.{find, find-insert_self}
use veritas_sync.Sync.TransferManager.State.{ReceivingFile, Transfer, temp_path_of}
use veritas_sync.Sync.TransferManager.TempFile.{write_at}
use veritas_sync.Sync.TransferManager.Bits.{count_true-lt-length, get_within}
use veritas_sync.Sync.TransferManager.Slices.{chunk_of}
use veritas_sync.Sync.TransferManager.{place_chunk}
use veritas_sync.Sync.TransferManager.Progress.{
  HasChunks, Tracks, all_well, write_at-HasChunks, set_bit-Tracks,
}
use veritas_sync.Sync.TransferManager.Step.{header_of, place_again, marked, place_new}

-- The file that a download is of.
module _ (size : ℕ) (sha256 : Str → Str) (root path peer_id : Str) (file hash : Str)
    (total : ℕ) where
  -- A download in progress.
  pub record Holding (t : Transfer) (seen : List ℕ) : Type 0 where
    pub entry : ReceivingFile
    pub content : Str
    pub listed : find path t.receiving_files ≡ some entry
    pub on_disk : find (temp_path_of root path) t.disk ≡ some content
    pub tracked : Tracks total seen (temp_path_of root path) hash entry
    pub chunks : HasChunks size file seen content

  place-Holding_again :
      (rf : ReceivingFile) (t : Transfer) (seen : List ℕ) (content : Str) (i : ℕ)
      → i < total
      → In i seen
      → find (temp_path_of root path) t.disk ≡ some content
      → Tracks total seen (temp_path_of root path) hash rf
      → HasChunks size file seen content
      → Holding
          (place_chunk size sha256 all_well root peer_id
            (header_of size sha256 root path peer_id file hash total i)
            rf
            t)
          (i ∷ seen)
  place-Holding_again rf t seen content i l m c k h =
      rw
        (place_again size sha256 root path peer_id file hash total rf t i (rw k.one_bit_each l)
          (k.all_seen i m))
        (record {
          entry = record rf { received_bitmap = rf.received_bitmap; busy = false };
          content = content;
          listed = find-insert_self path _ t.receiving_files;
          on_disk = c;
          tracked = record {
            temp_file = k.temp_file;
            all_chunks = k.all_chunks;
            one_bit_each = k.one_bit_each;
            count_exact = k.count_exact;
            only_seen = λ j e. inr (k.only_seen j e);
            all_seen = λ j s. elim s [ inl p ↦ rw p (k.all_seen i m) | inr s ↦ k.all_seen j s ];
            hash_kept = k.hash_kept;
          };
          chunks = record {
            not_longer = h.not_longer;
            stored = λ a j x s q e. elim s [
              | inl p ↦ h.stored a j x (rw p m) q e
              | inr s ↦ h.stored a j x s q e
            ];
          };
        })

  -- While another chunk is missing, the count stays below the total.
  not_full :
      (rf : ReceivingFile) (seen : List ℕ) (i k : ℕ)
      → total ≤ 8388608
      → k < total
      → ¬ In k (i ∷ seen)
      → Tracks total (i ∷ seen) (temp_path_of root path) hash rf
      → leb rf.total_chunks rf.received_chunks ≡ false
  not_full rf seen i k small l missing h =
      let (b, e) = get_within k rf.received_bitmap (rw h.one_bit_each l) in
      let unset : get_elem? rf.received_bitmap k ≡ some false = elim (Bool-cases b) [
        | inl p ↦ absurd (missing (h.only_seen k (rw (← p) e)))
        | inr p ↦ rw (← p) e
      ] in
      ground (
        arith,
        h.all_chunks,
        h.count_exact,
        count_true-lt-length k rf.received_bitmap unset,
        h.one_bit_each,
      )

  place-Holding_new :
      (rf : ReceivingFile) (t : Transfer) (seen : List ℕ) (content : Str) (i k : ℕ)
      → total ≤ 8388608
      → i < total
      → k < total
      → ¬ In k (i ∷ seen)
      → get_elem? rf.received_bitmap i ≡ some false
      → find (temp_path_of root path) t.disk ≡ some content
      → Tracks total seen (temp_path_of root path) hash rf
      → HasChunks size file seen content
      → Holding
          (place_chunk size sha256 all_well root peer_id
            (header_of size sha256 root path peer_id file hash total i)
            rf
            t)
          (i ∷ seen)
  place-Holding_new rf t seen content i k small l m missing e c h chunks =
      let tracked =
        set_bit-Tracks total seen (temp_path_of root path) hash rf i false small l e h in
      let more : leb rf.total_chunks ((rf.received_chunks + 1) % 2 ^ 32) ≡ false =
        not_full (marked size sha256 root path peer_id file hash total rf i) seen i k small m
          missing tracked in
      rw
        (
          place_new size sha256 root path peer_id file hash total rf t i content
              (rw h.one_bit_each l) e (rw h.temp_file c),
          more,
        )
        (record {
          entry = marked size sha256 root path peer_id file hash total rf i;
          content = write_at (i * size) (chunk_of size file i) content;
          listed =
              find-insert_self path (marked size sha256 root path peer_id file hash total rf i)
                t.receiving_files;
          on_disk = rw h.temp_file (find-insert_self (temp_path_of root path) _ t.disk);
          tracked = tracked;
          chunks = write_at-HasChunks size file seen content i chunks;
        })

  -- A chunk arrives at a download in progress, and another one is still missing.
  pub place-Holding :
      (rf : ReceivingFile) (t : Transfer) (seen : List ℕ) (content : Str) (i k : ℕ)
      → total ≤ 8388608
      → i < total
      → k < total
      → ¬ In k (i ∷ seen)
      → find (temp_path_of root path) t.disk ≡ some content
      → Tracks total seen (temp_path_of root path) hash rf
      → HasChunks size file seen content
      → Holding
          (place_chunk size sha256 all_well root peer_id
            (header_of size sha256 root path peer_id file hash total i)
            rf
            t)
          (i ∷ seen)
  place-Holding rf t seen content i k small l m missing c h chunks =
      let (b, e) = get_within i rf.received_bitmap (rw h.one_bit_each l) in
      elim (Bool-cases b) [
        | inl p ↦
            place-Holding_again rf t seen content i l (h.only_seen i (e ∙ rw p refl)) c h chunks
        | inr p ↦
            place-Holding_new rf t seen content i k small l m missing (e ∙ rw p refl) c h chunks
      ]
