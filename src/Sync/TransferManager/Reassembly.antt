-- ===== src/Sync/TransferManager/Reassembly.antt =====
-- A download from its first chunk to its last.
use veritas_sync.Base.{
  ℕ, ◌≤◌, ◌<◌, ◌≡◌, refl, ap, ◌∙◌, ◌⊎◌, inl, inr, true, false, List, [], ◌∷◌, Option, some, arith,
  Str, str_key, nat_key, leb, length, get_elem?, Bool-cases, In,
}
use veritas_sync.Base.Map.{find, find-insert_self}
use veritas_sync.Sync.TransferManager.State.{ReceivingFile, Transfer, temp_path_of}
use veritas_sync.Sync.TransferManager.Bits.{get_within, count_true_full}
use veritas_sync.Sync.TransferManager.{place_chunk, receive_chunk}
use veritas_sync.Sync.TransferManager.Progress.{
  HasChunks, Tracks, all_well, write_at-HasChunks, HasChunks-whole, set_bit-Tracks,
}
use veritas_sync.Sync.TransferManager.Step.{
  header_of, opened_file, store_ready, place_new, marked, stored_in,
}
use veritas_sync.Sync.TransferManager.Placement.{Holding, place-Holding}
use veritas_sync.Sync.TransferManager.Arrival.{IsTransferable, Found, find-Holding, find-Fresh}
use veritas_sync.Sync.TransferManager.Joining.{Fresh}
use veritas_sync.Sync.TransferManager.Completion.{IsDone, finalize-IsDone}

module _ (weakly_canonical : Str → Option Str) (size : ℕ) (sha256 : Str → Str)
    (root path peer_id : Str) (file hash : Str) (total : ℕ) where
  -- A download of which the chunks in `seen` have arrived.
  pub data Underway (t : Transfer) : List ℕ → Type 0 where
    fresh : Fresh root path hash t → Underway t []
    holding :
        {seen : List ℕ}
        → Holding size sha256 root path peer_id file hash total t seen
        → Underway t seen

  abbrev receive : ℕ → ℕ → Transfer → Transfer
  receive now i t =
      receive_chunk size sha256 weakly_canonical all_well now root peer_id
        (header_of size sha256 root path peer_id file hash total i) t

  find-Underway :
      (now i : ℕ) (t : Transfer) (seen : List ℕ)
      → IsTransferable weakly_canonical size root path file total
      → i < total
      → Underway t seen
      → Found weakly_canonical size sha256 root path peer_id file hash total now i t seen
  find-Underway now i t [] f l (fresh u) =
      find-Fresh weakly_canonical size sha256 root path peer_id file hash total now i t f l u
  find-Underway now i t seen f l (holding h) =
      find-Holding weakly_canonical size sha256 root path peer_id file hash total now i t seen f l h

  -- Which chunks are there does not depend on the time or the stream.
  opened-Tracks :
      (rf : ReceivingFile) (seen : List ℕ) (now : ℕ)
      → Tracks total seen (temp_path_of root path) hash rf
      → Tracks total seen
          (temp_path_of root path)
          hash
          (record rf { last_active = now; is_open = true })
  opened-Tracks rf seen now h = record {
    temp_file = h.temp_file;
    all_chunks = h.all_chunks;
    one_bit_each = h.one_bit_each;
    count_exact = h.count_exact;
    only_seen = h.only_seen;
    all_seen = h.all_seen;
    hash_kept = h.hash_kept;
  }

  pub receive-Holding :
      (now i k : ℕ) (t : Transfer) (seen : List ℕ)
      → IsTransferable weakly_canonical size root path file total
      → i < total
      → k < total
      → ¬ In k (i ∷ seen)
      → Underway t seen
      → Holding size sha256 root path peer_id file hash total (receive now i t) (i ∷ seen)
  receive-Holding now i k t seen f l m missing u =
      let at = find-Underway now i t seen f l u in
      let (disk, c, placed) =
        store_ready size sha256 root path peer_id file hash total now at.rf at.lookup at.found seen
          at.content i at.ready in
      rw (at.continues, placed)
        (place-Holding size sha256 root path peer_id file hash total
          (opened_file size sha256 root path peer_id file hash total at.rf now)
          (record at.found { disk = disk }) seen at.content i k f.few_chunks l m missing
          (rw (← at.tracked.temp_file) c) (opened-Tracks at.rf seen now at.tracked) at.chunks)

  full :
      (rf : ReceivingFile) (seen : List ℕ)
      → ((k : ℕ) → k < total → In k seen)
      → Tracks total seen (temp_path_of root path) hash rf
      → leb rf.total_chunks rf.received_chunks ≡ true
  full rf seen all h =
      let every =
        count_true_full rf.received_bitmap
          (λ k l. h.all_seen k (all k (rw (← h.one_bit_each) l))) in
      ground (arith, h.all_chunks, h.count_exact, every, h.one_bit_each)

  -- The last missing chunk arrives.
  place-IsDone :
      (rf : ReceivingFile) (t : Transfer) (seen : List ℕ) (content : Str) (i : ℕ)
      → IsTransferable weakly_canonical size root path file total
      → 1 ≤ length peer_id
      → (hash ≡ []) ⊎ (sha256 file ≡ hash)
      → i < total
      → ¬ In i seen
      → ((k : ℕ) → k < total → In k (i ∷ seen))
      → find (temp_path_of root path) t.disk ≡ some content
      → Tracks total seen (temp_path_of root path) hash rf
      → HasChunks size file seen content
      → IsDone root path peer_id file (sha256 file) (
          place_chunk size sha256 all_well root peer_id
            (header_of size sha256 root path peer_id file hash total i)
            rf
            t)
  place-IsDone rf t seen content i f known good l new all c h chunks =
      let (b, e) = get_within i rf.received_bitmap (rw h.one_bit_each l) in
      let unset : get_elem? rf.received_bitmap i ≡ some false = elim (Bool-cases b) [
        | inl p ↦ absurd (new (h.only_seen i (e ∙ rw p refl)))
        | inr p ↦ e ∙ rw p refl
      ] in
      let tracked =
        set_bit-Tracks total seen (temp_path_of root path) hash rf i false f.few_chunks l unset h in
      let done =
        full (marked size sha256 root path peer_id file hash total rf i) (i ∷ seen) all tracked in
      let whole =
        HasChunks-whole size total file (i ∷ seen) _ f.some_bytes f.covered all
          (write_at-HasChunks size file seen content i chunks) in
      rw
        (
          place_new size sha256 root path peer_id file hash total rf t i content
              (rw h.one_bit_each l) unset (rw h.temp_file c),
          done,
        )
        (finalize-IsDone sha256 root path peer_id file hash
          (marked size sha256 root path peer_id file hash total rf i)
          (stored_in size sha256 root path peer_id file hash total rf.temp_path content i t) known
          good h.temp_file h.hash_kept
          (rw h.temp_file (find-insert_self (temp_path_of root path) _ t.disk)
            ∙ ap (λ x. some x) whole))

  pub receive-IsDone :
      (now i : ℕ) (t : Transfer) (seen : List ℕ)
      → IsTransferable weakly_canonical size root path file total
      → 1 ≤ length peer_id
      → (hash ≡ []) ⊎ (sha256 file ≡ hash)
      → i < total
      → ¬ In i seen
      → ((k : ℕ) → k < total → In k (i ∷ seen))
      → Underway t seen
      → IsDone root path peer_id file (sha256 file) (receive now i t)
  receive-IsDone now i t seen f known good l new all u =
      let at = find-Underway now i t seen f l u in
      let (disk, c, placed) =
        store_ready size sha256 root path peer_id file hash total now at.rf at.lookup at.found seen
          at.content i at.ready in
      rw (at.continues, placed)
        (place-IsDone (opened_file size sha256 root path peer_id file hash total at.rf now)
          (record at.found { disk = disk }) seen at.content i f known good l new all
          (rw (← at.tracked.temp_file) c) (opened-Tracks at.rf seen now at.tracked) at.chunks)
