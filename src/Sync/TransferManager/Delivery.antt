-- ===== src/Sync/TransferManager/Delivery.antt =====
-- The packets of a file as they arrive, in any order and more than once.
use veritas_sync.Base.{
  ℕ, ◌≤◌, ◌<◌, ◌≡◌, refl, ◌⊎◌, inl, inr, List, [], ◌∷◌, ◌++◌, map, Option, arith, Str, str_key,
  nat_key, length, drop, All, In,
}
use veritas_sync.Sync.TransferManager.State.{Transfer}
use veritas_sync.Sync.TransferManager.Packet.{Snappy, IsLossless, chunk_packet, parse-chunk_packet}
use veritas_sync.Sync.TransferManager.Slices.{chunk_of}
use veritas_sync.Sync.TransferManager.{receive_chunk, handle_chunk}
use veritas_sync.Sync.TransferManager.Progress.{all_well}
use veritas_sync.Sync.TransferManager.Step.{header_of}
use veritas_sync.Sync.TransferManager.Arrival.{IsTransferable}
use veritas_sync.Sync.TransferManager.Joining.{Fresh}
use veritas_sync.Sync.TransferManager.Completion.{IsDone}
use veritas_sync.Sync.TransferManager.Reassembly.{
  Underway, fresh, holding, receive-Holding, receive-IsDone,
}

-- Packets that arrive one after another, each with its time.
unfoldable pub receive_packets :
    Snappy → (Str → Option Str) → ℕ → (Str → Str) → Str → Str → List (ℕ × Str) → Transfer → Transfer
unfolding handle_chunk
receive_packets S weakly_canonical size sha256 root peer_id [] t = t
receive_packets S weakly_canonical size sha256 root peer_id ((now, packet) ∷ rest) t =
    receive_packets S weakly_canonical size sha256 root peer_id rest
      (handle_chunk size sha256 S weakly_canonical all_well now root peer_id (drop 1 packet) t)

-- The packets of the chunks that a list names, with their times.
abbrev pub packets_of : Snappy → ℕ → Str → Str → ℕ → List (ℕ × ℕ) → List (ℕ × Str)
packets_of S size path file total =
    map (λ (now, i). (now, chunk_packet S path i total (chunk_of size file i)))

abbrev pub indices : List (ℕ × ℕ) → List ℕ
indices = map (λ (now, i). i)

module _ (S : Snappy) (weakly_canonical : Str → Option Str) (size : ℕ) (sha256 : Str → Str)
    (root path peer_id : Str) (file hash : Str) (total : ℕ) where
  handle-chunk_packet :
      (now i : ℕ) (t : Transfer)
      → IsLossless S
      → IsTransferable weakly_canonical size root path file total
      → i < total
      → handle_chunk size sha256 S weakly_canonical all_well now root peer_id
          (drop 1 (chunk_packet S path i total (chunk_of size file i)))
          t
        ≡ receive_chunk size sha256 weakly_canonical all_well now root peer_id
            (header_of size sha256 root path peer_id file hash total i)
            t
  unfolding handle_chunk
  handle-chunk_packet now i t s f l =
      rw
        (parse-chunk_packet S path i total (chunk_of size file i) s f.some_path
          (omega (arith, f.short_path)) (omega (arith, l, f.few_chunks))
          (omega (arith, f.few_chunks)))
        refl

  -- Whatever is missing of the indices, all but the last chunk leave the download underway.
  pub reassembles_from :
      (seen : List ℕ) (arrivals : List (ℕ × ℕ)) (now last : ℕ) (t : Transfer)
      → IsLossless S
      → IsTransferable weakly_canonical size root path file total
      → 1 ≤ length peer_id
      → (hash ≡ []) ⊎ (sha256 file ≡ hash)
      → last < total
      → All (λ i. i < total) (indices arrivals)
      → ¬ In last (indices arrivals)
      → ¬ In last seen
      → ((k : ℕ) → k < total → (k ≡ last) ⊎ In k seen ⊎ In k (indices arrivals))
      → Underway weakly_canonical size sha256 root path peer_id file hash total t seen
      → IsDone root path peer_id file (sha256 file) (
          receive_packets S weakly_canonical size sha256 root peer_id
            (packets_of S size path file total (arrivals ++ (now, last) ∷ []))
            t)
  unfolding receive_packets
  reassembles_from seen [] now last t s f known good l within new unseen all u =
      rw (handle-chunk_packet now last t s f l) (
        receive-IsDone weakly_canonical size sha256 root path peer_id file hash total now last t
          seen f known good l unseen
          (λ k m. elim (all k m) [ inl e ↦ inl e | inr (inl p) ↦ inr p | inr (inr p) ↦ absurd p ])
          u)
  reassembles_from seen ((time, i) ∷ arrivals) now last t s f known good l (i_l, within) new unseen
        all u =
      let missing : ¬ In last (i ∷ seen) = λ p. elim p [ inl e ↦ new (inl e) | inr m ↦ unseen m ] in
      rw (handle-chunk_packet time i t s f i_l, receive_packets)
        (reassembles_from (i ∷ seen) arrivals now last _ s f known good l within (λ p. new (inr p))
          missing
          (λ k m. elim (all k m) [
            | inl e ↦ inl e
            | inr (inl p) ↦ inr (inl (inr p))
            | inr (inr (inl p)) ↦ inr (inl (inl p))
            | inr (inr (inr p)) ↦ inr (inr p)
          ])
          (holding (
            receive-Holding weakly_canonical size sha256 root path peer_id file hash total time i
              last t seen f i_l l missing u)))

  -- The chunks of a file arrive in packets, the last missing one at the end, the others before it in
  -- any order and as often as they like, and every call of the file system succeeds. If nothing was
  -- known of the download but perhaps the hash that was registered, and the file has that hash, then
  -- the file is in its place with every byte as it was sent, nothing of the download is left, and
  -- its hash is recorded. Snappy restores what it compressed, and never compresses to nothing; the
  -- path is safe and has 1 to 4096 bytes; there are 1 to 8388608 chunks, of at least one byte each as
  -- configured, and they cover the file; the peer has a name.
  pub reassembles-receive_packets :
      (arrivals : List (ℕ × ℕ)) (now last : ℕ) (t : Transfer)
      → IsLossless S
      → IsTransferable weakly_canonical size root path file total
      → 1 ≤ length peer_id
      → (hash ≡ []) ⊎ (sha256 file ≡ hash)
      → last < total
      → All (λ i. i < total) (indices arrivals)
      → ¬ In last (indices arrivals)
      → ((k : ℕ) → k < total → (k ≡ last) ⊎ In k (indices arrivals))
      → Fresh root path hash t
      → IsDone root path peer_id file (sha256 file) (
          receive_packets S weakly_canonical size sha256 root peer_id
            (packets_of S size path file total (arrivals ++ (now, last) ∷ []))
            t)
  reassembles-receive_packets arrivals now last t s f known good l within new all u =
      reassembles_from [] arrivals now last t s f known good l within new (λ p. p)
        (λ k m. elim (all k m) [ inl e ↦ inl e | inr p ↦ inr (inr p) ]) (fresh u)
