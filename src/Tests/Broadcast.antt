-- ===== src/Tests/Broadcast.antt =====
-- Two peers that are told of two files.
use veritas_sync.Base.{
  ℕ, ◌≡◌, refl, true, List, [], ◌∷◌, arith, Str, str_key, nat_key, str_eq, bytes,
}
use veritas_sync.Sync.Protocol.{FileInfo, source, one_way}
use veritas_sync.P2p.BroadcastManager.{
  Message, sync_begin, Peer, can_broadcast, broadcast_file_updates_batch,
  pace_and_send_file_batches, perform_flood_sync,
}
use veritas_sync.P2p.BroadcastManager.Batches.{total_batches}
use veritas_sync.P2p.BroadcastManager.Flood.{
  files_of, dirs_of, IsPrefix, pace_and_send_file_batches-IsPrefix,
}
use veritas_sync.P2p.BroadcastManager.Reach.{
  messages_to, perform_flood_sync_complete, broadcast_file_updates_batch_complete,
}
use veritas_sync.Tests.Common.{text_a, text_b, text_c}

abbrev entry : Str → FileInfo
entry path = record { path = path; hash = bytes "1"; modified_time = 5; size = 1 }

abbrev entries : List FileInfo
entries = entry text_a ∷ entry text_b ∷ []

abbrev in_session : Peer
in_session = record { peer_id = text_a; is_valid = true; sync_session_id = 7 }

abbrev elsewhere : Peer
elsewhere = record { peer_id = text_b; is_valid = true; sync_session_id = 8 }

abbrev steady : ℕ → Peer × Peer
steady i = (in_session, in_session)

perform_flood_sync_complete_example :
    (rest : List Message) × (perform_flood_sync true 7 in_session in_session steady entries
        (text_c ∷ [])
      ≡ sync_begin 7 2 1 ∷ rest)
    × (files_of rest ≡ entries)
    × (dirs_of rest ≡ text_c ∷ [])
perform_flood_sync_complete_example =
    perform_flood_sync_complete 7 in_session in_session steady entries (text_c ∷ []) refl refl refl
      (λ i. refl) (omega arith)

-- A new session begins before the batch is sent.
abbrev replaced : ℕ → Peer × Peer
replaced i = (in_session, elsewhere)

pace_and_send_file_batches-IsPrefix_example :
    IsPrefix 7 replaced entries
      (total_batches 50 entries)
      0
      (pace_and_send_file_batches 7 replaced entries 0)
pace_and_send_file_batches-IsPrefix_example = pace_and_send_file_batches-IsPrefix 7 replaced entries

broadcast_file_updates_batch_complete_example :
    files_of (
      messages_to text_a
        (broadcast_file_updates_batch source one_way (λ i. in_session ∷ elsewhere ∷ []) entries))
    ≡ entries
unfolding can_broadcast str_eq
broadcast_file_updates_batch_complete_example =
    broadcast_file_updates_batch_complete source one_way text_a (λ i. in_session ∷ elsewhere ∷ [])
      entries refl (λ k. refl)
