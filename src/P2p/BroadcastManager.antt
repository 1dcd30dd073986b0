-- ===== src/P2p/BroadcastManager.antt =====
-- include/VeritasSync/p2p/BroadcastManager.h and src/p2p/BroadcastManager.cpp: what is sent to which
-- peer. The peers that the registry gives, and what a controller says at each look at it, are
-- arguments; a message stands for its JSON.
pub mod Batches
pub mod Flood
pub mod Reach
use veritas_sync.Base.{
  ℕ, zero, suc, ◌+◌, ◌-◌, ◌*◌, ◌/◌, ◌%◌, ◌^◌, ◌≤◌, ◌<◌, min, ◌≡◌, refl, sym, ap, ◌∙◌, subst, ◌≢◌,
  ◌↔◌, ◌⊎◌, inl, inr, Bool, true, false, not, ◌&&◌, ◌||◌, List, [], ◌∷◌, ◌++◌, map, Option, none,
  some, arith, Str, KeyEq, ◌==◌, str_key, nat_key, nat_eq, nat_eq_iff, str_eq, str_eq_iff,
  str_eq_refl, ltb, leb, if◌then◌else◌, length, take, drop, get_elem?, Bool-cases, Option-cases,
  All, any, bytes, contains, In, keep_if, In-append, In-append_left, In-append_right, keep_if-In,
  In-keep_if, length-append, drop-append, length-keep_if, All-append, All-reverse,
}
use veritas_sync.Sync.Protocol.{
  FileInfo, SyncRole, SyncMode, source, destination, one_way, bi_directional,
}
use veritas_sync.P2p.BroadcastManager.Batches.{total_batches, batch, batches}

abbrev pub file_update_batch_size : ℕ
file_update_batch_size = 50

abbrev pub file_delete_batch_size : ℕ
file_delete_batch_size = 100

pub data Message : Type 0 where
  sync_begin : (session_id file_count dir_count : ℕ) → Message
  dir_batch : (creates deletes : List Str) → Message
  file_update_batch : (files : List FileInfo) → Message
  file_delete_batch : (paths : List Str) → Message
  goodbye : Message

-- What a look at a controller finds.
pub record Peer : Type 0 where
  pub peer_id : Str
  pub is_valid : Bool
  pub sync_session_id : ℕ

unfoldable pub can_broadcast : SyncRole → SyncMode → Bool
can_broadcast source mode = true
can_broadcast destination bi_directional = true
can_broadcast destination one_way = false

-- One packet to every peer that is valid.
unfoldable pub send_to_peers_with_flow_control : List Peer → Message → List (Str × Message)
send_to_peers_with_flow_control peers message =
    map (λ peer. (peer.peer_id, message)) (keep_if (λ peer. peer.is_valid) peers)

-- The packets one after another, each to the peers that are connected then.
unfoldable pub send_batches : (ℕ → List Peer) → ℕ → List Message → List (Str × Message)
unfolding send_to_peers_with_flow_control
send_batches connected i [] = []
send_batches connected i (message ∷ messages) =
    send_to_peers_with_flow_control (connected i) message ++ send_batches connected (suc i) messages

unfoldable pub broadcast_file_updates_batch :
    SyncRole → SyncMode → (ℕ → List Peer) → List FileInfo → List (Str × Message)
unfolding can_broadcast send_batches batches
broadcast_file_updates_batch role mode connected files =
    if not (can_broadcast role mode)
    then []
    else send_batches connected 0
        (map (λ part. file_update_batch part) (batches file_update_batch_size files))

unfoldable pub broadcast_file_deletes_batch :
    SyncRole → SyncMode → (ℕ → List Peer) → List Str → List (Str × Message)
unfolding can_broadcast send_batches batches
broadcast_file_deletes_batch role mode connected paths =
    if not (can_broadcast role mode)
    then []
    else send_batches connected 0
        (map (λ part. file_delete_batch part) (batches file_delete_batch_size paths))

unfoldable pub broadcast_dir_changes_batch :
    SyncRole → SyncMode → List Peer → List Str → List Str → List (Str × Message)
unfolding can_broadcast send_to_peers_with_flow_control
broadcast_dir_changes_batch role mode peers creates deletes =
    if not (can_broadcast role mode)
    then []
    else if nat_eq (length creates) 0 && nat_eq (length deletes) 0
    then []
    else send_to_peers_with_flow_control peers (dir_batch creates deletes)

unfoldable pub broadcast_goodbye : List Peer → List (Str × Message)
broadcast_goodbye peers = map (λ peer. (peer.peer_id, goodbye)) peers

-- The test before a batch, once when it is scheduled and once when it is sent.
abbrev pub goes_on : ℕ → Peer → Peer → Bool
goes_on session_id scheduled sent =
    scheduled.is_valid
    && nat_eq scheduled.sync_session_id session_id
    && sent.is_valid
    && nat_eq sent.sync_session_id session_id

-- `left` batches are to be sent from `batch_index` on.
unfoldable pub pace_from : ℕ → (ℕ → Peer × Peer) → List FileInfo → ℕ → ℕ → List Message
unfolding batch
pace_from session_id looks files zero batch_index = []
pace_from session_id looks files (suc left) batch_index =
    let rest = pace_from session_id looks files left (suc batch_index) in
    if goes_on session_id (looks batch_index).0 (looks batch_index).1
    then file_update_batch (batch file_update_batch_size batch_index files) ∷ rest
    else []

unfoldable pub pace_and_send_file_batches : ℕ → (ℕ → Peer × Peer) → List FileInfo → ℕ → List Message
unfolding pace_from total_batches
pace_and_send_file_batches session_id looks files batch_index =
    pace_from session_id looks files (total_batches file_update_batch_size files - batch_index)
      batch_index

-- The part that runs on the io_context.
unfoldable pub send_flood : ℕ → (ℕ → Peer × Peer) → List FileInfo → List Str → List Message
unfolding pace_and_send_file_batches
send_flood session_id looks files dirs =
    sync_begin session_id (length files) (length dirs)
    ∷ ((if nat_eq (length dirs) 0 then [] else dir_batch dirs [] ∷ [])
        ++ (if nat_eq (length files) 0
            then []
            else pace_and_send_file_batches session_id looks files 0))

-- `has_state_manager` says that `m_state_manager` is set.
unfoldable pub perform_flood_sync :
    Bool → ℕ → Peer → Peer → (ℕ → Peer × Peer) → List FileInfo → List Str → List Message
unfolding send_flood
perform_flood_sync has_state_manager session_id asked begun looks files dirs =
    if not (asked.is_valid && has_state_manager)
    then []
    else if not (nat_eq asked.sync_session_id session_id)
    then []
    else if nat_eq (length files) 0 && nat_eq (length dirs) 0
    then []
    else if not begun.is_valid
    then []
    else send_flood session_id looks files dirs

-- Every connected peer begins a session, of which the clock gives the number.
unfoldable pub trigger_reconciliation : (ℕ → ℕ) → ℕ → List Peer → List Peer
trigger_reconciliation clock i [] = []
trigger_reconciliation clock i (peer ∷ peers) =
    record peer { sync_session_id = clock i } ∷ trigger_reconciliation clock (suc i) peers
