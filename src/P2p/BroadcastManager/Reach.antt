-- ===== src/P2p/BroadcastManager/Reach.antt =====
-- What a peer is told in a flood and of a change.
use veritas_sync.Base.{
  ℕ, suc, ◌+◌, ◌≤◌, ◌≡◌, refl, sym, ap, ◌∙◌, inl, inr, true, false, ◌&&◌, List, [], ◌∷◌, ◌++◌, map,
  arith, Str, str_key, nat_key, nat_eq, nat_eq_iff, str_eq, if◌then◌else◌, length, Bool-cases,
  keep_if,
}
use veritas_sync.Sync.Protocol.{FileInfo, SyncRole, SyncMode}
use veritas_sync.P2p.BroadcastManager.Batches.{batches, concat-batches, append_assoc}
use veritas_sync.P2p.BroadcastManager.{
  Message, sync_begin, dir_batch, file_update_batch, file_delete_batch, goodbye, Peer,
  can_broadcast, send_to_peers_with_flow_control, send_batches, broadcast_file_updates_batch,
  goes_on, pace_and_send_file_batches, send_flood, perform_flood_sync, file_update_batch_size,
}
use veritas_sync.P2p.BroadcastManager.Batches.{append_none}
use veritas_sync.P2p.BroadcastManager.Flood.{
  files_of, dirs_of, update_batches, files_of-update_batches, dirs_of-update_batches, pace-all,
}

files_of-append : (xs ys : List Message) → files_of (xs ++ ys) ≡ files_of xs ++ files_of ys
unfolding files_of
files_of-append [] ys = refl
files_of-append (file_update_batch files ∷ xs) ys =
    ap (λ r. files ++ r) (files_of-append xs ys)
    ∙ sym (append_assoc files (files_of xs) (files_of ys))
files_of-append (sync_begin session_id file_count dir_count ∷ xs) ys = files_of-append xs ys
files_of-append (dir_batch creates deletes ∷ xs) ys = files_of-append xs ys
files_of-append (file_delete_batch paths ∷ xs) ys = files_of-append xs ys
files_of-append (goodbye ∷ xs) ys = files_of-append xs ys

no_elements : {A : Type 0} → (xs : List A) → nat_eq (length xs) 0 ≡ true → xs ≡ []
no_elements [] e = refl
no_elements (x ∷ xs) e = absurd (omega (arith, (nat_eq_iff (length (x ∷ xs)) 0).0 e))

-- The file batches of a flood tell of every file and of no directory.
file_part :
    (session_id : ℕ) (looks : ℕ → Peer × Peer) (files : List FileInfo)
    → ((i : ℕ) → goes_on session_id (looks i).0 (looks i).1 ≡ true)
    → let part =
        if nat_eq (length files) 0
        then []
        else pace_and_send_file_batches session_id looks files 0 in
      (files_of part ≡ files) × (dirs_of part ≡ [])
unfolding files_of dirs_of
file_part session_id looks files steady = elim (Bool-cases (nat_eq (length files) 0)) [
  | inl e ↦ rw e (sym (no_elements files e), refl)
  | inr e ↦
      rw (e, pace-all session_id looks files steady)
        (
          files_of-update_batches (batches file_update_batch_size files)
              ∙ concat-batches file_update_batch_size files (omega arith),
          dirs_of-update_batches (batches file_update_batch_size files),
        )
]

with_dirs :
    (dirs : List Str) (part : List Message)
    → let all = (if nat_eq (length dirs) 0 then [] else dir_batch dirs [] ∷ []) ++ part in
      (files_of all ≡ files_of part) × (dirs_of all ≡ dirs ++ dirs_of part)
unfolding files_of dirs_of
with_dirs [] part = (refl, refl)
with_dirs (d ∷ dirs) part =
    let some_dir : nat_eq (length (d ∷ dirs)) 0 ≡ false = ground arith in rw some_dir (refl, refl)

-- With a state manager, a flood to a peer that stays valid and in its session begins with the number of files and of
-- directories that it then tells of: the batches have every file and every directory, once and in
-- order. There is at least one of either.
pub perform_flood_sync_complete :
    (session_id : ℕ) (asked begun : Peer) (looks : ℕ → Peer × Peer) (files : List FileInfo)
    (dirs : List Str)
    → asked.is_valid ≡ true
    → asked.sync_session_id ≡ session_id
    → begun.is_valid ≡ true
    → ((i : ℕ) → goes_on session_id (looks i).0 (looks i).1 ≡ true)
    → 1 ≤ length files + length dirs
    → (rest : List Message) × (perform_flood_sync true session_id asked begun looks files dirs
        ≡ sync_begin session_id (length files) (length dirs) ∷ rest)
      × (files_of rest ≡ files)
      × (dirs_of rest ≡ dirs)
unfolding perform_flood_sync send_flood
perform_flood_sync_complete session_id asked begun looks files dirs valid same still steady
      some_entry =
    let in_session : nat_eq asked.sync_session_id session_id ≡ true = ground (arith, same) in
    let entries : (nat_eq (length files) 0 && nat_eq (length dirs) 0) ≡ false =
      ground (arith, some_entry) in
    let (p, q) = file_part session_id looks files steady in
    let part =
      if nat_eq (length files) 0 then [] else pace_and_send_file_batches session_id looks files 0 in
    let (f, d) = with_dirs dirs part in
    (
      _,
      rw (valid, in_session, entries, still) refl,
      f ∙ p,
      d ∙ ap (λ r. dirs ++ r) q ∙ append_none dirs,
    )

-- The messages that are sent to one peer.
unfoldable pub messages_to : Str → List (Str × Message) → List Message
messages_to peer_id [] = []
messages_to peer_id ((to, message) ∷ sent) =
    let rest = messages_to peer_id sent in if str_eq to peer_id then message ∷ rest else rest

messages_to-append :
    (peer_id : Str) (xs ys : List (Str × Message))
    → messages_to peer_id (xs ++ ys) ≡ messages_to peer_id xs ++ messages_to peer_id ys
unfolding messages_to
messages_to-append peer_id [] ys = refl
messages_to-append peer_id ((to, message) ∷ xs) ys = elim (Bool-cases (str_eq to peer_id)) [
  | inl e ↦ rw e (ap (λ r. message ∷ r) (messages_to-append peer_id xs ys))
  | inr e ↦ rw e (messages_to-append peer_id xs ys)
]

-- The ids of the peers that a packet goes to.
abbrev pub reached : List Peer → List Str
reached peers = map (λ peer. peer.peer_id) (keep_if (λ peer. peer.is_valid) peers)

messages_to-map :
    (peer_id : Str) (message : Message) (peers : List Peer)
    → messages_to peer_id (map (λ peer. (peer.peer_id, message)) peers)
      ≡ map (λ to. message) (keep_if (λ to. str_eq to peer_id) (map (λ peer. peer.peer_id) peers))
unfolding messages_to
messages_to-map peer_id message [] = refl
messages_to-map peer_id message (peer ∷ peers) = elim (Bool-cases (str_eq peer.peer_id peer_id)) [
  | inl e ↦ rw e (ap (λ r. message ∷ r) (messages_to-map peer_id message peers))
  | inr e ↦ rw e (messages_to-map peer_id message peers)
]

messages_to-send_batches :
    (peer_id : Str) (connected : ℕ → List Peer) (i : ℕ) (messages : List Message)
    → ((k : ℕ) → keep_if (λ to. str_eq to peer_id) (reached (connected k)) ≡ peer_id ∷ [])
    → messages_to peer_id (send_batches connected i messages) ≡ messages
unfolding send_batches send_to_peers_with_flow_control messages_to
messages_to-send_batches peer_id connected i [] once = refl
messages_to-send_batches peer_id connected i (message ∷ messages) once =
    messages_to-append peer_id (send_to_peers_with_flow_control (connected i) message)
      (send_batches connected (suc i) messages)
    ∙ ap (λ r. r ++ messages_to peer_id (send_batches connected (suc i) messages))
        (messages_to-map peer_id message (keep_if (λ peer. peer.is_valid) (connected i))
          ∙ ap (λ r. map (λ to. message) r) (once i))
    ∙ ap (λ r. message ∷ r) (messages_to-send_batches peer_id connected (suc i) messages once)

-- A node that may broadcast tells a peer of every changed file, once and in order, if the peer is
-- once among the valid ones at each batch.
pub broadcast_file_updates_batch_complete :
    (role : SyncRole) (mode : SyncMode) (peer_id : Str) (connected : ℕ → List Peer)
    (files : List FileInfo)
    → can_broadcast role mode ≡ true
    → ((k : ℕ) → keep_if (λ to. str_eq to peer_id) (reached (connected k)) ≡ peer_id ∷ [])
    → files_of (messages_to peer_id (broadcast_file_updates_batch role mode connected files))
      ≡ files
unfolding broadcast_file_updates_batch
broadcast_file_updates_batch_complete role mode peer_id connected files may once =
    rw
      (
        may,
        messages_to-send_batches peer_id connected 0
            (update_batches (batches file_update_batch_size files)) once,
      )
      (files_of-update_batches (batches file_update_batch_size files)
        ∙ concat-batches file_update_batch_size files (omega arith))
