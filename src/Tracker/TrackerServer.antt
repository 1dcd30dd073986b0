-- ===== src/Tracker/TrackerServer.antt =====
-- src/tracker/TrackerServer.cpp: the rooms and the directory of peers.
use veritas_sync.Base.{
  ℕ, not, List, [], ◌∷◌, ◌++◌, map, none, some, Str, str_key, nat_key, nat_eq, str_eq,
  if◌then◌else◌, length, keep_if,
}
use veritas_sync.Base.Map.{find, insert_or_assign, erase}
use veritas_sync.Tracker.State.{
  reg_ack, peer_join, peer_leave, signal, Tracker, get_id, set_insert, set_erase, group_of,
  send_all,
}

-- The members of a room with another id.
abbrev pub others : Tracker → Str → List ℕ → List ℕ
others t id = keep_if (λ s. not (str_eq (get_id t s) id))

-- The part of `join` that finds an earlier session under the same id: its room is told that the
-- peer left, and the old session is taken out.
unfoldable pub evict_old : Tracker → ℕ → Str → Tracker
evict_old t session sync_key =
    let new_peer_id = get_id t session in
    let peer_set = group_of sync_key t.peer_groups in
    elim (find new_peer_id t.peers_by_id) [
      | none ↦ record t { peer_groups = insert_or_assign sync_key peer_set t.peer_groups }
      | some old_session ↦
          if nat_eq old_session session
          then record t { peer_groups = insert_or_assign sync_key peer_set t.peer_groups }
          else record t {
            peer_groups = insert_or_assign sync_key (set_erase old_session peer_set) t.peer_groups;
            peers_by_id = erase new_peer_id t.peers_by_id;
            sent = t.sent ++ send_all (peer_leave new_peer_id) (others t new_peer_id peer_set);
          }
    ]

-- The rest of `join`: the answer, the broadcast, and the entry of the new session.
unfoldable pub admit : Tracker → ℕ → Str → Tracker
admit t session sync_key =
    let new_peer_id = get_id t session in
    let peer_set = group_of sync_key t.peer_groups in
    let peers = others t new_peer_id peer_set in
    record t {
      peer_groups = insert_or_assign sync_key (set_insert session peer_set) t.peer_groups;
      peers_by_id = insert_or_assign new_peer_id session t.peers_by_id;
      sent =
          t.sent
          ++ ((session, reg_ack new_peer_id (map (get_id t) peers))
              ∷ send_all (peer_join new_peer_id) peers);
    }

unfoldable pub join : Tracker → ℕ → Str → Tracker
join t session sync_key = admit (evict_old t session sync_key) session sync_key

unfoldable pub leave : Tracker → ℕ → Tracker
leave t session =
    let peer_id = get_id t session in
    let sync_key = (t.sessions session).sync_key in
    let by_id = erase peer_id t.peers_by_id in
    if nat_eq (length sync_key) 0 then t else elim (find sync_key t.peer_groups) [
      | none ↦ record t { peers_by_id = by_id }
      | some peer_set ↦
          let rest = set_erase session peer_set in
          record t {
            peers_by_id = by_id;
            peer_groups =
                if nat_eq (length rest) 0
                then erase sync_key t.peer_groups
                else insert_or_assign sync_key rest t.peer_groups;
            sent = t.sent ++ send_all (peer_leave peer_id) rest;
          }
    ]

unfoldable pub forward : Tracker → Str → Str → Tracker
forward t to_peer_id message = elim (find to_peer_id t.peers_by_id) [
  | none ↦ t
  | some session ↦ record t { sent = t.sent ++ (session, signal message) ∷ [] }
]
