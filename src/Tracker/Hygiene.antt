-- ===== src/Tracker/Hygiene.antt =====
-- Sessions that leave late, or register again.
use veritas_sync.Base.{
  ℕ, ◌≡◌, sym, ap, ◌∙◌, ◌≢◌, inl, inr, List, [], ◌∷◌, none, some, arith, Str, str_key, nat_key,
  str_eq_iff, Option-cases, In, In-append_right,
}
use veritas_sync.Base.Map.{find}
use veritas_sync.Tracker.State.{Message, peer_leave, Tracker, get_id, group_of, send_all}
use veritas_sync.Tracker.TrackerServer.{leave, forward}
use veritas_sync.Tracker.Rooms.{In-set_erase, key_nonempty}
use veritas_sync.Common.SyncKey.{get_sync_key_validation_error}
use veritas_sync.Tracker.Session.{text, Payload, handle_register, register_key, assign_key}
use veritas_sync.Common.SyncKey.{KeyError}
use veritas_sync.Tracker.Rooms.{find-leave}
use veritas_sync.Tracker.Consistency.{key_of, In-group-leave}

leave_tells :
    (t : Tracker) (old x : ℕ)
    → key_of t old ≢ []
    → In x (group_of (key_of t old) t.peer_groups)
    → x ≢ old
    → In (x, peer_leave (get_id t old)) (leave t old).sent
unfolding leave group_of
leave_tells t old x n m d = elim (Option-cases (find (key_of t old) t.peer_groups)) [
  | inl e ↦ absurd (elim (rw (e, group_of) at m) [ ])
  | inr (set, e) ↦
      rw (key_nonempty (key_of t old) n, e)
        (In-append_right _ t.sent _ (
          In-send_all x (peer_leave (get_id t old)) _
            ((In-set_erase x old set).1 (rw (e, group_of) at m, d))))
]
  where
    In-send_all :
        (x : ℕ) (told : Message) (set : List ℕ) → In x set → In (x, told) (send_all told set)
    In-send_all x told [] i = elim i [ ]
    In-send_all x told (y ∷ set) (inl e) = inl (ap (λ z. (z, told)) e)
    In-send_all x told (y ∷ set) (inr i) = inr (In-send_all x told set i)

-- A device that connects again replaces its earlier session. When the earlier one is closed
-- afterwards, the server forgets the device although its new session is there: no signal can reach
-- it by its id any more, it stays in the room, and it is itself told, like every other member of
-- the earlier session's room, that the peer of its own id has left.
pub stale_leave_unlists :
    (t : Tracker) (old new : ℕ)
    → old ≢ new
    → get_id t old ≡ get_id t new
    → key_of t old ≢ []
    → In new (group_of (key_of t old) t.peer_groups)
    → let u = leave t old in
      (find (get_id t new) u.peers_by_id ≡ none)
      × ((raw : Str) → forward u (get_id t new) raw ≡ u)
      × In new (group_of (key_of t old) u.peer_groups)
      × In (new, peer_leave (get_id t new)) u.sent
unfolding forward
stale_leave_unlists t old new d e n m = (
  gone,
  λ raw. rw (gone, forward),
  (In-group-leave t old (key_of t old) new n).1 (m, λ (p, _). d (sym p)),
  rw (← e) (leave_tells t old new n m (λ p. d (sym p))),
)
  where
    gone : find (get_id t new) (leave t old).peers_by_id ≡ none
    gone = find-leave t old (get_id t new) n ∙ rw ((str_eq_iff _ _).1 e)

-- A session that is in a room and asks to register again under an invalid key is refused, but its
-- key is replaced all the same: when it is closed, the server does not take it out of its room.
pub rejected_register_leaks :
    (t : Tracker) (s : ℕ) (room key : Str) (error : KeyError) (payload : Payload)
    → In s (group_of room t.peer_groups)
    → payload.sync_key ≡ text key
    → get_sync_key_validation_error key ≡ some error
    → key ≢ []
    → key ≢ room
    → In s (group_of room (leave (handle_register t s payload) s).peer_groups)
unfolding handle_register register_key
rejected_register_leaks t s room key error payload m p v n d =
    rw (p, v, register_key)
      ((In-group-leave (assign_key t s key) s room s (λ q. n (sym keyed ∙ q))).1
        (m, λ (_, q). d (sym keyed ∙ sym q)))
  where
    keyed : key_of (assign_key t s key) s ≡ key
    keyed = ground arith
