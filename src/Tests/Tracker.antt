-- ===== src/Tests/Tracker.antt =====
-- Sessions of a tracker.
use veritas_sync.Base.{
  ℕ, ◌≡◌, refl, ◌↔◌, List, [], ◌∷◌, some, arith, Str, str_key, nat_key, nat_eq, str_eq,
  if◌then◌else◌, bytes, In,
}
use veritas_sync.Base.Map.{find}
use veritas_sync.Tracker.State.{Session, header, Tracker, get_id, group_of}
use veritas_sync.Tracker.TrackerServer.{join, leave, forward}
use veritas_sync.Tracker.Session.{
  Member, missing, invalid, text, Payload, message, Event, header_read, body_read, type_register,
  handle_register, run,
}
use veritas_sync.Tracker.Consistency.{Consistent, Unknown}
use veritas_sync.Tracker.Joining.{Stays, join_outcome}
use veritas_sync.Tracker.Membership.{run-Consistent}
use veritas_sync.Common.SyncKey.{get_sync_key_validation_error}
use veritas_sync.Tests.Common.{text_a, text_b, text_c, text_d, differ}

abbrev fresh : Session
fresh = record { id = []; sync_key = []; reading = header }

abbrev empty_tracker : Tracker
empty_tracker = record { sessions = λ s. fresh; peer_groups = []; peers_by_id = []; sent = [] }

abbrev registers : ℕ → Str → Str → Event
registers s key id = body_read s (
    some (
      message type_register [] (record { sync_key = text key; device_id = text id; to = missing })))

-- Two devices in room "a", then a third session, of the first device, in the same room.
abbrev joining : List Event
joining =
    header_read 0 (some 9)
    ∷ registers 0 text_a text_b
    ∷ header_read 1 (some 9)
    ∷ registers 1 text_a text_c
    ∷ []

abbrev two_devices : Tracker
two_devices = record {
  sessions = λ s.
      if nat_eq s 0
      then record { id = text_b; sync_key = text_a; reading = header }
      else record { id = text_c; sync_key = text_a; reading = header };
  peer_groups = (text_a, 1 ∷ 0 ∷ []) ∷ [];
  peers_by_id = (text_b, 0) ∷ (text_c, 1) ∷ [];
  sent = [];
}

-- Session 1 has taken the id of session 0 over, which has not left yet.
abbrev reconnected : Tracker
reconnected = record {
  sessions = λ s. record { id = text_b; sync_key = text_a; reading = header };
  peer_groups = (text_a, 1 ∷ []) ∷ [];
  peers_by_id = (text_b, 1) ∷ [];
  sent = [];
}

abbrev bad_payload : Payload
bad_payload = record { sync_key = text (bytes "../x"); device_id = text text_b; to = missing }

abbrev max_length : ℕ
max_length = 65536

join_outcome_example :
    (find text_b (join two_devices 1 text_a).peers_by_id ≡ (
      if str_eq (get_id two_devices 1) text_b then some 1 else find text_b two_devices.peers_by_id))
    × In 1 (group_of text_a (join two_devices 1 text_a).peer_groups)
    × (In 1 (group_of text_d (join two_devices 1 text_a).peer_groups)
        ↔ In 1 (group_of text_d two_devices.peer_groups))
    × (In 0 (group_of text_a (join two_devices 1 text_a).peer_groups)
        ↔ Stays two_devices 1 text_a text_a 0)
    × ((join two_devices 1 text_a).sessions ≡ two_devices.sessions)
unfolding str_eq
join_outcome_example =
    join_outcome two_devices 1 0 text_a text_d text_a text_b (differ text_d text_a refl)
      (λ e. omega (arith, e))

run-Consistent_example :
    Consistent (run max_length empty_tracker joining)
    × ((s : ℕ) → Unknown (leave (run max_length empty_tracker joining) s) s)
unfolding group_of find veritas_sync.Tracker.Session.handle_event str_eq
    get_sync_key_validation_error join veritas_sync.Tracker.TrackerServer.admit
    veritas_sync.Tracker.TrackerServer.evict_old
run-Consistent_example =
    run-Consistent max_length empty_tracker joining
      (record { listed = λ id s h. cc; housed = λ key s i. absurd i })
      (tt, (λ e. refl, (tt, (λ e. refl, tt))))
