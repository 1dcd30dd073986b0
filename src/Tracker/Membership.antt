-- ===== src/Tracker/Membership.antt =====
-- The server over a history of reads, and which histories are well behaved.
use native.Mathlib.Decide.{ℕ_discrete}
use veritas_sync.Base.{
  ℕ, ◌≡◌, ◌≢◌, ◌⊎◌, inl, inr, true, List, [], ◌∷◌, Option, none, some, arith, Str, str_key, nat_key,
  nat_eq, str_eq, ltb, if◌then◌else◌, length, Bool-cases, Option-cases,
}
use veritas_sync.Base.Map.{find}
use veritas_sync.Tracker.State.{
  Session, Reading, header, body, stopped, Tracker, get_id, set_session,
}
use veritas_sync.Tracker.TrackerServer.{leave, forward}
use veritas_sync.Common.SyncKey.{get_sync_key_validation_error}
use veritas_sync.Tracker.Session.{
  Member, missing, invalid, text, Payload, Incoming, unparsable, no_type_or_payload, message,
  type_register, type_signal, handle_register, register_key, register_device, assign_key, assign_id,
  handle_signal, handle_message, set_reading, handle_read_header, handle_read_body, Event,
  header_read, body_read, handle_event, run,
}
use veritas_sync.Tracker.Consistency.{
  key_of, Consistent, Unknown, Consistent-Unknown, Consistent-sessions, Consistent-join,
  Consistent-leave, leave-Unknown,
}

-- The completion of a read does not register a session that has a key already.
abbrev pub RegistersOnce : Tracker → Event → Type 0
RegistersOnce t (header_read s result) = Unit
RegistersOnce t (body_read s none) = Unit
RegistersOnce t (body_read s (some unparsable)) = Unit
RegistersOnce t (body_read s (some no_type_or_payload)) = Unit
RegistersOnce t (body_read s (some (message type raw payload))) =
    str_eq type type_register ≡ true → key_of t s ≡ []

abbrev pub AllRegisterOnce : ℕ → Tracker → List Event → Type 0
AllRegisterOnce max t [] = Unit
AllRegisterOnce max t (e ∷ events) =
    RegistersOnce t e × AllRegisterOnce max (handle_event max t e) events

Consistent-set_reading :
    (t : Tracker) (s : ℕ) (r : Reading) → Consistent t → Consistent (set_reading t s r)
unfolding set_reading
Consistent-set_reading t s r c = Consistent-sessions t _ same c
  where
    same :
        (x : ℕ)
        → Unknown t x
          ⊎ ((set_session s (record (t.sessions s) { reading = r }) t.sessions x).id ≡ get_id t x)
            × ((set_session s (record (t.sessions s) { reading = r }) t.sessions x).sync_key
                ≡ key_of t x)
    same x = elim (ℕ_discrete x s) [ yes p ↦ inr (rw p (ground arith)) | no n ↦ inr (ground arith) ]

-- A change of a session that the server does not refer to.
Consistent-set_session :
    (t : Tracker) (s : ℕ) (v : Session)
    → Unknown t s
    → Consistent t
    → Consistent (record t { sessions = set_session s v t.sessions })
Consistent-set_session t s v u c = Consistent-sessions t _ same c
  where
    same :
        (x : ℕ)
        → Unknown t x
          ⊎ ((set_session s v t.sessions x).id ≡ get_id t x)
            × ((set_session s v t.sessions x).sync_key ≡ key_of t x)
    same x = elim (ℕ_discrete x s) [ yes p ↦ inl (rw p u) | no n ↦ inr (ground arith) ]

valid_nonempty : (key : Str) → get_sync_key_validation_error key ≡ none → key ≢ []
unfolding get_sync_key_validation_error
valid_nonempty [] h = cc
valid_nonempty (c ∷ key) h = λ e. cc

Consistent-register_device :
    (t : Tracker) (s : ℕ) (key : Str) (device_id : Member)
    → Unknown t s
    → key_of t s ≡ key
    → key ≢ []
    → Consistent t
    → Consistent (register_device t s key device_id)
unfolding register_device
Consistent-register_device t s key missing u e n c = c
Consistent-register_device t s key invalid u e n c = c
Consistent-register_device t s key (text id) u e n c = elim (Bool-cases (nat_eq (length id) 0)) [
  | inl z ↦ rw z c
  | inr z ↦ rw z (
      Consistent-join (assign_id t s id) s key
        (record { unlisted = u.unlisted; homeless = u.homeless }) (ground arith) n
        (Consistent-set_session t s (record (t.sessions s) { id = id }) u c))
]

Consistent-register_key :
    (t : Tracker) (s : ℕ) (device_id sync_key : Member)
    → key_of t s ≡ []
    → Consistent t
    → Consistent (register_key t s device_id sync_key)
unfolding register_key
Consistent-register_key t s device_id missing e c = c
Consistent-register_key t s device_id invalid e c = c
Consistent-register_key t s device_id (text key) e c =
    let u = Consistent-Unknown t s c e in
    let keyed = Consistent-set_session t s (record (t.sessions s) { sync_key = key }) u c in
    elim (Option-cases (get_sync_key_validation_error key)) [
      | inl v ↦
          rw (v, register_key)
            (Consistent-register_device (assign_key t s key) s key device_id
              (record { unlisted = u.unlisted; homeless = u.homeless }) (ground arith)
              (valid_nonempty key v) keyed)
      | inr (error, v) ↦ rw (v, register_key) keyed
    ]

Consistent-forward : (t : Tracker) (id raw : Str) → Consistent t → Consistent (forward t id raw)
unfolding forward
Consistent-forward t id raw c = elim (Option-cases (find id t.peers_by_id)) [
  | inl e ↦ rw (e, forward) c
  | inr (s, e) ↦ rw (e, forward) (record { listed = c.listed; housed = c.housed })
]

Consistent-handle_signal :
    (t : Tracker) (payload : Payload) (raw : Str)
    → Consistent t
    → Consistent (handle_signal t payload raw)
unfolding handle_signal
Consistent-handle_signal t payload raw c = go payload.to
  where
    go :
        (to : Member)
        → Consistent (elim to [
          | missing ↦ t
          | invalid ↦ t
          | text id ↦ if nat_eq (length id) 0 then t else forward t id raw
        ])
    go missing = c
    go invalid = c
    go (text id) = elim (Bool-cases (nat_eq (length id) 0)) [
      | inl z ↦ rw z c
      | inr z ↦ rw z (Consistent-forward t id raw c)
    ]

Consistent-handle_message :
    (t : Tracker) (s : ℕ) (incoming : Incoming)
    → RegistersOnce t (body_read s (some incoming))
    → Consistent t
    → Consistent (handle_message t s incoming)
unfolding handle_message handle_register
Consistent-handle_message t s unparsable once c = c
Consistent-handle_message t s no_type_or_payload once c = c
Consistent-handle_message t s (message type raw payload) once c =
    elim (Bool-cases (str_eq type type_register)) [
      | inl r ↦ rw r (Consistent-register_key t s payload.device_id payload.sync_key (once r) c)
      | inr r ↦ rw r (elim (Bool-cases (str_eq type type_signal)) [
        | inl g ↦ rw g (Consistent-handle_signal t payload raw c)
        | inr g ↦ rw g c
      ])
    ]

Consistent-handle_read_header :
    (max : ℕ) (t : Tracker) (s : ℕ) (result : Option ℕ)
    → Consistent t
    → Consistent (handle_read_header max t s result)
unfolding handle_read_header
Consistent-handle_read_header max t s none c =
    Consistent-leave _ s (Consistent-set_reading t s stopped c)
Consistent-handle_read_header max t s (some n) c = elim (Bool-cases (ltb max n)) [
  | inl e ↦ rw e (Consistent-leave _ s (Consistent-set_reading t s stopped c))
  | inr e ↦ rw e (Consistent-set_reading t s (body n) c)
]

Consistent-handle_read_body :
    (t : Tracker) (s : ℕ) (result : Option Incoming)
    → RegistersOnce t (body_read s result)
    → Consistent t
    → Consistent (handle_read_body t s result)
unfolding handle_read_body
Consistent-handle_read_body t s none once c =
    Consistent-leave _ s (Consistent-set_reading t s stopped c)
Consistent-handle_read_body t s (some incoming) once c =
    Consistent-set_reading _ s header (Consistent-handle_message t s incoming once c)

Consistent-handle_event :
    (max : ℕ) (t : Tracker) (e : Event)
    → RegistersOnce t e
    → Consistent t
    → Consistent (handle_event max t e)
unfolding handle_event
Consistent-handle_event max t (header_read s result) once c = go (t.sessions s).reading
  where
    go :
        (r : Reading)
        → Consistent
            (elim r [ header ↦ handle_read_header max t s result | body n ↦ t | stopped ↦ t ])
    go header = Consistent-handle_read_header max t s result c
    go (body n) = c
    go stopped = c
Consistent-handle_event max t (body_read s result) once c = go (t.sessions s).reading
  where
    go :
        (r : Reading)
        → Consistent (elim r [ header ↦ t | body n ↦ handle_read_body t s result | stopped ↦ t ])
    go header = c
    go (body n) = Consistent-handle_read_body t s result once c
    go stopped = c

-- In a history in which no session registers after it has a key, a consistent server stays
-- consistent: whoever an id leads to has that id and is in the room of its key, and whoever is in
-- a room has its key. When a session then leaves, the server refers to it nowhere.
pub run-Consistent :
    (max : ℕ) (t : Tracker) (events : List Event)
    → Consistent t
    → AllRegisterOnce max t events
    → Consistent (run max t events) × ((s : ℕ) → Unknown (leave (run max t events) s) s)
unfolding run
run-Consistent max t [] c once = (c, λ s. leave-Unknown t s c)
run-Consistent max t (e ∷ events) c (first, once) =
    run-Consistent max (handle_event max t e) events (Consistent-handle_event max t e first c) once
