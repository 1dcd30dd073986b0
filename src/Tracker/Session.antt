-- ===== src/Tracker/Session.antt =====
-- src/tracker/Session.cpp: what a session reads, and how it registers and forwards. The JSON that is
-- parsed from a message is an argument.
use veritas_sync.Base.{
  ℕ, List, [], ◌∷◌, Option, none, some, Str, str_key, nat_key, nat_eq, str_eq, ltb, if◌then◌else◌,
  length, bytes,
}
use veritas_sync.Common.SyncKey.{get_sync_key_validation_error}
use veritas_sync.Tracker.State.{Tracker, Reading, header, body, stopped, set_session}
use veritas_sync.Tracker.TrackerServer.{join, leave, forward}

-- A member of a JSON payload that should be a text; `invalid` is another type of value.
pub data Member : Type 0 where
  missing invalid : Member
  text : Str → Member

pub record Payload : Type 0 where
  pub sync_key : Member
  pub device_id : Member
  pub to : Member

-- What `json::parse` makes of a body, as far as the session looks: `raw` is the text of the whole
-- message, which is what `forward` passes on.
pub data Incoming : Type 0 where
  unparsable : Incoming
  no_type_or_payload : Incoming
  message : (type raw : Str) → Payload → Incoming

abbrev pub type_register : Str
type_register = bytes "REGISTER"

abbrev pub type_signal : Str
type_signal = bytes "SIGNAL"

abbrev pub assign_key : Tracker → ℕ → Str → Tracker
assign_key t session key = record t {
  sessions = set_session session (record (t.sessions session) { sync_key = key }) t.sessions;
}

abbrev pub assign_id : Tracker → ℕ → Str → Tracker
assign_id t session id = record t {
  sessions = set_session session (record (t.sessions session) { id = id }) t.sessions;
}

-- `handle_register` from the test of `device_id` on.
unfoldable pub register_device : Tracker → ℕ → Str → Member → Tracker
register_device t session key missing = t
register_device t session key invalid = t
register_device t session key (text device_id) =
    if nat_eq (length device_id) 0 then t else join (assign_id t session device_id) session key

-- An exception is caught in `handle_message`: what was assigned before it stays.
unfoldable pub register_key : Tracker → ℕ → Member → Member → Tracker
register_key t session device_id missing = t
register_key t session device_id invalid = t
register_key t session device_id (text key) = elim (get_sync_key_validation_error key) [
  | some error ↦ assign_key t session key
  | none ↦ register_device (assign_key t session key) session key device_id
]

unfoldable pub handle_register : Tracker → ℕ → Payload → Tracker
unfolding register_key register_device
handle_register t session payload = register_key t session payload.device_id payload.sync_key

unfoldable pub handle_signal : Tracker → Payload → Str → Tracker
handle_signal t payload raw = elim payload.to [
  | missing ↦ t
  | invalid ↦ t
  | text to_peer_id ↦ if nat_eq (length to_peer_id) 0 then t else forward t to_peer_id raw
]

unfoldable pub handle_message : Tracker → ℕ → Incoming → Tracker
unfolding handle_register handle_signal
handle_message t session unparsable = t
handle_message t session no_type_or_payload = t
handle_message t session (message type raw payload) =
    if str_eq type type_register
    then handle_register t session payload
    else if str_eq type type_signal
    then handle_signal t payload raw
    else t

unfoldable pub set_reading : Tracker → ℕ → Reading → Tracker
set_reading t session reading = record t {
  sessions = set_session session (record (t.sessions session) { reading = reading }) t.sessions;
}

unfoldable pub handle_read_header : ℕ → Tracker → ℕ → Option ℕ → Tracker
unfolding set_reading
handle_read_header max_message_length t session none = leave (set_reading t session stopped) session
handle_read_header max_message_length t session (some msg_len) =
    if ltb max_message_length msg_len
    then leave (set_reading t session stopped) session
    else set_reading t session (body msg_len)

unfoldable pub handle_read_body : Tracker → ℕ → Option Incoming → Tracker
unfolding set_reading handle_message
handle_read_body t session none = leave (set_reading t session stopped) session
handle_read_body t session (some incoming) =
    set_reading (handle_message t session incoming) session header

-- The completion of a read: `none` is an error code. A completion of a kind that the session does
-- not wait for does not occur.
pub data Event : Type 0 where
  header_read : ℕ → Option ℕ → Event
  body_read : ℕ → Option Incoming → Event

unfoldable pub handle_event : ℕ → Tracker → Event → Tracker
unfolding handle_read_header handle_read_body
handle_event max t (header_read session result) = elim (t.sessions session).reading [
  | header ↦ handle_read_header max t session result
  | body n ↦ t
  | stopped ↦ t
]
handle_event max t (body_read session result) = elim (t.sessions session).reading [
  | header ↦ t
  | body n ↦ handle_read_body t session result
  | stopped ↦ t
]

unfoldable pub run : ℕ → Tracker → List Event → Tracker
unfolding handle_event
run max t [] = t
run max t (e ∷ events) = run max (handle_event max t e) events
