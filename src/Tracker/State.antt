-- ===== src/Tracker/State.antt =====
-- The state of the tracker: tracker/Session.h, tracker/TrackerServer.h, common/SignalProto.h.
use veritas_sync.Base.{
  ℕ, not, List, [], ◌∷◌, map, none, some, Str, str_key, nat_key, nat_eq, if◌then◌else◌, contains,
  keep_if,
}
use veritas_sync.Base.Map.{Map, find}

-- What a session reads next: `do_read_header`, `do_read_body`, or nothing more after it left.
pub data Reading : Type 0 where
  header : Reading
  body : ℕ → Reading
  stopped : Reading

-- `m_id`, `m_sync_key` and the pending read. The socket is not modelled.
pub record Session : Type 0 where
  pub id : Str
  pub sync_key : Str
  pub reading : Reading

-- What the server sends. A forwarded signal is the whole message that came in.
pub data Message : Type 0 where
  reg_ack : Str → List Str → Message
  peer_join : Str → Message
  peer_leave : Str → Message
  signal : Str → Message

-- A shared pointer to a session is a number; `sessions` is the heap that it points into. `sent`
-- logs every call of `Session::send`, oldest first.
pub record Tracker : Type 0 where
  pub sessions : ℕ → Session
  pub peer_groups : Map Str (List ℕ)
  pub peers_by_id : Map Str ℕ
  pub sent : List (ℕ × Message)

abbrev pub set_session : ℕ → Session → (ℕ → Session) → ℕ → Session
set_session s value heap x = if nat_eq x s then value else heap x

abbrev pub get_id : Tracker → ℕ → Str
get_id t s = (t.sessions s).id

-- `std::set<std::shared_ptr<Session>>`
unfoldable pub set_insert : ℕ → List ℕ → List ℕ
set_insert s set = if contains set s then set else s ∷ set

unfoldable pub set_erase : ℕ → List ℕ → List ℕ
set_erase s set = keep_if (λ x. not (nat_eq x s)) set

-- The room of a key; `operator[]` makes an empty one.
unfoldable pub group_of : Str → Map Str (List ℕ) → List ℕ
group_of key groups = elim (find key groups) [ none ↦ [] | some set ↦ set ]

-- One message to each session of the list.
abbrev pub send_all : Message → List ℕ → List (ℕ × Message)
send_all message = map (λ s. (s, message))
