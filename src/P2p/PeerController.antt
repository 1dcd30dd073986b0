-- ===== src/P2p/PeerController.antt =====
-- include/VeritasSync/p2p/PeerController.h and src/p2p/PeerController.cpp: the connection to one
-- peer. ICE, KCP, the sockets and the encryption are behind flags that say whether the object is
-- there; the calls are taken one at a time. State changes that are reported to the layer above are
-- returned, oldest first.
pub mod Roles
pub mod Lifecycle
use veritas_sync.Base.{
  ℕ, zero, suc, ◌+◌, ◌-◌, ◌*◌, ◌/◌, ◌%◌, ◌^◌, ◌≤◌, ◌<◌, min, ◌≡◌, refl, sym, ap, ◌∙◌, subst, ◌≢◌,
  ◌↔◌, ◌⊎◌, inl, inr, Bool, true, false, not, ◌&&◌, ◌||◌, List, [], ◌∷◌, ◌++◌, map, Option, none,
  some, arith, Str, KeyEq, ◌==◌, str_key, nat_key, nat_eq, nat_eq_iff, str_eq, str_eq_iff,
  str_eq_refl, ltb, leb, if◌then◌else◌, length, take, drop, get_elem?, Bool-cases, Option-cases,
  All, any, bytes, contains, In, keep_if, In-append, In-append_left, In-append_right, keep_if-In,
  In-keep_if, length-append, drop-append, length-keep_if, All-append, All-reverse,
}

pub data PeerState : Type 0 where
  disconnected connecting connected failed : PeerState

-- The states of an ICE agent.
pub data IceState : Type 0 where
  ice_new ice_gathering ice_connecting ice_connected ice_completed ice_failed ice_disconnected :
      IceState

pub record SyncProgress : Type 0 where
  pub session_id : ℕ
  pub expected_files : ℕ
  pub expected_dirs : ℕ
  pub received_files : ℕ
  pub received_dirs : ℕ

-- `m_sync_timeout_timer`: the session whose handler it was given, and whether that handler still
-- waits for the expiry.
pub record Timer : Type 0 where
  pub session : ℕ
  pub waiting : Bool

pub record Peer : Type 0 where
  pub self_id : Str
  pub peer_id : Str
  pub state : PeerState
  pub closed : Bool
  pub kcp_initialized : Bool
  pub has_kcp : Bool
  pub has_ice : Bool
  pub is_lan_direct : Bool
  pub lan_open : Bool
  pub progress : SyncProgress
  pub timer : Option Timer

-- `operator<` of `std::string`.
unfoldable pub str_lt : Str → Str → Bool
str_lt a [] = false
str_lt [] (y ∷ b) = true
str_lt (x ∷ a) (y ∷ b) = ltb x y || (nat_eq x y && str_lt a b)

unfoldable pub is_offer_side : Peer → Bool
unfolding str_lt
is_offer_side p = str_lt p.self_id p.peer_id

-- `std::hash<std::string>` is up to the implementation.
unfoldable pub calculate_conv : (Str → ℕ) → Peer → ℕ
unfolding is_offer_side
calculate_conv hash p =
    hash (if is_offer_side p then p.self_id ++ p.peer_id else p.peer_id ++ p.self_id) % 2 ^ 32

-- `created` says whether `KcpSession::create` returns a session.
unfoldable pub setup_kcp_session : Bool → Peer → Peer
setup_kcp_session created p = if p.has_kcp || p.closed then p else record p { has_kcp = created }

unfoldable pub initiate_connection : Bool → Peer → Peer × List PeerState
unfolding setup_kcp_session
initiate_connection created p =
    if p.is_lan_direct
    then (if not p.lan_open
        then (p, [])
        else (record (setup_kcp_session created p) { state = connected }, connected ∷ []))
    else (if not p.has_ice then (p, []) else (record p { state = connecting }, []))

-- Only an offer changes the state; the other signals go on to the ICE agent.
unfoldable pub handle_signaling : Peer → Str → Peer
handle_signaling p signal_type =
    if p.is_lan_direct
    then p
    else if not p.has_ice
    then p
    else if str_eq signal_type (bytes "ice_candidate")
    then p
    else if str_eq signal_type (bytes "sdp_offer")
    then record p { state = connecting }
    else p

unfoldable pub close : Peer → Peer
close p = record p {
  closed = true;
  state = disconnected;
  timer = none;
  has_kcp = false;
  has_ice = false;
  lan_open = false;
  kcp_initialized = false;
}

-- The branch for `Connected` and `Completed`.
unfoldable pub on_ice_connected : Bool → Peer → Peer × List PeerState
unfolding setup_kcp_session
on_ice_connected created p =
    let ready =
      if p.kcp_initialized
      then p
      else setup_kcp_session created (record p { kcp_initialized = true }) in
    elim p.state [
      | connecting ↦ (record ready { state = connected }, connected ∷ [])
      | disconnected ↦ (ready, [])
      | connected ↦ (ready, [])
      | failed ↦ (ready, [])
    ]

unfoldable pub on_ice_state_changed : Bool → Peer → IceState → Peer × List PeerState
unfolding on_ice_connected
on_ice_state_changed created p ice_connected = on_ice_connected created p
on_ice_state_changed created p ice_completed = on_ice_connected created p
on_ice_state_changed created p ice_failed = (record p { state = failed }, failed ∷ [])
on_ice_state_changed created p ice_disconnected =
    (record p { state = disconnected }, disconnected ∷ [])
on_ice_state_changed created p ice_new = (p, [])
on_ice_state_changed created p ice_gathering = (p, [])
on_ice_state_changed created p ice_connecting = (p, [])

-- A timer that is there is cancelled, and its handler then does nothing.
unfoldable pub start_sync_timeout : Peer → ℕ → Peer
start_sync_timeout p session = record p {
  timer = some (record { session = session; waiting = true });
}

-- `expires_after` cancels the wait that is pending on the timer; no other is begun.
unfoldable pub refresh_sync_timeout : Peer → ℕ → Peer × Bool
refresh_sync_timeout p session_id = elim p.timer [
  | none ↦ (p, false)
  | some t ↦
      if nat_eq p.progress.session_id session_id
      then (record p { timer = some (record { session = t.session; waiting = false }) }, true)
      else (p, false)
]

abbrev pub is_connected : Peer → Bool
is_connected p = elim p.state [
  | connected ↦ true
  | disconnected ↦ false
  | connecting ↦ false
  | failed ↦ false
]

unfoldable pub add_received_file_count : ℕ → Peer → Peer
add_received_file_count delta p = record p {
  progress = record p.progress { received_files = (p.progress.received_files + delta) % 2 ^ 64 };
}

unfoldable pub add_received_dir_count : ℕ → Peer → Peer
add_received_dir_count delta p = record p {
  progress = record p.progress { received_dirs = (p.progress.received_dirs + delta) % 2 ^ 64 };
}
