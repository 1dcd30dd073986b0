-- ===== src/P2p/PeerController/Lifecycle.antt =====
-- When a controller can be connected, and how often that is reported.
use veritas_sync.Base.{
  ℕ, suc, ◌+◌, ◌≤◌, ◌≡◌, refl, ◌⊎◌, inl, Bool, true, false, List, [], ◌∷◌, ◌++◌, map, arith, Str,
  str_key, nat_key, str_eq, bytes, if◌then◌else◌,
}
use veritas_sync.P2p.PeerController.{
  PeerState, disconnected, connecting, connected, failed, IceState, ice_connected, ice_completed,
  Peer, initiate_connection, handle_signaling, close, on_ice_state_changed,
}

-- A call from outside, or an event of the ICE agent. The flags say whether KCP sessions can be
-- created.
pub data Op : Type 0 where
  initiates : Bool → Op
  signals : Str → Op
  ice_changes : Bool → IceState → Op
  closes : Op

-- The controller after an operation, and the states that it reports.
unfoldable pub apply : Peer → Op → Peer × List PeerState
apply p (initiates created) = initiate_connection created p
apply p (signals type) = (handle_signaling p type, [])
apply p (ice_changes created state) = on_ice_state_changed created p state
apply p closes = (close p, [])

unfoldable pub run : Peer → List Op → Peer × List PeerState
unfolding apply
run p [] = (p, [])
run p (op ∷ ops) = ((run (apply p op).0 ops).0, (apply p op).1 ++ (run (apply p op).0 ops).1)

-- What holds of a closed controller.
pub record Dead (p : Peer) : Type 0 where
  pub closed : p.closed ≡ true
  pub no_kcp : p.has_kcp ≡ false
  pub no_ice : p.has_ice ≡ false
  pub no_lan : p.lan_open ≡ false
  pub idle : (p.state ≡ disconnected) ⊎ (p.state ≡ failed)

apply-Dead : (p : Peer) (op : Op) → Dead p → Dead (apply p op).0
unfolding apply initiate_connection handle_signaling close on_ice_state_changed
apply-Dead p (initiates created) d = ground arith
apply-Dead p (signals type) d = ground arith
apply-Dead p (ice_changes created ice_connected) d = ground arith
apply-Dead p (ice_changes created ice_completed) d = ground arith
apply-Dead p (ice_changes created _) d = ground arith
apply-Dead p closes d = ground arith

-- Reports of a connection.
abbrev pub count_connected : List PeerState → ℕ
count_connected [] = 0
count_connected (connected ∷ states) = suc (count_connected states)
count_connected (disconnected ∷ states) = count_connected states
count_connected (connecting ∷ states) = count_connected states
count_connected (failed ∷ states) = count_connected states

-- Operations that begin an attempt to connect: a call of `initiate_connection`, and an offer from the
-- other side.
abbrev pub count_attempts : List Op → ℕ
count_attempts [] = 0
count_attempts (initiates created ∷ ops) = suc (count_attempts ops)
count_attempts (signals type ∷ ops) =
    (if str_eq type (bytes "sdp_offer") then 1 else 0) + count_attempts ops
count_attempts (ice_changes created state ∷ ops) = count_attempts ops
count_attempts (closes ∷ ops) = count_attempts ops

abbrev pub is_connecting : PeerState → ℕ
is_connecting connecting = 1
is_connecting disconnected = 0
is_connecting connected = 0
is_connecting failed = 0

apply-Dead_silent : (p : Peer) (op : Op) → Dead p → count_connected (apply p op).1 ≡ 0
unfolding apply initiate_connection on_ice_state_changed
apply-Dead_silent p (initiates created) d = ground arith
apply-Dead_silent p (signals type) d = refl
apply-Dead_silent p (ice_changes created ice_connected) d = ground arith
apply-Dead_silent p (ice_changes created ice_completed) d = ground arith
apply-Dead_silent p (ice_changes created _) d = ground arith
apply-Dead_silent p closes d = refl

count_connected-append :
    (xs ys : List PeerState) → count_connected (xs ++ ys) ≡ count_connected xs + count_connected ys
count_connected-append [] ys = omega arith
count_connected-append (connected ∷ xs) ys = omega (arith, count_connected-append xs ys)
count_connected-append (disconnected ∷ xs) ys = count_connected-append xs ys
count_connected-append (connecting ∷ xs) ys = count_connected-append xs ys
count_connected-append (failed ∷ xs) ys = count_connected-append xs ys

run-Dead :
    (p : Peer) (ops : List Op) → Dead p → Dead (run p ops).0 × (count_connected (run p ops).1 ≡ 0)
unfolding run
run-Dead p [] d = (d, refl)
run-Dead p (op ∷ ops) d =
    let (dead, silent) = run-Dead (apply p op).0 ops (apply-Dead p op d) in
    (
      dead,
      omega (
        arith,
        count_connected-append (apply p op).1 (run (apply p op).0 ops).1,
        apply-Dead_silent p op d,
        silent,
      ),
    )

-- A controller that has been closed stays so: after any further calls and late ICE events it is
-- closed and not connected, it has no KCP session and no ICE agent, its LAN socket is not open,
-- and no connection was reported.
pub run-close-Dead :
    (p : Peer) (ops : List Op)
    → Dead (run (close p) ops).0 × (count_connected (run (close p) ops).1 ≡ 0)
unfolding close
run-close-Dead p ops =
    run-Dead (close p) ops
      (record { closed = refl; no_kcp = refl; no_ice = refl; no_lan = refl; idle = inl refl })

apply_credit :
    (p : Peer) (op : Op)
    → count_connected (apply p op).1 + is_connecting (apply p op).0.state
      ≤ count_attempts (op ∷ []) + is_connecting p.state
unfolding apply initiate_connection handle_signaling close on_ice_state_changed
apply_credit p (initiates created) = ground arith
apply_credit p (signals type) = ground arith
apply_credit p (ice_changes created ice_connected) = ground arith
apply_credit p (ice_changes created ice_completed) = ground arith
apply_credit p (ice_changes created _) = ground arith
apply_credit p closes = ground arith

count_attempts-cons :
    (op : Op) (ops : List Op)
    → count_attempts (op ∷ ops) ≡ count_attempts (op ∷ []) + count_attempts ops
count_attempts-cons (initiates created) ops = omega arith
count_attempts-cons (signals type) ops = omega arith
count_attempts-cons (ice_changes created state) ops = omega arith
count_attempts-cons closes ops = omega arith

-- A connection is reported at most once for each attempt: the number of reports is at most that
-- of the calls of `initiate_connection` and of the offers received, plus one if an attempt was under
-- way at the start. Other signals do not count.
pub connected_once_per_attempt :
    (p : Peer) (ops : List Op)
    → count_connected (run p ops).1 ≤ count_attempts ops + is_connecting p.state
unfolding run
connected_once_per_attempt p [] = omega arith
connected_once_per_attempt p (op ∷ ops) = omega (
  arith,
  count_connected-append (apply p op).1 (run (apply p op).0 ops).1,
  count_attempts-cons op ops,
  apply_credit p op,
  connected_once_per_attempt (apply p op).0 ops,
)

-- Events of the ICE agent alone.
abbrev pub ice_events : List (Bool × IceState) → List Op
ice_events = map (λ (created, state). ice_changes created state)

-- Not connected, and no attempt under way.
abbrev pub IsDown : PeerState → Type 0
IsDown state = (state ≡ disconnected) ⊎ (state ≡ failed)

apply-IsDown :
    (p : Peer) (created : Bool) (state : IceState)
    → IsDown p.state
    → IsDown (apply p (ice_changes created state)).0.state
unfolding apply on_ice_state_changed
apply-IsDown p created ice_connected d = ground arith
apply-IsDown p created ice_completed d = ground arith
apply-IsDown p created _ d = ground arith

-- Once the ICE agent has reported `Disconnected` or `Failed`, the controller does not notice that
-- it recovers: whatever states the agent reports from then on, `Connected` and `Completed`
-- included, the controller is disconnected or failed until a new attempt is begun.
pub ice_recovery_unnoticed :
    (p : Peer) (events : List (Bool × IceState))
    → IsDown p.state
    → IsDown (run p (ice_events events)).0.state
unfolding run
ice_recovery_unnoticed p [] d = d
ice_recovery_unnoticed p ((created, state) ∷ events) d =
    ice_recovery_unnoticed (apply p (ice_changes created state)).0 events
      (apply-IsDown p created state d)
