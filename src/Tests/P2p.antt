-- ===== src/Tests/P2p.antt =====
-- Connections between two devices.
use veritas_sync.Base.{
  ℕ, ◌+◌, ◌%◌, ◌^◌, ◌≤◌, ◌<◌, ◌≡◌, refl, ◌⊎◌, Bool, true, false, not, List, [], ◌∷◌, none, some,
  arith, Str, ◌==◌, str_key, nat_key, str_eq, if◌then◌else◌, length,
}
use veritas_sync.P2p.PeerController.{
  disconnected, connecting, connected, IceState, ice_connecting, ice_connected, ice_completed,
  SyncProgress, Peer, is_offer_side, calculate_conv, close,
}
use veritas_sync.Base.Map.{find, insert_or_assign}
use veritas_sync.P2p.PeerController.Roles.{ends_agree}
use veritas_sync.P2p.PeerController.Lifecycle.{
  Op, initiates, ice_changes, closes, run, Dead, count_connected, count_attempts, is_connecting,
  run-close-Dead, connected_once_per_attempt,
}
use veritas_sync.P2p.PeerRegistry.{
  Registry, try_add, try_reuse_or_evict, closed_of, IsReplaceable, reuse_or_evict_outcome,
}
use veritas_sync.P2p.KcpScheduler.{Scheduler}
use veritas_sync.P2p.KcpScheduler.Pace.{Spaced, ping_times, ping_times-Spaced}
use veritas_sync.Sync.SyncSession.{SyncBegin, begin_progress, handle_sync_begin, expire}
use veritas_sync.Sync.SyncSession.Crossing.{crossing_begins}
use veritas_sync.Sync.SyncSession.Timeout.{Receipt, files, dirs, received, timeout_reports_received}
use veritas_sync.Tests.Common.{text_a, text_b, text_c, differ}

abbrev idle : SyncProgress
idle = record {
  session_id = 0;
  expected_files = 0;
  expected_dirs = 0;
  received_files = 0;
  received_dirs = 0;
}

-- The controller of device "a" for device "b".
abbrev near : Peer
near = record {
  self_id = text_a;
  peer_id = text_b;
  state = connected;
  closed = false;
  kcp_initialized = true;
  has_kcp = true;
  has_ice = true;
  is_lan_direct = false;
  lan_open = false;
  progress = record {
    session_id = 5;
    expected_files = 0;
    expected_dirs = 0;
    received_files = 0;
    received_dirs = 0;
  };
  timer = none;
}

abbrev far : Peer
far = record near {
  self_id = text_b;
  peer_id = text_a;
  progress = record {
    session_id = 6;
    expected_files = 0;
    expected_dirs = 0;
    received_files = 0;
    received_dirs = 0;
  };
}

abbrev waiting_peer : Peer
waiting_peer = record near { progress = idle; state = connected }

abbrev lost : Peer
lost = record near { state = disconnected }

abbrev near_begin : SyncBegin
near_begin = record { session_id = 5; file_count = 3; dir_count = 1 }

abbrev far_begin : SyncBegin
far_begin = record { session_id = 6; file_count = 2; dir_count = 0 }

abbrev calls : List Op
calls =
    initiates true ∷ ice_changes true ice_connected ∷ closes ∷ ice_changes true ice_completed ∷ []

abbrev recovery : List (Bool × IceState)
recovery = (true, ice_connecting) ∷ (true, ice_connected) ∷ (true, ice_completed) ∷ []

abbrev hash_length : Str → ℕ
hash_length t = length t

-- The same hash in the program of the other side, which counts from the back.
abbrev hash_sum : Str → ℕ
hash_sum [] = 0
hash_sum (_ ∷ t) = hash_sum t + 1

abbrev two_batches : List Receipt
two_batches = dirs 1 ∷ files 2 ∷ []

hash_sum-eq : (t : Str) → hash_length t ≡ hash_sum t
hash_sum-eq [] = refl
hash_sum-eq (_ ∷ t) = omega (arith, hash_sum-eq t)

abbrev registry : Registry
registry = (text_b, lost) ∷ []

abbrev due_soon : Peer → ℕ → ℕ
due_soon p now = now + 7

abbrev at_start : Scheduler
at_start = record { interval_ms = 20; last_keepalive_time = 0 }

abbrev passes_of_near : List (ℕ × List Peer)
passes_of_near = (20000000000, near ∷ []) ∷ (21000000000, near ∷ []) ∷ (36000000000, near ∷ []) ∷ []

ends_agree_example :
    (is_offer_side near ≡ not (is_offer_side far))
    × (calculate_conv hash_length near ≡ calculate_conv hash_sum far)
    × (calculate_conv hash_length near < 2 ^ 32)
unfolding str_eq
ends_agree_example =
    ends_agree hash_length hash_sum near far (refl, refl) (differ text_a text_b refl) hash_sum-eq

run-close-Dead_example :
    Dead (run (close near) calls).0 × (count_connected (run (close near) calls).1 ≡ 0)
run-close-Dead_example = run-close-Dead near calls

connected_once_per_attempt_example :
    count_connected (run near calls).1 ≤ count_attempts calls + is_connecting near.state
connected_once_per_attempt_example = connected_once_per_attempt near calls

reuse_or_evict_outcome_example :
    ((p : Peer) × (find text_b registry ≡ some p)
      × (false ≡ false)
      × ((p.state ≡ connected) ⊎ (p.state ≡ connecting))
      × (try_reuse_or_evict text_b false registry ≡ (registry, true, none)))
    ⊎ ((s : Registry) × IsReplaceable text_b false registry
        × (try_reuse_or_evict text_b false registry ≡ (s, false, closed_of (find text_b registry)))
        × (find text_c s ≡ (if text_b == text_c then none else find text_c registry))
        × (try_add text_b near s ≡ (insert_or_assign text_b near s, true))
        × (find text_b (try_add text_b near s).0 ≡ some near))
reuse_or_evict_outcome_example = reuse_or_evict_outcome registry text_b text_c false near

ping_times-Spaced_example :
    Spaced at_start.last_keepalive_time (ping_times due_soon passes_of_near at_start)
ping_times-Spaced_example = ping_times-Spaced due_soon passes_of_near at_start

crossing_begins_example :
    ((is_offer_side near ≡ true)
      × ((handle_sync_begin (some far_begin) near).0 ≡ near)
      × ((handle_sync_begin (some near_begin) far).0.progress ≡ begin_progress near_begin))
    ⊎ ((is_offer_side far ≡ true)
        × ((handle_sync_begin (some near_begin) far).0 ≡ far)
        × ((handle_sync_begin (some far_begin) near).0.progress ≡ begin_progress far_begin))
unfolding str_eq
crossing_begins_example =
    crossing_begins near far near_begin far_begin (refl, refl) (differ text_a text_b refl) refl refl
      (λ e. omega (arith, e)) (λ e. omega (arith, e))

timeout_reports_received_example :
    ((received near_begin two_batches waiting_peer).progress.session_id ≡ near_begin.session_id)
    × ((received near_begin two_batches waiting_peer).progress.received_files ≡ 2 % 2 ^ 64)
    × ((received near_begin two_batches waiting_peer).progress.received_dirs ≡ 1 % 2 ^ 64)
    × ((expire true (received near_begin two_batches waiting_peer)).1 ≡ none)
    × ((expire true (received near_begin two_batches waiting_peer)).0.progress.session_id
        ≡ near_begin.session_id)
unfolding handle_sync_begin
timeout_reports_received_example =
    timeout_reports_received near_begin two_batches waiting_peer true refl
