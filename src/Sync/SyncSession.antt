-- ===== src/Sync/SyncSession.antt =====
-- include/VeritasSync/sync/SyncSession.h and src/sync/SyncSession.cpp: the flood synchronisation of
-- two peers. What nlohmann::json reads from a message is an argument, none where it throws; what is
-- sent is returned.
pub mod Crossing
pub mod Timeout
pub mod Acknowledgement
use veritas_sync.Base.{
  ℕ, zero, suc, ◌+◌, ◌-◌, ◌*◌, ◌/◌, ◌%◌, ◌^◌, ◌≤◌, ◌<◌, min, ◌≡◌, refl, sym, ap, ◌∙◌, subst, ◌≢◌,
  ◌↔◌, ◌⊎◌, inl, inr, Bool, true, false, not, ◌&&◌, ◌||◌, List, [], ◌∷◌, ◌++◌, map, Option, none,
  some, arith, Str, KeyEq, ◌==◌, str_key, nat_key, nat_eq, nat_eq_iff, str_eq, str_eq_iff,
  str_eq_refl, ltb, leb, if◌then◌else◌, length, take, drop, get_elem?, Bool-cases, Option-cases,
  All, any, bytes, contains, In, keep_if, In-append, In-append_left, In-append_right, keep_if-In,
  In-keep_if, length-append, drop-append, length-keep_if, All-append, All-reverse,
}
use veritas_sync.P2p.PeerController.{
  SyncProgress, Timer, Peer, is_offer_side, start_sync_timeout, is_connected,
}

pub record SyncBegin : Type 0 where
  pub session_id : ℕ
  pub file_count : ℕ
  pub dir_count : ℕ

pub record SyncAck : Type 0 where
  pub session_id : ℕ
  pub received_files : ℕ
  pub received_dirs : ℕ

unfoldable pub begin_progress : SyncBegin → SyncProgress
begin_progress b = record {
  session_id = b.session_id;
  expected_files = b.file_count;
  expected_dirs = b.dir_count;
  received_files = 0;
  received_dirs = 0;
}

-- The second component says whether the callback for the start of a flood is called.
unfoldable pub handle_sync_begin : Option SyncBegin → Peer → Peer × Bool
unfolding begin_progress start_sync_timeout
handle_sync_begin none p = (p, false)
handle_sync_begin (some b) p =
    if not (nat_eq p.progress.session_id 0) && is_offer_side p
    then (p, false)
    else (start_sync_timeout (record p { progress = begin_progress b }) b.session_id, true)

unfoldable pub progress_ack : ℕ → SyncProgress → SyncAck
progress_ack session_id g = record {
  session_id = session_id;
  received_files = g.received_files;
  received_dirs = g.received_dirs;
}

-- The handler of the timer, with the session it was given; `ec` says that the wait was cancelled and
-- `registered` that the registry still has the peer.
unfoldable pub on_sync_timeout : Bool → Bool → ℕ → Peer → Peer × Option SyncAck
unfolding progress_ack
on_sync_timeout ec registered session_id p =
    if ec
    then (p, none)
    else if not (registered && is_connected p)
    then (p, none)
    else if not (nat_eq p.progress.session_id session_id)
    then (p, none)
    else (
      record p { progress = record p.progress { session_id = 0 } },
      some (progress_ack session_id p.progress),
    )

-- The time of the timer is up: its wait, if there is one, is over.
unfoldable pub expire : Bool → Peer → Peer × Option SyncAck
unfolding on_sync_timeout
expire registered p = elim p.timer [
  | none ↦ (p, none)
  | some t ↦
      on_sync_timeout (not t.waiting) registered t.session
        (record p { timer = some (record { session = t.session; waiting = false }) })
]

-- The number of the session that is run again, when the peer is still registered; `now` is the
-- clock's count.
unfoldable pub handle_sync_ack : ℕ → Bool → Option SyncAck → Peer → Peer × Option ℕ
handle_sync_ack now registered none p = (p, none)
handle_sync_ack now registered (some a) p =
    if not (nat_eq a.session_id p.progress.session_id) then (p, none) else (
      record p { progress = record p.progress { session_id = now } },
      if registered then some now else none,
    )
