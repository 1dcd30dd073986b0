-- ===== src/Sync/SyncSession/Timeout.antt =====
-- The timer of a session that is received, and src/sync/SyncHandler.cpp: the handlers that count
-- what is received. Each of them then posts a refresh of the timer, which is taken to run before
-- the next message is handled.
use veritas_sync.Base.{
  ℕ, ◌+◌, ◌%◌, ◌^◌, ◌≡◌, refl, Bool, true, false, none, some, arith, str_key, nat_key, List, [],
  ◌∷◌, ◌&&◌, if◌then◌else◌,
}
use veritas_sync.P2p.PeerController.{
  SyncProgress, Peer, PeerState, start_sync_timeout, refresh_sync_timeout, is_connected,
  add_received_file_count, add_received_dir_count,
}
use veritas_sync.Sync.SyncSession.{
  SyncAck, SyncBegin, begin_progress, handle_sync_begin, progress_ack, on_sync_timeout, expire,
}

-- What a message adds to the counts.
pub data Receipt : Type 0 where
  files dirs : ℕ → Receipt

-- The count, and the refresh that follows it.
unfoldable pub receive : Peer → Receipt → Peer
unfolding add_received_file_count add_received_dir_count refresh_sync_timeout
receive p (files delta) =
    (refresh_sync_timeout (add_received_file_count delta p) p.progress.session_id).0
receive p (dirs delta) =
    (refresh_sync_timeout (add_received_dir_count delta p) p.progress.session_id).0

unfoldable pub receive_all : Peer → List Receipt → Peer
unfolding receive
receive_all p [] = p
receive_all p (r ∷ receipts) = receive_all (receive p r) receipts

abbrev pub total_files : List Receipt → ℕ
total_files [] = 0
total_files (files delta ∷ receipts) = delta + total_files receipts
total_files (dirs delta ∷ receipts) = total_files receipts

abbrev pub total_dirs : List Receipt → ℕ
total_dirs [] = 0
total_dirs (files delta ∷ receipts) = total_dirs receipts
total_dirs (dirs delta ∷ receipts) = delta + total_dirs receipts

abbrev pub is_none_received : List Receipt → Bool
is_none_received [] = true
is_none_received (_ ∷ _) = false

-- A peer in a session whose timer was set for that session.
record InSession (session_id file_count dir_count : ℕ) (state : PeerState) (waiting : Bool)
    (p : Peer) : Type 0 where
  session : p.progress.session_id ≡ session_id
  file_count_eq : p.progress.received_files ≡ file_count % 2 ^ 64
  dir_count_eq : p.progress.received_dirs ≡ dir_count % 2 ^ 64
  state_eq : p.state ≡ state
  timer_eq : p.timer ≡ some (record { session = session_id; waiting = waiting })

refresh-InSession :
    (s m n id : ℕ) (state : PeerState) (waiting : Bool) (p : Peer)
    → id ≡ s
    → InSession s m n state waiting p
    → InSession s m n state false (refresh_sync_timeout p id).0
unfolding refresh_sync_timeout
refresh-InSession s m n id state waiting p e i = record {
  session = ground (arith, i.session, i.timer_eq);
  file_count_eq = ground (arith, i.file_count_eq, i.timer_eq);
  dir_count_eq = ground (arith, i.dir_count_eq, i.timer_eq);
  state_eq = ground (arith, i.state_eq, i.timer_eq);
  timer_eq = ground (arith, i.session, i.timer_eq);
}

receive-InSession_files :
    (s m n delta : ℕ) (state : PeerState) (waiting : Bool) (p : Peer)
    → InSession s m n state waiting p
    → InSession s (m + delta) n state false (receive p (files delta))
unfolding receive add_received_file_count
receive-InSession_files s m n delta state waiting p i =
    refresh-InSession s (m + delta) n p.progress.session_id state waiting
      (add_received_file_count delta p) i.session
      (record {
        session = i.session;
        file_count_eq = omega (arith, i.file_count_eq);
        dir_count_eq = i.dir_count_eq;
        state_eq = i.state_eq;
        timer_eq = i.timer_eq;
      })

receive-InSession_dirs :
    (s m n delta : ℕ) (state : PeerState) (waiting : Bool) (p : Peer)
    → InSession s m n state waiting p
    → InSession s m (n + delta) state false (receive p (dirs delta))
unfolding receive add_received_dir_count
receive-InSession_dirs s m n delta state waiting p i =
    refresh-InSession s m (n + delta) p.progress.session_id state waiting
      (add_received_dir_count delta p) i.session
      (record {
        session = i.session;
        file_count_eq = i.file_count_eq;
        dir_count_eq = omega (arith, i.dir_count_eq);
        state_eq = i.state_eq;
        timer_eq = i.timer_eq;
      })

InSession-counts :
    (s m n k l : ℕ) (state : PeerState) (waiting heard : Bool) (p : Peer)
    → m ≡ k
    → n ≡ l
    → waiting ≡ heard
    → InSession s m n state waiting p
    → InSession s k l state heard p
InSession-counts s m n k l state waiting heard p e f g i = rw⁻¹ (e, f, g) i

receive_all-InSession :
    (s m n : ℕ) (state : PeerState) (waiting : Bool) (p : Peer) (receipts : List Receipt)
    → InSession s m n state waiting p
    → InSession s
        (m + total_files receipts)
        (n + total_dirs receipts)
        state
        (waiting && is_none_received receipts)
        (receive_all p receipts)
unfolding receive_all
receive_all-InSession s m n state waiting p [] i =
    InSession-counts s m n (m + 0) (n + 0) state waiting (waiting && true) p (omega arith)
      (omega arith) (ground arith) i
receive_all-InSession s m n state waiting p (files delta ∷ receipts) i =
    let j =
      receive_all-InSession s (m + delta) n state false (receive p (files delta)) receipts
        (receive-InSession_files s m n delta state waiting p i) in
    InSession-counts s _ _ _ _ state _ (waiting && false) _ (omega arith) (omega arith)
      (ground arith) j
receive_all-InSession s m n state waiting p (dirs delta ∷ receipts) i =
    let j =
      receive_all-InSession s m (n + delta) state false (receive p (dirs delta)) receipts
        (receive-InSession_dirs s m n delta state waiting p i) in
    InSession-counts s _ _ _ _ state _ (waiting && false) _ (omega arith) (omega arith)
      (ground arith) j

accepted-InSession :
    (b : SyncBegin) (p : Peer)
    → (handle_sync_begin (some b) p).1 ≡ true
    → InSession b.session_id 0 0 p.state true (handle_sync_begin (some b) p).0
unfolding handle_sync_begin begin_progress start_sync_timeout
accepted-InSession b p h = record {
  session = ground arith;
  file_count_eq = ground arith;
  dir_count_eq = ground arith;
  state_eq = ground arith;
  timer_eq = ground arith;
}

expire-InSession :
    (s m n : ℕ) (state : PeerState) (waiting registered : Bool) (p : Peer)
    → InSession s m n state waiting p
    → ((expire registered p).1 ≡ (
        if waiting && registered && is_connected p then some (progress_ack s p.progress) else none))
      × ((expire registered p).0.progress.session_id
          ≡ (if waiting && registered && is_connected p then 0 else s))
unfolding expire on_sync_timeout
expire-InSession s m n state waiting registered p i =
    (ground (arith, i.session, i.timer_eq), ground (arith, i.session, i.timer_eq))

connected_as : (p q : Peer) → p.state ≡ q.state → is_connected p ≡ is_connected q
connected_as p q e = rw e refl

-- The peer after a begin and the messages that follow it.
abbrev pub received : SyncBegin → List Receipt → Peer → Peer
received b receipts p = receive_all (handle_sync_begin (some b) p).0 receipts

abbrev nothing_received : SyncBegin → SyncAck
nothing_received b = record { session_id = b.session_id; received_files = 0; received_dirs = 0 }

same_report :
    (b : SyncBegin) (receipts : List Receipt) (r c : Bool) (g : SyncProgress)
    → g.received_files ≡ total_files receipts % 2 ^ 64
    → g.received_dirs ≡ total_dirs receipts % 2 ^ 64
    → (if is_none_received receipts && r && c then some (progress_ack b.session_id g) else none)
      ≡ (if is_none_received receipts && r && c then some (nothing_received b) else none)
unfolding progress_ack
same_report b [] r c g e f = rw (e, f) refl
same_report b (_ ∷ _) r c g e f = refl

-- When a begin is accepted and files and directories are then received, each message with the
-- refresh of the timer that follows it, the counts are the sums modulo 2^64 and the peer is in the
-- begin's session. The expiry of the timer reports only if no message was received, and then it
-- reports zero files and directories and ends the session, if the peer is registered and connected;
-- after one message or more it reports nothing and the session stays.
pub timeout_reports_received :
    (b : SyncBegin) (receipts : List Receipt) (p : Peer) (registered : Bool)
    → (handle_sync_begin (some b) p).1 ≡ true
    → ((received b receipts p).progress.session_id ≡ b.session_id)
      × ((received b receipts p).progress.received_files ≡ total_files receipts % 2 ^ 64)
      × ((received b receipts p).progress.received_dirs ≡ total_dirs receipts % 2 ^ 64)
      × ((expire registered (received b receipts p)).1 ≡ (
          if is_none_received receipts && registered && is_connected p
          then some (nothing_received b)
          else none))
      × ((expire registered (received b receipts p)).0.progress.session_id
          ≡ (if is_none_received receipts && registered && is_connected p then 0 else b.session_id))
timeout_reports_received b receipts p registered h =
    let i =
      InSession-counts b.session_id _ _ (total_files receipts) (total_dirs receipts) p.state _
        (is_none_received receipts) _ (omega arith) (omega arith) refl
        (receive_all-InSession b.session_id 0 0 p.state true _ receipts
          (accepted-InSession b p h)) in
    let (report, left) = expire-InSession b.session_id _ _ p.state _ registered _ i in
    let up = connected_as (received b receipts p) p i.state_eq in
    (
      i.session,
      i.file_count_eq,
      i.dir_count_eq,
      rw
          (
            up,
            same_report b receipts registered (is_connected p) (received b receipts p).progress
                i.file_count_eq i.dir_count_eq,
          )
          at report,
      rw up at left,
    )
