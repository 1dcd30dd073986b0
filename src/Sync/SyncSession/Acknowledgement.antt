-- ===== src/Sync/SyncSession/Acknowledgement.antt =====
-- The acknowledgement of a flood, and what the sender makes of it.
use veritas_sync.Base.{
  [], ℕ, ◌≡◌, refl, ◌≢◌, ◌⊎◌, inl, inr, Bool, true, none, some, arith, str_key, nat_key, nat_eq,
  Bool-cases,
}
use veritas_sync.Base.{nat_eq_refl}
use veritas_sync.P2p.PeerController.{Peer, is_connected}
use veritas_sync.Sync.SyncSession.{SyncBegin, SyncAck, handle_sync_begin, expire, handle_sync_ack}
use veritas_sync.Sync.SyncSession.Timeout.{received, timeout_reports_received}

ack_cases :
    (now : ℕ) (registered : Bool) (a : SyncAck) (p : Peer)
    → ((a.session_id ≢ p.progress.session_id)
        × (handle_sync_ack now registered (some a) p ≡ (p, none)))
      ⊎ ((handle_sync_ack now registered (some a) p).0.progress.session_id ≡ now)
unfolding handle_sync_ack
ack_cases now registered a p = elim (Bool-cases (nat_eq a.session_id p.progress.session_id)) [
  | inl h ↦ inr (rw h refl)
  | inr h ↦ inl (ground arith, rw h refl)
]

other_session :
    (now : ℕ) (registered : Bool) (a : SyncAck) (p : Peer)
    → a.session_id ≢ p.progress.session_id
    → (handle_sync_ack now registered (some a) p).1 ≡ none
unfolding handle_sync_ack
other_session now registered a p n = ground (arith, n)

-- An acknowledgement that arrives twice makes the sender run the session again at most once: the
-- second copy asks for nothing, when the clock's count at the first is not the number of the session
-- that is acknowledged.
pub ack_resyncs_once :
    (a : SyncAck) (now later : ℕ) (first second : Bool) (p : Peer)
    → a.session_id ≢ now
    → (handle_sync_ack later second (some a) (handle_sync_ack now first (some a) p).0).1 ≡ none
ack_resyncs_once a now later first second p n = elim (ack_cases now first a p) [
  | inl (m, e) ↦ rw e (other_session later second a p m)
  | inr e ↦ other_session later second a (handle_sync_ack now first (some a) p).0 (rw e n)
]

-- When a connected peer accepts the sender's begin, receives no message of the flood, and its timer
-- expires, the sender, whose session is still that one, is made to run the whole session again under
-- a new number.
pub lost_flood_resyncs :
    (b : SyncBegin) (sender receiver : Peer) (now : ℕ)
    → sender.progress.session_id ≡ b.session_id
    → (handle_sync_begin (some b) receiver).1 ≡ true
    → is_connected receiver ≡ true
    → ((handle_sync_ack now true (expire true (received b [] receiver)).1 sender).1 ≡ some now)
      × ((handle_sync_ack now true
            (expire true (received b [] receiver)).1
            sender).0.progress.session_id
          ≡ now)
unfolding handle_sync_ack
lost_flood_resyncs b sender receiver now e h k =
    let report = (timeout_reports_received b [] receiver true h).3 in
    rw (report, k, e, nat_eq_refl b.session_id) (refl, refl)
